-- ===== src/Address/Tests.antt =====
-- Socket addresses at concrete values.
use network_program.Prelude.{◌≡◌, refl, List, [], ◌∷◌, ℕ, none, some}
use network_program.Prelude.Int.{pos}
use network_program.Sys.{done, exits}
use network_program.Address.{
  inet, unix, af_inet, af_unix, sock_cmp_addr, memcmp, strcmp, sock_bind_wild,
  sock_bind_wild_or_exit, family_to_level, family_to_level_or_exit,
}

abbrev loopback : List ℕ
loopback = 127 ∷ 0 ∷ 0 ∷ 1 ∷ []

abbrev private_net : List ℕ
private_net = 10 ∷ 0 ∷ 0 ∷ 1 ∷ []

above : sock_cmp_addr (inet 80 loopback) (inet 80 private_net) ≡ pos 1
unfolding sock_cmp_addr memcmp
above = refl

same_path : sock_cmp_addr (unix (47 ∷ 97 ∷ 0 ∷ 1 ∷ [])) (unix (47 ∷ 97 ∷ 0 ∷ 2 ∷ [])) ≡ pos 0
unfolding sock_cmp_addr strcmp
same_path = refl

bound : sock_bind_wild (λ sa. pos 0) (some 5000) af_inet ≡ pos 5000
unfolding sock_bind_wild
bound = refl

not_bound : sock_bind_wild_or_exit (λ sa. pos 0) none af_inet ≡ exits
unfolding sock_bind_wild sock_bind_wild_or_exit
not_bound = refl

levels :
    (family_to_level_or_exit af_inet ≡ done (pos 0)) × (family_to_level_or_exit af_unix ≡ exits)
unfolding family_to_level_or_exit family_to_level
levels = (refl, refl)
