-- ===== src/Multicast/Tests.antt =====
-- A group, by the name of an interface and by none.
use network_program.Prelude.{◌≡◌, refl, none, some, [], ◌∷◌}
use network_program.Prelude.Int.{pos}
use network_program.Sys.{exits}
use network_program.Address.{SockAddr, inet, unix, family_to_level}
use network_program.Multicast.{
  refuses, asks, enxio, einval, join_group, interface_of, mcast_join, mcast_set_loop,
  sockfd_to_family, or_exit,
}

abbrev group : SockAddr
group = inet 0 (224 ∷ 0 ∷ 1 ∷ 1 ∷ [])

unknown_name : mcast_join group 16 (some 0) 0 ≡ refuses enxio
unfolding mcast_join interface_of
unknown_name = refl

any_interface : mcast_join group 16 none 0 ≡ asks (pos 0) (join_group 0 group)
unfolding mcast_join interface_of family_to_level
any_interface = refl

index_wins : mcast_join group 16 (some 0) 2 ≡ asks (pos 0) (join_group 2 group)
unfolding mcast_join interface_of family_to_level
index_wins = refl

too_long : mcast_join group 129 none 0 ≡ refuses einval
unfolding mcast_join interface_of
too_long = refl

not_for_paths : or_exit (λ level r. pos 0) (mcast_set_loop (some (unix [])) 1) ≡ exits
unfolding or_exit mcast_set_loop sockfd_to_family
not_for_paths = refl
