-- ===== src/Passing/Tests.antt =====
-- A file that is opened, one that is not, and two connections.
use network_program.Prelude.{ℕ, ◌+◌, ◌≡◌, none, some, [], ◌∷◌, true, refl, arith}
use network_program.Sys.{done, exits}
use network_program.Passing.{
  received, unset, not_opened, openfile, fails, read_control, read_fd, my_open, child_main,
  child_start,
}
use network_program.Passing.Handover.{deliver, openfile-my_open, handed, child_main-serves}

abbrev dup : ℕ → ℕ
dup fd = fd + 10

not_rights :
    read_fd
      (received (record {
        bytes = 0 ∷ [];
        control = some (record { cmsg_len = 20; cmsg_level = 1; cmsg_type = 2; fd = 3 });
      }))
      unset
    ≡ exits
unfolding read_fd read_control
not_rights = refl

openfile-my_open_example :
    my_open (openfile (not_opened 13) none).0 (deliver dup (openfile (not_opened 13) none).1)
    ≡ done (fails 13)
openfile-my_open_example = openfile-my_open dup (not_opened 13) none (omega arith, omega arith)

child_main-serves_example :
    (child_main (handed dup (4 ∷ 5 ∷ [])) unset ≡ done (14 ∷ 15 ∷ []))
    × (child_start 3 6 (λ f. true) (handed dup (4 ∷ 5 ∷ [])) unset ≡ exits)
child_main-serves_example = child_main-serves dup (4 ∷ 5 ∷ []) unset 3 6 (λ f. true)
