-- ===== src/Server/Forks/Tests.antt =====
-- Two clients, the first of them silent.
use network_program.Prelude.{ℕ, ◌≡◌, refl, List, [], ◌∷◌, false}
use network_program.Sys.{got, eintr, wrote, done, waits}
use network_program.Echo.{Round}
use network_program.Server.Forks.{
  connected, refused, Arrival, echo_loop, sig_chld_waitpid, alone, start,
}
use network_program.Server.Forks.Served.{echo_loop-blocked}
use network_program.Server.Forks.Zombies.{sig_chld_waitpid-clean}

abbrev talk : List Round
talk =
    record { read = got (b'x' ∷ []); writes = wrote 1 ∷ [] }
    ∷ record { read = got []; writes = [] }
    ∷ []

abbrev silent : Arrival
silent = record { accepted = connected 4; own = []; fork_fails = false; theirs = [] }

abbrev speaks : Arrival
speaks = record { accepted = connected 4; own = talk; fork_fails = false; theirs = talk }

abbrev again : Arrival
again = record { accepted = refused eintr; own = []; fork_fails = false; theirs = [] }

echo_loop-blocked_example : echo_loop 3 (silent ∷ speaks ∷ []) (3 ∷ 2 ∷ []) ≡ waits
echo_loop-blocked_example = echo_loop-blocked 3 4 silent (speaks ∷ []) (3 ∷ 2 ∷ []) refl tt refl

sig_chld_waitpid-clean_example : (sig_chld_waitpid 0 0 ≡ done 0) × (false ≡ false → ◌≡◌ {A = ℕ} 0 0)
sig_chld_waitpid-clean_example = sig_chld_waitpid-clean alone start
