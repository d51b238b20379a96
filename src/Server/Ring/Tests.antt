-- ===== src/Server/Ring/Tests.antt =====
-- One thread, which waits, is woken and takes a connection.
use network_program.Prelude.{ℕ, ◌<◌, ◌≡◌, ◌⊎◌, refl, none, some, [], ◌∷◌, length, replicate}
use network_program.Sys.{done, exits}
use network_program.Server.Ring.{
  Queue, start, put, take_one, ready, blocked, serving, System, wakes, accepts, blocks, grabs, boot,
  Reach, here, after,
}
use network_program.Server.Ring.Fifo.{Holds, start-Holds, put-Holds}
use network_program.Server.Ring.Pool.{IsFair, Reach-IsFair}

abbrev one_waits : Queue
one_waits = record { clifd = some 7 ∷ replicate 31 none; iget = 0; iput = 1 }

abbrev none_waits : Queue
none_waits = record { clifd = some 7 ∷ replicate 31 none; iget = 1; iput = 1 }

abbrev asleep : System
asleep = record { queue = start; threads = blocked ∷ []; accepted = []; served = [] }

abbrev woken : System
woken = record { queue = one_waits; threads = ready ∷ []; accepted = 7 ∷ []; served = [] }

abbrev at_work : System
at_work = record {
  queue = none_waits;
  threads = serving 7 ∷ [];
  accepted = 7 ∷ [];
  served = 7 ∷ [];
}

first_put : put 7 start ≡ done one_waits
unfolding put start
first_put = refl

a_run : Reach (boot 1) at_work
unfolding boot start put take_one
a_run =
    after
      (after (after here (blocks (boot 1) [] [] refl refl))
        (accepts asleep 7 one_waits (ready ∷ []) refl (wakes [] [] refl)))
      (grabs woken [] [] 7 none_waits refl refl)

Reach-IsFair_example : IsFair at_work
Reach-IsFair_example = Reach-IsFair 1 at_work a_run

put-Holds_example :
    ((length {A = ℕ} [] ≡ 31) × (put 7 start ≡ exits))
    ⊎ ((length {A = ℕ} [] < 31) × ((r : Queue) × (put 7 start ≡ done r) × Holds (7 ∷ []) r))
put-Holds_example = put-Holds 7 start [] start-Holds
