-- ===== src/Server/Prefork/Tests.antt =====
-- The prefork parent with two children.
use network_program.Prelude.{◌≡◌, refl, [], ◌∷◌, true, false, arith, ◌==◌, ◌||◌}
use network_program.Sys.{got, done, exits}
use network_program.Server.Prefork.{Child, Parent, Event, round, assign, accept_one, scan, asked}
use network_program.Server.Prefork.Idle.{Counted, round-Counted}

abbrev first_idle : Child
first_idle = record { pid = 100; pipefd = 4; busy = false; count = 2 }

abbrev second_busy : Child
second_busy = record { pid = 101; pipefd = 5; busy = true; count = 1 }

abbrev two : Parent
two = record {
  listenfd = 3;
  children = first_idle ∷ second_busy ∷ [];
  navail = 1;
  masterset = λ f. true;
  maxfd = 5;
}

-- A new connection, and the byte of the second child.
abbrev both : Event
both = record {
  selects = true;
  nsel = 2;
  rset = λ f. (f == 3) || (f == 5);
  accepts = true;
  hands_over = true;
  closes = true;
  reads = λ f. got (0 ∷ []);
}

exchanged :
    round both two
    ≡ done (record two {
      children =
          record first_idle { busy = true; count = 3 } ∷ record second_busy { busy = false } ∷ [];
    })
unfolding round accept_one assign scan
exchanged = refl

listening_not_asked : asked (record two { navail = 0 }) 3 ≡ false
unfolding asked
listening_not_asked = refl

round-Counted_example : Counted 4 0 0 (round both two)
round-Counted_example =
    round-Counted both two 0 refl (λ e. omega arith)
      (record {
        selects = refl;
        accepts = refl;
        hands_over = refl;
        closes = refl;
        readable = λ f. tt;
      })

not_handed_over : round (record both { hands_over = false }) two ≡ exits
unfolding round accept_one assign
not_handed_over = refl

-- The pipe of the first child is at its end.
abbrev ended : Event
ended = record both { nsel = 1; rset = λ f. f == 4; reads = λ f. got [] }
