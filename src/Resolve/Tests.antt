-- ===== src/Resolve/Tests.antt =====
-- The functions on three candidates: no socket, a socket that is of no use, and one that works.
use network_program.Prelude.{◌≡◌, refl, true, false, none, some, [], ◌∷◌}
use network_program.Sys.{done, exits}
use network_program.Resolve.{Candidate, tcp_connect, tcp_connect_loop, resolved, close_and}
use network_program.Resolve.First.{First, tcp_connect-First}

abbrev absent : Candidate
absent = record {
  addrlen = 28;
  socket = none;
  setsockopt = true;
  connect = false;
  bind = false;
  close = true;
}

abbrev dead : Candidate
dead = record {
  addrlen = 28;
  socket = some 4;
  setsockopt = true;
  connect = false;
  bind = false;
  close = true;
}

abbrev alive : Candidate
alive = record {
  addrlen = 16;
  socket = some 5;
  setsockopt = true;
  connect = true;
  bind = true;
  close = true;
}

third_connects :
    tcp_connect (some (absent ∷ dead ∷ alive ∷ []))
    ≡ done (record { fd = 5; addrlen = 16; closed = 4 ∷ [] })
unfolding tcp_connect tcp_connect_loop resolved close_and
third_connects = refl

none_connects : tcp_connect (some (absent ∷ dead ∷ [])) ≡ exits
unfolding tcp_connect tcp_connect_loop resolved close_and
none_connects = refl

tcp_connect-First_example :
    First
      (λ c. c.connect)
      (absent ∷ dead ∷ alive ∷ [])
      (tcp_connect (some (absent ∷ dead ∷ alive ∷ [])))
tcp_connect-First_example =
    tcp_connect-First absent (dead ∷ alive ∷ []) ((refl, refl), ((refl, refl), ((refl, refl), tt)))
