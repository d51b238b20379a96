-- ===== src/Icmpd/Tests.antt =====
-- The daemon at concrete packets and clients.
use network_program.Prelude.{ℕ, ◌≡◌, refl, ◌==◌, false, none, some, List, [], ◌∷◌, ◌++◌, arith}
use network_program.Prelude.Int.{pos}
use network_program.Sys.{done, Done}
use network_program.Packet.{IsHeader}
use network_program.Address.{inet, af_inet, af_other, in4addr_any, sock_get_port, sock_bind_wild}
use network_program.Icmpd.{
  Client, Daemon, Handed, start, take_client, readable_listen, readable_conn, readable_v4,
  local_port, port_refused, received, named, registered,
}
use network_program.Icmpd.Deliver.{IsUdp, icmp_error, readable_v4-watchers, notice, paired}
use network_program.Icmpd.Loop.{Action, closes, Event, run}
use network_program.Icmpd.Idle.{run-start-refuses}
use network_program.Icmpd.Register.{IsAnswered, readable_conn-IsAnswered}

abbrev free : Client
free = record { connfd = none; family = af_other 0; lport = pos 0 }

abbrev at_port : ℕ → ℕ → Client
at_port f port = record { connfd = some f; family = af_inet; lport = pos port }

abbrev daemon : Daemon
daemon = record {
  fd4 = 3;
  listenfd = 4;
  count = 3;
  maxfd = 9;
  client = at_port 7 0x1234 ∷ at_port 8 0x4321 ∷ at_port 9 0x1234 ∷ free ∷ [];
  allset = λ f. false;
}

-- A table with free entries would take a new client.
takes_free : (readable_listen 11 daemon).0.count ≡ 4
unfolding readable_listen take_client
takes_free = refl

abbrev outer : List ℕ
outer = 0x45 ∷ 0 ∷ 0 ∷ 0 ∷ 0 ∷ 0 ∷ 0 ∷ 0 ∷ 0 ∷ 1 ∷ 0 ∷ 0 ∷ 10 ∷ 0 ∷ 0 ∷ 1 ∷ 10 ∷ 0 ∷ 0 ∷ 2 ∷ []

abbrev inner : List ℕ
inner = 0x45 ∷ 0 ∷ 0 ∷ 0 ∷ 0 ∷ 0 ∷ 0 ∷ 0 ∷ 0 ∷ 17 ∷ 0 ∷ 0 ∷ 10 ∷ 0 ∷ 0 ∷ 2 ∷ 10 ∷ 9 ∷ 8 ∷ 7 ∷ []

outer-IsHeader : IsHeader outer
outer-IsHeader = record { first = _; rest = _; shape = refl; sized = refl }

inner-IsUdp : IsUdp inner 10 9 8 7
inner-IsUdp = record {
  header = record { first = _; rest = _; shape = refl; sized = refl };
  long = omega arith;
  udp = refl;
  dst0 = refl;
  dst1 = refl;
  dst2 = refl;
  dst3 = refl;
}

abbrev six : List ℕ
six = 0 ∷ 0 ∷ 0 ∷ 0 ∷ 0 ∷ 0 ∷ []

-- The third client has the port too, and is not told.
readable_v4-watchers_example :
    readable_v4
      (outer ++ icmp_error 3 3 six inner (0x34 ∷ 0x12 ∷ 7 ∷ 0 ∷ (0 ∷ 12 ∷ 0 ∷ 0 ∷ [])))
      daemon
    ≡ done (paired (notice 3 3 (10 ∷ 9 ∷ 8 ∷ 7 ∷ []) 7) 7 ∷ [])
readable_v4-watchers_example =
    readable_v4-watchers outer six inner (0 ∷ 12 ∷ 0 ∷ 0 ∷ []) 3 3 10 9 8 7 0x34 0x12 7 0 daemon
      outer-IsHeader refl inner-IsUdp (omega arith) refl

abbrev unbound : Handed
unbound = record {
  count = 1;
  recvfd = some 6;
  name = some (inet 0 in4addr_any);
  bind = λ sa. pos 0;
  bound = some 0x1234;
}

-- A connection, and a packet that no client can hear of.
abbrev busy : List Event
busy =
    record { nsel = 1; rset = λ f. f == 4; accepted = 6; packet = []; handed = λ f. unbound }
    ∷ record { nsel = 1; rset = λ f. f == 3; accepted = 0; packet = outer; handed = λ f. unbound }
    ∷ []

run-start-refuses_example :
    Done
      (λ (q : Daemon × List Action). (q.0 ≡ start 3 4) × (q.1 ≡ closes 6 ∷ []))
      (run busy (start 3 4))
run-start-refuses_example = run-start-refuses busy 3 4

port_chosen : (readable_conn unbound 7 free).client.lport ≡ pos 0x1234
unfolding readable_conn received named local_port port_refused registered sock_get_port
    sock_bind_wild
port_chosen = refl

readable_conn-IsAnswered_example :
    IsAnswered 1 (some 6) 7 (at_port 7 0) (readable_conn unbound 7 (at_port 7 0))
readable_conn-IsAnswered_example = readable_conn-IsAnswered unbound 7 (at_port 7 0)
