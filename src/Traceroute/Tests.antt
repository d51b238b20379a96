-- ===== src/Traceroute/Tests.antt =====
-- Answers of a router, and a run with two values of `ttl`.
use network_program.Prelude.{ℕ, ◌≡◌, refl, true, List, [], ◌∷◌, ◌++◌}
use network_program.Prelude.Int.{pos}
use network_program.Sys.{eintr, failed, wrote, done, Done}
use network_program.Packet.{IsHeader}
use network_program.Address.{SockAddr, inet}
use network_program.Time.{Timeval}
use network_program.Traceroute.{
  Receiver, Kernel, Line, Options, defaults, with_port, no_address, traceloop,
}
use network_program.Traceroute.Hops.{message}
use network_program.Traceroute.Rounds.{IsTrace, IsWilling, traceloop-IsTrace, traceloop-returns}

abbrev ip : List ℕ
ip = 0x45 ∷ 0 ∷ 0 ∷ 56 ∷ 0 ∷ 0 ∷ 0 ∷ 0 ∷ 64 ∷ 1 ∷ 0 ∷ 0 ∷ 10 ∷ 0 ∷ 0 ∷ 1 ∷ 10 ∷ 0 ∷ 0 ∷ 2 ∷ []

abbrev quoted : List ℕ
quoted = 0x45 ∷ 0 ∷ 0 ∷ 52 ∷ 0 ∷ 0 ∷ 0 ∷ 0 ∷ 1 ∷ 17 ∷ 0 ∷ 0 ∷ 10 ∷ 0 ∷ 0 ∷ 2 ∷ 10 ∷ 0 ∷ 9 ∷ 9 ∷ []

ip-IsHeader : IsHeader ip
ip-IsHeader = record { first = _; rest = _; shape = refl; sized = refl }

quoted-IsHeader : IsHeader quoted
quoted-IsHeader = record { first = _; rest = _; shape = refl; sized = refl }

abbrev unused : List ℕ
unused = 0 ∷ 0 ∷ 0 ∷ 0 ∷ 0 ∷ 0 ∷ []

abbrev router : SockAddr
router = inet 0 (10 ∷ 0 ∷ 0 ∷ 1 ∷ [])

abbrev receiver : Receiver
receiver = record { recvbuf = []; sarecv = no_address }

abbrev expired : List ℕ
expired = ip ++ message 11 0 unused quoted 40000 33435 []

abbrev clock : Timeval
clock = record { sec = pos 1600000000; usec = pos 0 }

-- Nobody answers.
abbrev silent : Kernel
silent = record {
  icmp_socket = pos 3;
  udp_socket = pos 4;
  bound = pos 0;
  ttl_set = λ ttl. pos 0;
  meeting = λ seq. record {
    left = clock;
    sent = wrote 24;
    arrivals = record { result = failed eintr; source = no_address; alarmed = true } ∷ [];
    received = clock;
  };
}

silent-IsWilling : IsWilling silent
silent-IsWilling = record {
  opened = refl;
  sending = refl;
  named = refl;
  limited = λ ttl. refl;
  sent = λ seq. refl;
  awaited = λ seq. (tt, tt);
}

abbrev two_hops : Options
two_hops = record (defaults router) { max_ttl = 2 }

traceloop-IsTrace_example :
    Done (IsTrace (with_port 4711 two_hops) 2 1 0) (traceloop silent 4711 two_hops)
traceloop-IsTrace_example = traceloop-IsTrace silent 4711 two_hops

traceloop-returns_example :
    (log : List (List Line)) × (traceloop silent 4711 two_hops ≡ done log)
    × IsTrace (with_port 4711 two_hops) 2 1 0 log
traceloop-returns_example = traceloop-returns silent 4711 two_hops silent-IsWilling
