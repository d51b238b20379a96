-- ===== src/Rtt/Tests.antt =====
-- Requests over a concrete arithmetic: eighths of a second, without negative numbers.
use network_program.Prelude.{ℕ, ◌+◌, ◌-◌, ◌*◌, ◌/◌, ◌≡◌, refl, true, false, [], ◌∷◌, ltb, arith}
use network_program.Prelude.Int.{pos, negsuc}
use network_program.Rtt.{Floats, Clock, RttInfo, rtt_init, rtt_minmax, rtt_rtocalc, rtt_stop}
use network_program.Rtt.Request.{Datagram, Try, Requester, receive, dg_send_recv}
use network_program.Rtt.Bounds.{Compares, InBounds, rto-InBounds}
use network_program.Rtt.Answer.{Ends, dg_send_recv_answered, dg_send_recv_gives_up}

abbrev eighths : Floats ℕ
eighths = record {
  of_nat = λ n. n * 8;
  three_quarters = 6;
  half = 4;
  add = λ a b. a + b;
  sub = λ a b. a - b;
  mul = λ a b. a * b / 8;
  div = λ a b. a * 8 / b;
  neg = λ a. a;
  lt = λ a b. ltb a b;
  to_float = λ a. a;
  to_int = λ a. pos (a / 8);
}

abbrev clock : Clock
clock = record { sec = 1600000000; usec = 250000 }

abbrev blank : RttInfo ℕ
blank = record { rtt = 0; srtt = 0; rttvar = 0; rto = 0; nrexmt = 0; base = 0 }

-- Three seconds, as the comment in the code says.
first_rto : (rtt_init eighths clock blank).rto ≡ 24
unfolding rtt_init rtt_minmax rtt_rtocalc
first_rto = refl

eighths-Compares : Compares eighths
eighths-Compares = record { min_min = refl; max_max = refl; max_min = refl }

rto-InBounds_example :
    InBounds eighths ((rtt_init eighths clock blank).rto)
    × InBounds eighths ((rtt_stop eighths 90 blank).rto)
rto-InBounds_example = rto-InBounds eighths clock 90 blank eighths-Compares

abbrev requester : Requester ℕ
requester = record { rttinit = false; rttinfo = blank; seq = 6 }

-- An answer to an older request, and one that is cut off.
abbrev quiet : Try
quiet = record {
  sent = clock;
  heard = record { size = 20; seq = 6; ts = 0 } ∷ record { size = 4; seq = 7; ts = 0 } ∷ [];
  now = clock;
}

abbrev answer : Datagram
answer = record { size = 20; seq = 7; ts = 250 }

abbrev good : Try
good = record {
  sent = clock;
  heard = record { size = 20; seq = 6; ts = 0 } ∷ answer ∷ [];
  now = clock;
}

dg_send_recv_answered_example :
    Ends (pos 12) 3 true (dg_send_recv eighths clock requester (quiet ∷ quiet ∷ good ∷ []))
unfolding receive
dg_send_recv_answered_example =
    dg_send_recv_answered eighths clock requester (quiet ∷ quiet ∷ []) [] good answer
      (refl, (refl, tt)) (omega arith) refl

dg_send_recv_gives_up_example :
    Ends
      (negsuc 0)
      4
      false
      (dg_send_recv eighths clock requester (quiet ∷ quiet ∷ quiet ∷ quiet ∷ good ∷ []))
unfolding receive
dg_send_recv_gives_up_example =
    dg_send_recv_gives_up eighths clock requester (quiet ∷ quiet ∷ quiet ∷ quiet ∷ good ∷ [])
      (refl, (refl, (refl, (refl, tt)))) (omega arith)
