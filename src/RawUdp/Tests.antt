-- ===== src/RawUdp/Tests.antt =====
-- One byte from 10.0.0.1 to 10.0.0.2.
use network_program.Prelude.{ℕ, ◌≡◌, refl, List, [], ◌∷◌, drop, true, false, arith}
use network_program.Sys.{wrote, done, fault}
use network_program.RawUdp.{Place, udp_write, udp_check, udp_read, dlt_slip}
use network_program.RawUdp.Verifies.{IsPlace, IsDatagram, udp_write-IsDatagram}
use network_program.RawUdp.Accepts.{filled, udp_write-udp_check}

abbrev here : Place
here = record { a0 = 10; a1 = 0; a2 = 0; a3 = 1; p0 = 4; p1 = 210 }

abbrev there : Place
there = record { a0 = 10; a1 = 0; a2 = 0; a3 = 2; p0 = 0; p1 = 53 }

here-IsPlace : IsPlace here
here-IsPlace = record {
  a0 = omega arith;
  a1 = omega arith;
  a2 = omega arith;
  a3 = omega arith;
  p0 = omega arith;
  p1 = omega arith;
}

there-IsPlace : IsPlace there
there-IsPlace = record {
  a0 = omega arith;
  a1 = omega arith;
  a2 = omega arith;
  a3 = omega arith;
  p0 = omega arith;
  p1 = omega arith;
}

-- A packet that is shorter than its link header.
short : udp_read dlt_slip (1 ∷ []) ≡ fault
unfolding udp_read
short = refl

udp_write-IsDatagram_example :
    (p : List ℕ) × (udp_write here there false (7 ∷ []) (wrote 29) ≡ done p) × IsDatagram (7 ∷ []) p
udp_write-IsDatagram_example =
    udp_write-IsDatagram here there (7 ∷ []) here-IsPlace there-IsPlace (omega arith, tt)
      (omega arith)

udp_write-udp_check_example :
    (p : List ℕ) × (q : List ℕ) × (udp_write here there true (7 ∷ []) (wrote 29) ≡ done p)
    × (udp_check (filled p) ≡ done q)
    × (drop 12 q ≡ drop 12 p)
udp_write-udp_check_example =
    udp_write-udp_check here there true (7 ∷ []) here-IsPlace there-IsPlace (omega arith)
