-- ===== src/Ping/Tests.antt =====
-- A request and its answer.
use network_program.Prelude.{
  ℕ, ◌≡◌, refl, false, some, List, [], ◌∷◌, ◌++◌, length, arith, ◌⊎◌, ◌≤◌, ◌<◌,
}
use network_program.Prelude.Int.{pos, ◌-ℤ◌, ◌+ℤ◌}
use network_program.Sys.{eintr, got, failed, wrote, done, fault, Returns}
use network_program.Packet.{IsHeader, store_le, load_le}
use network_program.Checksum.{in_cksum}
use network_program.Rtt.{Clock}
use network_program.Time.{Timeval, tv_sub}
use network_program.Ping.{
  bufsize, Pinger, answer, store_time, load_time, echo_body, send_v4, proc_v4, proc_reply, readloop,
}
use network_program.Ping.Echo.{send_v4-verifies, proc_v4_own}

abbrev pinger : Pinger
pinger = record { pid = 0x1234; nsent = 3; datalen = 56; verbose = false }

abbrev clock : Clock
clock = record { sec = 1600000000; usec = 999000 }

abbrev later : Timeval
later = record { sec = pos 1600000001; usec = pos 1500 }

abbrev ip : List ℕ
ip = 0x45 ∷ 0 ∷ 0 ∷ 84 ∷ 0 ∷ 0 ∷ 0 ∷ 0 ∷ 64 ∷ 1 ∷ 0 ∷ 0 ∷ 10 ∷ 0 ∷ 0 ∷ 1 ∷ 10 ∷ 0 ∷ 0 ∷ 2 ∷ []

ip-IsHeader : IsHeader ip
ip-IsHeader = record { first = _; rest = _; shape = refl; sized = refl }

abbrev reply : List ℕ
reply = ip ++ 0 ∷ 0 ∷ 0 ∷ 0 ∷ echo_body pinger clock

-- 2500 microseconds, after an interrupted call.
answered :
    readloop ((failed eintr, later) ∷ (got reply, later) ∷ []) pinger
    ≡ done (answer 64 3 64 (record { sec = pos 0; usec = pos 2500 }) ∷ [])
unfolding readloop proc_v4 proc_reply load_time echo_body store_time store_le load_le tv_sub ◌-ℤ◌
    ◌+ℤ◌
answered = refl

send_v4-verifies_example :
    ((64 ≤ bufsize)
      × Returns
          (λ (q : Pinger × List ℕ). (in_cksum q.1 ≡ 0) × (length q.1 ≡ 64) × (q.0.nsent ≡ 4))
          (send_v4 clock (wrote 64) pinger))
    ⊎ ((bufsize < 64) × (send_v4 clock (wrote 64) pinger ≡ fault))
send_v4-verifies_example = send_v4-verifies clock pinger (omega arith)

proc_v4_own_example :
    proc_v4 reply later pinger
    ≡ done
        (some (answer 64 3 64 (tv_sub later (record { sec = pos 1600000000; usec = pos 999000 }))))
proc_v4_own_example =
    proc_v4_own ip 0 0 0 64 pinger pinger clock later ip-IsHeader refl refl (omega arith)
      (omega arith) (omega arith) (omega arith)
