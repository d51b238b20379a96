-- ===== src/Sntp/Tests.antt =====
-- One broadcast packet: version 4, mode 5, stratum 2, sent half a second after 1970 began.
use network_program.Prelude.{ℕ, ◌≡◌, refl, List, [], ◌∷◌, ◌++◌, replicate}
use network_program.Prelude.Int.{pos, ◌-ℤ◌, ◌+ℤ◌, ◌*ℤ◌}
use network_program.Time.{Timeval, micros}
use network_program.Sntp.{too_small, sntp_proc, server_sec, server_usec, be32}
use network_program.Sntp.Difference.{server_time}

abbrev packet : List ℕ
packet = 0x25 ∷ 2 ∷ replicate 38 0 ++ (0x83 ∷ 0xaa ∷ 0x7e ∷ 0x80 ∷ 0x80 ∷ 0 ∷ 0 ∷ 0 ∷ [])

abbrev now : Timeval
now = record { sec = pos 1; usec = pos 250000 }

server_clock : server_time packet ≡ record { sec = pos 0; usec = pos 500000 }
unfolding server_sec server_usec be32
server_clock = refl

three_quarters : micros now -ℤ micros (server_time packet) ≡ pos 750000
unfolding server_sec server_usec be32 ◌-ℤ◌ ◌+ℤ◌ ◌*ℤ◌
three_quarters = refl

short_packet : sntp_proc packet 47 now ≡ too_small 47
unfolding sntp_proc
short_packet = refl
