-- ===== src/Sntp/Difference.antt =====
-- sntp_proc.cpp prints the true difference of the clocks.
use network_program.Prelude.{
  ℕ, ◌-◌, ◌/◌, ◌%◌, ◌^◌, ◌≤◌, ◌≡◌, ap, ◌∙◌, ◌≢◌, List, get_or, arith, ltb, ◌==◌, Bool-cases, inl,
  inr, false,
}
use network_program.Prelude.Int.{
  ℤ, pos, negsuc, ◌-ℤ◌, ◌≤ℤ◌, ltb_ℤ, +ℤ_parts, -ℤ_parts, *ℤ_parts, eq_of_parts,
}
use network_program.Time.{Timeval, micros}
use network_program.Sntp.{
  difference, server_sec, server_usec, as_uint32, printed, clock_diff, sntp_proc, ntp_size,
}

printed-as_uint32 :
    (d : ℤ) → negsuc (2 ^ 31 - 1) ≤ℤ d → d ≤ℤ pos (2 ^ 31 - 1) → printed (as_uint32 d) ≡ d
unfolding printed as_uint32
printed-as_uint32 (pos n) lo hi = ground arith
printed-as_uint32 (negsuc n) lo hi = ground arith

ruleset diff_laws = (arith, +ℤ_parts, -ℤ_parts, *ℤ_parts, eq_of_parts)

-- The server's time of sending, from the packet.
abbrev pub server_time : List ℕ → Timeval
server_time buf = record { sec = pos (server_sec buf); usec = pos (server_usec buf) }

clock_diff-micros :
    (now : Timeval) (s u : ℕ)
    → micros (clock_diff now s u) ≡ micros now -ℤ micros (record { sec = pos s; usec = pos u })
unfolding clock_diff
clock_diff-micros now s u = elim (Bool-cases (ltb_ℤ (now.usec -ℤ pos u) (pos 0))) [
  | inl borrow ↦ rw borrow (omega diff_laws)
  | inr enough ↦ rw enough (omega diff_laws)
]

-- A packet of full size that is no client's request is reported with its version, mode and stratum,
-- and with the exact difference in microseconds between the local time and the server's time of
-- sending, if that difference fits into 32 bits.
pub sntp_proc-difference :
    (buf : List ℕ) (n : ℕ) (now : Timeval)
    → ntp_size ≤ n
    → get_or buf 0 0 % 8 ≢ 3
    → negsuc (2 ^ 31 - 1) ≤ℤ micros now -ℤ micros (server_time buf)
    → micros now -ℤ micros (server_time buf) ≤ℤ pos (2 ^ 31 - 1)
    → sntp_proc buf n now
      ≡ difference
          (get_or buf 0 0 / 8 % 8)
          (get_or buf 0 0 % 8)
          (get_or buf 1 0)
          (micros now -ℤ micros (server_time buf))
unfolding sntp_proc
sntp_proc-difference buf n now big mode lo hi =
    let full : ltb n ntp_size ≡ false = ground arith in
    let server : (get_or buf 0 0 % 8 == 3) ≡ false = ground arith in
    let exact = clock_diff-micros now (server_sec buf) (server_usec buf) in
    rw (full, server)
      (ap (difference (get_or buf 0 0 / 8 % 8) (get_or buf 0 0 % 8) (get_or buf 1 0))
        (ap (λ d. printed (as_uint32 d)) exact ∙ printed-as_uint32 _ lo hi))
