-- ===== src/Sntp.antt =====
-- mcast/sntp/sntp_proc.cpp: the clock difference to an NTP server, from one packet.
-- The fraction of a second goes through `double` in the code: a 32-bit number divided by 2 ^ 32 and
-- multiplied by 10 ^ 6 needs 52 bits, so the product is exact and its truncation is the quotient.
pub mod Difference
mod Tests
use network_program.Prelude.{
  ℕ, ◌+◌, ◌-◌, ◌*◌, ◌/◌, ◌%◌, ◌^◌, Bool, true, false, List, get_or, ltb, ◌==◌, if◌then◌else◌,
}
use network_program.Prelude.Int.{ℤ, pos, negsuc, ◌+ℤ◌, ◌-ℤ◌, ◌*ℤ◌, ltb_ℤ}
use network_program.Time.{Timeval}

-- `JAN_1970`.
abbrev pub jan_1970 : ℕ
jan_1970 = 2208988800

-- `sizeof(struct ntpdata)`, and the offset of `xmt` in it.
abbrev pub ntp_size : ℕ
ntp_size = 48

abbrev pub xmt_offset : ℕ
xmt_offset = 40

-- `ntohl` of the four bytes at an offset.
unfoldable pub be32 : List ℕ → ℕ → ℕ
be32 buf i =
    get_or buf i 0 * 2 ^ 24
    + get_or buf (i + 1) 0 * 2 ^ 16
    + get_or buf (i + 2) 0 * 2 ^ 8
    + get_or buf (i + 3) 0

-- What is printed: the size of a short packet, the version of another client's request, or the
-- version, mode, stratum and difference.
pub data Report : Type 0 where
  too_small : ℕ → Report
  client : ℕ → Report
  difference : ℕ → ℕ → ℕ → ℤ → Report

-- `ntohl(ntp->xmt.int_part) - JAN_1970` as a `uint32_t`.
unfoldable pub server_sec : List ℕ → ℕ
server_sec buf = (be32 buf xmt_offset + 2 ^ 32 - jan_1970) % 2 ^ 32

-- The fraction in microseconds.
unfoldable pub server_usec : List ℕ → ℕ
server_usec buf = be32 buf (xmt_offset + 4) * 1000000 / 2 ^ 32

-- A `long` stored into a `uint32_t`, and that printed by `%d`.
unfoldable pub as_uint32 : ℤ → ℕ
as_uint32 (pos n) = n % 2 ^ 32
as_uint32 (negsuc n) = 2 ^ 32 - 1 - n % 2 ^ 32

unfoldable pub printed : ℕ → ℤ
printed w = if ltb w (2 ^ 31) then pos w else negsuc (2 ^ 32 - w - 1)

unfoldable pub clock_diff : Timeval → ℕ → ℕ → Timeval
clock_diff now s u =
    let d = now.usec -ℤ pos u in
    if ltb_ℤ d (pos 0)
    then record { sec = now.sec -ℤ pos s -ℤ pos 1; usec = d +ℤ pos 1000000 }
    else record { sec = now.sec -ℤ pos s; usec = d }

-- `sntp_proc(buf, n, now)`. `status & 0x38` shifted by 3 is `status / 8 % 8`, and `status & 0x07` is
-- `status % 8`.
unfoldable pub sntp_proc : List ℕ → ℕ → Timeval → Report
unfolding clock_diff as_uint32 printed
sntp_proc buf n now =
    let status = get_or buf 0 0 in
    let version = status / 8 % 8 in
    let mode = status % 8 in
    let diff = clock_diff now (server_sec buf) (server_usec buf) in
    if ltb n ntp_size
    then too_small n
    else if mode == 3
    then client version
    else difference version mode (get_or buf 1 0)
        (printed (as_uint32 (diff.sec *ℤ pos 1000000 +ℤ diff.usec)))
