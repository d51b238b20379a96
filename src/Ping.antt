-- ===== src/Ping.antt =====
-- ping/main.cpp with ping/ping.h: echo requests over ICMP and what is made of the answers, for IPv4.
-- The round-trip time is kept as the difference of two times; the code prints it in milliseconds.
-- What is printed is the model's result. `Gettimeofday` is a parameter, and a time has two fields of
-- 8 bytes each.
pub mod Echo
mod Tests
use network_program.Prelude.{
  ℕ, zero, suc, ◌+◌, ◌-◌, ◌*◌, ◌%◌, ◌^◌, Bool, true, false, not, Option, none, some, List, [], ◌∷◌,
  ◌++◌, length, drop, replicate, ltb, ◌==◌, if◌then◌else◌,
}
use network_program.Prelude.Int.{ℤ, pos, negsuc}
use network_program.Sys.{
  Errno, eintr, ReadResult, got, failed, WriteResult, Outcome, done, exits, waits, fault, ◌>>=◌,
  to_ssize,
}
use network_program.Packet.{byte, word, ip_header_length, store_le, load_le}
use network_program.Checksum.{in_cksum}
use network_program.Rtt.{Clock}
use network_program.Time.{Timeval, tv_sub}
use network_program.Wrap.Transfer.{sendto_or_exit}

-- The globals `pid`, which `main` cuts to 16 bits, `nsent`, `datalen` and `verbose`.
pub record Pinger : Type 0 where
  pub pid : ℕ
  pub nsent : ℕ
  pub datalen : ℕ
  pub verbose : Bool

unfoldable pub init : ℕ → Bool → Pinger
init getpid verbose = record { pid = getpid % 2 ^ 16; nsent = 0; datalen = 56; verbose = verbose }

-- A `struct timeval` in memory, in front of other bytes.
unfoldable pub store_time : Clock → List ℕ → List ℕ
store_time t bs = store_le 8 t.sec (store_le 8 t.usec bs)

-- The packet behind the checksum field: identifier, sequence number and data, which is filled with a
-- pattern and then starts with the time.
unfoldable pub echo_body : Pinger → Clock → List ℕ
unfolding store_time
echo_body p t =
    store_le 2 p.pid
      (store_le 2 (p.nsent % 2 ^ 16) (store_time t (replicate (p.datalen - 16) 0xa5)))

-- ICMP_ECHO is 8.
unfoldable pub echo_packet : Pinger → Clock → List ℕ
unfolding echo_body
echo_packet p t =
    let body = echo_body p t in
    let sum = in_cksum (8 ∷ 0 ∷ 0 ∷ 0 ∷ body) in 8 ∷ 0 ∷ store_le 2 sum body

-- `sendbuf`.
abbrev pub bufsize : ℕ
bufsize = 1500

-- `send_v4`, with the packet that was sent. `memset` writes over other memory where `sendbuf` does not
-- hold the data.
unfoldable pub send_v4 : Clock → WriteResult → Pinger → Outcome (Pinger × List ℕ)
unfolding echo_packet
send_v4 t r p =
    let sent = sendto_or_exit (8 + p.datalen) r >>= λ _.
    done (record p { nsent = p.nsent + 1 }, echo_packet p t) in
    if ltb bufsize (8 + p.datalen) then fault else sent

-- What is reported for a packet: an answer of some bytes with its number, time to live and time; or,
-- if `verbose`, another packet.
pub data Report : Type 0 where
  answer : ℕ → ℕ → ℕ → Timeval → Report
  packet : ℕ → ℕ → ℕ → Report

unfoldable pub load_time : List ℕ → Outcome Timeval
load_time bs = load_le 8 bs >>= λ s.
    load_le 8 (drop 8 bs) >>= λ u. done (record { sec = to_ssize s; usec = to_ssize u })

-- The branch for ICMP_ECHOREPLY, which is 0.
unfoldable pub proc_reply : List ℕ → ℕ → ℕ → Timeval → Pinger → Outcome (Option Report)
unfolding load_time
proc_reply icmp icmplen ttl tvrecv p = word icmp 4 >>= λ id.
    if not (id == p.pid)
    then done none
    else if ltb icmplen 16
    then done none
    else (load_time (drop 8 icmp) >>= λ tvsend.
        word icmp 6 >>= λ seq. done (some (answer icmplen seq ttl (tv_sub tvrecv tvsend))))

-- `proc_v4`. IPPROTO_ICMP is 1.
unfoldable pub proc_v4 : List ℕ → Timeval → Pinger → Outcome (Option Report)
unfolding proc_reply
proc_v4 buf tvrecv p = ip_header_length buf >>= λ hlen1. byte buf 9 >>= λ proto.
    if not (proto == 1)
    then done none
    else (let icmp = drop hlen1 buf in
        if ltb (length buf) (hlen1 + 8)
        then done none
        else (byte icmp 0 >>= λ type. byte icmp 1 >>= λ code. byte buf 8 >>= λ ttl.
            if type == 0
            then proc_reply icmp (length buf - hlen1) ttl tvrecv p
            else if p.verbose
            then done (some (packet (length buf - hlen1) type code))
            else done none))

abbrev pub add_report : Option Report → List Report → List Report
add_report none rs = rs
add_report (some r) rs = r ∷ rs

-- `readloop`, over the results of `recvmsg` and the times at which they are looked at, up to where
-- it waits.
unfoldable pub readloop : List (ReadResult × Timeval) → Pinger → Outcome (List Report)
readloop [] p = done []
readloop ((got buf, now) ∷ rs) p =
    proc_v4 buf now p >>= λ r. readloop rs p >>= λ more. done (add_report r more)
readloop ((failed eintr, now) ∷ rs) p = readloop rs p
readloop ((failed _, now) ∷ rs) p = exits
