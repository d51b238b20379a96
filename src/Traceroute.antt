-- ===== src/Traceroute.antt =====
-- traceroute/main.cpp with traceroute/trace.h: the hops on the way to a host, for IPv4.
-- A line is what is printed for a probe; the time is kept as the difference of two times, which the
-- code prints in milliseconds. What is printed only if `verbose` is left out.
pub mod Receive
pub mod Hops
pub mod Ends
pub mod Rounds
mod Tests
use network_program.Prelude.{
  ℕ, zero, suc, ◌+◌, ◌-◌, ◌*◌, ◌/◌, ◌%◌, ◌^◌, Bool, true, false, not, ◌&&◌, Option, none, some,
  List, [], ◌∷◌, ◌++◌, length, drop, replicate, ltb, leb, ◌==◌, if◌then◌else◌,
}
use network_program.Prelude.Int.{ℤ}
use network_program.Sys.{
  eintr, ReadResult, got, failed, WriteResult, Outcome, done, exits, waits, fault, ◌>>=◌,
}
use network_program.Packet.{byte, word, ip_header_length}
use network_program.Address.{SockAddr, inet, other_family, sock_set_port, sock_cmp_addr}
use network_program.Time.{Timeval, tv_sub}
use network_program.Wrap.{is_zero}
use network_program.Wrap.Sock.{setsockopt_or_exit, socket_or_exit, bind_or_exit}
use network_program.Wrap.Transfer.{sendto_or_exit}
pub use network_program.Traceroute.Receive.{
  Arrival, Receiver, Code, Inner, Verdict, timed_out, exceeded, reached, icmp, breaks, continues,
  htons, overwrite, store, settle, recv_round,
}
unfoldable pub use network_program.Traceroute.Receive.{
  is_probe, time_exceeded, unreachable, judge, recv_loop, recv_v4,
}

-- What a probe meets: the time before it is sent, the result of `sendto`, what arrives, and the time
-- when `recv_v4` returns.
pub record Meeting : Type 0 where
  pub left : Timeval
  pub sent : WriteResult
  pub arrivals : List Arrival
  pub received : Timeval

-- The kernel, as one run of `traceloop` meets it.
pub record Kernel : Type 0 where
  pub icmp_socket : ℤ
  pub udp_socket : ℤ
  pub bound : ℤ
  pub ttl_set : ℕ → ℤ
  pub meeting : ℕ → Meeting

-- What is printed for a probe: a star; or the address, where it is not the one of the line before,
-- the time, and what `code` tells.
pub data Reply : Type 0 where
  star : Reply
  hop : Option SockAddr → Timeval → Code → Reply

-- `rec_seq` and `rec_ttl` of the packet, the port it goes to, and what is printed.
pub record Line : Type 0 where
  pub rec_seq : ℕ
  pub rec_ttl : ℕ
  pub dest : SockAddr
  pub reply : Reply

-- The globals that `main` sets, `dport` and `nprobes` among them, and `sport`.
pub record Options : Type 0 where
  pub max_ttl : ℕ
  pub nprobes : ℕ
  pub dport : ℕ
  pub sport : ℕ
  pub sasend : SockAddr

-- What `traceloop` changes: `seq`, `recvbuf` with `pr->sarecv`, and `pr->salast`.
pub record Tracer : Type 0 where
  pub seq : ℕ
  pub receiver : Receiver
  pub salast : SockAddr

-- `done++`, for the answer to one probe.
abbrev pub is_end : Reply → Bool
is_end star = false
is_end (hop a t timed_out) = false
is_end (hop a t exceeded) = false
is_end (hop a t reached) = true
is_end (hop a t (icmp n)) = false

abbrev pub report : Meeting → Code → Receiver → SockAddr → Reply × SockAddr
report m timed_out r salast = (star, salast)
report m code r salast =
    let fresh = not (is_zero (sock_cmp_addr r.sarecv salast)) in
    (
      hop (if fresh then some r.sarecv else none) (tv_sub m.received m.left) code,
      if fresh then r.sarecv else salast,
    )

-- One round of the inner loop. A `struct rec` has 24 bytes.
unfoldable pub probe_once : Kernel → Options → ℕ → Tracer → Outcome (Line × Tracer)
probe_once k o ttl s =
    let seq = s.seq + 1 in
    let m = k.meeting seq in
    let port = o.dport + seq in
    sendto_or_exit 24 m.sent >>= λ _. recv_v4 o.sport port m.arrivals s.receiver >>= λ got_code.
    let said = report m got_code.0 got_code.1 s.salast in
    done (
      record {
        rec_seq = seq % 2 ^ 16;
        rec_ttl = ttl % 2 ^ 16;
        dest = sock_set_port o.sasend (htons port);
        reply = said.0;
      },
      record { seq = seq; receiver = got_code.1; salast = said.1 },
    )

unfoldable pub probe_loop : ℕ → Kernel → Options → ℕ → Tracer → Outcome (List Line × Tracer)
probe_loop zero k o ttl s = done ([], s)
probe_loop (suc left) k o ttl s = probe_once k o ttl s >>= λ one.
    probe_loop left k o ttl one.1 >>= λ more. done (one.0 ∷ more.0, more.1)

-- `done` is not 0 any more.
abbrev pub has_end : List Line → Bool
has_end [] = false
has_end (l ∷ ls) = if is_end l.reply then true else has_end ls

-- `bzero` of an address.
abbrev pub no_address : SockAddr
no_address = other_family 0

-- The outer loop, with the number of values of `ttl` that are left.
unfoldable pub ttl_loop : ℕ → Kernel → Options → ℕ → Tracer → Outcome (List (List Line))
ttl_loop zero k o ttl s = done []
ttl_loop (suc left) k o ttl s = setsockopt_or_exit (k.ttl_set ttl) >>= λ _.
    probe_loop o.nprobes k o ttl (record s { salast = no_address }) >>= λ round.
    if has_end round.0
    then done (round.0 ∷ [])
    else (ttl_loop left k o (ttl + 1) round.1 >>= λ more. done (round.0 ∷ more))

-- `sport`, from the number of the process.
abbrev pub with_port : ℕ → Options → Options
with_port pid o = record o { sport = pid % 2 ^ 15 + 2 ^ 15 }

-- What `main` sets before the options are read.
abbrev pub defaults : SockAddr → Options
defaults sasend = record {
  max_ttl = 30;
  nprobes = 3;
  dport = 32768 + 666;
  sport = 0;
  sasend = sasend;
}

-- The start of the loops: `calloc` and the program's start clear memory.
abbrev pub start : Tracer
start = record {
  seq = 0;
  receiver = record { recvbuf = replicate 1500 0; sarecv = no_address };
  salast = no_address;
}

-- `traceloop`: the lines by the value of `ttl`.
unfoldable pub traceloop : Kernel → ℕ → Options → Outcome (List (List Line))
traceloop k pid o = socket_or_exit k.icmp_socket >>= λ _. socket_or_exit k.udp_socket >>= λ _.
    bind_or_exit k.bound >>= λ _. ttl_loop o.max_ttl k (with_port pid o) 1 start
