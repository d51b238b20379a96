-- ===== src/Traceroute/Receive.antt =====
-- `recv_v4` of traceroute/main.cpp: what the packets mean that come while a probe is out.
use network_program.Prelude.{
  ℕ, ◌+◌, ◌-◌, ◌*◌, ◌/◌, ◌%◌, Bool, true, false, not, ◌&&◌, Option, none, some, List, [], ◌∷◌, ◌++◌,
  length, drop, ltb, ◌==◌, if◌then◌else◌,
}
use network_program.Sys.{eintr, ReadResult, got, failed, Outcome, done, exits, waits, fault, ◌>>=◌}
use network_program.Packet.{byte, word, ip_header_length}
use network_program.Address.{SockAddr}

-- A result of `recvfrom`, whose address it is from, and whether SIGALRM was delivered since
-- `gotalarm` was tested last.
pub record Arrival : Type 0 where
  pub result : ReadResult
  pub source : SockAddr
  pub alarmed : Bool

-- The globals `recvbuf` and `pr->sarecv`.
pub record Receiver : Type 0 where
  pub recvbuf : List ℕ
  pub sarecv : SockAddr

-- The codes -3, -2 and -1 of `recv_v4`, and a code of ICMP.
pub data Code : Type 0 where
  timed_out exceeded reached : Code
  icmp : ℕ → Code

-- `hip`, as an offset in `recvbuf`, and `hlen2`.
pub record Inner : Type 0 where
  pub hip : ℕ
  pub hlen2 : ℕ

-- What one packet leads to: a `break`, or another round with the variables as they are.
pub data Verdict : Type 0 where
  breaks : Code → Verdict
  continues : Option Inner → Verdict

-- A 16-bit number as a little-endian machine passes it to the network.
abbrev pub htons : ℕ → ℕ
htons n = n % 256 * 256 + n / 256 % 256

-- IPPROTO_UDP is 17.
unfoldable pub is_probe : List ℕ → List ℕ → ℕ → ℕ → Outcome Bool
is_probe hip udp sport port = byte hip 9 >>= λ proto.
    if not (proto == 17)
    then done false
    else (word udp 0 >>= λ source.
        if not (source == htons sport)
        then done false
        else (word udp 2 >>= λ dest. done (dest == htons port)))

-- The branch for ICMP_TIMXCEED. A `struct ip` has 20 bytes.
unfoldable pub time_exceeded : List ℕ → ℕ → ℕ → ℕ → ℕ → Option Inner → Outcome Verdict
time_exceeded buf hlen1 icmplen sport port inner =
    if ltb icmplen 28
    then done (continues inner)
    else (let hip = drop (hlen1 + 8) buf in
        ip_header_length hip >>= λ hlen2.
        let now = some (record { hip = hlen1 + 8; hlen2 = hlen2 }) in
        if ltb icmplen (8 + hlen2 + 4)
        then done (continues now)
        else (is_probe hip (drop (hlen1 + 8 + hlen2) buf) sport port >>= λ ours.
            done (if ours then breaks exceeded else continues now)))

-- The branch for ICMP_UNREACH, which reads `hlen2` and `hip` as they are. ICMP_UNREACH_PORT is 3.
unfoldable pub unreachable : List ℕ → ℕ → ℕ → ℕ → ℕ → ℕ → Option Inner → Outcome Verdict
unreachable buf hlen1 icmplen code sport port none = fault
unreachable buf hlen1 icmplen code sport port (some i) =
    if ltb icmplen (8 + i.hlen2 + 4)
    then done (continues (some i))
    else (is_probe (drop i.hip buf) (drop (hlen1 + 8 + i.hlen2) buf) sport port >>= λ ours.
        done
          (if ours then breaks (if code == 3 then reached else icmp code) else continues (some i)))

-- A packet of `n` bytes at the start of the buffer. ICMP_TIMXCEED is 11, ICMP_UNREACH is 3.
unfoldable pub judge : List ℕ → ℕ → ℕ → ℕ → Option Inner → Outcome Verdict
judge buf n sport port inner = ip_header_length buf >>= λ hlen1.
    if ltb n (hlen1 + 8)
    then done (continues inner)
    else (byte (drop hlen1 buf) 0 >>= λ type. byte (drop hlen1 buf) 1 >>= λ code.
        if type == 11 && code == 0
        then time_exceeded buf hlen1 (n - hlen1) sport port inner
        else if type == 3
        then unreachable buf hlen1 (n - hlen1) code sport port inner
        else done (continues inner))

-- What `recvfrom` stores, over what is there.
abbrev pub overwrite : List ℕ → List ℕ → List ℕ
overwrite bs buf = bs ++ drop (length bs) buf

-- A packet that `recvfrom` stores with its address.
abbrev pub store : List ℕ → SockAddr → Receiver → Receiver
store bs source s = record { recvbuf = overwrite bs s.recvbuf; sarecv = source }

-- What follows the look at a packet: the end of `recv_v4`, or the test of `gotalarm` and what comes
-- after it.
abbrev pub settle :
    Bool
    → Receiver
    → (Option Inner → Outcome (Code × Receiver))
    → Verdict
    → Outcome (Code × Receiver)
settle alarmed s rest (breaks code) = done (code, s)
settle true s rest (continues inner) = done (timed_out, s)
settle false s rest (continues inner) = rest inner

-- One round of the loop of `recv_v4`, with the rounds that come after it.
abbrev pub recv_round :
    ℕ
    → ℕ
    → ReadResult
    → SockAddr
    → Bool
    → (Option Inner → Receiver → Outcome (Code × Receiver))
    → Option Inner
    → Receiver
    → Outcome (Code × Receiver)
recv_round sport port (failed eintr) source alarmed rest inner s =
    settle alarmed s (λ i. rest i s) (continues inner)
recv_round sport port (failed _) source alarmed rest inner s = exits
recv_round sport port (got bs) source alarmed rest inner s =
    judge (overwrite bs s.recvbuf) (length bs) sport port inner
    >>= settle alarmed (store bs source s) (λ i. rest i (store bs source s))

-- The loop of `recv_v4`, from a test of `gotalarm` that fails.
unfoldable pub recv_loop :
    ℕ → ℕ → List Arrival → Option Inner → Receiver → Outcome (Code × Receiver)
recv_loop sport port [] inner s = waits
recv_loop sport port (a ∷ as1) inner s =
    recv_round sport port a.result a.source a.alarmed (recv_loop sport port as1) inner s

-- `recv_v4`, which clears `gotalarm` first.
unfoldable pub recv_v4 : ℕ → ℕ → List Arrival → Receiver → Outcome (Code × Receiver)
recv_v4 sport port arrivals s = recv_loop sport port arrivals none s
