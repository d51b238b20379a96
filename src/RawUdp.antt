-- ===== src/RawUdp.antt =====
-- udpchsum/udpwrite.cpp and udpchsum/udpread.cpp: UDP datagrams with their IP header over a raw socket,
-- as built with `linux` defined. `struct udpiphdr` is that of BSD's netinet/udp_var.h: 9 bytes that are not
-- used, the protocol, the length, both addresses and the UDP header. The constants of libpcap are the
-- constructors of `Datalink`; `local` and `dest` are parameters, their fields in network order.
pub mod Verifies
pub mod Accepts
mod Tests
use network_program.Prelude.{
  ℕ, zero, suc, ◌+◌, ◌-◌, ◌*◌, ◌/◌, ◌%◌, ◌^◌, List, [], ◌∷◌, ◌++◌, length, take, drop, replicate,
  Bool, true, false, not, ltb, ◌==◌, if◌then◌else◌,
}
use network_program.Sys.{WriteResult, Outcome, done, exits, fault, ◌>>=◌}
use network_program.Checksum.{in_cksum}
use network_program.Packet.{byte}
use network_program.Wrap.Transfer.{sendto_or_exit}

-- `sin_addr` and `sin_port`.
pub record Place : Type 0 where
  pub a0 : ℕ
  pub a1 : ℕ
  pub a2 : ℕ
  pub a3 : ℕ
  pub p0 : ℕ
  pub p1 : ℕ

abbrev pub sin_addr : Place → List ℕ
sin_addr p = p.a0 ∷ p.a1 ∷ p.a2 ∷ p.a3 ∷ []

abbrev pub sin_port : Place → List ℕ
sin_port p = p.p0 ∷ p.p1 ∷ []

-- `htons` of a `uint16_t`, as it stands in memory.
abbrev pub htons : ℕ → List ℕ
htons n = n / 256 % 256 ∷ n % 256 ∷ []

-- A `uint16_t` as it stands in memory.
abbrev pub stored : ℕ → List ℕ
stored n = n % 256 ∷ n / 256 % 256 ∷ []

-- The header up to `ui_sum`, as `in_cksum` sees it; 17 is IPPROTO_UDP. `ui_len` counts the UDP header and
-- the data.
abbrev pub ui_front : Place → Place → ℕ → List ℕ
ui_front local dest n =
    0
    ∷ 0
    ∷ 0
    ∷ 0
    ∷ 0
    ∷ 0
    ∷ 0
    ∷ 0
    ∷ 0
    ∷ 17
    ∷ (htons (8 + n)
        ++ sin_addr local
        ++ sin_addr dest
        ++ sin_port local
        ++ sin_port dest
        ++ htons (8 + n))

-- `ui_sum`: a checksum of 0 is sent as 0xffff.
unfoldable pub ui_sum : Bool → List ℕ → List ℕ → ℕ
ui_sum zerosum front body =
    let sum = in_cksum (front ++ 0 ∷ 0 ∷ body) in
    if zerosum then 0 else if sum == 0 then 65535 else sum

-- What `udp_write` writes over the first 9 bytes; TTL_OUT is 64.
abbrev pub ip_front : ℕ → List ℕ
ip_front userlen = 69 ∷ 0 ∷ (htons userlen ++ 0 ∷ 0 ∷ 0 ∷ 0 ∷ 64 ∷ [])

-- `udp_write` of the data behind the header, with the packet that `Sendto` is given.
unfoldable pub udp_write : Place → Place → Bool → List ℕ → WriteResult → Outcome (List ℕ)
udp_write local dest zerosum body r =
    let n = length body in
    let front = ui_front local dest n in
    let whole = front ++ stored (ui_sum zerosum front body) ++ body in
    sendto_or_exit (28 + n) r >>= λ _. done (ip_front (28 + n) ++ drop 9 whole)

-- `udp_check` of a packet of this length, with the packet where it returns; the test of the checksum stores
-- its result, 0, in `ip_sum`.
unfoldable pub udp_check : List ℕ → Outcome (List ℕ)
udp_check ptr =
    let len = length ptr in
    if ltb len 28
    then exits
    else (byte ptr 0 >>= λ first.
        let hlen = first % 16 * 4 in
        if not (first / 16 == 4)
        then exits
        else if ltb hlen 20
        then exits
        else if ltb len (hlen + 8)
        then exits
        else if not (in_cksum (take hlen ptr) == 0)
        then exits
        else (byte ptr 9 >>= λ ip_p.
            if ip_p == 17 then done (take 10 ptr ++ 0 ∷ 0 ∷ drop 12 ptr) else exits))

-- `datalink`, and the bytes in front of the packet.
pub data Datalink : Type 0 where
  dlt_null dlt_en10mb dlt_slip dlt_ppp dlt_other : Datalink

-- `udp_check` behind so many bytes. If there are less, the length is negative, the test of it is one of
-- numbers with no sign and does not see that, and the packet is read where it is not.
unfoldable pub check_behind : ℕ → List ℕ → Outcome (List ℕ)
unfolding udp_check
check_behind k ptr = if ltb (length ptr) k then fault else udp_check (drop k ptr)

-- `udp_read`, with the packet that `next_pcap` returns.
unfoldable pub udp_read : Datalink → List ℕ → Outcome (List ℕ)
unfolding check_behind
udp_read dlt_null ptr = check_behind 4 ptr
udp_read dlt_en10mb ptr = byte ptr 12 >>= λ high.
    byte ptr 13 >>= λ low. if high * 256 + low == 2048 then check_behind 14 ptr else exits
udp_read dlt_slip ptr = check_behind 24 ptr
udp_read dlt_ppp ptr = check_behind 24 ptr
udp_read dlt_other ptr = exits
