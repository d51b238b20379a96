-- ===== src/Ping/Echo.antt =====
-- Echo requests and their answers.
use network_program.Prelude.{
  ℕ, zero, suc, ◌+◌, ◌-◌, ◌/◌, ◌%◌, ◌^◌, ◌≤◌, ◌<◌, ◌≡◌, refl, ap, ◌∙◌, Bool, true, false, not,
  Option, none, some, List, [], ◌∷◌, ◌++◌, length, length-append, length-replicate, drop, replicate,
  lt→ltb, ltb→lt, ltb_false→le, ◌⊎◌, inl, inr, Bool-cases, arith, ltb, ◌==◌, if◌then◌else◌,
}
use network_program.Prelude.Int.{pos}
use network_program.Sys.{Outcome, done, fault, Returns, wrote, to_ssize}
use network_program.Packet.{
  byte, word, store_le, Fits, load_le-store_le, length-store_le, drop-store_le, IsHeader,
  ip_header_length-append, drop-length-append, byte-append,
}
use network_program.Checksum.{in_cksum}
use network_program.Checksum.Verify.{Bytes, in_cksum_verifies}
use network_program.Rtt.{Clock}
use network_program.Time.{Timeval, tv_sub}
use network_program.Wrap.Retry.{sent_whole}
use network_program.Ping.{
  bufsize, Pinger, Report, answer, store_time, load_time, echo_body, echo_packet, send_v4, proc_v4,
  proc_reply,
}

Bytes-store_le : (k n : ℕ) (bs : List ℕ) → Bytes bs → Bytes (store_le k n bs)
unfolding store_le
Bytes-store_le zero n bs h = h
Bytes-store_le (suc k) n bs h = (omega arith, Bytes-store_le k (n / 256) bs h)

Bytes-replicate : (n b : ℕ) → b < 256 → Bytes (replicate n b)
Bytes-replicate zero b h = tt
Bytes-replicate (suc n) b h = (h, Bytes-replicate n b h)

Bytes-echo_body : (p : Pinger) (t : Clock) → Bytes (echo_body p t)
unfolding echo_body store_time
Bytes-echo_body p t =
    let pattern : List ℕ = replicate (p.datalen - 16) 0xa5 in
    let usec : List ℕ = store_le 8 t.usec pattern in
    let sec : List ℕ = store_le 8 t.sec usec in
    let seq : List ℕ = store_le 2 (p.nsent % 2 ^ 16) sec in
    let plain : Bytes pattern = Bytes-replicate (p.datalen - 16) 0xa5 (omega arith) in
    let timed : Bytes sec = Bytes-store_le 8 t.sec usec (Bytes-store_le 8 t.usec pattern plain) in
    Bytes-store_le 2 p.pid seq (Bytes-store_le 2 (p.nsent % 2 ^ 16) sec timed)

length-echo_body :
    (p : Pinger) (t : Clock) → 16 ≤ p.datalen → length (echo_body p t) ≡ 4 + p.datalen
unfolding echo_body store_time
length-echo_body p t h =
    let pattern : List ℕ = replicate (p.datalen - 16) 0xa5 in
    let usec : List ℕ = store_le 8 t.usec pattern in
    let sec : List ℕ = store_le 8 t.sec usec in
    let seq : List ℕ = store_le 2 (p.nsent % 2 ^ 16) sec in
    omega (
      arith,
      length-replicate {A = ℕ} (p.datalen - 16) 0xa5,
      length-store_le 8 t.usec pattern,
      length-store_le 8 t.sec usec,
      length-store_le 2 (p.nsent % 2 ^ 16) sec,
      length-store_le 2 p.pid seq,
    )

echo_packet-verifies :
    (p : Pinger) (t : Clock)
    → 16 ≤ p.datalen
    → p.datalen ≤ 65000
    → (in_cksum (echo_packet p t) ≡ 0) × (length (echo_packet p t) ≡ 8 + p.datalen)
unfolding echo_packet store_le
echo_packet-verifies p t low high =
    let size = length-echo_body p t low in
    (
      in_cksum_verifies (8 ∷ 0 ∷ []) (echo_body p t) tt
          (omega arith, (omega arith, (omega arith, (omega arith, Bytes-echo_body p t))))
          (omega (arith, size)),
      omega (arith, size),
    )

-- `send_v4` with 16 bytes of data or more, for the time that it stores: where `sendbuf` holds the packet,
-- and the kernel takes it, it returns, has sent a packet of 8 bytes and the data that the receiver's
-- checksum accepts, and the next packet has the next number; with more data than that it writes
-- over the end of `sendbuf`.
pub send_v4-verifies :
    (t : Clock) (p : Pinger)
    → 16 ≤ p.datalen
    → ((8 + p.datalen ≤ bufsize)
        × Returns
            (λ (q : Pinger × List ℕ).
              (in_cksum q.1 ≡ 0) × (length q.1 ≡ 8 + p.datalen) × (q.0.nsent ≡ p.nsent + 1))
            (send_v4 t (wrote (8 + p.datalen)) p))
      ⊎ ((bufsize < 8 + p.datalen) × (send_v4 t (wrote (8 + p.datalen)) p ≡ fault))
unfolding send_v4
send_v4-verifies t p low = elim (Bool-cases (ltb bufsize (8 + p.datalen))) [
  | inl over ↦ inr (ltb→lt bufsize (8 + p.datalen) over, rw over refl)
  | inr holds ↦
      let fits = ltb_false→le bufsize (8 + p.datalen) holds in
      let sent = echo_packet-verifies p t low (omega (arith, fits)) in
      inl
        (fits, rw (holds, sent_whole (8 + p.datalen) (omega (arith, fits))) (sent.0, sent.1, refl))
]

Fits-eight : (n : ℕ) → n < 2 ^ 63 → Fits 8 n
Fits-eight n h = omega arith

signed : (n : ℕ) → n < 2 ^ 63 → to_ssize n ≡ pos n
signed n h = rw (lt→ltb n (2 ^ 63) h) refl

load_time-store_time :
    (t : Clock) (bs : List ℕ)
    → t.sec < 2 ^ 63
    → t.usec < 2 ^ 63
    → load_time (store_time t bs) ≡ done (record { sec = pos t.sec; usec = pos t.usec })
unfolding load_time store_time
load_time-store_time t bs h k =
    rw
      (
        load_le-store_le 8 t.sec (store_le 8 t.usec bs) (Fits-eight t.sec h),
        drop-store_le 8 t.sec (store_le 8 t.usec bs),
        load_le-store_le 8 t.usec bs (Fits-eight t.usec k),
        signed t.sec h,
        signed t.usec k,
      )
      refl

echo_id :
    (a b c d : ℕ) (p : Pinger) (t : Clock)
    → p.pid < 2 ^ 16
    → word (a ∷ b ∷ c ∷ d ∷ echo_body p t) 4 ≡ done p.pid
unfolding echo_body store_le
echo_id a b c d p t h = ap done (omega arith)

echo_seq :
    (a b c d : ℕ) (p : Pinger) (t : Clock)
    → word (a ∷ b ∷ c ∷ d ∷ echo_body p t) 6 ≡ done (p.nsent % 2 ^ 16)
unfolding echo_body store_le
echo_seq a b c d p t = ap done (omega arith)

echo_data :
    (p : Pinger) (t : Clock)
    → drop 4 (echo_body p t) ≡ store_time t (replicate (p.datalen - 16) 0xa5)
unfolding echo_body store_le
echo_data p t = refl

echo_time :
    (p : Pinger) (t : Clock)
    → t.sec < 2 ^ 63
    → t.usec < 2 ^ 63
    → load_time (drop 4 (echo_body p t)) ≡ done (record { sec = pos t.sec; usec = pos t.usec })
echo_time p t h k =
    ap load_time (echo_data p t) ∙ load_time-store_time t (replicate (p.datalen - 16) 0xa5) h k

own_or_other :
    (b : Bool) (o : Outcome (Option Report))
    → (if not b then done none else o) ≡ (if b then o else done none)
own_or_other true o = refl
own_or_other false o = refl

-- The answer to a packet of this process is reported with the packet's number, the time to live of
-- the IP header and the time since the packet was sent; the answer to another process's packet is
-- not.
pub proc_v4_own :
    (h : List ℕ) (code c0 c1 ttl : ℕ) (p q : Pinger) (t : Clock) (now : Timeval)
    → IsHeader h
    → byte h 9 ≡ done 1
    → byte h 8 ≡ done ttl
    → p.pid < 2 ^ 16
    → 16 ≤ p.datalen
    → t.sec < 2 ^ 63
    → t.usec < 2 ^ 63
    → proc_v4 (h ++ 0 ∷ code ∷ c0 ∷ c1 ∷ echo_body p t) now q ≡ (
        if p.pid == q.pid
        then done (
            some (
              answer
                (8 + p.datalen)
                (p.nsent % 2 ^ 16)
                ttl
                (tv_sub now (record { sec = pos t.sec; usec = pos t.usec }))))
        else done none)
unfolding proc_v4 proc_reply
proc_v4_own h code c0 c1 ttl p q t now v proto live small low ms mu =
    let icmp : List ℕ = 0 ∷ code ∷ c0 ∷ c1 ∷ echo_body p t in
    let size : length (h ++ icmp) ≡ length h + (8 + p.datalen) =
      omega (arith, length-append h icmp, length-echo_body p t low) in
    let whole : ltb (length (h ++ icmp)) (length h + 8) ≡ false = ground (arith, size) in
    let rest : length (h ++ icmp) - length h ≡ 8 + p.datalen = omega (arith, size) in
    let long : ltb (8 + p.datalen) 16 ≡ false = ground arith in
    rw
      (
        ip_header_length-append h icmp v,
        byte-append h 9 icmp proto,
        whole,
        byte-append h 8 icmp live,
        drop-length-append h icmp,
        echo_id 0 code c0 c1 p t small,
        rest,
        long,
        echo_time p t ms mu,
        echo_seq 0 code c0 c1 p t,
      )
      (own_or_other (p.pid == q.pid) _)
