-- ===== src/Traceroute/Hops.antt =====
-- What `recv_v4` makes of a packet of ICMP.
use network_program.Prelude.{
  ℕ, ◌+◌, ◌-◌, ◌*◌, ◌/◌, ◌%◌, ◌^◌, ◌≤◌, ◌<◌, ◌≡◌, refl, ap, ◌∙◌, Bool, true, false, not, ◌&&◌,
  Option, none, some, List, ◌∷◌, ◌++◌, append_assoc, length, length-append, drop, drop-add, arith,
  ltb, ◌==◌, if◌then◌else◌,
}
use network_program.Sys.{got, Outcome, done, fault}
use network_program.Packet.{
  byte, IsHeader, ip_header_length-append, drop-length-append, byte-append,
}
use network_program.Address.{SockAddr}
use network_program.Traceroute.{
  Arrival, Receiver, Code, timed_out, exceeded, Inner, breaks, continues, htons, is_probe,
  time_exceeded, unreachable, judge, overwrite, store, settle, recv_loop, recv_v4,
}

-- A 16-bit number as it stands in a packet.
abbrev network_bytes : ℕ → List ℕ → List ℕ
network_bytes n back = n / 256 ∷ n % 256 ∷ back

-- The ports of a UDP header.
abbrev pub ports : ℕ → ℕ → List ℕ → List ℕ
ports sport dport back = network_bytes sport (network_bytes dport back)

htons_same :
    (m n : ℕ) → m < 2 ^ 16 → n < 2 ^ 16 → ((m / 256 + 256 * (m % 256)) == htons n) ≡ (m == n)
htons_same m n h k = ground arith

both : (a b : Bool) → (if not a then done false else done b) ≡ done (a && b)
both true b = refl
both false b = refl

is_probe-ports :
    (hip back : List ℕ) (s d sport port : ℕ)
    → byte hip 9 ≡ done 17
    → s < 2 ^ 16
    → d < 2 ^ 16
    → sport < 2 ^ 16
    → port < 2 ^ 16
    → is_probe hip (ports s d back) sport port ≡ done (s == sport && d == port)
unfolding is_probe
is_probe-ports hip back s d sport port e hs hd ks kd =
    rw (e, htons_same s sport hs ks, htons_same d port hd kd) (both (s == sport) (d == port))

-- A message of ICMP about a datagram of UDP: the type, the code, six bytes, the datagram's IP header
-- and its ports.
abbrev pub message : ℕ → ℕ → List ℕ → List ℕ → ℕ → ℕ → List ℕ → List ℕ
message type code mid hip s d back = type ∷ code ∷ mid ++ (hip ++ ports s d back)

drop-message :
    (type code s d : ℕ) (mid hip back : List ℕ)
    → length mid ≡ 6
    → drop 8 (message type code mid hip s d back) ≡ hip ++ ports s d back
drop-message type code s d mid hip back e =
    let front : 8 ≡ length (type ∷ code ∷ mid) = omega (arith, e) in
    ap (λ k. drop k (message type code mid hip s d back)) front
    ∙ drop-length-append (type ∷ code ∷ mid) (hip ++ ports s d back)

judge-exceeded :
    (h mid hip back : List ℕ) (s d sport port n : ℕ) (i : Option Inner)
    → IsHeader h
    → IsHeader hip
    → length mid ≡ 6
    → byte hip 9 ≡ done 17
    → 20 ≤ length hip
    → s < 2 ^ 16
    → d < 2 ^ 16
    → sport < 2 ^ 16
    → port < 2 ^ 16
    → length h + 12 + length hip ≤ n
    → judge (h ++ message 11 0 mid hip s d back) n sport port i
      ≡ done (
          if s == sport && d == port
          then breaks exceeded
          else continues (some (record { hip = length h + 8; hlen2 = length hip })))
unfolding judge time_exceeded
judge-exceeded h mid hip back s d sport port n i v w e udp long hs hd ks kd size =
    let buf : List ℕ = h ++ message 11 0 mid hip s d back in
    let whole : ltb n (length h + 8) ≡ false = ground (arith, size) in
    let quoted : ltb (n - length h) 28 ≡ false = ground (arith, size, long) in
    let reaches : ltb (n - length h) (8 + length hip + 4) ≡ false = ground (arith, size) in
    let inner : drop (length h + 8) buf ≡ hip ++ ports s d back =
      drop-add (length h) 8 buf
      ∙ ap (drop 8) (drop-length-append h (message 11 0 mid hip s d back))
      ∙ drop-message 11 0 s d mid hip back e in
    let udp_at : drop (length h + 8 + length hip) buf ≡ ports s d back =
      drop-add (length h + 8) (length hip) buf
      ∙ ap (drop (length hip)) inner
      ∙ drop-length-append hip (ports s d back) in
    rw
      (
        ip_header_length-append h (message 11 0 mid hip s d back) v,
        whole,
        drop-length-append h (message 11 0 mid hip s d back),
        quoted,
        inner,
        ip_header_length-append hip (ports s d back) w,
        reaches,
        udp_at,
        is_probe-ports (hip ++ ports s d back) back s d sport port
            (byte-append hip 9 (ports s d back) udp) hs hd ks kd,
      )
      refl

-- Bytes that the packet's own come after.
behind :
    (h mid hip back buf : List ℕ) (type code s d : ℕ)
    → length mid ≡ 6
    → (tail : List ℕ) × (overwrite (h ++ message type code mid hip s d back) buf
        ≡ h ++ message type code mid hip s d tail)
      × (length (h ++ message type code mid hip s d back)
          ≡ length h + 12 + length hip + length back)
behind h mid hip back buf type code s d e =
    let packet : List ℕ = h ++ message type code mid hip s d back in
    let old : List ℕ = drop (length packet) buf in
    (
      back ++ old,
      append_assoc h (message type code mid hip s d back) old
          ∙ ap (λ l. h ++ type ∷ code ∷ l)
              (append_assoc mid (hip ++ ports s d back) old
                ∙ ap (λ l. mid ++ l) (append_assoc hip (ports s d back) old)),
      omega (
        arith,
        e,
        length-append h (message type code mid hip s d back),
        length-append mid (hip ++ ports s d back),
        length-append hip (ports s d back),
      ),
    )

continuing :
    (b alarmed : Bool) (st : Receiver) (rest : Option Inner → Outcome (Code × Receiver)) (i : Inner)
    → settle alarmed st rest (if b then breaks exceeded else continues (some i))
      ≡ (if b then done (exceeded, st) else if alarmed then done (timed_out, st) else rest (some i))
continuing true true st rest i = refl
continuing true false st rest i = refl
continuing false true st rest i = refl
continuing false false st rest i = refl

-- A router's answer to a datagram of UDP ends the wait where the datagram has the ports of this
-- process and of this probe, and else does not, unless the time is up.
pub recv_v4-exceeded :
    (h mid hip back : List ℕ) (s d sport port : ℕ) (from : SockAddr) (alarmed : Bool)
    (as1 : List Arrival) (r : Receiver)
    → IsHeader h
    → IsHeader hip
    → length mid ≡ 6
    → byte hip 9 ≡ done 17
    → 20 ≤ length hip
    → s < 2 ^ 16
    → d < 2 ^ 16
    → sport < 2 ^ 16
    → port < 2 ^ 16
    → recv_v4 sport port
        (record {
          result = got (h ++ message 11 0 mid hip s d back);
          source = from;
          alarmed = alarmed;
        }
          ∷ as1)
        r
      ≡ (if s == sport && d == port
          then done (exceeded, store (h ++ message 11 0 mid hip s d back) from r)
          else if alarmed
          then done (timed_out, store (h ++ message 11 0 mid hip s d back) from r)
          else recv_loop sport port as1
              (some (record { hip = length h + 8; hlen2 = length hip }))
              (store (h ++ message 11 0 mid hip s d back) from r))
unfolding recv_v4 recv_loop
recv_v4-exceeded h mid hip back s d sport port from alarmed as1 r v w e udp long hs hd ks kd =
    let packet : List ℕ = h ++ message 11 0 mid hip s d back in
    let all = behind h mid hip back r.recvbuf 11 0 s d e in
    let inner : Inner = record { hip = length h + 8; hlen2 = length hip } in
    let judged : judge (overwrite packet r.recvbuf) (length packet) sport port none
        ≡ done (if s == sport && d == port then breaks exceeded else continues (some inner)) =
      ap (λ l. judge l (length packet) sport port none) all.1
      ∙ judge-exceeded h mid hip all.0 s d sport port (length packet) none v w e udp long hs hd ks
          kd (omega (arith, all.2)) in
    rw judged (
      continuing (s == sport && d == port) alarmed (store packet from r)
        (λ i. recv_loop sport port as1 i (store packet from r)) inner)

-- A destination's answer, the first packet that arrives, is judged by variables that nothing was
-- stored into.
pub recv_v4-unreachable :
    (h mid hip back : List ℕ) (code s d sport port : ℕ) (from : SockAddr) (alarmed : Bool)
    (as1 : List Arrival) (r : Receiver)
    → IsHeader h
    → length mid ≡ 6
    → recv_v4 sport port
        (record {
          result = got (h ++ message 3 code mid hip s d back);
          source = from;
          alarmed = alarmed;
        }
          ∷ as1)
        r
      ≡ fault
unfolding recv_v4 recv_loop judge unreachable
recv_v4-unreachable h mid hip back code s d sport port from alarmed as1 r v e =
    let packet : List ℕ = h ++ message 3 code mid hip s d back in
    let all = behind h mid hip back r.recvbuf 3 code s d e in
    let whole : ltb (length packet) (length h + 8) ≡ false = ground (arith, all.2) in
    rw
      (
        all.1,
        ip_header_length-append h (message 3 code mid hip s d all.0) v,
        whole,
        drop-length-append h (message 3 code mid hip s d all.0),
      )
      refl
