-- ===== src/Traceroute/Ends.antt =====
-- `recv_v4` returns when the alarm comes, where no "destination unreachable" arrives.
use network_program.Prelude.{
  ℕ, zero, suc, ◌+◌, ◌-◌, ◌*◌, ◌%◌, ◌≤◌, ◌<◌, ◌≡◌, ◌≢◌, refl, ap, ◌∙◌, Bool, true, false,
  Bool-cases, inl, inr, Option, List, [], ◌∷◌, ◌++◌, length, length-append, length-drop, drop,
  arith, ltb, ltb_false→le, if◌then◌else◌,
}
use network_program.Sys.{
  eintr, ReadResult, got, failed, Outcome, done, Void, Returns, Returns-bind, Returns-value,
}
use network_program.Packet.{byte, byte-append, ip_header_length}
use network_program.Address.{SockAddr}
use network_program.Traceroute.{
  Arrival, Receiver, Code, Inner, Verdict, breaks, continues, is_probe, time_exceeded, judge,
  overwrite, store, settle, recv_round, recv_loop,
}

-- A packet of ICMP that is no "destination unreachable".
abbrev pub Quiet : List ℕ → Type 0
Quiet bs =
    (1 ≤ length bs)
    × ((hlen : ℕ) → ip_header_length bs ≡ done hlen → byte (drop hlen bs) 0 ≢ done 3)

-- Calls that are interrupted or bring such packets, until the alarm.
abbrev pub Arrives : ReadResult → Type 0
Arrives (got bs) = Quiet bs
Arrives (failed eintr) = Unit
Arrives (failed _) = ⊥

abbrev pub Awaited : List Arrival → Type 0
Awaited [] = ⊥
Awaited (a ∷ as1) = Arrives a.result × (if a.alarmed then Unit {0} else Awaited as1)

after :
    (b : Bool) (as1 : List Arrival)
    → b ≡ false
    → (if b then Unit {0} else Awaited as1)
    → Awaited as1
after true as1 e h = absurd (cc e)
after false as1 e h = h

byte-inside : (bs : List ℕ) (i : ℕ) → i < length bs → (v : ℕ) × (byte bs i ≡ done v)
byte-inside [] i h = elim h [ ]
byte-inside (b ∷ bs) zero h = (b, refl)
byte-inside (b ∷ bs) (suc i) h = byte-inside bs i (omega arith)

drop-append_le : (n : ℕ) (xs ys : List ℕ) → n ≤ length xs → drop n (xs ++ ys) ≡ drop n xs ++ ys
drop-append_le zero xs ys h = refl
drop-append_le (suc n) [] ys h = elim h [ ]
drop-append_le (suc n) (x ∷ xs) ys h = drop-append_le n xs ys (omega arith)

is_probe-Returns :
    (hip udp : List ℕ) (sport port : ℕ)
    → 10 ≤ length hip
    → 4 ≤ length udp
    → Returns (λ _. Void) (is_probe hip udp sport port)
unfolding is_probe
is_probe-Returns hip udp sport port h k =
    let proto = byte-inside hip 9 (omega arith) in
    let b0 = byte-inside udp 0 (omega arith) in
    let b1 = byte-inside udp 1 (omega arith) in
    let b2 = byte-inside udp 2 (omega arith) in
    let b3 = byte-inside udp 3 (omega arith) in rw (proto.1, b0.1, b1.1, b2.1, b3.1) (ground arith)

time_exceeded-Returns :
    (buf : List ℕ) (hlen1 icmplen sport port : ℕ) (inner : Option Inner)
    → hlen1 ≤ 60
    → 132 ≤ length buf
    → Returns (λ _. Void) (time_exceeded buf hlen1 icmplen sport port inner)
unfolding time_exceeded
time_exceeded-Returns buf hlen1 icmplen sport port inner h size =
    let first = byte-inside (drop (hlen1 + 8) buf) 0 (omega (arith, length-drop (hlen1 + 8) buf)) in
    let hlen2 : ℕ = first.0 % 16 * 4 in
    let ours =
      Returns-value (λ _. Void) _
        (is_probe-Returns (drop (hlen1 + 8) buf) (drop (hlen1 + 8 + hlen2) buf) sport port
          (omega (arith, length-drop (hlen1 + 8) buf))
          (omega (arith, length-drop (hlen1 + 8 + hlen2) buf))) in
    rw (first.1, ours.1) (ground arith)

judge-Returns :
    (bs tail : List ℕ) (sport port : ℕ) (inner : Option Inner)
    → Quiet bs
    → 132 ≤ length (bs ++ tail)
    → Returns (λ _. Void) (judge (bs ++ tail) (length bs) sport port inner)
unfolding judge
judge-Returns bs tail sport port inner q size =
    let first = byte-inside bs 0 (omega (arith, q.0)) in
    let hlen1 : ℕ = first.0 % 16 * 4 in
    let long : Bool = ltb (length bs) (hlen1 + 8) in
    let rest = length-drop hlen1 bs in
    rw (byte-append bs 0 tail first.1) (elim (Bool-cases long) [
      | inl short ↦ rw short tt
      | inr whole ↦
          let enough = ltb_false→le (length bs) (hlen1 + 8) whole in
          let type = byte-inside (drop hlen1 bs) 0 (omega (arith, enough)) in
          let code = byte-inside (drop hlen1 bs) 1 (omega (arith, enough)) in
          let no : type.0 ≢ 3 = λ e. q.1 hlen1 (rw first.1 refl) (type.1 ∙ ap done e) in
          let expired =
            Returns-value (λ _. Void) _
              (time_exceeded-Returns (bs ++ tail) hlen1 (length bs - hlen1) sport port inner
                (omega arith) size) in
          rw
            (
              whole,
              drop-append_le hlen1 bs tail (omega (arith, enough)),
              byte-append (drop hlen1 bs) 0 tail type.1,
              byte-append (drop hlen1 bs) 1 tail code.1,
              expired.1,
            )
            (ground (arith, no))
    ])

length-overwrite : (bs buf : List ℕ) → length buf ≤ length (overwrite bs buf)
length-overwrite bs buf =
    omega (arith, length-append bs (drop (length bs) buf), length-drop (length bs) buf)

-- The buffer is large enough for two headers.
abbrev pub Roomy : Code × Receiver → Type 0
Roomy q = 132 ≤ length q.1.recvbuf

settle-Returns :
    (alarmed : Bool) (s : Receiver) (rest : Option Inner → Outcome (Code × Receiver)) (v : Verdict)
    → 132 ≤ length s.recvbuf
    → (alarmed ≡ false → (i : Option Inner) → Returns Roomy (rest i))
    → Returns Roomy (settle alarmed s rest v)
settle-Returns alarmed s rest (breaks c) h k = h
settle-Returns true s rest (continues i) h k = h
settle-Returns false s rest (continues i) h k = k refl i

recv_round-Returns :
    (sport port : ℕ) (r : ReadResult) (source : SockAddr) (alarmed : Bool)
    (rest : Option Inner → Receiver → Outcome (Code × Receiver)) (inner : Option Inner)
    (s : Receiver)
    → Arrives r
    → 132 ≤ length s.recvbuf
    → (alarmed ≡ false
        → (i : Option Inner) (t : Receiver) → 132 ≤ length t.recvbuf
        → Returns Roomy (rest i t))
    → Returns Roomy (recv_round sport port r source alarmed rest inner s)
recv_round-Returns sport port (failed eintr) source alarmed rest inner s a h k =
    settle-Returns alarmed s (λ i. rest i s) (continues inner) h (λ e i. k e i s h)
recv_round-Returns sport port (failed _) source alarmed rest inner s a h k = elim a [ ]
recv_round-Returns sport port (got bs) source alarmed rest inner s a h k =
    let room : 132 ≤ length (overwrite bs s.recvbuf) =
      omega (arith, length-overwrite bs s.recvbuf) in
    Returns-bind (λ _. Void) Roomy (judge (overwrite bs s.recvbuf) (length bs) sport port inner) _
      (judge-Returns bs (drop (length bs) s.recvbuf) sport port inner a room)
      (λ v _.
        settle-Returns alarmed (store bs source s) (λ i. rest i (store bs source s)) v room
          (λ e i. k e i (store bs source s) room))

pub recv_loop-Returns :
    (sport port : ℕ) (as1 : List Arrival) (inner : Option Inner) (s : Receiver)
    → Awaited as1
    → 132 ≤ length s.recvbuf
    → Returns Roomy (recv_loop sport port as1 inner s)
unfolding recv_loop
recv_loop-Returns sport port [] inner s a h = elim a [ ]
recv_loop-Returns sport port (x ∷ as1) inner s a h =
    recv_round-Returns sport port x.result x.source x.alarmed (recv_loop sport port as1) inner s a.0
      h (λ e i t room. recv_loop-Returns sport port as1 i t (after x.alarmed as1 e a.1) room)
