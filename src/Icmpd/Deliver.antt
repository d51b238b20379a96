-- ===== src/Icmpd/Deliver.antt =====
-- Whom an ICMP error reaches.
use network_program.Prelude.{
  ℕ, zero, suc, ◌+◌, ◌-◌, ◌*◌, ◌≤◌, ◌≡◌, refl, sym, ap, true, false, Bool-cases, inl, inr, ◌&&◌,
  Option, none, some, List, [], ◌∷◌, ◌++◌, map, length, length-append, take, drop, arith, ltb,
  if◌then◌else◌,
}
use network_program.Sys.{done}
use network_program.Packet.{
  byte, IsHeader, ip_header_length-append, drop-length-append, byte-append,
}
use network_program.Icmpd.{
  Client, Daemon, IcmpdErr, dest_error, is_error, is_inet, same_port, notify, readable_v4, ip_dst,
}

-- The connections of the clients with an internet socket at a port, in the order of the table.
abbrev watcher : Client → ℕ → Option ℕ → List ℕ → List ℕ
watcher c sport none fs = fs
watcher c sport (some f) fs = if is_inet c.family && same_port c.lport sport then f ∷ fs else fs

abbrev pub watchers : ℕ → List Client → List ℕ
watchers sport [] = []
watchers sport (c ∷ cs) = watcher c sport c.connfd (watchers sport cs)

abbrev pub paired : IcmpdErr → ℕ → ℕ × IcmpdErr
paired err f = (f, err)

watcher-map :
    (c : Client) (sport : ℕ) (err : IcmpdErr) (o : Option ℕ) (fs : List ℕ)
    (rest : List (ℕ × IcmpdErr))
    → rest ≡ map (paired err) fs
    → (elim o [
      | none ↦ rest
      | some f ↦ if is_inet c.family && same_port c.lport sport then (f, err) ∷ rest else rest
    ])
      ≡ map (paired err) (watcher c sport o fs)
watcher-map c sport err none fs rest e = e
watcher-map c sport err (some f) fs rest e =
    elim (Bool-cases (is_inet c.family && same_port c.lport sport)) [
      | inl hit ↦ rw hit (ap (λ l. (f, err) ∷ l) e)
      | inr miss ↦ rw miss e
    ]

notify-watchers :
    (k sport : ℕ) (err : IcmpdErr) (cs : List Client)
    → notify k sport err cs ≡ map (paired err) (watchers sport (take k cs))
unfolding notify
notify-watchers zero sport err cs = refl
notify-watchers (suc k) sport err [] = refl
notify-watchers (suc k) sport err (c ∷ cs) =
    watcher-map c sport err c.connfd _ _ (notify-watchers k sport err cs)

-- A UDP packet's header with its destination.
pub record IsUdp (h : List ℕ) (a b c d : ℕ) : Type 0 where
  pub header : IsHeader h
  pub long : 20 ≤ length h
  pub udp : byte h 9 ≡ done 17
  pub dst0 : byte h 16 ≡ done a
  pub dst1 : byte h 17 ≡ done b
  pub dst2 : byte h 18 ≡ done c
  pub dst3 : byte h 19 ≡ done d

-- What is written for an error of a type and a code about a packet to an address and a port.
abbrev pub notice : ℕ → ℕ → List ℕ → ℕ → IcmpdErr
notice type code dst dport = record {
  errno = dest_error type code;
  type = type;
  code = code;
  dest_addr = dst;
  dest_port = dport;
}

ip_dst-append :
    (h : List ℕ) {a b c d : ℕ} (back : List ℕ)
    → IsUdp h a b c d
    → ip_dst (h ++ back) ≡ done (a ∷ b ∷ c ∷ d ∷ [])
ip_dst-append h back v =
    rw
      (
        byte-append h 16 back v.dst0,
        byte-append h 17 back v.dst1,
        byte-append h 18 back v.dst2,
        byte-append h 19 back v.dst3,
      )
      refl

-- The ICMP error about a packet with header `h`: type, code, six more bytes, the header, the ports
-- and what follows them.
abbrev pub icmp_error : ℕ → ℕ → List ℕ → List ℕ → List ℕ → List ℕ
icmp_error type code six h udp = type ∷ code ∷ six ++ (h ++ udp)

drop_six : (six back : List ℕ) → length six ≡ 6 → drop 6 (six ++ back) ≡ back
drop_six six back e = rw (sym e) (drop-length-append six back)

-- A packet with an ICMP error about a UDP packet is written, with the address and the port to which
-- that packet went, to every client among the first `maxi` whose internet socket has the port that
-- it came from, once each and in the order of the table, and to nobody else.
pub readable_v4-watchers :
    (front six h rest : List ℕ) (type code a b c e s0 s1 d0 d1 : ℕ) (d : Daemon)
    → IsHeader front
    → length six ≡ 6
    → IsUdp h a b c e
    → 4 ≤ length rest
    → is_error type ≡ true
    → readable_v4 (front ++ icmp_error type code six h (s0 ∷ s1 ∷ d0 ∷ d1 ∷ rest)) d
      ≡ done (
          map
            (paired (notice type code (a ∷ b ∷ c ∷ e ∷ []) (d0 + 256 * d1)))
            (watchers (s0 + 256 * s1) (take (d.count - 1) d.client)))
unfolding readable_v4
readable_v4-watchers front six h rest type code a b c e s0 s1 d0 d1 d v size u long err =
    let udp : List ℕ = s0 ∷ s1 ∷ d0 ∷ d1 ∷ rest in
    let icmp : List ℕ = icmp_error type code six h udp in
    let total : length (front ++ icmp) ≡ length front + (8 + (length h + (4 + length rest))) =
      omega (arith, length-append front icmp, length-append six (h ++ udp), length-append h udp) in
    let whole : ltb (length (front ++ icmp)) (length front + 8) ≡ false = ground (arith, total) in
    let enough : ltb (length (front ++ icmp)) (length front + 36) ≡ false =
      ground (arith, total, u.long) in
    rw
      (
        ip_header_length-append front icmp v,
        whole,
        drop-length-append front icmp,
        err,
        enough,
        drop_six six (h ++ udp) size,
        ip_header_length-append h udp u.header,
        byte-append h 9 udp u.udp,
        drop-length-append h udp,
        ip_dst-append h udp u,
        notify-watchers (d.count - 1) (s0 + 256 * s1)
            (notice type code (a ∷ b ∷ c ∷ e ∷ []) (d0 + 256 * d1)) d.client,
      )
      refl
