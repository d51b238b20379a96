-- ===== src/Icmpd/Idle.antt =====
-- The daemon as `main` starts it never has a client.
use network_program.Prelude.{
  ℕ, ◌+◌, ◌-◌, ◌≡◌, refl, ap, Bool, true, false, Bool-cases, inl, inr, List, [], ◌∷◌, ◌++◌, length,
  drop, ltb, ◌==◌, if◌then◌else◌,
}
use mathlib.Core.Path.{subst}
use network_program.Sys.{Outcome, done, exits, waits, fault, ◌>>=◌, Void, Done, Done-bind}
use network_program.Packet.{byte, word, ip_header_length}
use network_program.Icmpd.{
  Daemon, start, notify, is_error, dest_error, ip_dst, readable_listen, readable_v4,
}
use network_program.Icmpd.Register.{listen_refuses, full}
use network_program.Icmpd.Loop.{
  Action, closes, Event, visit, visit_clients, after_listen, round, run,
}

any : {A : Type 0} (o : Outcome A) → Done (λ _. Void) o
any (done a) = tt
any exits = tt
any waits = tt
any fault = tt

-- The part of `readable_v4` that looks at the quoted packet, with nobody to tell.
quoted :
    (hip : List ℕ) (code type : ℕ) (d : Daemon)
    → Done
        (λ ws. ws ≡ [])
        (ip_header_length hip >>= λ hlen2. byte hip 9 >>= λ proto.
          let udp = drop hlen2 hip in
          if proto == 17
          then (word udp 0 >>= λ sport. word udp 2 >>= λ dport. ip_dst hip >>= λ dst. done (
              notify 0 sport
                (record {
                  errno = dest_error type code;
                  type = type;
                  code = code;
                  dest_addr = dst;
                  dest_port = dport;
                })
                d.client))
          else done [])
unfolding notify
quoted hip code type d =
    Done-bind (λ _. Void) _ (ip_header_length hip) _ (any _)
      (λ hlen2 _.
        Done-bind (λ _. Void) _ (byte hip 9) _ (any _)
          (λ proto _. elim (Bool-cases (proto == 17)) [
            | inr x ↦ rw x refl
            | inl x ↦ rw x (
                Done-bind (λ _. Void) _ (word (drop hlen2 hip) 0) _ (any _)
                  (λ sport _.
                    Done-bind (λ _. Void) _ (word (drop hlen2 hip) 2) _ (any _)
                      (λ dport _. Done-bind (λ _. Void) _ (ip_dst hip) _ (any _) (λ dst _. refl))))
          ]))

readable_v4-none :
    (buf : List ℕ) (d : Daemon) → d.count ≡ 0 → Done (λ ws. ws ≡ []) (readable_v4 buf d)
unfolding readable_v4 notify
readable_v4-none buf d none_known = rw none_known (
    Done-bind (λ _. Void) _ (ip_header_length buf) _ (any _)
      (λ hlen1 _. elim (Bool-cases (ltb (length buf) (hlen1 + 8))) [
        | inl x ↦ rw x tt
        | inr x ↦ rw x (
            Done-bind (λ _. Void) _ (byte (drop hlen1 buf) 0) _ (any _)
              (λ type _.
                Done-bind (λ _. Void) _ (byte (drop hlen1 buf) 1) _ (any _)
                  (λ code _. elim (Bool-cases (is_error type)) [
                    | inr y ↦ rw y refl
                    | inl y ↦ rw y (elim (Bool-cases (ltb (length buf) (hlen1 + 36))) [
                      | inl z ↦ rw z tt
                      | inr z ↦
                          let hip : List ℕ = drop 8 (drop hlen1 buf) in
                          rw z (quoted hip code type d)
                    ])
                  ])))
      ]))

visit_clients-none : (e : Event) (n : ℕ) (d : Daemon) → d.count ≡ 0 → visit_clients e n d ≡ (d, [])
unfolding visit_clients visit
visit_clients-none e n d z = rw z refl

-- The connections that arrive, all of which are closed.
abbrev pub refused : List Event → ℕ → List Action
refused [] listenfd = []
refused (e ∷ es) listenfd =
    let rest = refused es listenfd in if e.rset listenfd then closes e.accepted ∷ rest else rest

-- A round that changes nothing.
abbrev Still : Daemon → List Action → Outcome (Daemon × List Action) → Type 0
Still d out o = Done (λ q. (q.0 ≡ d) × (q.1 ≡ out)) o

after_listen-Still :
    (e : Event) (n : ℕ) (d : Daemon) → d.count ≡ 0 → Still d [] (after_listen e n d)
unfolding after_listen
after_listen-Still e n d z = elim (Bool-cases (e.rset d.fd4)) [
  | inr x ↦ rw (x, visit_clients-none e n d z) (refl, refl)
  | inl x ↦
      rw (x, visit_clients-none e (n - 1) d z)
        (Done-bind _ _ (readable_v4 e.packet d) _ (readable_v4-none e.packet d z) (λ ws w.
          elim (Bool-cases (n - 1 == 0)) [
            | inl y ↦ rw (y, w) (refl, refl)
            | inr y ↦ rw (y, w) (refl, refl)
          ]))
]

round-Still :
    (e : Event) (d : Daemon)
    → d.count ≡ 0
    → readable_listen e.accepted d ≡ (d, e.accepted ∷ [])
    → Still d (if e.rset d.listenfd then closes e.accepted ∷ [] else []) (round e d)
unfolding round
round-Still e d z closed = elim (Bool-cases (e.rset d.listenfd)) [
  | inr x ↦ rw x (after_listen-Still e e.nsel d z)
  | inl x ↦
      rw (x, closed)
        (elim (Bool-cases (e.nsel - 1 == 0)) [
          | inl y ↦ rw y (refl, refl)
          | inr y ↦ rw y (
              Done-bind _ _ (after_listen e (e.nsel - 1) d) _
                (after_listen-Still e (e.nsel - 1) d z)
                (λ q w. (w.0, ap (λ l. closes e.accepted ∷ l) w.1)))
        ])
]

joined :
    (b : Bool) (a : Action) (rest : List Action)
    → (if b then a ∷ [] else []) ++ rest ≡ (if b then a ∷ rest else rest)
joined true a rest = refl
joined false a rest = refl

started :
    (fd4 listenfd : ℕ)
    → ((start fd4 listenfd).count ≡ 0) × ((start fd4 listenfd).listenfd ≡ listenfd)
unfolding start
started fd4 listenfd = (refl, refl)

-- However long the daemon runs from its start, where it does not end it has the state of the start,
-- has closed each connection that arrived, and has written nothing to anybody.
pub run-start-refuses :
    (es : List Event) (fd4 listenfd : ℕ)
    → Done
        (λ (q : Daemon × List Action). (q.0 ≡ start fd4 listenfd) × (q.1 ≡ refused es listenfd))
        (run es (start fd4 listenfd))
unfolding run
run-start-refuses [] fd4 listenfd = (refl, refl)
run-start-refuses (e ∷ es) fd4 listenfd =
    let d : Daemon = start fd4 listenfd in
    let begun = started fd4 listenfd in
    let one : Still d (if e.rset listenfd then closes e.accepted ∷ [] else []) (round e d) =
      subst (λ l. Still d (if e.rset l then closes e.accepted ∷ [] else []) (round e d)) begun.1
        (round-Still e d begun.0 (listen_refuses e.accepted d (full e.accepted fd4 listenfd))) in
    Done-bind _ _ (round e d) _ one (λ p h.
      rw (h.0, h.1)
        (Done-bind _ _ (run es d) _ (run-start-refuses es fd4 listenfd) (λ q g.
          rw g.1 (g.0, joined (e.rset listenfd) (closes e.accepted) (refused es listenfd)))))
