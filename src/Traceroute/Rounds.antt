-- ===== src/Traceroute/Rounds.antt =====
-- The two loops of `traceloop`.
use network_program.Prelude.{
  ℕ, zero, suc, ◌+◌, ◌%◌, ◌^◌, ◌≤◌, ◌≡◌, refl, false, Bool-cases, inl, inr, none, List, [], ◌∷◌,
  length, length-replicate, replicate, arith, if◌then◌else◌,
}
use network_program.Prelude.Int.{pos, ltb_ℤ}
use mathlib.Core.Path.{subst}
use network_program.Sys.{
  wrote, Outcome, done, exits, waits, fault, Void, Done, Done-bind, Returns, Returns-bind,
  Returns-value,
}
use network_program.Wrap.Sock.{setsockopt_or_exit, socket_or_exit, bind_or_exit}
use network_program.Wrap.Transfer.{sendto_or_exit}
use network_program.Address.{sock_set_port}
use network_program.Traceroute.{
  htons, recv_v4, Kernel, Line, Options, Tracer, probe_once, probe_loop, has_end, no_address,
  ttl_loop, with_port, start, traceloop,
}
use network_program.Traceroute.Ends.{Awaited, Roomy, recv_loop-Returns}

-- Packets for one value of `ttl`: as many as `left`, numbered from `seq` on, each to the port of its
-- number.
abbrev pub IsRound : Options → ℕ → ℕ → ℕ → List Line → Type 0
IsRound o zero ttl seq ls = ls ≡ []
IsRound o (suc left) ttl seq [] = ⊥
IsRound o (suc left) ttl seq (l ∷ ls) =
    (l.rec_seq ≡ (seq + 1) % 2 ^ 16)
    × (l.rec_ttl ≡ ttl % 2 ^ 16)
    × (l.dest ≡ sock_set_port o.sasend (htons (o.dport + (seq + 1))))
    × IsRound o left ttl (seq + 1) ls

-- Rounds for values of `ttl` from one on, which stop with a round in which the destination answered,
-- or when no value is left.
abbrev pub IsTrace : Options → ℕ → ℕ → ℕ → List (List Line) → Type 0
IsTrace o zero ttl seq log = log ≡ []
IsTrace o (suc left) ttl seq [] = ⊥
IsTrace o (suc left) ttl seq (round ∷ log) =
    IsRound o o.nprobes ttl seq round
    × (if has_end round then log ≡ [] else IsTrace o left (ttl + 1) (seq + o.nprobes) log)

any : {A : Type 0} (o : Outcome A) → Done (λ _. Void) o
any (done a) = tt
any exits = tt
any waits = tt
any fault = tt

probe_once-line :
    (k : Kernel) (o : Options) (ttl : ℕ) (s : Tracer)
    → Done
        (λ (q : Line × Tracer).
          (q.0.rec_seq ≡ (s.seq + 1) % 2 ^ 16)
          × (q.0.rec_ttl ≡ ttl % 2 ^ 16)
          × (q.0.dest ≡ sock_set_port o.sasend (htons (o.dport + (s.seq + 1))))
          × (q.1.seq ≡ s.seq + 1))
        (probe_once k o ttl s)
unfolding probe_once
probe_once-line k o ttl s =
    Done-bind (λ _. Void) _ (sendto_or_exit 24 (k.meeting (s.seq + 1)).sent) _ (any _)
      (λ _ _.
        Done-bind (λ _. Void) _
          (recv_v4 o.sport (o.dport + (s.seq + 1)) (k.meeting (s.seq + 1)).arrivals s.receiver) _
          (any _) (λ c _. (refl, refl, refl, refl)))

probe_loop-IsRound :
    (left : ℕ) (k : Kernel) (o : Options) (ttl : ℕ) (s : Tracer)
    → Done
        (λ (q : List Line × Tracer). IsRound o left ttl s.seq q.0 × (q.1.seq ≡ s.seq + left))
        (probe_loop left k o ttl s)
unfolding probe_loop
probe_loop-IsRound zero k o ttl s = (refl, omega arith)
probe_loop-IsRound (suc left) k o ttl s =
    Done-bind _ _ (probe_once k o ttl s) _ (probe_once-line k o ttl s) (λ one h.
      let q : one.1.seq ≡ s.seq + 1 = h.3 in
      Done-bind _ _ (probe_loop left k o ttl one.1) _ (probe_loop-IsRound left k o ttl one.1)
        (λ more g.
          let e : more.1.seq ≡ one.1.seq + left = g.1 in
          ((h.0, h.1, h.2, rw q at g.0), omega (arith, q, e))))

ttl_loop-IsTrace :
    (left : ℕ) (k : Kernel) (o : Options) (ttl : ℕ) (s : Tracer)
    → Done (IsTrace o left ttl s.seq) (ttl_loop left k o ttl s)
unfolding ttl_loop
ttl_loop-IsTrace zero k o ttl s = refl
ttl_loop-IsTrace (suc left) k o ttl s =
    Done-bind (λ _. Void) _ (setsockopt_or_exit (k.ttl_set ttl)) _ (any _)
      (λ _ _.
        Done-bind _ _ (probe_loop o.nprobes k o ttl (record s { salast = no_address })) _
          (probe_loop-IsRound o.nprobes k o ttl (record s { salast = no_address }))
          (λ round h. elim (Bool-cases (has_end round.0)) [
            | inl ended ↦ rw ended (h.0, rw ended refl)
            | inr going ↦
                let e : round.1.seq ≡ s.seq + o.nprobes = h.1 in
                rw going (
                  Done-bind _ _ (ttl_loop left k o (ttl + 1) round.1) _
                    (ttl_loop-IsTrace left k o (ttl + 1) round.1)
                    (λ more g. (h.0, rw going (rw e at g))))
          ]))

-- The kernel does not refuse a call, takes each packet, and ends each wait by the alarm.
pub record IsWilling (k : Kernel) : Type 0 where
  pub opened : ltb_ℤ k.icmp_socket (pos 0) ≡ false
  pub sending : ltb_ℤ k.udp_socket (pos 0) ≡ false
  pub named : ltb_ℤ k.bound (pos 0) ≡ false
  pub limited : (ttl : ℕ) → ltb_ℤ (k.ttl_set ttl) (pos 0) ≡ false
  pub sent : (seq : ℕ) → (k.meeting seq).sent ≡ wrote 24
  pub awaited : (seq : ℕ) → Awaited (k.meeting seq).arrivals

abbrev Room : Tracer → Type 0
Room s = 132 ≤ length s.receiver.recvbuf

probe_once-Returns :
    (k : Kernel) (o : Options) (ttl : ℕ) (s : Tracer)
    → IsWilling k
    → Room s
    → Returns (λ (q : Line × Tracer). Room q.1) (probe_once k o ttl s)
unfolding probe_once recv_v4 sendto_or_exit
probe_once-Returns k o ttl s w h =
    let seq : ℕ = s.seq + 1 in
    rw (w.sent seq) (
      Returns-bind Roomy _ (recv_v4 o.sport (o.dport + seq) (k.meeting seq).arrivals s.receiver) _
        (recv_loop-Returns o.sport (o.dport + seq) (k.meeting seq).arrivals none s.receiver
          (w.awaited seq) h)
        (λ c g. g))

probe_loop-Returns :
    (left : ℕ) (k : Kernel) (o : Options) (ttl : ℕ) (s : Tracer)
    → IsWilling k
    → Room s
    → Returns (λ (q : List Line × Tracer). Room q.1) (probe_loop left k o ttl s)
unfolding probe_loop
probe_loop-Returns zero k o ttl s w h = h
probe_loop-Returns (suc left) k o ttl s w h =
    Returns-bind _ _ (probe_once k o ttl s) _ (probe_once-Returns k o ttl s w h) (λ one g.
      Returns-bind _ _ (probe_loop left k o ttl one.1) _ (probe_loop-Returns left k o ttl one.1 w g)
        (λ more r. r))

ttl_loop-Returns :
    (left : ℕ) (k : Kernel) (o : Options) (ttl : ℕ) (s : Tracer)
    → IsWilling k
    → Room s
    → Returns (λ _. Void) (ttl_loop left k o ttl s)
unfolding ttl_loop
ttl_loop-Returns zero k o ttl s w h = tt
ttl_loop-Returns (suc left) k o ttl s w h = rw (w.limited ttl) (
    Returns-bind _ _ (probe_loop o.nprobes k o ttl (record s { salast = no_address })) _
      (probe_loop-Returns o.nprobes k o ttl (record s { salast = no_address }) w h)
      (λ round g. elim (Bool-cases (has_end round.0)) [
        | inl ended ↦ rw ended tt
        | inr going ↦ rw going (
            Returns-bind (λ _. Void) _ (ttl_loop left k o (ttl + 1) round.1) _
              (ttl_loop-Returns left k o (ttl + 1) round.1 w g) (λ more _. tt))
      ]))

-- Where `traceloop` returns, it has sent the packets of each round, with the numbers, the values of
-- `ttl` and the ports they should have, and has stopped behind the first round in which the
-- destination answered, or with `max_ttl`.
pub traceloop-IsTrace :
    (k : Kernel) (pid : ℕ) (o : Options)
    → Done (IsTrace (with_port pid o) o.max_ttl 1 0) (traceloop k pid o)
unfolding traceloop
traceloop-IsTrace k pid o =
    Done-bind (λ _. Void) _ (socket_or_exit k.icmp_socket) _ (any _)
      (λ _ _.
        Done-bind (λ _. Void) _ (socket_or_exit k.udp_socket) _ (any _)
          (λ _ _.
            Done-bind (λ _. Void) _ (bind_or_exit k.bound) _ (any _)
              (λ _ _. ttl_loop-IsTrace o.max_ttl k (with_port pid o) 1 start)))

-- Where the kernel refuses nothing, no "destination unreachable" comes and the alarm ends each wait,
-- `traceloop` returns.
pub traceloop-returns :
    (k : Kernel) (pid : ℕ) (o : Options)
    → IsWilling k
    → (log : List (List Line)) × (traceloop k pid o ≡ done log)
      × IsTrace (with_port pid o) o.max_ttl 1 0 log
unfolding traceloop
traceloop-returns k pid o w =
    let size : length (replicate {A = ℕ} 1500 0) ≡ 1500 = length-replicate {A = ℕ} 1500 0 in
    let run =
      Returns-value (λ _. Void) (ttl_loop o.max_ttl k (with_port pid o) 1 start)
        (ttl_loop-Returns o.max_ttl k (with_port pid o) 1 start w (omega (arith, size))) in
    let good : Done (IsTrace (with_port pid o) o.max_ttl 1 0) (done run.0) =
      subst (Done (IsTrace (with_port pid o) o.max_ttl 1 0)) run.1
        (ttl_loop-IsTrace o.max_ttl k (with_port pid o) 1 start) in
    rw (w.opened, w.sending, w.named) (run.0, run.1, good)
