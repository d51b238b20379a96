-- ===== src/Rtt/Answer.antt =====
-- How often a request is sent, and what counts as its answer.
use network_program.Prelude.{
  ℕ, zero, suc, ◌+◌, ◌-◌, ◌%◌, ◌^◌, ◌≤◌, ◌<◌, ◌≡◌, refl, sym, Bool, true, false, not, ◌||◌,
  Bool-cases, inl, inr, none, some, List, [], ◌∷◌, ◌++◌, length, take, arith, ltb, ◌==◌,
}
use network_program.Prelude.Int.{ℤ, pos, negsuc, ltb_ℤ}
use network_program.Sys.{Outcome, done}
use network_program.Rtt.{Floats, Clock, RttInfo, rtt_newpack, rtt_timeout}
use network_program.Rtt.Request.{
  after_send, Datagram, Try, Requester, Reply, hdr_size, receive, send_loop, dg_send_recv,
}

-- No datagram of these tries answers the request.
abbrev pub Silent : ℕ → List Try → Type 0
Silent seq [] = Unit
Silent seq (t ∷ ts) = (receive seq t.heard ≡ none) × Silent seq ts

-- The value and the number of datagrams sent.
pub record Ends {F : Type 0} (value : ℤ) (sends : ℕ) (initialised : Bool) (o : Outcome (Reply F))
    : Type 0 where
  pub reply : Reply F
  pub ran : o ≡ done reply
  pub valued : reply.value ≡ value
  pub counted : length reply.headers ≡ sends
  pub kept : reply.state.rttinit ≡ initialised

again_on :
    {F : Type 0} (o : Floats F) (r : RttInfo F)
    → r.nrexmt < 3
    → ltb_ℤ (rtt_timeout o r).1 (pos 0) ≡ false
unfolding rtt_timeout
again_on o r few = ground arith

again_off :
    {F : Type 0} (o : Floats F) (r : RttInfo F)
    → 3 ≤ r.nrexmt
    → ltb_ℤ (rtt_timeout o r).1 (pos 0) ≡ true
unfolding rtt_timeout
again_off o r many = ground arith

counts : {F : Type 0} (o : Floats F) (r : RttInfo F) → (rtt_timeout o r).0.nrexmt ≡ r.nrexmt + 1
unfolding rtt_timeout
counts o r = refl

sent_before :
    {F : Type 0} {v : ℤ} {m n : ℕ} {b : Bool} (h : ℕ × ℕ) (a : ℤ) (o : Outcome (Reply F))
    → m ≡ n + 1
    → Ends v n b o
    → Ends v m b (after_send h a o)
sent_before h a o one e = rw e.ran (record {
  reply = record e.reply { headers = h ∷ e.reply.headers; alarms = a ∷ e.reply.alarms };
  ran = refl;
  valued = e.valued;
  counted = omega (arith, e.counted, one);
  kept = e.kept;
})

answer_comes :
    {F : Type 0} (o : Floats F) (seq : ℕ) (front back : List Try) (t : Try) (d : Datagram)
    (r : RttInfo F)
    → Silent seq front
    → receive seq t.heard ≡ some d
    → length front + r.nrexmt ≤ 3
    → Ends (pos (d.size - hdr_size)) (length front + 1) true (send_loop o r seq (front ++ t ∷ back))
unfolding send_loop
answer_comes o seq [] back t d r silent got few =
    rw got (record { reply = _; ran = refl; valued = refl; counted = refl; kept = refl })
answer_comes o seq (u ∷ front) back t d r silent got few =
    rw (silent.0, again_on o r (omega arith))
      (sent_before _ _ _ (omega arith) (
        answer_comes o seq front back t d (rtt_timeout o r).0 silent.1 got
          (omega (arith, counts o r))))

no_answer :
    {F : Type 0} (o : Floats F) (seq k : ℕ) (ts : List Try) (r : RttInfo F)
    → Silent seq (take (suc k) ts)
    → suc k ≤ length ts
    → k + r.nrexmt ≡ 3
    → Ends (negsuc 0) (suc k) false (send_loop o r seq ts)
unfolding send_loop
no_answer o seq k [] r silent long few = absurd (omega arith)
no_answer o seq zero (t ∷ ts) r silent long few =
    rw (silent.0, again_off o r (omega arith))
      (record { reply = _; ran = refl; valued = refl; counted = refl; kept = refl })
no_answer o seq (suc k) (t ∷ ts) r silent long few =
    rw (silent.0, again_on o r (omega arith))
      (sent_before _ _ _ (omega arith) (
        no_answer o seq k ts (rtt_timeout o r).0 silent.1 (omega arith)
          (omega (arith, counts o r))))

-- An answer that comes after one of the first four sends ends `dg_send_recv` with the size of the
-- answer's data, and nothing more is sent.
pub dg_send_recv_answered :
    {F : Type 0} (o : Floats F) (tv : Clock) (q : Requester F) (front back : List Try) (t : Try)
    (d : Datagram)
    → Silent ((q.seq + 1) % 2 ^ 32) front
    → length front ≤ 3
    → receive ((q.seq + 1) % 2 ^ 32) t.heard ≡ some d
    → Ends
        (pos (d.size - hdr_size))
        (length front + 1)
        true
        (dg_send_recv o tv q (front ++ t ∷ back))
unfolding dg_send_recv rtt_newpack
dg_send_recv_answered o tv q front back t d silent few got =
    answer_comes o _ front back t d _ silent got (omega arith)

-- Where the first four sends are not answered, `dg_send_recv` gives up after the fourth: it
-- returns -1 and will start the estimate anew.
pub dg_send_recv_gives_up :
    {F : Type 0} (o : Floats F) (tv : Clock) (q : Requester F) (ts : List Try)
    → Silent ((q.seq + 1) % 2 ^ 32) (take 4 ts)
    → 4 ≤ length ts
    → Ends (negsuc 0) 4 false (dg_send_recv o tv q ts)
unfolding dg_send_recv rtt_newpack
dg_send_recv_gives_up o tv q ts silent long = no_answer o _ 3 ts _ silent long refl

taken_Answers :
    {seq : ℕ} (c d : Datagram)
    → ltb c.size hdr_size || not (c.seq == seq) ≡ false
    → some c ≡ some d
    → (d.seq ≡ seq) × (hdr_size ≤ d.size)
taken_Answers c d whole e =
    let same : c ≡ d = cc e in rw (sym same) (ground (arith, whole), ground (arith, whole))

-- What is taken for an answer has a whole header with the number of the request, whatever arrived
-- before it.
pub receive-Answers :
    (seq : ℕ) (ds : List Datagram) (d : Datagram)
    → receive seq ds ≡ some d
    → (d.seq ≡ seq) × (hdr_size ≤ d.size)
unfolding receive
receive-Answers seq [] d e = cc e
receive-Answers seq (c ∷ ds) d e = elim (Bool-cases (ltb c.size hdr_size || not (c.seq == seq))) [
  | inl skipped ↦ receive-Answers seq ds d (rw skipped at e)
  | inr taken ↦ taken_Answers c d taken (rw taken at e)
]
