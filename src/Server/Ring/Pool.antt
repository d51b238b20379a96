-- ===== src/Server/Ring/Pool.antt =====
-- Whatever the order in which the threads run.
use network_program.Prelude.{
  ℕ, zero, suc, ◌+◌, ◌≤◌, ◌≡◌, ◌⊎◌, refl, sym, ap, ◌∙◌, inl, inr, List, [], ◌∷◌, ◌++◌, append_assoc,
  length, length-append, replicate, arith,
}
use network_program.Sys.{done}
use network_program.Server.Ring.{
  Queue, put, empty, takes, take_one, Thread, ready, blocked, serving, System, Notifies, wakes,
  nobody, Step, accepts, blocks, grabs, finishes, stirs, boot, Reach, here, after,
}
use network_program.Server.Ring.Fifo.{Holds, start-Holds, put-Holds, take_one-none, take_one-first}

abbrev pub n_ready : List Thread → ℕ
n_ready [] = 0
n_ready (ready ∷ ts) = suc (n_ready ts)
n_ready (blocked ∷ ts) = n_ready ts
n_ready (serving f ∷ ts) = n_ready ts

abbrev pub n_blocked : List Thread → ℕ
n_blocked [] = 0
n_blocked (ready ∷ ts) = n_blocked ts
n_blocked (blocked ∷ ts) = suc (n_blocked ts)
n_blocked (serving f ∷ ts) = n_blocked ts

n_ready-append : (ts us : List Thread) → n_ready (ts ++ us) ≡ n_ready ts + n_ready us
n_ready-append [] us = omega arith
n_ready-append (ready ∷ ts) us = omega (arith, n_ready-append ts us)
n_ready-append (blocked ∷ ts) us = n_ready-append ts us
n_ready-append (serving f ∷ ts) us = n_ready-append ts us

n_blocked-append : (ts us : List Thread) → n_blocked (ts ++ us) ≡ n_blocked ts + n_blocked us
n_blocked-append [] us = omega arith
n_blocked-append (ready ∷ ts) us = n_blocked-append ts us
n_blocked-append (blocked ∷ ts) us = omega (arith, n_blocked-append ts us)
n_blocked-append (serving f ∷ ts) us = n_blocked-append ts us

-- What holds at every moment: the connections that were accepted are those that were taken, in the
-- same order, and then those in the queue; and either nobody waits for the condition, or as many
-- threads as connections wait are on their way to the queue.
pub record IsFair (s : System) : Type 0 where
  pub items : List ℕ
  pub holds : Holds items s.queue
  pub order : s.accepted ≡ s.served ++ items
  pub awake : (n_blocked s.threads ≡ 0) ⊎ (length items ≤ n_ready s.threads)

none_blocked :
    (ts : List Thread)
    → ((front back : List Thread) → ¬ (ts ≡ front ++ blocked ∷ back))
    → n_blocked ts ≡ 0
none_blocked [] h = refl
none_blocked (blocked ∷ ts) h = absurd (h [] ts refl)
none_blocked (ready ∷ ts) h = none_blocked ts (λ f b e. h (ready ∷ f) b (ap (λ l. ready ∷ l) e))
none_blocked (serving x ∷ ts) h =
    none_blocked ts (λ f b e. h (serving x ∷ f) b (ap (λ l. serving x ∷ l) e))

-- A thread in the middle changes.
module _ (front back : List Thread) where
  counts :
      (ts : List Thread) (t : Thread)
      → ts ≡ front ++ t ∷ back
      → (n_ready ts ≡ n_ready front + n_ready (t ∷ back))
        × (n_blocked ts ≡ n_blocked front + n_blocked (t ∷ back))
  counts ts t e = (
    ap n_ready e ∙ n_ready-append front (t ∷ back),
    ap n_blocked e ∙ n_blocked-append front (t ∷ back),
  )

notified :
    (n : ℕ) (ts us : List Thread)
    → Notifies ts us
    → (n_blocked ts ≡ 0) ⊎ (n ≤ n_ready ts)
    → (n_blocked us ≡ 0) ⊎ (suc n ≤ n_ready us)
notified n ts us (nobody none) a = inl (none_blocked ts none)
notified n ts us (wakes front back e) a =
    let old = counts front back ts blocked e in
    let new = counts front back (front ++ ready ∷ back) ready refl in
    elim a [
      | inl z ↦ absurd (omega (arith, old.1, z))
      | inr m ↦ inr (omega (arith, old.0, new.0, m))
    ]

taken_none : (items : List ℕ) (q : Queue) → Holds items q → take_one q ≡ done empty → items ≡ []
taken_none [] q h e = refl
taken_none (x ∷ xs) q h e =
    let first = take_one-first x xs q h in let run = first.1 in absurd (cc (run, e))

taken_first :
    (items : List ℕ) (q r : Queue) (x : ℕ)
    → Holds items q
    → take_one q ≡ done (takes x r)
    → (ys : List ℕ) × (items ≡ x ∷ ys) × Holds ys r
taken_first [] q r x h e = let none = take_one-none q h in absurd (cc (none, e))
taken_first (y ∷ ys) q r x h e =
    let first = take_one-first y ys q h in
    let run = first.1 in
    let same : first.0 ≡ r = cc (run, e) in
    let head : y ≡ x = cc (run, e) in (ys, ap (λ z. z ∷ ys) head, rw same at first.2)

put_last :
    (items : List ℕ) (q r : Queue) (v : ℕ)
    → Holds items q
    → put v q ≡ done r
    → Holds (items ++ v ∷ []) r
put_last items q r v h e = elim (put-Holds v q items h) [
  | inl f ↦ let run = f.1 in absurd (cc (run, e))
  | inr f ↦
      let found = f.1 in
      let run = found.1 in let same : found.0 ≡ r = cc (run, e) in rw same at found.2
]

pub Step-IsFair : {s t : System} → Step s t → IsFair s → IsFair t
Step-IsFair (accepts s connfd q ts e n) v =
    let longer = length-append v.items (connfd ∷ []) in
    record {
      items = v.items ++ connfd ∷ [];
      holds = put_last v.items s.queue q connfd v.holds e;
      order = ap (λ l. l ++ connfd ∷ []) v.order ∙ append_assoc s.served v.items (connfd ∷ []);
      awake = elim (notified (length v.items) s.threads ts n v.awake) [
        | inl z ↦ inl z
        | inr m ↦ inr (omega (arith, longer, m))
      ];
    }
Step-IsFair (blocks s front back e empty_now) v =
    let nothing = taken_none v.items s.queue v.holds empty_now in
    record {
      items = v.items;
      holds = v.holds;
      order = v.order;
      awake = inr (omega (arith, ap length nothing));
    }
Step-IsFair (grabs s front back connfd q e taken) v =
    let first = taken_first v.items s.queue q connfd v.holds taken in
    let old = counts front back s.threads ready e in
    let new = counts front back (front ++ serving connfd ∷ back) (serving connfd) refl in
    record {
      items = first.0;
      holds = first.2;
      order =
          v.order
          ∙ ap (λ l. s.served ++ l) first.1
          ∙ sym (append_assoc s.served (connfd ∷ []) first.0);
      awake = elim v.awake [
        | inl z ↦ inl (omega (arith, old.1, new.1, z))
        | inr m ↦ inr (omega (arith, old.0, new.0, m, ap length first.1))
      ];
    }
Step-IsFair (finishes s front back connfd e) v =
    let old = counts front back s.threads (serving connfd) e in
    let new = counts front back (front ++ ready ∷ back) ready refl in
    record {
      items = v.items;
      holds = v.holds;
      order = v.order;
      awake = elim v.awake [
        | inl z ↦ inl (omega (arith, old.1, new.1, z))
        | inr m ↦ inr (omega (arith, old.0, new.0, m))
      ];
    }
Step-IsFair (stirs s front back e) v =
    let old = counts front back s.threads blocked e in
    let new = counts front back (front ++ ready ∷ back) ready refl in
    record {
      items = v.items;
      holds = v.holds;
      order = v.order;
      awake = elim v.awake [
        | inl z ↦ inl (omega (arith, old.1, new.1, z))
        | inr m ↦ inr (omega (arith, old.0, new.0, m))
      ];
    }

all_ready : (n : ℕ) → n_blocked (replicate n ready) ≡ 0
all_ready zero = refl
all_ready (suc n) = all_ready n

-- However the threads take turns, from the start of the program on: the connections are taken in the
-- order in which they were accepted, each of them once, and those that are not taken yet stand in the
-- queue; and they never wait while every thread that could take them sleeps.
pub Reach-IsFair : (nthreads : ℕ) (s : System) → Reach (boot nthreads) s → IsFair s
unfolding boot
Reach-IsFair n _ here = record {
  items = [];
  holds = start-Holds;
  order = refl;
  awake = inl (all_ready n);
}
Reach-IsFair n _ (after r step) = Step-IsFair step (Reach-IsFair n _ r)
