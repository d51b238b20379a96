-- ===== src/Server/Ring/Fifo.antt =====
-- The array is a queue: what it holds, in order.
use network_program.Prelude.{
  ℕ, zero, suc, ◌+◌, ◌-◌, ◌%◌, ◌≤◌, ◌<◌, ◌≡◌, ◌≢◌, ◌⊎◌, refl, ap, ◌∙◌, true, false, Bool-cases, inl,
  inr, Option, none, some, List, [], ◌∷◌, ◌++◌, length, length-append, length-set, length-replicate,
  get_or, set, arith, ◌==◌,
}
use network_program.Sys.{done, exits}
use network_program.Server.Ring.{max_ncli, Queue, start, next, put, empty, takes, take_one}

get_or-set_self :
    {A : Type 0} (xs : List A) (i : ℕ) (v d : A) → i < length xs → get_or (set xs i v) i d ≡ v
get_or-set_self [] i v d h = absurd (omega arith)
get_or-set_self (x ∷ xs) zero v d h = refl
get_or-set_self (x ∷ xs) (suc i) v d h = get_or-set_self xs i v d (omega arith)

get_or-set_ne :
    {A : Type 0} (xs : List A) (i j : ℕ) (v d : A) → i ≢ j → get_or (set xs i v) j d ≡ get_or xs j d
get_or-set_ne [] i j v d h = refl
get_or-set_ne (x ∷ xs) zero zero v d h = absurd (h refl)
get_or-set_ne (x ∷ xs) zero (suc j) v d h = refl
get_or-set_ne (x ∷ xs) (suc i) zero v d h = refl
get_or-set_ne (x ∷ xs) (suc i) (suc j) v d h = get_or-set_ne xs i j v d (λ e. h (ap suc e))

-- The array holds the items one after the other from an index on, round its end.
abbrev pub Stored : List (Option ℕ) → ℕ → List ℕ → Type 0
Stored cs i [] = Unit
Stored cs i (x ∷ xs) = (get_or cs i none ≡ some x) × Stored cs (next i) xs

-- The queue holds exactly these connections, the oldest first.
pub record Holds (xs : List ℕ) (q : Queue) : Type 0 where
  pub width : length q.clifd ≡ max_ncli
  pub low : q.iget < max_ncli
  pub few : length xs < max_ncli
  pub ahead : q.iput ≡ (q.iget + length xs) % max_ncli
  pub stored : Stored q.clifd q.iget xs

next-mod : (i : ℕ) → i < 32 → next i ≡ (i + 1) % 32
next-mod i h = ground arith

next-lt : (i : ℕ) → i < 32 → next i < 32
next-lt i h = ground arith

-- A write where no item stands.
Stored-set :
    (cs : List (Option ℕ)) (i p : ℕ) (v : Option ℕ) (xs : List ℕ)
    → i < 32
    → p < 32
    → length xs ≤ (p + 32 - i) % 32
    → Stored cs i xs
    → Stored (set cs p v) i xs
Stored-set cs i p v [] h k m s = tt
Stored-set cs i p v (x ∷ xs) h k m s =
    let away : p ≢ i = λ e. omega (arith, m, e) in
    let step = next-mod i h in
    (
      get_or-set_ne cs p i v none away ∙ s.0,
      Stored-set cs (next i) p v xs (next-lt i h) k (omega (arith, m, step)) s.1,
    )

Stored-append :
    (cs : List (Option ℕ)) (i v : ℕ) (xs : List ℕ)
    → i < 32
    → Stored cs i xs
    → get_or cs ((i + length xs) % 32) none ≡ some v
    → Stored cs i (xs ++ v ∷ [])
Stored-append cs i v [] h s e = let here : (i + 0) % 32 ≡ i = omega arith in (rw here at e, tt)
Stored-append cs i v (x ∷ xs) h s e =
    let step = next-mod i h in
    let there : (i + suc (length xs)) % 32 ≡ (next i + length xs) % 32 = omega (arith, step) in
    (s.0, Stored-append cs (next i) v xs (next-lt i h) s.1 (rw there at e))

pub start-Holds : Holds [] start
unfolding start
start-Holds = record {
  width = length-replicate {A = Option ℕ} max_ncli none;
  low = omega arith;
  few = omega arith;
  ahead = refl;
  stored = tt;
}

full_or_not :
    (q : Queue) (xs : List ℕ)
    → Holds xs q
    → ((length xs ≡ 31) × (next q.iput ≡ q.iget)) ⊎ ((length xs < 31) × (next q.iput ≢ q.iget))
full_or_not q xs h =
    let small : q.iput < 32 = omega (arith, h.ahead) in
    let step = next-mod q.iput small in
    elim (Bool-cases (length xs == 31)) [
      | inl e ↦
          let full : length xs ≡ 31 = ground (arith, e) in
          inl (full, omega (arith, step, h.ahead, h.low, full))
      | inr e ↦
          let rest : length xs ≢ 31 = ground (arith, e) in
          let less : length xs < 31 = omega (arith, rest, h.few) in
          inr (less, λ f. absurd (omega (arith, step, h.ahead, h.low, less, f)))
    ]

written : Queue → ℕ → Queue
written q v = record q { clifd = set q.clifd q.iput (some v); iput = next q.iput }

written-Holds :
    (q : Queue) (v : ℕ) (xs : List ℕ)
    → length xs < 31
    → Holds xs q
    → Holds (xs ++ v ∷ []) (written q v)
unfolding written
written-Holds q v xs less h =
    let small : q.iput < 32 = omega (arith, h.ahead) in
    let longer = length-append xs (v ∷ []) in
    let kept =
      Stored-set q.clifd q.iget q.iput (some v) xs h.low small (omega (arith, h.ahead, h.low, less))
        h.stored in
    let new : get_or (set q.clifd q.iput (some v)) q.iput none ≡ some v =
      get_or-set_self q.clifd q.iput (some v) none (omega (arith, h.width, small)) in
    record {
      width = length-set q.clifd q.iput (some v) ∙ h.width;
      low = h.low;
      few = omega (arith, longer, less);
      ahead = omega (arith, next-mod q.iput small, h.ahead, longer);
      stored =
          Stored-append (set q.clifd q.iput (some v)) q.iget v xs h.low kept (rw (← h.ahead) new);
    }

-- What `put` does with a connection: the process ends where 31 connections wait already, and else
-- the connection waits behind the others.
pub put-Holds :
    (v : ℕ) (q : Queue) (xs : List ℕ)
    → Holds xs q
    → ((length xs ≡ 31) × (put v q ≡ exits))
      ⊎ ((length xs < 31) × ((r : Queue) × (put v q ≡ done r) × Holds (xs ++ v ∷ []) r))
unfolding put written
put-Holds v q xs h = elim (full_or_not q xs h) [
  | inl f ↦
      let test : (next q.iput == q.iget) ≡ true = ground (arith, f.1) in inl (f.0, rw test refl)
  | inr f ↦
      let test : (next q.iput == q.iget) ≡ false = ground (arith, f.1) in
      inr (f.0, (written q v, rw test refl, written-Holds q v xs f.0 h))
]

pub take_one-none : (q : Queue) → Holds [] q → take_one q ≡ done empty
unfolding take_one
take_one-none q h =
    let same : (q.iget == q.iput) ≡ true = ground (arith, h.ahead, h.low) in rw same refl

pub take_one-first :
    (x : ℕ) (xs : List ℕ) (q : Queue)
    → Holds (x ∷ xs) q
    → (r : Queue) × (take_one q ≡ done (takes x r)) × Holds xs r
unfolding take_one
take_one-first x xs q h =
    let other : (q.iget == q.iput) ≡ false = ground (arith, h.ahead, h.low, h.few) in
    let step = next-mod q.iget h.low in
    (
      record q { iget = next q.iget },
      rw (other, h.stored.0) refl,
      record {
        width = h.width;
        low = next-lt q.iget h.low;
        few = omega (arith, h.few);
        ahead = omega (arith, step, h.ahead);
        stored = h.stored.1;
      },
    )
