-- ===== src/Relay/Buffer.antt =====
-- One buffer of `str_cli` with its two pointers, as offsets: `inp` is where the next bytes are
-- stored, `out` where the next ones are taken. What it holds is a queue.
use network_program.Prelude.{
  ℕ, zero, suc, ◌+◌, ◌-◌, ◌≤◌, ◌<◌, ◌≡◌, ◌≢◌, refl, sym, ap, ap₂, ◌∙◌, true, List, [], ◌∷◌, ◌++◌,
  length, arith, ◌==◌, if◌then◌else◌, Bool-cases, inl, inr, append-nil,
}
use network_program.Sys.{max_line}

pub record Channel : Type 0 where
  pub mem : ℕ → ℕ
  pub inp : ℕ
  pub out : ℕ

abbrev pub empty : Channel
empty = record { mem = λ i. 0; inp = 0; out = 0 }

-- `n` bytes of the memory from an offset on.
unfoldable pub slice : (ℕ → ℕ) → ℕ → ℕ → List ℕ
slice mem i zero = []
slice mem i (suc n) = mem i ∷ slice mem (suc i) n

-- What `read` stores from an offset on.
unfoldable pub store : (ℕ → ℕ) → ℕ → List ℕ → ℕ → ℕ
store mem i [] j = mem j
store mem i (b ∷ bs) j = if i == j then b else store mem (suc i) bs j

-- `toiptr - tooptr`
abbrev pub waiting : Channel → ℕ
waiting c = c.inp - c.out

-- The bytes between the pointers.
unfoldable pub pending : Channel → List ℕ
pending c = slice c.mem c.out (waiting c)

-- The first `k` bytes that `write` is handed.
unfoldable pub front : Channel → ℕ → List ℕ
front c k = slice c.mem c.out k

-- `read(fd, toiptr, …)` stored the bytes; `toiptr += n`
unfoldable pub put : Channel → List ℕ → Channel
put c bs = record c { mem = store c.mem c.inp bs; inp = c.inp + length bs }

-- `tooptr += nwritten; if (tooptr == toiptr) toiptr = tooptr = to;`
unfoldable pub advance : Channel → ℕ → Channel
advance c k =
    if c.out + k == c.inp then record c { inp = 0; out = 0 } else record c { out = c.out + k }

pub record IsChannel (c : Channel) : Type 0 where
  pub ordered : c.out ≤ c.inp
  pub inside : c.inp ≤ max_line
  pub rewound : c.out ≡ c.inp → c.inp ≡ 0

slice_ext :
    (mem mem' : ℕ → ℕ) (i n : ℕ)
    → ((x : ℕ) → i ≤ x → x < i + n → mem x ≡ mem' x)
    → slice mem i n ≡ slice mem' i n
unfolding slice
slice_ext mem mem' i zero h = refl
slice_ext mem mem' i (suc n) h =
    ap₂ ◌∷◌ (h i (omega arith) (omega arith))
      (slice_ext mem mem' (suc i) n (λ x lo hi. h x (omega arith) (omega arith)))

store_below : (mem : ℕ → ℕ) (j : ℕ) (bs : List ℕ) (x : ℕ) → x < j → store mem j bs x ≡ mem x
unfolding store
store_below mem j [] x h = refl
store_below mem j (b ∷ bs) x h = ground (arith, store_below mem (suc j) bs x (omega arith))

slice_before :
    (mem : ℕ → ℕ) (i n j : ℕ) (bs : List ℕ) → i + n ≤ j → slice (store mem j bs) i n ≡ slice mem i n
slice_before mem i n j bs h =
    slice_ext (store mem j bs) mem i n (λ x lo hi. store_below mem j bs x (omega arith))

slice_after : (mem : ℕ → ℕ) (i : ℕ) (bs : List ℕ) → slice (store mem i bs) i (length bs) ≡ bs
unfolding slice store
slice_after mem i [] = refl
slice_after mem i (b ∷ bs) =
    let same : (i == i) ≡ true = ground arith in
    let tail_same : slice (store mem i (b ∷ bs)) (suc i) (length bs)
        ≡ slice (store mem (suc i) bs) (suc i) (length bs) =
      slice_ext (store mem i (b ∷ bs)) (store mem (suc i) bs) (suc i) (length bs)
        (λ x lo hi. ground arith) in
    rw same (ap (λ l. b ∷ l) (tail_same ∙ slice_after mem (suc i) bs))

slice-add : (mem : ℕ → ℕ) (i n m : ℕ) → slice mem i (n + m) ≡ slice mem i n ++ slice mem (i + n) m
unfolding slice
slice-add mem i zero m =
    let same : 0 + m ≡ m = omega arith in let at : i + 0 ≡ i = omega arith in rw (same, at)
slice-add mem i (suc n) m =
    let same : suc n + m ≡ suc (n + m) = omega arith in
    let at : i + suc n ≡ suc i + n = omega arith in
    rw (same, at) (ap (λ l. mem i ∷ l) (slice-add mem (suc i) n m))

length-slice : (mem : ℕ → ℕ) (i n : ℕ) → length (slice mem i n) ≡ n
unfolding slice
length-slice mem i zero = refl
length-slice mem i (suc n) = ap suc (length-slice mem (suc i) n)

pub length-pending : (c : Channel) → length (pending c) ≡ waiting c
unfolding pending
length-pending c = length-slice c.mem c.out (waiting c)

-- New bytes go to the end of the queue.
pub pending-put : (c : Channel) (bs : List ℕ) → IsChannel c → pending (put c bs) ≡ pending c ++ bs
unfolding pending put
pending-put c bs h =
    let more : c.inp + length bs - c.out ≡ waiting c + length bs = omega arith in
    let at : c.out + waiting c ≡ c.inp = omega arith in
    rw more (
      slice-add (store c.mem c.inp bs) c.out (waiting c) (length bs)
      ∙ (rw at (
          ap₂ ◌++◌ (slice_before c.mem c.out (waiting c) c.inp bs (omega arith))
            (slice_after c.mem c.inp bs))))

pub put-IsChannel :
    (c : Channel) (bs : List ℕ)
    → IsChannel c
    → 0 < length bs
    → length bs ≤ max_line - c.inp
    → IsChannel (put c bs)
unfolding put
put-IsChannel c bs h some_bytes fits = record {
  ordered = omega arith;
  inside = omega arith;
  rewound = λ e. omega arith;
}

-- Bytes leave from its front.
pub front-pending :
    (c : Channel) (k : ℕ)
    → IsChannel c
    → k ≤ waiting c
    → front c k ++ pending (advance c k) ≡ pending c
unfolding pending front advance slice
front-pending c k h fits = elim (Bool-cases (c.out + k == c.inp)) [
  | inl all_out ↦
      let whole : k ≡ waiting c = ground arith in
      rw (all_out, append-nil) (ap (slice c.mem c.out) whole)
  | inr some_left ↦
      let rest : waiting c ≡ k + (c.inp - (c.out + k)) = omega arith in
      rw some_left
        (sym (ap (slice c.mem c.out) rest ∙ slice-add c.mem c.out k (c.inp - (c.out + k))))
]

pub advance-IsChannel :
    (c : Channel) (k : ℕ) → IsChannel c → k ≤ waiting c → IsChannel (advance c k)
unfolding advance
advance-IsChannel c k h fits = elim (Bool-cases (c.out + k == c.inp)) [
  | inl all_out ↦
      rw all_out (record { ordered = omega arith; inside = omega arith; rewound = λ e. refl })
  | inr some_left ↦
      let below : c.out + k ≢ c.inp = ground arith in
      rw some_left
        (record { ordered = omega arith; inside = h.inside; rewound = λ e. absurd (below e) })
]
