-- ===== src/Checksum/Verify.antt =====
-- Why a receiver that runs `in_cksum` over a packet with its checksum in place gets 0.
use network_program.Prelude.{
  ℕ, ◌+◌, ◌*◌, ◌/◌, ◌%◌, ◌^◌, ◌≤◌, ◌<◌, ◌≡◌, ap, ◌∙◌, List, [], ◌∷◌, ◌++◌, length, arith,
}
use network_program.Checksum.{add_words, finish, in_cksum}

-- The words' sum with no wrap-around.
abbrev pub total : List ℕ → ℕ
total [] = 0
total (lo ∷ []) = lo
total (lo ∷ hi ∷ bs) = lo + 256 * hi + total bs

abbrev pub Bytes : List ℕ → Type 0
Bytes [] = Unit {0}
Bytes (b ∷ bs) = (b < 256) × Bytes bs

-- Words, so an even number of bytes.
abbrev pub Even : List ℕ → Type 0
Even [] = Unit {0}
Even (b ∷ []) = ⊥
Even (b ∷ c ∷ bs) = Even bs

pub total_bound : (bs : List ℕ) → Bytes bs → 2 * total bs ≤ 65535 * (length bs + 1)
total_bound [] h = omega arith
total_bound (lo ∷ []) h = omega arith
total_bound (lo ∷ hi ∷ bs) h = omega (arith, total_bound bs h.1.1)

add_words-total :
    (sum : ℕ) (bs : List ℕ) → sum + total bs < 2 ^ 32 → add_words sum bs ≡ sum + total bs
unfolding add_words
add_words-total sum [] h = omega arith
add_words-total sum (lo ∷ []) h = omega arith
add_words-total sum (lo ∷ hi ∷ bs) h =
    let small : (sum + (lo + 256 * hi)) % 2 ^ 32 ≡ sum + (lo + 256 * hi) = omega arith in
    rw small (omega (arith, add_words-total (sum + (lo + 256 * hi)) bs (omega arith)))

total-append : (xs bs : List ℕ) → Even xs → total (xs ++ bs) ≡ total xs + total bs
total-append [] bs e = omega arith
total-append (a ∷ []) bs e = absurd e
total-append (a ∷ c ∷ xs) bs e = omega (arith, total-append xs bs e)

pub finish-lt : (s : ℕ) → finish s < 2 ^ 16
unfolding finish
finish-lt s = omega arith

-- Adding the complement of a folded sum gives all ones, whose complement is 0.
finish_complement : (s : ℕ) → s + 65535 < 2 ^ 32 → finish (s + finish s) ≡ 0
unfolding finish
finish_complement s h = omega arith

pub in_cksum-total : (bs : List ℕ) → total bs < 2 ^ 32 → in_cksum bs ≡ finish (total bs)
unfolding in_cksum
in_cksum-total bs h = ap finish (add_words-total 0 bs (omega arith) ∙ omega arith)

-- The two bytes of a `uint16_t` in memory.
abbrev pub word : ℕ → List ℕ → List ℕ
word w bs = w % 256 ∷ w / 256 % 256 ∷ bs

-- A packet with the word `w` where the checksum belongs, behind the even number of bytes `front`.
abbrev pub with_word : List ℕ → ℕ → List ℕ → List ℕ
with_word front w back = front ++ word w back

pub total-with_word :
    (front : List ℕ) (w : ℕ) (back : List ℕ)
    → Even front
    → w < 2 ^ 16
    → total (with_word front w back) ≡ total front + total back + w
total-with_word front w back e h = omega (arith, total-append front (word w back) e)

-- For every packet of at most 65535 bytes: with the result of `in_cksum` over the packet with a
-- zero checksum stored at an even offset, `in_cksum` over the whole packet is 0.
pub in_cksum_verifies :
    (front back : List ℕ)
    → Even front
    → Bytes (with_word front 0 back)
    → length (with_word front 0 back) ≤ 65535
    → in_cksum (with_word front (in_cksum (with_word front 0 back)) back) ≡ 0
in_cksum_verifies front back e b small =
    let s = total (with_word front 0 back) in
    let bound : 2 * s ≤ 65535 * (length (with_word front 0 back) + 1) =
      total_bound (with_word front 0 back) b in
    let sum : in_cksum (with_word front 0 back) ≡ finish s =
      in_cksum-total (with_word front 0 back) (omega arith) in
    let plain : s ≡ total front + total back + 0 = total-with_word front 0 back e (omega arith) in
    let filled : total (with_word front (finish s) back) ≡ s + finish s =
      omega (arith, total-with_word front (finish s) back e (finish-lt s), plain) in
    rw sum (
      in_cksum-total (with_word front (finish s) back) (omega (arith, filled, finish-lt s))
      ∙ (rw filled (finish_complement s (omega arith))))
