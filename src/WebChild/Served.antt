-- ===== src/WebChild/Served.antt =====
-- The client's requests and what the service sends.
use network_program.Prelude.{
  ℕ, zero, suc, ◌+◌, ◌-◌, ◌*◌, ◌/◌, ◌%◌, ◌^◌, ◌≤◌, ◌<◌, ◌≡◌, ◌⊎◌, refl, sym, ap, ◌∙◌, true, false,
  Bool-cases, inl, inr, ◌||◌, List, [], ◌∷◌, ◌++◌, append_assoc, append-nil, length, take,
  length-take, ltb, ltb→lt, lt→ltb, ◌==◌, arith,
}
use network_program.Prelude.Int.{pos}
use native.Mathlib.Numerals.{unary_clauses}
use network_program.Sys.{WriteResult, done, exits, fault, max_line}
use network_program.Stream.Writen.Spec.{Takes, accepted, writen_or_exit-bind}
use network_program.Ntop.{decimal}
use network_program.WebChild.{max_n, is_digit, digits, to_int, atol, answer, web_child, request}

-- Digits in front of a newline.
digit-is_digit : (n : ℕ) → n < 10 → is_digit (b'0' + n) ≡ true
digit-is_digit n h = ground arith

digits_step :
    (n d : ℕ) (back : List ℕ) → d < 10 → digits n ((b'0' + d) ∷ back) ≡ digits (n * 10 + d) back
digits_step n d back h =
    let number : n * 10 + (b'0' + d - b'0') ≡ n * 10 + d = omega arith in
    rw (digit-is_digit d h) (ap (λ m. digits m back) number)

tenth : (k n : ℕ) → n < 10 ^ suc (suc k) → n / 10 < 10 ^ suc k
tenth k n h =
    let power : 10 ^ suc k ≡ 10 ^ k * 10 = simp unary_clauses refl in
    let bound : n < 10 ^ k * 10 * 10 = simp unary_clauses at h in omega (arith, power, bound)

digits_first : (d : ℕ) (back : List ℕ) → d < 10 → digits 0 ((b'0' + d) ∷ back) ≡ digits d back
digits_first d back h =
    let same : 0 * 10 + d ≡ d = omega arith in digits_step 0 d back h ∙ ap (λ m. digits m back) same

digits-decimal :
    (k n : ℕ) (back : List ℕ)
    → n < 10 ^ suc k
    → digits 0 (decimal (suc k) n ++ back) ≡ digits n back
unfolding decimal
digits-decimal zero n back h =
    let small : ltb n 10 ≡ true = ground (arith, h) in
    rw small (digits_first n back (omega (arith, h)))
digits-decimal (suc k) n back h = elim (Bool-cases (ltb n 10)) [
  | inl small ↦ rw small (digits_first n back (ltb→lt n 10 small))
  | inr large ↦
      let less = tenth k n h in
      let d : ℕ = n % 10 in
      let whole : n / 10 * 10 + d ≡ n = omega arith in
      rw (large, append_assoc (decimal (suc k) (n / 10)) ((b'0' + d) ∷ []) back)
        (digits-decimal k (n / 10) ((b'0' + d) ∷ back) less
          ∙ digits_step (n / 10) d back (omega arith)
          ∙ ap (λ m. digits m back) whole)
]

-- A text that starts with a digit.
record Starts (text : List ℕ) : Type 0 where
  first : ℕ
  rest : List ℕ
  shape : text ≡ first ∷ rest
  low : b'0' ≤ first
  high : first ≤ b'9'

Starts-decimal : (k n : ℕ) (back : List ℕ) → n < 10 ^ suc k → Starts (decimal (suc k) n ++ back)
unfolding decimal
Starts-decimal zero n back h =
    let small : ltb n 10 ≡ true = ground (arith, h) in
    rw small (record {
      first = b'0' + n;
      rest = back;
      shape = refl;
      low = omega arith;
      high = omega (arith, h);
    })
Starts-decimal (suc k) n back h = elim (Bool-cases (ltb n 10)) [
  | inl small ↦
      let less = ltb→lt n 10 small in
      rw small (record {
        first = b'0' + n;
        rest = back;
        shape = refl;
        low = omega arith;
        high = omega (arith, less);
      })
  | inr large ↦
      let less = tenth k n h in
      rw (large, append_assoc (decimal (suc k) (n / 10)) ((b'0' + n % 10) ∷ []) back)
        (Starts-decimal k (n / 10) ((b'0' + n % 10) ∷ back) less)
]

atol-digit : (c : ℕ) (cs : List ℕ) → b'0' ≤ c → c ≤ b'9' → atol (c ∷ cs) ≡ pos (digits 0 (c ∷ cs))
unfolding atol
atol-digit c cs h k = ground arith

atol-Starts : (text : List ℕ) → Starts text → atol text ≡ pos (digits 0 text)
atol-Starts text s =
    ap atol s.shape
    ∙ atol-digit s.first s.rest s.low s.high
    ∙ ap (λ l. pos (digits 0 l)) (sym s.shape)

-- The service reads the number that the client prints.
atol-request : (n : ℕ) → n < 2 ^ 63 → atol (request n) ≡ pos n
unfolding request
atol-request n h =
    let small : n < 10 ^ 19 = omega (arith, h) in
    atol-Starts (decimal 19 n ++ b'\n' ∷ []) (Starts-decimal 18 n (b'\n' ∷ []) small)
    ∙ ap pos (digits-decimal 18 n (b'\n' ∷ []) small)

ntowrite : (n : ℕ) → n < 2 ^ 31 → to_int (atol (request n)) ≡ pos n
unfolding to_int
ntowrite n h =
    let whole : n % 2 ^ 32 ≡ n = omega (arith, h) in
    rw (atol-request n (omega (arith, h)), whole, lt→ltb n (2 ^ 31) h) refl

answer-small :
    (result : List ℕ) (ws : List WriteResult) (n : ℕ)
    → length result ≡ max_line
    → 1 ≤ n
    → n ≤ max_line
    → Takes n ws
    → n ≤ accepted ws
    → answer result ws (pos n) ≡ done (take n result)
unfolding answer
answer-small result ws n e low high t k =
    let size : length (take n result) ≡ n = omega (arith, length-take n result, e, high) in
    let some_bytes : (n == 0) || ltb max_n n ≡ false = ground (arith, low, high) in
    let enough : ltb (length result) n ≡ false = ground (arith, e, high) in
    rw (some_bytes, enough)
      (writen_or_exit-bind (take n result) ws done (omega (arith, size, high)) (rw size t)
        (omega (arith, size, k)))

answer-large :
    (result : List ℕ) (ws : List WriteResult) (n : ℕ)
    → length result ≡ max_line
    → max_line < n
    → n ≤ max_n
    → answer result ws (pos n) ≡ fault
unfolding answer
answer-large result ws n e low high =
    let allowed : (n == 0) || ltb max_n n ≡ false = ground (arith, low, high) in
    let short : ltb (length result) n ≡ true = ground (arith, e, low) in rw (allowed, short) refl

answer-bad :
    (result : List ℕ) (ws : List WriteResult) (n : ℕ)
    → (n ≡ 0) ⊎ (max_n < n)
    → answer result ws (pos n) ≡ exits
unfolding answer
answer-bad result ws n bad =
    let refused : (n == 0) || ltb max_n n ≡ true = ground (arith, bad) in rw refused refl

-- The client's request for `n` bytes is answered by so many bytes where they are not more than 4096;
-- for up to 16384 the service reads behind the end of its array; and for a request of 0 or of 16385 to 2 ^ 31 - 1 bytes it ends the process.
pub web_child-request :
    (result : List ℕ) (ws : List WriteResult) (n : ℕ)
    → length result ≡ max_line
    → n < 2 ^ 31
    → Takes n ws
    → n ≤ accepted ws
    → (1 ≤ n
        → n ≤ max_line
        → (web_child result ((request n, ws) ∷ []) ≡ done (take n result))
          × (length (take n result) ≡ n))
      × (max_line < n → n ≤ max_n → web_child result ((request n, ws) ∷ []) ≡ fault)
      × ((n ≡ 0) ⊎ (max_n < n) → web_child result ((request n, ws) ∷ []) ≡ exits)
unfolding web_child
web_child-request result ws n e h t k = (
  λ low high. (
    rw (ntowrite n h, answer-small result ws n e low high t k)
        (ap done (append-nil (take n result))),
    omega (arith, length-take n result, e, high),
  ),
  λ low high. rw (ntowrite n h, answer-large result ws n e low high) refl,
  λ bad. rw (ntowrite n h, answer-bad result ws n bad) refl,
)
