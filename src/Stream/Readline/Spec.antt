-- ===== src/Stream/Readline/Spec.antt =====
-- `readline` against the unbuffered bytes: which line it delivers, and what it leaves unread.
use network_program.Prelude.{
  ℕ, suc, zero, ◌+◌, ◌-◌, ◌<◌, ◌≡◌, refl, sym, ◌∙◌, List, [], ◌∷◌, ◌++◌, append_assoc, Bool, true,
  false, ◌||◌, Bool-cases, inl, inr, length, arith, ◌==◌, if◌then◌else◌,
}
use network_program.Sys.{ReadResult, Outcome, done, waits}
use network_program.Stream.Supply.{Ending, ending, end_of_file, read_error, open_end}
use network_program.Stream.Readline.{Reader, ReadlineEnd, newline, readline_loop, readline}
use network_program.Stream.Readline.Buffer.{Holds, Reads, next, finished, blocked, my_read-Reads}

-- The first line of a stream, its newline included, cut at `m` bytes.
abbrev pub first_line : ℕ → List ℕ → List ℕ
first_line zero s = []
first_line (suc m) [] = []
first_line (suc m) (c ∷ s) = c ∷ (if c == newline then [] else first_line m s)

-- What follows it.
abbrev pub after_line : ℕ → List ℕ → List ℕ
after_line zero s = s
after_line (suc m) [] = []
after_line (suc m) (c ∷ s) = if c == newline then s else after_line m s

abbrev pub has_newline : List ℕ → Bool
has_newline [] = false
has_newline (c ∷ l) = (c == newline) || has_newline l

abbrev pub is_eof : Ending → Bool
is_eof end_of_file = true
is_eof _ = false

-- The value, the bytes stored and the bytes left unread, where `n - 1` bytes stand in `out`, `m`
-- more have room, and the line `l` comes before the bytes `t` and the ending `e`.
abbrev line_result_of : ℕ → ℕ → List ℕ → List ℕ → List ℕ → Ending → Outcome (ℕ × List ℕ × List ℕ)
line_result_of m n out l t e =
    if has_newline l
    then done (n + length l - 1, out ++ (l ++ 0 ∷ []), t)
    else if length l == m
    then done (n + m, out ++ (l ++ 0 ∷ []), t)
    else if is_eof e
    then done (n - 1 + length l, out ++ (l ++ 0 ∷ []), t)
    else waits

abbrev line_result_from : ℕ → ℕ → List ℕ → List ℕ → Ending → Outcome (ℕ × List ℕ × List ℕ)
line_result_from m n out s e = line_result_of m n out (first_line m s) (after_line m s) e

-- What `readline` makes of a stream: a line that ends within `maxlen - 1` bytes, or the last bytes
-- before the end of file, with their number; or `maxlen - 1` bytes, for which it returns `maxlen`.
abbrev pub line_result : ℕ → List ℕ → Ending → Outcome (ℕ × List ℕ × List ℕ)
line_result maxlen s e =
    let l = first_line (maxlen - 1) s in
    let t = after_line (maxlen - 1) s in
    if has_newline l
    then done (length l, l ++ 0 ∷ [], t)
    else if length l == maxlen - 1
    then done (maxlen, l ++ 0 ∷ [], t)
    else if is_eof e
    then done (length l, l ++ 0 ∷ [], t)
    else waits

-- The call ends as stated, and the reader holds what is left.
pub data Agrees (o : Outcome ReadlineEnd) : Outcome (ℕ × List ℕ × List ℕ) → Type 0 where
  ends :
      (x : ReadlineEnd) (t : List ℕ) (e : Ending)
      → o ≡ done x
      → Holds x.reader x.rest t e
      → Agrees o (done (x.value, x.stored, t))
  still_waits : o ≡ waits → Agrees o waits

abbrev first_round : ℕ → ℕ → List ℕ → ℕ → List ℕ → Ending → Outcome (ℕ × List ℕ × List ℕ)
first_round k n out c t e =
    if c == newline
    then done (n, out ++ c ∷ 0 ∷ [], t)
    else line_result_from k (n + 1) (out ++ c ∷ []) t e

longer_line :
    (k n : ℕ) (out : List ℕ) (c : ℕ) (l t : List ℕ) (e : Ending)
    → 0 < n
    → (c == newline) ≡ false
    → line_result_of (suc k) n out (c ∷ l) t e ≡ line_result_of k (n + 1) (out ++ c ∷ []) l t e
longer_line k n out c l t e h more =
    let ends_here : has_newline (c ∷ l) ≡ has_newline l = rw more in
    let full : (length (c ∷ l) == suc k) ≡ (length l == k) = ground arith in
    let bytes : out ++ (c ∷ l ++ 0 ∷ []) ≡ (out ++ c ∷ []) ++ (l ++ 0 ∷ []) =
      sym (append_assoc out (c ∷ []) (l ++ 0 ∷ [])) in
    let to_newline : n + length (c ∷ l) - 1 ≡ n + 1 + length l - 1 = omega arith in
    let to_limit : n + suc k ≡ n + 1 + k = omega arith in
    let to_end : n - 1 + length (c ∷ l) ≡ n + 1 - 1 + length l = omega arith in
    λ i.
      if ends_here i
      then done (to_newline i, bytes i, t)
      else if full i
      then done (to_limit i, bytes i, t)
      else if is_eof e
      then done (to_end i, bytes i, t)
      else waits

first_round_lem :
    (k n : ℕ) (out : List ℕ) (c : ℕ) (t : List ℕ) (e : Ending)
    → 0 < n
    → line_result_from (suc k) n out (c ∷ t) e ≡ first_round k n out c t e
first_round_lem k n out c t e h = elim (Bool-cases (c == newline)) [
  | inl nl ↦ rw nl (ground arith)
  | inr more ↦
      let line : first_line (suc k) (c ∷ t) ≡ c ∷ first_line k t = rw more in
      let left : after_line (suc k) (c ∷ t) ≡ after_line k t = rw more in
      let go_on : first_round k n out c t e ≡ line_result_from k (n + 1) (out ++ c ∷ []) t e =
        rw more in
      (λ i. line_result_of (suc k) n out (line i) (left i) e)
      ∙ (longer_line k n out c (first_line k t) (after_line k t) e h more ∙ sym go_on)
]

no_room :
    (n : ℕ) (out s : List ℕ) (e : Ending)
    → line_result_from 0 n out s e ≡ done (n, out ++ 0 ∷ [], s)
no_room n out s e = ground arith

at_end :
    (k n : ℕ) (out : List ℕ)
    → line_result_from (suc k) n out [] end_of_file ≡ done (n - 1, out ++ 0 ∷ [], [])
at_end k n out = ground arith

no_more : (k n : ℕ) (out : List ℕ) → line_result_from (suc k) n out [] open_end ≡ waits
no_more k n out = ground arith

one_round :
    (k n : ℕ) (out : List ℕ) (r : Reader) (rs : List ReadResult) (s : List ℕ) (e : Ending)
    → 0 < n
    → ((c : ℕ) (r' : Reader) (rs' : List ReadResult) (t : List ℕ)
        → Holds r' rs' t e
        → Agrees
            (readline_loop k (n + 1) (out ++ c ∷ []) r' rs')
            (line_result_from k (n + 1) (out ++ c ∷ []) t e))
    → Reads r rs s e
    → Agrees (readline_loop (suc k) n out r rs) (line_result_from (suc k) n out s e)
unfolding readline_loop
one_round k n out r rs (c ∷ t) e pos ih (next r' rs' ran h') =
    rw (first_round_lem k n out c t e pos) (
      rw (ran, readline_loop)
        (elim (Bool-cases (c == newline)) [
          | inl nl ↦ rw (nl) (ends _ t e refl h')
          | inr more ↦ rw more (ih c r' rs' t h')
        ]))
one_round k n out r rs [] end_of_file pos ih (finished r' rs' ran h') =
    rw (at_end k n out) (ends _ [] (ending rs') (rw (ran, readline_loop)) h')
one_round k n out r rs [] open_end pos ih (blocked ran) =
    rw (no_more k n out) (still_waits (rw (ran, readline_loop)))
one_round k n out r rs [] read_error pos ih x = elim x [ ]

readline_loop_lem :
    (k n : ℕ) (out : List ℕ) (r : Reader) (rs : List ReadResult) (s : List ℕ) (e : Ending)
    → 0 < n
    → Holds r rs s e
    → Agrees (readline_loop k n out r rs) (line_result_from k n out s e)
unfolding readline_loop
readline_loop_lem zero n out r rs s e pos h = rw (no_room n out s e) (ends _ s e refl h)
readline_loop_lem (suc k) n out r rs s e pos h =
    one_round k n out r rs s e pos
      (λ c r' rs' t h'. readline_loop_lem k (n + 1) (out ++ c ∷ []) r' rs' t e (omega arith) h')
      (my_read-Reads r rs s e h)

line_result_lem :
    (maxlen : ℕ) (s : List ℕ) (e : Ending)
    → 0 < maxlen
    → line_result_from (maxlen - 1) 1 [] s e ≡ line_result maxlen s e
line_result_lem maxlen s e pos = ground arith

-- While no `read` fails and none brings more than the buffer holds, `readline` delivers a line of
-- the bytes that stand in the buffer and are still to come: up to and with its newline, or what is
-- left at the end of file, and returns the number of these bytes; where `maxlen - 1` bytes have no
-- newline it delivers these and returns `maxlen`. A 0 stands behind the bytes, and the reader
-- holds exactly the bytes after them. It waits only where no line has come yet.
pub readline-Agrees :
    (maxlen : ℕ) (r : Reader) (rs : List ReadResult) (s : List ℕ) (e : Ending)
    → 0 < maxlen
    → Holds r rs s e
    → Agrees (readline maxlen r rs) (line_result maxlen s e)
unfolding readline
readline-Agrees maxlen r rs s e pos h =
    rw (← line_result_lem maxlen s e pos)
      (readline_loop_lem (maxlen - 1) 1 [] r rs s e (omega arith) h)
