-- ===== src/Stream/Readline/Fault.antt =====
-- What readline.cpp makes of a `read` that fails.
use network_program.Prelude.{
  ℕ, suc, zero, ◌+◌, ◌-◌, ◌≤◌, ◌<◌, ◌≡◌, refl, ap, ◌∙◌, List, [], ◌∷◌, ◌++◌, append_assoc, drop,
  true, false, Bool-cases, inl, inr, length, arith, ◌==◌, some,
}
use network_program.Sys.{ReadResult, failed, Errno, Outcome, done, size_max, max_line}
use network_program.Stream.Readline.{
  Reader, ReadlineEnd, my_read, next_byte, refill, newline, readline_loop, readline,
}
use network_program.Stream.Readline.Buffer.{drop_get}
use network_program.Stream.Readline.Spec.{first_line}

-- A line was returned: its bytes with a 0 behind them, at most `m` counted, and no call was made.
abbrev pub Line : Outcome ReadlineEnd → ℕ → List ℕ → List ReadResult → Type 0
Line o m stored rs =
    (x : ReadlineEnd) × (o ≡ done x) × (x.stored ≡ stored) × (x.value ≤ m) × (x.rest ≡ rs)

-- Between the start of the buffer and its end a byte is taken as long as `read_cnt` is not 0.
byte_at :
    (r : Reader) (rs : List ReadResult)
    → 0 < r.cnt
    → r.ptr < length r.buf
    → (c : ℕ) × (my_read r rs
        ≡ done (record {
          value = 1;
          byte = some c;
          reader = record r { cnt = r.cnt - 1; ptr = r.ptr + 1 };
          rest = rs;
        }))
      × (drop r.ptr r.buf ≡ c ∷ drop (suc r.ptr) r.buf)
unfolding my_read next_byte
byte_at r rs some_left inside =
    let (c, here, split) = drop_get r.ptr r.buf inside in
    let busy : (r.cnt == 0) ≡ false = ground arith in
    (c, rw (busy, my_read) (rw (here, next_byte)), split)

-- The loop takes bytes from the buffer as long as `read_cnt` says that there are any.
buffer_loop :
    (k n : ℕ) (out : List ℕ) (r : Reader) (rs : List ReadResult)
    → k ≤ r.cnt
    → r.ptr + k ≤ length r.buf
    → Line
        (readline_loop k n out r rs)
        (n + k)
        (out ++ (first_line k (drop r.ptr r.buf) ++ 0 ∷ []))
        rs
unfolding readline_loop
buffer_loop zero n out r rs enough inside = (_, refl, refl, omega arith, refl)
buffer_loop (suc k) n out r rs enough inside =
    let (c, ran, split) = byte_at r rs (omega arith) (omega arith) in
    let r' : Reader = record r { cnt = r.cnt - 1; ptr = r.ptr + 1 } in
    let (x, back, stored, small, rest) =
      buffer_loop k (n + 1) (out ++ c ∷ []) r' rs (omega arith) (omega arith) in
    let up : r.ptr + 1 ≡ suc r.ptr = omega arith in
    let shifted : drop (r.ptr + 1) r.buf ≡ drop (suc r.ptr) r.buf = ap (λ i. drop i r.buf) up in
    rw (ran, readline_loop)
      (elim (Bool-cases (c == newline)) [
        | inl nl ↦ rw (split, nl) (_, refl, refl, omega arith, refl)
        | inr more ↦
            rw (split, more)
              (
                x,
                back,
                stored
                    ∙ rw shifted (
                        append_assoc out (c ∷ [])
                          (first_line k (drop (suc r.ptr) r.buf) ++ 0 ∷ [])),
                omega arith,
                rest,
              )
      ])

-- The failed call leaves the reader as if 2 ^ 64 - 1 bytes had come.
same_loop :
    (j : ℕ) (r : Reader) (e : Errno) (rs : List ReadResult)
    → r.cnt ≡ 0
    → readline_loop (suc j) 1 [] r (failed e ∷ rs)
      ≡ readline_loop (suc j) 1 [] (record r { cnt = size_max; ptr = 0 }) rs
unfolding readline_loop my_read refill
same_loop j r e rs empty = let start : (r.cnt == 0) ≡ true = ground arith in rw start

-- `read_cnt < 0` never holds, so a failed `read` that finds the buffer empty is taken for one of
-- 2 ^ 64 - 1 bytes, whatever the error, EINTR included: the next call of `readline` for up to the
-- size of the buffer returns a line of bytes that were read long before, and no error.
pub readline_stale :
    (k : ℕ) (r : Reader) (e : Errno) (rs : List ReadResult)
    → r.cnt ≡ 0
    → length r.buf ≡ max_line
    → 0 < k
    → k ≤ max_line
    → Line (readline (k + 1) r (failed e ∷ rs)) (k + 1) (first_line k r.buf ++ 0 ∷ []) rs
unfolding readline
readline_stale zero r e rs empty size pos small = elim pos [ ]
readline_stale (suc j) r e rs empty size pos small =
    let rounds : suc j + 1 - 1 ≡ suc j = omega arith in
    let filled : Reader = record r { cnt = size_max; ptr = 0 } in
    let (x, back, stored, value, rest) =
      buffer_loop (suc j) 1 [] filled rs (omega arith) (omega arith) in
    rw rounds (x, same_loop j r e rs empty ∙ back, stored, omega arith, rest)
