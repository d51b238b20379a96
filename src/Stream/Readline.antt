-- ===== src/Stream/Readline.antt =====
-- readline.cpp: lines over a buffer that `read` fills.
pub mod Buffer
pub mod Spec
pub mod Fault
use network_program.Prelude.{
  ℕ, suc, zero, ◌+◌, ◌-◌, List, [], ◌∷◌, ◌++◌, Option, none, some, length, drop, get_elem?, ◌==◌,
  if◌then◌else◌,
}
use network_program.Sys.{
  ReadResult, got, failed, Outcome, done, exits, waits, fault, ◌>>=◌, size_max, max_line,
}

-- The static variables: `read_cnt`, `read_ptr` as an offset into `read_buf`, and `read_buf`. The
-- pointer starts as null and is set before its first use, since `read_cnt` starts as 0.
pub record Reader : Type 0 where
  pub cnt : ℕ
  pub ptr : ℕ
  pub buf : List ℕ

-- What `my_read` returns, the byte at its `ptr` if it wrote one, and what it leaves.
pub record MyRead : Type 0 where
  pub value : ℕ
  pub byte : Option ℕ
  pub reader : Reader
  pub rest : List ReadResult

-- `read_cnt--; *ptr = *read_ptr++; return(1);` with a fault outside of the buffer.
pub next_byte : Reader → List ReadResult → Outcome MyRead
next_byte r rs = elim (get_elem? r.buf r.ptr) [
  | none ↦ fault
  | some c ↦ done (record {
    value = 1;
    byte = some c;
    reader = record r { cnt = r.cnt - 1; ptr = r.ptr + 1 };
    rest = rs;
  })
]

-- `read(fd, read_buf, sizeof(read_buf))`. The test `read_cnt < 0` is on a `size_t` and never holds:
-- after an error `read_cnt` is the `size_t` -1, and the code goes on.
pub refill : Reader → List ReadResult → Outcome MyRead
refill r [] = waits
refill r (got [] ∷ rs) =
    done (record { value = 0; byte = none; reader = record r { cnt = 0 }; rest = rs })
refill r (got (b ∷ bs) ∷ rs) =
    next_byte
      (record { cnt = length (b ∷ bs); ptr = 0; buf = (b ∷ bs) ++ drop (length (b ∷ bs)) r.buf }) rs
refill r (failed e ∷ rs) = next_byte (record r { cnt = size_max; ptr = 0 }) rs

unfoldable pub my_read : Reader → List ReadResult → Outcome MyRead
my_read r rs = if r.cnt == 0 then refill r rs else next_byte r rs

-- What `readline` returns, the bytes at `vptr` with the 0 behind them, and what it leaves.
pub record ReadlineEnd : Type 0 where
  pub value : ℕ
  pub stored : List ℕ
  pub reader : Reader
  pub rest : List ReadResult

abbrev pub newline : ℕ
newline = b'\n'

-- The loop, by the rounds that `n < maxlen` still allows.
pub readline_loop : ℕ → ℕ → List ℕ → Reader → List ReadResult → Outcome ReadlineEnd
readline_loop zero n out r rs =
    done (record { value = n; stored = out ++ 0 ∷ []; reader = r; rest = rs })
readline_loop (suc k) n out r rs = my_read r rs >>= λ m. elim m.byte [
  | some c ↦
      let again : Outcome ReadlineEnd = readline_loop k (n + 1) (out ++ c ∷ []) m.reader m.rest in
      if c == newline
      then done (record { value = n; stored = out ++ c ∷ 0 ∷ []; reader = m.reader; rest = m.rest })
      else again
  | none ↦
      if m.value == 0
      then done (record { value = n - 1; stored = out ++ 0 ∷ []; reader = m.reader; rest = m.rest })
      else done (record { value = size_max; stored = out; reader = m.reader; rest = m.rest })
]

unfoldable pub readline : ℕ → Reader → List ReadResult → Outcome ReadlineEnd
unfolding readline_loop
readline maxlen r rs = readline_loop (maxlen - 1) 1 [] r rs

-- `readlinebuf`: the count, and where the unread bytes stand if there are any.
unfoldable pub readlinebuf : Reader → ℕ × Option ℕ
readlinebuf r = (r.cnt, if r.cnt == 0 then none else some r.ptr)
