-- ===== src/Stream/Readline/Buffer.antt =====
-- The buffered reader of readline.cpp against the bytes that are still to be read.
use network_program.Prelude.{
  ℕ, suc, zero, ◌+◌, ◌-◌, ◌≤◌, ◌<◌, ◌≡◌, refl, sym, ◌∙◌, List, [], ◌∷◌, ◌++◌, none, some, true,
  false, length, length-append, length-drop, take, drop, get_elem?, take-length-append, arith, ◌==◌,
}
use network_program.Sys.{ReadResult, got, failed, done, waits, max_line}
use network_program.Stream.Supply.{supply, ending, Ending, end_of_file, open_end}
use network_program.Stream.Readline.{Reader, MyRead, next_byte, refill, my_read}

-- After the end of file there is nothing but the end of file.
abbrev pub Ended : List ReadResult → Type 0
Ended [] = Unit {0}
Ended (got [] ∷ rs) = Ended rs
Ended (got (b ∷ bs) ∷ rs) = ⊥
Ended (failed e ∷ rs) = ⊥

-- No call fails, and none brings more than the buffer holds.
abbrev pub Clean : List ReadResult → Type 0
Clean [] = Unit {0}
Clean (got [] ∷ rs) = Ended rs
Clean (got (b ∷ bs) ∷ rs) = (length (b ∷ bs) ≤ max_line) × Clean rs
Clean (failed e ∷ rs) = ⊥

-- The buffer and the calls to come stand for the bytes `s` and the ending `e`.
pub record Holds (r : Reader) (rs : List ReadResult) (s : List ℕ) (e : Ending) : Type 0 where
  pub size : length r.buf ≡ max_line
  pub inside : r.ptr + r.cnt ≤ max_line
  pub clean : Clean rs
  pub bytes : take r.cnt (drop r.ptr r.buf) ++ supply rs ≡ s
  pub stop : ending rs ≡ e

pub drop_get :
    (i : ℕ) (xs : List ℕ)
    → i < length xs
    → (x : ℕ) × (get_elem? xs i ≡ some x) × (drop i xs ≡ x ∷ drop (suc i) xs)
drop_get i [] h = elim h [ ]
drop_get zero (x ∷ xs) h = (x, refl, refl)
drop_get (suc i) (x ∷ xs) h = drop_get i xs (omega arith)

abbrev byte_read : ℕ → Reader → List ReadResult → MyRead
byte_read c r rs = record { value = 1; byte = some c; reader = r; rest = rs }

-- With bytes in the buffer `my_read` takes the first.
next_byte_lem :
    (r : Reader) (rs : List ReadResult) (s : List ℕ) (e : Ending) (k : ℕ)
    → r.cnt ≡ suc k
    → Holds r rs s e
    → (c : ℕ) × (t : List ℕ) × (r' : Reader) × (s ≡ c ∷ t)
      × (next_byte r rs ≡ done (byte_read c r' rs))
      × Holds r' rs t e
unfolding next_byte
next_byte_lem r rs s e k eq h =
    let (x, here, split) = drop_get r.ptr r.buf (omega arith) in
    let r' : Reader = record r { cnt = r.cnt - 1; ptr = r.ptr + 1 } in
    let c' : r.cnt - 1 ≡ k = omega arith in
    let p' : r.ptr + 1 ≡ suc r.ptr = omega arith in
    (
      x,
      take k (drop (suc r.ptr) r.buf) ++ supply rs,
      r',
      sym (rw (eq, split) at h.bytes),
      rw (here, next_byte),
      record {
        size = h.size;
        inside = omega arith;
        clean = h.clean;
        bytes = rw (c', p') refl;
        stop = h.stop;
      },
    )

-- A successful `read` fills the buffer from its start.
Filled : ℕ → List ℕ → Reader → Reader
Filled b bs r = record {
  cnt = length (b ∷ bs);
  ptr = 0;
  buf = (b ∷ bs) ++ drop (length (b ∷ bs)) r.buf;
}

fill_Holds :
    (r : Reader) (b : ℕ) (bs : List ℕ) (rs : List ReadResult) (s : List ℕ) (e : Ending)
    → r.cnt ≡ 0
    → Holds r (got (b ∷ bs) ∷ rs) s e
    → Holds (Filled b bs r) rs s e
unfolding Filled
fill_Holds r b bs rs s e z h = record {
  size = omega (
    arith,
    length-append (b ∷ bs) (drop (length (b ∷ bs)) r.buf),
    length-drop (length (b ∷ bs)) r.buf,
    h.size,
    h.clean.0,
  );
  inside = omega (arith, h.clean.0);
  clean = h.clean.1;
  bytes = rw (take-length-append bs (drop (length (b ∷ bs)) r.buf)) (rw z at h.bytes);
  stop = h.stop;
}

-- `my_read` reads the bytes one by one: it finds the next one, or the end of file with nothing left.
pub data Reads (r : Reader) (rs : List ReadResult) : List ℕ → Ending → Type 0 where
  next :
      {c : ℕ} {t : List ℕ} {e : Ending} (r' : Reader) (rs' : List ReadResult)
      → my_read r rs ≡ done (record { value = 1; byte = some c; reader = r'; rest = rs' })
      → Holds r' rs' t e
      → Reads r rs (c ∷ t) e
  finished :
      (r' : Reader) (rs' : List ReadResult)
      → my_read r rs ≡ done (record { value = 0; byte = none; reader = r'; rest = rs' })
      → Holds r' rs' [] (ending rs')
      → Reads r rs [] end_of_file
  blocked : my_read r rs ≡ waits → Reads r rs [] open_end

Ended-supply : (rs : List ReadResult) → Ended rs → supply rs ≡ []
Ended-supply [] h = refl
Ended-supply (got [] ∷ rs) h = refl
Ended-supply (got (b ∷ bs) ∷ rs) h = absurd h
Ended-supply (failed e ∷ rs) h = absurd h

Ended-Clean : (rs : List ReadResult) → Ended rs → Clean rs
Ended-Clean [] h = tt
Ended-Clean (got [] ∷ rs) h = h
Ended-Clean (got (b ∷ bs) ∷ rs) h = absurd h
Ended-Clean (failed e ∷ rs) h = absurd h

from_buffer :
    (r : Reader) (rs : List ReadResult) (s : List ℕ) (e : Ending) (k : ℕ)
    → r.cnt ≡ suc k
    → Holds r rs s e
    → Reads r rs s e
unfolding my_read
from_buffer r rs s e k eq h =
    let (c, t, r', split, ran, h') = next_byte_lem r rs s e k eq h in
    let busy : (r.cnt == 0) ≡ false = rw eq (ground arith) in
    rw split (next r' rs (rw (busy, my_read) ran) h')

from_call :
    (r : Reader) (rs : List ReadResult) (s : List ℕ) (e : Ending)
    → r.cnt ≡ 0
    → Holds r rs s e
    → my_read r rs ≡ refill r rs
    → Reads r rs s e
unfolding refill Filled
from_call r [] s e z h call =
    let left : [] ≡ s = rw z at h.bytes in rw (← left, ← h.stop) (blocked call)
from_call r (got [] ∷ rs) s e z h call =
    let left : [] ≡ s = rw z at h.bytes in
    let drained : Holds (record r { cnt = 0 }) rs [] (ending rs) = record {
      size = h.size;
      inside = omega (arith, h.inside);
      clean = Ended-Clean rs h.clean;
      bytes = Ended-supply rs h.clean;
      stop = refl;
    } in
    rw (← left, ← h.stop) (finished (record r { cnt = 0 }) rs call drained)
from_call r (got (b ∷ bs) ∷ rs) s e z h call =
    let full = Filled b bs r in
    let (c, t, r', split, ran, h') =
      next_byte_lem full rs s e (length bs) refl (fill_Holds r b bs rs s e z h) in
    rw split (next r' rs (call ∙ ran) h')
from_call r (failed x ∷ rs) s e z h call = absurd h.clean

my_read_lem :
    (r : Reader) (rs : List ReadResult) (s : List ℕ) (e : Ending) (k : ℕ)
    → r.cnt ≡ k
    → Holds r rs s e
    → Reads r rs s e
unfolding my_read
my_read_lem r rs s e zero z h =
    let empty : (r.cnt == 0) ≡ true = rw z (ground arith) in
    from_call r rs s e z h (rw (empty, my_read))
my_read_lem r rs s e (suc k) eq h = from_buffer r rs s e k eq h

-- While no call fails, `my_read` reads the bytes one by one: it finds the next byte, or returns 0
-- at the end of file once none is left, or waits for `read`.
pub my_read-Reads :
    (r : Reader) (rs : List ReadResult) (s : List ℕ) (e : Ending) → Holds r rs s e → Reads r rs s e
my_read-Reads r rs s e h = my_read_lem r rs s e r.cnt refl h
