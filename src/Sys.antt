-- ===== src/Sys.antt =====
-- What the programs see of the kernel: results of system calls, and how a function ends.
-- The kernel itself is no code of the repository: each model takes the results of its calls as a
-- list, in the order in which the program makes the calls.
use network_program.Prelude.{
  ℕ, ◌+◌, ◌-◌, ◌%◌, ◌^◌, ◌≤◌, ◌<◌, ◌≡◌, refl, Bool, true, false, List, ltb, if◌then◌else◌, arith,
}
use network_program.Prelude.Int.{ℤ, pos, negsuc}

-- The values of `errno` that the code tells apart.
pub data Errno : Type 0 where
  eintr ewouldblock econnreset econnaborted eproto einprogress etimedout other : Errno

-- `read` and `recv`: the bytes that were stored (none of them: 0 was returned), or -1 and `errno`.
pub data ReadResult : Type 0 where
  got : List ℕ → ReadResult
  failed : Errno → ReadResult

-- `write` and `send`: the count that was returned, or -1 and `errno`.
pub data WriteResult : Type 0 where
  wrote : ℕ → WriteResult
  refused : Errno → WriteResult

-- How a call ends: it returns, `err_sys` or `err_quit` ends the process, it waits in a system call
-- for which the list holds no result, or it reads memory that the code never wrote.
pub data Outcome {ℓ} (A : Type ℓ) : Type ℓ where
  done : A → Outcome A
  exits : Outcome A
  waits : Outcome A
  fault : Outcome A

-- A `void` function's result.
abbrev pub Void : Type 0
Void = Unit

infixl 5 ◌>>=◌
abbrev pub ◌>>=◌ {ℓ κ} : {A : Type ℓ} {B : Type κ} → Outcome A → (A → Outcome B) → Outcome B
done a >>= f = f a
exits >>= f = exits
waits >>= f = waits
fault >>= f = fault

-- `size_t` has 64 bits.
abbrev pub size_mod : ℕ
size_mod = 2 ^ 64

abbrev pub sub64 : ℕ → ℕ → ℕ
sub64 a b = (a + size_mod - b) % size_mod

-- -1 as a `size_t`.
abbrev pub size_max : ℕ
size_max = 2 ^ 64 - 1

-- A `size_t` that is returned as, or stored into, a `ssize_t`.
abbrev pub to_ssize : ℕ → ℤ
to_ssize w = if ltb w (2 ^ 63) then pos w else negsuc (size_mod - w - 1)

abbrev pub max_line : ℕ
max_line = 4096

pub sub64_le : (a b : ℕ) → b ≤ a → a < size_mod → sub64 a b ≡ a - b
sub64_le a b h k = omega arith

-- A property of the result, where there is one.
abbrev pub Done {ℓ} : {A : Type 0} → (A → Type ℓ) → Outcome A → Type ℓ
Done P (done a) = P a
Done P _ = Unit

pub Done-bind :
    {A B : Type 0} (P : A → Type 0) (Q : B → Type 0) (o : Outcome A) (f : A → Outcome B)
    → Done P o
    → ((a : A) → P a → Done Q (f a))
    → Done Q (o >>= f)
Done-bind P Q (done a) f h step = step a h
Done-bind P Q exits f h step = tt
Done-bind P Q waits f h step = tt
Done-bind P Q fault f h step = tt

-- A call that reads and writes nothing but what it may, and has the property where it returns.
abbrev pub Safe : {A : Type 0} → (A → Type 0) → Outcome A → Type 0
Safe P (done a) = P a
Safe P exits = Unit
Safe P waits = Unit
Safe P fault = ⊥

pub Safe-bind :
    {A B : Type 0} (P : A → Type 0) (Q : B → Type 0) (o : Outcome A) (f : A → Outcome B)
    → Safe P o
    → ((a : A) → P a → Safe Q (f a))
    → Safe Q (o >>= f)
Safe-bind P Q (done a) f h step = step a h
Safe-bind P Q exits f h step = tt
Safe-bind P Q waits f h step = tt
Safe-bind P Q fault f h step = elim h [ ]

-- A call that neither ends the process nor reads what was never written, and has the property
-- where it returns.
abbrev pub Ensures : {A : Type 0} → (A → Type 0) → Outcome A → Type 0
Ensures P (done a) = P a
Ensures P exits = ⊥
Ensures P waits = Unit
Ensures P fault = ⊥

pub Ensures-bind :
    {A B : Type 0} (P : A → Type 0) (Q : B → Type 0) (o : Outcome A) (f : A → Outcome B)
    → Ensures P o
    → ((a : A) → P a → Ensures Q (f a))
    → Ensures Q (o >>= f)
Ensures-bind P Q (done a) f h k = k a h
Ensures-bind P Q exits f h k = elim h [ ]
Ensures-bind P Q waits f h k = tt
Ensures-bind P Q fault f h k = elim h [ ]

-- A call that returns a result with the property.
abbrev pub Returns : {A : Type 0} → (A → Type 0) → Outcome A → Type 0
Returns P (done a) = P a
Returns P _ = ⊥

pub Returns-bind :
    {A B : Type 0} (P : A → Type 0) (Q : B → Type 0) (o : Outcome A) (f : A → Outcome B)
    → Returns P o
    → ((a : A) → P a → Returns Q (f a))
    → Returns Q (o >>= f)
Returns-bind P Q (done a) f h k = k a h
Returns-bind P Q exits f h k = elim h [ ]
Returns-bind P Q waits f h k = elim h [ ]
Returns-bind P Q fault f h k = elim h [ ]

pub Returns-value :
    {A : Type 0} (P : A → Type 0) (o : Outcome A) → Returns P o → (a : A) × (o ≡ done a)
Returns-value P (done a) h = (a, refl)
Returns-value P exits h = elim h [ ]
Returns-value P waits h = elim h [ ]
Returns-value P fault h = elim h [ ]

pub Returns-if :
    {A : Type 0} (P : A → Type 0) (b : Bool) (o p : Outcome A)
    → (b ≡ true → Returns P o)
    → (b ≡ false → Returns P p)
    → Returns P (if b then o else p)
Returns-if P true o p h k = h refl
Returns-if P false o p h k = k refl

-- `read` does not fail.
abbrev pub Readable : ReadResult → Type 0
Readable (got bs) = Unit
Readable (failed e) = ⊥
