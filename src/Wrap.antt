-- ===== src/Wrap.antt =====
-- The wrappers that call a function of the system and end the process where it fails:
-- wrapsock.cpp, wrapunix.cpp, wrappthread.cpp, wrapstdio.cpp and wraplib.cpp.
-- A wrapper takes the result of the call it makes; `exits` is the `err_sys` or `err_quit` in it.
pub mod Sock
pub mod Unix
pub mod Threads
pub mod Stdio
pub mod Transfer
pub mod Guards
pub mod Retry
mod Tests
use network_program.Prelude.{ℕ, zero, suc, Bool, true, false, Option, none, some, if◌then◌else◌}
use network_program.Prelude.Int.{ℤ, pos, negsuc}
use network_program.Sys.{Outcome, done, exits}

abbrev pub exits_if : {A : Type 0} → Bool → A → Outcome A
exits_if failure value = if failure then exits else done value

abbrev pub exits_if_null : Option ℕ → Outcome ℕ
exits_if_null none = exits
exits_if_null (some p) = done p

-- The tests `n == -1` and `n == 0`.
abbrev pub minus_one : ℤ → Bool
minus_one (pos n) = false
minus_one (negsuc zero) = true
minus_one (negsuc (suc n)) = false

abbrev pub is_zero : ℤ → Bool
is_zero (pos zero) = true
is_zero (pos (suc n)) = false
is_zero (negsuc n) = false
