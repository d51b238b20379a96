-- ===== src/Wrap/Stdio.antt =====
-- wrapstdio.cpp and wraplib.cpp: the wrappers of standard input and output and of address texts.
use network_program.Prelude.{ℕ, Bool, not, Option, none, some, if◌then◌else◌}
use network_program.Prelude.Int.{ℤ, pos, ltb_ℤ}
use network_program.Sys.{Void, Outcome, done, exits}
use network_program.Wrap.{exits_if, exits_if_null, minus_one, is_zero}

abbrev pub fclose_or_exit : ℤ → Outcome Void
fclose_or_exit n = exits_if (not (is_zero n)) tt

abbrev pub fdopen_or_exit : Option ℕ → Outcome ℕ
fdopen_or_exit p = exits_if_null p

abbrev pub fopen_or_exit : Option ℕ → Outcome ℕ
fopen_or_exit p = exits_if_null p

abbrev pub fputs_or_exit : ℤ → Outcome Void
fputs_or_exit n = exits_if (minus_one n) tt

-- The line that `fgets` gives, and `ferror` after it.
abbrev pub fgets_or_exit : {A : Type 0} → Option A → Bool → Outcome (Option A)
fgets_or_exit none error = exits_if error none
fgets_or_exit (some line) error = done (some line)

-- The destination and the result of `inet_ntop`.
abbrev pub inet_ntop_or_exit : Option ℕ → Option ℕ → Outcome ℕ
inet_ntop_or_exit none p = exits
inet_ntop_or_exit (some dst) p = exits_if_null p

abbrev pub inet_pton_or_exit : ℤ → Outcome Void
inet_pton_or_exit n = if ltb_ℤ n (pos 0) then exits else (if is_zero n then exits else done tt)
