-- ===== src/Errors/Tests.antt =====
-- A short message with a reason, by a daemon; `syslog` is taken to fail on every format with a `%`.
use network_program.Prelude.{
  ℕ, ◌<◌, ◌≤◌, ◌≡◌, ◌⊎◌, refl, true, false, List, [], ◌∷◌, length, if◌then◌else◌,
}
use network_program.Sys.{Outcome, done, fault, max_line}
use network_program.Errors.{syslog, err, err_doit}
use network_program.Errors.Fits.{line, has_percent, err_doit-Fits}

abbrev msg : List ℕ
msg = b'x' ∷ b'y' ∷ []

abbrev reason : List ℕ
reason = b'z' ∷ []

abbrev format : List ℕ → Outcome (List ℕ)
format text = if has_percent text then fault else done text

format-plain : (text : List ℕ) → has_percent text ≡ false → format text ≡ done text
format-plain text e = rw e refl

-- A `%` in a message of a daemon.
percent : err_doit format true false err (b'%' ∷ b's' ∷ []) [] ≡ fault
unfolding err_doit
percent = refl

err_doit-Fits_example :
    ((2 < max_line)
      × (length (line true msg reason) ≤ max_line)
      × (err_doit format true true err msg reason
          ≡ done (syslog err (b'x' ∷ b'y' ∷ b':' ∷ b' ' ∷ b'z' ∷ b'\n' ∷ []))))
    ⊎ ((max_line ≤ 2) × (err_doit format true true err msg reason ≡ fault))
err_doit-Fits_example = err_doit-Fits format true true err msg reason format-plain
