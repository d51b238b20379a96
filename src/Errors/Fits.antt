-- ===== src/Errors/Fits.antt =====
-- Which messages the buffer holds.
use network_program.Prelude.{
  ℕ, ◌-◌, ◌≤◌, ◌<◌, ◌≡◌, refl, Bool, true, false, Bool-cases, inl, inr, List, [], ◌∷◌, ◌++◌, length,
  length-append, length-take, take, ltb, ltb→lt, ltb_false→le, lt→ltb, ◌⊎◌, ◌∙◌, ◌==◌, ◌||◌, ◌&&◌,
  arith, if◌then◌else◌,
}
use network_program.Sys.{Outcome, done, fault, ◌>>=◌, max_line}
use network_program.Errors.{buf_size, in_buf, Level, Report, syslog, stderr, error_text, err_doit}

-- The line that a message is meant to be, cut to MAXLINE - 1 characters where `errno` is added.
abbrev pub line : Bool → List ℕ → List ℕ → List ℕ
line errnoflag msg reason =
    (if errnoflag then msg ++ take (max_line - length msg - 1) (b':' ∷ b' ' ∷ reason) else msg)
    ++ b'\n' ∷ []

-- Where it is reported: on `stderr`, or to `syslog` with what that makes of it as a format.
abbrev pub sent : (List ℕ → Outcome (List ℕ)) → Bool → Level → List ℕ → Outcome Report
sent format true level text = format text >>= λ shown. done (syslog level shown)
sent format false level text = done (stderr text)

length-line :
    (errnoflag : Bool) (msg reason : List ℕ)
    → length msg < max_line
    → length (line errnoflag msg reason) < buf_size
length-line true msg reason h =
    let tail = b':' ∷ b' ' ∷ reason in
    let room = max_line - length msg - 1 in
    omega (
      arith,
      length-append (msg ++ take room tail) (b'\n' ∷ []),
      length-append msg (take room tail),
      length-take room tail,
    )
length-line false msg reason h = omega (arith, length-append msg (b'\n' ∷ []))

in_buf-done : (text : List ℕ) → length text < buf_size → in_buf text ≡ done text
in_buf-done text h = rw (lt→ltb (length text) buf_size h) refl

in_buf-fault : (text : List ℕ) → buf_size ≤ length text → in_buf text ≡ fault
in_buf-fault text h =
    let over : ltb (length text) buf_size ≡ false = ground (arith, h) in rw over refl

body : Bool → List ℕ → List ℕ → List ℕ
body e msg reason =
    if e then msg ++ take (max_line - length msg - 1) (b':' ∷ b' ' ∷ reason) else msg

length-body : (e : Bool) (msg reason : List ℕ) → length msg ≤ length (body e msg reason)
unfolding body
length-body true msg reason =
    let room = max_line - length msg - 1 in
    omega (arith, length-append msg (take room (b':' ∷ b' ' ∷ reason)))
length-body false msg reason = omega arith

error_text-body :
    (e : Bool) (msg reason : List ℕ)
    → length msg < buf_size
    → error_text e msg reason ≡ done (body e msg reason)
unfolding error_text body
error_text-body e msg reason h = rw (in_buf-done msg h) refl

error_text-fault :
    (e : Bool) (msg reason : List ℕ) → buf_size ≤ length msg → error_text e msg reason ≡ fault
unfolding error_text
error_text-fault e msg reason h = rw (in_buf-fault msg h) refl

reported :
    (format : List ℕ → Outcome (List ℕ)) (d e : Bool) (level : Level) (msg reason : List ℕ)
    → length msg < max_line
    → err_doit format d e level msg reason ≡ sent format d level (line e msg reason)
unfolding err_doit body
reported format d e level msg reason h =
    rw
      (
        error_text-body e msg reason (omega arith),
        in_buf-done (line e msg reason) (length-line e msg reason h),
      )
      (by_place d)
  where
    by_place :
        (b : Bool)
        → (if b
            then (format (line e msg reason) >>= λ shown. done (syslog level shown))
            else done (stderr (line e msg reason)))
          ≡ sent format b level (line e msg reason)
    by_place true = refl
    by_place false = refl

overflows :
    (format : List ℕ → Outcome (List ℕ)) (d e : Bool) (level : Level) (msg reason : List ℕ)
    → max_line ≤ length msg
    → err_doit format d e level msg reason ≡ fault
unfolding err_doit
overflows format d e level msg reason h = elim (Bool-cases (ltb (length msg) buf_size)) [
  | inl x ↦
      let at_end = ltb→lt (length msg) buf_size x in
      let text = body e msg reason in
      let over : buf_size ≤ length (text ++ b'\n' ∷ []) =
        omega (arith, length-append text (b'\n' ∷ []), length-body e msg reason, h) in
      rw (error_text-body e msg reason at_end, in_buf-fault (text ++ b'\n' ∷ []) over) refl
  | inr x ↦ rw (error_text-fault e msg reason (ltb_false→le (length msg) buf_size x)) refl
]

abbrev pub has_percent : List ℕ → Bool
has_percent [] = false
has_percent (c ∷ cs) = (c == b'%') || has_percent cs

abbrev pub as_it_is : Bool → Level → List ℕ → Report
as_it_is daemon_proc level text = if daemon_proc then syslog level text else stderr text

sent-plain :
    (format : List ℕ → Outcome (List ℕ)) (d : Bool) (level : Level) (text : List ℕ)
    → ((t : List ℕ) → has_percent t ≡ false → format t ≡ done t)
    → sent format d level text ≡ (
        if d && has_percent text
        then (format text >>= λ shown. done (syslog level shown))
        else done (as_it_is d level text))
sent-plain format false level text plain = refl
sent-plain format true level text plain = elim (Bool-cases (has_percent text)) [
  | inl percent ↦ rw percent refl
  | inr none ↦ rw (none, plain text none) refl
]

-- A message of less than 4096 characters makes a line of at most 4096 characters, with as much of the
-- reason as there is room for, and this line is reported: on `stderr` as it is, and by a daemon as it is
-- if it has no `%`; what `syslog` makes of a line with a `%` is what it makes of that format. A longer
-- message is written behind the end of the buffer. Of `syslog` it is used that a format without a
-- `%` is its own text.
pub err_doit-Fits :
    (format : List ℕ → Outcome (List ℕ)) (daemon_proc errnoflag : Bool) (level : Level)
    (msg reason : List ℕ)
    → ((text : List ℕ) → has_percent text ≡ false → format text ≡ done text)
    → ((length msg < max_line)
        × (length (line errnoflag msg reason) ≤ max_line)
        × (err_doit format daemon_proc errnoflag level msg reason ≡ (
            if daemon_proc && has_percent (line errnoflag msg reason)
            then (format (line errnoflag msg reason) >>= λ shown. done (syslog level shown))
            else done (as_it_is daemon_proc level (line errnoflag msg reason)))))
      ⊎ ((max_line ≤ length msg) × (err_doit format daemon_proc errnoflag level msg reason ≡ fault))
err_doit-Fits format d e level msg reason plain = elim (Bool-cases (ltb (length msg) max_line)) [
  | inl x ↦
      let small = ltb→lt (length msg) max_line x in
      inl (
        small,
        omega (arith, length-line e msg reason small),
        reported format d e level msg reason small
            ∙ sent-plain format d level (line e msg reason) plain,
      )
  | inr x ↦
      let long = ltb_false→le (length msg) max_line x in
      inr (long, overflows format d e level msg reason long)
]
