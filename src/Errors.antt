-- ===== src/Errors.antt =====
-- error.cpp, as it is built: HAVE_VSNPRINTF is not defined. A message is the text that `vsprintf`
-- makes of the format and its arguments, without the 0 behind it. The text of `strerror` is a
-- parameter, and so is what `syslog` makes of a format to which it is given no arguments.
pub mod Fits
mod Tests
use network_program.Prelude.{
  ℕ, ◌+◌, ◌-◌, Bool, true, false, List, [], ◌∷◌, ◌++◌, length, take, ltb, leb, ◌==◌, if◌then◌else◌,
}
use network_program.Sys.{Outcome, done, fault, ◌>>=◌, max_line}

-- `char buf[MAXLINE + 1]`. A text stands in it with the 0 behind it; a longer one is written over
-- other memory.
abbrev pub buf_size : ℕ
buf_size = max_line + 1

abbrev pub in_buf : List ℕ → Outcome (List ℕ)
in_buf text = if ltb (length text) buf_size then done text else fault

-- `snprintf(s, size, ...)`: nothing for a size of 0.
abbrev pub snprintf : ℕ → List ℕ → List ℕ
snprintf size text = take (size - 1) text

-- LOG_INFO and LOG_ERR.
pub data Level : Type 0 where
  info err : Level

-- Where a message goes: to `syslog` with its level if `daemon_proc` is set, and else to `stderr`.
pub data Report : Type 0 where
  syslog : Level → List ℕ → Report
  stderr : List ℕ → Report

-- The text in the buffer before the newline. `n` is at most MAXLINE there, so that the size of
-- `snprintf` is not negative.
unfoldable pub error_text : Bool → List ℕ → List ℕ → Outcome (List ℕ)
error_text errnoflag msg reason = in_buf msg >>= λ text.
    let added = snprintf (max_line - length text) (b':' ∷ b' ' ∷ reason) in
    done (if errnoflag then text ++ added else text)

-- The buffer is the format of `syslog`.
unfoldable pub err_doit :
    (List ℕ → Outcome (List ℕ)) → Bool → Bool → Level → List ℕ → List ℕ → Outcome Report
unfolding error_text
err_doit format daemon_proc errnoflag level msg reason = error_text errnoflag msg reason >>= λ text.
    in_buf (text ++ b'\n' ∷ []) >>= λ line.
    if daemon_proc then (format line >>= λ shown. done (syslog level shown)) else done (stderr line)

-- How a function of the file ends, behind its message.
pub data Ending : Type 0 where
  returns exits_1 aborts : Ending

pub record Ended : Type 0 where
  pub report : Outcome Report
  pub ending : Ending

-- `err_ret`, `err_sys`, `err_dump`, `err_msg` and `err_quit`.
pub data Kind : Type 0 where
  err_ret err_sys err_dump err_msg err_quit : Kind

unfoldable pub call : (List ℕ → Outcome (List ℕ)) → Bool → Kind → List ℕ → List ℕ → Ended
unfolding err_doit
call format d err_ret msg reason = record {
  report = err_doit format d true info msg reason;
  ending = returns;
}
call format d err_sys msg reason = record {
  report = err_doit format d true err msg reason;
  ending = exits_1;
}
call format d err_dump msg reason = record {
  report = err_doit format d true err msg reason;
  ending = aborts;
}
call format d err_msg msg reason = record {
  report = err_doit format d false info msg reason;
  ending = returns;
}
call format d err_quit msg reason = record {
  report = err_doit format d false err msg reason;
  ending = exits_1;
}
