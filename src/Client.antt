-- ===== src/Client.antt =====
-- str_cli.cpp: the client of an echo server, line by line, over `select`, and over `select` with
-- `shutdown`.
pub mod Lines
pub mod Batch
mod Tests
use network_program.Prelude.{
  ℕ, ◌+◌, ◌^◌, List, [], ◌∷◌, ◌++◌, length, Bool, true, false, not, ◌&&◌, Option, none, some, ltb,
  ◌==◌, if◌then◌else◌,
}
use network_program.Sys.{
  ReadResult, got, failed, WriteResult, Outcome, done, exits, waits, ◌>>=◌, max_line,
}
use network_program.Stream.Readline.{Reader, ReadlineEnd, readline}
use network_program.Stream.Writen.{writen_or_exit}
use network_program.Wrap.Transfer.{write_or_exit}
use network_program.Echo.{text}

-- `Readline`: `readline` returns a `ssize_t`, and an error ends the process.
unfoldable pub readline_or_exit : ℕ → Reader → List ReadResult → Outcome ReadlineEnd
readline_or_exit maxlen r rs =
    readline maxlen r rs >>= λ x. if ltb x.value (2 ^ 63) then done x else exits

-- The bytes that were sent, and those that were printed.
abbrev pub Talk : Type 0
Talk = List ℕ × List ℕ

abbrev pub sends : List ℕ → Talk → Talk
sends bs t = (bs ++ t.0, t.1)

abbrev pub prints : List ℕ → Talk → Talk
prints bs t = (t.0, bs ++ t.1)

-- A line that `Fgets` stored, and the results of `write` for it.
pub record Line : Type 0 where
  pub sendline : List ℕ
  pub writes : List WriteResult

-- What follows `Readline`, where the rest of the session is known.
unfoldable pub printed : ReadlineEnd → Outcome Talk → Outcome Talk
printed x rest = if x.value == 0 then exits else (rest >>= λ t. done (prints (text x.stored) t))

-- `str_cli`, up to the end of the input.
unfoldable pub str_cli : List Line → Reader → List ReadResult → Outcome Talk
unfolding readline_or_exit printed
str_cli [] r rs = done ([], [])
str_cli (l ∷ ls) r rs = writen_or_exit (text l.sendline) l.writes >>= λ e.
    readline_or_exit max_line r rs >>= λ x.
    printed x (str_cli ls x.reader x.rest) >>= λ t. done (sends e.sent t)

-- One return of `Select`: whether the socket and the standard input are ready, the line that `Fgets`
-- then gives, with the results of `write` for it.
pub record Choice : Type 0 where
  pub sock : Bool
  pub input : Bool
  pub line : Option (List ℕ)
  pub writes : List WriteResult

-- The second half of a round.
abbrev pub typed : Option (List ℕ) → List WriteResult → Outcome Talk → Outcome Talk
typed none ws rest = done ([], [])
typed (some line) ws rest =
    writen_or_exit (text line) ws >>= λ e. rest >>= λ t. done (sends e.sent t)

-- `str_cli_select`.
unfoldable pub str_cli_select : List Choice → Reader → List ReadResult → Outcome Talk
str_cli_select [] r rs = waits
str_cli_select (c ∷ cs) r rs =
    let go = λ (r' : Reader) (rs' : List ReadResult).
      let rest = str_cli_select cs r' rs' in if c.input then typed c.line c.writes rest else rest in
    if c.sock
    then (readline_or_exit max_line r rs >>= λ x. printed x (go x.reader x.rest))
    else go r rs

-- One return of `Select` for the third client: what is ready, what `Read` gives on the socket and what
-- `Write` answers for it, what `Read` gives on the standard input and what `Writen`'s calls answer, and
-- whether `shutdown` fails.
pub record Ready : Type 0 where
  pub sock : Bool
  pub input : Bool
  pub from_sock : ReadResult
  pub write : WriteResult
  pub from_input : ReadResult
  pub writes : List WriteResult
  pub shutdown_fails : Bool

-- The branch for the standard input, with what follows while there is input, and after its end.
unfoldable pub copy_input :
    ReadResult → List WriteResult → Bool → Outcome Talk → Outcome Talk → Outcome Talk
copy_input (failed e) ws fails go_on ended = exits
copy_input (got []) ws fails go_on ended = if fails then exits else ended
copy_input (got (b ∷ bs)) ws fails go_on ended =
    writen_or_exit (b ∷ bs) ws >>= λ e. go_on >>= λ t. done (sends e.sent t)

-- The branch for the socket, with what follows it.
unfoldable pub copy_sock : Bool → ReadResult → WriteResult → Outcome Talk → Outcome Talk
copy_sock stdineof (failed e) w rest = exits
copy_sock stdineof (got []) w rest = if stdineof then done ([], []) else exits
copy_sock stdineof (got (b ∷ bs)) w rest =
    write_or_exit (length (b ∷ bs)) w >>= λ _. rest >>= λ t. done (prints (b ∷ bs) t)

-- `str_cli_select_shutdown`, with `stdineof`. After the end of the input the descriptor is no longer in
-- the set that `Select` is given, so that it is never ready.
unfoldable pub shutdown_loop : Bool → List Ready → Outcome Talk
unfolding copy_input copy_sock
shutdown_loop stdineof [] = waits
shutdown_loop stdineof (c ∷ cs) =
    let go_on = shutdown_loop stdineof cs in
    let ended = shutdown_loop true cs in
    let second =
      if c.input && not stdineof
      then copy_input c.from_input c.writes c.shutdown_fails go_on ended
      else go_on in
    if c.sock then copy_sock stdineof c.from_sock c.write second else second

abbrev pub str_cli_select_shutdown : List Ready → Outcome Talk
str_cli_select_shutdown cs = shutdown_loop false cs
