-- ===== src/Echo.antt =====
-- str_echo.cpp, dg_echo.cpp and dg_cli.cpp: an echo server for a connection, and the two sides of
-- the echo by datagrams. `Writen` is the one of Stream/Writen, `Sendto` and `Recvfrom` are the
-- wrappers of wrapsock.cpp.
pub mod Back
mod Tests
use network_program.Prelude.{ℕ, List, [], ◌∷◌, ◌++◌, length, ◌==◌, if◌then◌else◌}
use network_program.Sys.{
  eintr, ReadResult, got, failed, WriteResult, Outcome, done, exits, waits, ◌>>=◌,
}
use network_program.Address.{SockAddr}
use network_program.Stream.Writen.{writen_or_exit}
use network_program.Wrap.Transfer.{sendto_or_exit}

-- One round of the loop: the result of `read`, and those of `write` while `Writen` sends the bytes.
pub record Round : Type 0 where
  pub read : ReadResult
  pub writes : List WriteResult

-- `str_echo`, with the bytes that were sent where it returns. Each round is one call of `read`.
unfoldable pub echo_round : ReadResult → List WriteResult → Outcome (List ℕ) → Outcome (List ℕ)
echo_round (got []) ws rest = done []
echo_round (got (b ∷ bs)) ws rest =
    writen_or_exit (b ∷ bs) ws >>= λ e. rest >>= λ more. done (e.sent ++ more)
echo_round (failed eintr) ws rest = rest
echo_round (failed _) ws rest = exits

unfoldable pub str_echo : List Round → Outcome (List ℕ)
unfolding echo_round
str_echo [] = waits
str_echo (r ∷ rs) = echo_round r.read r.writes (str_echo rs)

-- A datagram that is received, from where, and the result of `sendto`.
pub record Datagram : Type 0 where
  pub received : ReadResult
  pub source : SockAddr
  pub sent : WriteResult

-- `dg_echo`, which never returns: what it has sent, and to whom, where it waits for a datagram.
unfoldable pub dg_round :
    ReadResult
    → SockAddr
    → WriteResult
    → Outcome (List (SockAddr × List ℕ))
    → Outcome (List (SockAddr × List ℕ))
dg_round (got bs) source r rest =
    sendto_or_exit (length bs) r >>= λ _. rest >>= λ more. done ((source, bs) ∷ more)
dg_round (failed _) source r rest = exits

unfoldable pub dg_echo : List Datagram → Outcome (List (SockAddr × List ℕ))
unfolding dg_round
dg_echo [] = done []
dg_echo (d ∷ ds) = dg_round d.received d.source d.sent (dg_echo ds)

-- A line of the input as far as `strlen` goes, and what `Sendto` and `Recvfrom` answer for it.
pub record Request : Type 0 where
  pub line : List ℕ
  pub sent : WriteResult
  pub answer : ReadResult

-- `Fputs` of bytes behind which a 0 was stored.
abbrev pub text : List ℕ → List ℕ
text [] = []
text (b ∷ bs) = let rest = text bs in if b == 0 then [] else b ∷ rest

-- `dg_cli`: the datagrams that were sent, and the texts printed, up to the end of the input.
unfoldable pub cli_round :
    List ℕ
    → WriteResult
    → ReadResult
    → Outcome (List (List ℕ) × List ℕ)
    → Outcome (List (List ℕ) × List ℕ)
cli_round line r (got bs) rest =
    sendto_or_exit (length line) r >>= λ _. rest >>= λ more. done (line ∷ more.0, text bs ++ more.1)
cli_round line r (failed _) rest = exits

unfoldable pub dg_cli : List Request → Outcome (List (List ℕ) × List ℕ)
unfolding cli_round
dg_cli [] = done ([], [])
dg_cli (q ∷ qs) = cli_round q.line q.sent q.answer (dg_cli qs)
