-- ===== src/Echo/Back.antt =====
-- The servers send back what they receive.
use network_program.Prelude.{ℕ, ◌≤◌, ◌≡◌, refl, ◌∙◌, List, [], ◌∷◌, ◌++◌, length, arith}
use network_program.Sys.{
  eintr, ReadResult, got, failed, WriteResult, Outcome, done, exits, waits, ◌>>=◌, max_line,
}
use network_program.Stream.Writen.Spec.{Takes, accepted, writen_or_exit-bind}
use network_program.Echo.{Round, echo_round, str_echo}

-- What the other side sent, up to the end of the file.
abbrev pub input : List ReadResult → Outcome (List ℕ)
input [] = waits
input (got [] ∷ rs) = done []
input (got (b ∷ bs) ∷ rs) = input rs >>= λ more. done ((b ∷ bs) ++ more)
input (failed eintr ∷ rs) = input rs
input (failed _ ∷ rs) = exits

abbrev pub reads : List Round → List ReadResult
reads [] = []
reads (r ∷ rs) = r.read ∷ reads rs

-- `read` stores no more than the buffer holds, and the kernel takes these bytes in some calls.
abbrev pub Kind : ReadResult → List WriteResult → Type 0
Kind (got bs) ws = (length bs ≤ max_line) × Takes (length bs) ws × (length bs ≤ accepted ws)
Kind (failed e) ws = Unit

abbrev pub AllKind : List Round → Type 0
AllKind [] = Unit
AllKind (r ∷ rs) = Kind r.read r.writes × AllKind rs

echo_round-input :
    (r : ReadResult) (ws : List WriteResult) (rs : List ReadResult) (rest : Outcome (List ℕ))
    → Kind r ws
    → rest ≡ input rs
    → echo_round r ws rest ≡ input (r ∷ rs)
unfolding echo_round
echo_round-input (got []) ws rs rest k e = refl
echo_round-input (got (b ∷ bs)) ws rs rest k e =
    writen_or_exit-bind (b ∷ bs) ws (λ l. rest >>= λ more. done (l ++ more)) (omega (arith, k.0))
      k.1 k.2
    ∙ rw e refl
echo_round-input (failed eintr) ws rs rest k e = e
echo_round-input (failed _) ws rs rest k e = refl

-- Where the kernel takes the bytes, `str_echo` sends back exactly what it reads: it returns at the
-- end of the file, with all bytes before it sent in their order; it ends the process at an error
-- other than an interrupted call; and it waits where nothing more comes.
pub str_echo-input : (rs : List Round) → AllKind rs → str_echo rs ≡ input (reads rs)
unfolding str_echo
str_echo-input [] k = refl
str_echo-input (r ∷ rs) k =
    echo_round-input r.read r.writes (reads rs) (str_echo rs) k.0 (str_echo-input rs k.1)
