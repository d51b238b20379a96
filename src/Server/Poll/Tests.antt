-- ===== src/Server/Poll/Tests.antt =====
-- A client at 4 and one at 5, which closes, and a new connection.
use network_program.Prelude.{
  ℕ, ◌≡◌, ◌⊎◌, inl, inr, refl, List, [], ◌∷◌, none, some, true, Bool-cases, ◌==◌, if◌then◌else◌,
  arith, replicate,
}
use network_program.Sys.{ReadResult, got, WriteResult, wrote, exits}
use network_program.Server.Table.{Full}
use network_program.Server.Poll.{Server, Event, echoed, closed, rdnorm, round}
use network_program.Server.Poll.Scanned.{Answered}
use network_program.Server.Poll.Served.{RoundServes, round-serves}

abbrev two : Server
two = record { maxi = 2; fds = some 4 ∷ some 5 ∷ replicate 13 none; revents = replicate 15 none }

abbrev reads : ℕ → ReadResult
reads f = if f == 4 then got (b'h' ∷ b'i' ∷ []) else got []

abbrev writes : ℕ → List WriteResult
writes f = wrote 1 ∷ wrote 1 ∷ []

abbrev event : Event
event = record {
  nready = 3;
  listener = 64;
  report = λ f. 64;
  connfd = some 6;
  reads = reads;
  writes = writes;
}

answers : (g : ℕ) → Answered (reads g) (writes g)
answers g = elim (Bool-cases (g == 4)) [
  | inl four ↦ rw four (omega arith, inr (omega arith, inr (omega arith, tt)), omega arith)
  | inr other ↦ rw other (omega arith, inl refl, omega arith)
]

round-serves_example :
    (Full two.fds × (rdnorm 64 ≡ true) × (round event two ≡ exits))
    ⊎ RoundServes (round event two) (echoed 4 (b'h' ∷ b'i' ∷ []) ∷ closed 5 ∷ [])
round-serves_example =
    round-serves event two 6 (record { sized = refl; same = refl; inside = omega arith }) answers
      refl (omega arith) refl
