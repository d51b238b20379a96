-- ===== src/Heartbeat/Silence.antt =====
-- Both sides give up after silence, and only then.
use network_program.Prelude.{ℕ, zero, suc, ◌≡◌, ◌⊎◌, List, [], ◌∷◌}
use network_program.Sys.{ewouldblock, got, failed, wrote, Outcome, exits, Void, Returns}
use network_program.Heartbeat.{Beat, Signal, urgent, alarm}

-- The list starts with as many alarms.
abbrev pub Alarms : ℕ → List Signal → Type 0
Alarms zero es = Unit
Alarms (suc n) [] = ⊥
Alarms (suc n) (alarm r ∷ es) = Alarms n es
Alarms (suc n) (urgent x r ∷ es) = ⊥

-- Somewhere as many alarms come one after the other, with no byte between them.
abbrev pub Unanswered : ℕ → List Signal → Type 0
Unanswered n [] = Alarms n []
Unanswered n (e ∷ es) = Alarms n (e ∷ es) ⊎ Unanswered n es

-- Calls of the client that do not fail, but for a byte that is not there yet.
abbrev pub CliSound : List Signal → Type 0
CliSound [] = Unit
CliSound (alarm r ∷ es) = (r ≡ wrote 1) × CliSound es
CliSound (urgent (got bs) r ∷ es) = CliSound es
CliSound (urgent (failed ewouldblock) r ∷ es) = CliSound es
CliSound (urgent (failed _) r ∷ es) = ⊥

-- Calls of the server that do not fail.
abbrev pub ServSound : List Signal → Type 0
ServSound [] = Unit
ServSound (alarm r ∷ es) = ServSound es
ServSound (urgent (got (c ∷ cs)) r ∷ es) = (r ≡ wrote 1) × ServSound es
ServSound (urgent _ r ∷ es) = ⊥

-- The process ends, or the run returns.
abbrev GivesUp : Type 0 → Outcome Beat → Type 0
GivesUp P o = (P × (o ≡ exits)) ⊎ (¬ P × Returns (λ _. Void) o)

-- The run ends the process where as many alarms come one after the other, and returns where they
-- do not.
abbrev pub EndsAt : ℕ → List Signal → Outcome Beat → Type 0
EndsAt n es o = GivesUp (Unanswered n es) o
