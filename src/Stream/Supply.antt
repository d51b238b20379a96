-- ===== src/Stream/Supply.antt =====
-- The byte stream that a list of `read` results stands for.
use network_program.Prelude.{ℕ, ◌-◌, ◌≤◌, ◌≡◌, ◌⊎◌, List, [], ◌∷◌, ◌++◌, length}
use network_program.Sys.{ReadResult, got, failed, eintr}

-- The bytes that arrive before the end of file or an error; interruptions bring none.
abbrev pub supply : List ReadResult → List ℕ
supply [] = []
supply (got [] ∷ rs) = []
supply (got (b ∷ bs) ∷ rs) = (b ∷ bs) ++ supply rs
supply (failed eintr ∷ rs) = supply rs
supply (failed _ ∷ rs) = []

-- What stands behind these bytes; `open_end` where the list ends first.
pub data Ending : Type 0 where
  end_of_file read_error open_end : Ending

abbrev pub ending : List ReadResult → Ending
ending [] = open_end
ending (got [] ∷ rs) = end_of_file
ending (got (b ∷ bs) ∷ rs) = ending rs
ending (failed eintr ∷ rs) = ending rs
ending (failed _ ∷ rs) = read_error

-- `read` returns no more than was asked for, as POSIX has it: `n` bytes are wanted in all, and each
-- call asks for those still missing.
abbrev pub Within : ℕ → List ReadResult → Type 0
Within n [] = Unit {0}
Within n (got [] ∷ rs) = Unit {0}
Within n (got (b ∷ bs) ∷ rs) = (n ≡ 0) ⊎ ((length (b ∷ bs) ≤ n) × Within (n - length (b ∷ bs)) rs)
Within n (failed eintr ∷ rs) = Within n rs
Within n (failed _ ∷ rs) = Unit {0}
