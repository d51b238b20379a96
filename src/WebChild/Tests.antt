-- ===== src/WebChild/Tests.antt =====
-- A request for two bytes, and one for nothing.
use network_program.Prelude.{
  ℕ, ◌<◌, ◌≤◌, ◌≡◌, ◌⊎◌, refl, inr, List, [], ◌∷◌, length, take, replicate, length-replicate, arith,
}
use network_program.Prelude.Int.{pos, negsuc}
use network_program.Sys.{wrote, done, exits, fault, max_line}
use network_program.WebChild.{max_n, atol, to_int, web_child, request}
use network_program.WebChild.Served.{web_child-request}

abbrev zeros : List ℕ
zeros = replicate max_line 0

below_zero : atol (b' ' ∷ b'-' ∷ b'1' ∷ b'2' ∷ b'\n' ∷ []) ≡ negsuc 11
unfolding atol
below_zero = refl

-- The number is cut to 32 bits.
cut : to_int (pos 4294967298) ≡ pos 2
unfolding to_int
cut = refl

web_child-request_example :
    (1 ≤ 2
      → 2 ≤ max_line
      → (web_child zeros ((request 2, wrote 2 ∷ []) ∷ []) ≡ done (take 2 zeros))
        × (length (take 2 zeros) ≡ 2))
    × (max_line < 2 → 2 ≤ max_n → web_child zeros ((request 2, wrote 2 ∷ []) ∷ []) ≡ fault)
    × ((◌≡◌ {A = ℕ} 2 0) ⊎ (max_n < 2) → web_child zeros ((request 2, wrote 2 ∷ []) ∷ []) ≡ exits)
web_child-request_example =
    web_child-request zeros (wrote 2 ∷ []) 2 (length-replicate {A = ℕ} max_line 0) (omega arith)
      (inr (omega arith, tt)) (omega arith)
