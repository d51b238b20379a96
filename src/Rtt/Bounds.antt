-- ===== src/Rtt/Bounds.antt =====
-- The bounds of the retransmission timeout.
use network_program.Prelude.{ℕ, ◌≡◌, false, Bool-cases, inl, inr}
use network_program.Rtt.{Floats, Clock, RttInfo, rxt_min, rxt_max, rtt_init, rtt_minmax, rtt_stop}

-- The comparison is right on 2 and 60, which the code compares with.
pub record Compares {F : Type 0} (o : Floats F) : Type 0 where
  pub min_min : o.lt (o.of_nat rxt_min) (o.of_nat rxt_min) ≡ false
  pub max_max : o.lt (o.of_nat rxt_max) (o.of_nat rxt_max) ≡ false
  pub max_min : o.lt (o.of_nat rxt_max) (o.of_nat rxt_min) ≡ false

-- Neither below the least nor above the greatest timeout.
abbrev pub InBounds : {F : Type 0} → Floats F → F → Type 0
InBounds o x = (o.lt x (o.of_nat rxt_min) ≡ false) × (o.lt (o.of_nat rxt_max) x ≡ false)

rtt_minmax-InBounds : {F : Type 0} (o : Floats F) (x : F) → Compares o → InBounds o (rtt_minmax o x)
unfolding rtt_minmax
rtt_minmax-InBounds o x h = elim (Bool-cases (o.lt (o.to_float x) (o.of_nat rxt_min))) [
  | inl low ↦ rw low (h.min_min, h.max_min)
  | inr enough ↦ elim (Bool-cases (o.lt (o.of_nat rxt_max) (o.to_float x))) [
    | inl high ↦ rw (enough, high) (h.max_min, h.max_max)
    | inr fits ↦ rw (enough, fits) (enough, fits)
  ]
]

-- With any arithmetic that compares 2 and 60 right, the timeout lies between them after `rtt_init`
-- and after every `rtt_stop`, whatever was measured.
pub rto-InBounds :
    {F : Type 0} (o : Floats F) (tv : Clock) (ms : ℕ) (r : RttInfo F)
    → Compares o
    → InBounds o ((rtt_init o tv r).rto) × InBounds o ((rtt_stop o ms r).rto)
unfolding rtt_init rtt_stop
rto-InBounds o tv ms r h = (rtt_minmax-InBounds o _ h, rtt_minmax-InBounds o _ h)
