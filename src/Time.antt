-- ===== src/Time.antt =====
-- `struct timeval`, and `tv_sub`, which ping/main.cpp and traceroute/main.cpp both define.
-- `long` is taken for unbounded: seconds of the clock are far from 2 ^ 63.
mod Tests
use network_program.Prelude.{
  ℕ, ◌+◌, ◌*◌, ◌≤◌, ◌<◌, ◌≡◌, arith, Bool-cases, inl, inr, ltb→lt, ltb_false→le, if◌then◌else◌,
}
use network_program.Prelude.Int.{
  ℤ, pos, negsuc, pos_part, neg_part, ◌+ℤ◌, ◌-ℤ◌, ◌*ℤ◌, ◌≤ℤ◌, ltb_ℤ, +ℤ_parts, -ℤ_parts, *ℤ_parts,
  eq_of_parts,
}

pub record Timeval : Type 0 where
  pub sec : ℤ
  pub usec : ℤ

unfoldable pub tv_sub : Timeval → Timeval → Timeval
tv_sub a b =
    let u = a.usec -ℤ b.usec in
    if ltb_ℤ u (pos 0)
    then record { sec = a.sec -ℤ pos 1 -ℤ b.sec; usec = u +ℤ pos 1000000 }
    else record { sec = a.sec -ℤ b.sec; usec = u }

ruleset time_laws = (arith, +ℤ_parts, -ℤ_parts, *ℤ_parts, eq_of_parts)

-- As the kernel delivers them: the microseconds are below a million.
pub record IsNormal (t : Timeval) : Type 0 where
  pub low : pos 0 ≤ℤ t.usec
  pub high : t.usec ≤ℤ pos 999999

abbrev pub micros : Timeval → ℤ
micros t = t.sec *ℤ pos 1000000 +ℤ t.usec

IsNormal-sum : (s u : ℤ) → pos 0 ≤ℤ u → u ≤ℤ pos 999999 → IsNormal (record { sec = s; usec = u })
IsNormal-sum s u h k = record { low = h; high = k }

-- The difference of two normal times is normal, and it is the difference in microseconds, whichever
-- of the two comes first.
pub tv_sub-micros :
    (a b : Timeval)
    → IsNormal a
    → IsNormal b
    → IsNormal (tv_sub a b) × (micros (tv_sub a b) ≡ micros a -ℤ micros b)
unfolding tv_sub
tv_sub-micros a b ha hb = elim (Bool-cases (ltb_ℤ (a.usec -ℤ b.usec) (pos 0))) [
  | inl borrow ↦
      let below = ltb→lt _ _ borrow in
      rw borrow
        (IsNormal-sum _ _ (omega (time_laws, below)) (omega (time_laws, below)), omega (time_laws))
  | inr enough ↦
      let above = ltb_false→le _ _ enough in
      rw enough
        (IsNormal-sum _ _ (omega (time_laws, above)) (omega (time_laws, above)), omega time_laws)
]
