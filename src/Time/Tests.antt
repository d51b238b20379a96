-- ===== src/Time/Tests.antt =====
-- `tv_sub` at a difference that borrows.
use network_program.Prelude.{◌≡◌, refl}
use network_program.Prelude.Int.{pos, ◌-ℤ◌, ◌+ℤ◌}
use network_program.Time.{Timeval, tv_sub}

abbrev later : Timeval
later = record { sec = pos 12; usec = pos 100000 }

abbrev earlier : Timeval
earlier = record { sec = pos 11; usec = pos 900000 }

borrow : tv_sub later earlier ≡ record { sec = pos 0; usec = pos 200000 }
unfolding tv_sub ◌-ℤ◌ ◌+ℤ◌
borrow = refl
