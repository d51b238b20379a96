-- ===== src/Web/Progress.antt =====
-- How the outer loop ends.
use network_program.Prelude.{ℕ, ◌+◌, ◌≡◌, refl, Bool-cases, inl, inr, List, [], ◌∷◌, arith, ◌==◌}
use network_program.Sys.{Ensures, Ensures-bind}
use network_program.Web.{
  Flags, untouched, connecting, reading, finished, File, Web, Start, Event, init, round, run,
}
use network_program.Web.Starting.{fresh_one, open_one, AllStart, Works}
use network_program.Web.Counts.{fresh, opened, IsCounted, round-IsCounted, init-IsCounted}

-- No call fails.
abbrev pub AllGood : List (List Start × Event) → Type 0
AllGood [] = Unit
AllGood ((cs, e) ∷ es) = (AllStart cs × Works e) × AllGood es

abbrev pub AllFinished : List File → Type 0
AllFinished [] = Unit
AllFinished (f ∷ fs) = (f.flags ≡ finished) × AllFinished fs

finished_flags : (fl : Flags) → fresh_one fl ≡ 0 → open_one fl ≡ 0 → fl ≡ finished
finished_flags untouched h k = absurd (omega arith)
finished_flags connecting h k = absurd (omega arith)
finished_flags reading h k = absurd (omega arith)
finished_flags finished h k = refl

AllFinished-none_left : (fs : List File) → fresh fs + opened fs ≡ 0 → AllFinished fs
AllFinished-none_left [] h = tt
AllFinished-none_left (f ∷ fs) h =
    (finished_flags f.flags (omega arith) (omega arith), AllFinished-none_left fs (omega arith))

-- Every file was read to its end, and no connection is open.
pub record IsOver (w : Web) : Type 0 where
  pub read : AllFinished w.files
  pub closed : w.nconn ≡ 0

IsOver-counted : (maxnconn : ℕ) (w : Web) → IsCounted maxnconn w → w.nlefttoread ≡ 0 → IsOver w
IsOver-counted maxnconn w v h = record {
  read = AllFinished-none_left w.files (omega (arith, v.to_read));
  closed = omega (arith, v.conns, v.to_read);
}

run-IsOver :
    (maxnconn : ℕ) (es : List (List Start × Event)) (w : Web)
    → AllGood es
    → IsCounted maxnconn w
    → Ensures IsOver (run maxnconn es w)
unfolding run
run-IsOver maxnconn [] w h v = elim (Bool-cases (w.nlefttoread == 0)) [
  | inl over ↦ rw over (IsOver-counted maxnconn w v (ground arith))
  | inr more ↦ rw more tt
]
run-IsOver maxnconn ((cs, e) ∷ es) w h v = elim (Bool-cases (w.nlefttoread == 0)) [
  | inl over ↦ rw over (IsOver-counted maxnconn w v (ground arith))
  | inr more ↦ rw more (
      Ensures-bind _ _ (round maxnconn cs e w) _ (round-IsCounted maxnconn cs e w h.0.0 h.0.1 v)
        (λ w' v'. run-IsOver maxnconn es w' h.1 v'))
]

-- Whatever `Select` reports, as long as no call fails, the descriptors are below FD_SETSIZE, and the
-- kernel takes every request that is written, the loop does not end the process, and it returns
-- only when every file was read to its end and no connection is open.
pub run-init-IsOver :
    (maxnconn nargs : ℕ) (es : List (List Start × Event))
    → AllGood es
    → Ensures IsOver (run maxnconn es (init nargs))
run-init-IsOver maxnconn nargs es h =
    run-IsOver maxnconn es (init nargs) h (init-IsCounted maxnconn nargs)
