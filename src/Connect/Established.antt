-- ===== src/Connect/Established.antt =====
-- When `connect_nonb` reports a connection.
use network_program.Prelude.{ℕ, ◌≡◌, ◌⊎◌, inl, inr, refl, Bool, true, false, Option, none, some}
use network_program.Prelude.Int.{pos}
use network_program.Sys.{Errno, einprogress, Outcome, done}
use network_program.Connect.{
  Kernel, Result, connect_nonb, after_connect, wait_connected, check_error, restored,
}

-- The connection stood at once, or it was under way and then stood with no pending error.
abbrev pub Established : Option Errno → Option Bool → Option (Option Errno) → Type 0
Established c s e = (c ≡ none) ⊎ ((c ≡ some einprogress) × (s ≡ some true) × (e ≡ some none))

abbrev pub connected : ℕ → Result
connected flags = record { value = pos 0; errno = none; flags = flags; closed = false }

abbrev pub Reports : Outcome Result → Type 0
Reports (done r) = r.value ≡ pos 0
Reports _ = ⊥

waited :
    (flags : ℕ) (s : Option Bool) (e : Option (Option Errno))
    → Reports (wait_connected flags s e)
    → (s ≡ some true) × (e ≡ some none)
unfolding wait_connected check_error restored
waited flags none e h = cc h
waited flags (some false) e h = elim h [ ]
waited flags (some true) none h = cc h
waited flags (some true) (some none) h = (refl, refl)
waited flags (some true) (some (some e)) h = cc h

reported :
    (flags : ℕ) (k : Kernel) (c : Option Errno)
    → Reports (after_connect flags k c)
    → Established c k.select k.so_error
unfolding after_connect
reported flags k none h = inl refl
reported flags k (some einprogress) h =
    let (s, e) = waited flags k.select k.so_error h in inr (refl, s, e)
reported flags k (some e) h = cc h

-- `connect_nonb` returns 0 exactly where the connection was established, at once or before the
-- timeout and with no pending error; then the descriptor is open and its flags are restored.
pub connect_nonb_iff :
    (flags : ℕ) (k : Kernel)
    → (Established k.connect k.select k.so_error → connect_nonb flags k ≡ done (connected flags))
      × (Reports (connect_nonb flags k) → Established k.connect k.select k.so_error)
unfolding connect_nonb after_connect wait_connected check_error restored
connect_nonb_iff flags k = (
  λ h. elim h [ inl e ↦ rw e refl | inr (c, s, e) ↦ rw (c, s, e) refl ],
  λ h. reported flags k k.connect h,
)
