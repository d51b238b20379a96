-- ===== src/Connect/Tests.antt =====
-- A connect that takes its time.
use network_program.Prelude.{◌≡◌, refl, true, none, some}
use network_program.Sys.{einprogress, econnreset, done}
use network_program.Prelude.Int.{negsuc}
use network_program.Connect.{
  Kernel, connect_nonb, after_connect, wait_connected, check_error, restored,
}
use network_program.Connect.Established.{Established, Reports, connected, connect_nonb_iff}

abbrev slow : Kernel
slow = record { connect = some einprogress; select = some true; so_error = some none }

reset :
    connect_nonb 2 (record slow { so_error = some (some econnreset) })
    ≡ done (record { value = negsuc 0; errno = some econnreset; flags = 2; closed = true })
unfolding connect_nonb after_connect wait_connected check_error restored
reset = refl

connect_nonb_iff_example :
    (Established (some einprogress) (some true) (some none)
      → connect_nonb 2 slow ≡ done (connected 2))
    × (Reports (connect_nonb 2 slow) → Established (some einprogress) (some true) (some none))
connect_nonb_iff_example = connect_nonb_iff 2 slow
