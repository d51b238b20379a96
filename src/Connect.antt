-- ===== src/Connect.antt =====
-- connect_nonb.cpp: a connect with a limit on its time.
pub mod Established
mod Tests
use network_program.Prelude.{
  ℕ, ◌+◌, ◌/◌, ◌%◌, Bool, true, false, Option, none, some, ◌==◌, if◌then◌else◌,
}
use network_program.Prelude.Int.{ℤ, pos, negsuc}
use network_program.Sys.{Errno, einprogress, etimedout, Outcome, done, exits}

-- What the kernel answers: `connect` (`none` is 0, else -1 and `errno`), `Select` (`none` is a
-- timeout, else whether the descriptor is in one of the sets), and `getsockopt` (`none` is -1, else
-- the pending error, if any). `Fcntl` is taken to return.
pub record Kernel : Type 0 where
  pub connect : Option Errno
  pub select : Option Bool
  pub so_error : Option (Option Errno)

-- The result with the `errno` that was set, the descriptor's status flags, and whether it was
-- closed.
pub record Result : Type 0 where
  pub value : ℤ
  pub errno : Option Errno
  pub flags : ℕ
  pub closed : Bool

-- `flags | O_NONBLOCK`.
unfoldable pub nonblocking : ℕ → ℕ
nonblocking flags = if flags / 2048 % 2 == 0 then flags + 2048 else flags

-- From the label `done` on.
unfoldable pub restored : ℕ → Option Errno → Outcome Result
restored flags none = done (record { value = pos 0; errno = none; flags = flags; closed = false })
restored flags (some e) =
    done (record { value = negsuc 0; errno = some e; flags = flags; closed = true })

unfoldable pub check_error : ℕ → Option (Option Errno) → Outcome Result
unfolding restored nonblocking
check_error flags none =
    done (record { value = negsuc 0; errno = none; flags = nonblocking flags; closed = false })
check_error flags (some error) = restored flags error

unfoldable pub wait_connected : ℕ → Option Bool → Option (Option Errno) → Outcome Result
unfolding check_error nonblocking
wait_connected flags none error =
    done (record {
      value = negsuc 0;
      errno = some etimedout;
      flags = nonblocking flags;
      closed = true;
    })
wait_connected flags (some true) error = check_error flags error
wait_connected flags (some false) error = exits

unfoldable pub after_connect : ℕ → Kernel → Option Errno → Outcome Result
unfolding wait_connected restored nonblocking
after_connect flags k none = restored flags none
after_connect flags k (some einprogress) = wait_connected flags k.select k.so_error
after_connect flags k (some e) =
    done (record { value = negsuc 0; errno = some e; flags = nonblocking flags; closed = false })

unfoldable pub connect_nonb : ℕ → Kernel → Outcome Result
unfolding after_connect
connect_nonb flags k = after_connect flags k k.connect
