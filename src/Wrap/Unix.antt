-- ===== src/Wrap/Unix.antt =====
-- wrapunix.cpp: the wrappers of the other system calls and of the memory functions.
use network_program.Prelude.{ℕ, Bool, ◌||◌, Option, if◌then◌else◌}
use network_program.Prelude.Int.{ℤ, pos, ltb_ℤ}
use network_program.Sys.{Void, Outcome, exits}
use network_program.Wrap.{exits_if, exits_if_null, minus_one}

abbrev pub calloc_or_exit : Option ℕ → Outcome ℕ
calloc_or_exit p = exits_if_null p

abbrev pub close_or_exit : ℤ → Outcome Void
close_or_exit n = exits_if (minus_one n) tt

abbrev pub dup2_or_exit : ℤ → Outcome Void
dup2_or_exit n = exits_if (minus_one n) tt

abbrev pub fcntl_or_exit : ℤ → Outcome ℤ
fcntl_or_exit n = exits_if (minus_one n) n

abbrev pub gettimeofday_or_exit : ℤ → Outcome Void
gettimeofday_or_exit n = exits_if (minus_one n) tt

abbrev pub ioctl_or_exit : ℤ → Outcome ℤ
ioctl_or_exit n = exits_if (minus_one n) n

abbrev pub fork_or_exit : ℤ → Outcome ℤ
fork_or_exit n = exits_if (minus_one n) n

abbrev pub malloc_or_exit : Option ℕ → Outcome ℕ
malloc_or_exit p = exits_if_null p

abbrev pub mmap_or_exit : ℤ → Outcome ℤ
mmap_or_exit n = exits_if (minus_one n) n

abbrev pub open_or_exit : ℤ → Outcome ℤ
open_or_exit n = exits_if (minus_one n) n

abbrev pub pipe_or_exit : ℤ → Outcome Void
pipe_or_exit n = exits_if (ltb_ℤ n (pos 0)) tt

abbrev pub read_or_exit : ℤ → Outcome ℤ
read_or_exit n = exits_if (minus_one n) n

abbrev pub sigaddset_or_exit : ℤ → Outcome Void
sigaddset_or_exit n = exits_if (minus_one n) tt

abbrev pub sigdelset_or_exit : ℤ → Outcome Void
sigdelset_or_exit n = exits_if (minus_one n) tt

abbrev pub sigemptyset_or_exit : ℤ → Outcome Void
sigemptyset_or_exit n = exits_if (minus_one n) tt

abbrev pub sigfillset_or_exit : ℤ → Outcome Void
sigfillset_or_exit n = exits_if (minus_one n) tt

abbrev pub sigismember_or_exit : ℤ → Outcome ℤ
sigismember_or_exit n = exits_if (minus_one n) n

abbrev pub sigpending_or_exit : ℤ → Outcome Void
sigpending_or_exit n = exits_if (minus_one n) tt

abbrev pub sigprocmask_or_exit : ℤ → Outcome Void
sigprocmask_or_exit n = exits_if (minus_one n) tt

abbrev pub strdup_or_exit : Option ℕ → Outcome ℕ
strdup_or_exit p = exits_if_null p

abbrev pub sysconf_or_exit : ℤ → Outcome ℤ
sysconf_or_exit n = exits_if (minus_one n) n

abbrev pub unlink_or_exit : ℤ → Outcome Void
unlink_or_exit n = exits_if (minus_one n) tt

abbrev pub wait_or_exit : ℤ → Outcome ℤ
wait_or_exit n = exits_if (minus_one n) n

abbrev pub waitpid_or_exit : ℤ → Outcome ℤ
waitpid_or_exit n = exits_if (minus_one n) n

-- The branch for a system without `HAVE_MKSTEMP`: it opens the name again that `mkstemp` opened.
abbrev pub mkstemp_or_exit : ℤ → Bool → ℤ → Outcome ℤ
mkstemp_or_exit fd empty_name opened =
    if minus_one fd || empty_name then exits else open_or_exit opened
