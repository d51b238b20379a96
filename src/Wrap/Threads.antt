-- ===== src/Wrap/Threads.antt =====
-- wrappthread.cpp: the wrappers of the thread functions, which return 0 or an error number.
use network_program.Prelude.{not}
use network_program.Prelude.Int.{ℤ}
use network_program.Sys.{Void, Outcome}
use network_program.Wrap.{exits_if, is_zero}

abbrev pub pthread_create_or_exit : ℤ → Outcome Void
pthread_create_or_exit n = exits_if (not (is_zero n)) tt

abbrev pub pthread_join_or_exit : ℤ → Outcome Void
pthread_join_or_exit n = exits_if (not (is_zero n)) tt

abbrev pub pthread_detach_or_exit : ℤ → Outcome Void
pthread_detach_or_exit n = exits_if (not (is_zero n)) tt

abbrev pub pthread_kill_or_exit : ℤ → Outcome Void
pthread_kill_or_exit n = exits_if (not (is_zero n)) tt

abbrev pub pthread_mutexattr_init_or_exit : ℤ → Outcome Void
pthread_mutexattr_init_or_exit n = exits_if (not (is_zero n)) tt

abbrev pub pthread_mutexattr_setpshared_or_exit : ℤ → Outcome Void
pthread_mutexattr_setpshared_or_exit n = exits_if (not (is_zero n)) tt

abbrev pub pthread_mutex_init_or_exit : ℤ → Outcome Void
pthread_mutex_init_or_exit n = exits_if (not (is_zero n)) tt

abbrev pub pthread_mutex_lock_or_exit : ℤ → Outcome Void
pthread_mutex_lock_or_exit n = exits_if (not (is_zero n)) tt

abbrev pub pthread_mutex_unlock_or_exit : ℤ → Outcome Void
pthread_mutex_unlock_or_exit n = exits_if (not (is_zero n)) tt

abbrev pub pthread_cond_broadcast_or_exit : ℤ → Outcome Void
pthread_cond_broadcast_or_exit n = exits_if (not (is_zero n)) tt

abbrev pub pthread_cond_signal_or_exit : ℤ → Outcome Void
pthread_cond_signal_or_exit n = exits_if (not (is_zero n)) tt

abbrev pub pthread_cond_wait_or_exit : ℤ → Outcome Void
pthread_cond_wait_or_exit n = exits_if (not (is_zero n)) tt

abbrev pub pthread_cond_timedwait_or_exit : ℤ → Outcome Void
pthread_cond_timedwait_or_exit n = exits_if (not (is_zero n)) tt

abbrev pub pthread_once_or_exit : ℤ → Outcome Void
pthread_once_or_exit n = exits_if (not (is_zero n)) tt

abbrev pub pthread_key_create_or_exit : ℤ → Outcome Void
pthread_key_create_or_exit n = exits_if (not (is_zero n)) tt

abbrev pub pthread_setspecific_or_exit : ℤ → Outcome Void
pthread_setspecific_or_exit n = exits_if (not (is_zero n)) tt
