-- ===== src/Wrap/Guards.antt =====
-- Every plain wrapper lets exactly the successful results through.
use network_program.Prelude.{
  ℕ, zero, suc, ◌≡◌, refl, List, [], ◌∷◌, map, replicate, false, arith, Option, none, some,
}
use network_program.Prelude.Int.{ℤ, pos, negsuc, ltb_ℤ}
use network_program.Sys.{Outcome, done, exits, Void}
use network_program.Wrap.Sock.{
  recv_or_exit, recvfrom_or_exit, recvmsg_or_exit, select_or_exit, sockatmark_or_exit,
  socket_or_exit, poll_or_exit, bind_or_exit, connect_or_exit, getpeername_or_exit,
  getsockname_or_exit, getsockopt_or_exit, setsockopt_or_exit, shutdown_or_exit, socketpair_or_exit,
}
use network_program.Wrap.Unix.{
  fcntl_or_exit, ioctl_or_exit, fork_or_exit, mmap_or_exit, open_or_exit, read_or_exit,
  sigismember_or_exit, sysconf_or_exit, wait_or_exit, waitpid_or_exit, close_or_exit, dup2_or_exit,
  gettimeofday_or_exit, sigaddset_or_exit, sigdelset_or_exit, sigemptyset_or_exit,
  sigfillset_or_exit, sigpending_or_exit, sigprocmask_or_exit, unlink_or_exit, pipe_or_exit,
  calloc_or_exit, malloc_or_exit, strdup_or_exit,
}
use network_program.Wrap.Threads.{
  pthread_create_or_exit, pthread_join_or_exit, pthread_detach_or_exit, pthread_kill_or_exit,
  pthread_mutexattr_init_or_exit, pthread_mutexattr_setpshared_or_exit, pthread_mutex_init_or_exit,
  pthread_mutex_lock_or_exit, pthread_mutex_unlock_or_exit, pthread_cond_broadcast_or_exit,
  pthread_cond_signal_or_exit, pthread_cond_wait_or_exit, pthread_cond_timedwait_or_exit,
  pthread_once_or_exit, pthread_key_create_or_exit, pthread_setspecific_or_exit,
}
use network_program.Wrap.Stdio.{fputs_or_exit, fdopen_or_exit, fopen_or_exit}

-- The wrappers that hand on a number, those that return nothing, those of the thread functions,
-- and those that hand on a pointer.
abbrev pub number_wrappers : List (ℤ → Outcome ℤ)
number_wrappers =
    recv_or_exit ∷ recvfrom_or_exit ∷ recvmsg_or_exit ∷ select_or_exit ∷ sockatmark_or_exit
    ∷ socket_or_exit ∷ poll_or_exit ∷ fcntl_or_exit ∷ ioctl_or_exit ∷ fork_or_exit ∷ mmap_or_exit
    ∷ open_or_exit ∷ read_or_exit ∷ sigismember_or_exit ∷ sysconf_or_exit ∷ wait_or_exit
    ∷ waitpid_or_exit ∷ []

abbrev pub void_wrappers : List (ℤ → Outcome Void)
void_wrappers =
    bind_or_exit ∷ connect_or_exit ∷ getpeername_or_exit ∷ getsockname_or_exit ∷ getsockopt_or_exit
    ∷ setsockopt_or_exit ∷ shutdown_or_exit ∷ socketpair_or_exit ∷ close_or_exit ∷ dup2_or_exit
    ∷ gettimeofday_or_exit ∷ sigaddset_or_exit ∷ sigdelset_or_exit ∷ sigemptyset_or_exit
    ∷ sigfillset_or_exit ∷ sigpending_or_exit ∷ sigprocmask_or_exit ∷ unlink_or_exit ∷ pipe_or_exit
    ∷ fputs_or_exit ∷ []

abbrev pub thread_wrappers : List (ℤ → Outcome Void)
thread_wrappers =
    pthread_create_or_exit ∷ pthread_join_or_exit ∷ pthread_detach_or_exit ∷ pthread_kill_or_exit
    ∷ pthread_mutexattr_init_or_exit ∷ pthread_mutexattr_setpshared_or_exit
    ∷ pthread_mutex_init_or_exit ∷ pthread_mutex_lock_or_exit ∷ pthread_mutex_unlock_or_exit
    ∷ pthread_cond_broadcast_or_exit ∷ pthread_cond_signal_or_exit ∷ pthread_cond_wait_or_exit
    ∷ pthread_cond_timedwait_or_exit ∷ pthread_once_or_exit ∷ pthread_key_create_or_exit
    ∷ pthread_setspecific_or_exit ∷ []

abbrev pub pointer_wrappers : List (Option ℕ → Outcome ℕ)
pointer_wrappers =
    calloc_or_exit ∷ malloc_or_exit ∷ strdup_or_exit ∷ fdopen_or_exit ∷ fopen_or_exit ∷ []

-- What a system call returns: a number that is not negative, or -1 where it failed.
pub data Answer : ℤ → Type 0 where
  success : (n : ℕ) → Answer (pos n)
  failure : Answer (negsuc 0)

abbrev pub succeeded : {A : Type 0} {z : ℤ} → A → Answer z → Outcome A
succeeded a (success n) = done a
succeeded a failure = exits

abbrev pub no_error : ℕ → Outcome Void
no_error zero = done tt
no_error (suc e) = exits

abbrev pub allocated : Option ℕ → Outcome ℕ
allocated none = exits
allocated (some p) = done p

not_below : (n : ℕ) → ltb_ℤ (pos n) (pos 0) ≡ false
not_below n = ground arith

-- Whether it tests for a negative result, for -1 or for a number other than 0, each of these
-- wrappers returns the result of a call that succeeded, and ends the process after a call that
-- failed.
pub wrappers-Guard :
    (z : ℤ) (h : Answer z) (e : ℕ) (p : Option ℕ)
    → (map (λ w. w z) number_wrappers ≡ replicate 17 (succeeded z h))
      × (map (λ w. w z) void_wrappers ≡ replicate 20 (succeeded tt h))
      × (map (λ w. w (pos e)) thread_wrappers ≡ replicate 16 (no_error e))
      × (map (λ w. w p) pointer_wrappers ≡ replicate 5 (allocated p))
wrappers-Guard z h e p = (numbers z h, voids z h, threads e, pointers p)
  where
    numbers : (z : ℤ) (h : Answer z) → map (λ w. w z) number_wrappers ≡ replicate 17 (succeeded z h)
    numbers _ (success n) = rw (not_below n) refl
    numbers _ failure = refl

    voids : (z : ℤ) (h : Answer z) → map (λ w. w z) void_wrappers ≡ replicate 20 (succeeded tt h)
    voids _ (success n) = rw (not_below n) refl
    voids _ failure = refl

    threads : (e : ℕ) → map (λ w. w (pos e)) thread_wrappers ≡ replicate 16 (no_error e)
    threads zero = refl
    threads (suc e) = refl

    pointers : (p : Option ℕ) → map (λ w. w p) pointer_wrappers ≡ replicate 5 (allocated p)
    pointers none = refl
    pointers (some q) = refl
