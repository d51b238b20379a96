-- ===== src/Passing/Handover.antt =====
-- Descriptors arrive.
use network_program.Prelude.{
  ℕ, zero, suc, ◌≤◌, ◌<◌, ◌≡◌, refl, ap, Option, none, some, List, [], ◌∷◌, map, length, arith,
  Bool, true, Bool-cases, inl, inr, ◌==◌,
}
use network_program.Prelude.Int.{pos}
use network_program.Sys.{Outcome, done, exits, ◌>>=◌}
use network_program.Passing.{
  Cmsg, Message, write_fd, Received, received, Slot, unset, holds, read_control, read_fd,
  read_fd_or_exit, Opened, opened, not_opened, exited, exit_errno, openfile, MyOpen, returns_fd,
  fails, my_open, child_main, close_fd, child_start,
}

-- The kernel gives the receiver a descriptor of its own for the file.
abbrev renamed : (ℕ → ℕ) → Option Cmsg → Option Cmsg
renamed dup none = none
renamed dup (some c) = some (record c { fd = dup c.fd })

-- What the other end of the stream receives: the message, or the end of the stream.
abbrev pub deliver : (ℕ → ℕ) → Option Message → Received
deliver dup none = received (record { bytes = []; control = none })
deliver dup (some m) = received (record m { control = renamed dup m.control })

write_fd-read_fd :
    (dup : ℕ → ℕ) (b : ℕ) (bs : List ℕ) (fd : ℕ) (s : Slot)
    → read_fd (deliver dup (some (write_fd (b ∷ bs) fd))) s
      ≡ done (pos (suc (length bs)), holds (dup fd))
unfolding write_fd read_fd read_control
write_fd-read_fd dup b bs fd s = refl

write_fd-read_fd_or_exit :
    (dup : ℕ → ℕ) (b : ℕ) (bs : List ℕ) (fd : ℕ) (s : Slot)
    → read_fd_or_exit (deliver dup (some (write_fd (b ∷ bs) fd))) s
      ≡ done (suc (length bs), holds (dup fd))
unfolding read_fd_or_exit
write_fd-read_fd_or_exit dup b bs fd s = rw (write_fd-read_fd dup b bs fd s) refl

-- What `my_open` is to return, by what `open` and `sendmsg` answer in the child.
abbrev pub expected : (ℕ → ℕ) → Opened → Option ℕ → MyOpen
expected dup (not_opened errno) sent = fails errno
expected dup (opened fd) (some errno) = fails errno
expected dup (opened fd) none = returns_fd (dup fd)

-- The errors that the exit status of a process can carry.
abbrev pub SmallErrors : Opened → Option ℕ → Type 0
SmallErrors (not_opened errno) sent = (1 ≤ errno) × (errno < 256)
SmallErrors (opened fd) (some errno) = (1 ≤ errno) × (errno < 256)
SmallErrors (opened fd) none = Unit

failing :
    (errno : ℕ) (r : Received)
    → 1 ≤ errno
    → errno < 256
    → my_open (exit_errno errno) r ≡ done (fails errno)
unfolding my_open
failing zero r h k = absurd (omega arith)
failing (suc n) r h k =
    let kept : exit_errno (suc n) ≡ exited (suc n) = ap exited (grind arith) in
    ap (λ s. my_open s r) kept

handed_over :
    (dup : ℕ → ℕ) (fd : ℕ)
    → my_open (exited 0) (deliver dup (some (write_fd (0 ∷ []) fd))) ≡ done (returns_fd (dup fd))
unfolding my_open
handed_over dup fd = rw (write_fd-read_fd_or_exit dup 0 [] fd unset) refl

-- `my_open` with the child that it starts: it returns a descriptor for the file that the child has
-- opened, and where `open` or `sendmsg` fails in the child, -1 with the child's `errno`.
pub openfile-my_open :
    (dup : ℕ → ℕ) (o : Opened) (sent : Option ℕ)
    → SmallErrors o sent
    → my_open (openfile o sent).0 (deliver dup (openfile o sent).1) ≡ done (expected dup o sent)
unfolding openfile
openfile-my_open dup (not_opened errno) sent h = failing errno (deliver dup none) h.0 h.1
openfile-my_open dup (opened fd) (some errno) h = failing errno (deliver dup none) h.0 h.1
openfile-my_open dup (opened fd) none h = handed_over dup fd

-- The messages with which a parent hands over connections.
abbrev pub handed : (ℕ → ℕ) → List ℕ → List Received
handed dup [] = []
handed dup (fd ∷ fds) = deliver dup (some (write_fd (0 ∷ []) fd)) ∷ handed dup fds

loop-serves :
    (dup : ℕ → ℕ) (fds : List ℕ) (s : Slot) → child_main (handed dup fds) s ≡ done (map dup fds)
unfolding child_main
loop-serves dup [] s = refl
loop-serves dup (fd ∷ fds) s =
    rw (write_fd-read_fd_or_exit dup 0 [] fd s, loop-serves dup fds (holds (dup fd))) refl

same_fd : (f : ℕ) → (f == f) ≡ true
same_fd f = ground arith

-- Nothing that follows the second `Close` of one descriptor is reached.
close_twice :
    {A : Type 0}
    → (f : ℕ) (is_open : ℕ → Bool) (then : (ℕ → Bool) → Outcome A)
    → (close_fd f is_open >>= λ once. close_fd f once >>= then) ≡ exits
unfolding close_fd
close_twice f is_open then = elim (Bool-cases (is_open f)) [
  | inl e ↦ rw (e, close_fd, same_fd f) refl
  | inr e ↦ rw e refl
]

-- The loop of `child_main` receives the connections that `write_fd` hands to it, each once and in
-- this order. But a child that `child_make` starts never comes to this loop: whatever is open, the
-- second `Close` of the parent's end of the pipe ends it, if the first does not.
pub child_main-serves :
    (dup : ℕ → ℕ) (fds : List ℕ) (s : Slot) (pipefd listenfd : ℕ) (is_open : ℕ → Bool)
    → (child_main (handed dup fds) s ≡ done (map dup fds))
      × (child_start pipefd listenfd is_open (handed dup fds) s ≡ exits)
unfolding child_start
child_main-serves dup fds s pipefd listenfd is_open =
    (loop-serves dup fds s, close_twice pipefd is_open _)
