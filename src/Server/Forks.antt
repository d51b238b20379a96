-- ===== src/Server/Forks.antt =====
-- The servers that fork for each connection: StringEcho2/Server/main.cpp, whose parent calls `str_echo`
-- too (StringEcho3/Server/main.cpp is the same text), and unixdomain/strserver01/main.cpp. With the
-- handlers of SIGCHLD: `wait` in StringEcho1/Server/main.cpp, `waitpid` in the others.
pub mod Served
pub mod Zombies
mod Tests
use network_program.Prelude.{
  ℕ, zero, suc, ◌+◌, ◌-◌, ◌≡◌, List, [], ◌∷◌, ◌++◌, Option, none, some, Bool, true, false, ◌==◌,
  if◌then◌else◌,
}
use network_program.Sys.{Errno, eintr, Outcome, done, exits, waits, ◌>>=◌}
use network_program.Echo.{Round, str_echo}

-- `accept`: a descriptor, or -1 and `errno`.
pub data Accepted : Type 0 where
  connected : ℕ → Accepted
  refused : Errno → Accepted

-- A return of `accept`, what the parent's calls on the connection give, whether `fork` fails, and what
-- the child's calls give.
pub record Arrival : Type 0 where
  pub accepted : Accepted
  pub own : List Round
  pub fork_fails : Bool
  pub theirs : List Round

abbrev pub close : ℕ → List ℕ → List ℕ
close f [] = []
close f (g ∷ gs) = let rest = close f gs in if f == g then rest else g ∷ rest

-- A child: the descriptors that it has open after `close(listenfd)`, and its `str_echo`.
pub record Child : Type 0 where
  pub connfd : ℕ
  pub opened : List ℕ
  pub echo : Outcome (List ℕ)

unfoldable pub child : ℕ → ℕ → List ℕ → List Round → Child
child listenfd connfd opened rs = record {
  connfd = connfd;
  opened = close listenfd (connfd ∷ opened);
  echo = str_echo rs;
}

-- The parent in its loop: its open descriptors, and what it has done for each connection.
pub record Handled : Type 0 where
  pub sent : List ℕ
  pub forked : Child

abbrev pub State : Type 0
State = List ℕ × List Handled

abbrev pub handled : Handled → State → State
handled h s = (s.0, h ∷ s.1)

-- What `accept` returned, with `continue`, and what follows for a connection.
abbrev pub on_accept : Accepted → Outcome State → (ℕ → Outcome State) → Outcome State
on_accept (connected f) again go = go f
on_accept (refused eintr) again go = again
on_accept (refused _) again go = exits

-- The loop of StringEcho2, up to where it waits in `accept`.
unfoldable pub echo_loop : ℕ → List Arrival → List ℕ → Outcome State
unfolding child
echo_loop listenfd [] opened = done (opened, [])
echo_loop listenfd (a ∷ as1) opened = on_accept a.accepted (echo_loop listenfd as1 opened) (λ f.
    str_echo a.own >>= λ sent.
    let c = child listenfd f opened a.theirs in
    let rest = echo_loop listenfd as1 (close f (f ∷ opened)) in
    if a.fork_fails
    then exits
    else (rest >>= λ s. done (handled (record { sent = sent; forked = c }) s)))

-- The loop of strserver01.
unfoldable pub unix_loop : ℕ → List Arrival → List ℕ → Outcome State
unfolding child
unix_loop listenfd [] opened = done (opened, [])
unix_loop listenfd (a ∷ as1) opened = on_accept a.accepted (unix_loop listenfd as1 opened) (λ f.
    let c = child listenfd f opened a.theirs in
    let rest = unix_loop listenfd as1 (close f (f ∷ opened)) in
    if a.fork_fails
    then exits
    else (rest >>= λ s. done (handled (record { sent = []; forked = c }) s)))

-- The children of the parent, those that have ended and are not waited for, and whether a SIGCHLD is
-- pending: the kernel does not count them.
pub record Children : Type 0 where
  pub running : ℕ
  pub zombies : ℕ
  pub pending : Bool

-- `waitpid(-1, &stat, WNOHANG)` with so many zombies: how many it leaves, where it returns one.
abbrev pub waitpid : ℕ → Option ℕ
waitpid zero = none
waitpid (suc z) = some z

-- `sig_chld` with `waitpid`, by the rounds that are left.
unfoldable pub reap_loop : ℕ → ℕ → Outcome ℕ
reap_loop zero z = waits
reap_loop (suc k) z = elim (waitpid z) [ none ↦ done z | some left ↦ reap_loop k left ]

-- Both handlers: how many zombies are left, of how many, with so many children that still run.
unfoldable pub sig_chld_waitpid : ℕ → ℕ → Outcome ℕ
unfolding reap_loop
sig_chld_waitpid running z = reap_loop (suc z) z

-- `wait` returns at once where there is no child, and waits where none has ended.
unfoldable pub sig_chld_wait : ℕ → ℕ → Outcome ℕ
sig_chld_wait running (suc z) = done z
sig_chld_wait zero zero = done zero
sig_chld_wait (suc n) zero = waits

-- A step of the parent and its children: a fork, the end of a child, or the handler.
pub data Step (sig_chld : ℕ → ℕ → Outcome ℕ) : Children → Children → Type 0 where
  forks : (c : Children) → Step sig_chld c (record c { running = c.running + 1 })
  ends :
      (c : Children) (n : ℕ)
      → c.running ≡ suc n
      → Step sig_chld c (record { running = n; zombies = c.zombies + 1; pending = true })
  handles :
      (c : Children) (z : ℕ)
      → c.pending ≡ true
      → sig_chld c.running c.zombies ≡ done z
      → Step sig_chld c (record c { zombies = z; pending = false })

abbrev pub alone : Children
alone = record { running = 0; zombies = 0; pending = false }

pub data Reach (sig_chld : ℕ → ℕ → Outcome ℕ) : Children → Type 0 where
  start : Reach sig_chld alone
  step : {c d : Children} → Reach sig_chld c → Step sig_chld c d → Reach sig_chld d
