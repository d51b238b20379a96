-- ===== src/Server/Forks/Served.antt =====
-- Which process serves a connection.
use network_program.Prelude.{ℕ, ◌≡◌, refl, Bool, false, List, [], ◌∷◌, ◌==◌}
use network_program.Sys.{eintr, waits}
use network_program.Echo.{Round}
use network_program.Echo.Back.{input, reads, AllKind, str_echo-input}
use network_program.Server.Forks.{Accepted, connected, refused, Arrival, close, Handled, echo_loop}

abbrev pub Absent : ℕ → List ℕ → Type 0
Absent f [] = Unit
Absent f (g ∷ gs) = ((f == g) ≡ false) × Absent f gs

-- `accept` is only interrupted, or returns a descriptor that is not in use; `fork` does not fail, and the
-- kernel takes what the child writes.
abbrev pub Welcome : Accepted → Bool → List Round → List ℕ → Type 0
Welcome (connected f) fails rs opened = Absent f opened × (fails ≡ false) × AllKind rs
Welcome (refused eintr) fails rs opened = Unit
Welcome (refused _) fails rs opened = ⊥

abbrev pub AllWelcome : List Arrival → List ℕ → Type 0
AllWelcome [] opened = Unit
AllWelcome (a ∷ as1) opened =
    Welcome a.accepted a.fork_fails a.theirs opened × AllWelcome as1 opened

-- The connections, each with what its client sends.
abbrev pub connection : Accepted → List Round → List (ℕ × List Round) → List (ℕ × List Round)
connection (connected f) rs rest = (f, rs) ∷ rest
connection (refused _) rs rest = rest

abbrev pub connections : List Arrival → List (ℕ × List Round)
connections [] = []
connections (a ∷ as1) = connection a.accepted a.theirs (connections as1)

-- A child that sends back to its client what it reads.
abbrev pub served : ℕ → List ℕ → ℕ × List Round → Handled
served listenfd opened c = record {
  sent = [];
  forked = record {
    connfd = c.0;
    opened = close listenfd (c.0 ∷ opened);
    echo = input (reads c.1);
  };
}

-- The parent of StringEcho2 serves a connection itself before it forks: while the client neither closes
-- nor fails, it does not come back to `accept`, whoever else wants to connect.
pub echo_loop-blocked :
    (listenfd f : ℕ) (a : Arrival) (as1 : List Arrival) (opened : List ℕ)
    → a.accepted ≡ connected f
    → AllKind a.own
    → input (reads a.own) ≡ waits
    → echo_loop listenfd (a ∷ as1) opened ≡ waits
unfolding echo_loop
echo_loop-blocked listenfd f a as1 opened e kind open_end =
    rw (e, str_echo-input a.own kind, open_end) refl
