-- ===== src/Server/Prefork.antt =====
-- server/serv05/main.cpp with server/child.h and the parent's part of server/child05.cpp: a parent
-- that accepts connections and passes each to an idle child.
pub mod Idle
pub mod Terminated
mod Tests
use network_program.Prelude.{
  ℕ, zero, suc, ◌+◌, ◌-◌, List, [], ◌∷◌, Option, none, some, Bool, true, false, not, ◌&&◌, ◌||◌,
  ltb, ◌==◌, length, if◌then◌else◌,
}
use network_program.Sys.{ReadResult, got, failed, Outcome, done, exits, ◌>>=◌}

-- `child_status` is 0 where the child is ready, and only 0 and 1 are stored.
pub record Child : Type 0 where
  pub pid : ℕ
  pub pipefd : ℕ
  pub busy : Bool
  pub count : ℕ

pub record Parent : Type 0 where
  pub listenfd : ℕ
  pub children : List Child
  pub navail : ℕ
  pub masterset : ℕ → Bool
  pub maxfd : ℕ

-- What `select` returns, which descriptors it leaves in `rset`, what `read` returns on each, and
-- whether `accept`, `sendmsg` in `Write_fd` and `close` succeed.
pub record Event : Type 0 where
  pub selects : Bool
  pub nsel : ℕ
  pub rset : ℕ → Bool
  pub accepts : Bool
  pub hands_over : Bool
  pub closes : Bool
  pub reads : ℕ → ReadResult

-- The parent's part: `Fork` gives the process id, `Socketpair` the descriptor, `Calloc` zeros.
unfoldable pub child_make : ℕ × ℕ → Child
child_make (pid, fd) = record { pid = pid; pipefd = fd; busy = false; count = 0 }

-- `for (i = 0; i < nchildren; ++i) { child_make; FD_SET; max }`.
unfoldable pub make_all : List (ℕ × ℕ) → Parent → Parent
unfolding child_make
make_all [] p = p
make_all (k ∷ ks) p =
    let c = child_make k in
    let q = make_all ks (record p {
      masterset = λ f. (c.pipefd == f) || p.masterset f;
      maxfd = if ltb p.maxfd c.pipefd then c.pipefd else p.maxfd;
    }) in
    record q { children = c ∷ q.children }

unfoldable pub start : ℕ → List (ℕ × ℕ) → Parent
unfolding make_all
start l ks =
    make_all ks (record {
      listenfd = l;
      children = [];
      navail = length ks;
      masterset = λ f. l == f;
      maxfd = l;
    })

-- The set that `Select` is asked about: not the listening socket, if no child is available.
unfoldable pub asked : Parent → ℕ → Bool
asked p f = if p.navail == 0 then (not (p.listenfd == f) && p.masterset f) else p.masterset f

-- The search for an idle child, which becomes busy.
unfoldable pub assign : List Child → Option (List Child)
assign [] = none
assign (c ∷ cs) =
    let rest = assign cs in
    if c.busy
    then (elim rest [ none ↦ none | some ds ↦ some (c ∷ ds) ])
    else some (record c { busy = true; count = c.count + 1 } ∷ cs)

-- The branch for the listening socket, up to `Close(connfd)`. The socket is asked about only where
-- `navail` is positive.
unfoldable pub accept_one : Event → Parent → Outcome Parent
accept_one e p =
    let found : Outcome Parent = elim (assign p.children) [
      | none ↦ exits
      | some cs ↦
          if e.hands_over && e.closes
          then done (record p { children = cs; navail = p.navail - 1 })
          else exits
    ] in
    if e.accepts then found else exits

-- The children after the scan, and how often `navail` was increased.
pub record Scanned : Type 0 where
  pub children : List Child
  pub freed : ℕ

abbrev pub unchanged : List Child → Scanned
unchanged cs = record { children = cs; freed = 0 }

abbrev pub kept : Child → Scanned → Scanned
kept c r = record { children = c ∷ r.children; freed = r.freed }

abbrev pub released : Child → Scanned → Scanned
released c r = record { children = record c { busy = false } ∷ r.children; freed = r.freed + 1 }

-- `for (i = 0; i < nchildren; ++i)` over the children. The test after `Read` assigns 0 and does not
-- compare, so only an error of `read` ends the process. A count that is 0 already never becomes 0
-- by `--nsel`.
unfoldable pub scan : Event → ℕ → List Child → Outcome Scanned
scan e nsel [] = done (unchanged [])
scan e nsel (c ∷ cs) =
    let skip = scan e nsel cs in
    let on = if nsel == 1 then done (unchanged cs) else (scan e (nsel - 1) cs) in
    if e.rset c.pipefd
    then elim (e.reads c.pipefd) [ failed _ ↦ exits | got _ ↦ on >>= λ r. done (released c r) ]
    else (skip >>= λ r. done (kept c r))

abbrev pub after_scan : Parent → Scanned → Parent
after_scan p r = record p { children = r.children; navail = p.navail + r.freed }

-- One round of the loop.
unfoldable pub round : Event → Parent → Outcome Parent
round e p =
    let skip = scan e e.nsel p.children >>= λ r. done (after_scan p r) in
    let served = accept_one e p >>= λ q.
    let rest = scan e (e.nsel - 1) q.children >>= λ r. done (after_scan q r) in
    if e.nsel == 1 then done q else rest in
    if e.selects then (if e.rset p.listenfd then served else skip) else exits
