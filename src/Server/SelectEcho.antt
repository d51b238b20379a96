-- ===== src/Server/SelectEcho.antt =====
-- StringEcho4_shutdown/Server/main.cpp: an echo server over `select`.
pub mod Watch
pub mod Served
mod Tests
use network_program.Prelude.{
  ℕ, zero, suc, ◌+◌, ◌-◌, List, [], ◌∷◌, ◌++◌, Option, none, some, Bool, true, false, not, ◌&&◌,
  ◌||◌, replicate, leb, ltb, ◌==◌, if◌then◌else◌,
}
use network_program.Sys.{ReadResult, got, failed, Outcome, done, exits, waits, fault, ◌>>=◌}
use network_program.Server.Table.{Table, take_entry}

-- `FD_SETSIZE`, the number of entries and of the descriptors that a set has room for.
abbrev pub table_size : ℕ
table_size = 1024

abbrev pub FdSet : Type 0
FdSet = ℕ → Bool

-- `FD_SET`. For a descriptor behind the end of the set it writes over other memory.
unfoldable pub fd_set : ℕ → FdSet → Outcome FdSet
fd_set f s = if ltb f table_size then done (λ g. (f == g) || s g) else fault

unfoldable pub fd_clr : ℕ → FdSet → FdSet
fd_clr f s g = not (f == g) && s g

-- `count` is `maxi + 1`, as `maxi` starts at -1.
pub record Server : Type 0 where
  pub listenfd : ℕ
  pub maxfd : ℕ
  pub count : ℕ
  pub client : Table
  pub allset : FdSet

unfoldable pub init : ℕ → Outcome Server
unfolding fd_set
init l = fd_set l (λ f. false) >>= λ set. done (record {
  listenfd = l;
  maxfd = l;
  count = 0;
  client = replicate table_size none;
  allset = set;
})

-- What `Select` returns, the set that it leaves in `rset`, the descriptor that `Accept` would
-- return, and what `read` would return on each descriptor.
pub record Event : Type 0 where
  pub nready : ℕ
  pub rset : FdSet
  pub connfd : ℕ
  pub reads : ℕ → ReadResult

-- What a client is given: its bytes back, or the end of the connection.
pub data Service : Type 0 where
  echoed : ℕ → List ℕ → Service
  closed : ℕ → Service

-- The branch for the listening socket.
unfoldable pub admit : Server → ℕ → Outcome Server
unfolding fd_set
admit s f = elim (take_entry s.client f) [
  | none ↦ exits
  | some (i, t) ↦ fd_set f s.allset >>= λ set. done (record s {
    client = t;
    allset = set;
    maxfd = if ltb s.maxfd f then f else s.maxfd;
    count = if leb s.count i then i + 1 else s.count;
  })
]

pub record Scan : Type 0 where
  pub client : Table
  pub allset : FdSet
  pub services : List Service

abbrev pub before : Option ℕ → List Service → Scan → Scan
before c vs r = record { client = c ∷ r.client; allset = r.allset; services = vs ++ r.services }

abbrev pub continue_if : Bool → Outcome Scan → Table → FdSet → Outcome Scan
continue_if true rest cs set = rest
continue_if false rest cs set = done (record { client = cs; allset = set; services = [] })

-- `for (j = 0; j <= maxi; ++j)`, over the entries that are left. `Read` ends the process on an
-- error; `Writen` is taken to return.
unfoldable pub scan : Event → ℕ → ℕ → FdSet → Table → Outcome Scan
scan e zero nready set cs = done (record { client = cs; allset = set; services = [] })
scan e (suc k) nready set [] = done (record { client = []; allset = set; services = [] })
scan e (suc k) nready set (none ∷ cs) = scan e k nready set cs >>= λ r. done (before none [] r)
scan e (suc k) nready set (some f ∷ cs) =
    let skip = scan e k nready set cs in
    let on = continue_if (ltb 1 nready) (scan e k (nready - 1) set cs) cs set in
    let off =
      continue_if (ltb 1 nready) (scan e k (nready - 1) (fd_clr f set) cs) cs (fd_clr f set) in
    if e.rset f
    then elim (e.reads f) [
      | failed _ ↦ exits
      | got [] ↦ off >>= λ r. done (before none (closed f ∷ []) r)
      | got (b ∷ bs) ↦ on >>= λ r. done (before (some f) (echoed f (b ∷ bs) ∷ []) r)
    ]
    else (skip >>= λ r. done (before (some f) [] r))

abbrev pub after_scan : Server → Outcome Scan → Outcome (Server × List Service)
after_scan s o = o >>= λ r. done (record s { client = r.client; allset = r.allset }, r.services)

-- What follows `if (--nready <= 0) continue;` after a new connection.
abbrev pub after_admit : Event → Server → Outcome (Server × List Service)
after_admit e t =
    if leb e.nready 1
    then done (t, [])
    else after_scan t (scan e t.count (e.nready - 1) t.allset t.client)

-- One round of the loop.
unfoldable pub round : Event → Server → Outcome (Server × List Service)
round e s =
    if e.rset s.listenfd
    then (admit s e.connfd >>= after_admit e)
    else after_scan s (scan e s.count e.nready s.allset s.client)
