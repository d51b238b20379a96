-- ===== src/Server/Poll.antt =====
-- StringEcho5_poll/Server/main.cpp: an echo server over `poll`.
-- The array `client` is two lists, for the fields `fd` and `revents` of its elements from 1 on. What
-- the code has not written is `none` in `revents`; in the table `none` is the descriptor -1. The
-- element 0 is the listening socket.
pub mod Scanned
pub mod Served
mod Tests
use network_program.Prelude.{
  ℕ, zero, suc, ◌+◌, ◌-◌, ◌/◌, ◌%◌, List, [], ◌∷◌, ◌++◌, Option, none, some, Bool, true, false,
  ◌||◌, replicate, ltb, leb, ◌==◌, if◌then◌else◌,
}
use network_program.Sys.{
  ReadResult, got, failed, WriteResult, wrote, refused, eintr, Outcome, done, exits, waits, fault,
  ◌>>=◌, Void,
}
use network_program.Stream.Writen.{writen_or_exit}
use network_program.Server.Table.{Table, take_entry}

-- `FOPEN_MAX` is 16.
abbrev pub clients : ℕ
clients = 15

pub record Server : Type 0 where
  pub maxi : ℕ
  pub fds : Table
  pub revents : List (Option ℕ)

abbrev pub init : Server
init = record { maxi = 0; fds = replicate clients none; revents = replicate clients none }

-- What `Poll` returns, the events that it reports for the listening socket and for each descriptor, what
-- `Accept` returns, and what `read` and the calls of `write` return on each descriptor.
pub record Event : Type 0 where
  pub nready : ℕ
  pub listener : ℕ
  pub report : ℕ → ℕ
  pub connfd : Option ℕ
  pub reads : ℕ → ReadResult
  pub writes : ℕ → List WriteResult

-- POLLRDNORM and POLLERR.
abbrev pub rdnorm : ℕ → Bool
rdnorm r = r / 64 % 2 == 1

abbrev pub readable : ℕ → Bool
readable r = rdnorm r || (r / 8 % 2 == 1)

-- `poll` writes `revents` of its first so many elements, 0 where `fd` is -1.
abbrev pub poll : (ℕ → ℕ) → ℕ → Table → List (Option ℕ) → List (Option ℕ)
poll report zero fds rs = rs
poll report (suc k) (none ∷ fds) (r ∷ rs) = some 0 ∷ poll report k fds rs
poll report (suc k) (some f ∷ fds) (r ∷ rs) = some (report f) ∷ poll report k fds rs
poll report (suc k) fds rs = rs

-- What a client is given: its bytes back, the end of the connection, or nothing.
pub data Service : Type 0 where
  echoed : ℕ → List ℕ → Service
  closed ignored : ℕ → Service

-- The table and the services after a scan.
abbrev pub Scan : Type 0
Scan = Table × List Service

abbrev pub before : Option ℕ → List Service → Scan → Scan
before c vs r = (c ∷ r.0, vs ++ r.1)

-- `Writen(sockfd, buf, n)` after a failed `read`: as `n` is a `size_t`, it is 2^64 - 1. Where `writen`
-- returns -1, this is what was asked for. `buf` has not so many bytes.
unfoldable pub writen_failed : List WriteResult → Outcome Void
writen_failed [] = waits
writen_failed (wrote zero ∷ rs) = done tt
writen_failed (wrote (suc k) ∷ rs) = fault
writen_failed (refused eintr ∷ rs) = writen_failed rs
writen_failed (refused _ ∷ rs) = done tt

-- A readable client: what becomes of its entry, and what it is given.
unfoldable pub serve : ℕ → ReadResult → List WriteResult → Outcome (Option ℕ × List Service)
serve f (failed e) ws = writen_failed ws >>= λ _. done (some f, ignored f ∷ [])
serve f (got []) ws = done (none, closed f ∷ [])
serve f (got (b ∷ bs)) ws = writen_or_exit (b ∷ bs) ws >>= λ e. done (some f, echoed f e.sent ∷ [])

-- `for (i = 1; i <= maxi; ++i)`, over the elements that are left.
unfoldable pub scan : Event → ℕ → ℕ → Table → List (Option ℕ) → Outcome Scan
unfolding serve
scan e zero nready fds rs = done (fds, [])
scan e (suc k) nready (none ∷ fds) (r ∷ rs) =
    scan e k nready fds rs >>= λ s. done (before none [] s)
scan e (suc k) nready (some f ∷ fds) (none ∷ rs) = fault
scan e (suc k) nready (some f ∷ fds) (some r ∷ rs) =
    let skip = scan e k nready fds rs in
    let on = scan e k (nready - 1) fds rs in
    if readable r
    then (serve f (e.reads f) (e.writes f) >>= λ c.
        (if leb nready 1 then done (fds, []) else on) >>= λ s. done (before c.0 c.1 s))
    else (skip >>= λ s. done (before (some f) [] s))
scan e (suc k) nready fds rs = fault

-- The branch for the listening socket, up to `maxi = i`.
unfoldable pub admit : Option ℕ → Server → Outcome Server
admit none s = exits
admit (some f) s = elim (take_entry s.fds f) [
  | none ↦ exits
  | some (i, t) ↦ done (record s { fds = t; maxi = if ltb s.maxi (i + 1) then i + 1 else s.maxi })
]

abbrev pub after_scan : Server → Outcome Scan → Outcome (Server × List Service)
after_scan s o = o >>= λ r. done (record s { fds = r.0 }, r.1)

-- One round of the loop.
unfoldable pub round : Event → Server → Outcome (Server × List Service)
unfolding scan admit
round e s =
    let polled = record s { revents = poll e.report s.maxi s.fds s.revents } in
    if rdnorm e.listener
    then (admit e.connfd polled >>= λ t.
        if leb e.nready 1
        then done (t, [])
        else after_scan t (scan e t.maxi (e.nready - 1) t.fds t.revents))
    else after_scan polled (scan e polled.maxi e.nready polled.fds polled.revents)
