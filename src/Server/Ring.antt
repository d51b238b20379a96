-- ===== src/Server/Ring.antt =====
-- server/serv08/main.cpp: the main thread hands connections to a pool of threads through the array
-- `clifd`, which `iget` and `iput` walk round.
-- What stands between `lock` and `unlock` is one step of a thread, and `cv.wait` is two: the thread
-- blocks, and it is woken. `web_child` and the counts of the threads are left out.
pub mod Fifo
pub mod Pool
mod Tests
use network_program.Prelude.{
  ℕ, zero, suc, ◌+◌, ◌≡◌, Option, none, some, List, [], ◌∷◌, ◌++◌, length, get_or, set, replicate,
  ◌==◌, if◌then◌else◌,
}
use network_program.Sys.{Outcome, done, exits, fault}

abbrev pub max_ncli : ℕ
max_ncli = 32

-- `clifd`, an entry of which has no value before it is stored to.
pub record Queue : Type 0 where
  pub clifd : List (Option ℕ)
  pub iget : ℕ
  pub iput : ℕ

unfoldable pub start : Queue
start = record { clifd = replicate max_ncli none; iget = 0; iput = 0 }

-- `if (++i == MAXNCLI) i = 0;`.
abbrev pub next : ℕ → ℕ
next i = if i + 1 == max_ncli then 0 else i + 1

-- The main thread, behind `Accept`.
unfoldable pub put : ℕ → Queue → Outcome Queue
put connfd q =
    let i = next q.iput in
    let stored = record q { clifd = set q.clifd q.iput (some connfd); iput = i } in
    if i == q.iget then exits else done stored

-- A thread that holds the lock: it has to wait, or it takes a connection.
pub data Taken : Type 0 where
  empty : Taken
  takes : ℕ → Queue → Taken

unfoldable pub take_one : Queue → Outcome Taken
take_one q = if q.iget == q.iput then done empty else (elim (get_or q.clifd q.iget none) [
  | none ↦ fault
  | some connfd ↦ done (takes connfd (record q { iget = next q.iget }))
])

-- A thread is about to lock the mutex, waits for the condition, or serves a connection.
pub data Thread : Type 0 where
  ready blocked : Thread
  serving : ℕ → Thread

-- The program, with the connections that were accepted so far, and those that were taken.
pub record System : Type 0 where
  pub queue : Queue
  pub threads : List Thread
  pub accepted : List ℕ
  pub served : List ℕ

-- `notify_one`: one thread that waits, if there is one, goes on.
pub data Notifies : List Thread → List Thread → Type 0 where
  wakes :
      {ts : List Thread} (front back : List Thread)
      → ts ≡ front ++ blocked ∷ back
      → Notifies ts (front ++ ready ∷ back)
  nobody :
      {ts : List Thread}
      → ((front back : List Thread) → ¬ (ts ≡ front ++ blocked ∷ back))
      → Notifies ts ts

-- One step of one thread.
pub data Step : System → System → Type 0 where
  accepts :
      (s : System) (connfd : ℕ) (q : Queue) (ts : List Thread)
      → put connfd s.queue ≡ done q
      → Notifies s.threads ts
      → Step s (record s { queue = q; threads = ts; accepted = s.accepted ++ connfd ∷ [] })
  blocks :
      (s : System) (front back : List Thread)
      → s.threads ≡ front ++ ready ∷ back
      → take_one s.queue ≡ done empty
      → Step s (record s { threads = front ++ blocked ∷ back })
  grabs :
      (s : System) (front back : List Thread) (connfd : ℕ) (q : Queue)
      → s.threads ≡ front ++ ready ∷ back
      → take_one s.queue ≡ done (takes connfd q)
      → Step s (record s {
        queue = q;
        threads = front ++ serving connfd ∷ back;
        served = s.served ++ connfd ∷ [];
      })
  finishes :
      (s : System) (front back : List Thread) (connfd : ℕ)
      → s.threads ≡ front ++ serving connfd ∷ back
      → Step s (record s { threads = front ++ ready ∷ back })
  -- A wait may end with no notification.
  stirs :
      (s : System) (front back : List Thread)
      → s.threads ≡ front ++ blocked ∷ back
      → Step s (record s { threads = front ++ ready ∷ back })

unfoldable pub boot : ℕ → System
unfolding start
boot nthreads = record {
  queue = start;
  threads = replicate nthreads ready;
  accepted = [];
  served = [];
}

pub data Reach (s : System) : System → Type 0 where
  here : Reach s s
  after : {t u : System} → Reach s t → Step t u → Reach s u
