-- ===== src/Server/SelectEcho/Watch.antt =====
-- The descriptors that the select server watches are the listening socket and its clients.
use network_program.Prelude.{
  ℕ, ◌≤◌, ◌<◌, ◌≡◌, refl, length, length-replicate, Option, none, some, true, false, not, ◌&&◌,
  ◌||◌, arith, ltb, lt→ltb, ◌==◌,
}
use network_program.Sys.{fault, Returns}
use network_program.Server.Table.{
  Table, take_entry, holds, Distinct, FreeFrom, holds-replicate, replicate-Distinct,
  replicate-FreeFrom,
}
use network_program.Server.SelectEcho.{table_size, FdSet, fd_set, Server, init, Event, admit, Scan}

pub record IsServer (s : Server) : Type 0 where
  pub sized : length s.client ≡ table_size
  pub distinct : Distinct s.client
  pub apart : holds s.listenfd s.client ≡ false
  pub watched : (f : ℕ) → s.allset f ≡ ((s.listenfd == f) || holds f s.client)
  pub tail : FreeFrom s.count s.client
  pub bound : (f : ℕ) → s.allset f ≡ true → f ≤ s.maxfd
  pub inside : s.maxfd < table_size

-- What a scan of the entries `cs` leaves alone.
record Keeps (set : FdSet) (cs : Table) (r : Scan) : Type 0 where
  pub size : length r.client ≡ length cs
  pub distinct : Distinct r.client
  pub within : (f : ℕ) → holds f r.client ≡ true → holds f cs ≡ true
  pub cleared : (f : ℕ) → r.allset f ≡ (set f && (not (holds f cs) || holds f r.client))
  pub free : (n : ℕ) → FreeFrom n cs → FreeFrom n r.client

-- The kernel numbers a new connection by a descriptor that is not in use.
abbrev pub Fresh : Server → Event → Type 0
Fresh s e = ((s.listenfd == e.connfd) ≡ false) × (holds e.connfd s.client ≡ false)

-- A descriptor that the sets have no room for ends a round in a write to other memory, once it is in
-- the table.
pub admit-fault :
    (s : Server) (f i : ℕ) (t : Table)
    → take_entry s.client f ≡ some (i, t)
    → table_size ≤ f
    → admit s f ≡ fault
unfolding admit fd_set
admit-fault s f i t taken high =
    let over : ltb f table_size ≡ false = ground (arith, high) in rw (taken, admit, over) refl

-- So it is at the start, with a listening socket that the set has room for.
pub init-IsServer : (l : ℕ) → l < table_size → Returns IsServer (init l)
unfolding init fd_set
init-IsServer l low = rw (lt→ltb l table_size low) (record {
  sized = length-replicate {A = Option ℕ} table_size none;
  distinct = replicate-Distinct table_size;
  apart = holds-replicate table_size l;
  watched = λ f. ground (arith, holds-replicate table_size f);
  tail = replicate-FreeFrom table_size;
  bound = λ f e. ground arith;
  inside = low;
})
