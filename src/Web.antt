-- ===== src/Web.antt =====
-- nonblock/webclient/web.cpp: a client that fetches several files over nonblocking connections, a
-- limited number of them at a time.
-- `home_page`, which fetches one file before the loop, and the texts printed are left out. A file's
-- descriptor was put into the sets when its connection was started, so that `FD_ISSET` and `FD_CLR`
-- stay inside them.
pub mod Starting
pub mod Counts
pub mod Progress
mod Tests
use network_program.Prelude.{
  ℕ, zero, suc, ◌+◌, ◌-◌, Bool, true, false, not, ◌&&◌, ◌||◌, Option, none, some, List, [], ◌∷◌,
  min, replicate, length, ltb, ◌==◌, if◌then◌else◌,
}
use network_program.Sys.{
  Errno, einprogress, ReadResult, got, failed, WriteResult, Outcome, done, exits, waits, fault,
  ◌>>=◌, max_line,
}
use network_program.Stream.Writen.{writen_or_exit}

-- `f_flags`: 0, F_CONNECTING, F_READING and F_DONE.
pub data Flags : Type 0 where
  untouched connecting reading finished : Flags

pub record File : Type 0 where
  pub fd : ℕ
  pub flags : Flags

-- The descriptor sets, and `maxfd + 1`.
pub record Sets : Type 0 where
  pub rset : ℕ → Bool
  pub wset : ℕ → Bool
  pub limit : ℕ

pub record Web : Type 0 where
  pub files : List File
  pub sets : Sets
  pub nconn : ℕ
  pub nlefttoconn : ℕ
  pub nlefttoread : ℕ

-- `MAXFILES`.
abbrev pub max_files : ℕ
max_files = 20

-- FD_SETSIZE.
abbrev pub fd_setsize : ℕ
fd_setsize = 1024

-- `FD_SET`, which writes out of the set for a descriptor that has no bit in it.
unfoldable pub set_bit : ℕ → (ℕ → Bool) → Outcome (ℕ → Bool)
set_bit f s = if ltb f fd_setsize then done (λ g. (f == g) || s g) else fault

unfoldable pub clear_bit : ℕ → (ℕ → Bool) → ℕ → Bool
clear_bit f s g = not (f == g) && s g

unfoldable pub raise_limit : ℕ → ℕ → ℕ
raise_limit f limit = if ltb f limit then limit else f + 1

-- The state at the head of the loop.
unfoldable pub init : ℕ → Web
init nargs =
    let nfiles = min nargs max_files in
    record {
      files = replicate nfiles (record { fd = 0; flags = untouched });
      sets = record { rset = λ f. false; wset = λ f. false; limit = 0 };
      nconn = 0;
      nlefttoconn = nfiles;
      nlefttoread = nfiles;
    }

-- A request as `snprintf` is to write it, and what `write` answers to it.
pub record Command : Type 0 where
  pub text : List ℕ
  pub writes : List WriteResult

-- `write_get_cmd`. `snprintf` returns the length of the whole text, and `Writen` reads that many
-- bytes of `line`.
unfoldable pub write_get_cmd : ℕ → Command → Sets → Outcome (File × Sets)
unfolding set_bit raise_limit
write_get_cmd fd k s =
    let sending : Outcome (File × Sets) = writen_or_exit k.text k.writes >>= λ _.
    set_bit fd s.rset >>= λ rset. done (
      record { fd = fd; flags = reading },
      record s { rset = rset; limit = raise_limit fd s.limit },
    ) in
    if ltb max_line (length k.text) then fault else sending

-- `start_connect` behind `Fcntl`, with the `errno` of `connect`, if it does not succeed at once.
unfoldable pub after_connect : ℕ → Command → Option Errno → Sets → Outcome (File × Sets)
unfolding set_bit raise_limit write_get_cmd
after_connect fd k none s = write_get_cmd fd k s
after_connect fd k (some einprogress) s = set_bit fd s.rset >>= λ rset.
    set_bit fd s.wset >>= λ wset. done (
      record { fd = fd; flags = connecting },
      record { rset = rset; wset = wset; limit = raise_limit fd s.limit },
    )
after_connect fd k (some _) s = exits

-- What `start_connect` meets: whether `Host_serv`, `Socket` and both `Fcntl` return, the descriptor,
-- what `connect` answers, and the request.
pub record Start : Type 0 where
  pub prepared : Bool
  pub fd : ℕ
  pub connect : Option Errno
  pub command : Command

unfoldable pub start_connect : Start → Sets → Outcome (File × Sets)
unfolding after_connect
start_connect c s = if c.prepared then after_connect c.fd c.command c.connect s else exits

abbrev pub is_untouched : Flags → Bool
is_untouched untouched = true
is_untouched _ = false

-- The search for a file to read, which is replaced.
unfoldable pub replace_first : File → List File → Option (List File)
replace_first g [] = none
replace_first g (f ∷ fs) =
    let rest = replace_first g fs in
    if is_untouched f.flags
    then some (g ∷ fs)
    else (elim rest [ none ↦ none | some hs ↦ some (f ∷ hs) ])

-- The body of the inner `while`. The search is made before the connection is started.
unfoldable pub start_one : Start → Web → Outcome Web
start_one c w = start_connect c w.sets >>= λ p. elim (replace_first p.0 w.files) [
  | none ↦ exits
  | some fs ↦
      done
        (record w { files = fs; sets = p.1; nconn = w.nconn + 1; nlefttoconn = w.nlefttoconn - 1 })
]

-- The inner `while`, with what its calls of `start_connect` meet.
unfoldable pub fill : ℕ → List Start → Web → Outcome (Web × List Start)
fill maxnconn [] w = if ltb w.nconn maxnconn && ltb 0 w.nlefttoconn then waits else done (w, [])
fill maxnconn (c ∷ cs) w =
    let rest = start_one c w >>= λ w'. fill maxnconn cs w' in
    if ltb w.nconn maxnconn && ltb 0 w.nlefttoconn then rest else done (w, c ∷ cs)

-- Whether `select` succeeds, what it leaves in the sets, what `read` returns on each descriptor,
-- whether `close` succeeds, and the request where a connection has come about or has failed.
pub record Event : Type 0 where
  pub selects : Bool
  pub rs : ℕ → Bool
  pub ws : ℕ → Bool
  pub reads : ℕ → ReadResult
  pub closes : ℕ → Bool
  pub commands : ℕ → Command

-- One file in the loop over all: the file, the sets, and 1 if the file is at its end.
pub record Served : Type 0 where
  pub file : File
  pub sets : Sets
  pub ended : ℕ

-- A connect that failed is reported, and the request is written all the same.
unfoldable pub serve : Event → File → Flags → Sets → Outcome Served
unfolding write_get_cmd clear_bit
serve e f untouched s = done (record { file = f; sets = s; ended = 0 })
serve e f finished s = done (record { file = f; sets = s; ended = 0 })
serve e f connecting s =
    let established : Outcome Served =
      write_get_cmd f.fd (e.commands f.fd) (record s { wset = clear_bit f.fd s.wset }) >>= λ p.
      done (record { file = p.0; sets = p.1; ended = 0 }) in
    if e.rs f.fd || e.ws f.fd then established else done (record { file = f; sets = s; ended = 0 })
serve e f reading s =
    let closed : Outcome Served =
      if e.closes f.fd
      then done (record {
        file = record f { flags = finished };
        sets = record s { rset = clear_bit f.fd s.rset };
        ended = 1;
      })
      else exits in
    if e.rs f.fd
    then elim (e.reads f.fd) [
      | failed _ ↦ exits
      | got [] ↦ closed
      | got _ ↦ done (record { file = f; sets = s; ended = 0 })
    ]
    else done (record { file = f; sets = s; ended = 0 })

pub record Scanned : Type 0 where
  pub files : List File
  pub sets : Sets
  pub ended : ℕ

unfoldable pub scan : Event → List File → Sets → Outcome Scanned
scan e [] s = done (record { files = []; sets = s; ended = 0 })
scan e (f ∷ fs) s = serve e f f.flags s >>= λ a. scan e fs a.sets >>= λ r.
    done (record { files = a.file ∷ r.files; sets = r.sets; ended = a.ended + r.ended })

-- One round of the outer loop.
unfoldable pub round : ℕ → List Start → Event → Web → Outcome Web
round maxnconn cs e w = fill maxnconn cs w >>= λ p.
    let scanned : Outcome Web = scan e p.0.files p.0.sets >>= λ r. done (record (p.0) {
      files = r.files;
      sets = r.sets;
      nconn = p.0.nconn - r.ended;
      nlefttoread = p.0.nlefttoread - r.ended;
    }) in
    if e.selects then scanned else exits

-- `while (nlefttoread > 0)`.
unfoldable pub run : ℕ → List (List Start × Event) → Web → Outcome Web
run maxnconn [] w = if w.nlefttoread == 0 then done w else waits
run maxnconn ((cs, e) ∷ es) w =
    let rest = round maxnconn cs e w >>= λ w'. run maxnconn es w' in
    if w.nlefttoread == 0 then done w else rest
