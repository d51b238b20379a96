-- ===== src/Web/Starting.antt =====
-- A connection that `start_connect` starts.
use network_program.Prelude.{
  ℕ, ◌≤◌, ◌<◌, ◌≡◌, refl, true, false, ◌||◌, Option, none, some, List, [], ◌∷◌, length, arith, ltb,
  ◌==◌,
}
use network_program.Sys.{Errno, einprogress, done, Ensures, Readable, max_line}
use network_program.Stream.Writen.Spec.{Takes, accepted, writen_or_exit-bind}
use network_program.Web.{
  fd_setsize, set_bit, Command, Start, after_connect, Flags, untouched, connecting, reading,
  finished, File, Sets, Event, start_connect, write_get_cmd, raise_limit,
}

-- 1 for a file with no connection yet, 1 for a file with a connection.
abbrev pub fresh_one : Flags → ℕ
fresh_one untouched = 1
fresh_one connecting = 0
fresh_one reading = 0
fresh_one finished = 0

abbrev pub open_one : Flags → ℕ
open_one untouched = 0
open_one connecting = 1
open_one reading = 1
open_one finished = 0

-- The request fits into `line`, and the kernel takes all of it.
pub record IsSent (k : Command) : Type 0 where
  pub fits : length k.text ≤ max_line
  pub takes : Takes (length k.text) k.writes
  pub taken : length k.text ≤ accepted k.writes

-- A connection is under way or stands at once.
abbrev pub Connects : Option Errno → Type 0
Connects none = Unit
Connects (some einprogress) = Unit
Connects (some _) = ⊥

-- The calls before `connect` return, with a descriptor that has a bit in the sets.
pub record Starts (c : Start) : Type 0 where
  pub prepared : c.prepared ≡ true
  pub inside : c.fd < fd_setsize
  pub connects : Connects c.connect
  pub sent : IsSent c.command

abbrev pub AllStart : List Start → Type 0
AllStart [] = Unit
AllStart (c ∷ cs) = Starts c × AllStart cs

-- No call of a round fails after the connections were started.
pub record Works (e : Event) : Type 0 where
  pub selects : e.selects ≡ true
  pub readable : (f : ℕ) → Readable (e.reads f)
  pub closes : (f : ℕ) → e.closes f ≡ true
  pub sent : (f : ℕ) → IsSent (e.commands f)

write_get_cmd_sent :
    (fd : ℕ) (k : Command) (s : Sets)
    → fd < fd_setsize
    → IsSent k
    → write_get_cmd fd k s
      ≡ done (
        record { fd = fd; flags = reading },
        record s { rset = λ g. (fd == g) || s.rset g; limit = raise_limit fd s.limit },
      )
unfolding write_get_cmd set_bit
write_get_cmd_sent fd k s h sent =
    let short : ltb max_line (length k.text) ≡ false = ground (arith, sent.fits) in
    let bit : ltb fd fd_setsize ≡ true = ground arith in
    simp (short, bit)
      (writen_or_exit-bind k.text k.writes _ (omega (arith, sent.fits)) sent.takes sent.taken)

-- A file with a connection, whose descriptor has a bit in the sets.
abbrev pub IsOpen : File × Sets → Type 0
IsOpen p = (fresh_one p.0.flags ≡ 0) × (open_one p.0.flags ≡ 1) × (p.0.fd < fd_setsize)

pub write_get_cmd-IsOpen :
    (fd : ℕ) (k : Command) (s : Sets)
    → fd < fd_setsize
    → IsSent k
    → Ensures IsOpen (write_get_cmd fd k s)
write_get_cmd-IsOpen fd k s h sent = rw (write_get_cmd_sent fd k s h sent) (refl, refl, h)

after_connect-IsOpen :
    (fd : ℕ) (k : Command) (c : Option Errno) (s : Sets)
    → fd < fd_setsize
    → IsSent k
    → Connects c
    → Ensures IsOpen (after_connect fd k c s)
unfolding after_connect set_bit
after_connect-IsOpen fd k none s h sent ok = write_get_cmd-IsOpen fd k s h sent
after_connect-IsOpen fd k (some einprogress) s h sent ok =
    let bit : ltb fd fd_setsize ≡ true = ground arith in simp bit (refl, refl, h)
after_connect-IsOpen fd k (some _) s h sent ok = elim ok [ ]

-- The file that `start_connect` leaves has a connection.
pub start_connect-IsOpen : (c : Start) (s : Sets) → Starts c → Ensures IsOpen (start_connect c s)
unfolding start_connect
start_connect-IsOpen c s h =
    simp h.prepared (after_connect-IsOpen c.fd c.command c.connect s h.inside h.sent h.connects)
