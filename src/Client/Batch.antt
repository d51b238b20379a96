-- ===== src/Client/Batch.antt =====
-- `str_cli_select_shutdown`: what it copies, however the two descriptors become ready.
use network_program.Prelude.{
  ℕ, ◌≤◌, ◌<◌, ◌%◌, ◌^◌, ◌≡◌, ◌∙◌, refl, List, [], ◌∷◌, length, Bool, true, false, not, ◌&&◌, arith,
  ◌==◌, if◌then◌else◌,
}
use network_program.Sys.{
  ReadResult, got, failed, WriteResult, wrote, Outcome, done, ◌>>=◌, max_line, size_mod,
}
use network_program.Stream.Supply.{supply}
use network_program.Stream.Writen.Spec.{Takes, accepted, writen_or_exit-bind}
use network_program.Wrap.Transfer.{write_or_exit}
use network_program.Client.{
  Ready, Talk, sends, copy_input, copy_sock, shutdown_loop, str_cli_select_shutdown,
}

-- What `Read` gave on the standard input, and on the socket.
abbrev pub inputs : List Ready → List ReadResult
inputs [] = []
inputs (c ∷ cs) = if c.input then c.from_input ∷ inputs cs else inputs cs

abbrev pub answers : List Ready → List ReadResult
answers [] = []
answers (c ∷ cs) = if c.sock then c.from_sock ∷ answers cs else answers cs

-- A result of the standard input, with what is asked of the rounds that follow it.
abbrev pub FromInput : ReadResult → List WriteResult → Bool → Type 0 → Type 0 → Type 0
FromInput (failed e) ws fails Next Ended = ⊥
FromInput (got []) ws fails Next Ended = (fails ≡ false) × Ended
FromInput (got (b ∷ bs)) ws fails Next Ended =
    (length (b ∷ bs) ≤ max_line)
    × Takes (length (b ∷ bs)) ws
    × (length (b ∷ bs) ≤ accepted ws)
    × Next

abbrev pub FromSock : Bool → ReadResult → WriteResult → Type 0 → Type 0
FromSock stdineof (failed e) w Next = ⊥
FromSock stdineof (got []) w Next = stdineof ≡ true
FromSock stdineof (got (b ∷ bs)) w Next =
    (length (b ∷ bs) ≤ max_line) × (w ≡ wrote (length (b ∷ bs))) × Next

-- No call fails, what is written is taken, and the server closes the connection after the end of the
-- input.
abbrev pub Finishes : Bool → List Ready → Type 0
Finishes stdineof [] = ⊥
Finishes stdineof (c ∷ cs) =
    let Next = Finishes stdineof cs in
    let Ended = Finishes true cs in
    let Second : Type 0 =
      if c.input && not stdineof
      then FromInput c.from_input c.writes c.shutdown_fails Next Ended
      else Next in
    if c.sock then FromSock stdineof c.from_sock c.write Second else Second

abbrev due : Bool → List Ready → Talk
due stdineof cs = (if stdineof then [] else supply (inputs cs), supply (answers cs))

copy_input-supply :
    (r : ReadResult) (ws : List WriteResult) (fails : Bool) (go_on ended : Outcome Talk)
    (rs : List ReadResult) (printed : List ℕ) (Next Ended : Type 0)
    → FromInput r ws fails Next Ended
    → (Next → go_on ≡ done (supply rs, printed))
    → (Ended → ended ≡ done ([], printed))
    → copy_input r ws fails go_on ended ≡ done (supply (r ∷ rs), printed)
unfolding copy_input
copy_input-supply (failed e) ws fails go_on ended rs printed Next Ended h next over = elim h [ ]
copy_input-supply (got []) ws fails go_on ended rs printed Next Ended h next over =
    rw h.0 (over h.1)
copy_input-supply (got (b ∷ bs)) ws fails go_on ended rs printed Next Ended h next over =
    writen_or_exit-bind (b ∷ bs) ws (λ sent. go_on >>= λ t. done (sends sent t))
      (omega (arith, h.0)) h.1 h.2
    ∙ rw (next h.3) refl

written : (n : ℕ) → n < 2 ^ 63 → write_or_exit n (wrote n) ≡ done tt
unfolding write_or_exit
written n h = let same : (n % size_mod == n) ≡ true = ground (arith, h) in rw same refl

copy_sock-supply :
    (stdineof : Bool) (r : ReadResult) (w : WriteResult) (rest : Outcome Talk)
    (rs : List ReadResult) (sent : List ℕ) (Next : Type 0)
    → FromSock stdineof r w Next
    → (stdineof ≡ true → sent ≡ [])
    → (Next → rest ≡ done (sent, supply rs))
    → copy_sock stdineof r w rest ≡ done (sent, supply (r ∷ rs))
unfolding copy_sock
copy_sock-supply stdineof (failed e) w rest rs sent Next h none_left next = elim h [ ]
copy_sock-supply stdineof (got []) w rest rs sent Next h none_left next = rw (h, none_left h) refl
copy_sock-supply stdineof (got (b ∷ bs)) w rest rs sent Next h none_left next =
    let whole : write_or_exit (length (b ∷ bs)) w ≡ done tt =
      rw h.1 (written (length (b ∷ bs)) (omega (arith, h.0))) in
    rw (whole, next h.2) refl

-- The second half of a round.
second-due :
    (stdineof input : Bool) (r : ReadResult) (ws : List WriteResult) (fails : Bool)
    (go_on ended : Outcome Talk) (rs : List ReadResult) (printed : List ℕ) (Next Ended : Type 0)
    → (if input && not stdineof then FromInput r ws fails Next Ended else Next)
    → (Next → go_on ≡ done (if stdineof then [] else supply rs, printed))
    → (Ended → ended ≡ done ([], printed))
    → (if input && not stdineof then copy_input r ws fails go_on ended else go_on)
      ≡ done (if stdineof then [] else supply (if input then r ∷ rs else rs), printed)
second-due true true r ws fails go_on ended rs printed Next Ended h next over = next h
second-due true false r ws fails go_on ended rs printed Next Ended h next over = next h
second-due false false r ws fails go_on ended rs printed Next Ended h next over = next h
second-due false true r ws fails go_on ended rs printed Next Ended h next over =
    copy_input-supply r ws fails go_on ended rs printed Next Ended h next over

first-due :
    (stdineof sock : Bool) (r : ReadResult) (w : WriteResult) (rest : Outcome Talk)
    (rs : List ReadResult) (sent : List ℕ) (Next : Type 0)
    → (if sock then FromSock stdineof r w Next else Next)
    → (stdineof ≡ true → sent ≡ [])
    → (Next → rest ≡ done (sent, supply rs))
    → (if sock then copy_sock stdineof r w rest else rest)
      ≡ done (sent, supply (if sock then r ∷ rs else rs))
first-due stdineof false r w rest rs sent Next h none_left next = next h
first-due stdineof true r w rest rs sent Next h none_left next =
    copy_sock-supply stdineof r w rest rs sent Next h none_left next

shutdown_loop-due :
    (stdineof : Bool) (cs : List Ready)
    → Finishes stdineof cs
    → shutdown_loop stdineof cs ≡ done (due stdineof cs)
unfolding shutdown_loop
shutdown_loop-due stdineof [] h = elim h [ ]
shutdown_loop-due stdineof (c ∷ cs) h =
    first-due stdineof c.sock c.from_sock c.write _ (answers cs) _ _ h (λ e. rw e refl)
      (λ rest.
        second-due stdineof c.input c.from_input c.writes c.shutdown_fails
          (shutdown_loop stdineof cs) (shutdown_loop true cs) (inputs cs) (supply (answers cs))
          (Finishes stdineof cs) (Finishes true cs) rest
          (λ next. shutdown_loop-due stdineof cs next) (λ over. shutdown_loop-due true cs over))

-- Where no call fails, what is written is taken, and the server closes the connection after the end of
-- the input, the third client returns; it has sent all of the input and printed all that came from
-- the server before it closed, however the two became ready, with the answers that come after the end of
-- the input.
pub str_cli_select_shutdown-copies :
    (cs : List Ready)
    → Finishes false cs
    → str_cli_select_shutdown cs ≡ done (supply (inputs cs), supply (answers cs))
str_cli_select_shutdown-copies cs h = shutdown_loop-due false cs h
