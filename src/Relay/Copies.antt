-- ===== src/Relay/Copies.antt =====
-- `str_cli` loses, repeats and reorders nothing, never overruns a buffer, and closes its half of the
-- connection exactly when all input has gone out.
use network_program.Prelude.{
  ℕ, ◌-◌, ◌≤◌, ◌<◌, ◌≡◌, refl, sym, ap, ◌∙◌, List, [], ◌∷◌, ◌++◌, append_assoc, length, arith, Bool,
  true, false, ◌&&◌, ◌||◌, Bool-cases, inl, inr, ltb, ◌==◌, if◌then◌else◌,
}
use network_program.Sys.{
  ReadResult, got, failed, WriteResult, wrote, refused, ewouldblock, Outcome, done, exits, ◌>>=◌,
  Done, Done-bind, max_line,
}
use network_program.Relay.Buffer.{
  advance, waiting, front, pending, IsChannel, pending-put, put-IsChannel, front-pending,
  advance-IsChannel, slice,
}
use network_program.Relay.{
  State, start, Kernel, asks_stdin, asks_socket, asks_stdout, asks_peer, Round, again, returned,
  on_stdin, Heard, on, closed, on_socket, to_output, to_peer, write_both, round, run,
}

-- `read` and `write` move no more than they are asked to.
abbrev pub ReadFits : ReadResult → ℕ → Type 0
ReadFits (got bs) n = length bs ≤ n
ReadFits (failed e) n = Unit {0}

abbrev pub WriteFits : WriteResult → ℕ → Type 0
WriteFits (wrote j) n = j ≤ n
WriteFits (refused e) n = Unit {0}

pub record IsPosix (k : Kernel) : Type 0 where
  pub stdin_fits : (n : ℕ) → ReadFits (k.read_stdin n) n
  pub socket_fits : (n : ℕ) → ReadFits (k.read_socket n) n
  pub stdout_fits : (n : ℕ) → WriteFits (k.write_stdout n) n
  pub peer_fits : (n : ℕ) → WriteFits (k.write_socket n) n

pub record Copies (s : State) : Type 0 where
  pub to_ok : IsChannel s.to
  pub fr_ok : IsChannel s.fr
  pub up : s.to_socket ++ pending s.to ≡ s.from_stdin
  pub down : s.to_stdout ++ pending s.fr ≡ s.from_socket
  pub fin : s.fins ≡ (if s.stdineof && (waiting s.to == 0) then 1 else 0)

on_stdin-Copies :
    (s : State) (r : ReadResult)
    → Copies s
    → s.stdineof ≡ false
    → ReadFits r (max_line - s.to.inp)
    → Done (λ p. Copies p.0) (on_stdin s r)
unfolding on_stdin
on_stdin-Copies s (failed ewouldblock) v open_in fits = v
on_stdin-Copies s (failed _) v open_in fits = tt
on_stdin-Copies s (got []) v open_in fits = record {
  to_ok = v.to_ok;
  fr_ok = v.fr_ok;
  up = v.up;
  down = v.down;
  fin = ground (arith, v.fin);
}
on_stdin-Copies s (got (b ∷ bs)) v open_in fits = record {
  to_ok = put-IsChannel s.to (b ∷ bs) v.to_ok (omega arith) fits;
  fr_ok = v.fr_ok;
  up =
      ap (λ l. s.to_socket ++ l) (pending-put s.to (b ∷ bs) v.to_ok)
      ∙ (sym (append_assoc s.to_socket (pending s.to) (b ∷ bs)) ∙ ap (λ l. l ++ b ∷ bs) v.up);
  down = v.down;
  fin = ground (arith, v.fin);
}

abbrev HeardCopies : State → Heard → Type 0
HeardCopies s (on t more) = Copies t
HeardCopies s closed = s.stdineof ≡ true

eof_step :
    (s : State) (b : Bool)
    → s.stdineof ≡ b
    → Done (HeardCopies s) (if b then done closed else exits)
eof_step s true e = e
eof_step s false e = tt

on_socket-Copies :
    (s : State) (r : ReadResult)
    → Copies s
    → ReadFits r (max_line - s.fr.inp)
    → Done (HeardCopies s) (on_socket s r)
unfolding on_socket
on_socket-Copies s (failed ewouldblock) v fits = v
on_socket-Copies s (failed _) v fits = tt
on_socket-Copies s (got []) v fits = eof_step s s.stdineof refl
on_socket-Copies s (got (b ∷ bs)) v fits = record {
  to_ok = v.to_ok;
  fr_ok = put-IsChannel s.fr (b ∷ bs) v.fr_ok (omega arith) fits;
  up = v.up;
  down =
      ap (λ l. s.to_stdout ++ l) (pending-put s.fr (b ∷ bs) v.fr_ok)
      ∙ (sym (append_assoc s.to_stdout (pending s.fr) (b ∷ bs)) ∙ ap (λ l. l ++ b ∷ bs) v.down);
  fin = v.fin;
}

to_output-Copies :
    (s : State) (r : WriteResult)
    → Copies s
    → WriteFits r (waiting s.fr)
    → Done Copies (to_output s r)
unfolding to_output
to_output-Copies s (refused ewouldblock) v fits = v
to_output-Copies s (refused _) v fits = tt
to_output-Copies s (wrote k) v fits = record {
  to_ok = v.to_ok;
  fr_ok = advance-IsChannel s.fr k v.fr_ok fits;
  up = v.up;
  down =
      append_assoc s.to_stdout (front s.fr k) (pending (advance s.fr k))
      ∙ (ap (λ l. s.to_stdout ++ l) (front-pending s.fr k v.fr_ok fits) ∙ v.down);
  fin = v.fin;
}

to_peer-Copies :
    (s : State) (r : WriteResult)
    → Copies s
    → 0 < waiting s.to
    → WriteFits r (waiting s.to)
    → Done Copies (to_peer s r)
unfolding to_peer
to_peer-Copies s (refused ewouldblock) v busy fits = v
to_peer-Copies s (refused _) v busy fits = tt
to_peer-Copies s (wrote k) v busy fits = record {
  to_ok = advance-IsChannel s.to k v.to_ok fits;
  fr_ok = v.fr_ok;
  up =
      append_assoc s.to_socket (front s.to k) (pending (advance s.to k))
      ∙ (ap (λ l. s.to_socket ++ l) (front-pending s.to k v.to_ok fits) ∙ v.up);
  down = v.down;
  fin = ground (arith, v.fin);
}

write_both-Copies :
    (k : Kernel) (a b : Bool) (s : State) → IsPosix k → Copies s → Done Copies (write_both k a b s)
unfolding write_both
write_both-Copies k a b s fits v = Done-bind Copies Copies _ _ out_step (λ t w. peer_step t w)
  where
    out_step :
        Done Copies (
          if a && ltb 0 (waiting s.fr) then to_output s (k.write_stdout (waiting s.fr)) else done s)
    out_step = elim (Bool-cases (a && ltb 0 (waiting s.fr))) [
      | inl e ↦ rw e (to_output-Copies s _ v (fits.stdout_fits (waiting s.fr)))
      | inr e ↦ rw e v
    ]

    peer_step :
        (t : State)
        → Copies t
        → Done Copies (
            if b && ltb 0 (waiting t.to) then to_peer t (k.write_socket (waiting t.to)) else done t)
    peer_step t w = elim (Bool-cases (b && ltb 0 (waiting t.to))) [
      | inl e ↦ rw e (to_peer-Copies t _ w (ground arith) (fits.peer_fits (waiting t.to)))
      | inr e ↦ rw e w
    ]

-- What is known after a round: the state copies, and a return comes after the end of the input.
abbrev pub RoundCopies : Round → Type 0
RoundCopies (again s) = Copies s
RoundCopies (returned s) = Copies s × (s.stdineof ≡ true)

stdin_step :
    (k : Kernel) (s : State)
    → IsPosix k
    → Copies s
    → Done
        (λ (p : State × Bool). Copies p.0)
        (if asks_stdin s && k.stdin_readable
          then on_stdin s (k.read_stdin (max_line - s.to.inp))
          else done (s, false))
unfolding asks_stdin
stdin_step k s fits v = elim (Bool-cases (asks_stdin s && k.stdin_readable)) [
  | inl e ↦ rw e (on_stdin-Copies s _ v (ground arith) (fits.stdin_fits (max_line - s.to.inp)))
  | inr e ↦ rw e v
]

socket_step :
    (k : Kernel) (s : State)
    → IsPosix k
    → Copies s
    → (ask : Bool)
    → Done (HeardCopies s) (
        if ask && k.socket_readable
        then on_socket s (k.read_socket (max_line - s.fr.inp))
        else done (on s false))
socket_step k s fits v ask = elim (Bool-cases (ask && k.socket_readable)) [
  | inl e ↦ rw e (on_socket-Copies s _ v (fits.socket_fits (max_line - s.fr.inp)))
  | inr e ↦ rw e v
]

round-Copies : (k : Kernel) (s : State) → IsPosix k → Copies s → Done RoundCopies (round k s)
unfolding round
round-Copies k s fits v = Done-bind _ RoundCopies _ _ (stdin_step k s fits v) λ p w.
    Done-bind (HeardCopies p.0) RoundCopies _ _ (socket_step k p.0 fits w (asks_socket s))
      (last_step p w)
  where
    last_step :
        (p : State × Bool)
        → Copies p.0
        → (h : Heard) → HeardCopies p.0 h
        → Done RoundCopies (elim h [
          | closed ↦ done (returned p.0)
          | on t more ↦
              write_both k
                ((asks_stdout s && k.stdout_writable) || more)
                ((asks_peer s && k.socket_writable) || p.1)
                t
              >>= λ u. done (again u)
        ])
    last_step p w closed e = (w, e)
    last_step p w (on t more) h =
        Done-bind Copies RoundCopies _ _ (write_both-Copies k _ _ t fits h) (λ u c. c)

abbrev pub AllPosix : List Kernel → Type 0
AllPosix [] = Unit {0}
AllPosix (k ∷ ks) = IsPosix k × AllPosix ks

next_rounds :
    (f : State → Outcome Round) (r : Round)
    → ((t : State) → Copies t → Done RoundCopies (f t))
    → RoundCopies r
    → Done RoundCopies (elim r [ again t ↦ f t | returned t ↦ done (returned t) ])
next_rounds f (again t) go h = go t h
next_rounds f (returned t) go h = h

run-Copies : (ks : List Kernel) (s : State) → AllPosix ks → Copies s → Done RoundCopies (run ks s)
unfolding run
run-Copies [] s fits v = v
run-Copies (k ∷ ks) s fits v =
    Done-bind RoundCopies RoundCopies _ _ (round-Copies k s fits.0 v)
      (λ r h. next_rounds (run ks) r (λ t w. run-Copies ks t fits.1 w) h)

pub start-Copies : Copies start
unfolding pending slice
start-Copies = record {
  to_ok = record { ordered = omega arith; inside = omega arith; rewound = λ e. refl };
  fr_ok = record { ordered = omega arith; inside = omega arith; rewound = λ e. refl };
  up = refl;
  down = refl;
  fin = refl;
}

-- After any number of rounds, whatever the kernel reports and moves within the counts that it is
-- given: both buffers are in bounds, the socket got the first bytes of the standard input in order
-- and the `to` buffer holds the rest, likewise for the other direction, and one FIN was sent if the
-- input has ended and all of it has gone out, and none before. The loop returns only after the end
-- of the input.
pub run-start-Copies : (ks : List Kernel) → AllPosix ks → Done RoundCopies (run ks start)
run-start-Copies ks fits = run-Copies ks start fits start-Copies

-- The loop never waits for nothing: wherever it can be at the head of a round, `Select` is asked
-- about a read from the socket or a write to the standard output, and until the input has ended
-- about a read from it or a write to the socket.
pub Copies-asks :
    (s : State)
    → Copies s
    → (asks_socket s || asks_stdout s ≡ true)
      × (s.stdineof ≡ false → asks_stdin s || asks_peer s ≡ true)
unfolding asks_socket asks_stdout asks_stdin asks_peer
Copies-asks s v =
    let t = v.to_ok in let f = v.fr_ok in (ground (arith, f), λ open_in. ground (arith, t))
