-- ===== src/Relay.antt =====
-- nonblock/str_cli_nonblock.cpp, `str_cli`: two buffers between the standard streams and a socket,
-- all of them nonblocking. `to` holds what was read from the standard input for the socket, `fr`
-- what came from the socket for the standard output.
pub mod Buffer
pub mod Copies
pub mod Loss
mod Tests
use network_program.Prelude.{
  ℕ, ◌+◌, ◌-◌, ◌<◌, ◌≤◌, ◌≡◌, List, [], ◌∷◌, ◌++◌, Bool, true, false, not, ◌&&◌, ◌||◌, length, ltb,
  ◌==◌, if◌then◌else◌,
}
use network_program.Sys.{
  ReadResult, got, failed, WriteResult, wrote, refused, ewouldblock, Outcome, done, exits, waits,
  fault, ◌>>=◌, max_line,
}
use Buffer.{Channel, empty, put, advance, waiting, front}

-- The variables of `str_cli`, and what its calls have moved: the bytes read from and written to each
-- descriptor, and how often `Shutdown` sent a FIN.
pub record State : Type 0 where
  pub to : Channel
  pub fr : Channel
  pub stdineof : Bool
  pub from_stdin : List ℕ
  pub to_socket : List ℕ
  pub from_socket : List ℕ
  pub to_stdout : List ℕ
  pub fins : ℕ

abbrev pub start : State
start = record {
  to = empty;
  fr = empty;
  stdineof = false;
  from_stdin = [];
  to_socket = [];
  from_socket = [];
  to_stdout = [];
  fins = 0;
}

-- What the kernel does in one round: which descriptors `Select` finds ready, of those asked for, and
-- how each call goes, for the count that it is called with.
pub record Kernel : Type 0 where
  pub stdin_readable : Bool
  pub socket_readable : Bool
  pub stdout_writable : Bool
  pub socket_writable : Bool
  pub read_stdin : ℕ → ReadResult
  pub read_socket : ℕ → ReadResult
  pub write_stdout : ℕ → WriteResult
  pub write_socket : ℕ → WriteResult

pub data Round : Type 0 where
  again : State → Round
  returned : State → Round

-- `FD_ISSET(STDIN_FILENO, &rset)`: the state, and whether `sockfd` was added to `wset`.
unfoldable pub on_stdin : State → ReadResult → Outcome (State × Bool)
on_stdin s (failed ewouldblock) = done (s, false)
on_stdin s (failed _) = exits
on_stdin s (got []) =
    done
      (record s { stdineof = true; fins = if waiting s.to == 0 then s.fins + 1 else s.fins }, false)
on_stdin s (got (b ∷ bs)) =
    done (record s { to = put s.to (b ∷ bs); from_stdin = s.from_stdin ++ b ∷ bs }, true)

-- `FD_ISSET(sockfd, &rset)`: the end of file returns if the input has ended too, and ends the
-- process if not. Besides, whether `STDOUT_FILENO` was added to `wset`.
pub data Heard : Type 0 where
  on : State → Bool → Heard
  closed : Heard

unfoldable pub on_socket : State → ReadResult → Outcome Heard
on_socket s (failed ewouldblock) = done (on s false)
on_socket s (failed _) = exits
on_socket s (got []) = if s.stdineof then done closed else exits
on_socket s (got (b ∷ bs)) =
    done (on (record s { fr = put s.fr (b ∷ bs); from_socket = s.from_socket ++ b ∷ bs }) true)

-- The write to the standard output, of `n = friptr - froptr > 0` bytes.
unfoldable pub to_output : State → WriteResult → Outcome State
to_output s (refused ewouldblock) = done s
to_output s (refused _) = exits
to_output s (wrote k) =
    done (record s { fr = advance s.fr k; to_stdout = s.to_stdout ++ front s.fr k })

-- The write to the socket, of `n = toiptr - tooptr > 0` bytes.
unfoldable pub to_peer : State → WriteResult → Outcome State
to_peer s (refused ewouldblock) = done s
to_peer s (refused _) = exits
to_peer s (wrote k) =
    let emptied = waiting (advance s.to k) == 0 in
    done (record s {
      to = advance s.to k;
      to_socket = s.to_socket ++ front s.to k;
      fins = if emptied && s.stdineof then s.fins + 1 else s.fins;
    })

-- The second half of a round.
unfoldable pub write_both : Kernel → Bool → Bool → State → Outcome State
write_both k out_ready peer_ready s = do
  t ←
      if out_ready && ltb 0 (waiting s.fr)
      then to_output s (k.write_stdout (waiting s.fr))
      else done s
  if peer_ready && ltb 0 (waiting t.to) then to_peer t (k.write_socket (waiting t.to)) else done t

-- The descriptors that `Select` is asked about.
unfoldable pub asks_stdin : State → Bool
asks_stdin s = not s.stdineof && ltb s.to.inp max_line

unfoldable pub asks_socket : State → Bool
asks_socket s = ltb s.fr.inp max_line

unfoldable pub asks_peer : State → Bool
asks_peer s = not (s.to.out == s.to.inp)

unfoldable pub asks_stdout : State → Bool
asks_stdout s = not (s.fr.out == s.fr.inp)

-- One round of the loop.
unfoldable pub round : Kernel → State → Outcome Round
round k s =
    (if asks_stdin s && k.stdin_readable
      then on_stdin s (k.read_stdin (max_line - s.to.inp))
      else done (s, false))
    >>= λ (p : State × Bool).
        (if asks_socket s && k.socket_readable
          then on_socket p.0 (k.read_socket (max_line - p.0.fr.inp))
          else done (on p.0 false))
        >>= λ (h : Heard). elim h [
          | closed ↦ done (returned p.0)
          | on t more ↦
              write_both k ((asks_stdout s && k.stdout_writable) || more)
                ((asks_peer s && k.socket_writable) || p.1) t
              >>= λ u. done (again u)
        ]

-- The loop, for as many rounds as the list has.
unfoldable pub run : List Kernel → State → Outcome Round
run [] s = done (again s)
run (k ∷ ks) s =
    round k s >>= λ (r : Round). elim r [ again t ↦ run ks t | returned t ↦ done (returned t) ]
