-- ===== src/Wrap/Sock.antt =====
-- wrapsock.cpp: the wrappers of the socket calls that return at once.
use network_program.Prelude.{ℕ, Option, none, some, List, [], ◌∷◌}
use network_program.Prelude.Int.{ℤ, pos, ltb_ℤ}
use network_program.Sys.{Void, Outcome, done, exits, waits, Errno, econnaborted, eproto}
use network_program.Wrap.{exits_if}

abbrev pub bind_or_exit : ℤ → Outcome Void
bind_or_exit n = exits_if (ltb_ℤ n (pos 0)) tt

abbrev pub connect_or_exit : ℤ → Outcome Void
connect_or_exit n = exits_if (ltb_ℤ n (pos 0)) tt

abbrev pub getpeername_or_exit : ℤ → Outcome Void
getpeername_or_exit n = exits_if (ltb_ℤ n (pos 0)) tt

abbrev pub getsockname_or_exit : ℤ → Outcome Void
getsockname_or_exit n = exits_if (ltb_ℤ n (pos 0)) tt

abbrev pub getsockopt_or_exit : ℤ → Outcome Void
getsockopt_or_exit n = exits_if (ltb_ℤ n (pos 0)) tt

abbrev pub recv_or_exit : ℤ → Outcome ℤ
recv_or_exit n = exits_if (ltb_ℤ n (pos 0)) n

abbrev pub recvfrom_or_exit : ℤ → Outcome ℤ
recvfrom_or_exit n = exits_if (ltb_ℤ n (pos 0)) n

abbrev pub recvmsg_or_exit : ℤ → Outcome ℤ
recvmsg_or_exit n = exits_if (ltb_ℤ n (pos 0)) n

abbrev pub select_or_exit : ℤ → Outcome ℤ
select_or_exit n = exits_if (ltb_ℤ n (pos 0)) n

abbrev pub setsockopt_or_exit : ℤ → Outcome Void
setsockopt_or_exit n = exits_if (ltb_ℤ n (pos 0)) tt

abbrev pub shutdown_or_exit : ℤ → Outcome Void
shutdown_or_exit n = exits_if (ltb_ℤ n (pos 0)) tt

abbrev pub sockatmark_or_exit : ℤ → Outcome ℤ
sockatmark_or_exit n = exits_if (ltb_ℤ n (pos 0)) n

abbrev pub socket_or_exit : ℤ → Outcome ℤ
socket_or_exit n = exits_if (ltb_ℤ n (pos 0)) n

abbrev pub socketpair_or_exit : ℤ → Outcome Void
socketpair_or_exit n = exits_if (ltb_ℤ n (pos 0)) tt

abbrev pub poll_or_exit : ℤ → Outcome ℤ
poll_or_exit n = exits_if (ltb_ℤ n (pos 0)) n

-- `listen` for each backlog, and the environment's LISTENQ with `atoi` are parameters.
abbrev pub listen_or_exit : {Text : Type 0} → (Text → ℤ) → Option Text → (ℤ → ℤ) → ℤ → Outcome Void
listen_or_exit atoi none listen backlog = exits_if (ltb_ℤ (listen backlog) (pos 0)) tt
listen_or_exit atoi (some text) listen backlog = exits_if (ltb_ℤ (listen (atoi text)) (pos 0)) tt

-- What `accept` answers.
pub data AcceptResult : Type 0 where
  accepted : ℕ → AcceptResult
  rejected : Errno → AcceptResult

-- `Accept`, with the results that are left for later calls.
unfoldable pub accept_or_exit : List AcceptResult → Outcome (ℕ × List AcceptResult)
accept_or_exit [] = waits
accept_or_exit (accepted n ∷ rs) = done (n, rs)
accept_or_exit (rejected eproto ∷ rs) = accept_or_exit rs
accept_or_exit (rejected econnaborted ∷ rs) = accept_or_exit rs
accept_or_exit (rejected _ ∷ rs) = exits
