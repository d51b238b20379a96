-- ===== src/Heartbeat.antt =====
-- oob/heartbeat_cli/main.cpp and oob/heartbeat_serv/main.cpp: the signal handlers with which each
-- side finds out, by out-of-band bytes, that the other is gone. `Send` is a wrapper of Wrap.
-- A run is the handlers in the order in which the signals come.
pub mod Silence
mod Tests
use network_program.Prelude.{ℕ, zero, suc, ◌+◌, List, [], ◌∷◌, ltb, if◌then◌else◌}
use network_program.Prelude.Int.{ℤ, pos, negsuc}
use network_program.Sys.{
  ewouldblock, ReadResult, got, failed, WriteResult, Outcome, done, exits, fault, ◌>>=◌,
}
use network_program.Wrap.Transfer.{send_or_exit}

-- The globals; `limit` is `maxnprobes` of the client and `maxnalarms` of the server.
pub record Beat : Type 0 where
  pub nsec : ℕ
  pub limit : ℕ
  pub nprobes : ℕ

-- `if((x = arg) < low) x = low`.
abbrev pub at_least : ℕ → ℤ → ℕ
at_least low (pos n) = if ltb n low then low else n
at_least low (negsuc n) = low

unfoldable pub heartbeat_cli : ℤ → ℤ → Beat
heartbeat_cli nsec maxnprobes =
    let n = at_least 1 nsec in record { nsec = n; limit = at_least n maxnprobes; nprobes = 0 }

-- `heartbeat_serv`, which leaves `nprobes` as it is: 0 in a new process.
unfoldable pub heartbeat_serv : ℤ → ℤ → ℕ → Beat
heartbeat_serv nsec maxnalarms nprobes =
    let n = at_least 1 nsec in record { nsec = n; limit = at_least n maxnalarms; nprobes = nprobes }

-- A signal: SIGURG with the results of `recv` and, in the server, of `send`; or SIGALRM with the
-- result of `send` in the client.
pub data Signal : Type 0 where
  urgent : ReadResult → WriteResult → Signal
  alarm : WriteResult → Signal

abbrev pub heard : Beat → Beat
heard b = record b { nprobes = 0 }

abbrev pub missed : Beat → Beat
missed b = record b { nprobes = b.nprobes + 1 }

-- `sig_urg` of the client.
unfoldable pub cli_urg : ReadResult → Beat → Outcome Beat
cli_urg (got bs) b = done (heard b)
cli_urg (failed ewouldblock) b = done (heard b)
cli_urg (failed _) b = exits

-- `sig_alrm` of the client.
unfoldable pub cli_alrm : WriteResult → Beat → Outcome Beat
cli_alrm r b =
    if ltb b.limit (b.nprobes + 1) then exits else (send_or_exit 1 r >>= λ _. done (missed b))

-- `sig_urg` of the server, which sends back `c`; where `recv` stored no byte, `c` has no value.
unfoldable pub serv_urg : ReadResult → WriteResult → Beat → Outcome Beat
serv_urg (got (c ∷ cs)) r b = send_or_exit 1 r >>= λ _. done (heard b)
serv_urg (got []) r b = fault
serv_urg (failed ewouldblock) r b = fault
serv_urg (failed _) r b = exits

-- `sig_alrm` of the server.
unfoldable pub serv_alrm : Beat → Outcome Beat
serv_alrm b = if ltb b.limit (b.nprobes + 1) then exits else done (missed b)

unfoldable pub cli_run : List Signal → Beat → Outcome Beat
unfolding cli_urg cli_alrm
cli_run [] b = done b
cli_run (urgent x r ∷ es) b = cli_urg x b >>= cli_run es
cli_run (alarm r ∷ es) b = cli_alrm r b >>= cli_run es

unfoldable pub serv_run : List Signal → Beat → Outcome Beat
unfolding serv_urg serv_alrm
serv_run [] b = done b
serv_run (urgent x r ∷ es) b = serv_urg x r b >>= serv_run es
serv_run (alarm r ∷ es) b = serv_alrm b >>= serv_run es
