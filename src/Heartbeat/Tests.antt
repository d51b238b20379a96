-- ===== src/Heartbeat/Tests.antt =====
-- A client that is answered and then not any more, and the server.
use network_program.Prelude.{◌≡◌, refl, List, [], ◌∷◌}
use network_program.Prelude.Int.{pos}
use network_program.Sys.{got, wrote, exits}
use network_program.Wrap.Transfer.{send_or_exit}
use network_program.Heartbeat.{heartbeat_cli, Signal, urgent, alarm, cli_urg, cli_alrm, cli_run}

abbrev probe : Signal
probe = alarm (wrote 1)

abbrev answer : Signal
answer = urgent (got (49 ∷ [])) (wrote 1)

abbrev silence : List Signal
silence = probe ∷ probe ∷ answer ∷ probe ∷ probe ∷ probe ∷ probe ∷ []

gone : cli_run silence (heartbeat_cli (pos 0) (pos 3)) ≡ exits
unfolding cli_run cli_urg cli_alrm send_or_exit heartbeat_cli
gone = refl
