-- ===== src/Echo/Tests.antt =====
-- One datagram.
use network_program.Prelude.{◌≡◌, refl, List, [], ◌∷◌}
use network_program.Sys.{eintr, got, failed, wrote, done}
use network_program.Wrap.Transfer.{sendto_or_exit}
use network_program.Echo.{Round, cli_round, dg_cli}

abbrev two_reads : List Round
two_reads =
    record { read = got (104 ∷ 105 ∷ 10 ∷ []); writes = wrote 1 ∷ wrote 2 ∷ [] }
    ∷ record { read = failed eintr; writes = [] }
    ∷ record { read = got (10 ∷ []); writes = wrote 1 ∷ [] }
    ∷ record { read = got []; writes = [] }
    ∷ []

-- What follows a 0 in the answer is not printed.
printed :
    dg_cli (record { line = 104 ∷ 10 ∷ []; sent = wrote 2; answer = got (104 ∷ 0 ∷ 10 ∷ []) } ∷ [])
    ≡ done ((104 ∷ 10 ∷ []) ∷ [], 104 ∷ [])
unfolding dg_cli cli_round sendto_or_exit
printed = refl
