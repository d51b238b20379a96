-- ===== src/Wrap/Tests.antt =====
-- The wrappers at concrete results.
use network_program.Prelude.{◌≡◌, refl, inl, inr, [], ◌∷◌, ◌++◌, List}
use network_program.Sys.{econnaborted, eproto, eintr, done, exits}
use network_program.Wrap.Sock.{accepted, rejected, accept_or_exit, AcceptResult}
use network_program.Wrap.Retry.{Aborted}

abbrev aborted : List AcceptResult
aborted = rejected econnaborted ∷ rejected eproto ∷ []

third_accepted : accept_or_exit (aborted ++ accepted 7 ∷ []) ≡ done (7, [])
unfolding accept_or_exit
third_accepted = refl

interrupted : accept_or_exit (rejected eintr ∷ accepted 7 ∷ []) ≡ exits
unfolding accept_or_exit
interrupted = refl

eintr_not_Aborted : ¬ Aborted eintr
eintr_not_Aborted (inl e) = cc e
eintr_not_Aborted (inr e) = cc e
