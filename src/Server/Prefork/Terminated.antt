-- ===== src/Server/Prefork/Terminated.antt =====
-- A child that has ended.
use network_program.Prelude.{ℕ, ◌+◌, ◌≡◌, refl, ap, ◌∙◌, List, [], ◌∷◌, true, false, arith, ◌==◌}
use network_program.Sys.{got, done, ◌>>=◌}
use network_program.Server.Prefork.{
  Child, Parent, Event, scan, round, after_scan, released, unchanged,
}
use network_program.Server.Prefork.Idle.{idle, IsCounted}

scan_ended :
    (e : Event) (n : ℕ) (c : Child) (cs : List Child)
    → n ≡ 1
    → e.rset c.pipefd ≡ true
    → e.reads c.pipefd ≡ got []
    → scan e n (c ∷ cs) ≡ done (released c (unchanged cs))
unfolding scan
scan_ended e n c cs one ready eof =
    let last : (n == 1) ≡ true = ground arith in rw (ready, eof, last) refl

round_quiet :
    (e : Event) (p : Parent)
    → e.selects ≡ true
    → e.rset p.listenfd ≡ false
    → round e p ≡ (scan e e.nsel p.children >>= λ r. done (after_scan p r))
unfolding round
round_quiet e p selected quiet = simp (selected, quiet)

-- Where the first child is idle and only its pipe is heard, at its end because the child has ended,
-- the parent goes on and counts a child as available once more: `navail` grows, and the number of
-- idle children does not.
pub terminated_Counted :
    (e : Event) (p : Parent) (c : Child) (cs : List Child)
    → IsCounted p
    → p.children ≡ c ∷ cs
    → c.busy ≡ false
    → e.selects ≡ true
    → e.nsel ≡ 1
    → e.rset p.listenfd ≡ false
    → e.rset c.pipefd ≡ true
    → e.reads c.pipefd ≡ got []
    → (q : Parent) × (round e p ≡ done q)
      × (q.navail ≡ p.navail + 1)
      × (idle q.children ≡ idle p.children)
terminated_Counted e p c cs v first idle_now selected one quiet ready eof = (
  after_scan p (released c (unchanged cs)),
  round_quiet e p selected quiet
      ∙ ap (λ l. scan e e.nsel l >>= λ r. done (after_scan p r)) first
      ∙ ap (λ o. o >>= λ r. done (after_scan p r)) (scan_ended e e.nsel c cs one ready eof),
  refl,
  ground (arith, ap idle first),
)
