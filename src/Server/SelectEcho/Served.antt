-- ===== src/Server/SelectEcho/Served.antt =====
-- The select server serves every client that `select` reports, and nobody else.
use network_program.Prelude.{
  ℕ, zero, suc, ◌-◌, ◌≤◌, ◌<◌, ◌≡◌, refl, ap, List, [], ◌∷◌, ◌++◌, length, map, Option, none, some,
  true, Bool-cases, inl, inr, arith, ltb, if◌then◌else◌,
}
use network_program.Sys.{Readable, ReadResult, got, failed, Outcome, done, exits, ◌>>=◌}
use network_program.Server.Table.{Table}
use network_program.Server.SelectEcho.{
  FdSet, fd_clr, Event, Service, echoed, closed, Scan, before, continue_if, scan,
}

-- The clients among the first `k` entries that are ready, in the order of the table.
abbrev pub ready_fds : Event → ℕ → Table → List ℕ
ready_fds e zero cs = []
ready_fds e (suc k) [] = []
ready_fds e (suc k) (none ∷ cs) = ready_fds e k cs
ready_fds e (suc k) (some f ∷ cs) = if e.rset f then f ∷ ready_fds e k cs else ready_fds e k cs

-- What a ready client is due: its bytes, or the close of the connection after its own.
abbrev pub due : Event → ℕ → Service
due e f = elim (e.reads f) [ got (b ∷ bs) ↦ echoed f (b ∷ bs) | _ ↦ closed f ]

abbrev Serves : Outcome Scan → List Service → Type 0
Serves o vs = (r : Scan) × (o ≡ done r) × (r.services ≡ vs)

then_Serves :
    (o : Outcome Scan) (c : Option ℕ) (ws vs : List Service)
    → Serves o vs
    → Serves (o >>= λ r. done (before c ws r)) (ws ++ vs)
then_Serves o c ws vs (r, ran, e) = (before c ws r, rw ran refl, ap (λ l. ws ++ l) e)

continue_Serves :
    (nready : ℕ) (o : Outcome Scan) (cs : Table) (set : FdSet) (fs : List ℕ) (e : Event)
    → length fs < nready
    → Serves o (map (due e) fs)
    → Serves (continue_if (ltb 1 nready) o cs set) (map (due e) fs)
continue_Serves nready o cs set [] e enough h = elim (Bool-cases (ltb 1 nready)) [
  | inl more ↦ rw more h
  | inr last ↦ rw last (_, refl, refl)
]
continue_Serves nready o cs set (f ∷ fs) e enough h =
    let more : ltb 1 nready ≡ true = ground arith in rw more h

serve_due :
    (e : Event) (f : ℕ) (x : ReadResult) (on off : Outcome Scan) (vs : List Service)
    → Readable x
    → e.reads f ≡ x
    → Serves on vs
    → Serves off vs
    → Serves
        (elim x [
          | failed _ ↦ exits
          | got [] ↦ off >>= λ r. done (before none (closed f ∷ []) r)
          | got (b ∷ bs) ↦ on >>= λ r. done (before (some f) (echoed f (b ∷ bs) ∷ []) r)
        ])
        (due e f ∷ vs)
serve_due e f (failed y) on off vs readable eq hon hoff = absurd readable
serve_due e f (got []) on off vs readable eq hon hoff =
    rw (eq, due) (then_Serves off none (closed f ∷ []) vs hoff)
serve_due e f (got (b ∷ bs)) on off vs readable eq hon hoff =
    rw (eq, due) (then_Serves on (some f) (echoed f (b ∷ bs) ∷ []) vs hon)

-- If `select` counted at least the ready clients, and none of these reads fails, a scan ends with
-- exactly the ready clients among the scanned entries served, once each and in the order of the
-- table, each with its bytes back or with the close of its connection: the early stop on `nready`
-- skips nobody.
pub scan-serves :
    (e : Event) (k nready : ℕ) (set : FdSet) (cs : Table)
    → ((f : ℕ) → Readable (e.reads f))
    → length (ready_fds e k cs) ≤ nready
    → (r : Scan) × (scan e k nready set cs ≡ done r) × (r.services ≡ map (due e) (ready_fds e k cs))
unfolding scan
scan-serves e zero nready set cs readable enough = (_, refl, refl)
scan-serves e (suc k) nready set [] readable enough = (_, refl, refl)
scan-serves e (suc k) nready set (none ∷ cs) readable enough =
    then_Serves _ none [] _ (scan-serves e k nready set cs readable enough)
scan-serves e (suc k) nready set (some f ∷ cs) readable enough = elim (Bool-cases (e.rset f)) [
  | inl ready ↦
      let fits : length (ready_fds e k cs) < nready = rw ready at enough in
      rw ready (
        serve_due e f (e.reads f) _ _ _ (readable f) refl
          (continue_Serves nready _ cs set (ready_fds e k cs) e fits
            (scan-serves e k (nready - 1) set cs readable (omega (arith, fits))))
          (continue_Serves nready _ cs (fd_clr f set) (ready_fds e k cs) e fits
            (scan-serves e k (nready - 1) (fd_clr f set) cs readable (omega (arith, fits)))))
  | inr idle ↦
      let fits : length (ready_fds e k cs) ≤ nready = rw idle at enough in
      rw idle (then_Serves _ (some f) [] _ (scan-serves e k nready set cs readable fits))
]
