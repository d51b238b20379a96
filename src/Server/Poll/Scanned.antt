-- ===== src/Server/Poll/Scanned.antt =====
-- A scan of the poll server over the clients that `poll` has counted.
use network_program.Prelude.{
  ℕ, zero, suc, ◌-◌, ◌^◌, ◌≤◌, ◌<◌, ◌≡◌, inl, inr, refl, ap, List, [], ◌∷◌, ◌++◌, length, map,
  Option, none, some, true, false, Bool-cases, arith, leb, if◌then◌else◌,
}
use network_program.Sys.{ReadResult, got, failed, WriteResult, Outcome, done, ◌>>=◌}
use network_program.Stream.Writen.Spec.{Takes, accepted, writen_or_exit-bind}
use network_program.Server.Table.{Table}
use network_program.Server.Poll.{
  Event, Service, echoed, closed, ignored, Scan, readable, before, writen_failed, serve, scan,
}

-- The clients among the first `k` elements whose `revents` say that they are readable.
abbrev pub ready : ℕ → Table → List (Option ℕ) → List ℕ
ready zero fds rs = []
ready (suc k) (some f ∷ fds) (some r ∷ rs) =
    if readable r then f ∷ ready k fds rs else ready k fds rs
ready (suc k) (c ∷ fds) (r ∷ rs) = ready k fds rs
ready (suc k) fds rs = []

-- Of the first `k` elements each has `revents`, if it has a descriptor.
abbrev pub Known : ℕ → Table → List (Option ℕ) → Type 0
Known zero fds rs = Unit
Known (suc k) (some f ∷ fds) (none ∷ rs) = ⊥
Known (suc k) (c ∷ fds) (r ∷ rs) = Known k fds rs
Known (suc k) fds rs = ⊥

-- What a client is due whose `read` returned this, and what becomes of its entry.
abbrev pub due : ℕ → ReadResult → Service
due f (got (b ∷ bs)) = echoed f (b ∷ bs)
due f (got []) = closed f
due f (failed _) = ignored f

abbrev kept : ℕ → ReadResult → Option ℕ
kept f (got []) = none
kept f x = some f

-- `read` returns no more than `buf` holds, and the kernel takes all that the server writes; after a
-- failed `read` it takes nothing.
abbrev pub Answered : ReadResult → List WriteResult → Type 0
Answered (got bs) ws = (length bs < 2 ^ 63) × Takes (length bs) ws × (length bs ≤ accepted ws)
Answered (failed e) ws = writen_failed ws ≡ done tt

serve-due :
    (f : ℕ) (x : ReadResult) (ws : List WriteResult)
    → Answered x ws
    → serve f x ws ≡ done (kept f x, due f x ∷ [])
unfolding serve
serve-due f (failed e) ws answered = rw answered refl
serve-due f (got []) ws answered = refl
serve-due f (got (b ∷ bs)) ws answered =
    writen_or_exit-bind (b ∷ bs) ws (λ sent. done (some f, echoed f sent ∷ [])) answered.0
      answered.1 answered.2

-- A scan that ends with as many elements and with these services.
abbrev pub Serves : ℕ → Outcome Scan → List Service → Type 0
Serves n o vs = (r : Scan) × (o ≡ done r) × (r.1 ≡ vs) × (length r.0 ≡ n)

before-Serves :
    (n : ℕ) (c : Option ℕ) (ws : List Service) (o : Outcome Scan) (vs : List Service)
    → Serves n o vs
    → Serves (suc n) (o >>= λ s. done (before c ws s)) (ws ++ vs)
before-Serves n c ws o vs (r, ran, e, sized) =
    (before c ws r, rw ran refl, ap (λ l. ws ++ l) e, ap suc sized)

abbrev pub dues : Event → List ℕ → List Service
dues e fs = map (λ f. due f (e.reads f)) fs

-- After the last client that `poll` counted, the scan stops, before it goes on to the next element.
stop-Serves :
    (e : Event) (nready : ℕ) (fds : Table) (o : Outcome Scan) (fs : List ℕ)
    → suc (length fs) ≡ nready
    → (1 ≤ length fs → Serves (length fds) o (dues e fs))
    → Serves (length fds) (if leb nready 1 then done (fds, []) else o) (dues e fs)
stop-Serves e nready fds o [] counted rest =
    let last : leb nready 1 ≡ true = ground (arith, counted) in rw last (_, refl, refl, refl)
stop-Serves e nready fds o (f ∷ fs) counted rest =
    let more : leb nready 1 ≡ false = ground (arith, counted) in rw more (rest (omega arith))

-- A scan over `m` elements, where `poll` has counted the readable ones among the first `k`.
pub scan-Serves :
    (e : Event) (k m nready : ℕ) (fds : Table) (rs : List (Option ℕ))
    → ((f : ℕ) → Answered (e.reads f) (e.writes f))
    → k ≤ m
    → Known k fds rs
    → length (ready k fds rs) ≡ nready
    → 1 ≤ nready
    → Serves (length fds) (scan e m nready fds rs) (dues e (ready k fds rs))
unfolding scan
scan-Serves e zero m nready fds rs answered h known counted some_ready =
    absurd (omega (arith, counted, some_ready))
scan-Serves e (suc k) zero nready fds rs answered h known counted some_ready =
    absurd (omega (arith, h))
scan-Serves e (suc k) (suc m) nready [] rs answered h known counted some_ready = elim known [ ]
scan-Serves e (suc k) (suc m) nready (none ∷ fds) [] answered h known counted some_ready =
    elim known [ ]
scan-Serves e (suc k) (suc m) nready (some f ∷ fds) [] answered h known counted some_ready =
    elim known [ ]
scan-Serves e (suc k) (suc m) nready (none ∷ fds) (r ∷ rs) answered h known counted some_ready =
    before-Serves (length fds) none [] (scan e m nready fds rs) (dues e (ready k fds rs))
      (scan-Serves e k m nready fds rs answered (omega (arith, h)) known counted some_ready)
scan-Serves e (suc k) (suc m) nready (some f ∷ fds) (none ∷ rs) answered h known counted
      some_ready =
    elim known [ ]
scan-Serves e (suc k) (suc m) nready (some f ∷ fds) (some r ∷ rs) answered h known counted
      some_ready =
    elim (Bool-cases (readable r)) [
      | inl hot ↦
          let fs = ready k fds rs in
          let one : suc (length fs) ≡ nready = rw hot at counted in
          rw (hot, serve-due f (e.reads f) (e.writes f) (answered f))
            (before-Serves (length fds) (kept f (e.reads f)) (due f (e.reads f) ∷ []) _ (dues e fs)
              (stop-Serves e nready fds (scan e m (nready - 1) fds rs) fs one (λ more.
                scan-Serves e k m (nready - 1) fds rs answered (omega (arith, h)) known
                  (omega (arith, one)) (omega (arith, one, more)))))
      | inr idle ↦ rw idle (
          before-Serves (length fds) (some f) [] (scan e m nready fds rs) (dues e (ready k fds rs))
            (scan-Serves e k m nready fds rs answered (omega (arith, h)) known (rw idle at counted)
              some_ready))
    ]
