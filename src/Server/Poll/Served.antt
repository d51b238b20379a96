-- ===== src/Server/Poll/Served.antt =====
-- The poll server serves every client that `poll` reports, a new connection in the same round or not.
use network_program.Prelude.{
  ℕ, zero, suc, ◌+◌, ◌-◌, ◌≤◌, ◌≡◌, ◌⊎◌, inl, inr, refl, ap, sym, ◌∙◌, List, [], ◌∷◌, length, map,
  Option, none, some, true, false, Bool-cases, arith, leb, ltb, if◌then◌else◌,
}
use mathlib.Core.Path.{subst}
use network_program.Sys.{Outcome, done, exits}
use network_program.Server.Table.{
  Table, take_entry, Entry, take_entry-Entry, full, found, Full, Takes-length, Takes-lt, here,
  there,
}
use network_program.Server.Table as Table
use network_program.Server.Poll.{
  Server, Event, Service, Scan, clients, rdnorm, readable, poll, scan, admit, after_scan, round,
}
use network_program.Server.Poll.Scanned.{ready, Known, due, Answered, Serves, dues, scan-Serves}

-- The clients among the first `k` elements for which `poll` reports that they are readable.
abbrev pub ready_fds : (ℕ → ℕ) → ℕ → Table → List ℕ
ready_fds report zero fds = []
ready_fds report (suc k) [] = []
ready_fds report (suc k) (none ∷ fds) = ready_fds report k fds
ready_fds report (suc k) (some f ∷ fds) =
    if readable (report f) then f ∷ ready_fds report k fds else ready_fds report k fds

-- After `poll`, and with a new connection in a free element.
poll-ready :
    (report : ℕ → ℕ) (k : ℕ) (fds : Table) (rs : List (Option ℕ))
    → length fds ≡ length rs
    → k ≤ length fds
    → Known k fds (poll report k fds rs)
      × (ready k fds (poll report k fds rs) ≡ ready_fds report k fds)
poll-ready report zero fds rs same h = (tt, refl)
poll-ready report (suc k) [] rs same h = absurd (omega (arith, h))
poll-ready report (suc k) (c ∷ fds) [] same h = absurd (omega (arith, same))
poll-ready report (suc k) (none ∷ fds) (r ∷ rs) same h =
    poll-ready report k fds rs (omega (arith, same)) (omega (arith, h))
poll-ready report (suc k) (some f ∷ fds) (r ∷ rs) same h =
    let rest = poll-ready report k fds rs (omega (arith, same)) (omega (arith, h)) in
    (rest.0, rw rest.1 refl)

admit-ready :
    {f i : ℕ} {fds t : Table} (report : ℕ → ℕ) (k : ℕ) (rs : List (Option ℕ))
    → Table.Takes f fds i t
    → length fds ≡ length rs
    → k ≤ length fds
    → Known k t (poll report k fds rs) × (ready k t (poll report k fds rs) ≡ ready_fds report k fds)
admit-ready report zero rs takes same h = (tt, refl)
admit-ready report (suc k) [] here same h = absurd (omega (arith, same))
admit-ready report (suc k) (r ∷ rs) (here {cs = cs}) same h =
    poll-ready report k cs rs (omega (arith, same)) (omega (arith, h))
admit-ready report (suc k) [] (there takes) same h = absurd (omega (arith, same))
admit-ready report (suc k) (r ∷ rs) (there takes) same h =
    let rest = admit-ready report k rs takes (omega (arith, same)) (omega (arith, h)) in
    (rest.0, rw rest.1 refl)

poll-length :
    (report : ℕ → ℕ) (k : ℕ) (fds : Table) (rs : List (Option ℕ))
    → length (poll report k fds rs) ≡ length rs
poll-length report zero fds rs = refl
poll-length report (suc k) [] rs = refl
poll-length report (suc k) (none ∷ fds) [] = refl
poll-length report (suc k) (some f ∷ fds) [] = refl
poll-length report (suc k) (none ∷ fds) (r ∷ rs) = ap suc (poll-length report k fds rs)
poll-length report (suc k) (some f ∷ fds) (r ∷ rs) = ap suc (poll-length report k fds rs)

pub record IsServer (s : Server) : Type 0 where
  pub sized : length s.fds ≡ clients
  pub same : length s.fds ≡ length s.revents
  pub inside : s.maxi ≤ clients

-- The clients that `poll` reports in this round.
abbrev pub reported : Event → Server → List ℕ
reported e s = ready_fds e.report s.maxi s.fds

-- The round has served these clients, and the server can go on.
abbrev pub RoundServes : Outcome (Server × List Service) → List Service → Type 0
RoundServes o vs = (t : Server) × (o ≡ done (t, vs)) × IsServer t

after_scan-Serves :
    (s : Server) (o : Outcome Scan) (vs : List Service)
    → IsServer s
    → Serves (length s.fds) o vs
    → RoundServes (after_scan s o) vs
after_scan-Serves s o vs is (r, ran, e, sized) = (
  record s { fds = r.0 },
  rw (ran, e) refl,
  record { sized = sized ∙ is.sized; same = sized ∙ is.same; inside = is.inside },
)

-- A round without a new connection.
round-old :
    (e : Event) (s : Server)
    → IsServer s
    → ((f : ℕ) → Answered (e.reads f) (e.writes f))
    → rdnorm e.listener ≡ false
    → 1 ≤ e.nready
    → length (reported e s) ≡ e.nready
    → RoundServes (round e s) (dues e (reported e s))
unfolding round
round-old e s is answered old some_ready counted =
    let rs = poll e.report s.maxi s.fds s.revents in
    let polled : Server = record s { revents = rs } in
    let known =
      poll-ready e.report s.maxi s.fds s.revents is.same (omega (arith, is.inside, is.sized)) in
    let total : length (ready s.maxi s.fds rs) ≡ e.nready = rw known.1 counted in
    let scanned : Serves (length s.fds) (scan e s.maxi e.nready s.fds rs) (dues e (reported e s)) =
      subst (λ fs. Serves (length s.fds) (scan e s.maxi e.nready s.fds rs) (dues e fs)) known.1
        (scan-Serves e s.maxi s.maxi e.nready s.fds rs answered (omega arith) known.0 total
          some_ready) in
    rw old (
      after_scan-Serves polled (scan e s.maxi e.nready s.fds rs) (dues e (reported e s))
        (record {
          sized = is.sized;
          same = is.same ∙ sym (poll-length e.report s.maxi s.fds s.revents);
          inside = is.inside;
        })
        scanned)

empty : {A : Type 0} (xs : List A) → length xs ≡ 0 → xs ≡ []
empty [] e = refl
empty (x ∷ xs) e = absurd (omega (arith, e))

-- What follows `if (--nready <= 0) continue;` after a new connection.
admitted-Serves :
    (e : Event) (s : Server) (f i m : ℕ) (t : Table)
    → IsServer s
    → ((f : ℕ) → Answered (e.reads f) (e.writes f))
    → suc (length (reported e s)) ≡ e.nready
    → Table.Takes f s.fds i t
    → s.maxi ≤ m
    → m ≤ clients
    → let rs = poll e.report s.maxi s.fds s.revents in
      let u : Server = record { maxi = m; fds = t; revents = rs } in
      RoundServes
        (if leb e.nready 1 then done (u, []) else after_scan u (scan e m (e.nready - 1) t rs))
        (dues e (reported e s))
admitted-Serves e s f i m t is answered counted takes low high =
    let rs = poll e.report s.maxi s.fds s.revents in
    let u : Server = record { maxi = m; fds = t; revents = rs } in
    let known =
      admit-ready e.report s.maxi s.revents takes is.same (omega (arith, is.inside, is.sized)) in
    let good : IsServer u = record {
      sized = Takes-length takes ∙ is.sized;
      same = Takes-length takes ∙ is.same ∙ sym (poll-length e.report s.maxi s.fds s.revents);
      inside = high;
    } in
    elim (Bool-cases (leb e.nready 1)) [
      | inl alone ↦
          let none_ready : reported e s ≡ [] =
            empty (reported e s) (ground (arith, counted, alone)) in
          rw (alone, none_ready) (u, refl, good)
      | inr more ↦
          let left : length (ready s.maxi t rs) ≡ e.nready - 1 =
            omega (arith, counted, ap length known.1) in
          let scanned : Serves (length t) (scan e m (e.nready - 1) t rs) (dues e (reported e s)) =
            subst (λ fs. Serves (length t) (scan e m (e.nready - 1) t rs) (dues e fs)) known.1
              (scan-Serves e s.maxi m (e.nready - 1) t rs answered low known.0 left
                (ground (arith, more))) in
          rw more (
            after_scan-Serves u (scan e m (e.nready - 1) t rs) (dues e (reported e s)) good scanned)
    ]

-- The free element that a new connection gets, or there is none.
abbrev Admits : Server → ℕ → Type 0
Admits s f =
    (Full s.fds × (admit (some f) s ≡ exits))
    ⊎ ((i : ℕ) × (t : Table) × Table.Takes f s.fds i t
        × (admit (some f) s
            ≡ done (record s { fds = t; maxi = if ltb s.maxi (i + 1) then i + 1 else s.maxi })))

admit-Admits : (s : Server) (f : ℕ) → Admits s f
unfolding admit
admit-Admits s f = find (take_entry s.fds f) refl (take_entry-Entry s.fds f)
  where
    find : (o : Option (ℕ × Table)) → take_entry s.fds f ≡ o → Entry s.fds f o → Admits s f
    find none taken (full h) = inl (h, rw (admit, taken) refl)
    find (some (i, t)) taken (found takes) = inr (i, t, takes, rw (admit, taken) refl)

-- A round with a new connection.
round-new :
    (e : Event) (s : Server) (f : ℕ)
    → IsServer s
    → ((f : ℕ) → Answered (e.reads f) (e.writes f))
    → rdnorm e.listener ≡ true
    → e.connfd ≡ some f
    → suc (length (reported e s)) ≡ e.nready
    → (Full s.fds × (round e s ≡ exits)) ⊎ RoundServes (round e s) (dues e (reported e s))
unfolding round
round-new e s f is answered new connected counted =
    let polled : Server = record s { revents = poll e.report s.maxi s.fds s.revents } in
    elim (admit-Admits polled f) [
      | inl (h, ended) ↦ inl (h, rw (new, connected, ended) refl)
      | inr (i, t, takes, went) ↦
          let high : i + 1 ≤ clients = omega (arith, Takes-lt takes, is.sized) in
          let m = if ltb s.maxi (i + 1) then i + 1 else s.maxi in
          inr (
            rw (new, connected, went)
              (admitted-Serves e s f i m t is answered counted takes (ground (arith, high))
                (ground (arith, high, is.inside))))
    ]

-- Where `poll` counted the listening socket, if it has a connection, and the clients that can be read, at
-- least one in all, and the kernel takes what is written to them, a round serves each of these clients,
-- once and in the order of the array, and leaves an array that the next round can work on; only a new
-- connection that finds the array full ends the server instead.
pub round-serves :
    (e : Event) (s : Server) (f : ℕ)
    → IsServer s
    → ((g : ℕ) → Answered (e.reads g) (e.writes g))
    → e.connfd ≡ some f
    → 1 ≤ e.nready
    → (if rdnorm e.listener then 1 else 0) + length (reported e s) ≡ e.nready
    → (Full s.fds × (rdnorm e.listener ≡ true) × (round e s ≡ exits))
      ⊎ RoundServes (round e s) (map (λ g. due g (e.reads g)) (reported e s))
round-serves e s f is answered connected some_ready counted =
    elim (Bool-cases (rdnorm e.listener)) [
      | inl new ↦
          let one : suc (length (reported e s)) ≡ e.nready = omega (arith, rw new at counted) in
          elim (round-new e s f is answered new connected one) [
            | inl (h, ended) ↦ inl (h, new, ended)
            | inr served ↦ inr served
          ]
      | inr old ↦
          let all : length (reported e s) ≡ e.nready = omega (arith, rw old at counted) in
          inr (round-old e s is answered old some_ready all)
    ]
