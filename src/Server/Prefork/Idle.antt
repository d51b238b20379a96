-- ===== src/Server/Prefork/Idle.antt =====
-- The count of available children.
use network_program.Prelude.{
  ℕ, suc, ◌+◌, ◌-◌, ◌<◌, ◌≤◌, ◌≡◌, refl, List, [], ◌∷◌, Option, none, some, Bool, true, false, not,
  ◌&&◌, Bool-cases, inl, inr, length, arith, ◌==◌, if◌then◌else◌,
}
use network_program.Sys.{Readable, ReadResult, got, failed, Outcome, done, exits, ◌>>=◌}
use network_program.Server.Prefork.{
  Child, Parent, Event, Scanned, assign, accept_one, scan, round, start, make_all, child_make,
  after_scan, kept, released, unchanged,
}

-- The children that are not busy.
abbrev pub idle : List Child → ℕ
idle [] = 0
idle (c ∷ cs) = if c.busy then idle cs else suc (idle cs)

-- The connections that the children were given.
abbrev pub handled : List Child → ℕ
handled [] = 0
handled (c ∷ cs) = c.count + handled cs

-- The idle children whose pipe is heard: they have ended, since only a busy child writes.
abbrev pub surplus : (ℕ → Bool) → List Child → ℕ
surplus ready [] = 0
surplus ready (c ∷ cs) = (if ready c.pipefd && not c.busy then 1 else 0) + surplus ready cs

pub record Assigned (ready : ℕ → Bool) (cs : List Child) (o : Option (List Child)) : Type 0 where
  pub children : List Child
  pub ran : o ≡ some children
  pub fewer : idle cs ≡ idle children + 1
  pub more : handled children ≡ handled cs + 1
  pub heard : surplus ready children ≤ surplus ready cs

Assigned-later :
    (ready : ℕ → Bool) (c : Child) (cs : List Child) (o : Option (List Child))
    → c.busy ≡ true
    → Assigned ready cs o
    → Assigned ready (c ∷ cs) (elim o [ none ↦ none | some ds ↦ some (c ∷ ds) ])
Assigned-later ready c cs none e a = cc a.ran
Assigned-later ready c cs (some ds) e a =
    let same : ds ≡ a.children = cc a.ran in
    record {
      children = c ∷ ds;
      ran = refl;
      fewer = rw same (ground (arith, a.fewer));
      more = rw same (omega (arith, a.more));
      heard = rw same (omega (arith, a.heard));
    }

Assigned-one :
    (ready : ℕ → Bool) (c : Child) (cs : List Child) (b : Bool)
    → c.busy ≡ b
    → 0 < idle (c ∷ cs)
    → (0 < idle cs → Assigned ready cs (assign cs))
    → Assigned ready (c ∷ cs) (
        if b
        then (elim (assign cs) [ none ↦ none | some ds ↦ some (c ∷ ds) ])
        else some (record c { busy = true; count = c.count + 1 } ∷ cs))
Assigned-one ready c cs true e some_idle ih =
    Assigned-later ready c cs (assign cs) e (ih (ground arith))
Assigned-one ready c cs false e some_idle ih = record {
  children = record c { busy = true; count = c.count + 1 } ∷ cs;
  ran = refl;
  fewer = ground arith;
  more = omega arith;
  heard = ground arith;
}

assign-Assigned : (ready : ℕ → Bool) (cs : List Child) → 0 < idle cs → Assigned ready cs (assign cs)
unfolding assign
assign-Assigned ready [] some_idle = absurd (omega arith)
assign-Assigned ready (c ∷ cs) some_idle =
    Assigned-one ready c cs c.busy refl some_idle (λ more. assign-Assigned ready cs more)

-- A scan that does not end the process: `freed` counts the children that were busy and are idle,
-- and `extra` others, which were idle.
pub record Freed (ready : ℕ → Bool) (cs : List Child) (o : Outcome Scanned) : Type 0 where
  pub end : Scanned
  pub extra : ℕ
  pub ran : o ≡ done end
  pub more : idle end.children + extra ≡ idle cs + end.freed
  pub few : extra ≤ surplus ready cs
  pub same : handled end.children ≡ handled cs

kept_Freed :
    (ready : ℕ → Bool) (c : Child) (cs : List Child) (o : Outcome Scanned)
    → Freed ready cs o
    → Freed ready (c ∷ cs) (o >>= λ r. done (kept c r))
kept_Freed ready c cs o h = rw h.ran (record {
  end = kept c h.end;
  extra = h.extra;
  ran = refl;
  more = ground (arith, h.more);
  few = omega (arith, h.few);
  same = omega (arith, h.same);
})

released-Freed :
    (ready : ℕ → Bool) (c : Child) (cs : List Child) (o : Outcome Scanned)
    → ready c.pipefd ≡ true
    → Freed ready cs o
    → Freed ready (c ∷ cs) (o >>= λ r. done (released c r))
released-Freed ready c cs o heard h = rw h.ran (record {
  end = released c h.end;
  extra = (if c.busy then 0 else 1) + h.extra;
  ran = refl;
  more = ground (arith, h.more);
  few = rw heard (ground (arith, h.few));
  same = omega (arith, h.same);
})

read_Freed :
    (ready : ℕ → Bool) (c : Child) (cs : List Child) (o : Outcome Scanned) (r : ReadResult)
    → Readable r
    → ready c.pipefd ≡ true
    → Freed ready cs o
    → Freed ready (c ∷ cs) (elim r [ failed _ ↦ exits | got _ ↦ o >>= λ r. done (released c r) ])
read_Freed ready c cs o (got bs) h heard f = released-Freed ready c cs o heard f
read_Freed ready c cs o (failed _) h heard f = elim h [ ]

stop_Freed :
    (ready : ℕ → Bool) (cs : List Child) (b : Bool) (o : Outcome Scanned)
    → Freed ready cs o
    → Freed ready cs (if b then done (unchanged cs) else o)
stop_Freed ready cs true o h = record {
  end = _;
  extra = 0;
  ran = refl;
  more = omega arith;
  few = omega arith;
  same = refl;
}
stop_Freed ready cs false o h = h

scan-Freed :
    (e : Event) (nsel : ℕ) (cs : List Child)
    → ((f : ℕ) → Readable (e.reads f))
    → Freed e.rset cs (scan e nsel cs)
unfolding scan
scan-Freed e nsel [] readable = record {
  end = _;
  extra = 0;
  ran = refl;
  more = refl;
  few = omega arith;
  same = refl;
}
scan-Freed e nsel (c ∷ cs) readable = elim (Bool-cases (e.rset c.pipefd)) [
  | inl ready ↦ rw ready (
      read_Freed e.rset c cs _ (e.reads c.pipefd) (readable c.pipefd) ready
        (stop_Freed e.rset cs (nsel == 1) _ (scan-Freed e (nsel - 1) cs readable)))
  | inr waiting ↦ rw waiting (kept_Freed e.rset c cs _ (scan-Freed e nsel cs readable))
]

-- The parent is in order.
abbrev pub IsCounted : Parent → Type 0
IsCounted p = p.navail ≡ idle p.children

-- A parent that goes on, after a given number of connections, with `navail` by `d` above the
-- number of idle children, and by at most `k` more.
abbrev pub Counted : ℕ → ℕ → ℕ → Outcome Parent → Type 0
Counted n d k o =
    (q : Parent) × (extra : ℕ) × (o ≡ done q)
    × (q.navail ≡ idle q.children + d + extra)
    × (extra ≤ k)
    × (handled q.children ≡ n)

-- No call of a round fails.
pub record Works (e : Event) : Type 0 where
  pub selects : e.selects ≡ true
  pub accepts : e.accepts ≡ true
  pub hands_over : e.hands_over ≡ true
  pub closes : e.closes ≡ true
  pub readable : (f : ℕ) → Readable (e.reads f)

scanned :
    (e : Event) (nsel : ℕ) (p : Parent) (n d k : ℕ)
    → p.navail ≡ idle p.children + d
    → handled p.children ≡ n
    → surplus e.rset p.children ≤ k
    → ((f : ℕ) → Readable (e.reads f))
    → Counted n d k (scan e nsel p.children >>= λ r. done (after_scan p r))
scanned e nsel p n d k v same few readable =
    let f = scan-Freed e nsel p.children readable in
    rw f.ran (
      after_scan p f.end,
      f.extra,
      refl,
      omega (arith, f.more, v),
      omega (arith, f.few, few),
      omega (arith, f.same, same),
    )

rest_Counted :
    (n d k : ℕ) (q : Parent) (b : Bool) (o : Outcome Parent)
    → Counted n d k (done q)
    → Counted n d k o
    → Counted n d k (if b then done q else o)
rest_Counted n d k q true o h l = h
rest_Counted n d k q false o h l = l

accepted_Counted :
    (e : Event) (p : Parent) (d : ℕ)
    → p.navail ≡ idle p.children + d
    → 0 < idle p.children
    → Works e
    → Counted (handled p.children + 1) d (surplus e.rset p.children) (
        accept_one e p >>= λ q.
        let rest = scan e (e.nsel - 1) q.children >>= λ r. done (after_scan q r) in
        if e.nsel == 1 then done q else rest)
unfolding accept_one
accepted_Counted e p d v some_idle w =
    let a = assign-Assigned e.rset p.children some_idle in
    let q : Parent = record p { children = a.children; navail = p.navail - 1 } in
    let fine : q.navail ≡ idle q.children + d = omega (arith, v, a.fewer) in
    simp (w.accepts, a.ran, w.hands_over, w.closes)
      (rest_Counted _ d _ q (e.nsel == 1) _ (q, 0, refl, omega (arith, fine), omega arith, a.more)
        (scanned e (e.nsel - 1) q _ d _ fine a.more a.heard w.readable))

-- Where no call fails, and some child is idle when the listening socket is heard, a round does not
-- end the process, and the children have been given one connection more if and only if one was
-- accepted. `navail` then exceeds the number of idle children by what it exceeded it before, and by
-- at most one for every idle child whose pipe was heard: it stays that number where it was, as long
-- as only busy children are heard.
pub round-Counted :
    (e : Event) (p : Parent) (d : ℕ)
    → p.navail ≡ idle p.children + d
    → (e.rset p.listenfd ≡ true → 0 < idle p.children)
    → Works e
    → Counted
        (handled p.children + (if e.rset p.listenfd then 1 else 0))
        d
        (surplus e.rset p.children)
        (round e p)
unfolding round
round-Counted e p d v on w = elim (Bool-cases (e.rset p.listenfd)) [
  | inl ready ↦ simp (w.selects, ready) (accepted_Counted e p d v (on ready) w)
  | inr waiting ↦
      simp (w.selects, waiting) (scanned e e.nsel p _ d _ v (omega arith) (omega arith) w.readable)
]

make_all-Counted :
    (ks : List (ℕ × ℕ)) (p : Parent)
    → ((make_all ks p).navail ≡ p.navail)
      × (idle (make_all ks p).children ≡ length ks + idle p.children)
      × (handled (make_all ks p).children ≡ handled p.children)
unfolding make_all child_make
make_all-Counted [] p = (refl, omega arith, refl)
make_all-Counted (k ∷ ks) p =
    let (same, more, none_yet) = make_all-Counted ks _ in
    (same, omega (arith, more), omega (arith, none_yet))

-- When all children have been made, `navail` is the number of idle children, which is the number
-- of children.
pub start-Counted :
    (l : ℕ) (ks : List (ℕ × ℕ)) → IsCounted (start l ks) × (idle (start l ks).children ≡ length ks)
unfolding start
start-Counted l ks =
    let p : Parent = record {
      listenfd = l;
      children = [];
      navail = length ks;
      masterset = λ f. l == f;
      maxfd = l;
    } in
    let (same, more, none_yet) = make_all-Counted ks p in
    (omega (arith, same, more), omega (arith, more))
