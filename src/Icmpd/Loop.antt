-- ===== src/Icmpd/Loop.antt =====
-- The loop of `main` in icmpd/main.cpp over the three handlers.
use network_program.Prelude.{
  ℕ, zero, suc, ◌-◌, Bool, false, not, ◌&&◌, none, some, List, [], ◌∷◌, ◌++◌, map, ◌==◌,
  if◌then◌else◌,
}
use network_program.Sys.{Outcome, done, ◌>>=◌}
use network_program.Icmpd.{
  Client, Daemon, Handed, Answer, IcmpdErr, readable_listen, readable_conn, readable_v4,
}

-- What the handlers do to descriptors: `Close`, `Write` of an answer to a client, and `Write` of an
-- error.
pub data Action : Type 0 where
  closes : ℕ → Action
  tells : ℕ → List ℕ → Action
  reports : ℕ → IcmpdErr → Action

-- One round: the result of `Select` with its set, and what `Accept`, `Recvfrom` and the calls for
-- each connection answer.
pub record Event : Type 0 where
  pub nsel : ℕ
  pub rset : ℕ → Bool
  pub accepted : ℕ
  pub packet : List ℕ
  pub handed : ℕ → Handed

-- `nready` and `allset`.
pub record Sets : Type 0 where
  pub nready : ℕ
  pub allset : ℕ → Bool

-- One entry of the table: whether the loop ends behind it.
pub record Visit : Type 0 where
  pub client : Client
  pub sets : Sets
  pub actions : List Action
  pub stop : Bool

abbrev answer_actions : ℕ → Answer → List Action
answer_actions f a = tells f a.written ∷ map closes a.closed

-- `readable_conn`, with what it does to `nready` and `allset`.
unfoldable pub answer_one : Event → ℕ → Sets → Client → Visit
answer_one e f s c =
    let a = readable_conn (e.handed f) f c in
    record {
      client = a.client;
      sets = record {
        nready = s.nready - 1;
        allset = if a.dropped then (λ g. not (f == g) && s.allset g) else s.allset;
      };
      actions = answer_actions f a;
      stop = s.nready - 1 == 0;
    }

unfoldable pub visit_one : Event → Sets → Client → Visit
unfolding answer_one
visit_one e s c =
    let kept : Visit = record { client = c; sets = s; actions = []; stop = false } in
    elim c.connfd [ none ↦ kept | some f ↦ if e.rset f then answer_one e f s c else kept ]

-- `for (i = 0; i <= maxi; ++i)`, over the entries that are left.
unfoldable pub visit : ℕ → Event → Sets → List Client → List Client × Sets × List Action
visit zero e s cs = (cs, s, [])
visit (suc k) e s [] = ([], s, [])
visit (suc k) e s (c ∷ cs) =
    let v = visit_one e s c in
    let rest = visit k e v.sets cs in
    if v.stop
    then (v.client ∷ cs, v.sets, v.actions)
    else (v.client ∷ rest.0, rest.1, v.actions ++ rest.2)

unfoldable pub visit_clients : Event → ℕ → Daemon → Daemon × List Action
visit_clients e nready d =
    let r = visit d.count e (record { nready = nready; allset = d.allset }) d.client in
    (record d { client = r.0; allset = r.1.allset }, r.2)

abbrev pub report_all : List (ℕ × IcmpdErr) → List Action
report_all ws = map (λ (w : ℕ × IcmpdErr). reports w.0 w.1) ws

-- A round from the test of `fd4` on.
unfoldable pub after_listen : Event → ℕ → Daemon → Outcome (Daemon × List Action)
after_listen e nready d =
    if e.rset d.fd4
    then (readable_v4 e.packet d >>= λ ws.
        let rest = visit_clients e (nready - 1) d in
        if nready - 1 == 0 then done (d, report_all ws) else done (rest.0, report_all ws ++ rest.1))
    else done (visit_clients e nready d)

unfoldable pub round : Event → Daemon → Outcome (Daemon × List Action)
round e d =
    if e.rset d.listenfd
    then (let r = readable_listen e.accepted d in
        if e.nsel - 1 == 0
        then done (r.0, map closes r.1)
        else (after_listen e (e.nsel - 1) r.0 >>= λ q. done (q.0, map closes r.1 ++ q.1)))
    else after_listen e e.nsel d

unfoldable pub run : List Event → Daemon → Outcome (Daemon × List Action)
run [] d = done (d, [])
run (e ∷ es) d = round e d >>= λ p. run es p.0 >>= λ q. done (q.0, p.1 ++ q.1)
