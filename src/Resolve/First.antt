-- ===== src/Resolve/First.antt =====
-- What the four functions promise: the first candidate that works, and no descriptor left open
-- but the one that is returned.
use network_program.Prelude.{
  ℕ, ◌≡◌, ◌⊎◌, inl, inr, refl, sym, ap, Bool, true, false, Option, none, some, List, [], ◌∷◌, ◌++◌,
  if◌then◌else◌,
}
use network_program.Sys.{Outcome, done, exits, waits, fault, ◌>>=◌}
use network_program.Resolve.{
  Candidate, Found, found_at, close_and, resolved, tcp_connect, tcp_connect_loop, tcp_listen,
  tcp_listen_loop, udp_client, udp_client_loop, udp_server, udp_server_loop,
}

-- A candidate for which there is no socket, or whose socket is of no use.
abbrev pub Unusable : (Candidate → Bool) → Candidate → Type 0
Unusable ok c = (c.socket ≡ none) ⊎ (ok c ≡ false)

abbrev pub AllOf : (Candidate → Type 0) → List Candidate → Type 0
AllOf P [] = Unit {0}
AllOf P (c ∷ cs) = P c × AllOf P cs

abbrev pub opened : Option ℕ → List ℕ → List ℕ
opened none fs = fs
opened (some f) fs = f ∷ fs

-- The descriptors that `socket` returned for the candidates.
abbrev pub descriptors : List Candidate → List ℕ
descriptors [] = []
descriptors (c ∷ cs) = opened c.socket (descriptors cs)

-- The first candidate that works is returned, after the sockets of all before it were closed; the
-- process ends where none works.
pub data First (ok : Candidate → Bool) (cs : List Candidate) : Outcome Found → Type 0 where
  nothing : AllOf (Unusable ok) cs → First ok cs exits
  works :
      (front back : List Candidate) (c : Candidate) (f : ℕ)
      → cs ≡ front ++ c ∷ back
      → AllOf (Unusable ok) front
      → c.socket ≡ some f
      → ok c ≡ true
      → First ok cs (done (record { fd = f; addrlen = c.addrlen; closed = descriptors front }))

abbrev add_closed : Option ℕ → Found → Found
add_closed o r = record r { closed = opened o r.closed }

-- A candidate that is passed over.
passed :
    {ok : Candidate → Bool} {cs : List Candidate} {o : Outcome Found} (c : Candidate)
    → Unusable ok c
    → First ok cs o
    → First ok (c ∷ cs) (o >>= λ r. done (add_closed c.socket r))
passed c u (nothing h) = nothing (u, h)
passed c u (works front back d f e h at good) =
    works (c ∷ front) back d f (ap (λ l. c ∷ l) e) (u, h) at good

-- A loop that closes what it does not use.
abbrev step : (Candidate → Bool) → Candidate → Option ℕ → Outcome Found → Outcome Found
step ok c s rest = elim s [
  | none ↦ rest
  | some f ↦ if ok c then found_at c f else close_and c f rest
]

passed_at :
    {ok : Candidate → Bool} {cs : List Candidate} {o : Outcome Found} (c : Candidate) (s : Option ℕ)
    → c.socket ≡ s
    → Unusable ok c
    → First ok cs o
    → First ok (c ∷ cs) (o >>= λ r. done (add_closed s r))
passed_at c s e u h = rw (sym e) (passed c u h)

bind_done : (o : Outcome Found) → (o >>= λ r. done (add_closed none r)) ≡ o
bind_done (done r) = refl
bind_done exits = refl
bind_done waits = refl
bind_done fault = refl

closes_then :
    (c : Candidate) (f : ℕ) (o : Outcome Found)
    → c.close ≡ true
    → close_and c f o ≡ (o >>= λ r. done (add_closed (some f) r))
unfolding close_and
closes_then c f o closes = rw closes refl

used :
    {ok : Candidate → Bool} {cs : List Candidate} (c : Candidate) (f : ℕ) (b : Bool)
    → ok c ≡ b
    → c.socket ≡ some f
    → c.close ≡ true
    → {o : Outcome Found} → First ok cs o
    → First ok (c ∷ cs) (if b then found_at c f else close_and c f o)
used {cs = cs} c f true good e closes h = works [] cs c f refl tt e good
used c f false bad e closes {o} h =
    rw (closes_then c f o closes) (passed_at c (some f) e (inr bad) h)

step-First :
    (ok : Candidate → Bool) (cs : List Candidate) (o : Outcome Found) (c : Candidate) (s : Option ℕ)
    → c.socket ≡ s
    → c.close ≡ true
    → First ok cs o
    → First ok (c ∷ cs) (step ok c s o)
step-First ok cs o c none e closes h = rw (sym (bind_done o)) (passed_at c none e (inl e) h)
step-First ok cs o c (some f) e closes h = used c f (ok c) refl e closes h

-- `Close` and `Setsockopt` do not fail on the candidates' sockets.
abbrev pub Sound : Candidate → Type 0
Sound c = (c.close ≡ true) × (c.setsockopt ≡ true)

tcp_connect_loop-First :
    (cs : List Candidate) → AllOf Sound cs → First (λ c. c.connect) cs (tcp_connect_loop cs)
unfolding tcp_connect_loop
tcp_connect_loop-First [] h = nothing tt
tcp_connect_loop-First (c ∷ cs) h =
    step-First (λ c. c.connect) cs _ c c.socket refl h.0.0 (tcp_connect_loop-First cs h.1)

tcp_listen_step :
    (c : Candidate) (s : Option ℕ) (o : Outcome Found) (b : Bool)
    → c.setsockopt ≡ b
    → b ≡ true
    → step (λ c. c.bind) c s o ≡ (elim s [
      | none ↦ o
      | some f ↦ if b then (if c.bind then found_at c f else close_and c f o) else exits
    ])
tcp_listen_step c none o true e h = refl
tcp_listen_step c (some f) o true e h = refl
tcp_listen_step c s o false e h = cc h

tcp_listen_loop-First :
    (cs : List Candidate) → AllOf Sound cs → First (λ c. c.bind) cs (tcp_listen_loop cs)
unfolding tcp_listen_loop
tcp_listen_loop-First [] h = nothing tt
tcp_listen_loop-First (c ∷ cs) h =
    rw (sym (tcp_listen_step c c.socket (tcp_listen_loop cs) c.setsockopt refl h.0.1))
      (step-First (λ c. c.bind) cs _ c c.socket refl h.0.0 (tcp_listen_loop-First cs h.1))

udp_client_loop-First :
    (cs : List Candidate) → AllOf Sound cs → First (λ c. true) cs (udp_client_loop cs)
unfolding udp_client_loop
udp_client_loop-First [] h = nothing tt
udp_client_loop-First (c ∷ cs) h =
    step-First (λ c. true) cs _ c c.socket refl h.0.0 (udp_client_loop-First cs h.1)

udp_server_loop-First :
    (cs : List Candidate) → AllOf Sound cs → First (λ c. c.bind) cs (udp_server_loop cs)
unfolding udp_server_loop
udp_server_loop-First [] h = nothing tt
udp_server_loop-First (c ∷ cs) h =
    step-First (λ c. c.bind) cs _ c c.socket refl h.0.0 (udp_server_loop-First cs h.1)

-- Over a list of candidates on whose sockets `Close` does not fail, `tcp_connect` returns the
-- socket of the first candidate that could be connected, with the sockets of all before it
-- closed, and it ends the process where there is none.
pub tcp_connect-First :
    (c : Candidate) (cs : List Candidate)
    → AllOf Sound (c ∷ cs)
    → First (λ c. c.connect) (c ∷ cs) (tcp_connect (some (c ∷ cs)))
unfolding tcp_connect resolved
tcp_connect-First c cs h = tcp_connect_loop-First (c ∷ cs) h

-- Over a list of candidates on whose sockets `Close` and `Setsockopt` do not fail, `tcp_listen`
-- returns the socket of the first candidate that could be bound, and `udp_server` the same, with
-- the sockets of all before it closed, if `listen` does not fail; `udp_client` returns the first
-- socket that could be made, if memory does not run out; each ends the process where there is
-- none.
pub servers-First :
    (c : Candidate) (cs : List Candidate)
    → AllOf Sound (c ∷ cs)
    → First (λ c. c.bind) (c ∷ cs) (tcp_listen true (some (c ∷ cs)))
      × First (λ c. c.bind) (c ∷ cs) (udp_server (some (c ∷ cs)))
      × First (λ c. true) (c ∷ cs) (udp_client true (some (c ∷ cs)))
unfolding tcp_listen udp_client udp_server resolved
servers-First c cs h = (
  rw (bind_done (tcp_listen_loop (c ∷ cs))) (tcp_listen_loop-First (c ∷ cs) h),
  udp_server_loop-First (c ∷ cs) h,
  rw (bind_done (udp_client_loop (c ∷ cs))) (udp_client_loop-First (c ∷ cs) h),
)
