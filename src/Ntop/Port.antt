-- ===== src/Ntop/Port.antt =====
-- The port is read back from the text of an address.
use network_program.Prelude.{
  ℕ, zero, suc, ◌+◌, ◌-◌, ◌*◌, ◌/◌, ◌%◌, ◌^◌, ◌≤◌, ◌<◌, ◌≡◌, ◌≢◌, refl, sym, ap, ◌∙◌, false,
  Bool-cases, inl, inr, Option, some, List, [], ◌∷◌, ◌++◌, append-nil, length, length-append, take,
  take_all, ltb, ◌==◌, arith, if◌then◌else◌,
}
use native.Mathlib.Numerals.{unary_clauses}
use network_program.Address.{inet}
use network_program.Ntop.{ntohs, decimal, port_text, sock_ntop, sock_ntop_host}

-- The number that decimal digits stand for.
abbrev pub value : List ℕ → ℕ → ℕ
value [] n = n
value (c ∷ cs) n = value cs (n * 10 + (c - b'0'))

-- The parts before and behind the first colon.
abbrev pub host_of : List ℕ → List ℕ
host_of [] = []
host_of (c ∷ cs) = let rest = host_of cs in if c == b':' then [] else c ∷ rest

abbrev pub port_of : List ℕ → ℕ
port_of [] = 0
port_of (c ∷ cs) = let rest = port_of cs in if c == b':' then value cs 0 else rest

-- No colon is in the text.
abbrev pub Plain : List ℕ → Type 0
Plain [] = Unit
Plain (c ∷ cs) = (c ≢ b':') × Plain cs

value-append : (cs ds : List ℕ) (n : ℕ) → value (cs ++ ds) n ≡ value ds (value cs n)
value-append [] ds n = refl
value-append (c ∷ cs) ds n = value-append cs ds (n * 10 + (c - b'0'))

value-decimal : (k n : ℕ) → n < 10 ^ k → value (decimal k n) 0 ≡ n
unfolding decimal
value-decimal zero n h = omega arith
value-decimal (suc k) n h = elim (Bool-cases (ltb n 10)) [
  | inl small ↦ rw small (omega arith)
  | inr large ↦
      let bound : n < 10 ^ k * 10 = simp unary_clauses at h in
      let less : n / 10 < 10 ^ k = omega (arith, bound) in
      rw
        (
          large,
          value-append (decimal k (n / 10)) ((b'0' + n % 10) ∷ []) 0,
          value-decimal k (n / 10) less,
        )
        (omega arith)
]

length-decimal : (k n : ℕ) → length (decimal k n) ≤ k
unfolding decimal
length-decimal zero n = omega arith
length-decimal (suc k) n =
    ground
      (arith, length-decimal k (n / 10), length-append (decimal k (n / 10)) ((b'0' + n % 10) ∷ []))

port_of-append : (host back : List ℕ) → Plain host → port_of (host ++ back) ≡ port_of back
port_of-append [] back h = refl
port_of-append (c ∷ cs) back h =
    let other : (c == b':') ≡ false = ground (arith, h.0) in rw other (port_of-append cs back h.1)

host_of-append : (host back : List ℕ) → Plain host → host_of (host ++ back) ≡ host ++ host_of back
host_of-append [] back h = refl
host_of-append (c ∷ cs) back h =
    let other : (c == b':') ≡ false = ground (arith, h.0) in
    rw other (ap (λ l. c ∷ l) (host_of-append cs back h.1))

port_text-parts :
    (port : ℕ) → port < 2 ^ 16 → (port_of (port_text port) ≡ port) × (host_of (port_text port) ≡ [])
unfolding port_text
port_text-parts port h = elim (Bool-cases (port == 0)) [
  | inl x ↦ rw x (ground (arith, x), refl)
  | inr x ↦
      let whole : take 6 (decimal 5 port) ≡ decimal 5 port =
        take_all (decimal 5 port) 6 (omega (arith, length-decimal 5 port)) in
      rw (x, whole) (value-decimal 5 port (omega arith), refl)
]

-- Where `inet_ntop` gives a text without a colon, the text of `sock_ntop` consists of the text of
-- `sock_ntop_host` and the port, which is read back from it, 0 where it holds none.
pub sock_ntop-parts :
    (inet_ntop : List ℕ → Option (List ℕ)) (port salen : ℕ) (addr host : List ℕ)
    → inet_ntop addr ≡ some host
    → Plain host
    → (text : List ℕ) × (sock_ntop inet_ntop (inet port addr) salen ≡ some text)
      × (sock_ntop_host inet_ntop (inet port addr) salen ≡ some (host_of text))
      × (port_of text ≡ ntohs port)
unfolding sock_ntop sock_ntop_host
sock_ntop-parts inet_ntop port salen addr host e plain =
    let parts = port_text-parts (ntohs port) (omega arith) in
    let front : host_of (host ++ port_text (ntohs port)) ≡ host =
      host_of-append host (port_text (ntohs port)) plain
      ∙ ap (λ l. host ++ l) parts.1
      ∙ append-nil host in
    (
      host ++ port_text (ntohs port),
      rw (sock_ntop, e) refl,
      e ∙ ap some (sym front),
      port_of-append host (port_text (ntohs port)) plain ∙ parts.0,
    )
