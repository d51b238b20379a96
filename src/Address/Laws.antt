-- ===== src/Address/Laws.antt =====
-- How the operations on socket addresses fit together.
use network_program.Prelude.{
  ℕ, zero, suc, ◌%◌, ◌^◌, ◌≡◌, ◌≢◌, ◌↔◌, inl, inr, refl, ap₂, Bool-cases, List, [], ◌∷◌, length,
  take_all, arith, ltb, ◌==◌, if◌then◌else◌,
}
use network_program.Prelude.Int.{pos, negsuc}
use network_program.Address.{
  inet, unix, in4addr_any, sock_get_port, sock_set_port, sock_set_addr, sock_set_wild,
  sock_cmp_addr, memcmp,
}

memcmp_refl : (n : ℕ) (bs : List ℕ) → memcmp n bs bs ≡ pos 0
unfolding memcmp
memcmp_refl zero bs = refl
memcmp_refl (suc n) [] = refl
memcmp_refl (suc n) (b ∷ bs) = ground (arith, memcmp_refl n bs)

differ : (a b : ℕ) → (if ltb a b then negsuc 0 else pos 1) ≢ pos 0
differ a b = ground arith

memcmp-eq :
    (n : ℕ) (as1 bs : List ℕ) → length as1 ≡ n → length bs ≡ n → memcmp n as1 bs ≡ pos 0 → as1 ≡ bs
unfolding memcmp
memcmp-eq zero [] [] h k e = refl
memcmp-eq zero [] (b ∷ bs) h k e = absurd (omega (arith, k))
memcmp-eq zero (a ∷ as1) bs h k e = absurd (omega (arith, h))
memcmp-eq (suc n) [] bs h k e = absurd (omega (arith, h))
memcmp-eq (suc n) (a ∷ as1) [] h k e = absurd (omega (arith, k))
memcmp-eq (suc n) (a ∷ as1) (b ∷ bs) h k e = elim (Bool-cases (a == b)) [
  | inl same ↦
      let head : a ≡ b = ground arith in
      ap₂ (λ x xs. x ∷ xs) head
        (memcmp-eq n as1 bs (omega (arith, h)) (omega (arith, k)) (rw same at e))
  | inr other ↦ absurd (differ a b (rw other at e))
]

-- For addresses of four bytes `sock_cmp_addr` is 0 exactly where they are equal, whatever the
-- ports, and it is not 0 for addresses of different families.
pub sock_cmp_addr_iff :
    (p q : ℕ) (a b path : List ℕ)
    → length a ≡ 4
    → length b ≡ 4
    → (sock_cmp_addr (inet p a) (inet q b) ≡ pos 0 ↔ a ≡ b)
      × (sock_cmp_addr (inet p a) (unix path) ≢ pos 0)
      × (sock_cmp_addr (unix path) (inet q b) ≢ pos 0)
unfolding sock_cmp_addr
sock_cmp_addr_iff p q a b path h k =
    ((λ e. memcmp-eq 4 a b h k e, λ e. rw e (memcmp_refl 4 b)), λ e. cc e, λ e. cc e)

-- On an address of four bytes: the port that was set is found again modulo 2 ^ 16, with the
-- address as it was; the address that was set is found again, with the port as it was; and the
-- wildcard address is 0.0.0.0 with the port as it was.
pub sets-Found :
    (p port : ℕ) (a b : List ℕ)
    → length b ≡ 4
    → (sock_get_port (sock_set_port (inet p a) port) ≡ pos (port % 2 ^ 16))
      × (sock_cmp_addr (sock_set_port (inet p a) port) (inet p a) ≡ pos 0)
      × (sock_cmp_addr (sock_set_addr (inet p a) b) (inet p b) ≡ pos 0)
      × (sock_get_port (sock_set_addr (inet p a) b) ≡ pos p)
      × (sock_cmp_addr (sock_set_wild (inet p a)) (inet p in4addr_any) ≡ pos 0)
      × (sock_get_port (sock_set_wild (inet p a)) ≡ pos p)
unfolding sock_get_port sock_set_port sock_set_addr sock_set_wild sock_cmp_addr
sets-Found p port a b four = (
  refl,
  memcmp_refl 4 a,
  rw (take_all b 4 (omega arith)) (memcmp_refl 4 b),
  refl,
  memcmp_refl 4 in4addr_any,
  refl,
)
