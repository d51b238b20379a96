-- ===== src/Address.antt =====
-- Socket addresses: sock_get_port.cpp, sock_set_port.cpp, sock_set_addr.cpp, sock_set_wild.cpp,
-- sock_cmp_addr.cpp, family_to_level.cpp and sock_bind_wild.cpp, as they are built: `IPV6` and
-- `HAVE_SOCKADDR_DL_STRUCT` are not defined, `AF_UNIX` is.
pub mod Laws
mod Tests
use network_program.Prelude.{
  ℕ, zero, suc, ◌%◌, ◌^◌, Bool, true, false, Option, none, some, List, [], ◌∷◌, take, ltb, ◌==◌,
  if◌then◌else◌,
}
use network_program.Prelude.Int.{ℤ, pos, negsuc, ltb_ℤ}
use network_program.Sys.{Outcome, done, exits}

-- A `sockaddr` by its family: `sin_port` as the code reads it and the four bytes of `sin_addr`, the
-- bytes of `sun_path`, or another family.
pub data SockAddr : Type 0 where
  inet : ℕ → List ℕ → SockAddr
  unix : List ℕ → SockAddr
  other_family : ℕ → SockAddr

-- A family, as the code tells them apart.
pub data Family : Type 0 where
  af_inet af_unix : Family
  af_other : ℕ → Family

abbrev pub sa_family : SockAddr → Family
sa_family (inet p a) = af_inet
sa_family (unix path) = af_unix
sa_family (other_family n) = af_other n

unfoldable pub sock_get_port : SockAddr → ℤ
sock_get_port (inet p a) = pos p
sock_get_port _ = negsuc 0

-- `sin_port` has 16 bits.
unfoldable pub sock_set_port : SockAddr → ℕ → SockAddr
sock_set_port (inet p a) port = inet (port % 2 ^ 16) a
sock_set_port sa port = sa

-- `memcpy` of `sizeof(struct in_addr)` bytes.
unfoldable pub sock_set_addr : SockAddr → List ℕ → SockAddr
sock_set_addr (inet p a) addr = inet p (take 4 addr)
sock_set_addr sa addr = sa

-- `INADDR_ANY`.
abbrev pub in4addr_any : List ℕ
in4addr_any = 0 ∷ 0 ∷ 0 ∷ 0 ∷ []

unfoldable pub sock_set_wild : SockAddr → SockAddr
unfolding sock_set_addr
sock_set_wild (inet p a) = sock_set_addr (inet p a) in4addr_any
sock_set_wild sa = sa

-- `memcmp` and `strcmp`, of whose results the language fixes the sign only.
unfoldable pub memcmp : ℕ → List ℕ → List ℕ → ℤ
memcmp zero as1 as2 = pos 0
memcmp (suc n) (a ∷ as1) (b ∷ as2) =
    let rest = memcmp n as1 as2 in if a == b then rest else (if ltb a b then negsuc 0 else pos 1)
memcmp (suc n) _ _ = pos 0

unfoldable pub strcmp : List ℕ → List ℕ → ℤ
strcmp [] [] = pos 0
strcmp [] (b ∷ bs) = if b == 0 then pos 0 else negsuc 0
strcmp (a ∷ as1) [] = if a == 0 then pos 0 else pos 1
strcmp (a ∷ as1) (b ∷ bs) =
    let rest = strcmp as1 bs in
    if a == b then (if a == 0 then pos 0 else rest) else (if ltb a b then negsuc 0 else pos 1)

unfoldable pub sock_cmp_addr : SockAddr → SockAddr → ℤ
sock_cmp_addr (inet p a) (inet q b) = memcmp 4 a b
sock_cmp_addr (unix a) (unix b) = strcmp a b
sock_cmp_addr _ _ = negsuc 0

-- `IPPROTO_IP` is 0.
unfoldable pub family_to_level : Family → ℤ
family_to_level af_inet = pos 0
family_to_level _ = negsuc 0

unfoldable pub family_to_level_or_exit : Family → Outcome ℤ
unfolding family_to_level
family_to_level_or_exit f =
    let rc = family_to_level f in if ltb_ℤ rc (pos 0) then exits else done rc

-- `bind` for an address, and the `sin_port` that `getsockname` stores where it does not fail.
unfoldable pub sock_bind_wild : (SockAddr → ℤ) → Option ℕ → Family → ℤ
sock_bind_wild bind name af_inet =
    if ltb_ℤ (bind (inet 0 in4addr_any)) (pos 0)
    then negsuc 0
    else (elim name [ none ↦ negsuc 0 | some port ↦ pos port ])
sock_bind_wild bind name _ = negsuc 0

unfoldable pub sock_bind_wild_or_exit : (SockAddr → ℤ) → Option ℕ → Family → Outcome ℤ
sock_bind_wild_or_exit bind name f =
    let port = sock_bind_wild bind name f in if ltb_ℤ port (pos 0) then exits else done port
