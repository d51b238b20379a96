-- ===== src/Multicast.antt =====
-- mcast_join.cpp, mcast_set_loop.cpp and sockfd_to_family.cpp, as they are built on Linux, where
-- MCAST_JOIN_GROUP and the like are defined. A function is what it answers, by the results of
-- `if_nametoindex`, `getsockname` and `setsockopt`, which is a function of the option it is handed.
mod Tests
use network_program.Prelude.{ℕ, zero, suc, ◌%◌, Option, none, some, Bool, ◌||◌, ltb, if◌then◌else◌}
use network_program.Prelude.Int.{ℤ, pos, negsuc, ltb_ℤ}
use network_program.Sys.{Void, Outcome}
use network_program.Wrap.{exits_if}
use network_program.Address.{
  SockAddr, Family, af_inet, af_unix, af_other, sa_family, family_to_level,
}

-- The values that `errno` is set to.
pub data Refusal : Type 0 where
  enxio einval eafnosupport : Refusal

-- The options, by their names in <netinet/in.h>, with an interface, a source and a group each.
pub data McastOption : Type 0 where
  join_group : ℕ → SockAddr → McastOption
  join_source_group : ℕ → SockAddr → SockAddr → McastOption
  block_source : SockAddr → SockAddr → McastOption
  unblock_source : SockAddr → SockAddr → McastOption
  multicast_loop : ℕ → McastOption

-- What a function answers: it sets `errno` and returns -1, or returns what `setsockopt` does for a
-- level and an option.
pub data McastAnswer : Type 0 where
  refuses : Refusal → McastAnswer
  asks : ℤ → McastOption → McastAnswer

-- `sizeof(struct sockaddr_storage)`.
abbrev pub storage_size : ℕ
storage_size = 128

-- `gr_interface`, from the index or else from the name, for which `if_nametoindex` may find none:
-- its result is 0 then.
unfoldable pub interface_of : Option ℕ → ℕ → Option ℕ
interface_of name zero = elim name [
  | none ↦ some 0
  | some found ↦ elim found [ zero ↦ none | suc i ↦ some (suc i) ]
]
interface_of name (suc i) = some (suc i)

unfoldable pub mcast_join : SockAddr → ℕ → Option ℕ → ℕ → McastAnswer
unfolding interface_of
mcast_join grp grplen name ifindex = elim (interface_of name ifindex) [
  | none ↦ refuses enxio
  | some i ↦
      if ltb storage_size grplen
      then refuses einval
      else asks (family_to_level (sa_family grp)) (join_group i grp)
]

unfoldable pub mcast_join_source_group : SockAddr → ℕ → SockAddr → ℕ → Option ℕ → ℕ → McastAnswer
unfolding interface_of
mcast_join_source_group src srclen grp grplen name ifindex = elim (interface_of name ifindex) [
  | none ↦ refuses enxio
  | some i ↦
      if ltb storage_size grplen || ltb storage_size srclen
      then refuses einval
      else asks (family_to_level (sa_family grp)) (join_source_group i src grp)
]

unfoldable pub mcast_block_source : SockAddr → ℕ → SockAddr → ℕ → McastAnswer
mcast_block_source src srclen grp grplen =
    if ltb storage_size grplen || ltb storage_size srclen
    then refuses einval
    else asks (family_to_level (sa_family grp)) (block_source src grp)

unfoldable pub mcast_unblock_source : SockAddr → ℕ → SockAddr → ℕ → McastAnswer
mcast_unblock_source src srclen grp grplen =
    if ltb storage_size grplen || ltb storage_size srclen
    then refuses einval
    else asks (family_to_level (sa_family grp)) (unblock_source src grp)

-- `sockfd_to_family`, by the name that `getsockname` stores: `none` is -1.
unfoldable pub sockfd_to_family : Option SockAddr → Option Family
sockfd_to_family none = none
sockfd_to_family (some sa) = some (sa_family sa)

-- `mcast_set_loop`; the flag is an `u_char`, and IPPROTO_IP is 0.
unfoldable pub mcast_set_loop : Option SockAddr → ℕ → McastAnswer
unfolding sockfd_to_family
mcast_set_loop name onoff = elim (sockfd_to_family name) [
  | none ↦ refuses eafnosupport
  | some f ↦ elim f [
    | af_inet ↦ asks (pos 0) (multicast_loop (onoff % 256))
    | af_unix ↦ refuses eafnosupport
    | af_other n ↦ refuses eafnosupport
  ]
]

-- The `int` that a function returns.
abbrev pub result_of : (ℤ → McastOption → ℤ) → McastAnswer → ℤ
result_of setsockopt (refuses f) = negsuc 0
result_of setsockopt (asks level r) = setsockopt level r

-- The five wrappers with a capital letter.
unfoldable pub or_exit : (ℤ → McastOption → ℤ) → McastAnswer → Outcome Void
or_exit setsockopt a = exits_if (ltb_ℤ (result_of setsockopt a) (pos 0)) tt
