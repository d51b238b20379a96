-- ===== src/Interfaces.antt =====
-- get_ifi_info.cpp with unpifi.h, as it is built on Linux with 64 bits: HAVE_SOCKADDR_SA_LEN,
-- HAVE_SOCKADDR_DL_STRUCT, HAVE_STRUCT_IFREQ_IFR_MTU and IPV6 are not defined. The list of interfaces that
-- SIOCGIFCONF stores is walked by pointers, which are offsets in the buffer.
-- The results of `ioctl` are parameters. Memory for the list is taken to be there, and is not freed in
-- the model.
pub mod Listed
mod Tests
use network_program.Prelude.{
  ℕ, zero, suc, ◌+◌, ◌-◌, ◌*◌, ◌/◌, ◌%◌, Bool, true, false, not, ◌&&◌, ◌||◌, Option, none, some,
  List, [], ◌∷◌, ◌++◌, length, take, drop, set, ltb, ◌==◌, if◌then◌else◌,
}
use network_program.Sys.{Outcome, done, exits, waits, fault, ◌>>=◌}
use network_program.Packet.{byte, word}

-- `sizeof(struct ifreq)`.
abbrev pub ifreq_size : ℕ
ifreq_size = 40

-- SIOCGIFCONF: EINVAL, another error, or the bytes that were stored and the bytes that stand behind
-- them in the memory of `malloc`, which nobody has written.
pub data Conf : Type 0 where
  invalid fails : Conf
  stored : List ℕ → (ℕ → ℕ) → Conf

-- So many of the bytes that stand somewhere.
unfoldable pub memory : ℕ → (ℕ → ℕ) → List ℕ
memory zero bytes = []
memory (suc n) bytes = bytes 0 ∷ memory n (λ i. bytes (i + 1))

-- The loop that looks for a buffer that is large enough: `ifc_len`, and all bytes of the last buffer
-- that was tried.
unfoldable pub read_conf : List Conf → ℕ → ℕ → Outcome (ℕ × List ℕ)
unfolding memory
read_conf [] lastlen len = waits
read_conf (fails ∷ cs) lastlen len = exits
read_conf (invalid ∷ cs) lastlen len =
    let again = read_conf cs lastlen (len + 10 * ifreq_size) in
    if lastlen == 0 then again else exits
read_conf (stored buf behind ∷ cs) lastlen len =
    let again = read_conf cs (length buf) (len + 10 * ifreq_size) in
    if length buf == lastlen
    then done (length buf, buf ++ memory (len - length buf) behind)
    else again

-- What is known of a name: SIOCGIFFLAGS, SIOCGIFBRDADDR and SIOCGIFDSTADDR. `none` is an error.
pub record Device : Type 0 where
  pub flags : Option ℕ
  pub broadcast : Option (List ℕ)
  pub destination : Option (List ℕ)

-- IFF_UP, IFF_BROADCAST and IFF_POINTOPOINT.
abbrev pub is_up : ℕ → Bool
is_up flags = flags % 2 == 1

abbrev pub has_broadcast : ℕ → Bool
has_broadcast flags = flags / 2 % 2 == 1

abbrev pub is_point_to_point : ℕ → Bool
is_point_to_point flags = flags / 16 % 2 == 1

-- AF_INET and AF_INET6.
abbrev pub af_inet_number : ℕ
af_inet_number = 2

abbrev pub af_inet6_number : ℕ
af_inet6_number = 10

-- `struct ifi_info`. The index, the unit and the hardware address are always 0.
pub record IfiInfo : Type 0 where
  pub ifi_name : List ℕ
  pub ifi_flags : ℕ
  pub ifi_alias : Bool
  pub ifi_addr : Option (List ℕ)
  pub ifi_brdaddr : Option (List ℕ)
  pub ifi_dstaddr : Option (List ℕ)

-- So many bytes from the start of a list.
abbrev pub bytes_of : ℕ → List ℕ → Outcome (List ℕ)
bytes_of zero bs = done []
bytes_of (suc n) [] = fault
bytes_of (suc n) (b ∷ bs) = bytes_of n bs >>= λ more. done (b ∷ more)

-- `if ((cptr = strchr(ifr_name, ':')) != nullptr) *cptr = 0;`, on the bytes from the name on.
unfoldable pub cut_colon : List ℕ → Outcome (List ℕ)
cut_colon [] = fault
cut_colon (b ∷ bs) =
    let rest = cut_colon bs >>= λ cs. done (b ∷ cs) in
    if b == b':' then done (0 ∷ bs) else if b == 0 then done (b ∷ bs) else rest

-- `strncmp` of so many bytes, as far as it is 0.
unfoldable pub same_name : ℕ → List ℕ → List ℕ → Bool
same_name zero as1 bs = true
same_name (suc n) (a ∷ as1) (b ∷ bs) =
    let rest = same_name n as1 bs in (a == b) && (if a == 0 then true else rest)
same_name (suc n) as1 bs = true

-- Addresses of the family's `sockaddr`, by `Ioctl` if the flag is set.
abbrev pub asked : Bool → Option (List ℕ) → Outcome (Option (List ℕ))
asked false answer = done none
asked true none = exits
asked true (some addr) = done (some addr)

-- The addresses of an entry, from the bytes at `ifr_addr`.
unfoldable pub addresses :
    ℕ → Device → ℕ → List ℕ → Outcome (Option (List ℕ) × Option (List ℕ) × Option (List ℕ))
addresses family d flags addr =
    if family == af_inet_number
    then (bytes_of 16 addr >>= λ a. asked (has_broadcast flags) d.broadcast >>= λ b.
        asked (is_point_to_point flags) d.destination >>= λ c. done (some a, b, c))
    else if family == af_inet6_number
    then (bytes_of 28 addr >>= λ a.
        asked (is_point_to_point flags) d.destination >>= λ c. done (some a, none, c))
    else done (none, none, none)

-- The entry of an interface, after SIOCGIFFLAGS: it is listed if it is up.
unfoldable pub make_info : Option ℕ → ℕ → Device → List ℕ → Bool → List ℕ → Outcome (Option IfiInfo)
unfolding addresses
make_info none family d name alias entry = exits
make_info (some flags) family d name alias entry =
    if is_up flags
    then (addresses family d flags (drop 16 entry) >>= λ a. done (
        some (record {
          ifi_name = take 15 name ++ 0 ∷ [];
          ifi_flags = flags;
          ifi_alias = alias;
          ifi_addr = a.0;
          ifi_brdaddr = a.1;
          ifi_dstaddr = a.2;
        })))
    else done none

-- One entry, from its place in the buffer on: what is listed, the bytes from there on with a colon
-- cut, and `lastname`.
pub record Seen : Type 0 where
  pub info : Option IfiInfo
  pub bytes : List ℕ
  pub lastname : List ℕ

unfoldable pub see_entry : (List ℕ → Device) → ℕ → Bool → List ℕ → List ℕ → Outcome Seen
unfolding make_info
see_entry device family doaliases lastname entry = word entry 16 >>= λ sa_family.
    if not (sa_family == family)
    then done (record { info = none; bytes = entry; lastname = lastname })
    else (cut_colon entry >>= λ cut. bytes_of 16 cut >>= λ name.
        let alias = same_name 16 lastname name in
        if alias && not doaliases
        then done (record { info = none; bytes = cut; lastname = lastname })
        else (make_info (device name).flags family (device name) name alias cut >>= λ info.
            done (record { info = info; bytes = cut; lastname = name })))

abbrev pub listed : Option IfiInfo → List IfiInfo → List IfiInfo
listed none is = is
listed (some i) is = i ∷ is

-- `sizeof(ifr->ifr_name) + len`, by which `ptr` goes on.
abbrev pub stride : ℕ
stride = 32

-- The loop over the buffer from `ptr` on, with the number of times it goes round.
unfoldable pub walk : ℕ → (List ℕ → Device) → ℕ → Bool → List ℕ → List ℕ → Outcome (List IfiInfo)
unfolding see_entry
walk zero device family doaliases lastname rest = done []
walk (suc n) device family doaliases lastname rest =
    see_entry device family doaliases lastname rest >>= λ s.
    walk n device family doaliases s.lastname (drop stride s.bytes) >>= λ more.
    done (listed s.info more)

-- `for (ptr = buf; ptr < buf + ifc.ifc_len; )`.
abbrev pub rounds : ℕ → ℕ
rounds ifc_len = (ifc_len + 31) / 32

-- `get_ifi_info`, behind `Socket`.
unfoldable pub get_ifi_info : List Conf → (List ℕ → Device) → ℕ → Bool → Outcome (List IfiInfo)
unfolding walk read_conf
get_ifi_info confs device family doaliases = read_conf confs 0 (100 * ifreq_size) >>= λ p.
    walk (rounds p.0) device family doaliases (0 ∷ []) p.1

-- `Get_ifi_info`.
unfoldable pub get_ifi_info_or_exit :
    List Conf → (List ℕ → Device) → ℕ → Bool → Outcome (List IfiInfo)
get_ifi_info_or_exit confs device family doaliases =
    get_ifi_info confs device family doaliases >>= λ is. elim is [
      | [] ↦ exits
      | i ∷ more ↦ done (i ∷ more)
    ]
