-- ===== src/Interfaces/Listed.antt =====
-- The interfaces that `get_ifi_info` lists.
use network_program.Prelude.{
  ℕ, zero, suc, ◌*◌, ◌≡◌, refl, Bool, true, false, Bool-cases, inl, inr, not, ◌&&◌, List, [], ◌∷◌,
  length, drop, Option, none, some, ◌==◌, arith,
}
use network_program.Sys.{Outcome, done, exits, waits, fault, Done, Done-bind, Void}
use network_program.Packet.{word}
use network_program.Interfaces.{
  Conf, Device, Seen, IfiInfo, is_up, af_inet_number, stride, bytes_of, cut_colon, same_name,
  addresses, make_info, see_entry, ifreq_size, asked, has_broadcast, is_point_to_point, walk,
  rounds, listed, read_conf, get_ifi_info,
}

any : {A : Type 0} (o : Outcome A) → Done (λ _. Void) o
any (done a) = tt
any exits = tt
any waits = tt
any fault = tt

every : {A : Type 0} (P : A → Type 0) (o : Outcome A) → ((a : A) → P a) → Done P o
every P (done a) h = h a
every P exits h = tt
every P waits h = tt
every P fault h = tt

-- An interface that is up, that has an address in the family AF_INET, and that is not an alias where
-- these are not wanted.
pub record IsListed (family : ℕ) (doaliases : Bool) (i : IfiInfo) : Type 0 where
  pub up : is_up i.ifi_flags ≡ true
  pub one : doaliases ≡ false → i.ifi_alias ≡ false
  pub addressed : family ≡ af_inet_number → (a : List ℕ) × (i.ifi_addr ≡ some a) × (length a ≡ 16)

abbrev pub AllListed : ℕ → Bool → List IfiInfo → Type 0
AllListed family doaliases [] = Unit
AllListed family doaliases (i ∷ is) = IsListed family doaliases i × AllListed family doaliases is

abbrev MaybeListed : ℕ → Bool → Option IfiInfo → Type 0
MaybeListed family doaliases none = Unit
MaybeListed family doaliases (some i) = IsListed family doaliases i

bytes_of-length : (n : ℕ) (bs : List ℕ) → Done (λ a. length a ≡ n) (bytes_of n bs)
bytes_of-length zero bs = refl
bytes_of-length (suc n) [] = tt
bytes_of-length (suc n) (b ∷ bs) =
    Done-bind (λ a. length a ≡ n) (λ a. length a ≡ suc n) (bytes_of n bs) _ (bytes_of-length n bs)
      (λ a e. omega (arith, e))

-- The three addresses that are stored.
abbrev Three : Type 0
Three = Option (List ℕ) × Option (List ℕ) × Option (List ℕ)

abbrev Inet : ℕ → Three → Type 0
Inet family r = family ≡ af_inet_number → (a : List ℕ) × (r.0 ≡ some a) × (length a ≡ 16)

addresses-Inet :
    (family : ℕ) (d : Device) (flags : ℕ) (addr : List ℕ)
    → Done (Inet family) (addresses family d flags addr)
unfolding addresses
addresses-Inet family d flags addr = elim (Bool-cases (family == af_inet_number)) [
  | inl inet ↦ rw inet (
      Done-bind (λ a. length a ≡ 16) (Inet family) (bytes_of 16 addr) _ (bytes_of-length 16 addr)
        (λ a sized.
          Done-bind (λ _. Void) (Inet family) (asked (has_broadcast flags) d.broadcast) _
            (any (asked (has_broadcast flags) d.broadcast))
            (λ b _.
              Done-bind (λ _. Void) (Inet family) (asked (is_point_to_point flags) d.destination) _
                (any (asked (is_point_to_point flags) d.destination)) (λ c _ _. (a, refl, sized)))))
  | inr differs ↦
      let other : family ≡ af_inet_number → ⊥ = λ e. grind (arith, e, differs) in
      every (Inet family) (addresses family d flags addr) (λ r e. absurd (other e))
]

make_info-Listed :
    (flags : Option ℕ) (family : ℕ) (d : Device) (name : List ℕ) (alias doaliases : Bool)
    (entry : List ℕ)
    → (doaliases ≡ false → alias ≡ false)
    → Done (MaybeListed family doaliases) (make_info flags family d name alias entry)
unfolding make_info
make_info-Listed none family d name alias doaliases entry wanted = tt
make_info-Listed (some flags) family d name alias doaliases entry wanted =
    elim (Bool-cases (is_up flags)) [
      | inl up ↦ rw up (
          Done-bind (Inet family) (MaybeListed family doaliases)
            (addresses family d flags (drop 16 entry)) _
            (addresses-Inet family d flags (drop 16 entry))
            (λ a inet. record { up = up; one = wanted; addressed = inet }))
      | inr down ↦ rw down tt
    ]

see_entry-Listed :
    (device : List ℕ → Device) (family : ℕ) (doaliases : Bool) (lastname entry : List ℕ)
    → Done
        (λ s. MaybeListed family doaliases s.info)
        (see_entry device family doaliases lastname entry)
unfolding see_entry
see_entry-Listed device family doaliases lastname entry =
    let P : Seen → Type 0 = λ s. MaybeListed family doaliases s.info in
    Done-bind (λ _. Void) P (word entry 16) _ (any (word entry 16))
      (λ sa_family _. elim (Bool-cases (not (sa_family == family))) [
        | inl ignored ↦ rw ignored tt
        | inr desired ↦ rw desired (
            Done-bind (λ _. Void) P (cut_colon entry) _ (any (cut_colon entry))
              (λ cut _.
                Done-bind (λ _. Void) P (bytes_of 16 cut) _ (any (bytes_of 16 cut))
                  (λ name _.
                    let alias = same_name 16 lastname name in
                    let d = device name in
                    elim (Bool-cases (alias && not doaliases)) [
                      | inl seen ↦ rw seen tt
                      | inr new ↦ rw new (
                          Done-bind (MaybeListed family doaliases) P
                            (make_info d.flags family d name alias cut) _
                            (make_info-Listed d.flags family d name alias doaliases cut
                              (λ e. grind (arith, e, new)))
                            (λ info listed. listed))
                    ])))
      ])

listed-AllListed :
    (family : ℕ) (doaliases : Bool) (info : Option IfiInfo) (is : List IfiInfo)
    → MaybeListed family doaliases info
    → AllListed family doaliases is
    → AllListed family doaliases (listed info is)
listed-AllListed family doaliases none is first rest = rest
listed-AllListed family doaliases (some i) is first rest = (first, rest)

walk-AllListed :
    (n : ℕ) (device : List ℕ → Device) (family : ℕ) (doaliases : Bool) (lastname rest : List ℕ)
    → Done (AllListed family doaliases) (walk n device family doaliases lastname rest)
unfolding walk
walk-AllListed zero device family doaliases lastname rest = tt
walk-AllListed (suc n) device family doaliases lastname rest =
    Done-bind (λ s. MaybeListed family doaliases s.info) (AllListed family doaliases)
      (see_entry device family doaliases lastname rest) _
      (see_entry-Listed device family doaliases lastname rest)
      (λ s first.
        Done-bind (AllListed family doaliases) (AllListed family doaliases)
          (walk n device family doaliases s.lastname (drop stride s.bytes)) _
          (walk-AllListed n device family doaliases s.lastname (drop stride s.bytes))
          (λ more rest. listed-AllListed family doaliases s.info more first rest))

-- Where `get_ifi_info` returns a list, every interface of it is up; with `doaliases` 0 none is an alias,
-- and for AF_INET each has an address of 16 bytes.
pub get_ifi_info-AllListed :
    (confs : List Conf) (device : List ℕ → Device) (family : ℕ) (doaliases : Bool)
    → Done (AllListed family doaliases) (get_ifi_info confs device family doaliases)
unfolding get_ifi_info
get_ifi_info-AllListed confs device family doaliases =
    Done-bind (λ _. Void) (AllListed family doaliases) (read_conf confs 0 (100 * ifreq_size)) _
      (any (read_conf confs 0 (100 * ifreq_size)))
      (λ p _. walk-AllListed (rounds p.0) device family doaliases (0 ∷ []) p.1)
