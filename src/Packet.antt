-- ===== src/Packet.antt =====
-- Reading headers out of a received packet, as ping, traceroute and icmpd do: a pointer into the
-- packet is the list of the bytes from there on.
use network_program.Prelude.{
  ℕ, zero, suc, ◌+◌, ◌*◌, ◌/◌, ◌%◌, ◌≡◌, refl, sym, ap, List, [], ◌∷◌, ◌++◌, length, drop, arith,
}
use network_program.Sys.{Outcome, done, fault, ◌>>=◌}

-- A byte that was received. The bytes behind were never written.
abbrev pub byte : List ℕ → ℕ → Outcome ℕ
byte [] i = fault
byte (b ∷ bs) zero = done b
byte (b ∷ bs) (suc i) = byte bs i

-- `ip->ip_hl << 2`.
abbrev pub ip_header_length : List ℕ → Outcome ℕ
ip_header_length ip = byte ip 0 >>= λ b. done (b % 16 * 4)

-- A 16-bit field as a little-endian machine loads it.
abbrev pub word : List ℕ → ℕ → Outcome ℕ
word bs i = byte bs i >>= λ lo. byte bs (i + 1) >>= λ hi. done (lo + 256 * hi)

-- An IP header of a packet: its first byte gives its length.
pub record IsHeader (h : List ℕ) : Type 0 where
  pub first : ℕ
  pub rest : List ℕ
  pub shape : h ≡ first ∷ rest
  pub sized : first % 16 * 4 ≡ length h

pub ip_header_length-append :
    (h back : List ℕ) → IsHeader h → ip_header_length (h ++ back) ≡ done (length h)
ip_header_length-append h back v = ground (arith, v.shape, v.sized)

pub drop-length-append {ℓ} : {A : Type ℓ} (xs ys : List A) → drop (length xs) (xs ++ ys) ≡ ys
drop-length-append [] ys = refl
drop-length-append (x ∷ xs) ys = drop-length-append xs ys

pub byte-append :
    (h : List ℕ) (i : ℕ) {v : ℕ} (back : List ℕ) → byte h i ≡ done v → byte (h ++ back) i ≡ done v
byte-append [] i back e = cc e
byte-append (b ∷ h) zero back e = e
byte-append (b ∷ h) (suc i) back e = byte-append h i back e

-- The bytes of a number in memory, the low one first, in front of other bytes.
unfoldable pub store_le : ℕ → ℕ → List ℕ → List ℕ
store_le zero n bs = bs
store_le (suc k) n bs = n % 256 ∷ store_le k (n / 256) bs

unfoldable pub load_le : ℕ → List ℕ → Outcome ℕ
load_le zero bs = done 0
load_le (suc k) [] = fault
load_le (suc k) (b ∷ bs) = load_le k bs >>= λ n. done (b + 256 * n)

-- A number that the bytes hold whole.
abbrev pub Fits : ℕ → ℕ → Type 0
Fits zero n = n ≡ 0
Fits (suc k) n = Fits k (n / 256)

pub load_le-store_le : (k n : ℕ) (bs : List ℕ) → Fits k n → load_le k (store_le k n bs) ≡ done n
unfolding store_le load_le
load_le-store_le zero n bs h = ap done (sym h)
load_le-store_le (suc k) n bs h =
    let whole : n % 256 + 256 * (n / 256) ≡ n = omega arith in
    rw (load_le-store_le k (n / 256) bs h, whole) refl

pub length-store_le : (k n : ℕ) (bs : List ℕ) → length (store_le k n bs) ≡ k + length bs
unfolding store_le
length-store_le zero n bs = omega arith
length-store_le (suc k) n bs = omega (arith, length-store_le k (n / 256) bs)

pub drop-store_le : (k n : ℕ) (bs : List ℕ) → drop k (store_le k n bs) ≡ bs
unfolding store_le
drop-store_le zero n bs = refl
drop-store_le (suc k) n bs = drop-store_le k (n / 256) bs
