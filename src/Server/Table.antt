-- ===== src/Server/Table.antt =====
-- The table of connected descriptors, and the scan for a free entry. An entry of -1 is `none`.
use network_program.Prelude.{
  ℕ, zero, suc, ◌≤◌, ◌<◌, ◌≡◌, ◌⊎◌, inl, inr, refl, ap, List, [], ◌∷◌, Option, none, some, Bool,
  false, ◌||◌, length, replicate, arith, ◌==◌,
}

abbrev pub Table : Type 0
Table = List (Option ℕ)

-- `for (i = 0; i < size; ++i) if (client[i] < 0) { client[i] = connfd; break; }` with the index.
unfoldable pub take_entry : Table → ℕ → Option (ℕ × Table)
take_entry [] f = none
take_entry (none ∷ cs) f = some (0, some f ∷ cs)
take_entry (some g ∷ cs) f = elim (take_entry cs f) [
  | none ↦ none
  | some (i, t) ↦ some (suc i, some g ∷ t)
]

abbrev pub holds : ℕ → Table → Bool
holds f [] = false
holds f (none ∷ cs) = holds f cs
holds f (some g ∷ cs) = (g == f) || holds f cs

-- No descriptor stands in two entries.
abbrev pub Distinct : Table → Type 0
Distinct [] = Unit {0}
Distinct (none ∷ cs) = Distinct cs
Distinct (some g ∷ cs) = (holds g cs ≡ false) × Distinct cs

-- Every entry from the index on is free.
abbrev pub FreeFrom : ℕ → Table → Type 0
FreeFrom n [] = Unit {0}
FreeFrom zero (c ∷ cs) = (c ≡ none) × FreeFrom zero cs
FreeFrom (suc n) (c ∷ cs) = FreeFrom n cs

-- The first free entry, at index `i`, gets the descriptor, and nothing else changes.
pub data Takes (f : ℕ) : Table → ℕ → Table → Type 0 where
  here : {cs : Table} → Takes f (none ∷ cs) zero (some f ∷ cs)
  there :
      {g : ℕ} {cs : Table} {i : ℕ} {t : Table}
      → Takes f cs i t
      → Takes f (some g ∷ cs) (suc i) (some g ∷ t)

abbrev pub Full : Table → Type 0
Full [] = Unit {0}
Full (none ∷ cs) = ⊥
Full (some g ∷ cs) = Full cs

pub data Entry (cs : Table) (f : ℕ) : Option (ℕ × Table) → Type 0 where
  full : Full cs → Entry cs f none
  found : {i : ℕ} {t : Table} → Takes f cs i t → Entry cs f (some (i, t))

Entry-there :
    (g : ℕ) (cs : Table) (f : ℕ) (o : Option (ℕ × Table))
    → Entry cs f o
    → Entry (some g ∷ cs) f (elim o [ none ↦ none | some (i, t) ↦ some (suc i, some g ∷ t) ])
Entry-there g cs f none (full h) = full h
Entry-there g cs f (some (i, t)) (found h) = found (there h)

-- The scan fails on a full table only.
pub take_entry-Entry : (cs : Table) (f : ℕ) → Entry cs f (take_entry cs f)
unfolding take_entry
take_entry-Entry [] f = full tt
take_entry-Entry (none ∷ cs) f = found here
take_entry-Entry (some g ∷ cs) f = Entry-there g cs f (take_entry cs f) (take_entry-Entry cs f)

pub Takes-length : {f i : ℕ} {cs t : Table} → Takes f cs i t → length t ≡ length cs
Takes-length here = refl
Takes-length (there h) = ap suc (Takes-length h)

pub Takes-lt : {f i : ℕ} {cs t : Table} → Takes f cs i t → i < length cs
Takes-lt here = omega arith
Takes-lt (there h) = omega (arith, Takes-lt h)

pub holds-Takes :
    {f i : ℕ} {cs t : Table} (g : ℕ) → Takes f cs i t → holds g t ≡ ((f == g) || holds g cs)
holds-Takes g here = refl
holds-Takes g (there h) = ground (arith, holds-Takes g h)

pub Takes-Distinct :
    {f i : ℕ} {cs t : Table} → Takes f cs i t → Distinct cs → holds f cs ≡ false → Distinct t
Takes-Distinct here d new = (new, d)
Takes-Distinct {f} (there {g = g} h) d new =
    (ground (arith, holds-Takes g h), Takes-Distinct h d.1 (ground arith))

pub Takes-FreeFrom :
    {f i : ℕ} {cs t : Table} (n : ℕ)
    → Takes f cs i t
    → FreeFrom n cs
    → ((i < n) × FreeFrom n t) ⊎ ((n ≤ i) × FreeFrom (suc i) t)
Takes-FreeFrom zero here free = inr (omega arith, free.1)
Takes-FreeFrom (suc n) here free = inl (omega arith, free)
Takes-FreeFrom zero (there h) free = cc free.0
Takes-FreeFrom (suc n) (there h) free = elim (Takes-FreeFrom n h free) [
  | inl (lt, rest) ↦ inl (omega arith, rest)
  | inr (le, rest) ↦ inr (omega arith, rest)
]

pub holds-replicate : (n f : ℕ) → holds f (replicate n none) ≡ false
holds-replicate zero f = refl
holds-replicate (suc n) f = holds-replicate n f

pub replicate-Distinct : (n : ℕ) → Distinct (replicate n none)
replicate-Distinct zero = tt
replicate-Distinct (suc n) = replicate-Distinct n

pub replicate-FreeFrom : (n : ℕ) → FreeFrom 0 (replicate n none)
replicate-FreeFrom zero = tt
replicate-FreeFrom (suc n) = (refl, replicate-FreeFrom n)
