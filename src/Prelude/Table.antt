-- ===== src/Prelude/Table.antt =====
-- A database table as an association list from primary keys to rows. A statement by key reads or
-- writes the first row with the key, which is the only one where the key is unique.
use Prim.Native.Nat.{ℕ, ◌+◌, ◌≤◌}
use mathlib.Core.Path.{◌≡◌, refl, subst, ap₂}
use mathlib.Core.Logic.{◌≢◌, inl, inr}
use mathlib.Core.Bool.{Bool, true, false}
use mathlib.Core.Option.{Option, none, some}
use mathlib.Core.List.{List, [], ◌∷◌}
use native.Mathlib.Omega.{arith}
use market_quorum.Prelude.Tests.{bit, ◌==◌, ==_iff, Bool-cases, if◌then◌else◌}
use market_quorum.Prelude.Lists.{All, any, keep}

abbrev pub Table {ℓ} : Type ℓ → Type ℓ
Table V = List (ℕ × V)

module _ {ℓ} {V : Type ℓ} where
  abbrev pub lookup : ℕ → Table V → Option V
  lookup k [] = none
  lookup k ((j, v) ∷ t) = if k == j then some v else lookup k t

  -- Writes the row with key `k`, or adds it at the end.
  abbrev pub insert : ℕ → V → Table V → Table V
  insert k v [] = (k, v) ∷ []
  insert k v ((j, w) ∷ t) = if k == j then (k, v) ∷ t else (j, w) ∷ insert k v t

  abbrev pub erase : ℕ → Table V → Table V
  erase k [] = []
  erase k ((j, w) ∷ t) = let rest = erase k t in if k == j then rest else (j, w) ∷ rest

  -- `SELECT count(*) WHERE p`.
  abbrev pub count_rows : (V → Bool) → Table V → ℕ
  count_rows p [] = 0
  count_rows p ((_, v) ∷ t) = bit (p v) + count_rows p t

  pub lookup-insert :
      (j k : ℕ) (v : V) (t : Table V)
      → lookup j (insert k v t) ≡ (if k == j then some v else lookup j t)
  lookup-insert j k v [] = ground arith
  lookup-insert j k v (e ∷ t) = ground (arith, lookup-insert j k v t)

  pub lookup-insert_self : (k : ℕ) (v : V) (t : Table V) → lookup k (insert k v t) ≡ some v
  lookup-insert_self k v t = ground (arith, lookup-insert k k v t)

  pub lookup-insert_ne :
      (j k : ℕ) (v : V) (t : Table V) → j ≢ k → lookup j (insert k v t) ≡ lookup j t
  lookup-insert_ne j k v t h = ground (arith, lookup-insert j k v t)

  pub lookup-erase :
      (j k : ℕ) (t : Table V) → lookup j (erase k t) ≡ (if k == j then none else lookup j t)
  lookup-erase j k [] = ground arith
  lookup-erase j k (e ∷ t) = ground (arith, lookup-erase j k t)

  -- Of two writes to a row the second remains.
  pub insert-insert : (k : ℕ) (v w : V) (t : Table V) → insert k w (insert k v t) ≡ insert k w t
  insert-insert k v w [] = ground arith
  insert-insert k v w (e ∷ t) = ground (arith, insert-insert k v w t)

  -- A write to an existing row moves a count by what the row counted before and counts now.
  pub count_rows-insert :
      (p : V → Bool) (k : ℕ) (v old : V) (t : Table V)
      → lookup k t ≡ some old
      → count_rows p (insert k v t) + bit (p old) ≡ count_rows p t + bit (p v)
  count_rows-insert p k v old [] h = cc
  count_rows-insert p k v old (e ∷ t) h = ground (arith, count_rows-insert p k v old t)

  pub count_rows-insert_new :
      (p : V → Bool) (k : ℕ) (v : V) (t : Table V)
      → lookup k t ≡ none
      → count_rows p (insert k v t) ≡ count_rows p t + bit (p v)
  count_rows-insert_new p k v [] h = omega arith
  count_rows-insert_new p k v (e ∷ t) h = ground (arith, count_rows-insert_new p k v t)

  -- A row that is found is counted.
  pub count_rows-pos :
      (p : V → Bool) (k : ℕ) (v : V) (t : Table V)
      → lookup k t ≡ some v
      → p v ≡ true
      → 1 ≤ count_rows p t
  count_rows-pos p k v [] h e = cc
  count_rows-pos p k v (x ∷ t) h e = ground (arith, count_rows-pos p k v t)

-- The primary key is unique.
abbrev pub IsUnique {ℓ} : {V : Type ℓ} → Table V → Type ℓ
IsUnique [] = Unit
IsUnique ((k, v) ∷ t) = (lookup k t ≡ none) × IsUnique t

-- Each row of `t` is what a read of `full` by its key gives.
abbrev pub IsFound {ℓ} : {V : Type ℓ} → Table V → Table V → Type ℓ
IsFound full [] = Unit
IsFound full ((k, v) ∷ t) = (lookup k full ≡ some v) × IsFound full t

module _ {ℓ} {V : Type ℓ} where
  IsFound-cons :
      (k : ℕ) (v : V) (full t : Table V)
      → lookup k full ≡ none
      → IsFound full t
      → IsFound ((k, v) ∷ full) t
  IsFound-cons k v full [] e h = tt
  IsFound-cons k v full ((j, w) ∷ t) e h = (ground arith, IsFound-cons k v full t e h.1)

  pub IsUnique-IsFound : (t : Table V) → IsUnique t → IsFound t t
  IsUnique-IsFound [] h = tt
  IsUnique-IsFound ((k, v) ∷ t) h =
      (ground arith, IsFound-cons k v t t h.0 (IsUnique-IsFound t h.1))

pub insert-IsUnique :
    {V : Type 0} (k : ℕ) (v : V) (t : Table V) → IsUnique t → IsUnique (insert k v t)
insert-IsUnique k v [] h = (refl, tt)
insert-IsUnique k v ((j, w) ∷ t) h =
    ground (arith, insert-IsUnique k v t h.1, lookup-insert_ne j k v t)

-- A row that is found is in the table.
pub lookup-All {κ} :
    {V : Type 0} (P : ℕ × V → Type κ) (k : ℕ) (v : V) (t : Table V)
    → All P t
    → lookup k t ≡ some v
    → P (k, v)
lookup-All P k v [] h e = cc
lookup-All P k v ((j, w) ∷ t) h e = elim (Bool-cases (k == j)) [
  | inl holds ↦ subst P (ground (arith, rw holds at e)) h.0
  | inr fails ↦ lookup-All P k v t h.1 (rw fails at e)
]

-- No row of the table has the key.
pub lookup-none-All :
    {V : Type 0} (k : ℕ) (t : Table V) → lookup k t ≡ none → All (λ (j, _). k ≢ j) t
lookup-none-All k [] h = tt
lookup-none-All k ((j, v) ∷ t) h = (λ same. ground arith, lookup-none-All k t (ground arith))

-- The same as `All`.
pub IsFound-All :
    {V : Type 0} (full t : Table V) → IsFound full t → All (λ (k, v). lookup k full ≡ some v) t
IsFound-All full [] h = tt
IsFound-All full ((k, v) ∷ t) h = (h.0, IsFound-All full t h.1)

-- A row that is found passes what its key and value pass, also among the rows that are kept.
pub lookup-any-keep :
    {V : Type 0} (p q : ℕ × V → Bool) (k : ℕ) (v : V) (t : Table V)
    → lookup k t ≡ some v
    → p (k, v) ≡ true
    → q (k, v) ≡ true
    → any p (keep q t) ≡ true
lookup-any-keep {V} p q k v [] h hp hq = cc
lookup-any-keep {V} p q k v ((j, w) ∷ t) h hp hq = elim (Bool-cases (k == j)) [
  | inl same ↦
      let key : j ≡ k = ground (arith, ==_iff k j) in
      let row : w ≡ v = ground arith in
      let both = ap₂ {C = ℕ × V} (λ i x. (i, x)) key row in ground (arith, both)
  | inr other ↦ ground (arith, lookup-any-keep p q k v t (rw other at h) hp hq)
]

pub lookup-any :
    {V : Type 0} (p : ℕ × V → Bool) (k : ℕ) (v : V) (t : Table V)
    → lookup k t ≡ some v
    → p (k, v) ≡ true
    → any p t ≡ true
lookup-any {V} p k v [] h hp = cc
lookup-any {V} p k v ((j, w) ∷ t) h hp = elim (Bool-cases (k == j)) [
  | inl same ↦
      let key : j ≡ k = ground (arith, ==_iff k j) in
      let row : w ≡ v = ground arith in
      let both = ap₂ {C = ℕ × V} (λ i x. (i, x)) key row in ground (arith, both)
  | inr other ↦ ground (arith, lookup-any p k v t (rw other at h) hp)
]

-- What holds of no row holds of none of those that are left.
pub any-erase :
    {V : Type 0} (p : ℕ × V → Bool) (k : ℕ) (t : Table V)
    → any p t ≡ false
    → any p (erase k t) ≡ false
any-erase p k [] h = refl
any-erase p k (x ∷ t) h = ground (arith, any-erase p k t)
