-- ===== src/Prelude/Sorted.antt =====
-- `ORDER BY`: insertion sort by a Boolean order, which keeps the order of equal rows.
use Prim.Native.Nat.{ℕ, ◌+◌}
use mathlib.Core.Path.{◌≡◌, refl, sym, subst}
use mathlib.Core.Bool.{Bool, true, false, ◌&&◌, ◌||◌}
use mathlib.Core.List.{List, [], ◌∷◌}
use mathlib.Core.Logic.{inl, inr}
use native.Mathlib.Omega.{arith}
use market_quorum.Prelude.Lists.{any, All, length}
use market_quorum.Prelude.Tests.{ltb, ◌==◌, Bool-cases, if◌then◌else◌}

-- The lexicographic order of two keys.
abbrev pub key_lt : ℕ × ℕ → ℕ × ℕ → Bool
key_lt (a, b) (c, d) = ltb a c || (a == c && ltb b d)

module _ {ℓ} {A : Type ℓ} (lt : A → A → Bool) where
  -- Puts a row before the first one that is strictly greater.
  unfoldable pub insert_row : A → List A → List A
  insert_row a [] = a ∷ []
  insert_row a (x ∷ xs) = let rest = insert_row a xs in if lt a x then a ∷ x ∷ xs else x ∷ rest

  unfoldable pub order_by : List A → List A
  unfolding insert_row
  order_by [] = []
  order_by (x ∷ xs) = insert_row x (order_by xs)

  any-insert_row : (p : A → Bool) (a : A) (xs : List A) → any p (insert_row a xs) ≡ any p (a ∷ xs)
  unfolding insert_row
  any-insert_row p a [] = refl
  any-insert_row p a (x ∷ xs) = ground (arith, any-insert_row p a xs)

  pub any-order_by : (p : A → Bool) (xs : List A) → any p (order_by xs) ≡ any p xs
  unfolding order_by
  any-order_by p [] = refl
  any-order_by p (x ∷ xs) = ground (arith, any-insert_row p x (order_by xs), any-order_by p xs)

  All-insert_row {κ} :
      (P : A → Type κ) (a : A) (xs : List A) → P a → All P xs → All P (insert_row a xs)
  unfolding insert_row
  All-insert_row P a [] h hs = (h, tt)
  All-insert_row P a (x ∷ xs) h hs = ground (arith, All-insert_row P a xs h hs.1)

  pub All-order_by {κ} : (P : A → Type κ) (xs : List A) → All P xs → All P (order_by xs)
  unfolding order_by
  All-order_by P [] h = tt
  All-order_by P (x ∷ xs) h = All-insert_row P x (order_by xs) h.0 (All-order_by P xs h.1)

module _ {A : Type 0} where
  pub length-insert_row :
      (lt : A → A → Bool) (a : A) (xs : List A) → length (insert_row lt a xs) ≡ length xs + 1
  unfolding insert_row
  length-insert_row lt a [] = omega arith
  length-insert_row lt a (x ∷ xs) = ground (arith, length-insert_row lt a xs)

  pub length-order_by : (lt : A → A → Bool) (xs : List A) → length (order_by lt xs) ≡ length xs
  unfolding order_by
  length-order_by lt [] = refl
  length-order_by lt (x ∷ xs) =
      omega (arith, length-insert_row lt x (order_by lt xs), length-order_by lt xs)

-- The head of a sorted list comes after no element that it was sorted from, where the order is one:
-- `less` is that no element before `h` comes after an element that `h` does not come after.
module _ {A : Type 0} (lt : A → A → Bool) where
  abbrev pub IsLeast : A → List A → Type 0
  IsLeast h = All (λ y. lt y h ≡ false)

  abbrev HasLeast : List A → List A → Type 0
  HasLeast [] xs = xs ≡ []
  HasLeast (h ∷ t) xs = IsLeast h xs

  pub record IsOrder : Type 0 where
    pub irrefl : (a : A) → lt a a ≡ false
    pub less : (x h y : A) → lt x h ≡ true → lt y h ≡ false → lt y x ≡ false

module _ {A : Type 0} {lt : A → A → Bool} (o : IsOrder lt) where
  IsLeast-less : (x h : A) (xs : List A) → lt x h ≡ true → IsLeast lt h xs → IsLeast lt x xs
  IsLeast-less x h [] p l = tt
  IsLeast-less x h (y ∷ xs) p l = (o.less x h y p l.0, IsLeast-less x h xs p l.1)

  insert_row-HasLeast :
      (x : A) (ys xs : List A) → HasLeast lt ys xs → HasLeast lt (insert_row lt x ys) (x ∷ xs)
  unfolding insert_row
  insert_row-HasLeast x [] xs h = subst (λ l. IsLeast lt x (x ∷ l)) (sym h) (o.irrefl x, tt)
  insert_row-HasLeast x (y ∷ ys) xs h = elim (Bool-cases (lt x y)) [
    | inl p ↦ rw p (o.irrefl x, IsLeast-less x y xs p h)
    | inr ge ↦ rw ge (ge, h)
  ]

  order_by-HasLeast : (xs : List A) → HasLeast lt (order_by lt xs) xs
  unfolding order_by
  order_by-HasLeast [] = refl
  order_by-HasLeast (x ∷ xs) = insert_row-HasLeast x (order_by lt xs) xs (order_by-HasLeast xs)

  pub order_by-IsLeast :
      (xs : List A) {h : A} {t : List A} → order_by lt xs ≡ h ∷ t → IsLeast lt h xs
  order_by-IsLeast xs e = subst (λ l. HasLeast lt l xs) e (order_by-HasLeast xs)

-- No element comes before an earlier one.
abbrev pub IsSorted : {A : Type 0} → (A → A → Bool) → List A → Type 0
IsSorted lt [] = Unit
IsSorted lt (x ∷ xs) = IsLeast lt x xs × IsSorted lt xs

pub insert_row-IsSorted :
    {A : Type 0} {lt : A → A → Bool} (o : IsOrder lt) (a : A) (xs : List A)
    → IsSorted lt xs
    → IsSorted lt (insert_row lt a xs)
unfolding insert_row
insert_row-IsSorted o a [] h = (tt, tt)
insert_row-IsSorted {lt} o a (x ∷ xs) h = elim (Bool-cases (lt a x)) [
  | inl before ↦ rw before ((o.less a x x before (o.irrefl x), IsLeast-less o a x xs before h.0), h)
  | inr after ↦
      rw after
        (All-insert_row lt (λ y. lt y x ≡ false) a xs after h.0, insert_row-IsSorted o a xs h.1)
]

module _ {A : Type 0} (key : A → ℕ × ℕ) where
  abbrev pub by_key : A → A → Bool
  by_key a b = key_lt (key a) (key b)

  pub by_key-IsOrder : IsOrder by_key
  by_key-IsOrder = record { irrefl = λ a. ground arith; less = λ x h y p q. ground arith }
