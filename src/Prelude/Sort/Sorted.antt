-- ===== src/Prelude/Sort/Sorted.antt =====
-- Sorted lists, and what the sort makes of a list.
use mathlib.Core.Bool.{Bool, true, false}
use mathlib.Core.List.{List, [], ◌∷◌}
use mathlib.Core.Path.{◌≡◌, refl}
use native.Mathlib.Omega.{arith}
use alpha_proxy.Prelude.Lists.{All}
use alpha_proxy.Prelude.Sort.{insert, sort}
use alpha_proxy.Prelude.Tests.{Bool-cases}
use mathlib.Core.Logic.{inl, inr}

module _ {ℓ} {A : Type ℓ} (less : A → A → Bool) where
  -- No item is less than the one before it.
  abbrev pub IsSorted : List A → Type 0
  IsSorted [] = Unit
  IsSorted (x ∷ []) = Unit
  IsSorted (x ∷ y ∷ ys) = (less y x ≡ false) × IsSorted (y ∷ ys)

module _ {ℓ} {A : Type ℓ} (less : A → A → Bool)
    (asym : (a b : A) → less a b ≡ true → less b a ≡ false) where
  insert-IsSorted : (x : A) (ys : List A) → IsSorted less ys → IsSorted less (insert less x ys)
  unfolding insert
  insert-IsSorted x [] s = tt
  insert-IsSorted x (y ∷ []) s = ground (arith, asym y x)
  insert-IsSorted x (y ∷ z ∷ zs) s =
      ground (arith, asym y x, asym z x, insert-IsSorted x (z ∷ zs) s.1)

  pub sort-IsSorted : (xs : List A) → IsSorted less (sort less xs)
  unfolding sort
  sort-IsSorted [] = tt
  sort-IsSorted (x ∷ xs) = insert-IsSorted x (sort less xs) (sort-IsSorted xs)

module _ {ℓ} {A : Type ℓ} (less : A → A → Bool) where
  pub sort_sorted : (xs : List A) → IsSorted less xs → sort less xs ≡ xs
  unfolding sort insert
  sort_sorted [] s = refl
  sort_sorted (x ∷ []) s = refl
  sort_sorted (x ∷ y ∷ ys) s = rw (sort_sorted (y ∷ ys) s.1) (ground arith)

module _ {ℓ κ} {A : Type ℓ} (less : A → A → Bool) (P : A → Type κ) where
  All-insert : (x : A) (xs : List A) → P x → All P xs → All P (insert less x xs)
  unfolding insert
  All-insert x [] h hs = (h, tt)
  All-insert x (y ∷ ys) h (hy, hs) = elim (Bool-cases (less y x)) [
    | inl e ↦ rw e (hy, All-insert x ys h hs)
    | inr e ↦ rw e (h, (hy, hs))
  ]

  -- What holds of every item holds of every item of the sorted list.
  pub All-sort : (xs : List A) → All P xs → All P (sort less xs)
  unfolding sort
  All-sort [] h = tt
  All-sort (x ∷ xs) (h, hs) = All-insert x (sort less xs) h (All-sort xs hs)
