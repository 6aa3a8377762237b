-- ===== src/Prelude/Sort.antt =====
-- `sort.Slice` and `sort.SliceStable` as an insertion sort by a comparison. Where `less` leaves
-- two items unordered they keep their order, which is one of the orders `sort.Slice` may give.
pub mod Sorted
use mathlib.Core.Bool.{Bool}
use mathlib.Core.List.{List, [], ◌∷◌}
use alpha_proxy.Prelude.Tests.{if◌then◌else◌}

module _ {ℓ} {A : Type ℓ} (less : A → A → Bool) where
  unfoldable pub insert : A → List A → List A
  insert x [] = x ∷ []
  insert x (y ∷ ys) = if less y x then y ∷ insert x ys else x ∷ y ∷ ys

  unfoldable pub sort : List A → List A
  unfolding insert
  sort [] = []
  sort (x ∷ xs) = insert x (sort xs)
