-- ===== src/Common/Sort.antt =====
-- What the code relies on of Go's `sort.Slice` and `sort.SliceStable`, which lie outside the
-- repository: the result is a permutation of the slice, and no element stands behind one that it
-- is less than. The promise of order is only made where `less` is a strict weak order.
use mathlib.Core.Path.{◌≡◌}
use mathlib.Core.Bool.{Bool, true, false}
use mathlib.Core.List.{List, [], ◌∷◌, Permᴰ}
use llm_router.Common.Lists.{All}

-- `less` orders the elements up to ties.
pub record IsWeakOrder {ℓ} {A : Type ℓ} (less : A → A → Bool) : Type ℓ where
  pub irrefl : (x : A) → less x x ≡ false
  -- If neither y < x nor z < y then not z < x.
  pub trans : (x y z : A) → less y x ≡ false → less z y ≡ false → less z x ≡ false
  pub asym : (x y : A) → less x y ≡ true → less y x ≡ false

-- Nothing stands behind an element that it is less than.
abbrev pub IsSorted {ℓ} : {A : Type ℓ} → (A → A → Bool) → List A → Type ℓ
IsSorted less [] = Unit
IsSorted less (x ∷ xs) = All (λ y. less y x ≡ false) xs × IsSorted less xs

pub record SortSlice {ℓ} (A : Type ℓ) : Type ℓ where
  pub sort : (A → A → Bool) → List A → List A
  pub sort-perm : (less : A → A → Bool) (xs : List A) → Permᴰ (sort less xs) xs
  pub sort-IsSorted :
      (less : A → A → Bool) → IsWeakOrder less → (xs : List A) → IsSorted less (sort less xs)
