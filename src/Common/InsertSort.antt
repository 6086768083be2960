-- ===== src/Common/InsertSort.antt =====
-- A sort that has the promises of `SortSlice`.
use mathlib.Core.Path.{◌≡◌, refl}
use mathlib.Core.Logic.{inl, inr}
use mathlib.Core.Bool.{Bool, false}
use mathlib.Core.List.{List, [], ◌∷◌, Permᴰ}
use mathlib.Core.List.Permᴰ
use llm_router.Common.Tests.{if◌then◌else◌, Bool-cases}
use llm_router.Common.Lists.{All}
use llm_router.Common.Sort.{IsWeakOrder, IsSorted, SortSlice}

module _ {ℓ} {A : Type ℓ} (less : A → A → Bool) where
  abbrev pub put : A → List A → List A
  put x [] = x ∷ []
  put x (y ∷ ys) = let rest = put x ys in if less y x then y ∷ rest else x ∷ y ∷ ys

  abbrev pub insert_sort : List A → List A
  insert_sort [] = []
  insert_sort (x ∷ xs) = put x (insert_sort xs)

  pub put-perm : (x : A) (ys : List A) → Permᴰ (put x ys) (x ∷ ys)
  put-perm x [] = Permᴰ.refl (x ∷ [])
  put-perm x (y ∷ ys) = elim (Bool-cases (less y x)) [
    | inr n ↦ rw n (Permᴰ.refl (x ∷ y ∷ ys))
    | inl t ↦ rw t (Permᴰ.trans (Permᴰ.cons refl (put-perm x ys)) (Permᴰ.swap refl refl))
  ]

  pub insert_sort-perm : (xs : List A) → Permᴰ (insert_sort xs) xs
  insert_sort-perm [] = Permᴰ.nil
  insert_sort-perm (x ∷ xs) =
      Permᴰ.trans (put-perm x (insert_sort xs)) (Permᴰ.cons refl (insert_sort-perm xs))

  All-put :
      (z x : A) (ys : List A)
      → less x z ≡ false
      → All (λ y. less y z ≡ false) ys
      → All (λ y. less y z ≡ false) (put x ys)
  All-put z x [] h a = (h, tt)
  All-put z x (y ∷ ys) h a = elim (Bool-cases (less y x)) [
    | inr n ↦ rw n (h, a)
    | inl t ↦ rw t (a.0, All-put z x ys h a.1)
  ]

  module _ (weak : IsWeakOrder less) where
    All-trans :
        (x y : A) (zs : List A)
        → less y x ≡ false
        → All (λ z. less z y ≡ false) zs
        → All (λ z. less z x ≡ false) zs
    All-trans x y [] h a = tt
    All-trans x y (z ∷ zs) h a = (weak.trans x y z h a.0, All-trans x y zs h a.1)

    pub put-IsSorted : (x : A) (ys : List A) → IsSorted less ys → IsSorted less (put x ys)
    put-IsSorted x [] h = (tt, tt)
    put-IsSorted x (y ∷ ys) h = elim (Bool-cases (less y x)) [
      | inr n ↦ rw n ((n, All-trans x y ys n h.0), h)
      | inl t ↦ rw t (All-put y x ys (weak.asym y x t) h.0, put-IsSorted x ys h.1)
    ]

    pub insert_sort-IsSorted : (xs : List A) → IsSorted less (insert_sort xs)
    insert_sort-IsSorted [] = tt
    insert_sort-IsSorted (x ∷ xs) = put-IsSorted x (insert_sort xs) (insert_sort-IsSorted xs)

abbrev pub by_insertion {ℓ} : {A : Type ℓ} → SortSlice A
by_insertion = record {
  sort = insert_sort;
  sort-perm = insert_sort-perm;
  sort-IsSorted = insert_sort-IsSorted;
}
