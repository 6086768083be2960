-- ===== src/MlRouter/Ranking.antt =====
-- internal/mlrouter/scorer.go and router.go: the order of the ranking.
use mathlib.Core.List.{Permᴰ}
use mathlib.Core.List.Permᴰ
use llm_router.Common.{
  ℕ, String, ◌≡◌, refl, ap, subst, false, List, [], ◌∷◌, ◌++◌, map, All, All-append,
}
use llm_router.Common.Sort.{IsWeakOrder, IsSorted}
use llm_router.Common.InsertSort.{put, put-perm, put-IsSorted}
use llm_router.MlRouter.Classifier.{Floats}
use llm_router.MlRouter.Scorer.{
  Scorer, Scored, higher, lower, sort_scored, entries_of, scored, reversed, ranking,
}

snoc-perm : {A : Type 0} (x : A) (xs : List A) → Permᴰ (xs ++ (x ∷ [])) (x ∷ xs)
snoc-perm x [] = Permᴰ.refl (x ∷ [])
snoc-perm x (y ∷ ys) = Permᴰ.trans (Permᴰ.cons refl (snoc-perm x ys)) (Permᴰ.swap refl refl)

reversed-perm : {A : Type 0} (xs : List A) → Permᴰ (reversed xs) xs
unfolding reversed
reversed-perm [] = Permᴰ.nil
reversed-perm (x ∷ xs) =
    Permᴰ.trans (snoc-perm x (reversed xs)) (Permᴰ.cons refl (reversed-perm xs))

append-perm :
    {A : Type 0} (xs : List A) {ys zs : List A} → Permᴰ ys zs → Permᴰ (xs ++ ys) (xs ++ zs)
append-perm [] p = p
append-perm (x ∷ xs) p = Permᴰ.cons refl (append-perm xs p)

append-nil : {A : Type 0} (xs : List A) → xs ++ [] ≡ xs
append-nil [] = refl
append-nil (x ∷ xs) = ap (λ r. x ∷ r) (append-nil xs)

module _ {F : Type 0} (f : Floats F) where
  sort_scored-perm : (rs done : List (Scored F)) → Permᴰ (sort_scored f rs done) (rs ++ done)
  unfolding sort_scored
  sort_scored-perm [] done = Permᴰ.refl done
  sort_scored-perm (r ∷ rs) done =
      Permᴰ.trans (sort_scored-perm rs (put (lower f) r done))
        (Permᴰ.trans (append-perm rs (put-perm (lower f) r done)) (Permᴰ.middle r rs done))

  module _ (weak : IsWeakOrder f.less) where
    lower-IsWeakOrder : IsWeakOrder (lower f)
    lower-IsWeakOrder = record {
      irrefl = λ x. weak.irrefl x.1;
      trans = λ x y z. weak.trans x.1 y.1 z.1;
      asym = λ x y. weak.asym x.1 y.1;
    }

    sort_scored-IsSorted :
        (rs done : List (Scored F))
        → IsSorted (lower f) done
        → IsSorted (lower f) (sort_scored f rs done)
    unfolding sort_scored
    sort_scored-IsSorted [] done s = s
    sort_scored-IsSorted (r ∷ rs) done s =
        sort_scored-IsSorted rs (put (lower f) r done)
          (put-IsSorted (lower f) lower-IsWeakOrder r done s)

    IsSorted-snoc :
        (xs : List (Scored F)) (x : Scored F)
        → IsSorted (higher f) xs
        → All (λ y. higher f x y ≡ false) xs
        → IsSorted (higher f) (xs ++ (x ∷ []))
    IsSorted-snoc [] x s a = (tt, tt)
    IsSorted-snoc (y ∷ ys) x s a = (
      All-append (λ z. higher f z y ≡ false) ys (x ∷ []) s.0 (a.0, tt),
      IsSorted-snoc ys x s.1 a.1,
    )

    All-reversed : (P : Scored F → Type 0) (xs : List (Scored F)) → All P xs → All P (reversed xs)
    unfolding reversed
    All-reversed P [] a = tt
    All-reversed P (x ∷ xs) a =
        All-append P (reversed xs) (x ∷ []) (All-reversed P xs a.1) (a.0, tt)

    reversed-IsSorted :
        (xs : List (Scored F)) → IsSorted (lower f) xs → IsSorted (higher f) (reversed xs)
    unfolding reversed
    reversed-IsSorted [] s = tt
    reversed-IsSorted (x ∷ xs) s =
        IsSorted-snoc (reversed xs) x (reversed-IsSorted xs s.1)
          (All-reversed (λ y. lower f y x ≡ false) xs s.0)

    -- The ranking holds each model of the tier, or of the tier that stands in for it, once with its
    -- score, and no model stands behind one with a lower score, if `<` is a strict weak order on
    -- the scores.
    pub ranking-IsSorted :
        (s : Scorer F) (tier : String) (input output : ℕ)
        → Permᴰ
            (ranking f s tier input output)
            (map (scored f s input output) (entries_of f s tier))
          × IsSorted (higher f) (ranking f s tier input output)
    unfolding ranking
    ranking-IsSorted s tier input output =
        let es = map (scored f s input output) (entries_of f s tier) in
        (
          Permᴰ.trans (reversed-perm (sort_scored f es []))
              (subst (λ l. Permᴰ (sort_scored f es []) l) (append-nil es) (sort_scored-perm es [])),
          reversed-IsSorted (sort_scored f es []) (sort_scored-IsSorted es [] tt),
        )
