-- ===== src/Fallback/Balance/Weighted.antt =====
-- internal/gateway/fallback/load_balancer.go: the weighted choice.
use mathlib.Core.List.Permᴰ
use mathlib.Core.List.{Permᴰ}
use llm_router.Common.{
  ℕ, zero, suc, ◌+◌, ◌≤◌, ◌<◌, ◌≡◌, refl, ◌∙◌, inl, inr, false, some, List, [], ◌∷◌, arith, ltb,
  leb, Bool-cases, length, get_elem?, take,
}
use llm_router.Common.Int.{ℤ, pos, negsuc}
use llm_router.Fallback.{Target}
use llm_router.Fallback.Balance.{
  effective_weight, total_weight, choose, without, move_first, weighted_sort,
}

effective_weight_pos : (w : ℤ) → 0 < effective_weight w
unfolding effective_weight
effective_weight_pos (pos zero) = omega arith
effective_weight_pos (pos (suc n)) = omega arith
effective_weight_pos (negsuc n) = omega arith

without-perm :
    (i : ℕ) (ts : List Target) (t : Target) → get_elem? ts i ≡ some t → Permᴰ (t ∷ without i ts) ts
unfolding without
without-perm i [] t e = cc
without-perm zero (u ∷ ts) t e = Permᴰ.cons (cc e) (Permᴰ.refl ts)
without-perm (suc i) (u ∷ ts) t e =
    Permᴰ.trans (Permᴰ.swap refl refl) (Permᴰ.cons refl (without-perm i ts t e))

-- The chosen index is in range, and its span of the weights holds the pick.
choose_span :
    (pick i cumulative : ℕ) (ts : List Target)
    → cumulative ≤ pick
    → pick < cumulative + total_weight ts
    → (k : ℕ) × (t : Target) × (choose pick i cumulative ts ≡ i + k)
      × (get_elem? ts k ≡ some t)
      × (cumulative + total_weight (take k ts) ≤ pick)
      × (pick < cumulative + total_weight (take k ts) + effective_weight t.weight)
unfolding choose total_weight
choose_span pick i c [] low high = absurd (omega arith)
choose_span pick i c (t ∷ ts) low high =
    elim (Bool-cases (ltb pick (c + effective_weight t.weight))) [
      | inl y ↦ (0, t, rw y (omega arith), refl, omega arith, ground arith)
      | inr n ↦
          let (k, u, e, at_k, lo, hi) =
            choose_span pick (i + 1) (c + effective_weight t.weight) ts (ground arith)
              (omega arith) in
          (suc k, u, rw n (e ∙ omega arith), at_k, omega arith, omega arith)
    ]

-- With at least two targets and a pick below the total weight, `WeightedRandom.Sort` puts first the
-- target whose span of the cumulated weights holds the pick, so that each target is first for as
-- many picks as its weight, or for one if its weight is not positive; the result is a permutation
-- of the targets.
pub weighted_sort-span :
    (intn : ℕ → ℕ) (ts : List Target)
    → 1 < length ts
    → intn (total_weight ts) < total_weight ts
    → (k : ℕ) × (t : Target) × (get_elem? ts k ≡ some t)
      × (weighted_sort intn ts ≡ t ∷ without k ts)
      × (total_weight (take k ts) ≤ intn (total_weight ts))
      × (intn (total_weight ts) < total_weight (take k ts) + effective_weight t.weight)
      × Permᴰ (weighted_sort intn ts) ts
unfolding weighted_sort
weighted_sort-span intn ts h low =
    let (k, t, e, at_k, lo, hi) =
      choose_span (intn (total_weight ts)) 0 0 ts (omega arith) (omega arith) in
    let many : leb (length ts) 1 ≡ false = ground arith in
    let chosen : choose (intn (total_weight ts)) 0 0 ts ≡ k = e ∙ omega arith in
    let sorted : weighted_sort intn ts ≡ t ∷ without k ts =
      rw (many, chosen) (rw (at_k, move_first) refl) in
    (k, t, at_k, sorted, omega arith, omega arith, rw sorted (without-perm k ts t at_k))
