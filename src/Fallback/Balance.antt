-- ===== src/Fallback/Balance.antt =====
-- internal/gateway/fallback/load_balancer.go: the orders in which targets are tried. The sums of
-- weights are not bounded (they stay far below 2 ^ 63). `LeastLatency` and `LeastCost` are in the
-- child Least.
pub mod Laws
pub mod Weighted
pub mod Least
mod Tests
use llm_router.Common.{
  ℕ, zero, suc, ◌+◌, ◌%◌, ◌^◌, none, some, List, [], ◌∷◌, ltb, leb, if◌then◌else◌, length,
  get_elem?,
}
use llm_router.Common.Int.{ℤ, pos, negsuc}
use llm_router.Fallback.{Target}

-- `w := t.Weight; if w <= 0 { w = 1 }`.
unfoldable pub effective_weight : ℤ → ℕ
effective_weight (pos zero) = 1
effective_weight (pos (suc n)) = suc n
effective_weight (negsuc n) = 1

unfoldable pub total_weight : List Target → ℕ
unfolding effective_weight
total_weight [] = 0
total_weight (t ∷ ts) = effective_weight t.weight + total_weight ts

-- The loop that finds the chosen index; 0 if no prefix is heavy enough.
unfoldable pub choose : ℕ → ℕ → ℕ → List Target → ℕ
unfolding effective_weight
choose pick i cumulative [] = 0
choose pick i cumulative (t ∷ ts) =
    let heavier = cumulative + effective_weight t.weight in
    let rest = choose pick (i + 1) heavier ts in if ltb pick heavier then i else rest

-- `result[0] = targets[chosen]`, and the others in their order.
unfoldable pub without : ℕ → List Target → List Target
without i [] = []
without zero (t ∷ ts) = ts
without (suc i) (t ∷ ts) = t ∷ without i ts

unfoldable pub move_first : ℕ → List Target → List Target
unfolding without
move_first i ts = elim (get_elem? ts i) [ some t ↦ t ∷ without i ts | none ↦ without i ts ]

-- `WeightedRandom.Sort`, where `pick` is the result of `rand.Intn(total)`.
unfoldable pub weighted_sort : (ℕ → ℕ) → List Target → List Target
unfolding total_weight choose move_first
weighted_sort intn ts =
    if leb (length ts) 1 then ts else move_first (choose (intn (total_weight ts)) 0 0 ts) ts

-- `for i := range targets { result[i] = targets[(idx+i)%n] }`, from index i on, `left` rounds.
unfoldable pub rotate_from : List Target → ℕ → ℕ → ℕ → List Target
rotate_from ts idx i zero = []
rotate_from ts idx i (suc left) =
    let rest = rotate_from ts idx (i + 1) left in
    elim (get_elem? ts ((idx + i) % length ts)) [ some t ↦ t ∷ rest | none ↦ rest ]

-- `RoundRobin.Sort` with the counter, an atomic uint64.
unfoldable pub round_robin_sort : ℕ → List Target → ℕ × List Target
unfolding rotate_from
round_robin_sort counter ts =
    if leb (length ts) 1
    then (counter, ts)
    else let counter' = (counter + 1) % 2 ^ 64 in
      (counter', rotate_from ts (counter' % length ts) 0 (length ts))
