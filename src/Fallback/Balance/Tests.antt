-- ===== src/Fallback/Balance/Tests.antt =====
-- The load balancers on three targets.
use mathlib.Core.List.{Permᴰ}
use llm_router.Common.{
  ℕ, String, Bool, false, ◌+◌, ◌-◌, ◌^◌, ◌≡◌, refl, some, List, [], ◌∷◌, arith, ◌*◌, ◌/◌, ltb, ◌==◌,
}
use llm_router.Common.Int.{pos, negsuc}
use llm_router.Common.Sort.{IsWeakOrder}
use llm_router.Common.InsertSort.{by_insertion}
use llm_router.MlRouter.Classifier.{Floats}
use llm_router.Telemetry.Latency.{LatencyTracker}
use llm_router.Fallback.{Target}
use llm_router.Fallback.Balance.{weighted_sort, round_robin_sort}
use llm_router.Fallback.Balance.Least.{
  least_latency_sort, least_cost_sort, NoSlower, InOrder, value_of, least_sort-InOrder,
}

abbrev a : Target
a = record { provider = "openai"; model = "gpt-4o"; weight = pos 3 }

abbrev b : Target
b = record { provider = "gemini"; model = "pro"; weight = pos 0 }

abbrev c : Target
c = record { provider = "azure"; model = "gpt-4o"; weight = negsuc 4 }

abbrev three : List Target
three = a ∷ b ∷ c ∷ []

balance_tests :
    (weighted_sort (λ n. 3) three ≡ b ∷ a ∷ c ∷ [])
    × (weighted_sort (λ n. 2) three ≡ a ∷ b ∷ c ∷ [])
    × (round_robin_sort 0 three ≡ (1, b ∷ c ∷ a ∷ []))
    × (round_robin_sort (2 ^ 64 - 1) three ≡ (0, three))
unfolding weighted_sort round_robin_sort
balance_tests = (refl, refl, refl, refl)

-- Floats in thousandths.
abbrev milli : Floats ℕ
milli = record {
  ratio = λ p q. p * 1000 / q;
  add = λ x y. x + y;
  sub = λ x y. x - y;
  mul = λ x y. x * y / 1000;
  div = λ x y. x * 1000 / y;
  less = ltb;
}

milli-IsWeakOrder : IsWeakOrder ltb
milli-IsWeakOrder = record {
  irrefl = λ x. ground arith;
  trans = λ x y z p q. ground arith;
  asym = λ x y p. ground arith;
}

abbrev measured : LatencyTracker ℕ
measured = record { ewma = ("azure", 80000) ∷ ("openai", 120000) ∷ []; alpha = 100 }

least_tests :
    (least_latency_sort milli (λ x. x == 0) by_insertion (some measured) three ≡ c ∷ a ∷ b ∷ [])
    × (least_cost_sort milli (λ x. x == 0) by_insertion (("openai", 5) ∷ []) three ≡ b ∷ c ∷ a ∷ [])
unfolding least_latency_sort least_cost_sort
least_tests = (refl, refl)

abbrev no_latency : ℕ → Bool
no_latency x = x == 0

abbrev costs : List (String × ℕ)
costs = ("openai", 5) ∷ []

least_sort-InOrder_example :
    (Permᴰ (least_latency_sort milli no_latency by_insertion (some measured) three) three
      × InOrder milli no_latency by_insertion
          (λ x y.
            NoSlower milli no_latency by_insertion
              (value_of milli no_latency by_insertion measured.ewma x)
              (value_of milli no_latency by_insertion measured.ewma y))
          (least_latency_sort milli no_latency by_insertion (some measured) three))
    × (Permᴰ (least_cost_sort milli no_latency by_insertion costs three) three
        × InOrder milli no_latency by_insertion
            (λ x y.
              ltb
                (value_of milli no_latency by_insertion costs y)
                (value_of milli no_latency by_insertion costs x)
              ≡ false)
            (least_cost_sort milli no_latency by_insertion costs three))
least_sort-InOrder_example =
    least_sort-InOrder milli no_latency by_insertion measured costs three milli-IsWeakOrder
