-- ===== src/Health/Tests.antt =====
-- A tracker on a few outcomes, and a witness.
use llm_router.Common.{
  ℕ, ◌+◌, ◌-◌, ◌*◌, ◌/◌, ◌≡◌, refl, true, false, List, [], ◌∷◌, arith, ltb, select, insert,
}
use llm_router.MlRouter.Classifier.{Floats}
use llm_router.Health.{
  healthy, degraded, unhealthy, new_provider_tracker, rate_of, error_rate, health_of, status,
  record_outcome,
}
use llm_router.Health.Window.{Op, records, asks, step, run, is_recent, outcomes, error_rate_recent}

-- Floats in thousandths.
abbrev milli : Floats ℕ
milli = record {
  ratio = λ p q. p * 1000 / q;
  add = λ x y. x + y;
  sub = λ x y. x - y;
  mul = λ x y. x * y / 1000;
  div = λ x y. x * 1000 / y;
  less = ltb;
}

abbrev day : List Op
day =
    records "openai" false 1 2
    ∷ records "gemini" true 2 3
    ∷ records "openai" true 40_000_000_000 40_000_000_001
    ∷ asks "openai" 50_000_000_000
    ∷ records "openai" true 50_000_000_000 50_000_000_000
    ∷ []

health_tests :
    ((status milli "openai" 50_000_000_000 (run day new_provider_tracker)).0 ≡ degraded)
    × ((status milli "openai" 70_000_000_000 (run day new_provider_tracker)).0 ≡ healthy)
    × ((status milli "azure" 50_000_000_000 (run day new_provider_tracker)).0 ≡ healthy)
    × (health_of milli 500 ≡ unhealthy)
unfolding status run insert step record_outcome
health_tests = (refl, refl, refl, refl)

error_rate_recent_example :
    ((error_rate milli "openai" 70_000_000_000 (run day new_provider_tracker)).0
      ≡ rate_of milli (select (is_recent 70_000_000_000) (outcomes "openai" day)))
    × ((status milli "openai" 70_000_000_000 (run day new_provider_tracker)).0
        ≡ health_of milli
            (rate_of milli (select (is_recent 70_000_000_000) (outcomes "openai" day))))
error_rate_recent_example = error_rate_recent milli "openai" day 70_000_000_000 (
  omega arith,
  omega arith,
  (
    omega arith,
    omega arith,
    (omega arith, omega arith, (omega arith, (omega arith, omega arith, omega arith))),
  ),
)
