-- ===== src/CircuitBreaker/Tests.antt =====
-- The breaker on concrete calls, and the theorems about it at concrete inputs.
use llm_router.Common.{
  insert, ◌≡◌, refl, true, false, List, [], ◌∷◌, arith, ltb, select, str_eq, ◌+◌,
}
use llm_router.CircuitBreaker.{
  record_failure, state_closed, state_open, state_half_open, Breaker, Config, Entry, new, is_open,
}
use llm_router.CircuitBreaker.View.{
  Op, apply, ask, fail, provider, entry_of, run, entry_run, entry_step, entry_of-run,
}
use llm_router.CircuitBreaker.Machine.{
  IsValid, run-IsValid, Edge, entry_step-Edge, asks, open_blocks_until,
}

abbrev small : Config
small = record { failure_threshold = 2; success_threshold = 2; open_timeout = 60 }

abbrev mixed : List Op
mixed = fail 10 "openai" ∷ fail 11 "gemini" ∷ fail 12 "openai" ∷ ask 20 "openai" ∷ []

abbrev tripped : Breaker
tripped = record {
  entries =
      ("openai", record { state = state_open; failures = 2; successes = 0; last_failure_at = 12 })
      ∷ (
        "gemini",
        record { state = state_half_open; failures = 0; successes = 0; last_failure_at = 5 },
      )
      ∷ [];
  cfg = small;
}

run_tests :
    ((entry_of "openai" (run mixed (new small))).state ≡ state_open)
    × ((entry_of "gemini" (run mixed (new small))).state ≡ state_closed)
    × ((is_open 71 "openai" (run mixed (new small))).0 ≡ true)
    × ((is_open 72 "openai" (run mixed (new small))).0 ≡ false)
unfolding run new is_open apply record_failure insert
run_tests = (refl, refl, refl, refl)

entry_of-run_example :
    entry_of "openai" (run mixed (new small))
    ≡ entry_run
        (new small).cfg
        (select (λ op. str_eq (provider op) "openai") mixed)
        (entry_of "openai" (new small))
entry_of-run_example = entry_of-run mixed "openai" (new small)

run-IsValid_example : IsValid small (entry_of "openai" (run mixed (new small)))
run-IsValid_example = run-IsValid small mixed "openai" (omega arith) (omega arith)

abbrev failing : Entry
failing = record { state = state_closed; failures = 1; successes = 0; last_failure_at = 3 }

entry_step-Edge_example :
    Edge small failing
      (fail 9 "openai")
      failing.state
      (entry_step small (fail 9 "openai") failing).state
entry_step-Edge_example = entry_step-Edge small (fail 9 "openai") failing

open_blocks_until_example :
    (is_open 70 "openai" (run (asks "openai" (30 ∷ 71 ∷ [])) tripped)).0 ≡ ltb 70 (12 + 60)
open_blocks_until_example = open_blocks_until tripped "openai" (30 ∷ 71 ∷ []) 70 refl (omega arith)
