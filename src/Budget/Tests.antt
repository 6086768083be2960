-- ===== src/Budget/Tests.antt =====
-- One key with a soft limit only for a day and a hard limit of 10 for a month, of which 7 are spent.
use llm_router.Common.{ℕ, ◌+◌, String, true, Option, none, some, List, [], ◌∷◌, leb, ◌==◌}
use llm_router.Common.Fallible.{ok}
use llm_router.Budget.{Budget, BudgetHost, KeyIds}

abbrev budget : String → Option ℕ → Budget ℕ
budget period limit = record {
  entity_type = "key";
  entity_id = "k";
  period = period;
  soft_limit_usd = some 5;
  hard_limit_usd = limit;
  current_spend = 7;
  period_start = 0;
  period_end = 100;
}

abbrev both : List (Budget ℕ)
both = budget "daily" none ∷ budget "monthly" (some 10) ∷ []

abbrev ledger : BudgetHost ℕ ℕ
ledger = record {
  is_zero = λ c. c == 0;
  at_least = λ a b. leb b a;
  now = λ w. w;
  list = λ t i w. (ok both, w + 1);
  add_spend = λ t i p c w. (true, w + 1);
  incr_spend = λ t i p c w. (ok c, w + 1);
  get_spend = λ t i p w. (ok none, w + 1);
  set_spend = λ t i p c w. (true, w + 1);
}

abbrev ids : KeyIds
ids = record { id = "k"; team_id = some "t"; org_id = none }

abbrev handler : ℕ → String × Option ℕ × ℕ
handler w = ("done", some 2, w + 1)
