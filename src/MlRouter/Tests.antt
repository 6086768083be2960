-- ===== src/MlRouter/Tests.antt =====
-- Two models, the second of which is cheaper; whole numbers stand for the scores.
use mathlib.Core.List.{Permᴰ}
use llm_router.Common.{
  ℕ, ◌+◌, ◌-◌, ◌*◌, ◌/◌, String, refl, true, false, none, [], ◌∷◌, map, arith, str_eq, ltb,
  if◌then◌else◌,
}
use llm_router.Common.Sort.{IsWeakOrder, IsSorted}
use llm_router.MlRouter.Classifier.{Floats, Texts, any_char}
use llm_router.MlRouter.Scorer.{Scorer, ModelEntry, higher, entries_of, scored, ranking}
use llm_router.MlRouter.Ranking.{ranking-IsSorted}
use llm_router.MlRouter.CamelCase.{NoUpper}

-- Thousandths.
abbrev thousandths : Floats ℕ
thousandths = record {
  ratio = λ a b. a * 1000 / b;
  add = ◌+◌;
  sub = ◌-◌;
  mul = λ a b. a * b / 1000;
  div = λ a b. a * 1000 / b;
  less = ltb;
}

ltb-IsWeakOrder : IsWeakOrder ltb
ltb-IsWeakOrder = record {
  irrefl = λ x. ground arith;
  trans = λ x y z p q. ground arith;
  asym = λ x y p. ground arith;
}

abbrev entry : String → ModelEntry ℕ
entry name = record { provider = "p"; model = name; quality_score = 500 }

abbrev two_models : Scorer ℕ
two_models = record {
  weights = record { cost = 300; quality = 400; latency = 200; reliability = 100 };
  tiers = ("medium", entry "big" ∷ entry "small" ∷ []) ∷ [];
  calculate = λ m i o. if str_eq m "big" then 80 else 10;
  error_rate = none;
}

ranking-IsSorted_example :
    Permᴰ
      (ranking thousandths two_models "premium" 100 50)
      (map (scored thousandths two_models 100 50) (entries_of thousandths two_models "premium"))
    × IsSorted (higher thousandths) (ranking thousandths two_models "premium" 100 50)
ranking-IsSorted_example = ranking-IsSorted thousandths ltb-IsWeakOrder two_models "premium" 100 50

abbrev lower_only : Texts
lower_only = record {
  fields = λ s. s ∷ [];
  to_lower = λ s. "";
  trim_marks = λ s. s;
  contains = λ s t. false;
  is_digit = λ c. false;
  is_upper = λ c. true;
}

no_upper : (s : String) → NoUpper lower_only (lower_only.to_lower s)
unfolding any_char
no_upper s = refl
