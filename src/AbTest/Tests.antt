-- ===== src/AbTest/Tests.antt =====
-- Experiments on small inputs, and witnesses of the properties.
use Prim.Native.String.{len, ◌++◌ as str_append}
use llm_router.Common.{
  ℕ, zero, suc, ◌+◌, ◌-◌, ◌*◌, ◌/◌, ◌≡◌, ◌∙◌, any, refl, String, true, false, none, some, List, [],
  ◌∷◌, ltb, ◌==◌, arith, ◌⊎◌, ◌<◌, ◌≤◌, if◌then◌else◌, select,
}
use llm_router.Common.Int.{pos}
use llm_router.Common.Texts.{strip_suffix}
use llm_router.ExactCache.Store.{ChatRequest}
use llm_router.MlRouter.Classifier.{Floats}
use llm_router.AbTest.Experiment.{
  Status, running, paused, TrafficSplit, Experiment, AbHost, is_active, is_sampled_out, bucket_of,
  assign, model_for_variant,
}
use llm_router.AbTest.Store.{Observation, VariantStats, of_variant, insert_result}
use llm_router.AbTest.Middleware.{
  State, HttpRequest, rerouted, LogContext, entity_of, handle, is_live, observation, record_result,
  with_model,
}
use llm_router.AbTest.Admin.{transition}
use llm_router.AbTest.Assignment.{OnSpan, total, assign_span}
use llm_router.AbTest.Sync.{moves, run, step}
use llm_router.AbTest.Rerouting.{IsFirst, run-rerouted}
use llm_router.AbTest.Stopping.{IsStopped, record_result-IsStopped}
use llm_router.AbTest.Analysis.{AnalysisHost, analyze}
use llm_router.AbTest.Winner.{
  verdict, IsSigned, tested, differs, is_lower, is_not_lower, analyze-winner,
}

-- Floats in thousandths.
abbrev milli : Floats ℕ
milli = record {
  ratio = λ p q. p * 1000 / q;
  add = λ x y. x + y;
  sub = λ x y. x - y;
  mul = λ x y. x * y / 1000;
  div = λ x y. x * 1000 / y;
  less = ltb;
}

-- The world is the clock; the hash is the length.
abbrev host : AbHost ℕ ℕ
host = record {
  floats = milli;
  fnv_32a = len;
  now = λ w. w;
  execute = λ w. (true, suc w);
  new_id = λ w. "new";
}

host-up : (w : ℕ) → (host.execute w).0 ≡ true
host-up w = refl

abbrev test : Status → Experiment ℕ
test status = record {
  id = "t";
  name = "cheaper";
  status = status;
  traffic_split =
      record { variant = "control"; model = "gpt-4o"; weight = pos 3 }
      ∷ record { variant = "treatment"; model = "gpt-4o-mini"; weight = pos 97 }
      ∷ [];
  target = record { team_ids = []; sample_rate = 1000 };
  success_metrics = [];
  min_samples = pos 1000;
  confidence_level = 950;
  start_at = some 5;
  end_at = none;
  winner = "";
  created_at = 1;
  updated_at = 1;
}

assign_span_example :
    (s : TrafficSplit) × (assign host 7 (test running) "key" ≡ s.variant)
    × OnSpan (bucket_of host (test running) "key") 0 (test running).traffic_split s
unfolding is_active is_sampled_out total
assign_span_example = assign_span host 7 (test running) "key" refl refl refl

-- A paused experiment, which the middleware does not hold.
abbrev idle : State ℕ ℕ
idle = record {
  tests = [];
  world = record { db = record { tests = test paused ∷ []; results = [] }; outside = 10 };
}

abbrev asked : ChatRequest ℕ
asked = record {
  model = "gpt-4o";
  messages = [];
  temperature = none;
  max_tokens = none;
  top_p = none;
  n = none;
  stream = false;
  stop = "";
  presence_penalty = none;
  frequency_penalty = none;
  user = "";
  tools = [];
}

abbrev post : HttpRequest ℕ
post = record {
  method = "POST";
  path = "/v1/chat/completions";
  authorization = "Bearer key";
  remote_addr = "";
  request_id = "r";
  body = some asked;
}

abbrev started : State ℕ ℕ
unfolding run step transition
started = run host (λ l. 0) (moves running "t" ∷ []) idle

abbrev live : Experiment ℕ
live = record (test running) { updated_at = 11 }

abbrev cheap : ChatRequest ℕ
cheap = record asked { model = "gpt-4o-mini" }

goes : handle host (λ q. false) started post ≡ rerouted cheap live "treatment"
unfolding handle run step transition strip_suffix
goes = refl

run-rerouted_example :
    (is_active (host.now started.world.outside) live ≡ true)
    × IsFirst host
        (host.now started.world.outside)
        (select (is_live host) started.world.db.tests)
        (entity_of host post)
        live
        "treatment"
    × ((req : ChatRequest ℕ) × (post.body ≡ some req) × (cheap ≡ with_model host "gpt-4o-mini" req))
unfolding run step transition model_for_variant
run-rerouted_example =
    run-rerouted host (λ l. 0) host-up (moves running "t" ∷ []) idle (λ q. false) post cheap live
      "treatment" refl goes

-- 99 results with an error.
abbrev failed : String → Observation ℕ
failed request_id = record {
  test_id = "t";
  variant = "treatment";
  request_id = request_id;
  timestamp = 1;
  model = "gpt-4o-mini";
  latency_ms = 3;
  prompt_tokens = 0;
  completion_tokens = 0;
  cost_usd = 0;
  error = true;
  finish_reason = "";
}

abbrev failures : ℕ → String → List (Observation ℕ)
failures zero id = []
failures (suc n) id = failed id ∷ failures n (str_append id "x")

abbrev failing : State ℕ ℕ
failing = record {
  tests = live ∷ [];
  world = record { db = record { tests = live ∷ []; results = failures 99 "x" }; outside = 20 };
}

abbrev log : LogContext ℕ
log = record {
  error_code = "";
  finish_reason = "stop";
  prompt_tokens = 9;
  completion_tokens = 4;
  cost_usd = 1;
}

record_result-IsStopped_example :
    IsStopped host "t"
      (record_result host (λ l. 0) live "treatment" "gpt-4o-mini" "r" 18 (some log) failing)
unfolding insert_result
record_result-IsStopped_example =
    record_result-IsStopped host (λ l. 0) host-up live "treatment" "gpt-4o-mini" "r" 18 (some log)
      failing
      (select (of_variant "t" "treatment")
        (insert_result host (observation host live "treatment" "gpt-4o-mini" "r" 18 20 (some log))
          failing.world).1.db.results)
      refl (omega arith) refl

-- Floats in thousandths, counted from minus a million, as far as the comparison needs them.
abbrev base : ℕ
base = 1000000

-- A product or a quotient of positive factors, with the sign of the number.
abbrev scaled : ℕ → ℕ → ℕ → ℕ
scaled x p q = if ltb x base then base - suc ((base - x) * p / q) else base + (x - base) * p / q

abbrev signed : Floats ℕ
signed = record {
  ratio = λ p q. base + p * 1000 / q;
  add = λ x y. x + y - base;
  sub = λ x y. x + base - y;
  mul = λ x y. scaled x (y - base) 1000;
  div = λ x y. scaled x 1000 (y - base);
  less = ltb;
}

abbrev analysis : AnalysisHost ℕ
analysis = record {
  floats = signed;
  lit = λ s. base + 200;
  eq = ◌==◌;
  sqrt = λ x. x;
  exp = λ x. if ltb x base then base else base + 1000;
  abs = λ x. if ltb x base then base + (base - x) else x;
  neg = λ x. base + base - x;
  max = λ x y. if ltb x y then y else x;
  ceil = λ x. (x - base) / 1000;
  sort_floats = λ l. l;
  fmt_1 = λ x. "0.0";
}

scaled-less : (x p q : ℕ) → ltb (scaled x p q) base ≡ ltb x base
scaled-less x p q = ground arith

sub-less : (t c : ℕ) → ltb (t + base - c) base ≡ ltb t c
sub-less t c = ground arith

analysis-IsSigned : IsSigned analysis
analysis-IsSigned c t positive e =
    scaled-less (scaled (t + base - c) 1000 (c - base)) 100000 1000
    ∙ scaled-less (t + base - c) 1000 (c - base)
    ∙ sub-less t c

abbrev stats_for : String → ℕ → ℕ → VariantStats ℕ
stats_for variant latency cost = record {
  variant = variant;
  samples = 40;
  latency_p95_ms = base + latency;
  avg_latency_ms = base + latency;
  avg_cost_per_req = base + cost;
  error_rate = base;
  error_count = 0;
  latency_values = [];
}

abbrev before : VariantStats ℕ
before = stats_for "control" 900000 5000

abbrev after : VariantStats ℕ
after = stats_for "treatment" 300000 2000

abbrev gathered : List (String × VariantStats ℕ)
gathered = ("control", before) ∷ ("treatment", after) ∷ []

abbrev certain : Experiment ℕ
certain = record live { confidence_level = base + 950 }

analyze-winner_example :
    ((40 < 30) ⊎ (40 < 30)
      → ((analyze analysis certain gathered).winner ≡ "")
        × ((analyze analysis certain gathered).significance ≡ []))
    × (30 ≤ 40
        → 30 ≤ 40
        → (analyze analysis certain gathered).winner
          ≡ verdict analysis "control" "treatment" ""
              (any (differs analysis (base + 50)) (tested analysis before after))
              (any (is_not_lower analysis (base + 50)) (tested analysis before after))
              (any (is_lower analysis (base + 50)) (tested analysis before after)))
analyze-winner_example =
    analyze-winner analysis certain gathered _ _ _ before after analysis-IsSigned refl
      (refl, refl, refl) refl refl refl

treatment_wins : (analyze analysis certain gathered).winner ≡ "treatment"
unfolding analyze
treatment_wins = refl
