-- ===== src/AbTest/Analysis.antt =====
-- internal/abtest/analyzer.go: the comparison of the first two variants. Floats, functions of package
-- math, sorting and the printing of floats are the record `AnalysisHost`;
-- no NaN occurs.
use Prim.Native.String.{◌++◌ as str_append}
use llm_router.Common.{
  ℕ, suc, ◌+◌, ◌-◌, String, Bool, not, ◌&&◌, ◌||◌, Option, none, some, List, [], ◌∷◌, ltb, ◌==◌,
  if◌then◌else◌, length, lookup, insert, get_elem?,
}
use llm_router.Common.Int.{pos}
use llm_router.MlRouter.Classifier.{Floats}
use llm_router.AbTest.Experiment.{Status, TrafficSplit, Experiment}
use llm_router.AbTest.Store.{VariantStats}

-- `lit` is a decimal constant, `ceil` the conversion of `math.Ceil` to `int`, `sort_floats` is
-- `sort.Float64s`, `fmt_1` is the format `%.1f`.
pub record AnalysisHost (F : Type 0) : Type 0 where
  pub floats : Floats F
  pub lit : String → F
  pub eq : F → F → Bool
  pub sqrt : F → F
  pub exp : F → F
  pub abs : F → F
  pub neg : F → F
  pub max : F → F → F
  pub ceil : F → ℕ
  pub sort_floats : List F → List F
  pub fmt_1 : F → String

pub record VariantResult (F : Type 0) : Type 0 where
  pub model : String
  pub samples : ℕ
  pub latency_p95_ms : F
  pub avg_cost_per_request : F
  pub error_rate : F

pub record MetricSignificance (F : Type 0) : Type 0 where
  pub p_value : F
  pub significant : Bool
  pub improvement_pct : F

pub record AnalysisResult (F : Type 0) : Type 0 where
  pub test_id : String
  pub status : Status
  pub winner : String
  pub results : List (String × VariantResult F)
  pub significance : List (String × MetricSignificance F)
  pub recommendation : String

module _ {F : Type 0} (a : AnalysisHost F) where
  open a use {floats, lit, eq, sqrt, exp, abs, neg, max, ceil, sort_floats, fmt_1}
  open floats use {ratio, add, sub, mul, div, less}

  abbrev pub zero_float : F
  zero_float = ratio 0 1

  abbrev pub one_float : F
  one_float = ratio 1 1

  abbrev pub float : ℕ → F
  float n = ratio n 1

  unfoldable pub normal_tail_p : F → F
  normal_tail_p z =
      let x = div z (sqrt (float 2)) in
      let t = div one_float (add one_float (mul (lit "0.3275911") x)) in
      let poly = mul t (
        add (lit "0.254829592") (
          mul t (
            add (lit "-0.284496736") (
              mul t (
                add (lit "1.421413741")
                  (mul t (add (lit "-1.453152027") (mul t (lit "1.061405429"))))))))) in
      mul poly (exp (mul (neg x) x))

  -- The value of a p-value test, and the change in percent.
  abbrev pub percent : F → F → F
  percent control treat = mul (div (sub treat control) control) (float 100)

  unfoldable pub t_test_improvement : F → F → ℕ → ℕ → F × F
  unfolding normal_tail_p
  t_test_improvement control treat n1 n2 =
      let sd1 = max (mul control (lit "0.2")) (lit "1e-9") in
      let sd2 = max (mul treat (lit "0.2")) (lit "1e-9") in
      let se = sqrt (add (div (mul sd1 sd1) (float n1)) (div (mul sd2 sd2) (float n2))) in
      if eq control zero_float
      then (one_float, zero_float)
      else if eq se zero_float
      then (one_float, percent control treat)
      else (normal_tail_p (div (abs (sub control treat)) se), percent control treat)

  unfoldable pub z_test_improvement : F → F → ℕ → ℕ → F × F
  unfolding normal_tail_p
  z_test_improvement p1 p2 n1 n2 =
      let pool = div (add (mul p1 (float n1)) (mul p2 (float n2))) (float (n1 + n2)) in
      let se = sqrt (
        mul (mul pool (sub one_float pool))
          (add (div one_float (float n1)) (div one_float (float n2)))) in
      if eq p1 zero_float && eq p2 zero_float
      then (one_float, zero_float)
      else if eq p1 zero_float
      then (one_float, zero_float)
      else if not (less zero_float pool) || not (less pool one_float)
      then (one_float, percent p1 p2)
      else if eq se zero_float
      then (one_float, percent p1 p2)
      else (normal_tail_p (div (abs (sub p1 p2)) se), percent p1 p2)

  abbrev pub element_or_zero : Option F → F
  element_or_zero none = zero_float
  element_or_zero (some x) = x

  unfoldable pub p95 : List F → F
  p95 vals =
      if length vals == 0
      then zero_float
      else element_or_zero
          (get_elem? (sort_floats vals) (ceil (mul (lit "0.95") (float (length vals))) - 1))

  abbrev pub result_of : TrafficSplit → Option (VariantStats F) → VariantResult F
  result_of s none = record {
    model = s.model;
    samples = 0;
    latency_p95_ms = zero_float;
    avg_cost_per_request = zero_float;
    error_rate = zero_float;
  }
  result_of s (some v) = record {
    model = s.model;
    samples = v.samples;
    latency_p95_ms = v.latency_p95_ms;
    avg_cost_per_request = v.avg_cost_per_req;
    error_rate = v.error_rate;
  }

  unfoldable pub results_of :
      List (String × VariantStats F)
      → List TrafficSplit
      → List (String × VariantResult F)
      → List (String × VariantResult F)
  results_of stats [] results = results
  results_of stats (s ∷ splits) results =
      results_of stats splits (insert s.variant (result_of s (lookup s.variant stats)) results)

  abbrev pub metric : F → F × F → MetricSignificance F
  metric alpha (p, improvement) = record {
    p_value = p;
    significant = less p alpha;
    improvement_pct = improvement;
  }

  -- The three metrics; the loop that counts over the map does not depend on their order.
  unfoldable pub significance_of :
      F → VariantStats F → VariantStats F → List (String × MetricSignificance F)
  unfolding t_test_improvement z_test_improvement
  significance_of alpha control treat =
      (
        "latency",
        metric alpha (
            t_test_improvement control.avg_latency_ms treat.avg_latency_ms control.samples
              treat.samples),
      )
      ∷ (
        "cost",
        metric alpha (
            t_test_improvement control.avg_cost_per_req treat.avg_cost_per_req control.samples
              treat.samples),
      )
      ∷ (
        "error_rate",
        metric alpha
            (z_test_improvement control.error_rate treat.error_rate control.samples treat.samples),
      )
      ∷ []

  abbrev pub is_better : MetricSignificance F → Bool
  is_better m = less m.improvement_pct zero_float

  unfoldable pub sig_count : List (String × MetricSignificance F) → ℕ
  sig_count [] = 0
  sig_count ((name, m) ∷ ms) = let rest = sig_count ms in if m.significant then suc rest else rest

  unfoldable pub treat_better : List (String × MetricSignificance F) → ℕ
  treat_better [] = 0
  treat_better ((name, m) ∷ ms) =
      let rest = treat_better ms in if m.significant && is_better m then suc rest else rest

  -- The entry of a variant, which `results_of` has made.
  abbrev pub entry_or_zero : Option (VariantResult F) → VariantResult F
  entry_or_zero none = result_of (record { variant = ""; model = ""; weight = pos 0 }) none
  entry_or_zero (some r) = r

  abbrev pub saving : F → F → F
  saving control treat =
      if eq control zero_float
      then zero_float
      else mul (div (sub control treat) control) (float 100)

  abbrev pub switch_text : String → VariantResult F → VariantResult F → String
  switch_text name t c = str_append "Switch to " (
      str_append name (
        str_append " (" (
          str_append t.model (
            str_append "): " (
              str_append (fmt_1 (saving c.avg_cost_per_request t.avg_cost_per_request)) (
                str_append "% cost reduction, " (
                  str_append (fmt_1 (saving c.latency_p95_ms t.latency_p95_ms))
                    "% latency improvement, statistically significant.")))))))

  abbrev pub keep_text : String → VariantResult F → String
  keep_text name c = str_append "Keep " (
      str_append name
        (str_append " (" (str_append c.model "): treatment showed no significant improvement.")))

  -- The end of `Analyze`: the winner by the two counts.
  unfoldable pub decide :
      String → String → List (String × MetricSignificance F) → AnalysisResult F → AnalysisResult F
  unfolding sig_count treat_better
  decide control treat ms res =
      let c = entry_or_zero (lookup control res.results) in
      let t = entry_or_zero (lookup treat res.results) in
      if ltb 0 (sig_count ms) && treat_better ms == sig_count ms
      then record res { significance = ms; winner = treat; recommendation = switch_text treat t c }
      else if ltb 0 (sig_count ms) && treat_better ms == 0
      then record res { significance = ms; winner = control; recommendation = keep_text control c }
      else record res { significance = ms }

  -- At least 30 samples each.
  abbrev pub compare_stats :
      String
      → String
      → F
      → Option (VariantStats F)
      → Option (VariantStats F)
      → AnalysisResult F
      → AnalysisResult F
  compare_stats control treat confidence (some c) (some t) res =
      if ltb c.samples 30 || ltb t.samples 30
      then res
      else decide control treat (significance_of (sub one_float confidence) c t) res
  compare_stats control treat confidence none t res = res
  compare_stats control treat confidence (some c) none res = res

  abbrev pub compare_splits :
      List TrafficSplit → F → List (String × VariantStats F) → AnalysisResult F → AnalysisResult F
  compare_splits [] confidence stats res = res
  compare_splits (c ∷ []) confidence stats res = res
  compare_splits (c ∷ t ∷ splits) confidence stats res =
      compare_stats c.variant t.variant confidence (lookup c.variant stats) (lookup t.variant stats)
        res

  abbrev pub prepared : Experiment F → List (String × VariantStats F) → AnalysisResult F
  prepared e stats = record {
    test_id = e.id;
    status = e.status;
    winner = e.winner;
    results = results_of stats e.traffic_split [];
    significance = [];
    recommendation = "";
  }

  unfoldable pub analyze : Experiment F → List (String × VariantStats F) → AnalysisResult F
  unfolding results_of decide significance_of
  analyze e stats = compare_splits e.traffic_split e.confidence_level stats (prepared e stats)
