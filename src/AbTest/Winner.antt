-- ===== src/AbTest/Winner.antt =====
-- internal/abtest/analyzer.go: which variant wins.
use llm_router.Common.{
  ◌+◌, ℕ, ◌≡◌, refl, ap, ◌∙◌, ◌≤◌, ◌<◌, ◌⊎◌, String, Bool, true, false, not, ◌&&◌, ◌||◌, some, List,
  [], ◌∷◌, Bool-cases, inl, inr, any, lookup, ltb, ◌==◌, if◌then◌else◌, arith,
}
use llm_router.AbTest.Experiment.{TrafficSplit, Experiment}
use llm_router.AbTest.Store.{VariantStats}
use llm_router.AbTest.Analysis.{
  AnalysisHost, MetricSignificance, AnalysisResult, one_float, significance_of, is_better,
  sig_count, treat_better, decide, t_test_improvement, z_test_improvement, metric, compare_stats,
  compare_splits, prepared, analyze,
}

module _ {F : Type 0} (a : AnalysisHost F) where
  abbrev pub Metrics : Type 0
  Metrics = List (String × MetricSignificance F)

  abbrev pub is_significant : String × MetricSignificance F → Bool
  is_significant (name, m) = m.significant

  abbrev pub is_improved : String × MetricSignificance F → Bool
  is_improved (name, m) = m.significant && is_better a m

  abbrev pub is_worse : String × MetricSignificance F → Bool
  is_worse (name, m) = m.significant && not (is_better a m)

  treat_better-le : (ms : Metrics) → treat_better a ms ≤ sig_count a ms
  unfolding treat_better sig_count
  treat_better-le [] = omega arith
  treat_better-le ((name, m) ∷ ms) = ground (arith, treat_better-le ms)

  sig_count-any : (ms : Metrics) → ltb 0 (sig_count a ms) ≡ any is_significant ms
  unfolding sig_count
  sig_count-any [] = refl
  sig_count-any ((name, m) ∷ ms) = ground (arith, sig_count-any ms)

  treat_better-none : (ms : Metrics) → (treat_better a ms == 0) ≡ not (any is_improved ms)
  unfolding treat_better
  treat_better-none [] = refl
  treat_better-none ((name, m) ∷ ms) = ground (arith, treat_better-none ms)

  treat_better-all : (ms : Metrics) → (treat_better a ms == sig_count a ms) ≡ not (any is_worse ms)
  unfolding treat_better sig_count
  treat_better-all [] = refl
  treat_better-all ((name, m) ∷ ms) = ground (arith, treat_better-all ms, treat_better-le ms)

  -- The winner, where `given` is the one so far: by whether a metric is significant, and whether a
  -- significant one is worse or better for the second variant.
  abbrev pub verdict : String → String → String → Bool → Bool → Bool → String
  verdict control treat given significant worse better =
      if not significant
      then given
      else if not worse
      then treat
      else if not better
      then control
      else given

  decide-winner :
      (control treat : String) (ms : Metrics) (res : AnalysisResult F)
      → (decide a control treat ms res).winner
        ≡ verdict control treat res.winner
            (any is_significant ms)
            (any is_worse ms)
            (any is_improved ms)
  unfolding decide
  decide-winner control treat ms res =
      rw (sig_count-any ms, treat_better-all ms, treat_better-none ms)
        (elim (Bool-cases (any is_significant ms)) [
          | inl s ↦ elim (Bool-cases (any is_worse ms)) [
            | inl w ↦ elim (Bool-cases (any is_improved ms)) [
              | inl i ↦ rw (s, w, i) refl
              | inr i ↦ rw (s, w, i) refl
            ]
            | inr w ↦ rw (s, w) refl
          ]
          | inr s ↦ rw s refl
        ])

  compare_stats-winner :
      (control treat : String) (confidence : F) (cs ts : VariantStats F) (res : AnalysisResult F)
      → 30 ≤ cs.samples
      → 30 ≤ ts.samples
      → (compare_stats a control treat confidence (some cs) (some ts) res).winner
        ≡ (decide a control treat
            (significance_of a (a.floats.sub (one_float a) confidence) cs ts)
            res).winner
  compare_stats-winner control treat confidence cs ts res enough_c enough_t =
      let large : (ltb cs.samples 30 || ltb ts.samples 30) ≡ false = ground arith in rw large refl

  compare_stats-few :
      (control treat : String) (confidence : F) (cs ts : VariantStats F) (res : AnalysisResult F)
      → (cs.samples < 30) ⊎ (ts.samples < 30)
      → compare_stats a control treat confidence (some cs) (some ts) res ≡ res
  compare_stats-few control treat confidence cs ts res few =
      let small : (ltb cs.samples 30 || ltb ts.samples 30) ≡ true = ground arith in rw small refl

  abbrev zero_value : F
  zero_value = a.floats.ratio 0 1

  -- Where the first value is positive, a change in percent is negative exactly if the second value is
  -- smaller.
  abbrev pub IsSigned : Type 0
  IsSigned =
      (c t : F)
      → a.floats.less c (a.floats.ratio 0 1) ≡ false
      → a.eq c (a.floats.ratio 0 1) ≡ false
      → a.floats.less (a.floats.mul (a.floats.div (a.floats.sub t c) c) (a.floats.ratio 100 1))
          (a.floats.ratio 0 1)
        ≡ a.floats.less t c

  -- What is compared: the p-value of the test of a metric, and its values for both variants.
  abbrev pub tested : VariantStats F → VariantStats F → List (F × F × F)
  tested cs ts =
      (
        (t_test_improvement a cs.avg_latency_ms ts.avg_latency_ms cs.samples ts.samples).0,
        cs.avg_latency_ms,
        ts.avg_latency_ms,
      )
      ∷ (
        (t_test_improvement a cs.avg_cost_per_req ts.avg_cost_per_req cs.samples ts.samples).0,
        cs.avg_cost_per_req,
        ts.avg_cost_per_req,
      )
      ∷ (
        (z_test_improvement a cs.error_rate ts.error_rate cs.samples ts.samples).0,
        cs.error_rate,
        ts.error_rate,
      )
      ∷ []

  -- The test has this significance; then the second variant's value is smaller, or it is not.
  abbrev pub differs : F → F × F × F → Bool
  differs alpha (p, c, t) = a.floats.less p alpha

  abbrev pub is_lower : F → F × F × F → Bool
  is_lower alpha (p, c, t) = a.floats.less p alpha && a.floats.less t c

  abbrev pub is_not_lower : F → F × F × F → Bool
  is_not_lower alpha (p, c, t) = a.floats.less p alpha && not (a.floats.less t c)

  abbrev pub IsCounted : VariantStats F → Type 0
  IsCounted v =
      (a.floats.less v.avg_latency_ms (a.floats.ratio 0 1) ≡ false)
      × (a.floats.less v.avg_cost_per_req (a.floats.ratio 0 1) ≡ false)
      × (a.floats.less v.error_rate (a.floats.ratio 0 1) ≡ false)

  module _ (signed : IsSigned) (alpha : F)
      (one_large : a.floats.less (one_float a) alpha ≡ false) where
    -- The result of a test is not significant, or its change has the sign of the difference.
    abbrev Agrees : F → F → F × F → Type 0
    Agrees c t (p, i) =
        (a.floats.less p alpha ≡ false) ⊎ (a.floats.less i zero_value ≡ a.floats.less t c)

    Agrees-if :
        (c t : F) (b : Bool) (x y : F × F)
        → (b ≡ true → Agrees c t x)
        → (b ≡ false → Agrees c t y)
        → Agrees c t (if b then x else y)
    Agrees-if c t true x y f g = f refl
    Agrees-if c t false x y f g = g refl

    t_test_improvement-Agrees :
        (c t : F) (n m : ℕ)
        → a.floats.less c zero_value ≡ false
        → Agrees c t (t_test_improvement a c t n m)
    unfolding t_test_improvement
    t_test_improvement-Agrees c t n m positive =
        Agrees-if c t (a.eq c zero_value) _ _ (λ e. inl one_large)
          (λ e.
            Agrees-if c t _ _ _ (λ p. inr (signed c t positive e))
              (λ p. inr (signed c t positive e)))

    z_test_improvement-Agrees :
        (c t : F) (n m : ℕ)
        → a.floats.less c zero_value ≡ false
        → Agrees c t (z_test_improvement a c t n m)
    unfolding z_test_improvement
    z_test_improvement-Agrees c t n m positive =
        let f = a.floats in
        let one = one_float a in
        let pool =
          f.div (f.add (f.mul c (f.ratio n 1)) (f.mul t (f.ratio m 1))) (f.ratio (n + m) 1) in
        let se = a.sqrt (
          f.mul (f.mul pool (f.sub one pool))
            (f.add (f.div one (f.ratio n 1)) (f.div one (f.ratio m 1)))) in
        let extreme = not (f.less zero_value pool) || not (f.less pool one) in
        Agrees-if c t (a.eq c zero_value && a.eq t zero_value) _ _ (λ k. inl one_large)
          (λ k.
            Agrees-if c t (a.eq c zero_value) _ _ (λ e. inl one_large)
              (λ e.
                let sign = signed c t positive e in
                Agrees-if c t extreme _ _ (λ p. inr sign)
                  (λ p. Agrees-if c t (a.eq se zero_value) _ _ (λ q. inr sign) (λ q. inr sign))))

    Agrees-lower :
        (c t : F) (q : F × F)
        → Agrees c t q
        → (is_improved ("", metric a alpha q) ≡ is_lower alpha (q.0, c, t))
          × (is_worse ("", metric a alpha q) ≡ is_not_lower alpha (q.0, c, t))
    Agrees-lower c t (p, i) (inl e) = rw e (refl, refl)
    Agrees-lower c t (p, i) (inr e) = rw e (refl, refl)

    significance_of-tested :
        (cs ts : VariantStats F)
        → IsCounted cs
        → (any is_significant (significance_of a alpha cs ts) ≡ any (differs alpha) (tested cs ts))
          × (any is_improved (significance_of a alpha cs ts) ≡ any (is_lower alpha) (tested cs ts))
          × (any is_worse (significance_of a alpha cs ts) ≡ any (is_not_lower alpha) (tested cs ts))
    unfolding significance_of
    significance_of-tested cs ts (l, c, r) =
        let n = cs.samples in
        let m = ts.samples in
        let latency =
          Agrees-lower cs.avg_latency_ms ts.avg_latency_ms
            (t_test_improvement a cs.avg_latency_ms ts.avg_latency_ms n m)
            (t_test_improvement-Agrees cs.avg_latency_ms ts.avg_latency_ms n m l) in
        let cost =
          Agrees-lower cs.avg_cost_per_req ts.avg_cost_per_req
            (t_test_improvement a cs.avg_cost_per_req ts.avg_cost_per_req n m)
            (t_test_improvement-Agrees cs.avg_cost_per_req ts.avg_cost_per_req n m c) in
        let errors =
          Agrees-lower cs.error_rate ts.error_rate
            (z_test_improvement a cs.error_rate ts.error_rate n m)
            (z_test_improvement-Agrees cs.error_rate ts.error_rate n m r) in
        (refl, rw (latency.0, cost.0, errors.0) refl, rw (latency.1, cost.1, errors.1) refl)

  -- Let a change in percent of a positive value have the sign of the difference, a p-value of 1 not be
  -- significant at the experiment's level, and the first variant's latency, cost and error rate
  -- not be negative. If the statistics of the first two variants are there, then below 30 samples
  -- for one of them nothing is compared, and the winner stays as it was. With 30 for each, the
  -- winner stays also if no metric differs significantly; otherwise it is the second variant if
  -- each such metric is lower for it, else the first variant if none is; if some are lower and some
  -- are not, the winner stays.
  pub analyze-winner :
      (e : Experiment F) (stats : List (String × VariantStats F)) (c t : TrafficSplit)
      (splits : List TrafficSplit) (cs ts : VariantStats F)
      → IsSigned
      → a.floats.less (one_float a) (a.floats.sub (one_float a) e.confidence_level) ≡ false
      → IsCounted cs
      → e.traffic_split ≡ c ∷ t ∷ splits
      → lookup c.variant stats ≡ some cs
      → lookup t.variant stats ≡ some ts
      → ((cs.samples < 30) ⊎ (ts.samples < 30)
          → ((analyze a e stats).winner ≡ e.winner) × ((analyze a e stats).significance ≡ []))
        × (30 ≤ cs.samples
            → 30 ≤ ts.samples
            → (analyze a e stats).winner ≡ (
                let alpha = a.floats.sub (one_float a) e.confidence_level in
                verdict c.variant t.variant e.winner
                  (any (differs alpha) (tested cs ts))
                  (any (is_not_lower alpha) (tested cs ts))
                  (any (is_lower alpha) (tested cs ts))))
  unfolding analyze
  analyze-winner e stats c t splits cs ts signed one_large counted two has_c has_t =
      let conf = e.confidence_level in
      let alpha = a.floats.sub (one_float a) conf in
      let res = prepared a e stats in
      let ms = significance_of a alpha cs ts in
      let same = significance_of-tested signed alpha one_large cs ts counted in
      let compared : analyze a e stats
          ≡ compare_stats a c.variant t.variant conf (some cs) (some ts) res =
        ap (λ l. compare_splits a l conf stats res) two ∙ rw (has_c, has_t) refl in
      let decided : (decide a c.variant t.variant ms res).winner
          ≡ verdict c.variant t.variant e.winner (any (differs alpha) (tested cs ts))
              (any (is_not_lower alpha) (tested cs ts)) (any (is_lower alpha) (tested cs ts)) =
        decide-winner c.variant t.variant ms res
        ∙ ap (λ b. verdict c.variant t.variant e.winner b (any is_worse ms) (any is_improved ms))
            same.0
        ∙ ap
            (λ b.
              verdict c.variant t.variant e.winner (any (differs alpha) (tested cs ts)) b
                (any is_improved ms))
            same.2
        ∙ ap
            (λ b.
              verdict c.variant t.variant e.winner (any (differs alpha) (tested cs ts))
                (any (is_not_lower alpha) (tested cs ts)) b)
            same.1 in
      (
        (λ few.
            let kept = compared ∙ compare_stats-few c.variant t.variant conf cs ts res few in
            (ap (λ r. r.winner) kept, ap (λ r. r.significance) kept)),
        (λ enough_c enough_t.
            ap (λ r. r.winner) compared
            ∙ compare_stats-winner c.variant t.variant conf cs ts res enough_c enough_t
            ∙ decided),
      )
