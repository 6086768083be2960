-- ===== src/AbTest/Stopping.antt =====
-- internal/gateway/middleware/abtest.go: an experiment of which a variant fails is stopped.
use llm_router.Common.{
  ℕ, ◌≡◌, ◌≢◌, refl, sym, ap, subst, ◌∙◌, ◌≤◌, String, Bool, true, false, Option, List, [], ◌∷◌,
  str_eq, eq_iff, Bool-cases, inl, inr, select, mem-select, length, ◌==◌, All, All-mem, All-of_mem,
  ltb, arith,
}
use llm_router.AbTest.Experiment.{Status, Experiment, AbHost, stopped, is_running}
use llm_router.AbTest.Store.{
  Observation, World, list, listed, update_status, updated, with_status, insert_result,
  get_variant_stats, aggregated, of_variant, stats_of, is_error, to_float,
}
use llm_router.AbTest.Middleware.{
  State, LogContext, is_live, reloaded, reload, is_failing, stop_test, judged, check_auto_stop,
  observation, record_result,
}

module _ {F : Type 0} where
  -- An experiment with this identifier has this status.
  abbrev pub HasStatus : String → Status → Experiment F → Type 0
  HasStatus id status e = e.id ≡ id → e.status ≡ status

  with_status-HasStatus :
      (id : String) (status : Status) (winner : String) (now : ℕ) (es : List (Experiment F))
      → All (HasStatus id status) (with_status id status winner now es)
  unfolding with_status
  with_status-HasStatus id status winner now [] = tt
  with_status-HasStatus id status winner now (e ∷ es) = elim (Bool-cases (str_eq e.id id)) [
    | inl t ↦ rw t ((λ p. refl), with_status-HasStatus id status winner now es)
    | inr t ↦
        rw t
          ((λ p. cc (sym t ∙ (eq_iff e.id id).1 p)), with_status-HasStatus id status winner now es)
  ]

module _ {F W : Type 0} (h : AbHost F W) where
  -- The experiment is neither held by the middleware nor, in the database, anything but stopped.
  abbrev pub IsStopped : String → State F W → Type 0
  IsStopped id m = All (λ e. e.id ≢ id) m.tests × All (HasStatus id stopped) m.world.db.tests

  live-ne :
      (id : String) (es : List (Experiment F))
      → All (HasStatus id stopped) es
      → All (λ e. e.id ≢ id) (select (is_live h) es)
  live-ne id es hs =
      All-of_mem (λ e. e.id ≢ id) (select (is_live h) es)
        (λ e m p.
          let (there, live) = mem-select (is_live h) es m in
          let over : e.status ≡ stopped = All-mem (HasStatus id stopped) hs there p in
          cc (sym live ∙ ap is_running over))

  reloaded-IsStopped :
      (id : String) (m : State F W) (q : Bool × W)
      → q.0 ≡ true
      → All (HasStatus id stopped) m.world.db.tests
      → IsStopped id (reloaded h m (listed h m.world q)).1
  reloaded-IsStopped id m (true, o) e hs = (live-ne id m.world.db.tests hs, hs)
  reloaded-IsStopped id m (false, o) e hs = cc

  updated-HasStatus :
      (id : String) (status : Status) (w : World F W) (q : Bool × W)
      → q.0 ≡ true
      → All (HasStatus id status) (updated h id status "" w q).1.db.tests
  updated-HasStatus id status w (true, o) e =
      with_status-HasStatus id status "" (h.now o) w.db.tests
  updated-HasStatus id status w (false, o) e = cc

  stop_test-IsStopped :
      (up : (o : W) → (h.execute o).0 ≡ true) (id : String) (m : State F W)
      → IsStopped id (stop_test h id m)
  unfolding stop_test reload list update_status
  stop_test-IsStopped up id m =
      let w = (updated h id stopped "" m.world (h.execute m.world.outside)).1 in
      reloaded-IsStopped id (record m { world = w }) (h.execute w.outside) (up w.outside)
        (updated-HasStatus id stopped m.world (h.execute m.world.outside) (up m.world.outside))

  -- The share of errors is above a fifth.
  abbrev pub ManyErrors : List (Observation F) → Type 0
  ManyErrors rows =
      h.floats.less (h.floats.ratio 20 100)
        (h.floats.div (to_float h (length (select is_error rows))) (to_float h (length rows)))
      ≡ true

  stats_of-is_failing :
      (p95 : List F → F) (variant : String) (rows : List (Observation F))
      → 100 ≤ length rows
      → ManyErrors rows
      → is_failing h (stats_of h p95 variant rows) ≡ true
  unfolding stats_of
  stats_of-is_failing p95 variant rows many bad =
      let some_rows : (length rows == 0) ≡ false = ground arith in
      let enough : ltb (length rows) 100 ≡ false = ground arith in rw (some_rows, enough) bad

  judged-aggregated :
      (p95 : List F → F) (up : (o : W) → (h.execute o).0 ≡ true) (id variant : String)
      (m : State F W) (q : Bool × W)
      → q.0 ≡ true
      → is_failing h (stats_of h p95 variant (select (of_variant id variant) m.world.db.results))
        ≡ true
      → IsStopped id (judged h p95 id m (aggregated h p95 id variant m.world q))
  judged-aggregated p95 up id variant m (false, o) e f = cc
  judged-aggregated p95 up id variant m (true, o) e f = rw f (stop_test-IsStopped up id _)

  -- If the database carries out every statement, and the variant's results, with the new one, are at
  -- least 100, with errors in more than 20 percent of them, then the recording of the result leaves
  -- the experiment stopped in the database, and the middleware without it.
  pub record_result-IsStopped :
      (p95 : List F → F) (up : (o : W) → (h.execute o).0 ≡ true) (e : Experiment F)
      (variant model request_id : String) (start : ℕ) (log : Option (LogContext F)) (m : State F W)
      (rows : List (Observation F))
      → rows
        ≡ select
            (of_variant e.id variant)
            (insert_result h
              (observation h e variant model request_id start (h.now m.world.outside) log)
              m.world).1.db.results
      → 100 ≤ length rows
      → ManyErrors rows
      → IsStopped e.id (record_result h p95 e variant model request_id start log m)
  unfolding record_result check_auto_stop get_variant_stats
  record_result-IsStopped p95 up e variant model request_id start log m rows same many bad =
      let row = observation h e variant model request_id start (h.now m.world.outside) log in
      let w = (insert_result h row m.world).1 in
      judged-aggregated p95 up e.id variant (record m { world = w }) (h.execute w.outside)
        (up w.outside)
        (subst (λ l. is_failing h (stats_of h p95 variant l) ≡ true) same
          (stats_of-is_failing p95 variant rows many bad))
