-- ===== src/AbTest/Sync.antt =====
-- internal/gateway/middleware/abtest.go and internal/gateway/handler/admin_abtests.go: what the
-- middleware holds, and what the database has.
use llm_router.Common.{
  ℕ, ◌≡◌, refl, sym, ap, ◌∙◌, String, Bool, true, false, ◌||◌, Option, none, some, List, [], ◌∷◌,
  str_eq, Bool-cases, inl, inr, select, any, length, ltb,
}
use llm_router.Common.Fallible.{Result, ok, err}
use llm_router.ExactCache.Store.{ChatRequest}
use llm_router.AbTest.Experiment.{Status, Experiment, AbHost, completed, is_running}
use llm_router.AbTest.Store.{
  Observation, VariantStats, World, create, inserted, list, listed, delete, deleted, update_status,
  updated, insert_result, recorded, get_variant_stats, aggregated, has_id, same_request,
}
use llm_router.AbTest.Middleware.{
  State, HttpRequest, Passed, as_is, rerouted, LogContext, is_live, reloaded, reload, is_failing,
  stop_test, judged, check_auto_stop, observation, record_result, after_next, serve,
}
use llm_router.AbTest.Admin.{
  CreateBody, new_experiment, create_reply, create_test, update_reply, transition, promote,
  delete_reply, delete_test,
}

-- What happens to the gateway: an operation of the administration, a reload, or a request.
pub data Op (F W : Type 0) : Type 0 where
  creates : Option (CreateBody F) → Op F W
  moves : Status → String → Op F W
  promotes : String → String → Op F W
  deletes : String → Op F W
  reloads : Op F W
  serves :
      (ChatRequest F → Bool) → (Passed F → W → Option (LogContext F) × W) → HttpRequest F → Op F W

module _ {F W : Type 0} where
  -- The middleware holds exactly the running experiments, in the order of the database.
  abbrev pub IsSynced : AbHost F W → State F W → Type 0
  IsSynced h m = m.tests ≡ select (is_live h) m.world.db.tests

module _ {F W : Type 0} (h : AbHost F W) (p95 : List F → F) where
  unfoldable pub step : Op F W → State F W → State F W
  step (creates b) m = (create_test h b m).1
  step (moves status id) m = (transition h status id m).1
  step (promotes id winner) m = (promote h id winner m).1
  step (deletes id) m = (delete_test h id m).1
  step reloads m = (reload h m).1
  step (serves marshal_fails next r) m = (serve h p95 marshal_fails next r m).1

  unfoldable pub run : List (Op F W) → State F W → State F W
  run [] m = m
  run (op ∷ ops) m = run ops (step op m)

-- The database carries out every statement.
module _ {F W : Type 0} (h : AbHost F W) (p95 : List F → F)
    (up : (o : W) → (h.execute o).0 ≡ true) where
  reloaded-IsSynced :
      (m : State F W) (q : Bool × W) → q.0 ≡ true → IsSynced h (reloaded h m (listed h m.world q)).1
  reloaded-IsSynced m (true, o) e = refl
  reloaded-IsSynced m (false, o) e = cc

  pub reload-IsSynced : (m : State F W) → IsSynced h (reload h m).1
  unfolding reload list
  reload-IsSynced m = reloaded-IsSynced m (h.execute m.world.outside) (up m.world.outside)

  create_reply-IsSynced :
      (e : Experiment F) (m : State F W) (q : Bool × W)
      → is_running e.status ≡ false
      → IsSynced h m
      → IsSynced h (create_reply h m (inserted h e m.world q)).1
  create_reply-IsSynced e m (true, o) idle s = rw idle s
  create_reply-IsSynced e m (false, o) idle s = s

  create_test-IsSynced :
      (b : Option (CreateBody F)) (m : State F W) → IsSynced h m → IsSynced h (create_test h b m).1
  unfolding create_test create new_experiment
  create_test-IsSynced none m s = s
  create_test-IsSynced (some b) m s =
      elim (Bool-cases (str_eq b.name "" || ltb (length b.traffic_split) 2)) [
        | inl t ↦ rw t s
        | inr t ↦
            rw t (create_reply-IsSynced (new_experiment h b) m (h.execute m.world.outside) refl s)
      ]

  update_reply-IsSynced :
      (status : Status) (id winner : String) (m : State F W) (q : Bool × W)
      → IsSynced h m
      → IsSynced h (update_reply h status winner m (updated h id status winner m.world q)).1
  update_reply-IsSynced status id winner m (true, o) s = reload-IsSynced _
  update_reply-IsSynced status id winner m (false, o) s = s

  promote-IsSynced :
      (id winner : String) (m : State F W) → IsSynced h m → IsSynced h (promote h id winner m).1
  unfolding promote update_status
  promote-IsSynced id winner m s = elim (Bool-cases (str_eq winner "")) [
    | inl t ↦ rw t s
    | inr t ↦ rw t (update_reply-IsSynced completed id winner m (h.execute m.world.outside) s)
  ]

  delete_reply-IsSynced :
      (id : String) (m : State F W) (q : Bool × W)
      → IsSynced h m
      → IsSynced h (delete_reply h m (deleted h id m.world q)).1
  delete_reply-IsSynced id m (false, o) s = s
  delete_reply-IsSynced id m (true, o) s = elim (Bool-cases (any (has_id id) m.world.db.tests)) [
    | inl t ↦ rw t (reload-IsSynced _)
    | inr t ↦ rw t s
  ]

  judged-IsSynced :
      (id : String) (m : State F W) (q : Result (VariantStats F) × World F W)
      → IsSynced h (record m { world = q.1 })
      → IsSynced h (judged h p95 id m q)
  unfolding stop_test
  judged-IsSynced id m (err e, w) s = s
  judged-IsSynced id m (ok v, w) s = elim (Bool-cases (is_failing h v)) [
    | inl t ↦ rw t (reload-IsSynced _)
    | inr t ↦ rw t s
  ]

  aggregated-db :
      (id variant : String) (w : World F W) (q : Bool × W)
      → (aggregated h p95 id variant w q).1.db ≡ w.db
  aggregated-db id variant w (true, o) = refl
  aggregated-db id variant w (false, o) = refl

  recorded-tests :
      (r : Observation F) (w : World F W) (q : Bool × W)
      → (recorded h r w q).1.db.tests ≡ w.db.tests
  recorded-tests r w (false, o) = refl
  recorded-tests r w (true, o) = elim (Bool-cases (any (has_id r.test_id) w.db.tests)) [
    | inl t ↦ elim (Bool-cases (any (same_request r) w.db.results)) [
      | inl d ↦ rw (t, d) refl
      | inr d ↦ rw (t, d) refl
    ]
    | inr t ↦ rw t refl
  ]

  record_result-IsSynced :
      (e : Experiment F) (variant model request_id : String) (start : ℕ)
      (log : Option (LogContext F)) (m : State F W)
      → IsSynced h m
      → IsSynced h (record_result h p95 e variant model request_id start log m)
  unfolding record_result check_auto_stop insert_result get_variant_stats
  record_result-IsSynced e variant model request_id start log m s =
      let row = observation h e variant model request_id start (h.now m.world.outside) log in
      let w = (recorded h row m.world (h.execute m.world.outside)).1 in
      let q = h.execute w.outside in
      judged-IsSynced e.id (record m { world = w }) (aggregated h p95 e.id variant w q)
        (s
          ∙ sym (
              ap (select (is_live h)) (
                ap (λ d. d.tests) (aggregated-db e.id variant w q)
                ∙ recorded-tests row m.world (h.execute m.world.outside))))

  after_next-IsSynced :
      (request_id : String) (start : ℕ) (p : Passed F) (log : Option (LogContext F)) (m : State F W)
      → IsSynced h m
      → IsSynced h (after_next h p95 request_id start p log m)
  after_next-IsSynced request_id start as_is log m s = s
  after_next-IsSynced request_id start (rerouted req e variant) log m s =
      record_result-IsSynced e variant req.model request_id start log m s

  step-IsSynced : (op : Op F W) (m : State F W) → IsSynced h m → IsSynced h (step h p95 op m)
  unfolding step transition delete_test serve update_status delete
  step-IsSynced (creates b) m s = create_test-IsSynced b m s
  step-IsSynced (moves status id) m s =
      update_reply-IsSynced status id "" m (h.execute m.world.outside) s
  step-IsSynced (promotes id winner) m s = promote-IsSynced id winner m s
  step-IsSynced (deletes id) m s = delete_reply-IsSynced id m (h.execute m.world.outside) s
  step-IsSynced reloads m s = reload-IsSynced m
  step-IsSynced (serves marshal_fails next r) m s = after_next-IsSynced _ _ _ _ _ s

  -- If the database carries out every statement, then from a state in which the middleware holds
  -- exactly the running experiments of the database, in its order, any sequence of reloads,
  -- requests and operations of the administration leads to such a state.
  pub run-IsSynced :
      (ops : List (Op F W)) (m : State F W) → IsSynced h m → IsSynced h (run h p95 ops m)
  unfolding run
  run-IsSynced [] m s = s
  run-IsSynced (op ∷ ops) m s = run-IsSynced ops (step h p95 op m) (step-IsSynced op m s)
