-- ===== src/AbTest/Rerouting.antt =====
-- internal/gateway/middleware/abtest.go: which requests go to another model, and how an experiment
-- that fails is stopped.
use llm_router.Common.{
  ℕ, ◌≡◌, ◌≢◌, refl, sym, ap, subst, ◌∙◌, String, Bool, true, false, not, ◌||◌, Option, none, some,
  List, [], ◌∷◌, ◌++◌, str_eq, str_eq-eq, eq_iff, Bool-cases, inl, inr, select, length, ◌==◌, All,
}
use llm_router.ExactCache.Store.{ChatRequest}
use llm_router.AbTest.Experiment.{Experiment, AbHost, is_active, model_for_variant, assign}
use llm_router.AbTest.Middleware.{
  State, HttpRequest, rerouted, is_chat, is_live, find_assignment, entity_of, with_model, reroute,
  handle_body, handle,
}
use llm_router.AbTest.Sync.{Op, run, IsSynced, run-IsSynced}

module _ {F W : Type 0} (h : AbHost F W) where
  -- The first experiment of a list to which an entity is assigned, and its variant.
  abbrev pub IsFirst : ℕ → List (Experiment F) → String → Experiment F → String → Type 0
  IsFirst now es entity e variant =
      (pre : List (Experiment F)) × (post : List (Experiment F)) × (es ≡ pre ++ (e ∷ post))
      × All (λ d. assign h now d entity ≡ "") pre
      × (assign h now e entity ≡ variant)
      × (variant ≢ "")

  str_eq_apart : {s t : String} → str_eq s t ≡ false → s ≢ t
  str_eq_apart {s} {t} n e = cc (sym n ∙ (eq_iff s t).1 e)

  find_assignment-IsFirst :
      (now : ℕ) (es : List (Experiment F)) (entity : String) {e : Experiment F} {variant : String}
      → find_assignment h now es entity ≡ some (e, variant)
      → IsFirst now es entity e variant
  unfolding find_assignment
  find_assignment-IsFirst now [] entity p = cc
  find_assignment-IsFirst now (d ∷ es) entity {e} {variant} p =
      elim (Bool-cases (str_eq (assign h now d entity) "")) [
        | inl t ↦
            let (pre, post, same, none_before, given, real) =
              find_assignment-IsFirst now es entity (rw t at p) in
            (d ∷ pre, post, ap (λ l. d ∷ l) same, (str_eq-eq _ _ t, none_before), given, real)
        | inr t ↦
            let same : some (d, assign h now d entity) ≡ some (e, variant) = rw t at p in
            let same_test : d ≡ e = cc same in
            let same_variant : assign h now d entity ≡ variant = cc same in
            (
              [],
              es,
              ap (λ x. x ∷ es) same_test,
              tt,
              sym (ap (λ x. assign h now x entity) same_test) ∙ same_variant,
              λ empty. str_eq_apart t (same_variant ∙ empty),
            )
      ]

  reroute-rerouted :
      (marshal_fails : ChatRequest F → Bool) (req : ChatRequest F)
      (o : Option (Experiment F × String)) {req' : ChatRequest F} {e : Experiment F}
      {variant : String}
      → reroute h marshal_fails req o ≡ rerouted req' e variant
      → (o ≡ some (e, variant)) × (req' ≡ with_model h (model_for_variant e variant) req)
  reroute-rerouted mf req none p = cc
  reroute-rerouted mf req (some (d, v)) {req'} {e} {variant} p =
      let model = model_for_variant d v in
      elim (Bool-cases (mf (with_model h model req))) [
        | inl t ↦ cc (rw t at p)
        | inr t ↦
            let same : rerouted (with_model h model req) d v ≡ rerouted req' e variant =
              rw t at p in
            let same_test : d ≡ e = cc same in
            let same_variant : v ≡ variant = cc same in
            let same_request : with_model h model req ≡ req' = cc same in
            (
              ap (λ x. some (x, v)) same_test ∙ ap (λ u. some (e, u)) same_variant,
              sym same_request
                  ∙ ap (λ x. with_model h (model_for_variant x v) req) same_test
                  ∙ ap (λ u. with_model h (model_for_variant e u) req) same_variant,
            )
      ]

  -- The request is decoded, and the experiment the first of those held that takes it.
  abbrev pub IsRerouted : State F W → HttpRequest F → ChatRequest F → Experiment F → String → Type 0
  IsRerouted m r req' e variant =
      IsFirst (h.now m.world.outside) m.tests (entity_of h r) e variant
      × ((req : ChatRequest F) × (r.body ≡ some req)
          × (req' ≡ with_model h (model_for_variant e variant) req))

  handle_body-rerouted :
      (marshal_fails : ChatRequest F → Bool) (m : State F W) (r : HttpRequest F)
      (body : Option (ChatRequest F)) {req' : ChatRequest F} {e : Experiment F} {variant : String}
      → body ≡ r.body
      → handle_body h marshal_fails (h.now m.world.outside) m.tests (entity_of h r) body
        ≡ rerouted req' e variant
      → IsRerouted m r req' e variant
  handle_body-rerouted mf m r none b p = cc
  handle_body-rerouted mf m r (some req) b p =
      let now = h.now m.world.outside in
      let (found, same) =
        reroute-rerouted mf req (find_assignment h now m.tests (entity_of h r)) p in
      (find_assignment-IsFirst now m.tests (entity_of h r) found, (req, sym b, same))

  handle-rerouted :
      (marshal_fails : ChatRequest F → Bool) (m : State F W) (r : HttpRequest F)
      {req' : ChatRequest F} {e : Experiment F} {variant : String}
      → handle h marshal_fails m r ≡ rerouted req' e variant
      → IsRerouted m r req' e variant
  unfolding handle
  handle-rerouted mf m r p =
      elim (Bool-cases (not (is_chat r.path) || not (str_eq r.method "POST"))) [
        | inl t ↦ cc (rw t at p)
        | inr t ↦ elim (Bool-cases (length m.tests == 0)) [
          | inl z ↦ cc (rw (t, z) at p)
          | inr z ↦ handle_body-rerouted mf m r r.body refl (rw (t, z) at p)
        ]
      ]

  assign-active :
      (now : ℕ) (e : Experiment F) (entity : String)
      → assign h now e entity ≢ ""
      → is_active now e ≡ true
  unfolding assign
  assign-active now e entity n = elim (Bool-cases (is_active now e)) [
    | inl t ↦ t
    | inr t ↦ absurd (n (rw t refl))
  ]

module _ {F W : Type 0} (h : AbHost F W) (p95 : List F → F) where
  -- If the database carries out every statement, then after any sequence of reloads, requests and
  -- operations of the administration, from a state in which the middleware holds exactly the running
  -- experiments of the database, a request that is written anew has a body that can be decoded, and
  -- goes to the first of the running experiments of the database, in its order, that assigns the
  -- sender to a variant; this one lies within its time window. The request is the sender's with the
  -- model of that variant, if there is one.
  pub run-rerouted :
      (up : (o : W) → (h.execute o).0 ≡ true) (ops : List (Op F W)) (m : State F W)
      (marshal_fails : ChatRequest F → Bool) (r : HttpRequest F) (req' : ChatRequest F)
      (e : Experiment F) (variant : String)
      → IsSynced h m
      → handle h marshal_fails (run h p95 ops m) r ≡ rerouted req' e variant
      → (is_active (h.now (run h p95 ops m).world.outside) e ≡ true)
        × IsFirst h
            (h.now (run h p95 ops m).world.outside)
            (select (is_live h) (run h p95 ops m).world.db.tests)
            (entity_of h r)
            e
            variant
        × ((req : ChatRequest F) × (r.body ≡ some req)
            × (req' ≡ with_model h (model_for_variant e variant) req))
  run-rerouted up ops m mf r req' e variant s p =
      let last = run h p95 ops m in
      let now = h.now last.world.outside in
      let (first, request) = handle-rerouted h mf last r p in
      let (pre, post, same, none_before, given, real) = first in
      (
        assign-active h now e (entity_of h r) (λ empty. real (sym given ∙ empty)),
        subst (λ es. IsFirst h now es (entity_of h r) e variant) (run-IsSynced h p95 up ops m s)
            first,
        request,
      )
