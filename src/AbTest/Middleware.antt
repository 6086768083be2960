-- ===== src/AbTest/Middleware.antt =====
-- internal/gateway/middleware/abtest.go: the middleware around the chat handler. The recording of a
-- result, which is done in a goroutine, comes after the answer; headers are left out.
use llm_router.Common.{
  ℕ, ◌-◌, ◌/◌, String, Bool, false, not, ◌||◌, Option, none, some, List, [], ◌∷◌, str_eq, ltb, ◌==◌,
  if◌then◌else◌, length, select,
}
use llm_router.Common.Fallible.{Result, ok, err}
use llm_router.Common.Texts.{strip_suffix}
use llm_router.ExactCache.Store.{ChatRequest}
use llm_router.ExactCache.Middleware.{has_suffix_of}
use llm_router.AbTest.Experiment.{
  Experiment, AbHost, stopped, is_running, model_for_variant, assign,
}
use llm_router.AbTest.Store.{
  Observation, VariantStats, World, list, update_status, insert_result, get_variant_stats,
}

-- The middleware's experiments, with the database and the rest of the world.
pub record State (F W : Type 0) : Type 0 where
  pub tests : List (Experiment F)
  pub world : World F W

-- `body` is `none` if it cannot be read or decoded.
pub record HttpRequest (F : Type 0) : Type 0 where
  pub method : String
  pub path : String
  pub authorization : String
  pub remote_addr : String
  pub request_id : String
  pub body : Option (ChatRequest F)

-- What the next handler gets: the body as it came, or a request written anew and its assignment.
pub data Passed (F : Type 0) : Type 0 where
  as_is : Passed F
  rerouted : ChatRequest F → Experiment F → String → Passed F

-- The fields of `RequestLogContext` that are read.
pub record LogContext (F : Type 0) : Type 0 where
  pub error_code : String
  pub finish_reason : String
  pub prompt_tokens : ℕ
  pub completion_tokens : ℕ
  pub cost_usd : F

abbrev pub is_chat : String → Bool
is_chat path = has_suffix_of (strip_suffix "/chat/completions" path)

-- `marshal_fails` is an error of `json.Marshal`.
module _ {F W : Type 0} (h : AbHost F W) where
  abbrev pub is_live : Experiment F → Bool
  is_live e = is_running e.status

  abbrev pub reloaded :
      State F W → Result (List (Experiment F)) × World F W → Option String × State F W
  reloaded m (err e, w) = (some e, record m { world = w })
  reloaded m (ok all, w) = (none, record { tests = select is_live all; world = w })

  unfoldable pub reload : State F W → Option String × State F W
  unfolding list
  reload m = reloaded m (list h m.world)

  unfoldable pub find_assignment : ℕ → List (Experiment F) → String → Option (Experiment F × String)
  unfolding assign
  find_assignment now [] entity = none
  find_assignment now (e ∷ es) entity =
      let rest = find_assignment now es entity in
      if str_eq (assign h now e entity) "" then rest else some (e, assign h now e entity)

  abbrev pub entity_of : HttpRequest F → String
  entity_of r = if str_eq r.authorization "" then r.remote_addr else r.authorization

  abbrev pub with_model : String → ChatRequest F → ChatRequest F
  with_model model req = if str_eq model "" then req else record req { model = model }

  abbrev pub reroute :
      (ChatRequest F → Bool) → ChatRequest F → Option (Experiment F × String) → Passed F
  reroute marshal_fails req none = as_is
  reroute marshal_fails req (some (e, variant)) =
      let req' = with_model (model_for_variant e variant) req in
      if marshal_fails req' then as_is else rerouted req' e variant

  abbrev pub handle_body :
      (ChatRequest F → Bool) → ℕ → List (Experiment F) → String → Option (ChatRequest F) → Passed F
  handle_body marshal_fails now tests entity none = as_is
  handle_body marshal_fails now tests entity (some req) =
      reroute marshal_fails req (find_assignment now tests entity)

  -- The middleware up to the call of the next handler.
  unfoldable pub handle : (ChatRequest F → Bool) → State F W → HttpRequest F → Passed F
  unfolding find_assignment model_for_variant
  handle marshal_fails m r =
      if not (is_chat r.path) || not (str_eq r.method "POST")
      then as_is
      else if length m.tests == 0
      then as_is
      else handle_body marshal_fails (h.now m.world.outside) m.tests (entity_of r) r.body

  -- `ErrorRate > 0.20` with at least 100 samples.
  abbrev pub is_failing : VariantStats F → Bool
  is_failing s =
      if ltb s.samples 100 then false else h.floats.less (h.floats.ratio 20 100) s.error_rate

  unfoldable pub stop_test : String → State F W → State F W
  unfolding reload update_status
  stop_test id m = (reload (record m { world = (update_status h id stopped "" m.world).1 })).1

  abbrev pub observation :
      Experiment F → String → String → String → ℕ → ℕ → Option (LogContext F) → Observation F
  observation e variant model request_id start time none = record {
    test_id = e.id;
    variant = variant;
    request_id = request_id;
    timestamp = start;
    model = model;
    latency_ms = (time - start) / 1_000_000;
    prompt_tokens = 0;
    completion_tokens = 0;
    cost_usd = h.floats.ratio 0 1;
    error = false;
    finish_reason = "";
  }
  observation e variant model request_id start time (some l) = record {
    test_id = e.id;
    variant = variant;
    request_id = request_id;
    timestamp = start;
    model = model;
    latency_ms = (time - start) / 1_000_000;
    prompt_tokens = l.prompt_tokens;
    completion_tokens = l.completion_tokens;
    cost_usd = l.cost_usd;
    error = not (str_eq l.error_code "");
    finish_reason = l.finish_reason;
  }

-- `p95` is `P95`.
module _ {F W : Type 0} (h : AbHost F W) (p95 : List F → F) where
  abbrev pub judged : String → State F W → Result (VariantStats F) × World F W → State F W
  judged id m (err e, w) = record m { world = w }
  judged id m (ok s, w) =
      if is_failing h s then stop_test h id (record m { world = w }) else record m { world = w }

  unfoldable pub check_auto_stop : String → String → State F W → State F W
  unfolding stop_test get_variant_stats
  check_auto_stop id variant m = judged id m (get_variant_stats h p95 id variant m.world)

  unfoldable pub record_result :
      Experiment F → String → String → String → ℕ → Option (LogContext F) → State F W → State F W
  unfolding insert_result check_auto_stop
  record_result e variant model request_id start log m =
      let row = observation h e variant model request_id start (h.now m.world.outside) log in
      check_auto_stop e.id variant (record m { world = (insert_result h row m.world).1 })

  abbrev pub after_next : String → ℕ → Passed F → Option (LogContext F) → State F W → State F W
  after_next request_id start as_is log m = m
  after_next request_id start (rerouted req e variant) log m =
      record_result e variant req.model request_id start log m

  abbrev pub call_next :
      (Passed F → W → Option (LogContext F) × W)
      → String
      → ℕ
      → Passed F
      → State F W
      → Passed F × State F W
  call_next next request_id start p m =
      let (log, o) = next p m.world.outside in
      (p, after_next request_id start p log (record m { world = record m.world { outside = o } }))

  -- A request, with what the next handler gets.
  unfoldable pub serve :
      (ChatRequest F → Bool)
      → (Passed F → W → Option (LogContext F) × W)
      → HttpRequest F
      → State F W
      → Passed F × State F W
  unfolding handle record_result
  serve marshal_fails next r m =
      call_next next r.request_id (h.now m.world.outside) (handle h marshal_fails m r) m
