-- ===== src/Chat/Tests.antt =====
-- A request under a policy that blocks the first of two providers.
use llm_router.Common.{
  ℕ, ◌+◌, ◌-◌, ◌*◌, ◌/◌, String, ◌≡◌, refl, true, false, none, some, [], ◌∷◌, arith, ltb,
  All-of_mem, insert,
}
use llm_router.Common.Int.{pos}
use llm_router.CircuitBreaker.{new, default_config, is_open, record_success, record_failure}
use llm_router.Retry.{execute, default, delay}
use llm_router.Provider.Errors.{is_retryable, as_gateway, is_context}
use llm_router.Fallback.{Target}
use llm_router.Fallback.Router.{reply, Providers, sort_targets, execute_chain}
use llm_router.Fallback.Router.Log.{logged}
use llm_router.Fallback.Router.Calls.{Grows}
use llm_router.Residency.{Policy, Registry, is_provider_allowed, filter_chain}
use llm_router.Chat.{
  Request, Handler, success, fail, handle, forward, resolve, apply_residency, validate_chat_request,
}
use llm_router.Chat.Laws.{logged_handler, handle_respects_policy}
use llm_router.Chat.ParseModel.{parse_model, NoSlash}

abbrev greeters : Providers ℕ String
greeters = record {
  host = record {
    F = ℕ;
    literal = λ a b. a / b;
    add = ◌+◌;
    sub = ◌-◌;
    mul = ◌*◌;
    less = ltb;
    to_duration = pos;
    random = λ w. (0, w);
    wait = λ d w. (none, w);
  };
  registered = λ p. true;
  call = λ p m w. (reply p, w + 1);
  now = λ w. 100;
  quote = λ s. s;
}

abbrev no_openai : Policy
no_openai = record {
  name = "no_openai";
  allowed_providers = [];
  blocked_providers = ("openai", true) ∷ [];
  allowed_regions = [];
}

abbrev policies : Registry
policies = ("no_openai", no_openai) ∷ []

abbrev target : String → Target
target p = record { provider = p; model = "large"; weight = pos 0 }

abbrev handler : Handler greeters
handler = record {
  adv_router = none;
  enforcer = some policies;
  chains =
      ("main", record { name = "main"; targets = target "openai" ∷ target "gemini" ∷ [] }) ∷ [];
  balancer = none;
}

abbrev request : String → Request ℕ
request name = record {
  model = name;
  messages = record { role = "user"; content = "hello" } ∷ [];
  temperature = some 1;
  max_tokens = none;
  stream = false;
  tools = 0;
  metadata = [];
}

handle_tests :
    ((handle greeters handler (some (request "main")) "no_openai" (new default_config) 0).0
      ≡ success (some "gemini"))
    × ((handle greeters handler (some (request "main")) "" (new default_config) 0).0
        ≡ success (some "openai"))
    × ((handle greeters handler (some (request "openai/gpt")) "no_openai" (new default_config) 0).0
        ≡ fail 451 "data_residency_violation" "no_compliant_provider")
    × ((handle greeters handler (some (request "")) "" (new default_config) 0).0
        ≡ fail 400 "invalid_request_error" "")
    × (parse_model "gemini/pro/1" ≡ ("gemini", "pro/1"))
    × (parse_model "/pro" ≡ ("openai", "/pro"))
unfolding handle resolve apply_residency validate_chat_request filter_chain is_provider_allowed
    execute_chain new execute default delay is_open record_failure record_success insert
    is_retryable as_gateway is_context parse_model forward
handle_tests = (refl, refl, refl, refl, refl, refl)

handle_respects_policy_example :
    Grows
      (λ c. is_provider_allowed no_openai c.0 ≡ true)
      []
      (handle
        (logged greeters)
        (logged_handler greeters handler)
        (some (request "main"))
        "no_openai"
        (new default_config)
        ([], 0)).1.1.0
unfolding sort_targets
handle_respects_policy_example =
    handle_respects_policy greeters handler policies no_openai "no_openai" refl (λ e. cc e) refl
      (λ ts w. All-of_mem _ ts (λ t m. m)) (some (request "main")) (new default_config) [] 0

gemini_NoSlash : NoSlash "gemini"
gemini_NoSlash =
    (omega arith, (omega arith, (omega arith, (omega arith, (omega arith, (omega arith, tt))))))
