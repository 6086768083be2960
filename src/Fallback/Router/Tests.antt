-- ===== src/Fallback/Router/Tests.antt =====
-- The router on two providers, of which the first is overloaded; the world counts the calls.
use llm_router.Common.{
  ℕ, ◌+◌, ◌-◌, ◌*◌, ◌/◌, ◌≤◌, String, ◌≡◌, refl, ◌≢◌, inl, inr, true, none, some, [], ◌∷◌, Memᴰ,
  arith, str_eq, ltb, if◌then◌else◌, Bool-cases, length, insert,
}
use llm_router.Common.Int.{pos}
use llm_router.Provider.Errors.{overloaded, Error, gateway, is_retryable, as_gateway, is_context}
use llm_router.CircuitBreaker.{
  Breaker, default_config, new, state_open, is_open, record_failure, record_success,
}
use llm_router.Retry.{execute, default, delay}
use llm_router.Fallback.{Target, Chain}
use llm_router.Fallback.Router.{
  Answer, reply, failed, Providers, is_fallback_error, Balancer, answered, sort_targets,
  execute_chain, execute_stream, exhausted,
}
use llm_router.Fallback.Router.Log.{logged}
use llm_router.Fallback.Router.Calls.{
  Grows, IsTarget, execute_chain-calls, execute_chain-skips_open,
}
use llm_router.Fallback.Router.Result.{Served, execute_chain-Served}
use llm_router.Fallback.Router.Failover.{execute_chain_answers}

abbrev busy : Error
busy = gateway (record { code = overloaded; message = "busy"; http_status = 503; retry_after = 0 })

abbrev two : Providers ℕ String
two = record {
  host = record {
    F = ℕ;
    literal = λ a b. a / b;
    add = ◌+◌;
    sub = ◌-◌;
    mul = ◌*◌;
    less = ltb;
    to_duration = pos;
    random = λ w. (0, w);
    wait = λ d w. (none, w);
  };
  registered = λ p. true;
  call = λ p m w. (if str_eq p "openai" then failed busy else reply "hello", w + 1);
  now = λ w. 100;
  quote = λ s. s;
}

abbrev target : String → Target
target p = record { provider = p; model = "large"; weight = pos 0 }

abbrev pair : Chain
pair = record { name = "main"; targets = target "openai" ∷ target "gemini" ∷ [] }

abbrev in_order : Balancer ℕ
in_order = none

execute_tests :
    ((execute_chain two in_order pair (new default_config) 0).0
      ≡ answered (some "hello") (target "gemini"))
    × ((execute_chain two in_order pair (new default_config) 0).1.1 ≡ 4)
    × ((execute_stream two in_order pair (new default_config) 0).1.1 ≡ 2)
unfolding execute_chain execute_stream new execute default delay is_open record_failure
    record_success insert is_retryable as_gateway is_context is_fallback_error
execute_tests = (refl, refl, refl)

execute_chain-calls_example :
    Grows
      (IsTarget two in_order pair (new default_config) [] 0)
      []
      (execute_chain (logged two) none pair (new default_config) ([], 0)).1.1.0
    × (length (execute_chain (logged two) none pair (new default_config) ([], 0)).1.1.0
        ≤ 0 + 3 * length (sort_targets in_order pair.targets 0).0)
execute_chain-calls_example = execute_chain-calls two in_order pair (new default_config) [] 0

abbrev openai_down : Breaker
openai_down = record {
  entries =
      ("openai", record { state = state_open; failures = 5; successes = 0; last_failure_at = 90 })
      ∷ [];
  cfg = default_config;
}

execute_chain-skips_open_example :
    Grows (λ c. c.0 ≢ "openai") [] (execute_chain (logged two) none pair openai_down ([], 0)).1.1.0
execute_chain-skips_open_example =
    execute_chain-skips_open two in_order pair openai_down [] 0 "openai" refl (λ v. omega arith)

execute_chain-Served_example :
    Served two exhausted
      (two.quote "main")
      (sort_targets in_order pair.targets 0).0
      (execute_chain two in_order pair (new default_config) 0).0
execute_chain-Served_example = execute_chain-Served two in_order pair (new default_config) 0

gemini_replies : (m : String) (v : ℕ) → (r : String) × ((two.call "gemini" m v).0 ≡ reply r)
gemini_replies m v = ("hello", refl)

two_fall_back :
    (p m : String) (v : ℕ) (e : Error) → (two.call p m v).0 ≡ failed e → is_fallback_error e ≡ true
unfolding is_fallback_error is_retryable as_gateway is_context
two_fall_back p m v e h = elim (Bool-cases (str_eq p "openai")) [
  | inl t ↦
      let same : ◌≡◌ {A = Answer String} (failed busy) (failed e) = rw t at h in
      let b : busy ≡ e = cc same in rw (← b) refl
  | inr t ↦ cc (rw t at h)
]

execute_chain_answers_example :
    (r : String) × (u : Target) × ((execute_chain two in_order pair (new default_config) 0).0
      ≡ answered (some r) u)
unfolding sort_targets new
execute_chain_answers_example =
    execute_chain_answers two "gemini" gemini_replies two_fall_back (λ d v. refl) in_order pair
      (new default_config) 0 (target "gemini") refl (Memᴰ.tail (Memᴰ.head refl)) refl (λ e. cc e)
