-- ===== src/Chat.antt =====
-- internal/gateway/handler/chat.go: `ChatHandler`, from the decoded request to the response. The
-- body's JSON is decoded outside (`none` where it cannot be read or is not valid); telemetry and log
-- lines are left out. A stream is modelled up to the point where it is handed to the proxy.
pub mod ParseModel
pub mod Laws
mod Tests
use llm_router.Common.{
  ℕ, String, Bool, false, not, ◌||◌, Option, none, some, List, [], ◌∷◌, str_eq, ◌==◌, if◌then◌else◌,
  length, lookup, insert,
}
use llm_router.Common.Int.{ℤ, pos, leb_ℤ}
use llm_router.Provider.Errors.{Error, as_gateway, code_string}
use llm_router.CircuitBreaker.{Breaker}
use llm_router.Fallback.{Target, Chain, single_target}
use llm_router.Fallback.Router.{
  Providers, Outcome, answered, rejected, unavailable, Balancer, execute_chain, execute_stream,
}
use llm_router.Residency.{Registry, Filtered, passed, blocked, filter_chain}
use llm_router.Chat.ParseModel.{parse_model}

pub record Message : Type 0 where
  pub role : String
  pub content : String

-- The fields of `types.ChatCompletionRequest` that the gateway reads; `F` is `float64`.
pub record Request (F : Type 0) : Type 0 where
  pub model : String
  pub messages : List Message
  pub temperature : Option F
  pub max_tokens : Option ℤ
  pub stream : Bool
  pub tools : ℕ
  pub metadata : List (String × String)

pub data Response (R : Type 0) : Type 0 where
  success : Option R → Response R
  streaming : Option R → Response R
  fail : ℕ → String → String → Response R

-- `SetChains`: a later chain of the same name replaces an earlier one.
unfoldable pub set_chains : List Chain → List (String × Chain) → List (String × Chain)
set_chains [] m = m
set_chains (c ∷ cs) m = set_chains cs (insert c.name c m)

unfoldable pub resolve_chain : List (String × Chain) → String → Chain
unfolding parse_model single_target
resolve_chain chains model = elim (lookup model chains) [
  | some c ↦ c
  | none ↦ let (provider, name) = parse_model model in single_target provider name
]

-- The message of the error that `err` becomes, by its own status where it is a `GatewayError`.
unfoldable pub error_response : {R : Type 0} → Error → Response R
unfolding as_gateway
error_response e = elim (as_gateway e) [
  | some g ↦ fail g.http_status (code_string g.code) ""
  | none ↦ fail 502 "api_error" ""
]

-- What the client gets, for a response that `done` makes of the router's.
unfoldable pub respond : {R : Type 0} → (Option R → Response R) → Outcome R → Response R
unfolding error_response
respond done (answered r t) = done r
respond done (rejected t e) = error_response e
respond done (unavailable e) = error_response e

module _ {W R : Type 0} (ps : Providers W R) where
  open ps use {host}

  -- `Temperature != nil && (*Temperature < 0 || *Temperature > 2)`.
  unfoldable pub bad_temperature : Option host.F → Bool
  bad_temperature none = false
  bad_temperature (some x) = host.less x (host.literal 0 1) || host.less (host.literal 2 1) x

  unfoldable pub bad_max_tokens : Option ℤ → Bool
  bad_max_tokens none = false
  bad_max_tokens (some n) = leb_ℤ n (pos 0)

  -- `none` if the request is valid, else what is wrong with it.
  unfoldable pub validate_chat_request : Request host.F → Option String
  unfolding bad_temperature bad_max_tokens
  validate_chat_request req =
      if str_eq req.model ""
      then some "model is required"
      else if length req.messages == 0
      then some "messages is required and must not be empty"
      else if bad_temperature req.temperature
      then some "temperature must be between 0.0 and 2.0"
      else if bad_max_tokens req.max_tokens
      then some "max_tokens must be a positive integer"
      else none

  -- The handler's fields: the optional advanced router, the optional residency enforcer, the named
  -- chains and the load balancer of the fallback router.
  pub record Handler : Type 0 where
    pub adv_router : Option (Request host.F → Option Chain)
    pub enforcer : Option Registry
    pub chains : List (String × Chain)
    pub balancer : Balancer W

  unfoldable pub resolve : Handler → Request host.F → Chain
  unfolding resolve_chain
  resolve h req = elim h.adv_router [
    | none ↦ resolve_chain h.chains req.model
    | some route ↦ elim (route req) [ some c ↦ c | none ↦ resolve_chain h.chains req.model ]
  ]

  -- The chain under the policy in the request's context, "" if there is none.
  unfoldable pub apply_residency : Handler → String → Chain → String → Filtered
  unfolding filter_chain
  apply_residency h policy_name chain model = elim h.enforcer [
    | none ↦ passed chain
    | some registry ↦
        if str_eq policy_name ""
        then passed chain
        else filter_chain registry policy_name chain model
  ]

  unfoldable pub forward :
      Handler → Request host.F → Chain → Breaker → W → Response R × (Breaker × W)
  unfolding respond
  forward h req chain cb w =
      if req.stream
      then (let (o, s) = execute_stream ps h.balancer chain cb w in (respond streaming o, s))
      else let (o, s) = execute_chain ps h.balancer chain cb w in (respond success o, s)

  unfoldable pub handle :
      Handler → Option (Request host.F) → String → Breaker → W → Response R × (Breaker × W)
  unfolding resolve
  handle h none policy_name cb w = (fail 400 "invalid_request_error" "", (cb, w))
  handle h (some req) policy_name cb w = elim (validate_chat_request req) [
    | some problem ↦ (fail 400 "invalid_request_error" "", (cb, w))
    | none ↦
        let chain = resolve h req in
        if length chain.targets == 0
        then (fail 400 "invalid_request_error" "model_not_found", (cb, w))
        else elim (apply_residency h policy_name chain req.model) [
          | blocked e ↦ (fail 451 "data_residency_violation" "no_compliant_provider", (cb, w))
          | passed allowed ↦ forward h req allowed cb w
        ]
  ]
