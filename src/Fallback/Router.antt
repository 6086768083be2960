-- ===== src/Fallback/Router.antt =====
-- internal/gateway/fallback/router.go: `Router.Execute` and `Router.ExecuteStream`. One request runs
-- with no other in between, so the breaker changes only by this request's own calls. Log lines are
-- left out.
pub mod Log
pub mod Calls
pub mod Result
pub mod Failover
mod Tests
use Prim.Native.String.{◌++◌ as str_append}
use llm_router.Common.{
  ℕ, ◌+◌, String, Bool, true, false, not, ◌&&◌, Option, none, some, List, [], ◌∷◌, ◌==◌,
  if◌then◌else◌,
}
use llm_router.Provider.Errors.{
  GatewayError, is_retryable, Error, other, wrapped, as_gateway, is_context,
}
use llm_router.CircuitBreaker.{Breaker, is_open, record_success, record_failure}
use llm_router.Retry.{Host, default, execute}
use llm_router.Fallback.{Target, Chain}

-- A call of a provider answers a response or an error.
pub data Answer (R : Type 0) : Type 0 where
  reply : R → Answer R
  failed : Error → Answer R

-- The providers and the world around the router: `registry.Get`, the providers' calls, the time,
-- and the `%q` of Go's formatting.
pub record Providers (W R : Type 0) : Type 1 where
  pub host : Host W
  pub registered : String → Bool
  pub call : String → String → W → Answer R × W
  pub now : W → ℕ
  pub quote : String → String

-- Whether an error warrants trying the next provider.
unfoldable pub is_fallback_error : Error → Bool
is_fallback_error e =
    if is_context e then false else elim (as_gateway e) [ some g ↦ is_retryable g | none ↦ true ]

-- What `Execute` returns: the response, the target and the error.
pub data Outcome (R : Type 0) : Type 0 where
  answered : Option R → Target → Outcome R
  rejected : Target → Error → Outcome R
  unavailable : Error → Outcome R

abbrev no_available : String → Error
no_available name =
    other (str_append "no available providers in chain " (str_append name " (all circuits open)"))

abbrev exhausted : String → Error → Error
exhausted name e = wrapped (str_append "all fallbacks exhausted for chain " name) e

abbrev stream_exhausted : String → Error → Error
stream_exhausted name e = wrapped (str_append "all stream fallbacks exhausted for chain " name) e

abbrev no_providers : String → Error
no_providers name = other (str_append "no providers in fallback chain " name)

-- The end of both loops: `tried` counts the targets that were called.
unfoldable pub conclude :
    {R : Type 0} → (String → Error → Error) → String → ℕ → Option Error → Outcome R
conclude spent name tried last =
    if tried == 0
    then unavailable (no_available name)
    else elim last [ some e ↦ unavailable (spent name e) | none ↦ unavailable (no_providers name) ]

-- `r.lb.Sort(targets)`; without a load balancer the chain's order stays. A balancer may use the
-- world: its counter, the random source, or measurements.
abbrev pub Balancer : Type 0 → Type 0
Balancer W = Option (List Target → W → List Target × W)

unfoldable pub sort_targets : {W : Type 0} → Balancer W → List Target → W → List Target × W
sort_targets none ts w = (ts, w)
sort_targets (some sort) ts w = sort ts w

module _ {W R : Type 0} (ps : Providers W R) where
  open ps use {host, registered, call, now, quote}

  -- The closure that `retry.Execute` runs: it leaves the response in a variable of the caller.
  unfoldable pub attempt : String → String → Option R × W → Option Error × (Option R × W)
  attempt provider model (_, w) =
      let (answer, w') = call provider model w in
      elim answer [ reply r ↦ (none, (some r, w')) | failed e ↦ (some e, (none, w')) ]

  -- The same host, with the caller's variable in its world.
  abbrev pub host_with_response : Host (Option R × W)
  host_with_response = record {
    F = host.F;
    literal = host.literal;
    add = host.add;
    sub = host.sub;
    mul = host.mul;
    less = host.less;
    to_duration = host.to_duration;
    random = λ s. let (x, w) = host.random s.1 in (x, (s.0, w));
    wait = λ d s. let (e, w) = host.wait d s.1 in (e, (s.0, w));
  }

  -- A provider's call with retries: the error, the response variable and the world.
  unfoldable pub call_with_retry : String → String → W → Option Error × (Option R × W)
  unfolding attempt
  call_with_retry provider model w =
      execute host_with_response (default host_with_response) (attempt provider model) (none, w)

  -- A provider's call for a stream, which is made once.
  unfoldable pub call_once : String → String → W → Option Error × (Option R × W)
  unfolding attempt
  call_once provider model w = attempt provider model (none, w)

  -- The loop over the targets, which `Execute` and `ExecuteStream` share: `run` calls a provider,
  -- and `spent` wraps the last error.
  module _ (run : String → String → W → Option Error × (Option R × W))
      (spent : String → Error → Error) (name : String) where
    unfoldable pub walk : List Target → ℕ → Option Error → Breaker → W → Outcome R × (Breaker × W)
    unfolding conclude
    walk [] tried last cb w = (conclude spent name tried last, (cb, w))
    walk (t ∷ ts) tried last cb w =
        let (blocked, cb₁) = is_open (now w) t.provider cb in
        elim (not blocked && registered t.provider) [
          | false ↦ walk ts tried last cb₁ w
          | true ↦
              let (err, s) = run t.provider t.model w in
              elim err [
                | none ↦ (answered s.0 t, (record_success t.provider cb₁, s.1))
                | some e ↦ elim (is_fallback_error e) [
                  | true ↦
                      walk ts (tried + 1) (some e) (record_failure (now s.1) t.provider cb₁) s.1
                  | false ↦ (rejected t e, (cb₁, s.1))
                ]
              ]
        ]

  unfoldable pub execute_chain : Balancer W → Chain → Breaker → W → Outcome R × (Breaker × W)
  unfolding sort_targets walk call_with_retry
  execute_chain lb chain cb w =
      let (ts, w') = sort_targets lb chain.targets w in
      walk call_with_retry exhausted (quote chain.name) ts 0 none cb w'

  unfoldable pub execute_stream : Balancer W → Chain → Breaker → W → Outcome R × (Breaker × W)
  unfolding sort_targets walk call_once
  execute_stream lb chain cb w =
      let (ts, w') = sort_targets lb chain.targets w in
      walk call_once stream_exhausted (quote chain.name) ts 0 none cb w'
