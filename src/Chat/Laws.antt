-- ===== src/Chat/Laws.antt =====
-- internal/gateway/handler/chat.go: what reaches the providers through the handler.
use llm_router.Common.{
  String, ◌≡◌, refl, subst, ◌≢◌, ◌⊎◌, inl, inr, true, Option, none, some, List, Memᴰ, ◌==◌,
  Bool-cases, Option-cases, str_eq-ne, length, All, All-mem, All-of_mem, lookup,
}
use llm_router.CircuitBreaker.{Breaker}
use llm_router.Fallback.{Target, Chain}
use llm_router.Fallback.Router.{Providers, sort_targets}
use llm_router.Fallback.Router.Log.{Call, logged}
use llm_router.Fallback.Router.Calls.{
  Grows, IsTarget, logged_balancer, execute_chain-calls, execute_stream-calls, Grows-none,
  Grows-map,
}
use llm_router.Residency.{
  Policy, Registry, Filtered, ErrNoCompliantProvider, is_provider_allowed, passed, blocked,
  filter_chain,
}
use llm_router.Residency.Laws.{filter_chain-passed}
use llm_router.Chat.{
  Request, Handler, handle, forward, resolve, apply_residency, validate_chat_request,
}

Filtered-cases :
    (f : Filtered)
    → ((out : Chain) × (f ≡ passed out)) ⊎ ((e : ErrNoCompliantProvider) × (f ≡ blocked e))
Filtered-cases (passed out) = inl (out, refl)
Filtered-cases (blocked e) = inr (e, refl)

-- The handler over the providers with a log.
abbrev pub logged_handler : {W R : Type 0} (ps : Providers W R) → Handler ps → Handler (logged ps)
logged_handler ps h = record {
  adv_router = h.adv_router;
  enforcer = h.enforcer;
  chains = h.chains;
  balancer = logged_balancer h.balancer;
}

module _ {W R : Type 0} (ps : Providers W R) (h : Handler ps) (registry : Registry) (p : Policy)
    (policy_name : String) (enforced : h.enforcer ≡ some registry) (named : policy_name ≢ "")
    (known : lookup policy_name registry ≡ some p)
    (sound : (ts : List Target) (w : W)
      → All (λ t. Memᴰ t ts) (sort_targets h.balancer ts w).0) where
  abbrev Allowed : Call → Type 0
  Allowed c = is_provider_allowed p c.0 ≡ true

  target-Allowed :
      (chain : Chain) (w : W)
      → All (λ t. is_provider_allowed p t.provider ≡ true) chain.targets
      → (cb : Breaker) (log : List Call) (c : Call) → IsTarget ps h.balancer chain cb log w c
      → Allowed c
  target-Allowed chain w ok cb log c (t, m, same, _, _) =
      subst (λ q. is_provider_allowed p q ≡ true) same
        (All-mem _ ok (All-mem _ (sound chain.targets w) m))

  forward-Allowed :
      (req : Request ps.host.F) (chain : Chain) (cb : Breaker) (log : List Call) (w : W)
      → All (λ t. is_provider_allowed p t.provider ≡ true) chain.targets
      → Grows Allowed log (forward (logged ps) (logged_handler ps h) req chain cb (log, w)).1.1.0
  unfolding forward
  forward-Allowed req chain cb log w ok = elim (Bool-cases req.stream) [
    | inl y ↦
        rw (y, forward)
          (Grows-map (target-Allowed chain w ok cb log)
            (execute_stream-calls ps h.balancer chain cb log w).0)
    | inr n ↦
        rw (n, forward)
          (Grows-map (target-Allowed chain w ok cb log)
            (execute_chain-calls ps h.balancer chain cb log w).0)
  ]

  passed-Allowed :
      (chain out : Chain) (model : String)
      → apply_residency (logged ps) (logged_handler ps h) policy_name chain model ≡ passed out
      → All (λ t. is_provider_allowed p t.provider ≡ true) out.targets
  unfolding apply_residency
  passed-Allowed chain out model e =
      let e' : filter_chain registry policy_name chain model ≡ passed out =
        rw (enforced, str_eq-ne policy_name "" named, apply_residency) at e in
      let kept = (filter_chain-passed registry policy_name model chain out p known e').3 in
      All-of_mem _ out.targets (λ t m. (All-mem _ kept m).0)

  -- Under an enforced policy every call that a request makes of a provider, retries and fallbacks
  -- included, is of a provider that the policy allows, if the load balancer returns only targets
  -- of the list it gets.
  pub handle_respects_policy :
      (req : Option (Request ps.host.F)) (cb : Breaker) (log : List Call) (w : W)
      → Grows
          (λ c. is_provider_allowed p c.0 ≡ true)
          log
          (handle (logged ps) (logged_handler ps h) req policy_name cb (log, w)).1.1.0
  unfolding handle
  handle_respects_policy none cb log w = Grows-none _ log
  handle_respects_policy (some req) cb log w =
      elim (Option-cases (validate_chat_request (logged ps) req)) [
        | inr (problem, bad) ↦ rw (bad, handle) (Grows-none Allowed log)
        | inl good ↦
            let chain = resolve (logged ps) (logged_handler ps h) req in
            rw (good, handle)
              (elim (Bool-cases (length chain.targets == 0)) [
                | inl none_left ↦ rw none_left (Grows-none Allowed log)
                | inr some_left ↦
                    rw some_left
                      (elim (Filtered-cases (
                        apply_residency (logged ps) (logged_handler ps h) policy_name chain
                          req.model)) [
                            | inl (out, ok) ↦ rw ok (
                                forward-Allowed req out cb log w
                                  (passed-Allowed chain out req.model ok))
                            | inr (e, stop) ↦ rw stop (Grows-none Allowed log)
                          ])
              ])
      ]
