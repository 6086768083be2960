-- ===== src/Fallback/Router/Failover.antt =====
-- internal/gateway/fallback/router.go: a request is answered as long as one target is healthy.
use llm_router.Common.{
  ℕ, ◌+◌, String, ◌≡◌, refl, sym, ap, ◌∙◌, ◌≢◌, ◌⊎◌, inl, inr, true, false, not, ◌&&◌, Option, none,
  some, List, [], ◌∷◌, Memᴰ, arith, str_eq, Bool-cases, Option-cases, str_eq-ne,
}
use llm_router.Provider.Errors.{Error}
use llm_router.CircuitBreaker.{Breaker, state_open, probe, is_open, record_failure}
use llm_router.CircuitBreaker.View.{
  entry_of, entry_step, apply, ask, fail, entry_of-apply, is_open_answer,
}
use llm_router.Retry.{default}
use llm_router.Retry.Laws.{execute_gives}
use llm_router.Fallback.{Target, Chain}
use llm_router.Fallback.Router.{
  reply, failed, answered, Providers, is_fallback_error, walk, Balancer, sort_targets,
  execute_chain, attempt, host_with_response, call_with_retry, exhausted,
}
use llm_router.Fallback.Router.Result.{Answer-cases, call_with_retry-HasResponse}

module _ {W R : Type 0} (ps : Providers W R) (q : String)
    (replies : (m : String) (v : W) → (r : R) × ((ps.call q m v).0 ≡ reply r))
    (falls_back : (p m : String) (v : W) (e : Error)
      → (ps.call p m v).0 ≡ failed e
      → is_fallback_error e ≡ true)
    (undisturbed : (d : ℕ) (v : W) → (ps.host.wait d v).0 ≡ none) where
  attempt_good : (m : String) (s : Option R × W) → (attempt ps q m s).0 ≡ none
  unfolding attempt
  attempt_good m (x, w) = let (r, e) = replies m w in rw (e, attempt)

  run_good : (m : String) (w : W) → (call_with_retry ps q m w).0 ≡ none
  unfolding call_with_retry default
  run_good m w =
      execute_gives (host_with_response ps) (default (host_with_response ps)) (attempt ps q m)
        (λ err s. err ≡ none) (λ d s e h. cc (undisturbed d s.1, h)) (attempt_good m) (none, w)
        (omega arith)

  attempt_falls_back :
      (p m : String) (s : Option R × W) (e : Error)
      → (attempt ps p m s).0 ≡ some e
      → is_fallback_error e ≡ true
  unfolding attempt
  attempt_falls_back p m (x, w) e h = elim (Answer-cases (ps.call p m w).0) [
    | inl (r, a) ↦ cc (rw (a, attempt) at h)
    | inr (f, a) ↦
        let h' : some f ≡ some e = rw (a, attempt) at h in
        let same : f ≡ e = cc h' in falls_back p m w e (a ∙ ap failed same)
  ]

  run_falls_back :
      (p m : String) (w : W) (e : Error)
      → (call_with_retry ps p m w).0 ≡ some e
      → is_fallback_error e ≡ true
  unfolding call_with_retry default
  run_falls_back p m w =
      execute_gives (host_with_response ps) (default (host_with_response ps)) (attempt ps p m)
        (λ err s. (e : Error) → err ≡ some e → is_fallback_error e ≡ true)
        (λ d s e h. absurd (cc (undisturbed d s.1, h))) (attempt_falls_back p m) (none, w)
        (omega arith)

  -- The circuit of `q` is not open.
  abbrev Up : Breaker → Type 0
  Up b = (entry_of q b).state ≢ state_open

  ask-Up : (now : ℕ) (p : String) (b : Breaker) → Up b → Up (is_open now p b).1
  unfolding apply entry_step
  ask-Up now p b up =
      let moved = entry_of-apply (ask now p) q b in
      elim (Bool-cases (str_eq p q)) [
        | inl t ↦ rw (rw t at moved) (λ s. ground arith)
        | inr t ↦ rw (rw t at moved) up
      ]

  fail-Up : (now : ℕ) (p : String) (b : Breaker) → p ≢ q → Up b → Up (record_failure now p b)
  unfolding apply
  fail-Up now p b ne up =
      let moved = entry_of-apply (fail now p) q b in rw (rw (str_eq-ne p q ne) at moved) up

  early_probe : (now : ℕ) (b : Breaker) → Up b → (is_open now q b).0 ≡ false
  unfolding probe
  early_probe now b up = is_open_answer now q b ∙ ground arith

  here_or_later :
      {t u : Target} {ts : List Target}
      → t.provider ≡ q
      → Memᴰ t (u ∷ ts)
      → (u.provider ≡ q) ⊎ Memᴰ t ts
  here_or_later same (Memᴰ.head e) = inl (ap (λ x. x.provider) (sym e) ∙ same)
  here_or_later same (Memᴰ.tail m) = inr m

  walk_answers :
      (name : String) (ts : List Target) (tried : ℕ) (last : Option Error) (cb : Breaker) (w : W)
      → (t : Target) → t.provider ≡ q
      → Memᴰ t ts
      → ps.registered q ≡ true
      → Up cb
      → (r : R) × (u : Target) × ((walk ps (call_with_retry ps) exhausted name ts tried last cb w).0
          ≡ answered (some r) u)
  unfolding walk
  walk_answers name [] tried last cb w t same m known up = elim m [ ]
  walk_answers name (u ∷ ts) tried last cb w t same m known up =
      let cb₁ = (is_open (ps.now w) u.provider cb).1 in
      let up₁ : Up cb₁ = ask-Up (ps.now w) u.provider cb up in
      let result = call_with_retry ps u.provider u.model w in
      elim (Bool-cases (not (is_open (ps.now w) u.provider cb).0 && ps.registered u.provider)) [
        | inr skip ↦ elim (here_or_later {ts = ts} same m) [
          | inl here ↦
              let passes : (is_open (ps.now w) u.provider cb).0 ≡ false =
                rw here (early_probe (ps.now w) cb up) in
              let listed : ps.registered u.provider ≡ true = rw here known in absurd (ground arith)
          | inr later ↦
              rw (skip, walk) (walk_answers name ts tried last cb₁ w t same later known up₁)
        ]
        | inl go ↦ elim (Option-cases result.0) [
          | inl good ↦
              let (r, hr) = call_with_retry-HasResponse ps u.provider u.model w good in
              rw (go, walk) (rw (good, walk) (rw hr (r, u, refl)))
          | inr (e, bad) ↦
              let other : u.provider ≢ q = λ here.
                cc (run_good u.model w, ap (λ p. (call_with_retry ps p u.model w).0) here, bad) in
              let y = run_falls_back u.provider u.model w e bad in
              elim (here_or_later {ts = ts} same m) [
                | inl here ↦ absurd (other here)
                | inr later ↦
                    rw (go, walk)
                      (rw (bad, walk)
                        (rw (y, walk)
                          (walk_answers name ts (tried + 1) (some e)
                            (record_failure (ps.now result.1.1) u.provider cb₁) result.1.1 t same
                            later known (fail-Up (ps.now result.1.1) u.provider cb₁ other up₁))))
              ]
        ]
      ]

  -- If some target of the balanced chain is of a registered provider whose circuit is not open and
  -- which replies to every call, if all failures of other providers warrant a fallback and no wait
  -- is interrupted, then `Execute` returns a response.
  pub execute_chain_answers :
      (lb : Balancer W) (chain : Chain) (cb : Breaker) (w : W) (t : Target)
      → t.provider ≡ q
      → Memᴰ t (sort_targets lb chain.targets w).0
      → ps.registered q ≡ true
      → Up cb
      → (r : R) × (u : Target) × ((execute_chain ps lb chain cb w).0 ≡ answered (some r) u)
  unfolding execute_chain
  execute_chain_answers lb chain cb w t same m known up =
      walk_answers (ps.quote chain.name) _ 0 none cb (sort_targets lb chain.targets w).1 t same m
        known up
