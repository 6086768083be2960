-- ===== src/Fallback/Router/Result.antt =====
-- internal/gateway/fallback/router.go: what a request returns.
use llm_router.Common.{
  ℕ, ◌+◌, String, ◌≡◌, refl, ◌⊎◌, inl, inr, true, false, not, ◌&&◌, Option, none, some, List, [],
  ◌∷◌, Memᴰ, arith, ◌==◌, Bool-cases, Option-cases,
}
use llm_router.Provider.Errors.{Error}
use llm_router.CircuitBreaker.{Breaker, is_open, record_failure}
use llm_router.Retry.{default}
use llm_router.Retry.Laws.{execute_gives}
use llm_router.Fallback.{Target, Chain}
use llm_router.Fallback.Router.{
  Answer, reply, failed, Outcome, answered, rejected, unavailable, no_available, conclude,
  Providers, is_fallback_error, walk, Balancer, sort_targets, execute_chain, execute_stream,
  attempt, host_with_response, call_with_retry, call_once, exhausted, stream_exhausted,
}

-- A run of a provider that reports no error has left a response.
abbrev pub HasResponse : {W R : Type 0} → Option Error → Option R × W → Type 0
HasResponse {R} err s = err ≡ none → (r : R) × (s.0 ≡ some r)

pub Answer-cases :
    {R : Type 0} (a : Answer R) → ((r : R) × (a ≡ reply r)) ⊎ ((e : Error) × (a ≡ failed e))
Answer-cases (reply r) = inl (r, refl)
Answer-cases (failed e) = inr (e, refl)

module _ {W R : Type 0} (ps : Providers W R) where
  attempt-HasResponse :
      (p m : String) (s : Option R × W) → HasResponse (attempt ps p m s).0 (attempt ps p m s).1
  unfolding attempt
  attempt-HasResponse p m (x, w) = elim (Answer-cases (ps.call p m w).0) [
    | inl (r, e) ↦ rw (e, attempt) (λ n. (r, refl))
    | inr (f, e) ↦ rw (e, attempt) (λ n. cc)
  ]

  pub call_with_retry-HasResponse :
      (p m : String) (w : W) → HasResponse (call_with_retry ps p m w).0 (call_with_retry ps p m w).1
  unfolding call_with_retry default
  call_with_retry-HasResponse p m w =
      execute_gives (host_with_response ps) (default (host_with_response ps)) (attempt ps p m)
        HasResponse (λ d s e h n. cc) (attempt-HasResponse p m) (none, w) (omega arith)

  call_once-HasResponse :
      (p m : String) (w : W) → HasResponse (call_once ps p m w).0 (call_once ps p m w).1
  unfolding call_once
  call_once-HasResponse p m w = attempt-HasResponse p m (none, w)

-- What the loop over the targets can return: the response of a registered provider that is a
-- target; at once the error of such a provider that does not warrant a fallback; that nothing was
-- tried; or the last error, which warrants a fallback, wrapped.
pub data Served {W R : Type 0} (ps : Providers W R) (spent : String → Error → Error) (name : String)
    (ts : List Target) : Outcome R → Type 0 where
  served :
      (r : R) (t : Target)
      → Memᴰ t ts
      → ps.registered t.provider ≡ true
      → Served ps spent name ts (answered (some r) t)
  refused :
      (t : Target) (e : Error)
      → Memᴰ t ts
      → ps.registered t.provider ≡ true
      → is_fallback_error e ≡ false
      → Served ps spent name ts (rejected t e)
  untried : Served ps spent name ts (unavailable (no_available name))
  failed_all :
      (e : Error)
      → is_fallback_error e ≡ true
      → Served ps spent name ts (unavailable (spent name e))

module _ {W R : Type 0} (ps : Providers W R)
    (run : String → String → W → Option Error × (Option R × W)) (spent : String → Error → Error)
    (name : String) where
  Served-cons :
      {t : Target} {ts : List Target} {o : Outcome R}
      → Served ps spent name ts o
      → Served ps spent name (t ∷ ts) o
  Served-cons (served r u m k) = served r u (Memᴰ.tail m) k
  Served-cons (refused u e m k f) = refused u e (Memᴰ.tail m) k f
  Served-cons untried = untried
  Served-cons (failed_all e f) = failed_all e f

  -- As long as nothing was tried there is no last error, and a last error warrants a fallback.
  abbrev Tracks : ℕ → Option Error → Type 0
  Tracks tried last = (tried ≡ 0) ⊎ ((e : Error) × (last ≡ some e) × (is_fallback_error e ≡ true))

  conclude-Served :
      (tried : ℕ) (last : Option Error) (ts : List Target)
      → Tracks tried last
      → Served ps spent name ts (conclude spent name tried last)
  unfolding conclude
  conclude-Served tried last ts (inl z) = rw z untried
  conclude-Served tried last ts (inr (e, l, f)) = elim (Bool-cases (tried == 0)) [
    | inl z ↦ rw z untried
    | inr n ↦ rw (n, l) (failed_all e f)
  ]

  walk-Served :
      ((p m : String) (w : W) → HasResponse (run p m w).0 (run p m w).1)
      → (ts : List Target) (tried : ℕ) (last : Option Error) (cb : Breaker) (w : W)
      → Tracks tried last
      → Served ps spent name ts (walk ps run spent name ts tried last cb w).0
  unfolding walk
  walk-Served responds [] tried last cb w h = conclude-Served tried last [] h
  walk-Served responds (t ∷ ts) tried last cb w h =
      let cb₁ = (is_open (ps.now w) t.provider cb).1 in
      let result = run t.provider t.model w in
      elim (Bool-cases (not (is_open (ps.now w) t.provider cb).0 && ps.registered t.provider)) [
        | inr skip ↦ rw (skip, walk) (Served-cons (walk-Served responds ts tried last cb₁ w h))
        | inl go ↦
            let known : ps.registered t.provider ≡ true = ground arith in
            rw (go, walk)
              (elim (Option-cases result.0) [
                | inl good ↦
                    let (r, hr) = responds t.provider t.model w good in
                    rw (good, walk) (rw hr (served r t (Memᴰ.head refl) known))
                | inr (e, bad) ↦
                    rw (bad, walk)
                      (elim (Bool-cases (is_fallback_error e)) [
                        | inr n ↦ rw (n, walk) (refused t e (Memᴰ.head refl) known n)
                        | inl y ↦
                            rw (y, walk)
                              (Served-cons (
                                walk-Served responds ts (tried + 1) (some e)
                                  (record_failure (ps.now result.1.1) t.provider cb₁) result.1.1
                                  (inr (e, refl, y))))
                      ])
              ])
      ]

-- `Execute` returns one of the four results; in particular the error for an empty chain, at the end
-- of the function, is never returned, and a success always carries a response.
pub execute_chain-Served :
    {W R : Type 0} (ps : Providers W R) (lb : Balancer W) (chain : Chain) (cb : Breaker) (w : W)
    → Served ps exhausted
        (ps.quote chain.name)
        (sort_targets lb chain.targets w).0
        (execute_chain ps lb chain cb w).0
unfolding execute_chain
execute_chain-Served ps lb chain cb w =
    walk-Served ps (call_with_retry ps) exhausted (ps.quote chain.name)
      (call_with_retry-HasResponse ps) _ 0 none cb _ (inl refl)

-- `ExecuteStream` answers with a target of the balanced chain that is registered; it passes on the
-- error of such a target only where that ends the search, and else says that every circuit was open
-- or that every fallback failed.
pub execute_stream-Served :
    {W R : Type 0} (ps : Providers W R) (lb : Balancer W) (chain : Chain) (cb : Breaker) (w : W)
    → Served ps stream_exhausted
        (ps.quote chain.name)
        (sort_targets lb chain.targets w).0
        (execute_stream ps lb chain cb w).0
unfolding execute_stream
execute_stream-Served ps lb chain cb w =
    walk-Served ps (call_once ps) stream_exhausted (ps.quote chain.name) (call_once-HasResponse ps)
      _ 0 none cb _ (inl refl)
