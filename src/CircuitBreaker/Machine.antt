-- ===== src/CircuitBreaker/Machine.antt =====
-- internal/gateway/circuitbreaker/circuit_breaker.go: the state machine of one provider.
use llm_router.Common.{
  ℕ, zero, suc, ◌+◌, ◌≤◌, ◌<◌, ◌≡◌, refl, sym, subst, ◌∙◌, ap, inl, inr, ◌↔◌, true, false, List, [],
  ◌∷◌, String, arith, select, str_eq, map, length, All, leb, ltb, Bool-cases, str_eq_refl,
}
use llm_router.CircuitBreaker.{
  State, state_closed, state_open, state_half_open, Config, Entry, fresh, Breaker, new, probe,
  is_open,
}
use llm_router.CircuitBreaker.View.{
  Op, ask, succeed, fail, clear, provider, entry_of, run, entry_step, entry_run, entry_of-run,
  is_open_answer, run_cfg,
}

-- What holds of an entry between two calls.
pub record IsValid (cfg : Config) (e : Entry) : Type 0 where
  pub closed_below : e.state ≡ state_closed → e.failures < cfg.failure_threshold
  pub closed_clean : e.state ≡ state_closed → e.successes ≡ 0
  pub half_open_below : e.state ≡ state_half_open → e.successes < cfg.success_threshold

pub entry_step-IsValid :
    (cfg : Config) (op : Op) (e : Entry)
    → 0 < cfg.failure_threshold
    → 0 < cfg.success_threshold
    → IsValid cfg e
    → IsValid cfg (entry_step cfg op e)
unfolding entry_step
entry_step-IsValid cfg (ask now p) e hf hs v = ground arith
entry_step-IsValid cfg (succeed p) e hf hs v = ground arith
entry_step-IsValid cfg (fail now p) e hf hs v = ground arith
entry_step-IsValid cfg (clear p) e hf hs v = ground arith

entry_run-IsValid :
    (cfg : Config) (ops : List Op) (e : Entry)
    → 0 < cfg.failure_threshold
    → 0 < cfg.success_threshold
    → IsValid cfg e
    → IsValid cfg (entry_run cfg ops e)
unfolding entry_run
entry_run-IsValid cfg [] e hf hs v = v
entry_run-IsValid cfg (op ∷ ops) e hf hs v =
    entry_run-IsValid cfg ops (entry_step cfg op e) hf hs (entry_step-IsValid cfg op e hf hs v)

-- From a new breaker with positive thresholds, after any sequence of calls, every provider's entry
-- has fewer failures than the failure threshold and no successes while it is closed, and fewer
-- successes than the success threshold while it is half open.
pub run-IsValid :
    (cfg : Config) (ops : List Op) (q : String)
    → 0 < cfg.failure_threshold
    → 0 < cfg.success_threshold
    → IsValid cfg (entry_of q (run ops (new cfg)))
unfolding new
run-IsValid cfg ops q hf hs =
    subst (IsValid cfg) (sym (entry_of-run ops q (new cfg)))
      (entry_run-IsValid cfg _ fresh hf hs (omega arith))

-- The diagram in the package comment, with the condition of each edge.
pub data Edge (cfg : Config) (e : Entry) : Op → State → State → Type 0 where
  stay : {op : Op} {s : State} → Edge cfg e op s s
  trip :
      {now : ℕ} {p : String}
      → cfg.failure_threshold ≤ e.failures + 1
      → Edge cfg e (fail now p) state_closed state_open
  expire :
      {now : ℕ} {p : String}
      → e.last_failure_at + cfg.open_timeout ≤ now
      → Edge cfg e (ask now p) state_open state_half_open
  recover :
      {p : String}
      → cfg.success_threshold ≤ e.successes + 1
      → Edge cfg e (succeed p) state_half_open state_closed
  reopen : {now : ℕ} {p : String} → Edge cfg e (fail now p) state_half_open state_open
  cleared : {p : String} {s : State} → Edge cfg e (clear p) s state_closed

-- Every call moves the state along an edge of the diagram, or leaves it; each edge is taken only
-- by its own method and under its condition.
pub entry_step-Edge :
    (cfg : Config) (op : Op) (e : Entry) → Edge cfg e op e.state (entry_step cfg op e).state
unfolding entry_step
entry_step-Edge cfg (ask now p) e = grind (arith, stay, expire)
entry_step-Edge cfg (succeed p) e = grind (arith, stay, recover)
entry_step-Edge cfg (fail now p) e = grind (arith, stay, trip, reopen)
entry_step-Edge cfg (clear p) e = cleared

-- The calls of one kind for one provider.
abbrev pub fails : String → List ℕ → List Op
fails p ts = map (λ t. fail t p) ts

abbrev pub asks : String → List ℕ → List Op
asks p ts = map (λ t. ask t p) ts

abbrev pub successes : String → ℕ → List Op
successes p zero = []
successes p (suc n) = succeed p ∷ successes p n

-- The calls for a provider, all of which are its own.
abbrev Owns : String → List Op → Type 0
Owns p ops = All (λ op. str_eq (provider op) p ≡ true) ops

select-Owns :
    (p : String) (ops : List Op) → Owns p ops → select (λ op. str_eq (provider op) p) ops ≡ ops
select-Owns p [] h = refl
select-Owns p (op ∷ ops) h = rw h.0 (ap (λ r. op ∷ r) (select-Owns p ops h.1))

entry_of-run_own :
    (p : String) (ops : List Op) (cb : Breaker)
    → Owns p ops
    → entry_of p (run ops cb) ≡ entry_run cb.cfg ops (entry_of p cb)
entry_of-run_own p ops cb h =
    entry_of-run ops p cb ∙ ap (λ os. entry_run cb.cfg os (entry_of p cb)) (select-Owns p ops h)

fails-Owns : (p : String) (ts : List ℕ) → Owns p (fails p ts)
fails-Owns p [] = tt
fails-Owns p (t ∷ ts) = (str_eq_refl p, fails-Owns p ts)

asks-Owns : (p : String) (ts : List ℕ) → Owns p (asks p ts)
asks-Owns p [] = tt
asks-Owns p (t ∷ ts) = (str_eq_refl p, asks-Owns p ts)

successes-Owns : (p : String) (n : ℕ) → Owns p (successes p n)
successes-Owns p zero = tt
successes-Owns p (suc n) = (str_eq_refl p, successes-Owns p n)

entry_fails_open :
    (cfg : Config) (p : String) (ts : List ℕ) (e : Entry)
    → e.state ≡ state_open
    → (entry_run cfg (fails p ts) e).state ≡ state_open
unfolding entry_run entry_step
entry_fails_open cfg p [] e h = h
entry_fails_open cfg p (t ∷ ts) e h =
    entry_fails_open cfg p ts (entry_step cfg (fail t p) e) (ground arith)

entry_fails_iff :
    (cfg : Config) (p : String) (ts : List ℕ) (e : Entry)
    → e.state ≡ state_closed
    → e.failures < cfg.failure_threshold
    → ((entry_run cfg (fails p ts) e).state ≡ state_open)
      ↔ (cfg.failure_threshold ≤ e.failures + length ts)
unfolding entry_run entry_step
entry_fails_iff cfg p [] e h k = ground arith
entry_fails_iff cfg p (t ∷ ts) e h k =
    elim (Bool-cases (leb cfg.failure_threshold (e.failures + 1))) [
      | inl y ↦ (
        (λ _. ground arith),
        (λ _. entry_fails_open cfg p ts (entry_step cfg (fail t p) e) (ground arith)),
      )
      | inr n ↦
          let (to, from) =
            entry_fails_iff cfg p ts (entry_step cfg (fail t p) e) (ground arith) (ground arith) in
          ((λ o. ground (arith, to o)), (λ l. from (ground arith)))
    ]

-- If a provider is closed, with fewer failures than the threshold, then after further failures with
-- no other call between them its circuit is open exactly when they make up the threshold.
pub trips_iff :
    (cb : Breaker) (p : String) (ts : List ℕ)
    → (entry_of p cb).state ≡ state_closed
    → (entry_of p cb).failures < cb.cfg.failure_threshold
    → ((entry_of p (run (fails p ts) cb)).state ≡ state_open)
      ↔ (cb.cfg.failure_threshold ≤ (entry_of p cb).failures + length ts)
trips_iff cb p ts h k =
    rw (entry_of-run_own p (fails p ts) cb (fails-Owns p ts))
      (entry_fails_iff cb.cfg p ts (entry_of p cb) h k)

entry_asks_early :
    (cfg : Config) (p : String) (ts : List ℕ) (e : Entry)
    → e.state ≡ state_open
    → All (λ t. t < e.last_failure_at + cfg.open_timeout) ts
    → entry_run cfg (asks p ts) e ≡ e
unfolding entry_run entry_step
entry_asks_early cfg p [] e h early = refl
entry_asks_early cfg p (t ∷ ts) e h early =
    let unchanged : entry_step cfg (ask t p) e ≡ e = ground arith in
    ap (entry_run cfg (asks p ts)) unchanged ∙ entry_asks_early cfg p ts e h early.1

-- While a circuit is open, requests before the timeout after its last failure do not change that:
-- the next request is blocked exactly when it comes before the timeout too.
pub open_blocks_until :
    (cb : Breaker) (p : String) (ts : List ℕ) (now : ℕ)
    → (entry_of p cb).state ≡ state_open
    → All (λ t. t < (entry_of p cb).last_failure_at + cb.cfg.open_timeout) ts
    → (is_open now p (run (asks p ts) cb)).0
      ≡ ltb now ((entry_of p cb).last_failure_at + cb.cfg.open_timeout)
unfolding probe
open_blocks_until cb p ts now h early =
    let same : entry_of p (run (asks p ts) cb) ≡ entry_of p cb =
      entry_of-run_own p (asks p ts) cb (asks-Owns p ts)
      ∙ entry_asks_early cb.cfg p ts (entry_of p cb) h early in
    is_open_answer now p (run (asks p ts) cb) ∙ rw (same, run_cfg (asks p ts) cb) (ground arith)

entry_asks_half :
    (cfg : Config) (p : String) (ts : List ℕ) (e : Entry)
    → e.state ≡ state_half_open
    → entry_run cfg (asks p ts) e ≡ e
unfolding entry_run entry_step
entry_asks_half cfg p [] e h = refl
entry_asks_half cfg p (t ∷ ts) e h =
    let unchanged : entry_step cfg (ask t p) e ≡ e = ground arith in
    ap (entry_run cfg (asks p ts)) unchanged ∙ entry_asks_half cfg p ts e h

-- While a circuit is half open, with no outcome recorded yet, every request passes, however many
-- have passed before it.
pub half_open_unlimited :
    (cb : Breaker) (p : String) (ts : List ℕ) (now : ℕ)
    → (entry_of p cb).state ≡ state_half_open
    → (is_open now p (run (asks p ts) cb)).0 ≡ false
unfolding probe
half_open_unlimited cb p ts now h =
    let same : entry_of p (run (asks p ts) cb) ≡ entry_of p cb =
      entry_of-run_own p (asks p ts) cb (asks-Owns p ts)
      ∙ entry_asks_half cb.cfg p ts (entry_of p cb) h in
    is_open_answer now p (run (asks p ts) cb) ∙ rw same (ground arith)

entry_successes_closed :
    (cfg : Config) (p : String) (n : ℕ) (e : Entry)
    → e.state ≡ state_closed
    → e.successes ≡ 0
    → ((entry_run cfg (successes p n) e).state ≡ state_closed)
unfolding entry_run entry_step
entry_successes_closed cfg p zero e h z = h
entry_successes_closed cfg p (suc n) e h z =
    entry_successes_closed cfg p n (entry_step cfg (succeed p) e) (ground arith) (ground arith)

entry_successes_iff :
    (cfg : Config) (p : String) (n : ℕ) (e : Entry)
    → e.state ≡ state_half_open
    → e.successes < cfg.success_threshold
    → ((entry_run cfg (successes p n) e).state ≡ state_closed)
      ↔ (cfg.success_threshold ≤ e.successes + n)
unfolding entry_run entry_step
entry_successes_iff cfg p zero e h k = ground arith
entry_successes_iff cfg p (suc n) e h k =
    elim (Bool-cases (leb cfg.success_threshold (e.successes + 1))) [
      | inl y ↦ (
        (λ _. ground arith),
        (λ _.
            entry_successes_closed cfg p n (entry_step cfg (succeed p) e) (ground arith)
              (ground arith)),
      )
      | inr m ↦
          let (to, from) =
            entry_successes_iff cfg p n (entry_step cfg (succeed p) e) (ground arith)
              (ground arith) in
          ((λ o. ground (arith, to o)), (λ l. from (ground arith)))
    ]

-- A half-open circuit closes after successes with no other call between them exactly when they
-- make up the success threshold.
pub recovers_iff :
    (cb : Breaker) (p : String) (n : ℕ)
    → (entry_of p cb).state ≡ state_half_open
    → (entry_of p cb).successes < cb.cfg.success_threshold
    → ((entry_of p (run (successes p n) cb)).state ≡ state_closed)
      ↔ (cb.cfg.success_threshold ≤ (entry_of p cb).successes + n)
recovers_iff cb p n h k =
    rw (entry_of-run_own p (successes p n) cb (successes-Owns p n))
      (entry_successes_iff cb.cfg p n (entry_of p cb) h k)
