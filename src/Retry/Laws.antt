-- ===== src/Retry/Laws.antt =====
-- internal/gateway/retry: how the loop ends, how often it calls, and the cap on the delay.
use llm_router.Common.{
  subst, ℕ, zero, suc, ◌+◌, ◌≤◌, ◌<◌, ◌≡◌, refl, ap, ◌∙◌, ◌⊎◌, inl, inr, true, false, Option, none,
  some, arith, ltb, if◌then◌else◌, Bool-cases, Option-cases,
}
use llm_router.Common.Int.{ℤ, pos, negsuc, pos_part}
use llm_router.Provider.Errors.{Error}
use llm_router.Retry.{
  at_least_zero, Host, RetryPolicy, should_retry, hint, delay, calc_backoff, pause, attempts,
  execute,
}

module _ {W : Type 0} (host : Host W) (p : RetryPolicy host.F) (fn : W → Option Error × W) where
  -- The four ways in which the loop can end: the last call succeeded; the context ended during a
  -- wait; the last call failed with an error that is not retried; or all attempts were made.
  -- `calls` counts the calls of `fn` that the world has seen.
  pub data Ends (calls : W → ℕ) (w : W) : Option Error → W → Type 0 where
    succeeded : (v u : W) → fn v ≡ (none, u) → Ends calls w none u
    interrupted :
        (v u : W) (d : ℕ) (e : Error) → host.wait d v ≡ (some e, u) → Ends calls w (some e) u
    refused :
        (v u : W) (e : Error)
        → fn v ≡ (some e, u)
        → should_retry (some e) ≡ false
        → Ends calls w (some e) u
    exhausted :
        (v u : W) (e : Error)
        → fn v ≡ (some e, u)
        → should_retry (some e) ≡ true
        → calls u ≡ calls w + p.max_attempts
        → Ends calls w (some e) u

  -- The last error came from a call that ended in this world, and is retried.
  abbrev Came : Option Error → W → Type 0
  Came last w =
      (v : W) × (e : Error) × (last ≡ some e)
      × (fn v ≡ (some e, w))
      × (should_retry (some e) ≡ true)

  pause_interrupted :
      (made : ℕ) (last : Option Error) (w : W) (e : Error)
      → (pause host p made last w).0 ≡ some e
      → (d : ℕ) × (v : W) × (host.wait d v ≡ pause host p made last w)
  unfolding pause
  pause_interrupted zero last w e h = cc
  pause_interrupted (suc k) last w e h = let (d, w') = delay host p k last w in (d, w', refl)

  module _ (calls : W → ℕ) (calls-random : (w : W) → calls (host.random w).1 ≡ calls w)
      (calls-wait : (d : ℕ) (w : W) → calls (host.wait d w).1 ≡ calls w)
      (calls-fn : (w : W) → calls (fn w).1 ≡ calls w + 1) where
    calls-delay : (k : ℕ) (last : Option Error) (w : W) → calls (delay host p k last w).1 ≡ calls w
    unfolding delay
    calls-delay k last w = elim (Bool-cases (ltb 0 (hint host last))) [
      | inl e ↦ rw e
      | inr e ↦ rw e (calls-random w)
    ]

    calls-pause : (k : ℕ) (last : Option Error) (w : W) → calls (pause host p k last w).1 ≡ calls w
    unfolding pause
    calls-pause zero last w = refl
    calls-pause (suc k) last w = calls-wait _ _ ∙ calls-delay k last w

    attempts-Ends :
        (left made : ℕ) (last : Option Error) (w₀ w : W)
        → calls w ≡ calls w₀ + made
        → made + left ≡ p.max_attempts
        → (0 < left) ⊎ Came last w
        → Ends calls w₀
            (attempts host p fn left made last w).0
            (attempts host p fn left made last w).1
    unfolding attempts
    attempts-Ends zero made last w₀ w hc hm (inl h) = absurd (omega arith)
    attempts-Ends zero made last w₀ w hc hm (inr (v, e, hl, hf, hr)) =
        rw hl (exhausted v w e hf hr (omega arith))
    attempts-Ends (suc left) made last w₀ w hc hm _ =
        let w₁ = (pause host p made last w).1 in
        let w₂ = (fn w₁).1 in
        let paused : calls w₁ ≡ calls w = calls-pause made last w in
        let called : calls w₂ ≡ calls w₁ + 1 = calls-fn w₁ in
        elim (Option-cases (pause host p made last w).0) [
          | inr (e, stop) ↦
              let (d, v, hw) = pause_interrupted made last w e stop in
              rw (stop, attempts) (interrupted v w₁ d e (hw ∙ ap (λ x. (x, w₁)) stop))
          | inl go ↦
              rw (go, attempts)
                (elim (Option-cases (fn w₁).0) [
                  | inl good ↦ rw (good, attempts) (succeeded w₁ w₂ (ap (λ x. (x, w₂)) good))
                  | inr (e, bad) ↦
                      rw (bad, attempts)
                        (elim (Bool-cases (should_retry (some e))) [
                          | inr n ↦ rw (n, attempts) (refused w₁ w₂ e (ap (λ x. (x, w₂)) bad) n)
                          | inl y ↦ rw y (
                              attempts-Ends left (made + 1) (some e) w₀ w₂ (omega arith)
                                (omega arith) (inr (w₁, e, refl, ap (λ x. (x, w₂)) bad, y)))
                        ])
                ])
        ]

    attempts_calls :
        (left made : ℕ) (last : Option Error) (w : W)
        → calls (attempts host p fn left made last w).1 ≤ calls w + left
    unfolding attempts
    attempts_calls zero made last w = omega arith
    attempts_calls (suc left) made last w =
        let w₁ = (pause host p made last w).1 in
        let w₂ = (fn w₁).1 in
        let paused : calls w₁ ≡ calls w = calls-pause made last w in
        let called : calls w₂ ≡ calls w₁ + 1 = calls-fn w₁ in
        elim (Option-cases (pause host p made last w).0) [
          | inr (e, stop) ↦ rw (stop, attempts) (omega arith)
          | inl go ↦
              rw (go, attempts)
                (elim (Option-cases (fn w₁).0) [
                  | inl good ↦ rw (good, attempts) (omega arith)
                  | inr (e, bad) ↦
                      rw (bad, attempts)
                        (elim (Bool-cases (should_retry (some e))) [
                          | inr n ↦ rw (n, attempts) (omega arith)
                          | inl y ↦
                              rw (y, attempts)
                                (omega (arith, attempts_calls left (made + 1) (some e) w₂))
                        ])
                ])
        ]

    -- With at least one attempt allowed, where each call of `fn` is counted once and the timer and
    -- the random source are not counted, `Execute` ends in one of the four ways, with at most
    -- `MaxAttempts` calls; it reports success only after a call that succeeded.
    pub execute-Ends :
        (w : W)
        → 0 < p.max_attempts
        → Ends calls w (execute host p fn w).0 (execute host p fn w).1
          × (calls (execute host p fn w).1 ≤ calls w + p.max_attempts)
    unfolding execute
    execute-Ends w h = (
      attempts-Ends p.max_attempts 0 none w w (omega arith) (omega arith) (inl h),
      attempts_calls p.max_attempts 0 none w,
    )

-- What each call and each wait keeps, the whole loop keeps.
module _ {κ} {W : Type 0} (host : Host W) (p : RetryPolicy host.F) (fn : W → Option Error × W)
    (P : W → Type κ) (random_keeps : (w : W) → P w → P (host.random w).1)
    (wait_keeps : (d : ℕ) (w : W) → P w → P (host.wait d w).1)
    (fn_keeps : (w : W) → P w → P (fn w).1) where
  delay_keeps : (k : ℕ) (last : Option Error) (w : W) → P w → P (delay host p k last w).1
  unfolding delay
  delay_keeps k last w h = elim (Bool-cases (ltb 0 (hint host last))) [
    | inl e ↦ rw e h
    | inr e ↦ rw e (random_keeps w h)
  ]

  pause_keeps : (k : ℕ) (last : Option Error) (w : W) → P w → P (pause host p k last w).1
  unfolding pause
  pause_keeps zero last w h = h
  pause_keeps (suc k) last w h = wait_keeps _ _ (delay_keeps k last w h)

  attempts_keeps :
      (left made : ℕ) (last : Option Error) (w : W)
      → P w
      → P (attempts host p fn left made last w).1
  unfolding attempts
  attempts_keeps zero made last w h = h
  attempts_keeps (suc left) made last w h =
      let w₁ = (pause host p made last w).1 in
      let h₁ : P w₁ = pause_keeps made last w h in
      let h₂ : P (fn w₁).1 = fn_keeps w₁ h₁ in
      elim (Option-cases (pause host p made last w).0) [
        | inr (e, stop) ↦ rw (stop, attempts) h₁
        | inl go ↦
            rw (go, attempts)
              (elim (Option-cases (fn w₁).0) [
                | inl good ↦ rw (good, attempts) h₂
                | inr (e, bad) ↦
                    rw (bad, attempts)
                      (elim (Bool-cases (should_retry (some e))) [
                        | inr n ↦ rw (n, attempts) h₂
                        | inl y ↦
                            rw (y, attempts) (attempts_keeps left (made + 1) (some e) (fn w₁).1 h₂)
                      ])
              ])
      ]

  pub execute_keeps : (w : W) → P w → P (execute host p fn w).1
  unfolding execute
  execute_keeps w h = attempts_keeps p.max_attempts 0 none w h

-- What holds of the result of each call, and of each wait that is interrupted, holds of the result
-- of the loop.
module _ {κ} {W : Type 0} (host : Host W) (p : RetryPolicy host.F) (fn : W → Option Error × W)
    (P : Option Error → W → Type κ)
    (wait_gives : (d : ℕ) (w : W) (e : Error)
      → (host.wait d w).0 ≡ some e
      → P (some e) (host.wait d w).1)
    (fn_gives : (w : W) → P (fn w).0 (fn w).1) where
  attempts_gives :
      (left made : ℕ) (last : Option Error) (w : W)
      → (0 < left) ⊎ P last w
      → P (attempts host p fn left made last w).0 (attempts host p fn left made last w).1
  unfolding attempts
  attempts_gives zero made last w (inl h) = absurd (omega arith)
  attempts_gives zero made last w (inr h) = h
  attempts_gives (suc left) made last w _ =
      let w₁ = (pause host p made last w).1 in
      let given : P (fn w₁).0 (fn w₁).1 = fn_gives w₁ in
      elim (Option-cases (pause host p made last w).0) [
        | inr (e, stop) ↦
            let (d, v, hw) = pause_interrupted host p fn made last w e stop in
            rw (stop, attempts)
              (subst (λ u. P (some e) u) (ap (λ x. x.1) hw)
                (wait_gives d v e (ap (λ x. x.0) hw ∙ stop)))
        | inl go ↦
            rw (go, attempts)
              (elim (Option-cases (fn w₁).0) [
                | inl good ↦ rw (good, attempts) (rw good at given)
                | inr (e, bad) ↦
                    let given' : P (some e) (fn w₁).1 = rw bad at given in
                    rw (bad, attempts)
                      (elim (Bool-cases (should_retry (some e))) [
                        | inr n ↦ rw (n, attempts) given'
                        | inl y ↦
                            rw (y, attempts)
                              (attempts_gives left (made + 1) (some e) (fn w₁).1 (inr given'))
                      ])
              ])
      ]

  pub execute_gives :
      (w : W) → 0 < p.max_attempts → P (execute host p fn w).0 (execute host p fn w).1
  unfolding execute
  execute_gives w h = attempts_gives p.max_attempts 0 none w (inl h)

-- The laws of floating point that the cap on the delay rests on: a product with 0 adds nothing to a
-- duration, and a float that is not above the float of a duration converts to at most it.
pub record FloatLaws {W : Type 0} (host : Host W) : Type 0 where
  pub zero_jitter :
      (x y : host.F)
      → host.to_duration (host.add x (host.mul (host.mul x (host.literal 0 1)) y))
        ≡ host.to_duration x
  pub below :
      (n : ℕ) (x : host.F)
      → host.less (host.literal n 1) x ≡ false
      → pos_part (host.to_duration x) ≤ n
  pub irrefl : (x : host.F) → host.less x x ≡ false

at_least_zero-eq-pos_part : (z : ℤ) → at_least_zero z ≡ pos_part z
at_least_zero-eq-pos_part (pos n) = refl
at_least_zero-eq-pos_part (negsuc n) = refl

module _ {W : Type 0} (host : Host W) (laws : FloatLaws host) (p : RetryPolicy host.F) where
  capped_below :
      (x : host.F)
      → pos_part (
          host.to_duration
            (if host.less (host.literal p.max_delay 1) x then host.literal p.max_delay 1 else x))
        ≤ p.max_delay
  capped_below x = elim (Bool-cases (host.less (host.literal p.max_delay 1) x)) [
    | inl y ↦ rw y (laws.below p.max_delay _ (laws.irrefl _))
    | inr n ↦ rw n (laws.below p.max_delay x n)
  ]

  calc_backoff_cap :
      (attempt : ℕ) (x : host.F)
      → p.jitter_factor ≡ host.literal 0 1
      → calc_backoff host p attempt x ≤ p.max_delay
  unfolding calc_backoff
  calc_backoff_cap attempt x h =
      rw (h, laws.zero_jitter, at_least_zero-eq-pos_part) (capped_below _)

  -- Without jitter the wait before a retry never exceeds `MaxDelay`, be it a Retry-After hint or the
  -- computed backoff; a hint up to the cap is itself the wait, and uses no randomness.
  pub delay_cap :
      (attempt : ℕ) (err : Option Error) (w : W)
      → p.jitter_factor ≡ host.literal 0 1
      → ((delay host p attempt err w).0 ≤ p.max_delay)
        × (0 < hint host err
            → hint host err ≤ p.max_delay
            → delay host p attempt err w ≡ (hint host err, w))
  unfolding delay
  delay_cap attempt err w h = elim (Bool-cases (ltb 0 (hint host err))) [
    | inl y ↦ rw y (ground arith, λ a b. ground arith)
    | inr n ↦ rw n (calc_backoff_cap attempt _ h, λ a b. ground arith)
  ]
