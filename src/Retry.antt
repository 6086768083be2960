-- ===== src/Retry.antt =====
-- internal/gateway/retry/policy.go and executor.go: retries with exponential backoff and jitter.
pub mod Laws
mod Tests
use llm_router.Common.{ℕ, zero, suc, ◌+◌, Bool, true, false, Option, none, some, ltb, if◌then◌else◌}
use llm_router.Common.Int.{ℤ, pos, negsuc}
use llm_router.Provider.Errors.{GatewayError, is_retryable, Error, as_gateway}

-- What the code takes from outside the repository: `float64` arithmetic, `rand.Float64`, and the
-- `select` on `ctx.Done()` and `time.After(delay)`, which answers the context's error if that comes
-- first. `W` is the state of the world that these read and change.
pub record Host (W : Type 0) : Type 1 where
  pub F : Type 0
  -- The constant num / den.
  pub literal : ℕ → ℕ → F
  pub add : F → F → F
  pub sub : F → F → F
  pub mul : F → F → F
  pub less : F → F → Bool
  -- `time.Duration(x)`.
  pub to_duration : F → ℤ
  pub random : W → F × W
  pub wait : ℕ → W → Option Error × W

-- Durations are in nanoseconds. A negative `MaxAttempts` acts as 0.
pub record RetryPolicy (F : Type 0) : Type 0 where
  pub max_attempts : ℕ
  pub initial_delay : ℕ
  pub max_delay : ℕ
  pub multiplier : F
  pub jitter_factor : F

unfoldable pub should_retry : Option Error → Bool
should_retry none = false
should_retry (some e) = elim (as_gateway e) [ none ↦ false | some g ↦ is_retryable g ]

-- `if result < 0 { result = 0 }`.
abbrev pub at_least_zero : ℤ → ℕ
at_least_zero (pos n) = n
at_least_zero (negsuc n) = 0

module _ {W : Type 0} (host : Host W) where
  open host use {F, literal, add, sub, mul, less, to_duration, random, wait}

  unfoldable pub default : RetryPolicy F
  default = record {
    max_attempts = 3;
    initial_delay = 500_000_000;
    max_delay = 30_000_000_000;
    multiplier = literal 2 1;
    jitter_factor = literal 1 4;
  }

  -- `for i := 0; i < attempt; i++ { delay *= p.Multiplier }`.
  unfoldable pub scale : ℕ → F → F → F
  scale zero m delay = delay
  scale (suc n) m delay = scale n m (mul delay m)

  -- `x` is the random number.
  unfoldable pub calc_backoff : RetryPolicy F → ℕ → F → ℕ
  unfolding scale
  calc_backoff p attempt x =
      let delay = scale attempt p.multiplier (literal p.initial_delay 1) in
      let capped = if less (literal p.max_delay 1) delay then literal p.max_delay 1 else delay in
      let jitter = mul (mul capped p.jitter_factor) (sub (mul (literal 2 1) x) (literal 1 1)) in
      at_least_zero (to_duration (add capped jitter))

  -- The Retry-After hint that an error carries, 0 if none.
  unfoldable pub hint : Option Error → ℕ
  hint none = 0
  hint (some e) = elim (as_gateway e) [ none ↦ 0 | some g ↦ g.retry_after ]

  unfoldable pub delay : RetryPolicy F → ℕ → Option Error → W → ℕ × W
  unfolding hint calc_backoff
  delay p attempt err w =
      let h = hint err in
      if ltb 0 h
      then (if ltb p.max_delay h then p.max_delay else h, w)
      else let (x, w') = random w in (calc_backoff p attempt x, w')

  -- The wait before an attempt; the context's error ends the loop.
  unfoldable pub pause : RetryPolicy F → ℕ → Option Error → W → Option Error × W
  unfolding delay
  pause p zero last w = (none, w)
  pause p (suc k) last w = let (d, w') = delay p k last w in wait d w'

  module _ (p : RetryPolicy F) (fn : W → Option Error × W) where
    -- The loop, with the attempts that are left and the number of those made.
    unfoldable pub attempts : ℕ → ℕ → Option Error → W → Option Error × W
    unfolding pause should_retry
    attempts zero made last w = (last, w)
    attempts (suc left) made last w =
        let (stopped, w₁) = pause p made last w in
        elim stopped [
          | some e ↦ (some e, w₁)
          | none ↦
              let (failed, w₂) = fn w₁ in
              elim failed [
                | none ↦ (none, w₂)
                | some e ↦ elim (should_retry (some e)) [
                  | true ↦ attempts left (made + 1) (some e) w₂
                  | false ↦ (some e, w₂)
                ]
              ]
        ]

    unfoldable pub execute : W → Option Error × W
    unfolding attempts
    execute w = attempts p.max_attempts 0 none w
