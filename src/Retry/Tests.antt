-- ===== src/Retry/Tests.antt =====
-- Retries on a host whose floats are whole numbers; the world counts the calls.
use llm_router.Common.{
  ℕ, ◌+◌, ◌-◌, ◌*◌, ◌/◌, ◌≤◌, ◌≡◌, refl, ap, Option, none, some, arith, ltb, if◌then◌else◌,
}
use llm_router.Common.Int.{pos}
use llm_router.Provider.Errors.{rate_limited, Error, gateway, is_retryable, as_gateway}
use llm_router.Retry.{Host, RetryPolicy, delay, execute}
use llm_router.Retry.Laws.{Ends, execute-Ends, FloatLaws}

abbrev quiet : Host ℕ
quiet = record {
  F = ℕ;
  literal = λ a b. a / b;
  add = ◌+◌;
  sub = ◌-◌;
  mul = ◌*◌;
  less = ltb;
  to_duration = pos;
  random = λ w. (0, w);
  wait = λ d w. (none, w);
}

abbrev policy : ℕ → RetryPolicy ℕ
policy n = record {
  max_attempts = n;
  initial_delay = 100;
  max_delay = 5000;
  multiplier = 2;
  jitter_factor = 0;
}

abbrev limited : Error
limited =
    gateway
      (record { code = rate_limited; message = "slow down"; http_status = 429; retry_after = 7000 })

-- Fails with a rate limit until the third call.
third_time : ℕ → Option Error × ℕ
third_time w = (if ltb w 2 then some limited else none, w + 1)

third_time_calls : (w : ℕ) → (third_time w).1 ≡ w + 1
unfolding third_time
third_time_calls w = refl

retry_tests :
    (execute quiet (policy 3) third_time 0 ≡ (none, 3))
    × (execute quiet (policy 2) third_time 0 ≡ (some limited, 2))
    × ((delay quiet (policy 3) 0 (some limited) 0).0 ≡ 5000)
    × ((delay quiet (policy 3) 3 none 0).0 ≡ 800)
unfolding execute third_time delay is_retryable as_gateway
retry_tests = (refl, refl, refl, refl)

execute-Ends_example :
    Ends quiet
      (policy 3)
      third_time
      (λ w. w)
      0
      (execute quiet (policy 3) third_time 0).0
      (execute quiet (policy 3) third_time 0).1
    × ((execute quiet (policy 3) third_time 0).1 ≤ 0 + 3)
execute-Ends_example =
    execute-Ends quiet (policy 3) third_time (λ w. w) (λ w. refl) (λ d w. refl) third_time_calls 0
      (omega arith)

zero_jitter_ℕ : (x y : ℕ) → pos (x + x * (0 / 1) * y) ≡ pos x
zero_jitter_ℕ x y = ap pos (omega arith)

quiet-FloatLaws : FloatLaws quiet
quiet-FloatLaws = record {
  zero_jitter = zero_jitter_ℕ;
  below = λ n x h. ground arith;
  irrefl = λ x. ground arith;
}
