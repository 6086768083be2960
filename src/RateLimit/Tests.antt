-- ===== src/RateLimit/Tests.antt =====
-- A limit of two requests per 10 milliseconds, and one of three tokens per minute.
use llm_router.Common.{
  ℕ, ◌≤◌, String, ◌≡◌, refl, true, false, Option, none, some, [], ◌∷◌, arith, length, select,
  insert,
}
use llm_router.Common.Int.{pos, ◌-ℤ◌, ◌+ℤ◌}
use llm_router.RateLimit.{trim, script, Redis, LimitedKey, served, rate_limit, allow}
use llm_router.RateLimit.Window.{requests, inside, requests_bound}

requests_tests :
    ((requests 2 10 (1 ∷ 2 ∷ 3 ∷ 11 ∷ 12 ∷ []) ([], [])).1 ≡ 1 ∷ 2 ∷ 11 ∷ 12 ∷ [])
    × ((script (pos 2) 10 1 3 (1 ∷ 2 ∷ [])).0
        ≡ record { allowed = false; remaining = pos 0; reset_at = 11 })
unfolding requests script trim ◌-ℤ◌
requests_tests = (refl, refl)

requests_bound_example :
    length (select (inside 2 10 12) (requests 2 10 (1 ∷ 2 ∷ 3 ∷ 11 ∷ 12 ∷ []) ([], [])).1) ≤ 2
requests_bound_example =
    requests_bound 2 10 (1 ∷ 2 ∷ 3 ∷ 11 ∷ 12 ∷ [])
      (omega arith, (omega arith, (omega arith, (omega arith, (omega arith, tt)))))

abbrev key : LimitedKey
key = record { id = "k"; rpm_limit = none; tpm_limit = some (pos 3) }

abbrev minute : ℕ → String
minute t = "0000"

abbrev idle : Redis
idle = record { up = true; now = 100; store = [] }

abbrev hundred_tokens : Redis → (String × Option ℕ) × Redis
hundred_tokens r = (("done", some 100), r)

-- Three hundred tokens pass a limit of three.
rate_limit_test :
    (rate_limit minute hundred_tokens
      (some key)
      (rate_limit minute hundred_tokens
        (some key)
        (rate_limit minute hundred_tokens (some key) idle).1).1).0
    ≡ served "done"
unfolding rate_limit allow insert ◌+ℤ◌
rate_limit_test = refl

abbrev down : Redis
down = record { up = false; now = 100; store = [] }
