-- ===== src/RateLimit/Open.antt =====
-- internal/gateway/middleware/rate_limit.go: requests while Redis does not answer.
use llm_router.Common.{
  ℕ, String, ◌≡◌, refl, ap, ◌∙◌, inl, inr, false, Option, none, some, Bool-cases,
}
use llm_router.Common.Int.{ℤ, pos, ltb_ℤ}
use llm_router.RateLimit.{
  Redis, LimitedKey, allow, key_for_key_rpm, check_limit, check_tpm, served, after_tpm, after_rpm,
  rate_limit,
}

check_limit-down :
    (minute : ℕ → String) (key : String) (limit : Option ℤ) (cost : ℕ) (r : Redis)
    → r.up ≡ false
    → check_limit minute key limit cost r ≡ (none, r)
unfolding check_limit allow
check_limit-down minute key none cost r down = refl
check_limit-down minute key (some l) cost r down = elim (Bool-cases (ltb_ℤ (pos 0) l)) [
  | inl t ↦ rw (t, check_limit) (rw (down, allow) refl)
  | inr t ↦ rw (t, check_limit) refl
]

check_tpm-down :
    (minute : ℕ → String) (key : LimitedKey) (r : Redis)
    → r.up ≡ false
    → check_tpm minute key r ≡ (none, r)
unfolding check_tpm
check_tpm-down minute key r down = check_limit-down minute _ key.tpm_limit 0 r down

-- While Redis does not answer, every request is served, whatever the limits of its key.
pub rate_limit_fails_open :
    {R : Type 0} (minute : ℕ → String) (next : Redis → (R × Option ℕ) × Redis)
    (key : Option LimitedKey) (r : Redis)
    → r.up ≡ false
    → (rate_limit minute next key r).0 ≡ served (next r).0.0
unfolding rate_limit after_rpm after_tpm
rate_limit_fails_open minute next none r down = refl
rate_limit_fails_open minute next (some key) r down =
    ap (λ s. (after_rpm minute next key s).0)
      (check_limit-down minute (key_for_key_rpm key.id (minute r.now)) key.rpm_limit 1 r down)
    ∙ ap (λ s. (after_tpm minute next key s).0) (check_tpm-down minute key r down)
