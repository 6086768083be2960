-- ===== src/RateLimit/Tokens.antt =====
-- internal/gateway/middleware/rate_limit.go: what the limit of tokens per minute counts.
use llm_router.Common.{
  ℕ, suc, ◌+◌, ◌≤◌, String, ◌≡◌, refl, ◌∙◌, ◌↔◌, inl, inr, true, false, none, some, List, [], ◌∷◌,
  ◌++◌, arith, ltb, leb, ◌==◌, le→leb, Bool-cases, str_eq_refl, length, lookup, lookup-insert,
}
use llm_router.Common.Int.{ℤ, pos, ◌+ℤ◌}
use llm_router.RateLimit.{
  trim, script, Redis, scores_of, allow, key_for_key_tpm, LimitedKey, minute_ms, check_tpm,
  record_tpm,
}
use llm_router.RateLimit.Window.{script_admits, script_refuses, script_peeks}

allow_store :
    (k : String) (limit : ℤ) (cost window : ℕ) (r : Redis)
    → r.up ≡ true
    → scores_of (lookup k (allow k limit cost window r).1.store)
      ≡ (script limit window cost r.now (scores_of (lookup k r.store))).1
unfolding allow
allow_store k limit cost window r up =
    rw (up, allow) (rw (lookup-insert k k _ r.store, str_eq_refl k) refl)

allow_answer :
    (k : String) (limit : ℤ) (cost window : ℕ) (r : Redis)
    → r.up ≡ true
    → (allow k limit cost window r).0
      ≡ some (script limit window cost r.now (scores_of (lookup k r.store))).0
unfolding allow
allow_answer k limit cost window r up = rw (up, allow) refl

pos_sum : (a b : ℕ) → pos a +ℤ pos b ≡ pos (a + b)
unfolding ◌+ℤ◌
pos_sum a b = ground arith

module _ (minute : ℕ → String) (key : LimitedKey) (limit : ℕ) (r : Redis) (up : r.up ≡ true)
    (set : key.tpm_limit ≡ some (pos (suc limit))) where
  abbrev window_scores : List ℕ
  window_scores =
      trim minute_ms r.now (scores_of (lookup (key_for_key_tpm key.id (minute r.now)) r.store))

  -- The scores of the key after a number of tokens is recorded.
  abbrev scores_after : ℕ → List ℕ
  scores_after tokens =
      scores_of
        (lookup (key_for_key_tpm key.id (minute r.now)) (record_tpm minute key tokens r).store)

  record_tpm-one :
      (tokens : ℕ)
      → length window_scores ≤ suc limit
      → scores_after (suc tokens) ≡ window_scores ++ (r.now ∷ [])
  unfolding record_tpm
  record_tpm-one tokens le =
      let k = key_for_key_tpm key.id (minute r.now) in
      let old = scores_of (lookup k r.store) in
      let (_, stored) =
        script_admits (suc limit + suc tokens) minute_ms tokens r.now old
          (le→leb _ _ (omega arith)) in
      let counted : (suc tokens == 0) ≡ false = ground arith in
      rw (set, record_tpm)
        (rw (counted, pos_sum (suc limit) (suc tokens))
          (allow_store k (pos (suc limit + suc tokens)) (suc tokens) minute_ms r up ∙ stored))

  check_tpm_iff : ((check_tpm minute key r).0 ≡ none) ↔ (length window_scores ≤ suc limit)
  unfolding check_tpm
  check_tpm_iff =
      let k = key_for_key_tpm key.id (minute r.now) in
      let old = scores_of (lookup k r.store) in
      let limited : ltb 0 (suc limit + 0) ≡ true = ground arith in
      rw (set, check_tpm)
        (rw (limited, allow_answer k (pos (suc limit)) 0 minute_ms r up)
          (elim (Bool-cases (leb (length window_scores + 0) (suc limit))) [
            | inl y ↦
                rw (script_peeks (suc limit) minute_ms r.now old y)
                  ((λ h. ground arith), (λ h. refl))
            | inr n ↦
                rw ((script_refuses (suc limit) minute_ms 0 r.now old n).0)
                  ((λ h. cc h), (λ h. absurd (ground arith)))
          ]))

  -- While Redis answers, the check of a key's limit of tokens per minute passes exactly when the
  -- number of requests that were recorded in the last minute is at most the limit, and recording
  -- a request's tokens then adds 1 to that number, however many tokens they are.
  pub tpm_counts_requests :
      ((check_tpm minute key r).0 ≡ none ↔ length window_scores ≤ suc limit)
      × ((tokens : ℕ)
          → length window_scores ≤ suc limit
          → scores_after (suc tokens) ≡ window_scores ++ (r.now ∷ []))
  tpm_counts_requests = (check_tpm_iff, record_tpm-one)
