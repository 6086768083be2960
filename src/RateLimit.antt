-- ===== src/RateLimit.antt =====
-- internal/ratelimit/redis_limiter.go and internal/gateway/middleware/rate_limit.go: the sliding
-- window of requests that a Lua script keeps in Redis, and the middleware on it. Times are in
-- milliseconds. The members of a key's sorted set are its scores, as each gets a fresh member name;
-- the script's `EXPIRE` is left out, as a key only expires when all its scores have left the window.
pub mod Window
pub mod Tokens
pub mod Open
mod Tests
use Prim.Native.String.{◌++◌ as str_append}
use llm_router.Common.{
  ℕ, ◌+◌, String, Bool, true, false, Option, none, some, List, [], ◌∷◌, ◌++◌, ltb, ◌==◌,
  if◌then◌else◌, length, select, lookup, insert,
}
use llm_router.Common.Int.{ℤ, pos, ◌+ℤ◌, ◌-ℤ◌, ltb_ℤ, leb_ℤ}

pub record Result : Type 0 where
  pub allowed : Bool
  pub remaining : ℤ
  -- In milliseconds, 0 if it is not known.
  pub reset_at : ℕ

-- `ZREMRANGEBYSCORE key 0 (now - window)`.
unfoldable pub trim : ℕ → ℕ → List ℕ → List ℕ
trim window now scores = select (λ s. ltb now (s + window)) scores

-- The lowest score, which `ZRANGE key 0 0` finds, if there is one.
unfoldable pub oldest : List ℕ → Option ℕ
oldest [] = none
oldest (s ∷ ss) = elim (oldest ss) [ none ↦ some s | some t ↦ if ltb s t then some s else some t ]

unfoldable pub reset : ℕ → Option ℕ → ℕ
reset window none = 0
reset window (some s) = s + window

-- The script: its answer, and the key's scores after it.
unfoldable pub script : ℤ → ℕ → ℕ → ℕ → List ℕ → Result × List ℕ
unfolding trim oldest reset
script limit window cost now scores =
    let kept = trim window now scores in
    let current = length kept in
    if leb_ℤ (pos (current + cost)) limit
    then (
      record { allowed = true; remaining = limit -ℤ pos current -ℤ pos cost; reset_at = 0 },
      if ltb 0 cost then kept ++ (now ∷ []) else kept,
    )
    else (
      record { allowed = false; remaining = pos 0; reset_at = reset window (oldest kept) },
      kept,
    )

-- Redis, whether it answers, and the time.
pub record Redis : Type 0 where
  pub up : Bool
  pub now : ℕ
  pub store : List (String × List ℕ)

abbrev pub scores_of : Option (List ℕ) → List ℕ
scores_of none = []
scores_of (some s) = s

-- `Allow`: nothing on an error of Redis.
unfoldable pub allow : String → ℤ → ℕ → ℕ → Redis → Option Result × Redis
unfolding script
allow key limit cost window r =
    if r.up
    then (let (res, scores) = script limit window cost r.now (scores_of (lookup key r.store)) in
        (some res, record { up = r.up; now = r.now; store = insert key scores r.store }))
    else (none, r)

unfoldable pub key_for_key_rpm : String → String → String
key_for_key_rpm id minute = str_append "rl:key:" (str_append id (str_append ":rpm:" minute))

unfoldable pub key_for_key_tpm : String → String → String
key_for_key_tpm id minute = str_append "rl:key:" (str_append id (str_append ":tpm:" minute))

-- The fields of the authenticated key that the middleware reads.
pub record LimitedKey : Type 0 where
  pub id : String
  pub rpm_limit : Option ℤ
  pub tpm_limit : Option ℤ

abbrev pub minute_ms : ℕ
minute_ms = 60_000

-- `minute` is `WindowMinute` at a time.
module _ (minute : ℕ → String) where
  -- True if the limit is exceeded.
  unfoldable pub check_limit : String → Option ℤ → ℕ → Redis → Option Result × Redis
  unfolding allow
  check_limit key none cost r = (none, r)
  check_limit key (some limit) cost r =
      if ltb_ℤ (pos 0) limit
      then (let (res, r') = allow key limit cost minute_ms r in
          (elim res [ none ↦ none | some x ↦ if x.allowed then none else some x ], r'))
      else (none, r)

  -- `CheckTPM`: the result of a check that blocks.
  unfoldable pub check_tpm : LimitedKey → Redis → Option Result × Redis
  unfolding check_limit
  check_tpm key r = check_limit (key_for_key_tpm key.id (minute r.now)) key.tpm_limit 0 r

  unfoldable pub record_tpm : LimitedKey → ℕ → Redis → Redis
  unfolding allow
  record_tpm key tokens r = elim key.tpm_limit [
    | none ↦ r
    | some limit ↦
        if tokens == 0
        then r
        else (allow (key_for_key_tpm key.id (minute r.now)) (limit +ℤ pos tokens) tokens minute_ms
            r).1
  ]

  -- What the client gets: the handler's response or 429 with the metric and the limiter's result.
  pub data Reply (R : Type 0) : Type 0 where
    served : R → Reply R
    too_many : String → Result → Reply R

  module _ {R : Type 0} (next : Redis → (R × Option ℕ) × Redis) (key : LimitedKey) where
    -- What follows the check of the tokens: `next` is the handler, with the tokens of the request's
    -- log, if it has one.
    unfoldable pub after_tpm : Option Result × Redis → Reply R × Redis
    unfolding record_tpm
    after_tpm (some x, r) = (too_many "tpm" x, r)
    after_tpm (none, r) =
        let (done, r') = next r in
        (served done.0, elim done.1 [ none ↦ r' | some tokens ↦ record_tpm key tokens r' ])

    -- What follows the check of the requests.
    unfoldable pub after_rpm : Option Result × Redis → Reply R × Redis
    unfolding after_tpm check_tpm
    after_rpm (some x, r) = (too_many "rpm" x, r)
    after_rpm (none, r) = after_tpm (check_tpm key r)

  -- `RateLimit`.
  unfoldable pub rate_limit :
      {R : Type 0} → (Redis → (R × Option ℕ) × Redis) → Option LimitedKey → Redis → Reply R × Redis
  unfolding after_rpm key_for_key_rpm key_for_key_tpm
  rate_limit next none r = let (done, r') = next r in (served done.0, r')
  rate_limit next (some key) r =
      after_rpm next key (check_limit (key_for_key_rpm key.id (minute r.now)) key.rpm_limit 1 r)
