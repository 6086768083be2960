-- ===== src/CircuitBreaker.antt =====
-- internal/gateway/circuitbreaker/circuit_breaker.go: the state that is kept for each provider.
-- A method takes the breaker and returns the new one; `time.Now()` is the argument `now`, in
-- nanoseconds, and 0 is Go's zero time. The counters are not bounded (2 ^ 63 events do not occur).
pub mod View
pub mod Machine
mod Tests
use llm_router.Common.{
  ℕ, ◌+◌, Bool, true, false, Option, none, some, List, [], String, leb, ◌==◌, if◌then◌else◌, lookup,
  insert, map, not,
}

pub data State : Type 0 where
  state_closed state_open state_half_open : State

unfoldable pub state_string : State → String
state_string state_closed = "closed"
state_string state_open = "open"
state_string state_half_open = "half_open"

pub record Config : Type 0 where
  pub failure_threshold : ℕ
  pub success_threshold : ℕ
  pub open_timeout : ℕ

abbrev pub default_config : Config
default_config = record {
  failure_threshold = 5;
  success_threshold = 2;
  open_timeout = 60_000_000_000;
}

pub record Entry : Type 0 where
  pub state : State
  pub failures : ℕ
  pub successes : ℕ
  pub last_failure_at : ℕ

abbrev pub fresh : Entry
fresh = record { state = state_closed; failures = 0; successes = 0; last_failure_at = 0 }

pub record Breaker : Type 0 where
  pub entries : List (String × Entry)
  pub cfg : Config

unfoldable pub new : Config → Breaker
new cfg = record { entries = []; cfg = cfg }

-- `get` inserts a closed entry for a provider that is not known yet.
unfoldable pub get : String → Breaker → Entry × Breaker
get p cb = elim (lookup p cb.entries) [
  | some e ↦ (e, cb)
  | none ↦ (fresh, record cb { entries = insert p fresh cb.entries })
]

-- The code writes through the pointer that `get` returns.
unfoldable pub put : String → Entry → Breaker → Breaker
put p e cb = record cb { entries = insert p e cb.entries }

-- What `IsOpen` does to the entry, and whether the request is blocked.
unfoldable pub probe : Config → ℕ → State → Entry → Bool × Entry
probe cfg now state_open e =
    if leb (e.last_failure_at + cfg.open_timeout) now
    then (false, record e { state = state_half_open; successes = 0 })
    else (true, e)
probe cfg now _ e = (false, e)

unfoldable pub is_open : ℕ → String → Breaker → Bool × Breaker
unfolding get put probe
is_open now p cb =
    let (e, cb') = get p cb in
    let (blocked, e') = probe cb.cfg now e.state e in (blocked, put p e' cb')

unfoldable pub success : Config → State → Entry → Entry
success cfg state_half_open e =
    if leb cfg.success_threshold (e.successes + 1)
    then record e { state = state_closed; failures = 0; successes = 0 }
    else record e { successes = e.successes + 1 }
success cfg state_closed e = record e { failures = 0 }
success cfg state_open e = e

unfoldable pub record_success : String → Breaker → Breaker
unfolding get put success
record_success p cb = let (e, cb') = get p cb in put p (success cb.cfg e.state e) cb'

unfoldable pub failure : Config → State → Entry → Entry
failure cfg state_closed e =
    if leb cfg.failure_threshold e.failures then record e { state = state_open } else e
failure cfg state_half_open e = record e { state = state_open; failures = 0 }
failure cfg state_open e = e

unfoldable pub record_failure : ℕ → String → Breaker → Breaker
unfolding get put failure
record_failure now p cb =
    let (e, cb') = get p cb in
    put p (failure cb.cfg e.state (record e { failures = e.failures + 1; last_failure_at = now }))
      cb'

unfoldable pub reset : String → Breaker → Breaker
unfolding put
reset p cb = put p fresh cb

unfoldable pub all_status : Breaker → List (String × String)
unfolding state_string
all_status cb = map (λ b. (b.0, state_string b.1.state)) cb.entries

pub record ProviderStatusDetail : Type 0 where
  pub provider : String
  pub state : String
  pub failure_count : ℕ
  pub last_failure : Option ℕ
  pub reset_time : Option ℕ

abbrev is_state_open : State → Bool
is_state_open state_open = true
is_state_open _ = false

unfoldable pub detail : Config → String → Entry → ProviderStatusDetail
unfolding state_string
detail cfg p e =
    let failed = not (e.last_failure_at == 0) in
    record {
      provider = p;
      state = state_string e.state;
      failure_count = e.failures;
      last_failure = if failed then some e.last_failure_at else none;
      reset_time =
          if failed
          then if is_state_open e.state then some (e.last_failure_at + cfg.open_timeout) else none
          else none;
    }

unfoldable pub all_status_detailed : Breaker → List ProviderStatusDetail
unfolding detail
all_status_detailed cb = map (λ b. detail cb.cfg b.0 b.1) cb.entries

unfoldable pub provider_status : String → Breaker → String × Breaker
unfolding get state_string
provider_status p cb = let (e, cb') = get p cb in (state_string e.state, cb')
