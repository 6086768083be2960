-- ===== src/Health.antt =====
-- internal/health/provider_health.go: the outcomes of the requests to each provider in the last
-- minute. Times are nanoseconds; float64 is `F`, with its operations in `Floats`. Each reading of the
-- clock is an argument.
pub mod Window
mod Tests
use llm_router.Common.{
  ℕ, ◌+◌, String, Bool, true, false, not, Option, none, some, List, [], ◌∷◌, ◌++◌, ltb, ◌==◌,
  if◌then◌else◌, length, select, lookup, insert,
}
use llm_router.MlRouter.Classifier.{Floats}

pub record ProviderEntry : Type 0 where
  pub ts : ℕ
  pub success : Bool

-- The field `entries` of `ProviderTracker`.
abbrev pub ProviderTracker : Type 0
ProviderTracker = List (String × List ProviderEntry)

pub data Health : Type 0 where
  healthy degraded unhealthy : Health

abbrev pub sliding_window : ℕ
sliding_window = 60_000_000_000

abbrev pub new_provider_tracker : ProviderTracker
new_provider_tracker = []

abbrev pub or_empty : Option (List ProviderEntry) → List ProviderEntry
or_empty none = []
or_empty (some es) = es

abbrev pub entries_of : String → ProviderTracker → List ProviderEntry
entries_of p t = or_empty (lookup p t)

-- `ts.Before(cutoff)`.
abbrev pub is_old : ℕ → ProviderEntry → Bool
is_old now e = ltb (e.ts + sliding_window) now

-- The loop of `pruneUnlocked`, and the slice behind its index.
unfoldable pub drop_old : ℕ → List ProviderEntry → List ProviderEntry
drop_old now [] = []
drop_old now (e ∷ es) = let rest = drop_old now es in if is_old now e then rest else e ∷ es

unfoldable pub prune : String → ℕ → ProviderTracker → ProviderTracker
unfolding drop_old
prune p now t = insert p (drop_old now (entries_of p t)) t

-- `Record`, which reads the clock for the entry and again to prune.
unfoldable pub record_outcome : String → Bool → ℕ → ℕ → ProviderTracker → ProviderTracker
unfolding prune
record_outcome p success time now t =
    prune p now (insert p (entries_of p t ++ (record { ts = time; success = success } ∷ [])) t)

abbrev pub is_failed : ProviderEntry → Bool
is_failed e = not e.success

module _ {F : Type 0} (f : Floats F) where
  abbrev pub rate_of : List ProviderEntry → F
  rate_of es =
      if length es == 0 then f.ratio 0 1 else f.ratio (length (select is_failed es)) (length es)

  unfoldable pub error_rate : String → ℕ → ProviderTracker → F × ProviderTracker
  unfolding prune
  error_rate p now t = let t' = prune p now t in (rate_of (entries_of p t'), t')

  abbrev pub health_of : F → Health
  health_of rate =
      if not (f.less rate (f.ratio 50 100))
      then unhealthy
      else if not (f.less rate (f.ratio 10 100))
      then degraded
      else healthy

  unfoldable pub status : String → ℕ → ProviderTracker → Health × ProviderTracker
  unfolding error_rate
  status p now t = let (rate, t') = error_rate p now t in (health_of rate, t')
