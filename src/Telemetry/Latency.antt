-- ===== src/Telemetry/Latency.antt =====
-- internal/telemetry/latency_tracker.go: the moving average of each provider's latency.
use llm_router.Common.{
  String, not, ◌||◌, Option, none, some, List, [], if◌then◌else◌, lookup, insert,
}
use llm_router.MlRouter.Classifier.{Floats}

pub record LatencyTracker (F : Type 0) : Type 0 where
  pub ewma : List (String × F)
  pub alpha : F

module _ {F : Type 0} (f : Floats F) where
  unfoldable pub new_latency_tracker : F → LatencyTracker F
  new_latency_tracker alpha = record {
    ewma = [];
    alpha =
        if not (f.less (f.ratio 0 1) alpha) || f.less (f.ratio 1 1) alpha
        then f.ratio 1 10
        else alpha;
  }

  abbrev pub smoothed : F → F → Option F → F
  smoothed alpha latency none = latency
  smoothed alpha latency (some prev) =
      f.add (f.mul alpha latency) (f.mul (f.sub (f.ratio 1 1) alpha) prev)

  unfoldable pub record_latency : String → F → LatencyTracker F → LatencyTracker F
  record_latency provider latency t = record t {
    ewma = insert provider (smoothed t.alpha latency (lookup provider t.ewma)) t.ewma;
  }

  -- 0 for a provider without samples.
  abbrev pub or_zero : Option F → F
  or_zero none = f.ratio 0 1
  or_zero (some x) = x

  unfoldable pub get_latency : LatencyTracker F → String → F
  get_latency t provider = or_zero (lookup provider t.ewma)
