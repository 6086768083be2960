-- ===== src/Alerting/Tests.antt =====
-- One rule with a wildcard and one channel; the world is the list of the keys that Redis has.
use llm_router.Common.{
  String, ◌≡◌, refl, inl, inr, Bool, true, false, not, Option, none, some, List, [], ◌∷◌, arith,
  str_eq, if◌then◌else◌, Bool-cases, str_eq_refl, any, All,
}
use llm_router.Alerting.{
  Event, Notifier, RouteRule, Deduplicator, RuntimeConfig, Router, stamped, dispatch, update_config,
}
use llm_router.Alerting.Routes.{channels, routed, dispatch-channels}
use llm_router.Alerting.Repeats.{KeepsKeys, IsRepeat, dispatch-IsRepeat}

abbrev set_nx : String → List String → Option Bool × List String
set_nx k w = (some (not (any (str_eq k) w)), if any (str_eq k) w then w else k ∷ w)

abbrev redis : Deduplicator (List String)
redis = record { set_nx = set_nx }

abbrev Has : String → List String → Type 0
Has k w = any (str_eq k) w ≡ true

set_nx-Has : (k : String) (w : List String) → Has k (set_nx k w).1
set_nx-Has k w = elim (Bool-cases (any (str_eq k) w)) [
  | inl t ↦ rw t t
  | inr n ↦ rw n (rw (str_eq_refl k) refl)
]

set_nx-keeps : (k j : String) (w : List String) → Has k w → Has k (set_nx j w).1
set_nx-keeps k j w h = elim (Bool-cases (any (str_eq j) w)) [
  | inl t ↦ rw t h
  | inr n ↦ rw (n, h) (ground arith)
]

set_nx-old : (k : String) (w : List String) → Has k w → (set_nx k w).0 ≡ some false
set_nx-old k w h = rw h

abbrev redis_laws : KeepsKeys redis
redis_laws = record {
  Marked = Has;
  answer = λ k w. not (any (str_eq k) w);
  answers = λ k w. refl;
  marks = set_nx-Has;
  keeps = set_nx-keeps;
  old = set_nx-old;
}

abbrev slack : Notifier (List String)
slack = record { name = "slack"; send = λ e w. (none, w) }

abbrev security : RouteRule (List String)
security = record { events = "security.*" ∷ []; severity = ""; notifiers = slack ∷ [] }

abbrev alerts : Router (List String)
alerts = record {
  rules = security ∷ [];
  dedup = some redis;
  pool = true;
  cfg = record { enabled = true; channels = [] };
}

abbrev leak : Event
leak = record { event_type = "security.pii"; severity = "critical"; timestamp = 7; entity_id = "" }

abbrev muted : RuntimeConfig
muted = record { enabled = false; channels = [] }

dispatch-channels_example :
    (channels (dispatch alerts 9 leak []).0 ≡ routed (stamped 9 leak) (security ∷ []))
    × (dispatch (update_config muted alerts) 9 leak [] ≡ dispatch alerts 9 leak [])
dispatch-channels_example = dispatch-channels alerts muted 9 leak [] refl

dispatch-IsRepeat_example :
    All IsRepeat
      (dispatch alerts 20 (record leak { timestamp = 19 }) (dispatch alerts 9 leak []).1).0
dispatch-IsRepeat_example =
    dispatch-IsRepeat redis redis_laws alerts leak 9 20 19 [] (dispatch alerts 9 leak []).1 refl
      (((λ k e w m. m), tt), tt) (λ k m. m)
