-- ===== src/Alerting.antt =====
-- internal/alerting/router.go, notifier.go, deduplicator.go and event_bus.go. A channel's `send`, the
-- deduplicator's `SETNX`, the clock and the table of the history are outside; `dispatch` returns the
-- records that it inserts. Titles, details and log lines are left out.
use Prim.Native.String.{◌++◌ as str_append}
use llm_router.Common.{
  ℕ, String, Bool, true, false, not, ◌&&◌, Option, none, some, List, [], ◌∷◌, ◌++◌, str_eq, ltb,
  ◌==◌, if◌then◌else◌, length, any, lookup, insert,
}
use llm_router.Common.Texts.{has_prefix, strip_suffix}
pub mod Routes
pub mod Patterns
pub mod Repeats
mod Tests

pub record Event : Type 0 where
  pub event_type : String
  pub severity : String
  pub timestamp : ℕ
  pub entity_id : String

pub record Notifier (W : Type 0) : Type 0 where
  pub name : String
  pub send : Event → W → Option String × W

pub record RouteRule (W : Type 0) : Type 0 where
  pub events : List String
  pub severity : String
  pub notifiers : List (Notifier W)

pub record RoutingConfig : Type 0 where
  pub events : List String
  pub severity : String
  pub channels : List String

pub data Status : Type 0 where
  deduplicated sent : Status
  failed : String → Status

pub record HistoryRecord : Type 0 where
  pub event : Event
  pub channel : String
  pub status : Status

-- `set_nx` is `SETNX` with the window: whether the key is new, or the error.
pub record Deduplicator (W : Type 0) : Type 0 where
  pub set_nx : String → W → Option Bool × W

-- An entry of `RuntimeConfig.Channels`; all of them have `enabled` set.
pub data ChannelSettings : Type 0 where
  slack_settings : String → ChannelSettings
  email_settings : List String → ChannelSettings
  webhook_settings : String → ChannelSettings

-- `RuntimeConfig` without the thresholds, which only the administration reads and writes.
pub record RuntimeConfig : Type 0 where
  pub enabled : Bool
  pub channels : List (String × ChannelSettings)

-- `config.AlertChannelConfig`, as far as the router reads it.
pub record AlertChannel : Type 0 where
  pub kind : String
  pub webhook_url : String
  pub url : String
  pub to : List String

-- `pool` says that there is a database.
pub record Router (W : Type 0) : Type 0 where
  pub rules : List (RouteRule W)
  pub dedup : Option (Deduplicator W)
  pub pool : Bool
  pub cfg : RuntimeConfig

abbrev pub channel_settings :
    AlertChannel → List (String × ChannelSettings) → List (String × ChannelSettings)
channel_settings ch m =
    if str_eq ch.kind "slack"
    then insert "slack" (slack_settings ch.webhook_url) m
    else if str_eq ch.kind "email"
    then insert "email" (email_settings ch.to) m
    else if str_eq ch.kind "webhook"
    then insert "webhook" (webhook_settings (if str_eq ch.url "" then ch.webhook_url else ch.url)) m
    else m

unfoldable pub settings_from :
    List AlertChannel → List (String × ChannelSettings) → List (String × ChannelSettings)
unfolding insert
settings_from [] m = m
settings_from (ch ∷ chs) m = settings_from chs (channel_settings ch m)

unfoldable pub runtime_config_from_yaml : List AlertChannel → RuntimeConfig
unfolding settings_from
runtime_config_from_yaml chs = record {
  enabled = ltb 0 (length chs);
  channels = settings_from chs [];
}

-- The window of `NewDeduplicator`, in nanoseconds.
unfoldable pub dedup_window : ℕ → ℕ
dedup_window window = if window == 0 then 900_000_000_000 else window

-- A trailing ".*" is a wildcard.
abbrev pub match_stripped : Option String → String → String → Bool
match_stripped (some prefix) pattern event_type = has_prefix (str_append prefix ".") event_type
match_stripped none pattern event_type = str_eq pattern event_type

unfoldable pub match_pattern : String → String → Bool
unfolding strip_suffix has_prefix
match_pattern pattern event_type = match_stripped (strip_suffix ".*" pattern) pattern event_type

abbrev pub dedup_key : String → String → String
dedup_key event_type entity_id =
    str_append "alert:dedup:" (str_append event_type (str_append ":" entity_id))

-- `Dispatch` fills in the time and the entity; a time of 0 is the zero time.
unfoldable pub stamped : ℕ → Event → Event
stamped time e = record e {
  timestamp = if e.timestamp == 0 then time else e.timestamp;
  entity_id = if str_eq e.entity_id "" then "global" else e.entity_id;
}

module _ {W : Type 0} where
  unfoldable pub matches_rule : RouteRule W → Event → Bool
  unfolding match_pattern
  matches_rule r e =
      if not (str_eq r.severity "") && not (str_eq r.severity e.severity)
      then false
      else any (λ p. match_pattern p e.event_type) r.events

  -- On an error of Redis the alert passes.
  abbrev pub new_or_error : Option Bool × W → Bool × W
  new_or_error (none, w) = (true, w)
  new_or_error (some b, w) = (b, w)

  unfoldable pub should_send : Option (Deduplicator W) → Event → String → W → Bool × W
  should_send none e name w = (true, w)
  should_send (some d) e name w =
      new_or_error
        (d.set_nx (dedup_key e.event_type (str_append e.entity_id (str_append ":" name))) w)

  abbrev pub status_of : Option String × W → Status × W
  status_of (none, w) = (sent, w)
  status_of (some e, w) = (failed e, w)

  abbrev pub attempt : Notifier W → Event → Bool × W → Status × W
  attempt n e (false, w) = (deduplicated, w)
  attempt n e (true, w) = status_of (n.send e w)

  -- One round of the inner loop.
  unfoldable pub notify : Option (Deduplicator W) → Event → Notifier W → W → Status × W
  unfolding should_send
  notify d e n w = attempt n e (should_send d e n.name w)

  unfoldable pub notify_all :
      Option (Deduplicator W) → Event → List (Notifier W) → W → List HistoryRecord × W
  unfolding notify
  notify_all d e [] w = ([], w)
  notify_all d e (n ∷ ns) w =
      let (status, w') = notify d e n w in
      let (rest, w'') = notify_all d e ns w' in
      (record { event = e; channel = n.name; status = status } ∷ rest, w'')

  -- A rule that does not match is skipped.
  abbrev pub notify_if :
      Bool → Option (Deduplicator W) → Event → List (Notifier W) → W → List HistoryRecord × W
  notify_if false d e ns w = ([], w)
  notify_if true d e ns w = notify_all d e ns w

  unfoldable pub dispatch_rules :
      Option (Deduplicator W) → Event → List (RouteRule W) → W → List HistoryRecord × W
  unfolding notify_all matches_rule
  dispatch_rules d e [] w = ([], w)
  dispatch_rules d e (r ∷ rs) w =
      let (here, w') = notify_if (matches_rule r e) d e r.notifiers w in
      let (rest, w'') = dispatch_rules d e rs w' in (here ++ rest, w'')

  unfoldable pub dispatch : Router W → ℕ → Event → W → List HistoryRecord × W
  unfolding dispatch_rules stamped
  dispatch r time e w =
      let (records, w') = dispatch_rules r.dedup (stamped time e) r.rules w in
      (if r.pool then records else [], w')

  unfoldable pub known : List (String × Notifier W) → List String → List (Notifier W)
  known notifiers [] = []
  known notifiers (c ∷ cs) =
      let rest = known notifiers cs in elim (lookup c notifiers) [ none ↦ rest | some n ↦ n ∷ rest ]

  -- A rule with no known channel is dropped.
  unfoldable pub build_rules : List (String × Notifier W) → List RoutingConfig → List (RouteRule W)
  unfolding known
  build_rules notifiers [] = []
  build_rules notifiers (c ∷ cs) =
      if length (known notifiers c.channels) == 0
      then build_rules notifiers cs
      else record {
        events = c.events;
        severity = c.severity;
        notifiers = known notifiers c.channels;
      }
        ∷ build_rules notifiers cs

  unfoldable pub new_router :
      List AlertChannel
      → List RoutingConfig
      → List (String × Notifier W)
      → Option (Deduplicator W)
      → Bool
      → Router W
  unfolding build_rules runtime_config_from_yaml
  new_router channels routing notifiers dedup pool = record {
    rules = build_rules notifiers routing;
    dedup = dedup;
    pool = pool;
    cfg = runtime_config_from_yaml channels;
  }

  unfoldable pub get_config : Router W → RuntimeConfig
  get_config r = r.cfg

  unfoldable pub update_config : RuntimeConfig → Router W → Router W
  update_config cfg r = record r { cfg = cfg }

  -- The bus: its handlers, and an event that goes through all of them.
  unfoldable pub subscribe : (Event → W → W) → List (Event → W → W) → List (Event → W → W)
  subscribe h bus = bus ++ (h ∷ [])

  unfoldable pub publish : List (Event → W → W) → Event → W → W
  publish [] e w = w
  publish (h ∷ hs) e w = publish hs e (h e w)
