-- ===== src/Alerting/Routes.antt =====
-- internal/alerting/router.go: the channels that an event goes to.
use llm_router.Common.{
  ℕ, String, ◌≡◌, refl, ap, ◌∙◌, Bool, true, false, Option, List, [], ◌∷◌, ◌++◌, if◌then◌else◌,
}
use llm_router.Alerting.{
  Event, Notifier, RouteRule, HistoryRecord, Deduplicator, RuntimeConfig, Router, stamped,
  matches_rule, notify, notify_all, notify_if, dispatch_rules, dispatch, update_config,
}

abbrev pub channels : List HistoryRecord → List String
channels [] = []
channels (h ∷ hs) = h.channel ∷ channels hs

channels-append : (xs ys : List HistoryRecord) → channels (xs ++ ys) ≡ channels xs ++ channels ys
channels-append [] ys = refl
channels-append (x ∷ xs) ys = ap (λ l. x.channel ∷ l) (channels-append xs ys)

module _ {W : Type 0} where
  -- The channels of the rules that match, in the order of the rules.
  abbrev pub names : List (Notifier W) → List String
  names [] = []
  names (n ∷ ns) = n.name ∷ names ns

  abbrev pub routed : Event → List (RouteRule W) → List String
  routed e [] = []
  routed e (r ∷ rs) = if matches_rule r e then names r.notifiers ++ routed e rs else routed e rs

  notify_all-channels :
      (d : Option (Deduplicator W)) (e : Event) (ns : List (Notifier W)) (w : W)
      → channels (notify_all d e ns w).0 ≡ names ns
  unfolding notify_all
  notify_all-channels d e [] w = refl
  notify_all-channels d e (n ∷ ns) w =
      ap (λ l. n.name ∷ l) (notify_all-channels d e ns (notify d e n w).1)

  notify_if-channels :
      (b : Bool) (d : Option (Deduplicator W)) (e : Event) (ns : List (Notifier W)) (w : W)
      (l : List String)
      → channels (notify_if b d e ns w).0 ++ l ≡ (if b then names ns ++ l else l)
  notify_if-channels false d e ns w l = refl
  notify_if-channels true d e ns w l = ap (λ m. m ++ l) (notify_all-channels d e ns w)

  dispatch_rules-channels :
      (d : Option (Deduplicator W)) (e : Event) (rs : List (RouteRule W)) (w : W)
      → channels (dispatch_rules d e rs w).0 ≡ routed e rs
  unfolding dispatch_rules
  dispatch_rules-channels d e [] w = refl
  dispatch_rules-channels d e (r ∷ rs) w =
      let (here, w') = notify_if (matches_rule r e) d e r.notifiers w in
      channels-append here (dispatch_rules d e rs w').0
      ∙ ap (λ l. channels here ++ l) (dispatch_rules-channels d e rs w')
      ∙ notify_if-channels (matches_rule r e) d e r.notifiers w (routed e rs)

  -- With a database, the history gets one record for each channel of each rule that matches the
  -- event, in the order of the rules, whatever a channel, the deduplicator or the clock answer; and
  -- what the administration sets at run time, `enabled` included, changes neither the records nor
  -- what is sent.
  pub dispatch-channels :
      (r : Router W) (cfg : RuntimeConfig) (time : ℕ) (e : Event) (w : W)
      → r.pool ≡ true
      → (channels (dispatch r time e w).0 ≡ routed (stamped time e) r.rules)
        × (dispatch (update_config cfg r) time e w ≡ dispatch r time e w)
  unfolding dispatch update_config
  dispatch-channels r cfg time e w h =
      (rw h (dispatch_rules-channels r.dedup (stamped time e) r.rules w), refl)
