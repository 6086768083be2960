-- ===== src/Alerting/Repeats.antt =====
-- internal/alerting/router.go and deduplicator.go: an alert that is repeated within the window.
use Prim.Native.String.{◌++◌ as str_append}
use llm_router.Common.{
  ℕ, String, ◌≡◌, refl, sym, subst, Bool, true, false, Option, none, some, List, [], ◌∷◌,
  if◌then◌else◌, All, All-append, All-weaken,
}
use llm_router.Alerting.{
  Event, Notifier, RouteRule, deduplicated, HistoryRecord, Deduplicator, Router, dedup_key, stamped,
  matches_rule, new_or_error, should_send, attempt, status_of, notify, notify_all, notify_if,
  dispatch_rules, dispatch,
}

abbrev pub alert_key : Event → String → String
alert_key e name = dedup_key e.event_type (str_append e.entity_id (str_append ":" name))

-- What is relied on of Redis for as long as no window ends: it answers, `SETNX` of a key marks it,
-- marks stay, and `SETNX` of a marked key says that it is not new.
pub record KeepsKeys {W : Type 0} (d : Deduplicator W) : Type 1 where
  pub Marked : String → W → Type 0
  pub answer : String → W → Bool
  pub answers : (k : String) (w : W) → (d.set_nx k w).0 ≡ some (answer k w)
  pub marks : (k : String) (w : W) → Marked k (d.set_nx k w).1
  pub keeps : (k j : String) (w : W) → Marked k w → Marked k (d.set_nx j w).1
  pub old : (k : String) (w : W) → Marked k w → (d.set_nx k w).0 ≡ some false

abbrev pub IsRepeat : HistoryRecord → Type 0
IsRepeat h = h.status ≡ deduplicated

module _ {W : Type 0} (d : Deduplicator W) (redis : KeepsKeys d) where
  open redis use {Marked, answer, answers, marks, keeps, old}

  -- Sending on a channel leaves the marks.
  abbrev pub LeavesMarks : Notifier W → Type 0
  LeavesMarks n = (k : String) (e : Event) (w : W) → Marked k w → Marked k (n.send e w).1

  abbrev pub RuleLeavesMarks : RouteRule W → Type 0
  RuleLeavesMarks r = All LeavesMarks r.notifiers

  new_or_error-world : (q : Option Bool × W) → (new_or_error q).1 ≡ q.1
  new_or_error-world (none, w) = refl
  new_or_error-world (some b, w) = refl

  status_of-world : (q : Option String × W) → (status_of q).1 ≡ q.1
  status_of-world (none, w) = refl
  status_of-world (some e, w) = refl

  attempt-keeps :
      (n : Notifier W) (e : Event) (k : String) (q : Bool × W)
      → LeavesMarks n
      → Marked k q.1
      → Marked k (attempt n e q).1
  attempt-keeps n e k (false, w) l m = m
  attempt-keeps n e k (true, w) l m =
      subst (Marked k) (sym (status_of-world (n.send e w))) (l k e w m)

  notify-keeps :
      (n : Notifier W) (e : Event) (k : String) (w : W)
      → LeavesMarks n
      → Marked k w
      → Marked k (notify (some d) e n w).1
  unfolding notify should_send
  notify-keeps n e k w l m = attempt-keeps n e k (should_send (some d) e n.name w) l (
      subst (Marked k) (sym (new_or_error-world (d.set_nx (alert_key e n.name) w)))
        (keeps k (alert_key e n.name) w m))

  notify-marks :
      (n : Notifier W) (e : Event) (w : W)
      → LeavesMarks n
      → Marked (alert_key e n.name) (notify (some d) e n w).1
  unfolding notify should_send
  notify-marks n e w l =
      attempt-keeps n e (alert_key e n.name) (should_send (some d) e n.name w) l (
        subst (Marked (alert_key e n.name))
          (sym (new_or_error-world (d.set_nx (alert_key e n.name) w)))
          (marks (alert_key e n.name) w))

  attempt-repeat :
      (n : Notifier W) (e : Event) (q : Option Bool × W)
      → q.0 ≡ some false
      → (attempt n e (new_or_error q)).0 ≡ deduplicated
  attempt-repeat n e (none, w) h = cc
  attempt-repeat n e (some true, w) h = cc
  attempt-repeat n e (some false, w) h = refl

  notify-repeat :
      (n : Notifier W) (e : Event) (w : W)
      → Marked (alert_key e n.name) w
      → (notify (some d) e n w).0 ≡ deduplicated
  unfolding notify should_send
  notify-repeat n e w m =
      attempt-repeat n e (d.set_nx (alert_key e n.name) w) (old (alert_key e n.name) w m)

  -- All channels of the rules that match are marked for the event.
  abbrev pub NotifierMarked : Event → W → Notifier W → Type 0
  NotifierMarked e w n = Marked (alert_key e n.name) w

  abbrev pub RulesMarked : Event → W → List (RouteRule W) → Type 0
  RulesMarked e w [] = Unit {0}
  RulesMarked e w (r ∷ rs) =
      (matches_rule r e ≡ true → All (NotifierMarked e w) r.notifiers) × RulesMarked e w rs

  notify_all-keeps :
      (e : Event) (k : String) (ns : List (Notifier W)) (w : W)
      → All LeavesMarks ns
      → Marked k w
      → Marked k (notify_all (some d) e ns w).1
  unfolding notify_all
  notify_all-keeps e k [] w l m = m
  notify_all-keeps e k (n ∷ ns) w l m =
      notify_all-keeps e k ns (notify (some d) e n w).1 l.1 (notify-keeps n e k w l.0 m)

  notify_all-marks :
      (e : Event) (ns : List (Notifier W)) (w : W)
      → All LeavesMarks ns
      → All (NotifierMarked e (notify_all (some d) e ns w).1) ns
  unfolding notify_all
  notify_all-marks e [] w l = tt
  notify_all-marks e (n ∷ ns) w l = (
    notify_all-keeps e (alert_key e n.name) ns (notify (some d) e n w).1 l.1
        (notify-marks n e w l.0),
    notify_all-marks e ns (notify (some d) e n w).1 l.1,
  )

  notify_all-IsRepeat :
      (e : Event) (ns : List (Notifier W)) (w : W)
      → All LeavesMarks ns
      → All (NotifierMarked e w) ns
      → All IsRepeat (notify_all (some d) e ns w).0
  unfolding notify_all
  notify_all-IsRepeat e [] w l m = tt
  notify_all-IsRepeat e (n ∷ ns) w l m = (
    notify-repeat n e w m.0,
    notify_all-IsRepeat e ns (notify (some d) e n w).1 l.1
        (All-weaken (λ j. notify-keeps n e (alert_key e j.name) w l.0) ns m.1),
  )

  notify_if-keeps :
      (b : Bool) (e : Event) (k : String) (ns : List (Notifier W)) (w : W)
      → All LeavesMarks ns
      → Marked k w
      → Marked k (notify_if b (some d) e ns w).1
  notify_if-keeps false e k ns w l m = m
  notify_if-keeps true e k ns w l m = notify_all-keeps e k ns w l m

  notify_if-marks :
      (b : Bool) (e : Event) (ns : List (Notifier W)) (w : W)
      → All LeavesMarks ns
      → b ≡ true
      → All (NotifierMarked e (notify_if b (some d) e ns w).1) ns
  notify_if-marks false e ns w l h = cc
  notify_if-marks true e ns w l h = notify_all-marks e ns w l

  notify_if-IsRepeat :
      (b : Bool) (e : Event) (ns : List (Notifier W)) (w : W)
      → All LeavesMarks ns
      → (b ≡ true → All (NotifierMarked e w) ns)
      → All IsRepeat (notify_if b (some d) e ns w).0
  notify_if-IsRepeat false e ns w l m = tt
  notify_if-IsRepeat true e ns w l m = notify_all-IsRepeat e ns w l (m refl)

  -- The world after a rule.
  abbrev after : Event → RouteRule W → W → W
  after e r w = (notify_if (matches_rule r e) (some d) e r.notifiers w).1

  dispatch_rules-keeps :
      (e : Event) (k : String) (rs : List (RouteRule W)) (w : W)
      → All RuleLeavesMarks rs
      → Marked k w
      → Marked k (dispatch_rules (some d) e rs w).1
  unfolding dispatch_rules
  dispatch_rules-keeps e k [] w l m = m
  dispatch_rules-keeps e k (r ∷ rs) w l m =
      dispatch_rules-keeps e k rs (after e r w) l.1
        (notify_if-keeps (matches_rule r e) e k r.notifiers w l.0 m)

  RulesMarked-later :
      (e : Event) (w w' : W)
      → ((k : String) → Marked k w → Marked k w')
      → (rs : List (RouteRule W)) → RulesMarked e w rs
      → RulesMarked e w' rs
  RulesMarked-later e w w' f [] m = tt
  RulesMarked-later e w w' f (r ∷ rs) m = (
    λ y. All-weaken (λ n. f (alert_key e n.name)) r.notifiers (m.0 y),
    RulesMarked-later e w w' f rs m.1,
  )

  dispatch_rules-marks :
      (e : Event) (rs : List (RouteRule W)) (w : W)
      → All RuleLeavesMarks rs
      → RulesMarked e (dispatch_rules (some d) e rs w).1 rs
  unfolding dispatch_rules
  dispatch_rules-marks e [] w l = tt
  dispatch_rules-marks e (r ∷ rs) w l = (
    λ q.
        All-weaken (λ n. dispatch_rules-keeps e (alert_key e n.name) rs (after e r w) l.1)
          r.notifiers (notify_if-marks (matches_rule r e) e r.notifiers w l.0 q),
    dispatch_rules-marks e rs (after e r w) l.1,
  )

  dispatch_rules-IsRepeat :
      (e : Event) (rs : List (RouteRule W)) (w : W)
      → All RuleLeavesMarks rs
      → RulesMarked e w rs
      → All IsRepeat (dispatch_rules (some d) e rs w).0
  unfolding dispatch_rules
  dispatch_rules-IsRepeat e [] w l m = tt
  dispatch_rules-IsRepeat e (r ∷ rs) w l m =
      All-append IsRepeat (notify_if (matches_rule r e) (some d) e r.notifiers w).0
        (dispatch_rules (some d) e rs (after e r w)).0
        (notify_if-IsRepeat (matches_rule r e) e r.notifiers w l.0 m.0)
        (dispatch_rules-IsRepeat e rs (after e r w) l.1 (
          RulesMarked-later e w (after e r w)
            (λ k. notify_if-keeps (matches_rule r e) e k r.notifiers w l.0) rs m.1))

  if-IsRepeat :
      (b : Bool) (hs : List HistoryRecord) → All IsRepeat hs → All IsRepeat (if b then hs else [])
  if-IsRepeat true hs a = a
  if-IsRepeat false hs a = tt

  RulesMarked-stamped :
      (e : Event) (time time' t' : ℕ) (w : W) (rs : List (RouteRule W))
      → RulesMarked (stamped time e) w rs
      → RulesMarked (stamped time' (record e { timestamp = t' })) w rs
  unfolding stamped matches_rule
  RulesMarked-stamped e time time' t' w [] m = tt
  RulesMarked-stamped e time time' t' w (r ∷ rs) m =
      (m.0, RulesMarked-stamped e time time' t' w rs m.1)

  -- While Redis answers and no window ends, an alert that is dispatched again, with whatever
  -- timestamp, is recorded as deduplicated for each of its channels, if sending on a channel does
  -- not remove the marks in Redis.
  pub dispatch-IsRepeat :
      (r : Router W) (e : Event) (time time' t' : ℕ) (w w' : W)
      → r.dedup ≡ some d
      → All RuleLeavesMarks r.rules
      → ((k : String) → Marked k (dispatch r time e w).1 → Marked k w')
      → All IsRepeat (dispatch r time' (record e { timestamp = t' }) w').0
  unfolding dispatch
  dispatch-IsRepeat r e time time' t' w w' deduped l later =
      let again = stamped time' (record e { timestamp = t' }) in
      let marked : RulesMarked again w' r.rules =
        RulesMarked-later again (dispatch_rules (some d) (stamped time e) r.rules w).1 w'
          (λ k m.
            later k (
              subst (λ o. Marked k (dispatch_rules o (stamped time e) r.rules w).1) (sym deduped)
                m))
          r.rules
          (RulesMarked-stamped e time time' t' _ r.rules
            (dispatch_rules-marks (stamped time e) r.rules w l)) in
      if-IsRepeat r.pool (dispatch_rules r.dedup again r.rules w').0 (
        subst (λ o. All IsRepeat (dispatch_rules o again r.rules w').0) (sym deduped)
          (dispatch_rules-IsRepeat again r.rules w' l marked))
