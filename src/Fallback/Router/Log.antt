-- ===== src/Fallback/Router/Log.antt =====
-- internal/gateway/fallback/router.go: the providers with a log of the calls that are made of them,
-- and what one provider's turn adds to it.
use llm_router.Common.{
  ◌+◌, ◌≤◌, String, ◌≡◌, refl, ap, Option, none, List, [], ◌∷◌, ◌++◌, arith, length, All,
}
use llm_router.Retry.{default}
use llm_router.Retry.Laws.{execute_keeps, execute-Ends}
use llm_router.Fallback.Router.{Providers, attempt, host_with_response, call_with_retry, call_once}

-- A call of a provider: its name and the model.
abbrev pub Call : Type 0
Call = String × String

abbrev pub logged : {W R : Type 0} → Providers W R → Providers (List Call × W) R
logged ps = record {
  host = record {
    F = ps.host.F;
    literal = ps.host.literal;
    add = ps.host.add;
    sub = ps.host.sub;
    mul = ps.host.mul;
    less = ps.host.less;
    to_duration = ps.host.to_duration;
    random = λ s. let (x, w) = ps.host.random s.1 in (x, (s.0, w));
    wait = λ d s. let (e, w) = ps.host.wait d s.1 in (e, (s.0, w));
  };
  registered = ps.registered;
  call = λ p m s. let (a, w) = ps.call p m s.1 in (a, ((p, m) ∷ s.0, w));
  now = λ s. ps.now s.1;
  quote = ps.quote;
}

-- The calls `new` of one provider and model have been put before the log.
pub record Adds (c : Call) (before after : List Call) : Type 0 where
  pub new : List Call
  pub put : after ≡ new ++ before
  pub own : All (λ d. d ≡ c) new

Adds-none : (c : Call) (log : List Call) → Adds c log log
Adds-none c log = record { new = []; put = refl; own = tt }

Adds-cons : {c : Call} {log after : List Call} → Adds c log after → Adds c log (c ∷ after)
Adds-cons {c} a = record { new = c ∷ a.new; put = ap (λ l. c ∷ l) a.put; own = (refl, a.own) }

module _ {W R : Type 0} (ps : Providers W R) (p m : String) where
  attempt-log :
      (s : Option R × (List Call × W)) → (attempt (logged ps) p m s).1.1.0 ≡ (p, m) ∷ s.1.0
  unfolding attempt
  attempt-log (r, (log, w)) = ground arith

  pub call_once-Adds :
      (log : List Call) (w : W) → Adds (p, m) log (call_once (logged ps) p m (log, w)).1.1.0
  unfolding call_once
  call_once-Adds log w = rw (attempt-log (none, (log, w))) (Adds-cons (Adds-none (p, m) log))

  pub call_with_retry-Adds :
      (log : List Call) (w : W) → Adds (p, m) log (call_with_retry (logged ps) p m (log, w)).1.1.0
  unfolding call_with_retry
  call_with_retry-Adds log w =
      execute_keeps (host_with_response (logged ps)) (default (host_with_response (logged ps)))
        (attempt (logged ps) p m) (λ s. Adds (p, m) log s.1.0) (λ s h. h) (λ d s h. h)
        (λ s h. rw (attempt-log s) (Adds-cons h)) (none, (log, w)) (Adds-none (p, m) log)

  pub call_once-length :
      (log : List Call) (w : W) → length (call_once (logged ps) p m (log, w)).1.1.0 ≡ length log + 1
  unfolding call_once
  call_once-length log w = rw (attempt-log (none, (log, w))) (omega arith)

  pub call_with_retry-length :
      (log : List Call) (w : W)
      → length (call_with_retry (logged ps) p m (log, w)).1.1.0 ≤ length log + 3
  unfolding call_with_retry default
  call_with_retry-length log w =
      (execute-Ends (host_with_response (logged ps)) (default (host_with_response (logged ps)))
        (attempt (logged ps) p m) (λ s. length s.1.0) (λ s. refl) (λ d s. refl)
        (λ s. rw (attempt-log s) (omega arith)) (none, (log, w)) (omega arith)).1
