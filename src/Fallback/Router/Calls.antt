-- ===== src/Fallback/Router/Calls.antt =====
-- internal/gateway/fallback/router.go: which providers a request calls, and how often.
use llm_router.Common.{
  ℕ, suc, ◌+◌, ◌*◌, ◌≤◌, ◌<◌, String, ◌≡◌, refl, sym, ap, subst, ◌∙◌, ◌≢◌, inl, inr, true, false,
  not, ◌&&◌, Option, none, some, List, [], ◌∷◌, ◌++◌, Memᴰ, append_assoc, arith, str_eq, Bool-cases,
  Option-cases, str_eq-ne, length, All, All-append, All-mem, All-of_mem,
}
use native.Mathlib.Nat.{le_trans, le_of_eq}
use llm_router.Provider.Errors.{Error}
use llm_router.CircuitBreaker.{Breaker, state_open, probe, is_open, record_failure}
use llm_router.CircuitBreaker.View.{
  entry_of, entry_step, apply, ask, fail, entry_of-apply, is_open_answer, apply_cfg,
}
use llm_router.Fallback.{Target, Chain}
use llm_router.Fallback.Router.{
  Providers, is_fallback_error, walk, Balancer, sort_targets, execute_chain, execute_stream,
  call_with_retry, call_once, exhausted, stream_exhausted,
}
use llm_router.Fallback.Router.Log.{
  Call, logged, Adds, call_once-Adds, call_with_retry-Adds, call_once-length,
  call_with_retry-length,
}

-- The log has grown by calls that all satisfy `Ok`.
pub record Grows {κ} (Ok : Call → Type κ) (before after : List Call) : Type κ where
  pub new : List Call
  pub put : after ≡ new ++ before
  pub all : All Ok new

module _ {κ} (Ok : Call → Type κ) where
  pub Grows-none : (log : List Call) → Grows Ok log log
  Grows-none log = record { new = []; put = refl; all = tt }

  All-same : {c : Call} → Ok c → (new : List Call) → All (λ d. d ≡ c) new → All Ok new
  All-same ok [] h = tt
  All-same ok (d ∷ ds) h = (subst Ok (sym h.0) ok, All-same ok ds h.1)

  Grows-add :
      {c : Call} {log mid after : List Call}
      → Ok c
      → Adds c log mid
      → Grows Ok mid after
      → Grows Ok log after
  Grows-add {log} ok a g = record {
    new = g.new ++ a.new;
    put = g.put ∙ ap (λ l. g.new ++ l) a.put ∙ sym (append_assoc g.new a.new log);
    all = All-append Ok g.new a.new g.all (All-same ok a.new a.own);
  }

pub Grows-map {κ} :
    {P Q : Call → Type κ} {log after : List Call}
    → ((c : Call) → P c → Q c)
    → Grows P log after
    → Grows Q log after
Grows-map f g = record {
  new = g.new;
  put = g.put;
  all = All-of_mem _ g.new (λ c m. f c (All-mem _ g.all m));
}

module _ {W R : Type 0} (ps : Providers W R)
    (run : String → String → List Call × W → Option Error × (Option R × (List Call × W)))
    (spent : String → Error → Error) (name : String)
    (run-Adds : (p m : String) (log : List Call) (w : W)
      → Adds (p, m) log (run p m (log, w)).1.1.0) where
  -- An invariant of the breaker that asking and recorded failures keep, and that lets only calls
  -- with `Ok` pass.
  module _ {κ ι} (Ok : Call → Type κ) (I : Breaker → Type ι)
      (keep_ask : (v : W) (p : String) (cb : Breaker) → I cb → I (is_open (ps.now v) p cb).1)
      (keep_fail : (now : ℕ) (c : Call) (cb : Breaker)
        → Ok c
        → I cb
        → I (record_failure now c.0 cb)) where
    walk-Grows :
        (ts : List Target) (tried : ℕ) (last : Option Error) (cb : Breaker) (log : List Call)
        (w : W)
        → ((t : Target)
            → Memᴰ t ts
            → (v : W) (cb' : Breaker) → I cb'
            → (is_open (ps.now v) t.provider cb').0 ≡ false
            → ps.registered t.provider ≡ true
            → Ok (t.provider, t.model))
        → I cb
        → Grows Ok log (walk (logged ps) run spent name ts tried last cb (log, w)).1.1.0
    unfolding walk
    walk-Grows [] tried last cb log w admit i = Grows-none Ok log
    walk-Grows (t ∷ ts) tried last cb log w admit i =
        let blocked = (is_open (ps.now w) t.provider cb).0 in
        let cb₁ = (is_open (ps.now w) t.provider cb).1 in
        let i₁ : I cb₁ = keep_ask w t.provider cb i in
        let admit' = λ (u : Target) (m : Memᴰ u ts). admit u (Memᴰ.tail m) in
        elim (Bool-cases (not blocked && ps.registered t.provider)) [
          | inr skip ↦ rw (skip, walk) (walk-Grows ts tried last cb₁ log w admit' i₁)
          | inl go ↦
              let ok : Ok (t.provider, t.model) =
                admit t (Memᴰ.head refl) w cb i (ground arith) (ground arith) in
              let result = run t.provider t.model (log, w) in
              let added = run-Adds t.provider t.model log w in
              rw (go, walk)
                (elim (Option-cases result.0) [
                  | inl good ↦ rw (good, walk) (Grows-add Ok ok added (Grows-none Ok _))
                  | inr (e, bad) ↦
                      rw (bad, walk)
                        (elim (Bool-cases (is_fallback_error e)) [
                          | inr n ↦ rw (n, walk) (Grows-add Ok ok added (Grows-none Ok _))
                          | inl y ↦
                              rw (y, walk)
                                (Grows-add Ok ok added (
                                  walk-Grows ts (tried + 1) (some e)
                                    (record_failure (ps.now result.1.1.1) t.provider cb₁)
                                    result.1.1.0 result.1.1.1 admit'
                                    (keep_fail (ps.now result.1.1.1) (t.provider, t.model) cb₁ ok
                                      i₁)))
                        ])
                ])
        ]

  walk-length :
      (k : ℕ)
      → ((p m : String) (log : List Call) (w : W)
          → length (run p m (log, w)).1.1.0 ≤ length log + k)
      → (ts : List Target) (tried : ℕ) (last : Option Error) (cb : Breaker) (log : List Call)
        (w : W)
      → length (walk (logged ps) run spent name ts tried last cb (log, w)).1.1.0
        ≤ length log + k * length ts
  unfolding walk
  walk-length k bound [] tried last cb log w = omega arith
  walk-length k bound (t ∷ ts) tried last cb log w =
      let cb₁ = (is_open (ps.now w) t.provider cb).1 in
      elim (Bool-cases (not (is_open (ps.now w) t.provider cb).0 && ps.registered t.provider)) [
        | inr skip ↦ rw (skip, walk) (grind (arith, walk-length k bound ts tried last cb₁ log w))
        | inl go ↦
            let result = run t.provider t.model (log, w) in
            let here : length result.1.1.0 ≤ length log + k = bound t.provider t.model log w in
            let more : length log + k ≤ length log + k * suc (length ts) = grind arith in
            let rest : length result.1.1.0 + k * length ts ≤ length log + k * suc (length ts) =
              grind arith in
            rw (go, walk)
              (elim (Option-cases result.0) [
                | inl good ↦ rw (good, walk) (omega arith)
                | inr (e, bad) ↦
                    rw (bad, walk)
                      (elim (Bool-cases (is_fallback_error e)) [
                        | inr n ↦ rw (n, walk) (omega arith)
                        | inl y ↦
                            rw (y, walk)
                              (le_trans
                                (walk-length k bound ts (tried + 1) (some e)
                                  (record_failure (ps.now result.1.1.1) t.provider cb₁) result.1.1.0
                                  result.1.1.1)
                                rest)
                      ])
              ])
      ]

-- A load balancer does not see the log.
abbrev pub logged_balancer : {W : Type 0} → Balancer W → Balancer (List Call × W)
logged_balancer none = none
logged_balancer (some sort) = some (λ ts s. let (r, w) = sort ts s.1 in (r, (s.0, w)))

sort_logged :
    {W : Type 0} (lb : Balancer W) (ts : List Target) (log : List Call) (w : W)
    → sort_targets (logged_balancer lb) ts (log, w)
      ≡ ((sort_targets lb ts w).0, (log, (sort_targets lb ts w).1))
unfolding sort_targets
sort_logged none ts log w = refl
sort_logged (some sort) ts log w = refl

module _ {W R : Type 0} (ps : Providers W R) (lb : Balancer W) (chain : Chain) (cb : Breaker)
    (log : List Call) (w : W) where
  -- The call is of a target of the balanced chain whose provider is registered.
  abbrev pub IsTarget : Call → Type 0
  IsTarget c =
      (t : Target) × Memᴰ t (sort_targets lb chain.targets w).0
      × (t.provider ≡ c.0)
      × (t.model ≡ c.1)
      × (ps.registered c.0 ≡ true)

  abbrev Anything : Breaker → Type 0
  Anything b = Unit

  -- `Execute` calls only registered providers, each with the model of a target of the balanced
  -- chain, and at most three times the number of targets.
  pub execute_chain-calls :
      Grows IsTarget log (execute_chain (logged ps) (logged_balancer lb) chain cb (log, w)).1.1.0
      × (length (execute_chain (logged ps) (logged_balancer lb) chain cb (log, w)).1.1.0
          ≤ length log + 3 * length (sort_targets lb chain.targets w).0)
  unfolding execute_chain
  execute_chain-calls =
      let ts = (sort_targets lb chain.targets w).0 in
      let v = (sort_targets lb chain.targets w).1 in
      rw (sort_logged lb chain.targets log w) (
        walk-Grows ps (call_with_retry (logged ps)) exhausted (ps.quote chain.name)
            (call_with_retry-Adds ps) IsTarget Anything (λ n p b i. tt) (λ n c b o i. tt) ts 0 none
            cb log v (λ t m u b i shut known. (t, m, refl, refl, known)) tt,
        walk-length ps (call_with_retry (logged ps)) exhausted (ps.quote chain.name)
            (call_with_retry-Adds ps) 3 (call_with_retry-length ps) ts 0 none cb log v,
      )

  -- `ExecuteStream` calls only registered providers, each with the model of a target of the
  -- balanced chain, and at most once for each target.
  pub execute_stream-calls :
      Grows IsTarget log (execute_stream (logged ps) (logged_balancer lb) chain cb (log, w)).1.1.0
      × (length (execute_stream (logged ps) (logged_balancer lb) chain cb (log, w)).1.1.0
          ≤ length log + length (sort_targets lb chain.targets w).0)
  unfolding execute_stream
  execute_stream-calls =
      let ts = (sort_targets lb chain.targets w).0 in
      let v = (sort_targets lb chain.targets w).1 in
      rw (sort_logged lb chain.targets log w) (
        walk-Grows ps (call_once (logged ps)) stream_exhausted (ps.quote chain.name)
            (call_once-Adds ps) IsTarget Anything (λ n p b i. tt) (λ n c b o i. tt) ts 0 none cb log
            v (λ t m u b i shut known. (t, m, refl, refl, known)) tt,
        le_trans
            (walk-length ps (call_once (logged ps)) stream_exhausted (ps.quote chain.name)
              (call_once-Adds ps) 1 (λ p m l u. le_of_eq (call_once-length ps p m l u)) ts 0 none cb
              log v)
            (omega arith),
      )

  abbrev Untouched : String → Breaker → Type 0
  Untouched q b = (entry_of q b ≡ entry_of q cb) × (b.cfg ≡ cb.cfg)

  abbrev deadline : String → ℕ
  deadline q = (entry_of q cb).last_failure_at + cb.cfg.open_timeout

  ask_early :
      (q p : String) (now : ℕ) (b : Breaker)
      → (entry_of q cb).state ≡ state_open
      → now < deadline q
      → Untouched q b
      → Untouched q (is_open now p b).1
  unfolding apply entry_step
  ask_early q p now b shut early (same, cfg) =
      let stays : entry_step b.cfg (ask now p) (entry_of q b) ≡ entry_of q b =
        rw (same, cfg) (ground arith) in
      let moved = entry_of-apply (ask now p) q b in
      (
        elim (Bool-cases (str_eq p q)) [
          | inl t ↦ (rw t at moved) ∙ stays ∙ same
          | inr t ↦ (rw t at moved) ∙ same
        ],
        apply_cfg (ask now p) b ∙ cfg,
      )

  fail_elsewhere :
      (q p : String) (now : ℕ) (b : Breaker)
      → p ≢ q
      → Untouched q b
      → Untouched q (record_failure now p b)
  unfolding apply
  fail_elsewhere q p now b ne (same, cfg) =
      let moved = entry_of-apply (fail now p) q b in
      ((rw (str_eq-ne p q ne) at moved) ∙ same, apply_cfg (fail now p) b ∙ cfg)

  early_blocked :
      (q : String) (now : ℕ) (b : Breaker)
      → (entry_of q cb).state ≡ state_open
      → now < deadline q
      → Untouched q b
      → (is_open now q b).0 ≡ true
  unfolding probe
  early_blocked q now b shut early (same, cfg) =
      is_open_answer now q b ∙ rw (same, cfg) (ground arith)

  -- A provider whose circuit is open is not called at all by a request that ends before the
  -- timeout since its last failure, whatever the other targets do.
  pub execute_chain-skips_open :
      (q : String)
      → (entry_of q cb).state ≡ state_open
      → ((v : W) → ps.now v < deadline q)
      → Grows
          (λ c. c.0 ≢ q)
          log
          (execute_chain (logged ps) (logged_balancer lb) chain cb (log, w)).1.1.0
  unfolding execute_chain
  execute_chain-skips_open q shut early =
      let ts = (sort_targets lb chain.targets w).0 in
      let v = (sort_targets lb chain.targets w).1 in
      rw (sort_logged lb chain.targets log w) (
        walk-Grows ps (call_with_retry (logged ps)) exhausted (ps.quote chain.name)
          (call_with_retry-Adds ps) (λ c. c.0 ≢ q) (Untouched q)
          (λ n p b i. ask_early q p (ps.now n) b shut (early n) i)
          (λ n c b o i. fail_elsewhere q c.0 n b o i) ts 0 none cb log v
          (λ t m u b i admitted known same. cc (
            early_blocked q (ps.now u) b shut (early u) i,
            ap (λ p. (is_open (ps.now u) p b).0) same,
            admitted,
          ))
          (refl, refl))
