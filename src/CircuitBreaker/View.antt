-- ===== src/CircuitBreaker/View.antt =====
-- internal/gateway/circuitbreaker/circuit_breaker.go: the breaker as one entry for each provider,
-- and sequences of calls of its methods.
use llm_router.Common.{
  ℕ, ◌+◌, ◌≡◌, refl, ◌∙◌, Option, none, some, List, [], ◌∷◌, String, arith, if◌then◌else◌, lookup,
  lookup-insert, select, str_eq, eq_iff, Bool-cases, inl, inr, str_eq-eq,
}
use llm_router.CircuitBreaker.{
  Config, Entry, fresh, Breaker, get, put, probe, is_open, success, record_success, failure,
  record_failure, reset,
}

-- The entry of a provider; one that is not known counts as closed.
abbrev pub or_fresh : Option Entry → Entry
or_fresh (some e) = e
or_fresh none = fresh

abbrev pub entry_of : String → Breaker → Entry
entry_of p cb = or_fresh (lookup p cb.entries)

-- A call of a method that changes the state: `IsOpen` and `RecordFailure` with the time.
pub data Op : Type 0 where
  ask : ℕ → String → Op
  succeed : String → Op
  fail : ℕ → String → Op
  clear : String → Op

abbrev pub provider : Op → String
provider (ask now p) = p
provider (succeed p) = p
provider (fail now p) = p
provider (clear p) = p

unfoldable pub apply : Op → Breaker → Breaker
apply (ask now p) cb = (is_open now p cb).1
apply (succeed p) cb = record_success p cb
apply (fail now p) cb = record_failure now p cb
apply (clear p) cb = reset p cb

unfoldable pub run : List Op → Breaker → Breaker
run [] cb = cb
run (op ∷ ops) cb = run ops (apply op cb)

-- The same for the entry of one provider.
unfoldable pub entry_step : Config → Op → Entry → Entry
unfolding probe success failure
entry_step cfg (ask now p) e = (probe cfg now e.state e).1
entry_step cfg (succeed p) e = success cfg e.state e
entry_step cfg (fail now p) e =
    failure cfg e.state (record e { failures = e.failures + 1; last_failure_at = now })
entry_step cfg (clear p) e = fresh

unfoldable pub entry_run : Config → List Op → Entry → Entry
entry_run cfg [] e = e
entry_run cfg (op ∷ ops) e = entry_run cfg ops (entry_step cfg op e)

entry_of-put :
    (p q : String) (e : Entry) (cb : Breaker)
    → entry_of q (put p e cb) ≡ (if str_eq p q then e else entry_of q cb)
unfolding put
entry_of-put p q e cb = ground (arith, lookup-insert p q e cb.entries)

get_entry : (p : String) (cb : Breaker) → (get p cb).0 ≡ entry_of p cb
unfolding get
get_entry p cb = ground arith

get_cfg : (p : String) (cb : Breaker) → (get p cb).1.cfg ≡ cb.cfg
unfolding get
get_cfg p cb = ground arith

entry_of-get : (p q : String) (cb : Breaker) → entry_of q (get p cb).1 ≡ entry_of q cb
unfolding get
entry_of-get p q cb = ground (arith, lookup-insert p q fresh cb.entries, eq_iff p q)

-- A read and a write through the pointer change the one entry.
entry_of-update :
    (p q : String) (e : Entry) (cb : Breaker)
    → entry_of q (put p e (get p cb).1) ≡ (if str_eq p q then e else entry_of q cb)
entry_of-update p q e cb = ground (arith, entry_of-put p q e (get p cb).1, entry_of-get p q cb)

entry_of-modify :
    (f : Entry → Entry) (p q : String) (cb : Breaker)
    → entry_of q (put p (f (get p cb).0) (get p cb).1)
      ≡ (if str_eq p q then f (entry_of q cb) else entry_of q cb)
entry_of-modify f p q cb =
    entry_of-update p q (f (get p cb).0) cb ∙ elim (Bool-cases (str_eq p q)) [
      | inl t ↦ rw (t, get_entry p cb, str_eq-eq p q t)
      | inr t ↦ rw t
    ]

pub apply_cfg : (op : Op) (cb : Breaker) → (apply op cb).cfg ≡ cb.cfg
unfolding apply is_open record_success record_failure reset
apply_cfg (ask now p) cb = get_cfg p cb
apply_cfg (succeed p) cb = get_cfg p cb
apply_cfg (fail now p) cb = get_cfg p cb
apply_cfg (clear p) cb = refl

-- A method of provider `p` steps the entry of `p`, and leaves every other entry as it is.
pub entry_of-apply :
    (op : Op) (q : String) (cb : Breaker)
    → entry_of q (apply op cb)
      ≡ (if str_eq (provider op) q then entry_step cb.cfg op (entry_of q cb) else entry_of q cb)
unfolding apply is_open record_success record_failure reset entry_step get_cfg
entry_of-apply (ask now p) q cb = entry_of-modify (λ e. (probe cb.cfg now e.state e).1) p q cb
entry_of-apply (succeed p) q cb = entry_of-modify (λ e. success cb.cfg e.state e) p q cb
entry_of-apply (fail now p) q cb =
    entry_of-modify
      (λ e. failure cb.cfg e.state (record e { failures = e.failures + 1; last_failure_at = now }))
      p q cb
entry_of-apply (clear p) q cb = entry_of-put p q fresh cb

-- The entries of two providers never influence one another: over any sequence of calls, the entry
-- of `q` is the one that results from the calls for `q` alone.
pub entry_of-run :
    (ops : List Op) (q : String) (cb : Breaker)
    → entry_of q (run ops cb)
      ≡ entry_run cb.cfg (select (λ op. str_eq (provider op) q) ops) (entry_of q cb)
unfolding run entry_run
entry_of-run [] q cb = refl
entry_of-run (op ∷ ops) q cb =
    let ih = entry_of-run ops q (apply op cb) in
    elim (Bool-cases (str_eq (provider op) q)) [
      | inl t ↦ rw (ih, apply_cfg op cb, entry_of-apply op q cb, t)
      | inr t ↦ rw (ih, apply_cfg op cb, entry_of-apply op q cb, t)
    ]

-- The answer of `IsOpen` depends on the entry of its provider alone.
pub is_open_answer :
    (now : ℕ) (p : String) (cb : Breaker)
    → (is_open now p cb).0 ≡ (probe cb.cfg now (entry_of p cb).state (entry_of p cb)).0
unfolding is_open
is_open_answer now p cb = rw (get_entry p cb)

pub run_cfg : (ops : List Op) (cb : Breaker) → (run ops cb).cfg ≡ cb.cfg
unfolding run
run_cfg [] cb = refl
run_cfg (op ∷ ops) cb = run_cfg ops (apply op cb) ∙ apply_cfg op cb
