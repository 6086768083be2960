-- ===== src/Health/Window.antt =====
-- internal/health/provider_health.go: the outcomes that count are those of the last minute.
use llm_router.Common.{
  ℕ, ◌≡◌, refl, sym, ap, subst, ◌∙◌, ◌≤◌, String, Bool, true, not, List, [], ◌∷◌, ◌++◌, Bool-cases,
  inl, inr, select, insert, lookup-insert, str_eq, str_eq_refl, append_assoc, str_eq-eq, arith, All,
  All-append, All-weaken, if◌then◌else◌,
}
use mathlib.Core.List.{append-nil}
use llm_router.MlRouter.Classifier.{Floats}
use llm_router.Health.{
  ProviderEntry, ProviderTracker, new_provider_tracker, entries_of, is_old, drop_old, prune,
  record_outcome, rate_of, error_rate, health_of, status, or_empty,
}

-- What happens to the tracker: an outcome with the two readings of the clock, or a question.
pub data Op : Type 0 where
  records : String → Bool → ℕ → ℕ → Op
  asks : String → ℕ → Op

unfoldable pub step : Op → ProviderTracker → ProviderTracker
step (records p success time now) t = record_outcome p success time now t
step (asks p now) t = prune p now t

unfoldable pub run : List Op → ProviderTracker → ProviderTracker
run [] t = t
run (op ∷ ops) t = run ops (step op t)

-- The readings of the clock do not go back, and end at `last`.
abbrev pub AreOrdered : ℕ → List Op → ℕ → Type 0
AreOrdered now [] last = now ≤ last
AreOrdered now (records p success time now' ∷ ops) last =
    (now ≤ time) × (time ≤ now') × AreOrdered now' ops last
AreOrdered now (asks p now' ∷ ops) last = (now ≤ now') × AreOrdered now' ops last

-- All the outcomes of a provider, in order.
abbrev pub outcomes : String → List Op → List ProviderEntry
outcomes p [] = []
outcomes p (records q success time now ∷ ops) =
    if str_eq q p then record { ts = time; success = success } ∷ outcomes p ops else outcomes p ops
outcomes p (asks q now ∷ ops) = outcomes p ops

abbrev pub is_recent : ℕ → ProviderEntry → Bool
is_recent now e = not (is_old now e)

-- The times of a list do not go back, and are at most `now`.
abbrev pub Ascending : List ProviderEntry → ℕ → Type 0
Ascending [] now = Unit
Ascending (e ∷ es) now = (e.ts ≤ now) × All (λ d. e.ts ≤ d.ts) es × Ascending es now

select-append :
    (p : ProviderEntry → Bool) (xs ys : List ProviderEntry)
    → select p (xs ++ ys) ≡ select p xs ++ select p ys
select-append p [] ys = refl
select-append p (x ∷ xs) ys = elim (Bool-cases (p x)) [
  | inl t ↦ rw t (ap (λ r. x ∷ r) (select-append p xs ys))
  | inr t ↦ rw t (select-append p xs ys)
]

-- What is dropped at one time is old at every time after it.
select-drop_old :
    (now later : ℕ) (es : List ProviderEntry)
    → now ≤ later
    → select (is_recent later) (drop_old now es) ≡ select (is_recent later) es
unfolding drop_old
select-drop_old now later [] h = refl
select-drop_old now later (e ∷ es) h = elim (Bool-cases (is_old now e)) [
  | inl t ↦
      let old : is_old later e ≡ true = ground arith in rw (t, old) (select-drop_old now later es h)
  | inr t ↦ rw t refl
]

select_none :
    (now : ℕ) (es : List ProviderEntry)
    → All (λ e. is_recent now e ≡ true) es
    → select (is_recent now) es ≡ es
select_none now [] h = refl
select_none now (e ∷ es) h = rw h.0 (ap (λ r. e ∷ r) (select_none now es h.1))

-- In a list in order of time, the loop finds all that are old.
drop_old-select :
    (now last : ℕ) (es : List ProviderEntry)
    → Ascending es last
    → drop_old now es ≡ select (is_recent now) es
unfolding drop_old
drop_old-select now last [] h = refl
drop_old-select now last (e ∷ es) h = elim (Bool-cases (is_old now e)) [
  | inl t ↦ rw t (drop_old-select now last es h.2)
  | inr t ↦
      rw t (sym (ap (λ r. e ∷ r) (select_none now es (All-weaken (λ d k. ground arith) es h.1))))
]

drop_old-Ascending :
    (now last : ℕ) (es : List ProviderEntry) → Ascending es last → Ascending (drop_old now es) last
unfolding drop_old
drop_old-Ascending now last [] h = tt
drop_old-Ascending now last (e ∷ es) h = elim (Bool-cases (is_old now e)) [
  | inl t ↦ rw t (drop_old-Ascending now last es h.2)
  | inr t ↦ rw t h
]

Ascending-mono :
    (es : List ProviderEntry) {now last : ℕ} → Ascending es now → now ≤ last → Ascending es last
Ascending-mono [] h k = tt
Ascending-mono (e ∷ es) h k = (omega (arith, h.0), h.1, Ascending-mono es h.2 k)

Ascending-append :
    (es : List ProviderEntry) (e : ProviderEntry) (last : ℕ)
    → Ascending es last
    → last ≤ e.ts
    → Ascending (es ++ (e ∷ [])) e.ts
Ascending-append [] e last h k = (omega arith, tt, tt)
Ascending-append (d ∷ es) e last h k = (
  omega (arith, h.0),
  All-append (λ x. d.ts ≤ x.ts) es (e ∷ []) h.1 (omega (arith, h.0), tt),
  Ascending-append es e last h.2 k,
)

-- What an operation does to the entries of a provider.
abbrev effect : String → Op → List ProviderEntry → List ProviderEntry
effect p (records q success time now) es =
    if str_eq q p then drop_old now (es ++ (record { ts = time; success = success } ∷ [])) else es
effect p (asks q now) es = if str_eq q p then drop_old now es else es

abbrev effects : String → List Op → List ProviderEntry → List ProviderEntry
effects p [] es = es
effects p (op ∷ ops) es = effects p ops (effect p op es)

entries_of-insert :
    (p q : String) (es : List ProviderEntry) (t : ProviderTracker)
    → entries_of p (insert q es t) ≡ (if str_eq q p then es else entries_of p t)
entries_of-insert p q es t = elim (Bool-cases (str_eq q p)) [
  | inl s ↦ ap or_empty (lookup-insert q p es t) ∙ rw s refl
  | inr s ↦ ap or_empty (lookup-insert q p es t) ∙ rw s refl
]

entries_of-prune :
    (p q : String) (now : ℕ) (t : ProviderTracker)
    → entries_of p (prune q now t)
      ≡ (if str_eq q p then drop_old now (entries_of p t) else entries_of p t)
unfolding prune
entries_of-prune p q now t = elim (Bool-cases (str_eq q p)) [
  | inl s ↦
      entries_of-insert p q (drop_old now (entries_of q t)) t
      ∙ rw s (ap (λ r. drop_old now (entries_of r t)) (str_eq-eq q p s))
  | inr s ↦ entries_of-insert p q (drop_old now (entries_of q t)) t ∙ rw s refl
]

entries_of-step :
    (p : String) (op : Op) (t : ProviderTracker)
    → entries_of p (step op t) ≡ effect p op (entries_of p t)
unfolding step record_outcome
entries_of-step p (asks q now) t = entries_of-prune p q now t
entries_of-step p (records q success time now) t =
    let e : ProviderEntry = record { ts = time; success = success } in
    let t' = insert q (entries_of q t ++ (e ∷ [])) t in
    elim (Bool-cases (str_eq q p)) [
      | inl s ↦
          entries_of-prune p q now t'
          ∙ rw s (
              ap (drop_old now) (
                entries_of-insert p q (entries_of q t ++ (e ∷ [])) t
                ∙ rw s (ap (λ r. entries_of r t ++ (e ∷ [])) (str_eq-eq q p s))))
      | inr s ↦
          entries_of-prune p q now t'
          ∙ rw s (entries_of-insert p q (entries_of q t ++ (e ∷ [])) t ∙ rw s refl)
    ]

entries_of-run :
    (p : String) (ops : List Op) (t : ProviderTracker)
    → entries_of p (run ops t) ≡ effects p ops (entries_of p t)
unfolding run
entries_of-run p [] t = refl
entries_of-run p (op ∷ ops) t =
    entries_of-run p ops (step op t) ∙ ap (effects p ops) (entries_of-step p op t)

-- The entries are in order of time, and those that are recent at any time from `last` on are
-- the recent ones of a list.
abbrev Holds : ℕ → List ProviderEntry → List ProviderEntry → Type 0
Holds last es all =
    Ascending es last
    × ((later : ℕ) → last ≤ later → select (is_recent later) es ≡ select (is_recent later) all)

Holds-mono :
    (now last : ℕ) (es all : List ProviderEntry) → Holds now es all → now ≤ last → Holds last es all
Holds-mono now last es all h k = (Ascending-mono es h.0 k, λ later l. h.1 later (omega arith))

Holds-drop :
    (now : ℕ) (es all : List ProviderEntry) → Holds now es all → Holds now (drop_old now es) all
Holds-drop now es all h =
    (drop_old-Ascending now now es h.0, λ later k. select-drop_old now later es k ∙ h.1 later k)

Holds-record :
    (e : ProviderEntry) (now now' : ℕ) (es all : List ProviderEntry)
    → Holds now es all
    → now ≤ e.ts
    → e.ts ≤ now'
    → Holds now' (drop_old now' (es ++ (e ∷ []))) (all ++ (e ∷ []))
Holds-record e now now' es all h a b = Holds-drop now' (es ++ (e ∷ [])) (all ++ (e ∷ [])) (
    Holds-mono e.ts now' (es ++ (e ∷ [])) (all ++ (e ∷ []))
      (
        Ascending-append es e now h.0 a,
        λ later k.
            select-append (is_recent later) es (e ∷ [])
            ∙ ap (λ l. l ++ select (is_recent later) (e ∷ [])) (h.1 later (omega arith))
            ∙ sym (select-append (is_recent later) all (e ∷ [])),
      )
      b)

effects-Holds :
    (p : String) (ops : List Op) (now last : ℕ) (es all : List ProviderEntry)
    → Holds now es all
    → AreOrdered now ops last
    → Holds last (effects p ops es) (all ++ outcomes p ops)
effects-Holds p [] now last es all h o = (
  Ascending-mono es h.0 o,
  λ later k. h.1 later (omega (arith, o)) ∙ ap (select (is_recent later)) (sym (append-nil all)),
)
effects-Holds p (records q success time now' ∷ ops) now last es all h o =
    let e : ProviderEntry = record { ts = time; success = success } in
    elim (Bool-cases (str_eq q p)) [
      | inl s ↦ rw s (
          subst (Holds last (effects p ops (drop_old now' (es ++ (e ∷ [])))))
            (append_assoc all (e ∷ []) (outcomes p ops))
            (effects-Holds p ops now' last (drop_old now' (es ++ (e ∷ []))) (all ++ (e ∷ []))
              (Holds-record e now now' es all h o.0 o.1) o.2))
      | inr s ↦ rw s (
          effects-Holds p ops now' last es all
            (Holds-mono now now' es all h (omega (arith, o.0, o.1))) o.2)
    ]
effects-Holds p (asks q now' ∷ ops) now last es all h o =
    let h' = Holds-mono now now' es all h o.0 in
    elim (Bool-cases (str_eq q p)) [
      | inl s ↦
          rw s
            (effects-Holds p ops now' last (drop_old now' es) all (Holds-drop now' es all h') o.1)
      | inr s ↦ rw s (effects-Holds p ops now' last es all h' o.1)
    ]

module _ {F : Type 0} (f : Floats F) where
  -- Whatever has been recorded and asked before, if the clock does not go back, then the error rate
  -- and the status of a provider are those of its outcomes of the last minute.
  pub error_rate_recent :
      (p : String) (ops : List Op) (now : ℕ)
      → AreOrdered 0 ops now
      → ((error_rate f p now (run ops new_provider_tracker)).0
          ≡ rate_of f (select (is_recent now) (outcomes p ops)))
        × ((status f p now (run ops new_provider_tracker)).0
            ≡ health_of f (rate_of f (select (is_recent now) (outcomes p ops))))
  unfolding error_rate status
  error_rate_recent p ops now o =
      let t = run ops new_provider_tracker in
      let held = effects-Holds p ops 0 now [] [] (tt, λ later k. refl) o in
      let kept : entries_of p (prune p now t) ≡ select (is_recent now) (outcomes p ops) =
        entries_of-prune p p now t
        ∙ rw (str_eq_refl p) (
            ap (drop_old now) (entries_of-run p ops new_provider_tracker)
            ∙ drop_old-select now now (effects p ops []) held.0
            ∙ held.1 now (omega arith)) in
      (ap (rate_of f) kept, ap (λ es. health_of f (rate_of f es)) kept)
