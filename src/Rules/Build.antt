-- ===== src/Rules/Build.antt =====
-- internal/gateway/router/engine.go: the chains that rules build.
use mathlib.Core.List.{Permᴰ}
use mathlib.Core.List.Permᴰ
use llm_router.Common.{
  ℕ, zero, suc, ◌/◌, ◌<◌, String, ◌≡◌, refl, sym, ap, subst, ◌∙◌, ◌≢◌, ◌⊎◌, inl, inr, Option, none,
  some, List, [], ◌∷◌, Memᴰ, arith, Bool-cases, Option-cases, length, get_elem?, take,
  get_elem?-drop, All, All-of_mem, mem-select,
}
use llm_router.Common.Int.{ℤ, pos, negsuc, neg_part, ◌+ℤ◌, ◌-ℤ◌, ltb_ℤ}
use llm_router.Fallback.{Target, Chain}
use llm_router.Rules.{Strategy, direct, weighted, least_cost, failover, quality_first, unknown}
use llm_router.Rules.Engine.{
  weight_sum, pick_target, Built, built, no_targets, build_panicked, scores, unscored, EngineHost,
  select_by, weighted_select, sort_by_cost, others, build_with,
}

pick_target-mem :
    (r : ℤ) (last : Option Target) (ts : List Target) (t : Target)
    → pick_target r last ts ≡ some t
    → Memᴰ t ts ⊎ (last ≡ some t)
unfolding pick_target
pick_target-mem r last [] t h = inr h
pick_target-mem r last (u ∷ ts) t h = elim (Bool-cases (ltb_ℤ (r -ℤ u.weight) (pos 0))) [
  | inl y ↦
      let e : ◌≡◌ {A = Option Target} (some u) (some t) = rw y at h in
      let s : u ≡ t = cc e in inl (Memᴰ.head (sym s))
  | inr n ↦ elim (pick_target-mem (r -ℤ u.weight) (some u) ts t (rw n at h)) [
    | inl m ↦ inl (Memᴰ.tail m)
    | inr e ↦ let s : u ≡ t = cc e in inl (Memᴰ.head (sym s))
  ]
]

pick_target-some :
    (r : ℤ) (u : Target) (ts : List Target) → (t : Target) × (pick_target r (some u) ts ≡ some t)
unfolding pick_target
pick_target-some r u [] = (u, refl)
pick_target-some r u (v ∷ ts) = elim (Bool-cases (ltb_ℤ (r -ℤ v.weight) (pos 0))) [
  | inl y ↦ (v, rw y refl)
  | inr n ↦ let (t, e) = pick_target-some (r -ℤ v.weight) v ts in (t, rw n e)
]

pick_target_first :
    (r : ℤ) (ts : List Target) → ts ≢ [] → (t : Target) × (pick_target r none ts ≡ some t)
unfolding pick_target
pick_target_first r [] h = absurd (h refl)
pick_target_first r (v ∷ ts) h = elim (Bool-cases (ltb_ℤ (r -ℤ v.weight) (pos 0))) [
  | inl y ↦ (v, rw y refl)
  | inr n ↦ let (t, e) = pick_target-some (r -ℤ v.weight) v ts in (t, rw n e)
]

get_elem?-mem : (ts : List Target) (i : ℕ) (t : Target) → get_elem? ts i ≡ some t → Memᴰ t ts
get_elem?-mem [] i t h = cc h
get_elem?-mem (u ∷ ts) zero t h = let s : u ≡ t = cc h in Memᴰ.head (sym s)
get_elem?-mem (u ∷ ts) (suc i) t h = Memᴰ.tail (get_elem?-mem ts i t h)

take-mem : (n : ℕ) (ts : List Target) {t : Target} → Memᴰ t (take n ts) → Memᴰ t ts
take-mem zero ts m = elim m [ ]
take-mem (suc n) [] m = elim m [ ]
take-mem (suc n) (u ∷ ts) (Memᴰ.head e) = Memᴰ.head e
take-mem (suc n) (u ∷ ts) (Memᴰ.tail m) = Memᴰ.tail (take-mem n ts m)

unscored-scores :
    {F : Type 0} (cost : String → F) (ts : List Target) → unscored (scores cost ts) ≡ ts
unfolding unscored scores
unscored-scores cost [] = refl
unscored-scores cost (t ∷ ts) = ap (λ l. t ∷ l) (unscored-scores cost ts)

unscored-perm :
    {F : Type 0} {xs ys : List (Target × F)} → Permᴰ xs ys → Permᴰ (unscored xs) (unscored ys)
unfolding unscored
unscored-perm Permᴰ.nil = Permᴰ.nil
unscored-perm (Permᴰ.cons e p) = Permᴰ.cons (ap (λ x. x.0) e) (unscored-perm p)
unscored-perm (Permᴰ.swap e f) = Permᴰ.swap (ap (λ x. x.0) e) (ap (λ x. x.0) f)
unscored-perm (Permᴰ.trans p q) = Permᴰ.trans (unscored-perm p) (unscored-perm q)

weight_sum_nonneg :
    (ts : List Target) → All (λ t. neg_part t.weight ≡ 0) ts → neg_part (weight_sum ts) ≡ 0
unfolding weight_sum ◌+ℤ◌
weight_sum_nonneg [] h = refl
weight_sum_nonneg (t ∷ ts) h = let rest = weight_sum_nonneg ts h.1 in let this = h.0 in ground arith

get_elem?-some :
    (ts : List Target) (i : ℕ) → i < length ts → (t : Target) × (get_elem? ts i ≡ some t)
get_elem?-some ts i h = let (t, e, r) = get_elem?-drop i ts h in (t, e)

pub perm-mem : {A : Type 0} {x : A} {xs ys : List A} → Permᴰ xs ys → Memᴰ x xs → Memᴰ x ys
perm-mem Permᴰ.nil m = m
perm-mem (Permᴰ.cons e p) (Memᴰ.head h) = Memᴰ.head (h ∙ e)
perm-mem (Permᴰ.cons e p) (Memᴰ.tail m) = Memᴰ.tail (perm-mem p m)
perm-mem (Permᴰ.swap e f) (Memᴰ.head h) = Memᴰ.tail (Memᴰ.head (h ∙ e))
perm-mem (Permᴰ.swap e f) (Memᴰ.tail (Memᴰ.head h)) = Memᴰ.head (h ∙ f)
perm-mem (Permᴰ.swap e f) (Memᴰ.tail (Memᴰ.tail m)) = Memᴰ.tail (Memᴰ.tail m)
perm-mem (Permᴰ.trans p q) m = perm-mem q (perm-mem p m)

-- Every target of the chain is one of `ts`, and there is one if `ts` has one.
pub record ChainOf (name : String) (ts : List Target) (c : Chain) : Type 0 where
  pub named : c.name ≡ name
  pub full : ts ≢ [] → c.targets ≢ []
  pub within : All (λ t. Memᴰ t ts) c.targets

abbrev pub BuiltOf : String → List Target → Built → Type 0
BuiltOf name ts (built c) = ChainOf name ts c
BuiltOf name ts no_targets = ts ≡ []
BuiltOf name ts build_panicked = Unit

take-nonempty : (ts : List Target) → ts ≢ [] → take 1 ts ≢ []
take-nonempty [] h e = h refl
take-nonempty (t ∷ ts) h e = cc e

perm-nonempty : {A : Type 0} (xs ys : List A) → Permᴰ xs ys → ys ≢ [] → xs ≢ []
perm-nonempty xs [] p h e = h refl
perm-nonempty [] (y ∷ ys) p h e = elim (perm-mem (Permᴰ.symm p) (Memᴰ.head refl)) [ ]
perm-nonempty (x ∷ xs) (y ∷ ys) p h e = cc e

module _ {W : Type 0} (eh : EngineHost W) where
  select_by-mem :
      (k : ℤ) (ts : List Target) (w : W) (t : Target) → (select_by eh k ts w).0 ≡ some t → Memᴰ t ts
  unfolding select_by
  select_by-mem (pos zero) ts w t h = get_elem?-mem ts (eh.intn (length ts) w).0 t h
  select_by-mem (pos (suc n)) ts w t h =
      elim (pick_target-mem (pos (eh.intn (suc n) w).0) none ts t h) [ inl m ↦ m | inr e ↦ cc e ]
  select_by-mem (negsuc n) ts w t h = cc h

  weighted_select-mem :
      (ts : List Target) (w : W) (t : Target) → (weighted_select eh ts w).0 ≡ some t → Memᴰ t ts
  unfolding weighted_select
  weighted_select-mem ts w = select_by-mem (weight_sum ts) ts w

  sort_by_cost-perm : (ts : List Target) (n : ℕ) → Permᴰ (sort_by_cost eh ts n) ts
  unfolding sort_by_cost
  sort_by_cost-perm ts n = elim (Option-cases eh.pricing) [
    | inl e ↦ rw e (Permᴰ.refl ts)
    | inr (calculate, e) ↦
        rw (e, sort_by_cost)
          (subst
            (λ l.
              Permᴰ
                (unscored (
                  eh.sort_costs.sort (λ x y. eh.less x.1 y.1)
                    (scores (λ m. calculate m n (n / 2)) ts)))
                l)
            (unscored-scores (λ m. calculate m n (n / 2)) ts)
            (unscored-perm (eh.sort_costs.sort-perm (λ x y. eh.less x.1 y.1) _)))
  ]

  pub build_with-ChainOf :
      (s : Strategy) (name : String) (ts : List Target) (n : ℕ) (w : W)
      → BuiltOf name ts (build_with eh s name ts n w).0
  unfolding build_with others
  build_with-ChainOf direct name ts n w = record {
    named = refl;
    full = take-nonempty ts;
    within = All-of_mem _ (take 1 ts) (λ t m. take-mem 1 ts m);
  }
  build_with-ChainOf weighted name ts n w = elim (Option-cases (weighted_select eh ts w).0) [
    | inl bad ↦ rw (bad, build_with) tt
    | inr (s, good) ↦
        rw (good, build_with)
          (record {
            named = refl;
            full = λ h e. cc e;
            within = (
              weighted_select-mem ts w s good,
              All-of_mem _ (others eh s ts) (λ t m. (mem-select _ ts m).0),
            );
          })
  ]
  build_with-ChainOf least_cost name ts n w =
      let p = sort_by_cost-perm ts n in
      record {
        named = refl;
        full = perm-nonempty (sort_by_cost eh ts n) ts p;
        within = All-of_mem _ (sort_by_cost eh ts n) (λ t m. perm-mem p m);
      }
  build_with-ChainOf failover name ts n w = record {
    named = refl;
    full = λ h. h;
    within = All-of_mem _ ts (λ t m. m);
  }
  build_with-ChainOf quality_first name ts n w = record {
    named = refl;
    full = λ h. h;
    within = All-of_mem _ ts (λ t m. m);
  }
  build_with-ChainOf (unknown s) name ts n w = record {
    named = refl;
    full = λ h. h;
    within = All-of_mem _ ts (λ t m. m);
  }

  module _ (bound : (n : ℕ) (w : W) → 0 < n → (eh.intn n w).0 < n) where
    select_by-some :
        (k : ℤ) (ts : List Target) (w : W)
        → neg_part k ≡ 0
        → ts ≢ []
        → (t : Target) × ((select_by eh k ts w).0 ≡ some t)
    unfolding select_by
    select_by-some (pos zero) [] w h full = absurd (full refl)
    select_by-some (pos zero) (u ∷ ts) w h full =
        get_elem?-some (u ∷ ts) (eh.intn (length (u ∷ ts)) w).0
          (bound (length (u ∷ ts)) w (omega arith))
    select_by-some (pos (suc n)) ts w h full = pick_target_first (pos (eh.intn (suc n) w).0) ts full
    select_by-some (negsuc n) ts w h full = absurd (omega arith)

    -- With weights of 0 or more, and `rand.Intn n` below n, the weighted choice among some targets
    -- does not panic, and answers one of them.
    pub weighted_select_chooses :
        (ts : List Target) (w : W)
        → All (λ t. neg_part t.weight ≡ 0) ts
        → ts ≢ []
        → (t : Target) × ((weighted_select eh ts w).0 ≡ some t) × Memᴰ t ts
    unfolding weighted_select
    weighted_select_chooses ts w nonneg full =
        let (t, e) = select_by-some (weight_sum ts) ts w (weight_sum_nonneg ts nonneg) full in
        (t, e, select_by-mem (weight_sum ts) ts w t e)
