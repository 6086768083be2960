-- ===== src/Rules/Reload.antt =====
-- internal/gateway/router/engine.go: `reload`, and requests after it.
use mathlib.Core.List.{Permᴰ}
use llm_router.Common.{
  String, ◌≡◌, refl, sym, ap, subst, ◌∙◌, ◌≢◌, ◌⊎◌, inl, inr, Bool, true, false, Option, some, List,
  [], ◌∷◌, ◌++◌, map, Memᴰ, arith, if◌then◌else◌, Bool-cases, Option-cases, select, All, All-mem,
}
use llm_router.Common.Int.{ℤ, ltb_ℤ}
use llm_router.Common.Sort.{IsWeakOrder, IsSorted}
use llm_router.Chat.{Request}
use llm_router.Fallback.{Chain}
use llm_router.Rules.{RouteRule, VirtualKey, CompiledRule, compile_rule, matches, estimate_tokens}
use llm_router.Rules.Cache.{IsValid, IsCompiled, compile_rule-IsCompiled}
use llm_router.Rules.Engine.{
  expand_targets, matched, EngineHost, Router, compile_enabled, by_priority, reload, resolve_rules,
}
use llm_router.Rules.Build.{ChainOf}
use llm_router.Rules.Resolve.{Passes, FirstMatch, ResolvedOf, try_rules-ResolvedOf}

less_priority-IsWeakOrder : IsWeakOrder {A = ℤ} (λ a b. ltb_ℤ b a)
less_priority-IsWeakOrder = record {
  irrefl = λ x. ground arith;
  trans = λ x y z h k. ground arith;
  asym = λ x y h. ground arith;
}

sorted_after :
    {A : Type 0} (less : A → A → Bool) (before : List A) (x : A) (after : List A)
    → IsSorted less (before ++ (x ∷ after))
    → All (λ y. less y x ≡ false) after
sorted_after less [] x after h = h.0
sorted_after less (b ∷ before) x after h = sorted_after less before x after h.1

mem_split :
    {A : Type 0} (before : List A) (x : A) (after : List A) {y : A}
    → Memᴰ y (before ++ (x ∷ after))
    → Memᴰ y before ⊎ ((y ≡ x) ⊎ Memᴰ y after)
mem_split [] x after (Memᴰ.head e) = inr (inl e)
mem_split [] x after (Memᴰ.tail m) = inr (inr m)
mem_split (b ∷ before) x after (Memᴰ.head e) = inl (Memᴰ.head e)
mem_split (b ∷ before) x after (Memᴰ.tail m) = elim (mem_split before x after m) [
  | inl n ↦ inl (Memᴰ.tail n)
  | inr n ↦ inr n
]

mem_middle :
    {A : Type 0} (before : List A) (x : A) (after : List A) → Memᴰ x (before ++ (x ∷ after))
mem_middle [] x after = Memᴰ.head refl
mem_middle (b ∷ before) x after = Memᴰ.tail (mem_middle before x after)

module _ {W : Type 0} (eh : EngineHost W) where
  open eh use {rx}

  abbrev on_rules : List RouteRule → List RouteRule
  on_rules rules = select (λ r. r.enabled) rules

  -- The rules that are compiled, each of one enabled rule, in their order.
  abbrev Compiles : List RouteRule → List (CompiledRule rx) → Type 0
  Compiles enabled crs = (map (λ c. c.rule) crs ≡ enabled) × All (IsCompiled rx) crs

  on_rules-on :
      (r : RouteRule) (rs : List RouteRule) → r.enabled ≡ true → on_rules (r ∷ rs) ≡ r ∷ on_rules rs
  on_rules-on r rs e = ap (λ b. if b then r ∷ on_rules rs else on_rules rs) e

  on_rules-off :
      (r : RouteRule) (rs : List RouteRule) → r.enabled ≡ false → on_rules (r ∷ rs) ≡ on_rules rs
  on_rules-off r rs e = ap (λ b. if b then r ∷ on_rules rs else on_rules rs) e

  Compiles-cons :
      (r : RouteRule) (cr : CompiledRule rx) (enabled : List RouteRule)
      (crs : List (CompiledRule rx))
      → (cr.rule ≡ r) × IsCompiled rx cr
      → Compiles enabled crs
      → Compiles (r ∷ enabled) (cr ∷ crs)
  Compiles-cons r cr enabled crs (same, is) (names, all) =
      (ap (λ x. x ∷ map (λ c. c.rule) crs) same ∙ ap (λ l. r ∷ l) names, (is, all))

  compile_enabled-Compiles :
      (rules : List RouteRule) (cache : List (String × rx.Re)) (enabled : List RouteRule)
      → on_rules rules ≡ enabled
      → IsValid rx cache
      → IsValid rx (compile_enabled eh rules cache).1
        × ((crs : List (CompiledRule rx))
            → (compile_enabled eh rules cache).0 ≡ some crs
            → Compiles enabled crs)
  unfolding compile_enabled
  compile_enabled-Compiles [] cache enabled same valid =
      (valid, λ crs h. let e : [] ≡ crs = cc h in subst (Compiles enabled) e (same, tt))
  compile_enabled-Compiles (r ∷ rules) cache enabled same valid = elim (Bool-cases r.enabled) [
    | inr off ↦
        let same' = sym (on_rules-off r rules off) ∙ same in
        rw (off, compile_enabled) (compile_enabled-Compiles rules cache enabled same' valid)
    | inl on ↦
        let same' = sym (on_rules-on r rules on) ∙ same in
        let (valid₁, compiled) = compile_rule-IsCompiled rx r cache valid in
        rw (on, compile_enabled)
          (elim (Option-cases (compile_rule rx r cache).0) [
            | inl bad ↦ rw bad (valid₁, λ crs h. cc h)
            | inr (cr, good) ↦
                let cache₁ = (compile_rule rx r cache).1 in
                let (valid₂, rest) =
                  compile_enabled-Compiles rules cache₁ (on_rules rules) refl valid₁ in
                rw good (elim (Option-cases (compile_enabled eh rules cache₁).0) [
                  | inl bad ↦ rw bad (valid₂, λ crs h. cc h)
                  | inr (crs', good') ↦
                      let both =
                        Compiles-cons r cr (on_rules rules) crs' (compiled cr good)
                          (rest crs' good') in
                      rw good' (
                        valid₂,
                        λ crs h.
                            let e : cr ∷ crs' ≡ crs = cc h in
                            subst (Compiles enabled) e
                              (subst (λ l. Compiles l (cr ∷ crs')) same' both),
                      )
                ])
          ])
  ]

  by_priority-IsWeakOrder : IsWeakOrder (by_priority eh)
  by_priority-IsWeakOrder = record {
    irrefl = λ x. less_priority-IsWeakOrder.irrefl x.rule.priority;
    trans =
        λ x y z. less_priority-IsWeakOrder.trans x.rule.priority y.rule.priority z.rule.priority;
    asym = λ x y. less_priority-IsWeakOrder.asym x.rule.priority y.rule.priority;
  }

  -- The rules of a router after a reload of `rules` that succeeds.
  pub record Loaded (rules : List RouteRule) (crs : List (CompiledRule rx)) : Type 0 where
    pub compiled : List (CompiledRule rx)
    pub same : map (λ c. c.rule) compiled ≡ select (λ r. r.enabled) rules
    pub all : All (IsCompiled rx) compiled
    pub perm : Permᴰ crs compiled
    pub sorted : IsSorted (λ a b. ltb_ℤ b.rule.priority a.rule.priority) crs

  -- A reload keeps the cache valid. If it succeeds, the router has exactly the enabled rules, each
  -- with what its pattern compiles to, from the highest priority to the lowest; if it fails, the
  -- router's rules stay.
  pub reload-Loaded :
      (rules : List RouteRule) (ar : Router eh)
      → IsValid rx ar.cache
      → IsValid rx (reload eh rules ar).1.cache
        × ((reload eh rules ar).0 ≡ true → Loaded rules (reload eh rules ar).1.rules)
        × ((reload eh rules ar).0 ≡ false → (reload eh rules ar).1.rules ≡ ar.rules)
  unfolding reload
  reload-Loaded rules ar valid =
      let (valid', done) = compile_enabled-Compiles rules ar.cache (on_rules rules) refl valid in
      elim (Option-cases (compile_enabled eh rules ar.cache).0) [
        | inl bad ↦ rw (bad, reload) (valid', (λ h. cc h), (λ h. refl))
        | inr (crs, good) ↦
            rw (good, reload)
              (
                valid',
                (λ h. record {
                  compiled = crs;
                  same = (done crs good).0;
                  all = (done crs good).1;
                  perm = eh.sort_rules.sort-perm (by_priority eh) crs;
                  sorted = eh.sort_rules.sort-IsSorted (by_priority eh) by_priority-IsWeakOrder crs;
                }),
                (λ h. cc h),
              )
      ]

  -- After a reload that succeeds, the chain that a request is resolved to is built from a loaded
  -- rule that matches it, has the rule's name and some of the rule's targets, and every loaded rule
  -- of a higher priority does not match or has no targets.
  pub reload-resolve :
      {G : Type 0} (rules : List RouteRule) (ar : Router eh) (vk : Option VirtualKey)
      (req : Request G) (w : W) (chain : Chain)
      → IsValid rx ar.cache
      → (reload eh rules ar).0 ≡ true
      → (resolve_rules eh (reload eh rules ar).1 vk req w).0 ≡ matched chain
      → (cr : CompiledRule rx) × Memᴰ cr (reload eh rules ar).1.rules
        × (matches rx cr vk req (estimate_tokens req.messages) ≡ true)
        × ChainOf cr.rule.name (expand_targets cr.rule.targets req.model) chain
        × (chain.targets ≢ [])
        × ((c : CompiledRule rx)
            → Memᴰ c (reload eh rules ar).1.rules
            → ltb_ℤ cr.rule.priority c.rule.priority ≡ true
            → Passes eh vk req c)
  unfolding resolve_rules
  reload-resolve rules ar vk req w chain valid ok found =
      let loaded = (reload-Loaded rules ar valid).1 ok in
      let first : FirstMatch eh vk req (reload eh rules ar).1.rules chain =
        subst (ResolvedOf eh vk req (reload eh rules ar).1.rules) found
          (try_rules-ResolvedOf eh vk req (reload eh rules ar).1.rules w) in
      let behind =
        sorted_after (by_priority eh) first.before first.rule first.after
          (subst (IsSorted (by_priority eh)) first.split loaded.sorted) in
      (
        first.rule,
        subst (Memᴰ first.rule) (sym first.split) (mem_middle first.before first.rule first.after),
        first.hit,
        first.chain_of,
        first.nonempty,
        λ c m higher.
            elim (mem_split first.before first.rule first.after (subst (Memᴰ c) first.split m)) [
              | inl early ↦ All-mem _ first.passed early
              | inr (inl e) ↦ absurd (
                  cc (
                    subst (λ x. by_priority eh x first.rule ≡ true) e higher,
                    by_priority-IsWeakOrder.irrefl first.rule,
                  ))
              | inr (inr late) ↦ absurd (cc (higher, All-mem _ behind late))
            ],
      )
