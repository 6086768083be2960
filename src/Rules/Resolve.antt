-- ===== src/Rules/Resolve.antt =====
-- internal/gateway/router/engine.go: `Resolve`, which answers the first rule that matches.
use llm_router.Common.{
  String, ◌≡◌, refl, ap, subst, ◌≢◌, ◌⊎◌, inl, inr, true, false, Option, List, [], ◌∷◌, ◌++◌, arith,
  ◌==◌, Bool-cases, length, All,
}
use llm_router.Chat.{Request}
use llm_router.Fallback.{Chain}
use llm_router.Rules.{RuleTarget, RouteRule, VirtualKey, estimate_tokens, CompiledRule, matches}
use llm_router.Rules.Engine.{
  expand_targets, Built, built, no_targets, build_panicked, Resolved, matched, no_match, panicked,
  EngineHost, build_chain, try_rules,
}
use llm_router.Rules.Build.{ChainOf, BuiltOf, build_with-ChainOf}

expand_targets-nonempty :
    (rts : List RuleTarget) (model : String) → rts ≢ [] → expand_targets rts model ≢ []
unfolding expand_targets
expand_targets-nonempty [] model h e = h refl
expand_targets-nonempty (r ∷ rts) model h e = cc e

Built-cases :
    (b : Built) → ((c : Chain) × (b ≡ built c)) ⊎ ((b ≡ no_targets) ⊎ (b ≡ build_panicked))
Built-cases (built c) = inl (c, refl)
Built-cases no_targets = inr (inl refl)
Built-cases build_panicked = inr (inr refl)

empty_of_length : {A : Type 0} (xs : List A) → (length xs == 0) ≡ true → xs ≡ []
empty_of_length [] h = refl
empty_of_length (x ∷ xs) h = absurd (grind arith)

nonempty_of_length : {A : Type 0} (xs : List A) → (length xs == 0) ≡ false → xs ≢ []
nonempty_of_length [] h e = cc h
nonempty_of_length (x ∷ xs) h e = cc e

module _ {W : Type 0} (eh : EngineHost W) {G : Type 0} (vk : Option VirtualKey)
    (req : Request G) where
  build_chain-ChainOf :
      (r : RouteRule) (w : W)
      → BuiltOf r.name (expand_targets r.targets req.model) (build_chain eh req r w).0
        × ((build_chain eh req r w).0 ≡ no_targets → r.targets ≡ [])
  unfolding build_chain
  build_chain-ChainOf r w =
      let ts = expand_targets r.targets req.model in
      let n = estimate_tokens req.messages in
      elim (Bool-cases (length r.targets == 0)) [
        | inl none_left ↦
            let e = empty_of_length r.targets none_left in
            rw (none_left, build_chain) (rw (e, expand_targets) refl, λ h. e)
        | inr some_left ↦
            let is = build_with-ChainOf eh r.strategy r.name ts n w in
            let full =
              expand_targets-nonempty r.targets req.model
                (nonempty_of_length r.targets some_left) in
            rw (some_left, build_chain) (is, λ h. absurd (full (subst (BuiltOf r.name ts) h is)))
      ]

  no_targets_of_empty :
      (r : RouteRule) (c : Chain)
      → ChainOf r.name (expand_targets r.targets req.model) c
      → c.targets ≡ []
      → r.targets ≡ []
  no_targets_of_empty r c of e = elim (Bool-cases (length r.targets == 0)) [
    | inl t ↦ empty_of_length r.targets t
    | inr t ↦
        absurd
          (of.full (expand_targets-nonempty r.targets req.model (nonempty_of_length r.targets t)) e)
  ]

  -- The rule does not match the request, or has no targets.
  abbrev pub Passes : CompiledRule eh.rx → Type 0
  Passes cr =
      (matches eh.rx cr vk req (estimate_tokens req.messages) ≡ false) ⊎ (cr.rule.targets ≡ [])

  -- The chain is that of the first rule in the list that matches and has targets.
  pub record FirstMatch (rules : List (CompiledRule eh.rx)) (chain : Chain) : Type 0 where
    pub before : List (CompiledRule eh.rx)
    pub rule : CompiledRule eh.rx
    pub after : List (CompiledRule eh.rx)
    pub split : rules ≡ before ++ (rule ∷ after)
    pub passed : All Passes before
    pub hit : matches eh.rx rule vk req (estimate_tokens req.messages) ≡ true
    pub chain_of : ChainOf rule.rule.name (expand_targets rule.rule.targets req.model) chain
    pub nonempty : chain.targets ≢ []

  abbrev pub ResolvedOf : List (CompiledRule eh.rx) → Resolved → Type 0
  ResolvedOf rules (matched chain) = FirstMatch rules chain
  ResolvedOf rules no_match = All Passes rules
  ResolvedOf rules panicked = Unit

  ResolvedOf-cons :
      (cr : CompiledRule eh.rx) (rs : List (CompiledRule eh.rx)) (r : Resolved)
      → Passes cr
      → ResolvedOf rs r
      → ResolvedOf (cr ∷ rs) r
  ResolvedOf-cons cr rs (matched chain) p f = record {
    before = cr ∷ f.before;
    rule = f.rule;
    after = f.after;
    split = ap (λ l. cr ∷ l) f.split;
    passed = (p, f.passed);
    hit = f.hit;
    chain_of = f.chain_of;
    nonempty = f.nonempty;
  }
  ResolvedOf-cons cr rs no_match p f = (p, f)
  ResolvedOf-cons cr rs panicked p f = tt

  pub try_rules-ResolvedOf :
      (rs : List (CompiledRule eh.rx)) (w : W) → ResolvedOf rs (try_rules eh rs vk req w).0
  unfolding try_rules
  try_rules-ResolvedOf [] w = tt
  try_rules-ResolvedOf (cr ∷ rs) w =
      elim (Bool-cases (matches eh.rx cr vk req (estimate_tokens req.messages))) [
        | inr skip ↦
            rw (skip, try_rules) (ResolvedOf-cons cr rs _ (inl skip) (try_rules-ResolvedOf rs w))
        | inl hit ↦
            let (is, none_left) = build_chain-ChainOf cr.rule w in
            rw (hit, try_rules)
              (elim (Built-cases (build_chain eh req cr.rule w).0) [
                | inl (c, e) ↦
                    let of =
                      subst (BuiltOf cr.rule.name (expand_targets cr.rule.targets req.model)) e
                        is in
                    rw e (elim (Bool-cases (length c.targets == 0)) [
                      | inr some_left ↦ rw some_left (record {
                        before = [];
                        rule = cr;
                        after = rs;
                        split = refl;
                        passed = tt;
                        hit = hit;
                        chain_of = of;
                        nonempty = nonempty_of_length c.targets some_left;
                      })
                      | inl none_left ↦ rw none_left (
                          ResolvedOf-cons cr rs _
                            (inr (
                              no_targets_of_empty cr.rule c of
                                (empty_of_length c.targets none_left)))
                            (try_rules-ResolvedOf rs _))
                    ])
                | inr (inl e) ↦
                    rw e (ResolvedOf-cons cr rs _ (inr (none_left e)) (try_rules-ResolvedOf rs _))
                | inr (inr e) ↦ rw e tt
              ])
      ]
