-- ===== src/Rules/Engine.antt =====
-- internal/gateway/router/engine.go: `AdvancedRouter`. Its rules are those of the last reload that
-- did not fail. Go's `rand.Intn`, `sort.Slice` and the cost calculator are parameters; `panicked`
-- stands for a panic of `rand.Intn` or of an index.
use llm_router.Common.{
  ℕ, zero, suc, ◌/◌, String, Bool, true, false, not, ◌||◌, Option, none, some, List, [], ◌∷◌,
  str_eq, ◌==◌, if◌then◌else◌, length, get_elem?, select, take,
}
use llm_router.Common.Int.{ℤ, pos, negsuc, ◌+ℤ◌, ◌-ℤ◌, ltb_ℤ}
use llm_router.Common.Sort.{SortSlice}
use llm_router.Chat.{Request}
use llm_router.Fallback.{Target, Chain}
use llm_router.Rules.{
  Strategy, direct, weighted, least_cost, failover, quality_first, unknown, RuleTarget, RouteRule,
  VirtualKey, estimate_tokens, Regex, CompiledRule, compile_rule, matches,
}

unfoldable pub expand_targets : List RuleTarget → String → List Target
expand_targets [] request_model = []
expand_targets (rt ∷ rts) request_model =
    record {
      provider = rt.provider;
      model = if str_eq rt.model "{model}" then request_model else rt.model;
      weight = rt.weight;
    }
    ∷ expand_targets rts request_model

unfoldable pub weight_sum : List Target → ℤ
weight_sum [] = pos 0
weight_sum (t ∷ ts) = t.weight +ℤ weight_sum ts

-- The loop that takes the weights off `r`; the last target if `r` stays at 0 or more.
unfoldable pub pick_target : ℤ → Option Target → List Target → Option Target
pick_target r last [] = last
pick_target r last (t ∷ ts) =
    let rest = pick_target (r -ℤ t.weight) (some t) ts in
    if ltb_ℤ (r -ℤ t.weight) (pos 0) then some t else rest

pub data Built : Type 0 where
  built : Chain → Built
  no_targets : Built
  build_panicked : Built

pub data Resolved : Type 0 where
  matched : Chain → Resolved
  no_match : Resolved
  panicked : Resolved

unfoldable pub scores : {F : Type 0} → (String → F) → List Target → List (Target × F)
scores cost [] = []
scores cost (t ∷ ts) = (t, cost t.model) ∷ scores cost ts

unfoldable pub unscored : {F : Type 0} → List (Target × F) → List Target
unscored [] = []
unscored (x ∷ xs) = x.0 ∷ unscored xs

-- What the engine takes from outside: `intn n` for n > 0, and the cost of a model at a number of
-- prompt and completion tokens, if there is a calculator.
pub record EngineHost (W : Type 0) : Type 1 where
  pub rx : Regex
  pub F : Type 0
  pub less : F → F → Bool
  pub pricing : Option (String → ℕ → ℕ → F)
  pub intn : ℕ → W → ℕ × W
  pub sort_rules : SortSlice (CompiledRule rx)
  pub sort_costs : SortSlice (Target × F)

module _ {W : Type 0} (eh : EngineHost W) where
  open eh use {rx, F, less, pricing, intn, sort_rules, sort_costs}

  -- `weightedSelect` for a sum of the weights: nothing if it panics.
  unfoldable pub select_by : ℤ → List Target → W → Option Target × W
  unfolding pick_target
  select_by (pos zero) ts w = let (i, w') = intn (length ts) w in (get_elem? ts i, w')
  select_by (pos (suc n)) ts w = let (r, w') = intn (suc n) w in (pick_target (pos r) none ts, w')
  select_by (negsuc n) ts w = (none, w)

  unfoldable pub weighted_select : List Target → W → Option Target × W
  unfolding weight_sum select_by
  weighted_select ts w = select_by (weight_sum ts) ts w

  unfoldable pub sort_by_cost : List Target → ℕ → List Target
  unfolding scores unscored
  sort_by_cost ts estimated = elim pricing [
    | none ↦ ts
    | some calculate ↦ unscored (
        sort_costs.sort (λ x y. less x.1 y.1)
          (scores (λ m. calculate m estimated (estimated / 2)) ts))
  ]

  -- The targets other than the selected one, by provider and model.
  unfoldable pub others : Target → List Target → List Target
  others s ts = select (λ t. not (str_eq t.provider s.provider) || not (str_eq t.model s.model)) ts

  unfoldable pub build_with : Strategy → String → List Target → ℕ → W → Built × W
  unfolding weighted_select sort_by_cost others
  build_with direct name ts estimated w = (built (record { name = name; targets = take 1 ts }), w)
  build_with weighted name ts estimated w =
      let (selected, w') = weighted_select ts w in
      elim selected [
        | none ↦ (build_panicked, w')
        | some s ↦ (built (record { name = name; targets = s ∷ others s ts }), w')
      ]
  build_with least_cost name ts estimated w =
      (built (record { name = name; targets = sort_by_cost ts estimated }), w)
  build_with failover name ts estimated w = (built (record { name = name; targets = ts }), w)
  build_with quality_first name ts estimated w = (built (record { name = name; targets = ts }), w)
  build_with (unknown s) name ts estimated w = (built (record { name = name; targets = ts }), w)

  unfoldable pub build_chain : {G : Type 0} → Request G → RouteRule → W → Built × W
  unfolding build_with expand_targets
  build_chain req r w =
      if length r.targets == 0
      then (no_targets, w)
      else build_with r.strategy r.name (expand_targets r.targets req.model)
          (estimate_tokens req.messages) w

  -- The loop of `Resolve`.
  unfoldable pub try_rules :
      {G : Type 0} → List (CompiledRule rx) → Option VirtualKey → Request G → W → Resolved × W
  try_rules [] vk req w = (no_match, w)
  try_rules (cr ∷ rs) vk req w = elim (matches rx cr vk req (estimate_tokens req.messages)) [
    | false ↦ try_rules rs vk req w
    | true ↦
        let (b, w') = build_chain req cr.rule w in
        elim b [
          | build_panicked ↦ (panicked, w')
          | no_targets ↦ try_rules rs vk req w'
          | built chain ↦ elim (length chain.targets == 0) [
            | true ↦ try_rules rs vk req w'
            | false ↦ (matched chain, w')
          ]
        ]
  ]

  -- The rules in use and the cache of regular expressions.
  pub record Router : Type 0 where
    pub rules : List (CompiledRule rx)
    pub cache : List (String × rx.Re)

  unfoldable pub compile_enabled :
      List RouteRule
      → List (String × rx.Re)
      → Option (List (CompiledRule rx)) × List (String × rx.Re)
  compile_enabled [] cache = (some [], cache)
  compile_enabled (r ∷ rs) cache = elim r.enabled [
    | false ↦ compile_enabled rs cache
    | true ↦
        let (c, cache₁) = compile_rule rx r cache in
        elim c [
          | none ↦ (none, cache₁)
          | some cr ↦
              let (rest, cache₂) = compile_enabled rs cache₁ in
              elim rest [ none ↦ (none, cache₂) | some crs ↦ (some (cr ∷ crs), cache₂) ]
        ]
  ]

  abbrev pub by_priority : CompiledRule rx → CompiledRule rx → Bool
  by_priority a b = ltb_ℤ b.rule.priority a.rule.priority

  -- `reload`: true if it succeeds; the rules stay on an error.
  unfoldable pub reload : List RouteRule → Router → Bool × Router
  unfolding compile_enabled
  reload rules ar =
      let (compiled, cache') = compile_enabled rules ar.cache in
      elim compiled [
        | none ↦ (false, record { rules = ar.rules; cache = cache' })
        | some crs ↦ (true, record { rules = sort_rules.sort by_priority crs; cache = cache' })
      ]

  unfoldable pub resolve_rules :
      {G : Type 0} → Router → Option VirtualKey → Request G → W → Resolved × W
  unfolding try_rules
  resolve_rules ar vk req w = try_rules ar.rules vk req w
