-- ===== src/Rules/Tests.antt =====
-- Rules on requests for Gemini models; a regular expression stands for the text that it is, and
-- `intn n` answers n - 1.
use llm_router.Common.{
  ℕ, ◌+◌, ◌-◌, ◌<◌, String, ◌≡◌, refl, subst, ◌≢◌, ◌↔◌, inl, inr, true, false, Option, none, some,
  List, [], ◌∷◌, Memᴰ, arith, str_eq, ltb, if◌then◌else◌, Bool-cases, str_eq-eq, insert,
}
use llm_router.Common.Int.{pos, ◌+ℤ◌, ◌-ℤ◌, ltb_ℤ}
use llm_router.Common.InsertSort.{by_insertion}
use llm_router.Chat.{Request}
use llm_router.Fallback.{Target}
use llm_router.Rules.{
  Strategy, direct, weighted, failover, RouteMatch, RouteRule, Regex, CompiledRule, VirtualKey,
  matches, compile_rule, estimate_tokens,
}
use llm_router.Rules.Match.{matches_iff, Applies}
use llm_router.Rules.Cache.{IsValid}
use llm_router.Rules.Engine.{
  EngineHost, Router, expand_targets, reload, resolve_rules, matched, build_chain,
}
use llm_router.Rules.Build.{ChainOf}
use llm_router.Rules.Resolve.{Passes}
use llm_router.Rules.Reload.{Loaded, reload-Loaded, reload-resolve}

abbrev literals : Regex
literals = record {
  Re = String;
  compile = λ s. if str_eq s "(" then none else some s;
  match_string = λ re s. str_eq re s;
}

abbrev engine : EngineHost ℕ
engine = record {
  rx = literals;
  F = ℕ;
  less = ltb;
  pricing = none;
  intn = λ n w. (n - 1, w + 1);
  sort_rules = by_insertion;
  sort_costs = by_insertion;
}

abbrev anything : RouteMatch
anything = record {
  model = "";
  model_prefix = "";
  model_regex = "";
  key_id = none;
  user_id = none;
  team_id = none;
  org_id = none;
  metadata = [];
  min_context_tokens = pos 0;
  max_context_tokens = pos 0;
  has_tools = false;
}

abbrev rule : String → ℕ → RouteMatch → Strategy → RouteRule
rule n p m s = record {
  name = n;
  priority = pos p;
  enabled = true;
  conditions = m;
  strategy = s;
  targets =
      record { provider = "gemini"; model = "{model}"; weight = pos 3 }
      ∷ record { provider = "azure"; model = "large"; weight = pos 1 }
      ∷ [];
}

abbrev exact : RouteMatch
exact = record anything { model_regex = "pro"; key_id = some 7 }

abbrev rules : List RouteRule
rules =
    rule "low" 1 anything failover
    ∷ rule "high" 9 exact direct
    ∷ rule "middle" 5 (record anything { model = "flash" }) weighted
    ∷ []

abbrev empty : Router engine
empty = record { rules = []; cache = [] }

abbrev request : String → Request ℕ
request name = record {
  model = name;
  messages = record { role = "user"; content = "hello" } ∷ [];
  temperature = none;
  max_tokens = none;
  stream = false;
  tools = 0;
  metadata = [];
}

abbrev key : Option VirtualKey
key = some (record { id = 7; user_id = none; team_id = none; org_id = none })

abbrev target : String → String → ℕ → Target
target p m n = record { provider = p; model = m; weight = pos n }

resolve_tests :
    ((resolve_rules engine (reload engine rules empty).1 key (request "pro") 0).0
      ≡ matched (record { name = "high"; targets = target "gemini" "pro" 3 ∷ [] }))
    × ((resolve_rules engine (reload engine rules empty).1 none (request "pro") 0).0
        ≡ matched (record {
          name = "low";
          targets = target "gemini" "pro" 3 ∷ target "azure" "large" 1 ∷ [];
        }))
    × ((resolve_rules engine (reload engine rules empty).1 none (request "flash") 0).0
        ≡ matched (record {
          name = "middle";
          targets = target "azure" "large" 1 ∷ target "gemini" "flash" 3 ∷ [];
        }))
unfolding resolve_rules reload insert compile_rule matches build_chain ◌+ℤ◌ ◌-ℤ◌
resolve_tests = (refl, refl, refl)

abbrev compiled_exact : CompiledRule literals
compiled_exact = record { rule = rule "high" 9 exact direct; compiled_regex = some "pro" }

matches_iff_example :
    (matches literals compiled_exact key (request "pro") 1 ≡ true)
    ↔ Applies literals compiled_exact key (request "pro") 1
matches_iff_example = matches_iff literals compiled_exact key (request "pro") 1

abbrev cache : List (String × String)
cache = ("pro", "pro") ∷ []

cache-IsValid : IsValid literals cache
cache-IsValid p re h = elim (Bool-cases (str_eq "pro" p)) [
  | inl t ↦
      let e : ◌≡◌ {A = Option String} (some "pro") (some re) = rw t at h in
      let same : "pro" ≡ p = str_eq-eq "pro" p t in subst (λ x. literals.compile x ≡ some re) same e
  | inr t ↦ cc (rw t at h)
]

empty-IsValid : IsValid literals []
empty-IsValid p re h = cc h

below : (n w : ℕ) → 0 < n → (engine.intn n w).0 < n
below n w h = omega arith

reload-Loaded_example :
    IsValid literals (reload engine rules empty).1.cache
    × ((reload engine rules empty).0 ≡ true
        → Loaded engine rules (reload engine rules empty).1.rules)
    × ((reload engine rules empty).0 ≡ false → (reload engine rules empty).1.rules ≡ [])
reload-Loaded_example = reload-Loaded engine rules empty empty-IsValid

reload-resolve_example :
    (cr : CompiledRule literals) × Memᴰ cr (reload engine rules empty).1.rules
    × (matches literals cr key (request "pro") (estimate_tokens (request "pro").messages) ≡ true)
    × ChainOf cr.rule.name
        (expand_targets cr.rule.targets "pro")
        (record { name = "high"; targets = target "gemini" "pro" 3 ∷ [] })
    × (◌≢◌ {A = List Target} (target "gemini" "pro" 3 ∷ []) [])
    × ((c : CompiledRule literals)
        → Memᴰ c (reload engine rules empty).1.rules
        → ltb_ℤ cr.rule.priority c.rule.priority ≡ true
        → Passes engine key (request "pro") c)
unfolding resolve_rules reload insert compile_rule matches build_chain
reload-resolve_example =
    reload-resolve engine rules empty key (request "pro") 0
      (record { name = "high"; targets = target "gemini" "pro" 3 ∷ [] }) empty-IsValid refl refl
