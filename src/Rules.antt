-- ===== src/Rules.antt =====
-- internal/gateway/types/routing.go and internal/gateway/router/matcher.go: routing rules, the cache
-- of compiled regular expressions, and the test of a rule against a request. A uuid is a number.
-- The regular expressions are the parameter `Regex`; locks are left out, as in one request.
pub mod Engine
pub mod Cache
pub mod Match
pub mod Build
pub mod Resolve
pub mod Reload
mod Tests
use Prim.Native.String.{len}
use text.Mathlib.Text.{starts_with}
use llm_router.Common.{
  ℕ, ◌+◌, ◌/◌, String, Bool, true, false, not, ◌&&◌, ◌||◌, Option, none, some, List, [], ◌∷◌,
  str_eq, ltb, ◌==◌, if◌then◌else◌, length, lookup, insert,
}
use llm_router.Common.Int.{ℤ, pos, ltb_ℤ}
use llm_router.Chat.{Request, Message}

pub data Strategy : Type 0 where
  direct : Strategy
  weighted : Strategy
  least_cost : Strategy
  failover : Strategy
  quality_first : Strategy
  -- A text that names none of them.
  unknown : String → Strategy

pub record RuleTarget : Type 0 where
  pub provider : String
  pub model : String
  pub weight : ℤ

pub record RouteMatch : Type 0 where
  pub model : String
  pub model_prefix : String
  pub model_regex : String
  pub key_id : Option ℕ
  pub user_id : Option ℕ
  pub team_id : Option ℕ
  pub org_id : Option ℕ
  pub metadata : List (String × String)
  pub min_context_tokens : ℤ
  pub max_context_tokens : ℤ
  pub has_tools : Bool

pub record RouteRule : Type 0 where
  pub name : String
  pub priority : ℤ
  pub enabled : Bool
  pub conditions : RouteMatch
  pub strategy : Strategy
  pub targets : List RuleTarget

-- The fields of `auth.VirtualKey` that rules read.
pub record VirtualKey : Type 0 where
  pub id : ℕ
  pub user_id : Option ℕ
  pub team_id : Option ℕ
  pub org_id : Option ℕ

-- `estimateTokens`.
unfoldable pub estimate_tokens : List Message → ℕ
estimate_tokens [] = 0
estimate_tokens (m ∷ ms) = len m.content / 4 + estimate_tokens ms

-- `want != nil && have != *want`.
unfoldable pub id_differs : Option ℕ → ℕ → Bool
id_differs none n = false
id_differs (some k) n = not (n == k)

-- `want != nil && (have == nil || *have != *want)`.
unfoldable pub optional_differs : Option ℕ → Option ℕ → Bool
optional_differs none n = false
optional_differs (some k) none = true
optional_differs (some k) (some n) = not (n == k)

abbrev pub is_set : Option ℕ → Bool
is_set none = false
is_set (some n) = true

-- `req.Metadata[k]`, "" on a missing key.
abbrev pub value_or_empty : Option String → String
value_or_empty none = ""
value_or_empty (some v) = v

-- The loop over the rule's metadata.
unfoldable pub metadata_agrees : List (String × String) → List (String × String) → Bool
metadata_agrees [] have = true
metadata_agrees ((k, v) ∷ want) have =
    let rest = metadata_agrees want have in
    if not (str_eq (value_or_empty (lookup k have)) v) then false else rest

-- Go's regexp package: `compile` answers nothing on an error.
pub record Regex : Type 1 where
  pub Re : Type 0
  pub compile : String → Option Re
  pub match_string : Re → String → Bool

module _ (rx : Regex) where
  open rx use {Re, compile, match_string}

  pub record CompiledRule : Type 0 where
    pub rule : RouteRule
    pub compiled_regex : Option Re

  -- `regexCache.compile`: an error leaves the cache as it is.
  unfoldable pub cached_compile : String → List (String × Re) → Option Re × List (String × Re)
  cached_compile pattern cache = elim (lookup pattern cache) [
    | some r ↦ (some r, cache)
    | none ↦ elim (compile pattern) [
      | none ↦ (none, cache)
      | some r ↦ (some r, insert pattern r cache)
    ]
  ]

  -- `compileRule`; nothing on an error.
  unfoldable pub compile_rule :
      RouteRule → List (String × Re) → Option CompiledRule × List (String × Re)
  unfolding cached_compile
  compile_rule r cache =
      if not (str_eq r.conditions.model_regex "")
      then (let (compiled, cache') = cached_compile r.conditions.model_regex cache in
          elim compiled [
            | none ↦ (none, cache')
            | some re ↦ (some (record { rule = r; compiled_regex = some re }), cache')
          ])
      else (some (record { rule = r; compiled_regex = none }), cache)

  -- `cr.compiledRegex != nil && !cr.compiledRegex.MatchString(model)`.
  unfoldable pub regex_fails : Option Re → String → Bool
  regex_fails none model = false
  regex_fails (some re) model = not (match_string re model)

  -- The part of `Matches` on the authenticated key.
  unfoldable pub key_matches : RouteMatch → Option VirtualKey → Bool
  unfolding id_differs optional_differs
  key_matches m (some vk) =
      if id_differs m.key_id vk.id
      then false
      else if optional_differs m.user_id vk.user_id
      then false
      else if optional_differs m.team_id vk.team_id
      then false
      else if optional_differs m.org_id vk.org_id
      then false
      else true
  key_matches m none =
      if is_set m.key_id || is_set m.user_id || is_set m.team_id || is_set m.org_id
      then false
      else true

  -- The part of `Matches` on the metadata.
  unfoldable pub metadata_matches : RouteMatch → List (String × String) → Bool
  unfolding metadata_agrees
  metadata_matches m have =
      if ltb 0 (length m.metadata)
      then (if length have == 0 then false else metadata_agrees m.metadata have)
      else true

  unfoldable pub matches : {F : Type 0} → CompiledRule → Option VirtualKey → Request F → ℕ → Bool
  unfolding regex_fails key_matches metadata_matches
  matches cr vk req estimated =
      let m = cr.rule.conditions in
      if not (str_eq m.model "") && not (str_eq req.model m.model)
      then false
      else if not (str_eq m.model_prefix "") && not (starts_with req.model m.model_prefix)
      then false
      else if regex_fails cr.compiled_regex req.model
      then false
      else if not (key_matches m vk)
      then false
      else if not (metadata_matches m req.metadata)
      then false
      else if ltb_ℤ (pos 0) m.min_context_tokens && ltb_ℤ (pos estimated) m.min_context_tokens
      then false
      else if ltb_ℤ (pos 0) m.max_context_tokens && ltb_ℤ m.max_context_tokens (pos estimated)
      then false
      else if m.has_tools && req.tools == 0
      then false
      else true
