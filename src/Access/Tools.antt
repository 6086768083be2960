-- ===== src/Access/Tools.antt =====
-- internal/mcp/policy.go: which tools of which servers a key may call. No policy is `none`.
use llm_router.Common.{
  ℕ, zero, suc, String, Bool, true, false, not, ◌&&◌, Option, none, some, List, str_eq, ltb, ◌==◌,
  if◌then◌else◌, length, any,
}
use llm_router.Common.Int.{ℤ, pos, negsuc}

pub record ToolPolicy : Type 0 where
  pub allowed_servers : List String
  pub allowed_tools : List String
  pub blocked_tools : List String
  pub require_approval : List String
  pub max_result_size : ℤ

unfoldable pub size_or_default : ℤ → ℕ
size_or_default (pos zero) = 1_048_576
size_or_default (pos (suc n)) = suc n
size_or_default (negsuc n) = 1_048_576

unfoldable pub effective_max_result_size : Option ToolPolicy → ℕ
unfolding size_or_default
effective_max_result_size none = 1_048_576
effective_max_result_size (some p) = size_or_default p.max_result_size

-- `slices.Contains`.
abbrev pub contains : List String → String → Bool
contains xs x = any (λ y. str_eq y x) xs

unfoldable pub can_access_server : Option ToolPolicy → String → Bool
can_access_server none server = true
can_access_server (some p) server =
    if length p.allowed_servers == 0 then true else contains p.allowed_servers server

unfoldable pub can_call_tool : Option ToolPolicy → String → String → Bool
unfolding can_access_server
can_call_tool p server tool = if not (can_access_server p server) then false else elim p [
  | none ↦ true
  | some q ↦
      if contains q.blocked_tools tool
      then false
      else if ltb 0 (length q.allowed_tools) && not (contains q.allowed_tools tool)
      then false
      else true
]

unfoldable pub needs_approval : Option ToolPolicy → String → Bool
needs_approval none tool = false
needs_approval (some p) tool = contains p.require_approval tool
