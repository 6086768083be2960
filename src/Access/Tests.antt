-- ===== src/Access/Tests.antt =====
-- An administrator of one organisation, and a policy on the tools of one server.
use llm_router.Common.{
  ℕ, String, ◌≡◌, refl, ◌↔◌, true, false, none, some, List, [], ◌∷◌, map, length,
}
use llm_router.Common.Int.{pos}
use llm_router.Access.{
  UserRole, org_admin, role_string, default_role_permissions, permission_string, all_permissions,
  require_permission, require_role, handled, refused,
}
use llm_router.Access.Tools.{ToolPolicy, can_call_tool, needs_approval, effective_max_result_size}
use llm_router.Access.Laws.{Grant, require_permission_iff}

abbrev admin : UserRole
admin = record {
  role = role_string org_admin;
  org_id = "acme";
  team_id = "";
  permissions = map permission_string (default_role_permissions org_admin);
}

abbrev done : String
done = "done"

access_tests :
    (require_permission "budget:set" (some (admin ∷ [])) "acme" "t1" done ≡ handled done)
    × (require_permission "budget:set" (some (admin ∷ [])) "other" "t1" done ≡ refused 403)
    × (require_permission "system:manage" (some (admin ∷ [])) "acme" "" done ≡ refused 403)
    × (require_permission "budget:set" none "acme" "" done ≡ refused 401)
    × (require_role ("viewer" ∷ "org_admin" ∷ []) (some (admin ∷ [])) done ≡ handled done)
    × (length all_permissions ≡ 11)
unfolding require_permission require_role role_string default_role_permissions permission_string
    all_permissions
access_tests = (refl, refl, refl, refl, refl, refl)

require_permission_iff_example :
    (require_permission "budget:set" (some (admin ∷ [])) "acme" "t1" done ≡ handled done) ↔ (
      (roles : List UserRole) × (some (admin ∷ []) ≡ some roles)
      × Grant roles "budget:set" "acme" "t1")
require_permission_iff_example =
    require_permission_iff "budget:set" "acme" "t1" (some (admin ∷ [])) done

abbrev files_only : ToolPolicy
files_only = record {
  allowed_servers = "files" ∷ [];
  allowed_tools = [];
  blocked_tools = "delete" ∷ [];
  require_approval = "write" ∷ [];
  max_result_size = pos 0;
}

tools_tests :
    (can_call_tool (some files_only) "files" "read" ≡ true)
    × (can_call_tool (some files_only) "files" "delete" ≡ false)
    × (can_call_tool (some files_only) "mail" "read" ≡ false)
    × (needs_approval (some files_only) "write" ≡ true)
    × (◌≡◌ {A = ℕ} (effective_max_result_size (some files_only)) 1_048_576)
unfolding can_call_tool needs_approval effective_max_result_size
tools_tests = (refl, refl, refl, refl, refl)
