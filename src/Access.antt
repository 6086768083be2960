-- ===== src/Access.antt =====
-- internal/auth/rbac (role.go, permission.go, authorizer.go and middleware.go): roles, their
-- permissions and the middlewares that require them. The cache of roles in Redis is left out.
pub mod Laws
pub mod Tools
mod Tests
use llm_router.Common.{
  ℕ, String, Bool, true, false, not, ◌&&◌, ◌||◌, Option, none, some, List, [], ◌∷◌, str_eq,
  if◌then◌else◌, any,
}

pub data Permission : Type 0 where
  create_key : Permission
  read_key : Permission
  update_key : Permission
  delete_key : Permission
  manage_team : Permission
  manage_users : Permission
  read_usage : Permission
  set_budget : Permission
  manage_providers : Permission
  manage_models : Permission
  manage_system : Permission
  -- The wildcard.
  everything : Permission

unfoldable pub permission_string : Permission → String
permission_string create_key = "keys:create"
permission_string read_key = "keys:read"
permission_string update_key = "keys:update"
permission_string delete_key = "keys:delete"
permission_string manage_team = "teams:manage"
permission_string manage_users = "users:manage"
permission_string read_usage = "usage:read"
permission_string set_budget = "budget:set"
permission_string manage_providers = "providers:manage"
permission_string manage_models = "models:manage"
permission_string manage_system = "system:manage"
permission_string everything = "*"

-- `All`.
unfoldable pub all_permissions : List Permission
all_permissions =
    create_key ∷ read_key ∷ update_key ∷ delete_key ∷ manage_team ∷ manage_users ∷ read_usage
    ∷ set_budget ∷ manage_providers ∷ manage_models ∷ manage_system ∷ []

pub data Role : Type 0 where
  super_admin : Role
  org_admin : Role
  team_admin : Role
  developer : Role
  viewer : Role

unfoldable pub role_string : Role → String
role_string super_admin = "super_admin"
role_string org_admin = "org_admin"
role_string team_admin = "team_admin"
role_string developer = "developer"
role_string viewer = "viewer"

unfoldable pub default_role_permissions : Role → List Permission
default_role_permissions super_admin = everything ∷ []
default_role_permissions org_admin =
    create_key ∷ read_key ∷ update_key ∷ delete_key ∷ manage_team ∷ manage_users ∷ read_usage
    ∷ set_budget ∷ []
default_role_permissions team_admin =
    create_key ∷ read_key ∷ update_key ∷ delete_key ∷ manage_team ∷ read_usage ∷ []
default_role_permissions developer = read_key ∷ read_usage ∷ []
default_role_permissions viewer = read_usage ∷ []

-- A role that is assigned, by its name, which may be that of a custom role.
pub record UserRole : Type 0 where
  pub role : String
  pub org_id : String
  pub team_id : String
  pub permissions : List String

unfoldable pub role_has_permission : UserRole → String → Bool
role_has_permission ur p = any (λ perm. str_eq perm "*" || str_eq perm p) ur.permissions

-- The scope check of a role.
unfoldable pub out_of_scope : String → String → Bool
out_of_scope own wanted = not (str_eq own "") && not (str_eq own wanted)

unfoldable pub has_permission : List UserRole → String → String → String → Bool
unfolding role_has_permission out_of_scope
has_permission [] p org team = false
has_permission (r ∷ rs) p org team =
    let rest = has_permission rs p org team in
    if out_of_scope r.org_id org
    then rest
    else if out_of_scope r.team_id team
    then rest
    else if role_has_permission r p
    then true
    else rest

-- A request under a middleware: the status of the refusal, or the handler's answer.
pub data Guarded (R : Type 0) : Type 0 where
  refused : ℕ → Guarded R
  handled : R → Guarded R

-- `RequirePermission`, on the user in the request's context, if there is one.
unfoldable pub require_permission :
    {R : Type 0} → String → Option (List UserRole) → String → String → R → Guarded R
unfolding has_permission
require_permission perm none org team next = refused 401
require_permission perm (some roles) org team next =
    if not (has_permission roles perm org team) then refused 403 else handled next

-- `RequireRole`.
unfoldable pub require_role : {R : Type 0} → List String → Option (List UserRole) → R → Guarded R
require_role wanted none next = refused 401
require_role wanted (some roles) next =
    if any (λ ur. any (str_eq ur.role) wanted) roles then handled next else refused 403
