-- ===== src/Residency.antt =====
-- internal/residency/policy.go and enforcer.go: policies on the providers that may be used, and the
-- filter that they put on a fallback chain. Policies are looked up by name, the last one of a name
-- being kept. The regions of a policy are informational and are carried along.
pub mod Laws
mod Tests
use llm_router.Common.{
  String, Bool, true, false, Option, none, some, List, [], ◌∷◌, ◌==◌, if◌then◌else◌, length, select,
  lookup, insert,
}
use llm_router.Fallback.{Target, Chain}

pub record ProviderConstraint : Type 0 where
  pub name : String
  pub region : String

pub record Policy : Type 0 where
  pub name : String
  pub allowed_providers : List (String × ProviderConstraint)
  pub blocked_providers : List (String × Bool)
  pub allowed_regions : List String

-- `p.BlockedProviders[providerName]`, false on a missing key.
abbrev pub flag : Option Bool → Bool
flag none = false
flag (some b) = b

abbrev pub is_some : {A : Type 0} → Option A → Bool
is_some none = false
is_some (some a) = true

unfoldable pub is_provider_allowed : Policy → String → Bool
is_provider_allowed p provider_name =
    if flag (lookup provider_name p.blocked_providers)
    then false
    else if length p.allowed_providers == 0
    then true
    else is_some (lookup provider_name p.allowed_providers)

abbrev pub Registry : Type 0
Registry = List (String × Policy)

unfoldable pub new_registry : List Policy → Registry → Registry
new_registry [] m = m
new_registry (p ∷ ps) m = new_registry ps (insert p.name p m)

pub record ErrNoCompliantProvider : Type 0 where
  pub policy : String
  pub provider : String
  pub model : String

pub data Filtered : Type 0 where
  passed : Chain → Filtered
  blocked : ErrNoCompliantProvider → Filtered

-- The provider of the first target, "" if there is none.
abbrev pub primary : List Target → String
primary [] = ""
primary (t ∷ ts) = t.provider

unfoldable pub filter_targets : Policy → List Target → List Target
filter_targets p ts = select (λ t. is_provider_allowed p t.provider) ts

-- The chain of the targets that are left, or the error if none is.
unfoldable pub finish : String → Chain → String → List Target → Filtered
finish policy_name chain model [] =
    blocked (record { policy = policy_name; provider = primary chain.targets; model = model })
finish policy_name chain model (t ∷ ts) = passed (record { name = chain.name; targets = t ∷ ts })

unfoldable pub filter_chain : Registry → String → Chain → String → Filtered
unfolding filter_targets finish
filter_chain registry policy_name chain model = elim (lookup policy_name registry) [
  | none ↦ passed chain
  | some policy ↦ finish policy_name chain model (filter_targets policy chain.targets)
]

unfoldable pub check_provider : Registry → String → String → String → Option ErrNoCompliantProvider
check_provider registry policy_name provider_name model = elim (lookup policy_name registry) [
  | none ↦ none
  | some policy ↦
      if is_provider_allowed policy provider_name
      then none
      else some (record { policy = policy_name; provider = provider_name; model = model })
]
