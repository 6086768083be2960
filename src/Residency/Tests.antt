-- ===== src/Residency/Tests.antt =====
-- A policy on a chain of three targets.
use llm_router.Common.{String, ◌≡◌, refl, ◌≢◌, ◌↔◌, true, false, none, [], ◌∷◌, select, All, insert}
use llm_router.Common.Int.{pos}
use llm_router.Fallback.{Target, Chain}
use llm_router.Residency.{
  ErrNoCompliantProvider, Policy, Registry, is_provider_allowed, passed, blocked, new_registry,
  filter_chain, check_provider,
}
use llm_router.Residency.Laws.{filter_chain-passed, filter_chain-blocked_iff}

abbrev gdpr : Policy
gdpr = record {
  name = "gdpr";
  allowed_providers =
      ("azure", record { name = "azure"; region = "eu" })
      ∷ ("mistral", record { name = "mistral"; region = "eu" })
      ∷ [];
  blocked_providers = ("azure", false) ∷ ("openai", true) ∷ [];
  allowed_regions = "eu" ∷ [];
}

abbrev policies : Registry
policies = ("gdpr", gdpr) ∷ []

abbrev target : String → Target
target p = record { provider = p; model = "m"; weight = pos 0 }

abbrev chain : Chain
chain = record { name = "c"; targets = target "openai" ∷ target "azure" ∷ target "gemini" ∷ [] }

abbrev abroad : Chain
abroad = record { name = "d"; targets = target "openai" ∷ target "gemini" ∷ [] }

abbrev at_home : Chain
at_home = record { name = "c"; targets = target "azure" ∷ [] }

residency_tests :
    (new_registry (gdpr ∷ []) [] ≡ policies)
    × (filter_chain policies "gdpr" chain "m" ≡ passed at_home)
    × (filter_chain policies "hipaa" chain "m" ≡ passed chain)
unfolding new_registry insert filter_chain is_provider_allowed
residency_tests = (refl, refl, refl)

filter_chain-passed_example :
    ◌≡◌ {A = String} "c" "c"
    × (at_home.targets ≡ select (λ t. is_provider_allowed gdpr t.provider) chain.targets)
    × (at_home.targets ≢ [])
    × All
        (λ t.
          (is_provider_allowed gdpr t.provider ≡ true)
          × (check_provider policies "gdpr" t.provider "m" ≡ none))
        at_home.targets
filter_chain-passed_example =
    filter_chain-passed policies "gdpr" "m" chain at_home gdpr refl residency_tests.1

filter_chain-blocked_iff_example :
    (((e : ErrNoCompliantProvider) × (filter_chain policies "gdpr" abroad "m" ≡ blocked e))
      ↔ All (λ t. is_provider_allowed gdpr t.provider ≡ false) abroad.targets)
    × ((e : ErrNoCompliantProvider)
        → filter_chain policies "gdpr" abroad "m" ≡ blocked e
        → (e.policy ≡ "gdpr") × (e.model ≡ "m") × (e.provider ≡ "openai"))
filter_chain-blocked_iff_example = filter_chain-blocked_iff policies "gdpr" "m" abroad gdpr refl
