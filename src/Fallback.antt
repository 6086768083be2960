-- ===== src/Fallback.antt =====
-- internal/gateway/fallback: chains of targets, the router that runs a request against a chain, and
-- the load balancers that reorder it.
pub mod Balance
pub mod Router
use llm_router.Common.{String, List, [], ◌∷◌}
use llm_router.Common.Int.{ℤ, pos}

-- A provider and model in a fallback chain; weight 0 means equal weight.
pub record Target : Type 0 where
  pub provider : String
  pub model : String
  pub weight : ℤ

pub record Chain : Type 0 where
  pub name : String
  pub targets : List Target

unfoldable pub single_target : String → String → Chain
single_target provider_name model = record {
  name = provider_name;
  targets = record { provider = provider_name; model = model; weight = pos 0 } ∷ [];
}
