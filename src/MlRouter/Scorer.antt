-- ===== src/MlRouter/Scorer.antt =====
-- internal/mlrouter/scorer.go and router.go. Prices and error rates are arguments.
use Prim.Native.String.{◌++◌ as str_append}
use llm_router.Common.{
  ℕ, ◌/◌, String, Bool, false, Option, none, some, List, [], ◌∷◌, ◌++◌, map, str_eq, ltb,
  if◌then◌else◌, length, lookup, insert,
}
use llm_router.Common.Int.{pos}
use llm_router.Common.InsertSort.{put}
use llm_router.Fallback.{Target, Chain}
use llm_router.MlRouter.Classifier.{Floats, Texts, Request, clamp, one_float, classify}

pub record Weights (F : Type 0) : Type 0 where
  pub cost : F
  pub quality : F
  pub latency : F
  pub reliability : F

pub record ModelEntry (F : Type 0) : Type 0 where
  pub provider : String
  pub model : String
  pub quality_score : F

pub record Scorer (F : Type 0) : Type 0 where
  pub weights : Weights F
  pub tiers : List (String × List (ModelEntry F))
  pub calculate : String → ℕ → ℕ → F
  pub error_rate : Option (String → F)

pub record TierConfig : Type 0 where
  pub name : String
  pub models : List (String × String)

pub data Mode : Type 0 where
  live shadow : Mode

abbrev pub Scored : Type 0 → Type 0
Scored F = ModelEntry F × F

-- The list in the order of the array: first element first.
unfoldable pub reversed : {A : Type 0} → List A → List A
reversed [] = []
reversed (x ∷ xs) = reversed xs ++ (x ∷ [])

module _ {F : Type 0} (f : Floats F) where
  unfoldable pub default_weights : Weights F
  default_weights = record {
    cost = f.ratio 3 10;
    quality = f.ratio 4 10;
    latency = f.ratio 2 10;
    reliability = f.ratio 1 10;
  }

  abbrev pub reliability_of : Option (String → F) → String → F
  reliability_of none provider = one_float f
  reliability_of (some rate) provider = f.sub (one_float f) (rate provider)

  unfoldable pub score : Scorer F → ModelEntry F → ℕ → ℕ → F
  unfolding clamp
  score s e input output =
      let cost_score =
        f.sub (one_float f) (clamp f (f.div (s.calculate e.model input output) (f.ratio 10 100))) in
      let reliability = reliability_of s.error_rate e.provider in
      clamp f (
        f.add
          (f.add (f.add (f.mul cost_score s.weights.cost) (f.mul e.quality_score s.weights.quality))
            (f.mul reliability s.weights.latency))
          (f.mul reliability s.weights.reliability))

  -- `higher a b` is `a.score > b.score`.
  abbrev pub higher : Scored F → Scored F → Bool
  higher a b = f.less b.1 a.1

  abbrev pub lower : Scored F → Scored F → Bool
  lower a b = f.less a.1 b.1

  -- The loops: the part that is sorted, last element first, in which the inner loop moves the next
  -- element to the left past all that have a lower score.
  unfoldable pub sort_scored : List (Scored F) → List (Scored F) → List (Scored F)
  sort_scored [] done = done
  sort_scored (r ∷ rs) done = sort_scored rs (put lower r done)

  abbrev pub non_empty : Option (List (ModelEntry F)) → Option (List (ModelEntry F))
  non_empty none = none
  non_empty (some []) = none
  non_empty (some (e ∷ es)) = some (e ∷ es)

  abbrev pub first_tier :
      Option (List (ModelEntry F))
      → Option (List (ModelEntry F))
      → Option (List (ModelEntry F))
      → List (ModelEntry F)
  first_tier (some es) medium economy = es
  first_tier none (some es) economy = es
  first_tier none none (some es) = es
  first_tier none none none = []

  unfoldable pub entries_of : Scorer F → String → List (ModelEntry F)
  entries_of s tier =
      first_tier (non_empty (lookup tier s.tiers)) (non_empty (lookup "medium" s.tiers))
        (non_empty (lookup "economy" s.tiers))

  abbrev pub scored : Scorer F → ℕ → ℕ → ModelEntry F → Scored F
  scored s input output e = (e, score s e input output)

  abbrev pub target_of : Scored F → Target
  target_of r = record { provider = r.0.provider; model = r.0.model; weight = pos 0 }

  unfoldable pub ranking : Scorer F → String → ℕ → ℕ → List (Scored F)
  unfolding sort_scored entries_of score reversed
  ranking s tier input output =
      reversed (sort_scored (map (scored s input output) (entries_of s tier)) [])

  unfoldable pub rank_tier : Scorer F → String → ℕ → ℕ → Chain
  unfolding ranking
  rank_tier s tier input output = record {
    name = str_append "ml-" tier;
    targets = map target_of (ranking s tier input output);
  }

  -- No chain and `false` in shadow mode.
  unfoldable pub resolve : Texts → Scorer F → Mode → Request → Chain × Bool
  unfolding classify rank_tier
  resolve x s live req =
      let features = classify f x req in
      let chain = rank_tier s features.tier features.token_estimate (features.token_estimate / 2) in
      (chain, ltb 0 (length chain.targets))
  resolve x s shadow req = (record { name = ""; targets = [] }, false)

  abbrev pub tier_score : String → F
  tier_score name =
      if str_eq name "economy"
      then f.ratio 30 100
      else if str_eq name "medium"
      then f.ratio 65 100
      else if str_eq name "premium"
      then f.ratio 100 100
      else f.ratio 5 10

  abbrev pub entry_of : F → String × String → ModelEntry F
  entry_of q m = record { provider = m.0; model = m.1; quality_score = q }

  unfoldable pub build_from :
      List TierConfig → List (String × List (ModelEntry F)) → List (String × List (ModelEntry F))
  unfolding insert
  build_from [] m = m
  build_from (t ∷ ts) m =
      build_from ts (insert t.name (map (entry_of (tier_score t.name)) t.models) m)

  unfoldable pub build_tiers : List TierConfig → List (String × List (ModelEntry F))
  unfolding build_from
  build_tiers ts = build_from ts []
