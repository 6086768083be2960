-- ===== src/Budget/Check.antt =====
-- internal/budget/manager.go: when a request is refused.
use llm_router.Common.{
  String, ◌≡◌, refl, inl, inr, false, Option, none, some, List, [], ◌∷◌, if◌then◌else◌, Bool-cases,
  All,
}
use llm_router.Common.Fallible.{Result, ok, err}
use llm_router.Budget.{
  Budget, BudgetHost, ListCache, Verdict, within_budget, exceeded, cached_list, current_spend,
  check_all, check_one, checked, check_budget,
}

module _ {F W : Type 0} (bh : BudgetHost F W) where
  -- The budgets with a hard limit, each with that limit and the spend that is read for it in turn.
  abbrev reading : Option F → Budget F → W → (W → List (Budget F × F × F)) → List (Budget F × F × F)
  reading none b w rest = rest w
  reading (some limit) b w rest =
      (b, limit, (current_spend bh b w).0) ∷ rest (current_spend bh b w).1

  unfoldable pub readings : List (Budget F) → W → List (Budget F × F × F)
  readings [] w = []
  readings (b ∷ bs) w = reading b.hard_limit_usd b w (readings bs)

  abbrev pub HasRoom : Budget F × F × F → Type 0
  HasRoom (b, limit, spend) = bh.at_least spend limit ≡ false

  -- The first budget whose spend has reached its hard limit.
  abbrev pub first_exceeded : List (Budget F × F × F) → Verdict F
  first_exceeded [] = within_budget
  first_exceeded ((b, limit, spend) ∷ rs) =
      if bh.at_least spend limit then exceeded spend limit b.period else first_exceeded rs

  check_one_lem :
      (o : Option F) (b : Budget F) (w : W) (rest : W → Verdict F × W)
      (rs : W → List (Budget F × F × F))
      → ((w' : W) → (rest w').0 ≡ first_exceeded (rs w'))
      → (check_one bh o b w rest).0 ≡ first_exceeded (reading o b w rs)
  check_one_lem none b w rest rs h = h w
  check_one_lem (some limit) b w rest rs h =
      elim (Bool-cases (bh.at_least (current_spend bh b w).0 limit)) [
        | inl t ↦ rw t refl
        | inr n ↦ rw n (h (current_spend bh b w).1)
      ]

  check_all_lem :
      (bs : List (Budget F)) (w : W) → (check_all bh bs w).0 ≡ first_exceeded (readings bs w)
  unfolding check_all readings
  check_all_lem [] w = refl
  check_all_lem (b ∷ bs) w =
      check_one_lem b.hard_limit_usd b w (check_all bh bs) (readings bs) (check_all_lem bs)

  abbrev pub verdict_of : Result (List (Budget F)) × ListCache F × W → Verdict F
  verdict_of (err e, m, w) = within_budget
  verdict_of (ok bs, m, w) = first_exceeded (readings bs w)

  checked_lem : (r : Result (List (Budget F)) × ListCache F × W) → (checked bh r).0 ≡ verdict_of r
  checked_lem (err e, m, w) = refl
  checked_lem (ok bs, m, w) = check_all_lem bs w

  -- `CheckBudget` refuses a request exactly if some budget of the list has a hard limit that its
  -- spend has reached, and names the first such budget's spend, limit and period; without a list,
  -- when the store fails, it lets the request through.
  pub check_budget_lem :
      (m : ListCache F) (entity_type entity_id : String) (w : W)
      → (check_budget bh m entity_type entity_id w).0
        ≡ verdict_of (cached_list bh m entity_type entity_id w)
  unfolding check_budget
  check_budget_lem m entity_type entity_id w =
      checked_lem (cached_list bh m entity_type entity_id w)

  abbrev pub HasHeadroom : Result (List (Budget F)) × ListCache F × W → Type 0
  HasHeadroom (err e, m, w) = Unit {0}
  HasHeadroom (ok bs, m, w) = All HasRoom (readings bs w)
