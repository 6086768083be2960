-- ===== src/Budget.antt =====
-- internal/budget/manager.go and internal/gateway/middleware/budget_check.go. Amounts are of an
-- abstract type, as they are floats; the store, the cache of spends, the clock and the price
-- calculation are arguments. Times are nanoseconds. Warnings and log lines are left out; the spends
-- that the middleware records in a goroutine are recorded after the response.
use Prim.Native.String.{◌++◌ as str_append}
use llm_router.Common.{
  ℕ, ◌+◌, String, Bool, true, false, Option, none, some, List, [], ◌∷◌, ltb, if◌then◌else◌, lookup,
  insert, delete,
}
use llm_router.Common.Fallible.{Result, ok, err}
pub mod Check
pub mod Lists
mod Tests

pub record Budget (F : Type 0) : Type 0 where
  pub entity_type : String
  pub entity_id : String
  pub period : String
  pub soft_limit_usd : Option F
  pub hard_limit_usd : Option F
  pub current_spend : F
  pub period_start : ℕ
  pub period_end : ℕ

-- The parts of the interfaces `Store` and `Cache` that the manager uses; `is_zero c` is `c == 0` and
-- `at_least a b` is `a >= b`. Writes return whether they succeed.
pub record BudgetHost (F W : Type 0) : Type 0 where
  pub is_zero : F → Bool
  pub at_least : F → F → Bool
  pub now : W → ℕ
  pub list : String → String → W → Result (List (Budget F)) × W
  pub add_spend : String → String → String → F → W → Bool × W
  pub incr_spend : String → String → String → F → W → Result F × W
  pub get_spend : String → String → String → W → Result (Option F) × W
  pub set_spend : String → String → String → F → W → Bool × W

pub record CachedBudgetList (F : Type 0) : Type 0 where
  pub budgets : List (Budget F)
  pub expires_at : ℕ

-- The manager's own state is `listCache`.
abbrev pub ListCache : Type 0 → Type 0
ListCache F = List (String × CachedBudgetList F)

abbrev pub list_cache_ttl : ℕ
list_cache_ttl = 60_000_000_000

unfoldable pub list_key : String → String → String
list_key entity_type entity_id = str_append entity_type (str_append ":" entity_id)

unfoldable pub invalidate_list_cache : {F : Type 0} → String → String → ListCache F → ListCache F
unfolding list_key delete
invalidate_list_cache entity_type entity_id m = delete (list_key entity_type entity_id) m

-- The outcome of `CheckBudget`: nil, or `ErrBudgetExceeded`.
pub data Verdict (F : Type 0) : Type 0 where
  within_budget : Verdict F
  exceeded : F → F → String → Verdict F

module _ {F W : Type 0} (bh : BudgetHost F W) where
  abbrev pub unexpired : ℕ → Option (CachedBudgetList F) → Option (List (Budget F))
  unexpired time none = none
  unexpired time (some c) = if ltb time c.expires_at then some c.budgets else none

  abbrev pub listed :
      String
      → ListCache F
      → Result (List (Budget F)) × W
      → Result (List (Budget F)) × ListCache F × W
  listed key m (err e, w) = (err e, m, w)
  listed key m (ok bs, w) =
      (ok bs, insert key (record { budgets = bs; expires_at = bh.now w + list_cache_ttl }) m, w)

  abbrev pub from_list_cache :
      Option (List (Budget F))
      → ListCache F
      → W
      → Result (List (Budget F)) × ListCache F × W
      → Result (List (Budget F)) × ListCache F × W
  from_list_cache (some bs) m w rest = (ok bs, m, w)
  from_list_cache none m w rest = rest

  unfoldable pub cached_list :
      ListCache F → String → String → W → Result (List (Budget F)) × ListCache F × W
  unfolding list_key insert
  cached_list m entity_type entity_id w =
      from_list_cache (unexpired (bh.now w) (lookup (list_key entity_type entity_id) m)) m w
        (listed (list_key entity_type entity_id) m (bh.list entity_type entity_id w))

  -- The spend that is used for a budget. An error of the cache is answered by `CheckBudget` with the
  -- spend of the record, which is also what the cache is seeded with.
  abbrev pub seeded : F → Bool × W → F × W
  seeded f (done, w) = (f, w)

  abbrev pub spend_of : Budget F → Result (Option F) × W → F × W
  spend_of b (err e, w) = (b.current_spend, w)
  spend_of b (ok (some spend), w) = (spend, w)
  spend_of b (ok none, w) =
      seeded b.current_spend (bh.set_spend b.entity_type b.entity_id b.period b.current_spend w)

  unfoldable pub current_spend : Budget F → W → F × W
  current_spend b w = spend_of b (bh.get_spend b.entity_type b.entity_id b.period w)

  -- A round of the loop of `CheckBudget`, and what follows it if the budget has headroom.
  abbrev pub against_limit : Bool → F → Budget F → F × W → (W → Verdict F × W) → Verdict F × W
  against_limit true limit b (spend, w) rest = (exceeded spend limit b.period, w)
  against_limit false limit b (spend, w) rest = rest w

  abbrev pub check_one : Option F → Budget F → W → (W → Verdict F × W) → Verdict F × W
  check_one none b w rest = rest w
  check_one (some limit) b w rest =
      against_limit (bh.at_least (current_spend b w).0 limit) limit b (current_spend b w) rest

  unfoldable pub check_all : List (Budget F) → W → Verdict F × W
  unfolding current_spend
  check_all [] w = (within_budget, w)
  check_all (b ∷ bs) w = check_one b.hard_limit_usd b w (check_all bs)

  -- A store that fails lets the request through.
  abbrev pub checked : Result (List (Budget F)) × ListCache F × W → Verdict F × ListCache F × W
  checked (err e, m, w) = (within_budget, m, w)
  checked (ok bs, m, w) = let (v, w') = check_all bs w in (v, m, w')

  unfoldable pub check_budget : ListCache F → String → String → W → Verdict F × ListCache F × W
  unfolding cached_list check_all
  check_budget m entity_type entity_id w = checked (cached_list m entity_type entity_id w)

  -- The loop of `RecordSpend`; both writes are made whatever they return.
  unfoldable pub record_all : String → String → F → List (Budget F) → W → W
  record_all entity_type entity_id cost [] w = w
  record_all entity_type entity_id cost (b ∷ bs) w =
      record_all entity_type entity_id cost bs
        (bh.add_spend entity_type entity_id b.period cost
          (bh.incr_spend entity_type entity_id b.period cost w).1).1

  abbrev pub recorded :
      String → String → F → Result (List (Budget F)) × ListCache F × W → ListCache F × W
  recorded entity_type entity_id cost (err e, m, w) = (m, w)
  recorded entity_type entity_id cost (ok bs, m, w) =
      (m, record_all entity_type entity_id cost bs w)

  unfoldable pub record_spend : String → String → F → ListCache F → W → ListCache F × W
  unfolding cached_list record_all
  record_spend entity_type entity_id cost m w =
      if bh.is_zero cost
      then (m, w)
      else recorded entity_type entity_id cost (cached_list m entity_type entity_id w)

-- What the middleware reads of the virtual key.
pub record KeyIds : Type 0 where
  pub id : String
  pub team_id : Option String
  pub org_id : Option String

pub data Response (R F : Type 0) : Type 0 where
  served : R → Response R F
  budget_error : F → F → String → Response R F

module _ {F W : Type 0} (bh : BudgetHost F W) where
  abbrev pub record_for : String → Option String → F → ListCache F × W → ListCache F × W
  record_for entity_type none cost s = s
  record_for entity_type (some id) cost (m, w) = record_spend bh entity_type id cost m w

  -- The three spends, if there is a cost: `cost` reads it from the log of the request.
  abbrev pub post_flight : KeyIds → Option F → ListCache F × W → ListCache F × W
  post_flight k none s = s
  post_flight k (some c) s =
      if bh.is_zero c
      then s
      else record_for "org" k.org_id c
          (record_for "team" k.team_id c (record_for "key" (some k.id) c s))

  abbrev pub served_with :
      {R : Type 0}
      → KeyIds
      → Verdict F × ListCache F × W
      → (W → R × Option F × W)
      → Response R F × ListCache F × W
  served_with k (exceeded spend limit period, m, w) next = (budget_error spend limit period, m, w)
  served_with k (within_budget, m, w) next =
      let (r, cost, w') = next w in
      let (m', w'') = post_flight k cost (m, w') in (served r, m', w'')

  -- `next` is the handler behind the middleware, with the cost of what it served, if there are a
  -- request log and a calculator.
  unfoldable pub budget_check :
      {R : Type 0}
      → Option KeyIds
      → (W → R × Option F × W)
      → ListCache F
      → W
      → Response R F × ListCache F × W
  unfolding check_budget record_spend
  budget_check none next m w = let (r, cost, w') = next w in (served r, m, w')
  budget_check (some k) next m w = served_with k (check_budget bh m "key" k.id w) next
