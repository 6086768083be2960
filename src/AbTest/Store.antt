-- ===== src/AbTest/Store.antt =====
-- internal/store/postgres/abtest_store.go: the tables `ab_tests`, newest row first, and
-- `ab_test_results`. Whatever makes the database refuse a statement is an answer of `execute`; that
-- the columns of JSON give back what was put in is taken for granted.
use llm_router.Common.{
  ℕ, String, Bool, true, false, not, ◌&&◌, Option, none, some, List, [], ◌∷◌, str_eq, ◌==◌,
  if◌then◌else◌, length, select, any, map,
}
use llm_router.Common.Fallible.{Result, ok, err}
use llm_router.AbTest.Experiment.{Status, Experiment, AbHost}

-- `abtest.Result`: one row of `ab_test_results`.
pub record Observation (F : Type 0) : Type 0 where
  pub test_id : String
  pub variant : String
  pub request_id : String
  pub timestamp : ℕ
  pub model : String
  pub latency_ms : ℕ
  pub prompt_tokens : ℕ
  pub completion_tokens : ℕ
  pub cost_usd : F
  pub error : Bool
  pub finish_reason : String

pub record VariantStats (F : Type 0) : Type 0 where
  pub variant : String
  pub samples : ℕ
  pub latency_p95_ms : F
  pub avg_latency_ms : F
  pub avg_cost_per_req : F
  pub error_rate : F
  pub error_count : ℕ
  pub latency_values : List F

pub record Db (F : Type 0) : Type 0 where
  pub tests : List (Experiment F)
  pub results : List (Observation F)

-- The database and the rest of the world.
pub record World (F W : Type 0) : Type 0 where
  pub db : Db F
  pub outside : W

module _ {F : Type 0} where
  unfoldable pub with_status :
      String → Status → String → ℕ → List (Experiment F) → List (Experiment F)
  with_status id status winner now [] = []
  with_status id status winner now (e ∷ es) =
      let rest = with_status id status winner now es in
      if str_eq e.id id
      then record e { status = status; winner = winner; updated_at = now } ∷ rest
      else e ∷ rest

  abbrev pub has_id : String → Experiment F → Bool
  has_id id e = str_eq e.id id

  abbrev pub of_test : String → Observation F → Bool
  of_test id r = str_eq r.test_id id

  abbrev pub of_variant : String → String → Observation F → Bool
  of_variant id variant r = str_eq r.test_id id && str_eq r.variant variant

  abbrev pub same_request : Observation F → Observation F → Bool
  same_request r s = str_eq s.test_id r.test_id && str_eq s.request_id r.request_id

  abbrev pub found : List (Experiment F) → Result (Experiment F)
  found [] = err "abtest_store get"
  found (e ∷ es) = ok e

  abbrev pub is_error : Observation F → Bool
  is_error r = r.error

module _ {F W : Type 0} (h : AbHost F W) where
  abbrev pub inserted : Experiment F → World F W → Bool × W → Result (Experiment F) × World F W
  inserted e w (false, o) = (err "create", record w { outside = o })
  inserted e w (true, o) =
      let row : Experiment F = record e {
        id = h.new_id o;
        winner = "";
        created_at = h.now o;
        updated_at = h.now o;
      } in
      (ok row, record { db = record w.db { tests = row ∷ w.db.tests }; outside = o })

  unfoldable pub create : Experiment F → World F W → Result (Experiment F) × World F W
  create e w = inserted e w (h.execute w.outside)

  abbrev pub selected : String → World F W → Bool × W → Result (Experiment F) × World F W
  selected id w (false, o) = (err "abtest_store get", record w { outside = o })
  selected id w (true, o) = (found (select (has_id id) w.db.tests), record w { outside = o })

  unfoldable pub get : String → World F W → Result (Experiment F) × World F W
  get id w = selected id w (h.execute w.outside)

  abbrev pub listed : World F W → Bool × W → Result (List (Experiment F)) × World F W
  listed w (false, o) = (err "abtest_store list", record w { outside = o })
  listed w (true, o) = (ok w.db.tests, record w { outside = o })

  unfoldable pub list : World F W → Result (List (Experiment F)) × World F W
  list w = listed w (h.execute w.outside)

  -- The rows of a deleted experiment go with it, by the foreign key.
  abbrev pub without : String → Db F → Db F
  without id db = record {
    tests = select (λ e. not (has_id id e)) db.tests;
    results = select (λ r. not (of_test id r)) db.results;
  }

  abbrev pub deleted : String → World F W → Bool × W → Option String × World F W
  deleted id w (false, o) = (some "abtest_store delete", record w { outside = o })
  deleted id w (true, o) =
      if any (has_id id) w.db.tests
      then (none, record { db = without id w.db; outside = o })
      else (some "not found", record w { outside = o })

  unfoldable pub delete : String → World F W → Option String × World F W
  delete id w = deleted id w (h.execute w.outside)

  abbrev pub updated : String → Status → String → World F W → Bool × W → Bool × World F W
  updated id status winner w (false, o) = (false, record w { outside = o })
  updated id status winner w (true, o) = (
    true,
    record {
      db = record w.db { tests = with_status id status winner (h.now o) w.db.tests };
      outside = o;
    },
  )

  unfoldable pub update_status : String → Status → String → World F W → Bool × World F W
  unfolding with_status
  update_status id status winner w = updated id status winner w (h.execute w.outside)

  -- A row whose experiment is gone is refused, a second row of a request does nothing.
  abbrev pub recorded : Observation F → World F W → Bool × W → Bool × World F W
  recorded r w (false, o) = (false, record w { outside = o })
  recorded r w (true, o) =
      if not (any (has_id r.test_id) w.db.tests)
      then (false, record w { outside = o })
      else if any (same_request r) w.db.results
      then (true, record w { outside = o })
      else (true, record { db = record w.db { results = r ∷ w.db.results }; outside = o })

  unfoldable pub insert_result : Observation F → World F W → Bool × World F W
  insert_result r w = recorded r w (h.execute w.outside)

  abbrev pub to_float : ℕ → F
  to_float n = h.floats.ratio n 1

  unfoldable pub sum_floats : F → List F → F
  sum_floats total [] = total
  sum_floats total (x ∷ xs) = sum_floats (h.floats.add total x) xs

  -- `p95` is `P95`.
  unfoldable pub stats_of : (List F → F) → String → List (Observation F) → VariantStats F
  unfolding sum_floats
  stats_of p95 variant rows =
      let n = length rows in
      let latencies = map (λ r. to_float r.latency_ms) rows in
      let errors = length (select is_error rows) in
      if n == 0
      then record {
        variant = variant;
        samples = 0;
        latency_p95_ms = to_float 0;
        avg_latency_ms = to_float 0;
        avg_cost_per_req = to_float 0;
        error_rate = to_float 0;
        error_count = 0;
        latency_values = [];
      }
      else record {
        variant = variant;
        samples = n;
        latency_p95_ms = p95 latencies;
        avg_latency_ms = h.floats.div (sum_floats (to_float 0) latencies) (to_float n);
        avg_cost_per_req =
            h.floats.div (sum_floats (to_float 0) (map (λ r. r.cost_usd) rows)) (to_float n);
        error_rate = h.floats.div (to_float errors) (to_float n);
        error_count = errors;
        latency_values = latencies;
      }

  abbrev pub aggregated :
      (List F → F) → String → String → World F W → Bool × W → Result (VariantStats F) × World F W
  aggregated p95 id variant w (false, o) = (err "abtest_store get_stats", record w { outside = o })
  aggregated p95 id variant w (true, o) = (
    ok (stats_of p95 variant (select (of_variant id variant) w.db.results)),
    record w { outside = o },
  )

  unfoldable pub get_variant_stats :
      (List F → F) → String → String → World F W → Result (VariantStats F) × World F W
  unfolding stats_of
  get_variant_stats p95 id variant w = aggregated p95 id variant w (h.execute w.outside)
