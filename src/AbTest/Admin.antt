-- ===== src/AbTest/Admin.antt =====
-- internal/gateway/handler/admin_abtests.go: the operations of the administration. JSON and the text of error messages are left out.
use llm_router.Common.{
  ℕ, String, Bool, true, false, ◌||◌, Option, none, some, List, str_eq, ltb, if◌then◌else◌, length,
  insert, [], ◌∷◌,
}
use llm_router.Common.Int.{ℤ, pos, leb_ℤ}
use llm_router.Common.Fallible.{Result, ok, err}
use llm_router.AbTest.Experiment.{
  Status, draft, completed, TrafficSplit, Target, Experiment, AbHost,
}
use llm_router.AbTest.Store.{
  World, VariantStats, get, get_variant_stats, create, delete, update_status,
}
use llm_router.AbTest.Analysis.{AnalysisHost, AnalysisResult, p95, analyze}
use llm_router.AbTest.Middleware.{State, reload}

pub record CreateBody (F : Type 0) : Type 0 where
  pub name : String
  pub traffic_split : List TrafficSplit
  pub target : Target F
  pub success_metrics : List String
  pub min_samples : ℤ
  pub confidence_level : F
  pub start_at : Option ℕ
  pub end_at : Option ℕ

-- The status codes that the handlers answer.
pub data Reply (F : Type 0) : Type 0 where
  created : Experiment F → Reply F
  changed : Status → String → Reply F
  no_content : Reply F
  bad_request : Reply F
  not_found : Reply F
  server_error : Reply F

module _ {F W : Type 0} (h : AbHost F W) where
  -- The value, or the default in place of one that is not positive.
  abbrev pub positive_or : F → F → F
  positive_or default x = if h.floats.less (h.floats.ratio 0 1) x then x else default

  unfoldable pub new_experiment : CreateBody F → Experiment F
  new_experiment b = record {
    id = "";
    name = b.name;
    status = draft;
    traffic_split = b.traffic_split;
    target = record b.target {
      sample_rate = positive_or (h.floats.ratio 1 1) b.target.sample_rate;
    };
    success_metrics = b.success_metrics;
    min_samples = if leb_ℤ b.min_samples (pos 0) then pos 1000 else b.min_samples;
    confidence_level = positive_or (h.floats.ratio 95 100) b.confidence_level;
    start_at = b.start_at;
    end_at = b.end_at;
    winner = "";
    created_at = 0;
    updated_at = 0;
  }

  abbrev pub create_reply : State F W → Result (Experiment F) × World F W → Reply F × State F W
  create_reply m (err e, w) = (server_error, record m { world = w })
  create_reply m (ok e, w) = (created e, record m { world = w })

  -- `none` for a body that is no JSON.
  unfoldable pub create_test : Option (CreateBody F) → State F W → Reply F × State F W
  unfolding new_experiment create
  create_test none m = (bad_request, m)
  create_test (some b) m =
      if str_eq b.name "" || ltb (length b.traffic_split) 2
      then (bad_request, m)
      else create_reply m (create h (new_experiment b) m.world)

  abbrev pub update_reply : Status → String → State F W → Bool × World F W → Reply F × State F W
  update_reply status winner m (false, w) = (server_error, record m { world = w })
  update_reply status winner m (true, w) =
      (changed status winner, (reload h (record m { world = w })).1)

  unfoldable pub transition : Status → String → State F W → Reply F × State F W
  unfolding update_status reload
  transition status id m = update_reply status "" m (update_status h id status "" m.world)

  -- An empty winner stands for a body that is no JSON, too.
  unfoldable pub promote : String → String → State F W → Reply F × State F W
  unfolding update_status reload
  promote id winner m =
      if str_eq winner ""
      then (bad_request, m)
      else update_reply completed winner m (update_status h id completed winner m.world)

  abbrev pub delete_reply : State F W → Option String × World F W → Reply F × State F W
  delete_reply m (some e, w) =
      (if str_eq e "not found" then not_found else server_error, record m { world = w })
  delete_reply m (none, w) = (no_content, (reload h (record m { world = w })).1)

  unfoldable pub delete_test : String → State F W → Reply F × State F W
  unfolding delete reload
  delete_test id m = delete_reply m (delete h id m.world)

-- `Results`: `none` for an experiment that is not found; a variant whose statistics fail is left out.
module _ {F W : Type 0} (h : AbHost F W) (a : AnalysisHost F) where
  abbrev pub add_stats :
      String
      → Result (VariantStats F)
      → List (String × VariantStats F)
      → List (String × VariantStats F)
  add_stats variant (err e) stats = stats
  add_stats variant (ok s) stats = insert variant s stats

  unfoldable pub gather_stats :
      String
      → List TrafficSplit
      → List (String × VariantStats F)
      → World F W
      → List (String × VariantStats F) × World F W
  unfolding get_variant_stats
  gather_stats id [] stats w = (stats, w)
  gather_stats id (s ∷ splits) stats w =
      let (answer, w') = get_variant_stats h (p95 a) id s.variant w in
      gather_stats id splits (add_stats s.variant answer stats) w'

  abbrev pub analyze_found :
      String → Result (Experiment F) × World F W → Option (AnalysisResult F) × World F W
  analyze_found id (err e, w) = (none, w)
  analyze_found id (ok e, w) =
      let (stats, w') = gather_stats id e.traffic_split [] w in (some (analyze a e stats), w')

  unfoldable pub results : String → World F W → Option (AnalysisResult F) × World F W
  unfolding get gather_stats analyze
  results id w = analyze_found id (get h id w)
