-- ===== src/AbTest/Experiment.antt =====
-- internal/abtest/experiment.go and assignment.go: experiments, and the variant to which an entity is
-- assigned. `F` is `float64`; times are nanoseconds, and the clock does not move during an
-- assignment. FNV-1a, the clock, the database's answers and its identifiers are the record `AbHost`.
use Prim.Native.String.{◌++◌ as str_append}
use llm_router.Common.{
  ℕ, ◌+◌, ◌-◌, ◌%◌, String, Bool, true, false, not, Option, none, some, List, [], ◌∷◌, str_eq, ltb,
  if◌then◌else◌,
}
use llm_router.Common.Int.{ℤ, pos, negsuc}
use llm_router.MlRouter.Classifier.{Floats}

pub data Status : Type 0 where
  draft running paused completed stopped : Status

pub record TrafficSplit : Type 0 where
  pub variant : String
  pub model : String
  pub weight : ℤ

pub record Target (F : Type 0) : Type 0 where
  pub team_ids : List String
  pub sample_rate : F

pub record Experiment (F : Type 0) : Type 0 where
  pub id : String
  pub name : String
  pub status : Status
  pub traffic_split : List TrafficSplit
  pub target : Target F
  pub success_metrics : List String
  pub min_samples : ℤ
  pub confidence_level : F
  pub start_at : Option ℕ
  pub end_at : Option ℕ
  pub winner : String
  pub created_at : ℕ
  pub updated_at : ℕ

-- `execute` says whether the database carries out the next statement, `new_id` is the identifier that
-- it makes for a new row.
pub record AbHost (F W : Type 0) : Type 0 where
  pub floats : Floats F
  pub fnv_32a : String → ℕ
  pub now : W → ℕ
  pub execute : W → Bool × W
  pub new_id : W → String

abbrev pub is_running : Status → Bool
is_running running = true
is_running draft = false
is_running paused = false
is_running completed = false
is_running stopped = false

abbrev pub is_before : ℕ → Option ℕ → Bool
is_before now none = false
is_before now (some t) = ltb now t

abbrev pub is_after : ℕ → Option ℕ → Bool
is_after now none = false
is_after now (some t) = ltb t now

-- The conversion `uint32(weight)`.
abbrev pub to_uint32 : ℤ → ℕ
to_uint32 (pos n) = n % 4294967296
to_uint32 (negsuc n) = 4294967295 - n % 4294967296

-- The loop over the splits, with its sum so far.
unfoldable pub pick_split : ℕ → ℕ → List TrafficSplit → Option String
pick_split bucket cumulative [] = none
pick_split bucket cumulative (s ∷ splits) =
    let sum = (cumulative + to_uint32 s.weight) % 4294967296 in
    let rest = pick_split bucket sum splits in if ltb bucket sum then some s.variant else rest

abbrev pub first_variant : List TrafficSplit → String
first_variant [] = ""
first_variant (s ∷ splits) = s.variant

abbrev pub or_first : List TrafficSplit → Option String → String
or_first splits none = first_variant splits
or_first splits (some v) = v

abbrev pub model_in : String → List TrafficSplit → String
model_in variant [] = ""
model_in variant (s ∷ splits) =
    let rest = model_in variant splits in if str_eq s.variant variant then s.model else rest

module _ {F : Type 0} where
  unfoldable pub is_active : ℕ → Experiment F → Bool
  is_active now e =
      if not (is_running e.status)
      then false
      else if is_before now e.start_at
      then false
      else if is_after now e.end_at
      then false
      else true

  unfoldable pub model_for_variant : Experiment F → String → String
  model_for_variant e variant = model_in variant e.traffic_split

module _ {F W : Type 0} (h : AbHost F W) where
  -- `SampleRate < 1.0`, and the entity is not in the sample.
  unfoldable pub is_sampled_out : Experiment F → String → Bool
  is_sampled_out e entity =
      if h.floats.less e.target.sample_rate (h.floats.ratio 1 1)
      then not (
          h.floats.less
            (h.floats.ratio
              (h.fnv_32a (str_append "sample\0" (str_append e.id (str_append "\0" entity))))
              4294967296)
            e.target.sample_rate)
      else false

  unfoldable pub bucket_of : Experiment F → String → ℕ
  bucket_of e entity = h.fnv_32a (str_append e.id (str_append "\0" entity)) % 100

  -- "" stands for no variant.
  unfoldable pub assign : ℕ → Experiment F → String → String
  unfolding is_active is_sampled_out bucket_of pick_split
  assign now e entity =
      if not (is_active now e)
      then ""
      else if is_sampled_out e entity
      then ""
      else or_first e.traffic_split (pick_split (bucket_of e entity) 0 e.traffic_split)
