-- ===== src/AbTest/Assignment.antt =====
-- internal/abtest/assignment.go: each variant has a span of the buckets that is as long as its weight.
use llm_router.Common.{
  ℕ, ◌+◌, ◌%◌, ◌≤◌, ◌<◌, ◌≡◌, refl, ap, ◌∙◌, String, true, false, some, List, [], ◌∷◌, ◌++◌, arith,
  ltb, Bool-cases, inl, inr, if◌then◌else◌,
}
use llm_router.AbTest.Experiment.{
  TrafficSplit, Experiment, AbHost, to_uint32, pick_split, or_first, is_active, is_sampled_out,
  bucket_of, assign,
}

-- The sum of the weights.
unfoldable pub total : List TrafficSplit → ℕ
total [] = 0
total (s ∷ splits) = to_uint32 s.weight + total splits

-- The split of a list on whose span a number lies, where the first span starts at `start`.
abbrev pub OnSpan : ℕ → ℕ → List TrafficSplit → TrafficSplit → Type 0
OnSpan n start splits s =
    (pre : List TrafficSplit) × (post : List TrafficSplit) × (splits ≡ pre ++ (s ∷ post))
    × (start + total pre ≤ n)
    × (n < start + total pre + to_uint32 s.weight)

pick_split-step :
    (n start : ℕ) (s : TrafficSplit) (splits : List TrafficSplit)
    → start + to_uint32 s.weight < 4294967296
    → pick_split n start (s ∷ splits) ≡ (
        if ltb n (start + to_uint32 s.weight)
        then some s.variant
        else pick_split n (start + to_uint32 s.weight) splits)
unfolding pick_split
pick_split-step n start s splits small =
    let sum : (start + to_uint32 s.weight) % 4294967296 ≡ start + to_uint32 s.weight =
      omega arith in
    rw sum refl

pick_split-OnSpan :
    (splits : List TrafficSplit) (n start : ℕ)
    → start + total splits < 4294967296
    → start ≤ n
    → n < start + total splits
    → (s : TrafficSplit) × (pick_split n start splits ≡ some s.variant) × OnSpan n start splits s
unfolding total
pick_split-OnSpan [] n start small lo hi = absurd (omega arith)
pick_split-OnSpan (s ∷ splits) n start small lo hi =
    let first = pick_split-step n start s splits (omega arith) in
    elim (Bool-cases (ltb n (start + to_uint32 s.weight))) [
      | inl t ↦ (s, first ∙ rw t refl, ([], splits, refl, omega arith, ground arith))
      | inr t ↦
          let (r, picked, span) =
            pick_split-OnSpan splits n (start + to_uint32 s.weight) (omega arith) (ground arith)
              (omega arith) in
          let (pre, post, same, low, high) = span in
          let next : pick_split n start (s ∷ splits)
              ≡ pick_split n (start + to_uint32 s.weight) splits =
            first ∙ rw t refl in
          (r, next ∙ picked, (s ∷ pre, post, ap (λ l. s ∷ l) same, omega arith, omega arith))
    ]

module _ {F W : Type 0} (h : AbHost F W) where
  -- For an experiment that is active and whose weights add up to 100, an entity in the sample is
  -- assigned to the variant on whose span its bucket lies: the span of a variant starts at the sum
  -- of the weights before it and is as long as its own weight. In particular the fallback to the
  -- first variant is never used.
  pub assign_span :
      (now : ℕ) (e : Experiment F) (entity : String)
      → is_active now e ≡ true
      → is_sampled_out h e entity ≡ false
      → total e.traffic_split ≡ 100
      → (s : TrafficSplit) × (assign h now e entity ≡ s.variant)
        × OnSpan (bucket_of h e entity) 0 e.traffic_split s
  unfolding assign
  assign_span now e entity active sampled hundred =
      let below : bucket_of h e entity < 100 = unfold bucket_of in omega arith in
      let (s, picked, span) =
        pick_split-OnSpan e.traffic_split (bucket_of h e entity) 0 (omega arith) (omega arith)
          (omega arith) in
      (s, rw (active, sampled) (ap (or_first e.traffic_split) picked), span)
