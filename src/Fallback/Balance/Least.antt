-- ===== src/Fallback/Balance/Least.antt =====
-- internal/gateway/fallback/load_balancer.go: the stable sorts by latency and by cost. `sort` is
-- `sort.SliceStable`; the latencies do not change while it runs.
use mathlib.Core.List.{Permᴰ}
use llm_router.Common.{
  ◌≡◌, refl, String, Bool, true, false, ◌&&◌, Option, none, some, List, [], ◌∷◌, leb, All,
  All-weaken, if◌then◌else◌, length, lookup, arith,
}
use llm_router.Common.Sort.{IsWeakOrder, IsSorted, SortSlice}
use llm_router.MlRouter.Classifier.{Floats}
use llm_router.Fallback.{Target}
use llm_router.Telemetry.Latency.{LatencyTracker, or_zero, get_latency}

-- `is_zero x` is `x == 0`.
module _ {F : Type 0} (f : Floats F) (is_zero : F → Bool) (s : SortSlice Target) where
  -- A latency goes before another; 0 is one that is not known.
  abbrev pub goes_before : F → F → Bool
  goes_before li lj =
      if is_zero li && is_zero lj
      then false
      else if is_zero li
      then false
      else if is_zero lj
      then true
      else f.less li lj

  abbrev pub is_faster : LatencyTracker F → Target → Target → Bool
  is_faster t a b = goes_before (get_latency f t a.provider) (get_latency f t b.provider)

  unfoldable pub least_latency_sort : Option (LatencyTracker F) → List Target → List Target
  unfolding get_latency
  least_latency_sort none ts = ts
  least_latency_sort (some t) ts = if leb (length ts) 1 then ts else s.sort (is_faster t) ts

  abbrev pub is_cheaper : List (String × F) → Target → Target → Bool
  is_cheaper costs a b =
      f.less (or_zero f (lookup a.provider costs)) (or_zero f (lookup b.provider costs))

  unfoldable pub least_cost_sort : List (String × F) → List Target → List Target
  least_cost_sort costs ts = if leb (length ts) 1 then ts else s.sort (is_cheaper costs) ts

  goes_before_trans :
      IsWeakOrder f.less
      → (x y z : F) → goes_before y x ≡ false
      → goes_before z y ≡ false
      → goes_before z x ≡ false
  goes_before_trans o x y z p q = ground (arith, o.trans x y z)

  goes_before_asym :
      IsWeakOrder f.less → (x y : F) → goes_before x y ≡ true → goes_before y x ≡ false
  goes_before_asym o x y p = ground (arith, o.asym x y)

  goes_before_irrefl : IsWeakOrder f.less → (x : F) → goes_before x x ≡ false
  goes_before_irrefl o x = ground (arith, o.irrefl x)

  is_faster-IsWeakOrder : IsWeakOrder f.less → (t : LatencyTracker F) → IsWeakOrder (is_faster t)
  is_faster-IsWeakOrder o t =
      let l = λ (a : Target). get_latency f t a.provider in
      record {
        irrefl = λ a. goes_before_irrefl o (l a);
        trans = λ a b c. goes_before_trans o (l a) (l b) (l c);
        asym = λ a b. goes_before_asym o (l a) (l b);
      }

  is_cheaper-IsWeakOrder :
      IsWeakOrder f.less → (costs : List (String × F)) → IsWeakOrder (is_cheaper costs)
  is_cheaper-IsWeakOrder o costs =
      let c = λ (a : Target). or_zero f (lookup a.provider costs) in
      record {
        irrefl = λ a. o.irrefl (c a);
        trans = λ x y z. o.trans (c x) (c y) (c z);
        asym = λ x y. o.asym (c x) (c y);
      }

  -- The slice as it is, if it has at most one element, or sorted.
  short_or_IsSorted :
      (less : Target → Target → Bool) (ts : List Target)
      → IsWeakOrder less
      → Permᴰ (if leb (length ts) 1 then ts else s.sort less ts) ts
        × IsSorted less (if leb (length ts) 1 then ts else s.sort less ts)
  short_or_IsSorted less [] o = (Permᴰ.nil, tt)
  short_or_IsSorted less (t ∷ []) o = (Permᴰ.cons refl Permᴰ.nil, (tt, tt))
  short_or_IsSorted less (t ∷ u ∷ ts) o =
      let long : leb (length (t ∷ u ∷ ts)) 1 ≡ false = ground arith in
      rw long (s.sort-perm less (t ∷ u ∷ ts), s.sort-IsSorted less o (t ∷ u ∷ ts))

  -- Every target in relation to every one behind it.
  abbrev pub InOrder : (Target → Target → Type 0) → List Target → Type 0
  InOrder R [] = Unit
  InOrder R (x ∷ xs) = All (R x) xs × InOrder R xs

  IsSorted-InOrder :
      (less : Target → Target → Bool) (R : Target → Target → Type 0)
      → ((x y : Target) → less y x ≡ false → R x y)
      → (xs : List Target) → IsSorted less xs
      → InOrder R xs
  IsSorted-InOrder less R f [] h = tt
  IsSorted-InOrder less R f (x ∷ xs) h = (All-weaken (f x) xs h.0, IsSorted-InOrder less R f xs h.1)

  -- The second latency is not known, if the first is not; where it is known, it is not the smaller.
  abbrev pub NoSlower : F → F → Type 0
  NoSlower x y = (is_zero x ≡ true → is_zero y ≡ true) × (is_zero y ≡ false → f.less y x ≡ false)

  goes_before-NoSlower : (x y : F) → goes_before y x ≡ false → NoSlower x y
  goes_before-NoSlower x y p = (λ q. ground arith, λ q. ground arith)

  -- The latency or the cost of a target's provider, 0 where there is none.
  abbrev pub value_of : List (String × F) → Target → F
  value_of values a = or_zero f (lookup a.provider values)

  -- If `<` is a strict weak order on the floats, then both balancers keep the targets. By latency,
  -- behind a target whose latency is not known there are only such targets, and no target has a
  -- known latency smaller than that of one before it; by cost, no target costs less than one before
  -- it, where a provider without a cost costs nothing.
  pub least_sort-InOrder :
      (t : LatencyTracker F) (costs : List (String × F)) (ts : List Target)
      → IsWeakOrder f.less
      → (Permᴰ (least_latency_sort (some t) ts) ts
          × InOrder
              (λ x y. NoSlower (value_of t.ewma x) (value_of t.ewma y))
              (least_latency_sort (some t) ts))
        × (Permᴰ (least_cost_sort costs ts) ts
            × InOrder
                (λ x y. f.less (value_of costs y) (value_of costs x) ≡ false)
                (least_cost_sort costs ts))
  unfolding least_latency_sort least_cost_sort get_latency
  least_sort-InOrder t costs ts o =
      let by_latency = short_or_IsSorted (is_faster t) ts (is_faster-IsWeakOrder o t) in
      let by_cost = short_or_IsSorted (is_cheaper costs) ts (is_cheaper-IsWeakOrder o costs) in
      (
        (
          by_latency.0,
          IsSorted-InOrder (is_faster t) _
              (λ x y. goes_before-NoSlower (value_of t.ewma x) (value_of t.ewma y)) _ by_latency.1,
        ),
        (by_cost.0, IsSorted-InOrder (is_cheaper costs) _ (λ x y p. p) _ by_cost.1),
      )
