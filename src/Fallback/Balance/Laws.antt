-- ===== src/Fallback/Balance/Laws.antt =====
-- internal/gateway/fallback/load_balancer.go: round robin as a rotation.
use mathlib.Core.List.Permᴰ
use mathlib.Core.List.{Permᴰ}
use mathlib.Core.Path.{ap₂}
use native.Mathlib.Nat.{mod-lt, zero-add, suc-add, mod_self}
use llm_router.Common.{
  ℕ, zero, suc, ◌+◌, ◌-◌, ◌%◌, ◌^◌, ◌≤◌, ◌<◌, ◌≡◌, refl, sym, ap, subst, ◌∙◌, false, List, ◌∷◌,
  ◌++◌, arith, leb, length, take, drop, take-length, take-append-drop, length-drop, get_elem?-drop,
}
use llm_router.Fallback.{Target}
use llm_router.Fallback.Balance.{rotate_from, round_robin_sort}

next_mod : (a n j : ℕ) → a % n ≡ j → j + 1 < n → (a + 1) % n ≡ j + 1
next_mod a n j h k = grind arith

rotate_from-segment :
    (ts : List Target) (idx i left j : ℕ)
    → (0 < left → (idx + i) % length ts ≡ j)
    → j + left ≤ length ts
    → rotate_from ts idx i left ≡ take left (drop j ts)
unfolding rotate_from
rotate_from-segment ts idx i zero j e h = refl
rotate_from-segment ts idx i (suc left) j e h =
    let (t, at_j, rest) = get_elem?-drop j ts (omega arith) in
    let here : (idx + i) % length ts ≡ j = e (omega arith) in
    rw (here, rotate_from)
      (rw (at_j, rotate_from)
        (rw rest (
          ap (λ r. t ∷ r)
            (rotate_from-segment ts idx (i + 1) left (suc j)
              (λ p. grind (arith, next_mod (idx + i) (length ts) j)) (omega arith)))))

rotate_from-add :
    (ts : List Target) (idx i a b : ℕ)
    → 0 < length ts
    → rotate_from ts idx i (a + b) ≡ rotate_from ts idx i a ++ rotate_from ts idx (i + a) b
unfolding rotate_from
rotate_from-add ts idx i zero b h = rw (zero-add b) (ap (λ k. rotate_from ts idx k b) (omega arith))
rotate_from-add ts idx i (suc a) b h =
    let (t, at_i, rest) =
      get_elem?-drop ((idx + i) % length ts) ts (omega (arith, mod-lt (idx + i) h)) in
    rw (suc-add a b) (
      rw (at_i, rotate_from)
        (ap (λ r. t ∷ r)
          (rotate_from-add ts idx (i + 1) a b h
            ∙ ap (λ k. rotate_from ts idx (i + 1) a ++ rotate_from ts idx k b) (omega arith))))

rotate_from-rotation :
    (ts : List Target) (idx : ℕ)
    → idx < length ts
    → rotate_from ts idx 0 (length ts) ≡ drop idx ts ++ take idx ts
rotate_from-rotation ts idx h =
    let n = length ts in
    let wraps : (idx + (0 + (n - idx))) % n ≡ 0 =
      ap (λ k. k % n) (let e : idx + (0 + (n - idx)) ≡ n = omega arith in e) ∙ mod_self n in
    ap (rotate_from ts idx 0) (let e : n ≡ (n - idx) + idx = omega arith in e)
    ∙ rotate_from-add ts idx 0 (n - idx) idx (omega arith)
    ∙ ap₂ (λ x y. x ++ y)
        (rotate_from-segment ts idx 0 (n - idx) idx (λ p. grind arith) (omega arith)
          ∙ ap (λ k. take k (drop idx ts)) (sym (length-drop idx ts))
          ∙ take-length (drop idx ts))
        (rotate_from-segment ts idx (0 + (n - idx)) idx 0 (λ p. wraps) (omega arith))

-- With at least two targets, `RoundRobin.Sort` advances the counter, a uint64, by one and rotates
-- the targets to start at the counter's remainder; the result is a permutation of the targets.
pub round_robin_sort-rotation :
    (counter : ℕ) (ts : List Target)
    → 1 < length ts
    → let next = (counter + 1) % 2 ^ 64 in
      (round_robin_sort counter ts
        ≡ (next, drop (next % length ts) ts ++ take (next % length ts) ts))
      × Permᴰ (round_robin_sort counter ts).1 ts
unfolding round_robin_sort
round_robin_sort-rotation counter ts h =
    let idx = ((counter + 1) % 2 ^ 64) % length ts in
    let many : leb (length ts) 1 ≡ false = ground arith in
    let turned = rotate_from-rotation ts idx (mod-lt _ (omega arith)) in
    (
      rw many (ap (λ r. ((counter + 1) % 2 ^ 64, r)) turned),
      rw (many, turned)
          (subst (λ r. Permᴰ (drop idx ts ++ take idx ts) r) (take-append-drop idx ts)
            (Permᴰ.append_comm (drop idx ts) (take idx ts))),
    )
