-- ===== src/Provider/Keys/Pick.antt =====
-- internal/provider/key_selector.go: each key is picked on a span of the numbers below the total
-- weight that is as long as its weight.
use llm_router.Common.{
  ℕ, ◌+◌, ◌%◌, ◌≤◌, ◌<◌, ◌≡◌, refl, sym, ap, subst, ◌∙◌, ◌⊎◌, inl, inr, true, false, Option, none,
  some, List, [], ◌∷◌, ◌++◌, Memᴰ, arith, ltb, lt→ltb, Bool-cases,
}
use llm_router.Common.Fallible.{Result, ok, err}
use llm_router.Provider.Keys.{
  ProviderKey, KeyHost, weight_of, total_weight, pick_from, last_of, modulo, crypto_rand_n, picked,
  weighted_random,
}

total_weight-append :
    (xs ys : List ProviderKey) → total_weight (xs ++ ys) ≡ total_weight xs + total_weight ys
unfolding total_weight
total_weight-append [] ys = omega arith
total_weight-append (x ∷ xs) ys = omega (arith, total_weight-append xs ys)

pick_from-span :
    (pre : List ProviderKey) (k : ProviderKey) (post : List ProviderKey) (last : ProviderKey)
    (pick sum : ℕ)
    → sum + total_weight pre ≤ pick
    → pick < sum + total_weight pre + weight_of k.weight
    → pick_from (pre ++ (k ∷ post)) last pick sum ≡ k
unfolding pick_from total_weight
pick_from-span [] k post last pick sum lo hi =
    let e : ltb pick (sum + weight_of k.weight) ≡ true = lt→ltb _ _ (omega arith) in rw e
pick_from-span (j ∷ pre) k post last pick sum lo hi =
    let e : ltb pick (sum + weight_of j.weight) ≡ false = ground arith in
    rw e
      (pick_from-span pre k post last pick (sum + weight_of j.weight) (omega arith) (omega arith))

module _ {W : Type 0} (kh : KeyHost W) where
  picked-modulo :
      (q : Option ℕ × W) (n r : ℕ) (k : ProviderKey) (ks : List ProviderKey)
      → q.0 ≡ some r
      → (picked kh (modulo kh q n) k ks).0 ≡ ok (pick_from (k ∷ ks) (last_of k ks) (r % n) 0)
  picked-modulo (none, w) n r k ks e = cc
  picked-modulo (some s, w) n r k ks e = ap (λ o. (picked kh (modulo kh (o, w) n) k ks).0) e

  -- For a random number `r`, the choice is the key on whose span `r` modulo the total weight lies:
  -- the span of a key starts at the sum of the weights before it and is as long as its own weight,
  -- where weights below one count as one. In particular the fallback to the last key is never used.
  pub weighted_random_span :
      (k : ProviderKey) (ks : List ProviderKey) (w : W) (r : ℕ) (pre post : List ProviderKey)
      (chosen_key : ProviderKey)
      → (kh.random w).0 ≡ some r
      → k ∷ ks ≡ pre ++ (chosen_key ∷ post)
      → total_weight pre ≤ r % total_weight (k ∷ ks)
      → r % total_weight (k ∷ ks) < total_weight pre + weight_of chosen_key.weight
      → (weighted_random kh (k ∷ ks) w).0 ≡ ok chosen_key
  unfolding weighted_random crypto_rand_n
  weighted_random_span k [] w r [] post c d e lo hi = cc
  weighted_random_span k [] w r (p ∷ []) post c d e lo hi = cc
  weighted_random_span k [] w r (p ∷ q ∷ pre) post c d e lo hi = cc
  weighted_random_span k (j ∷ ks) w r pre post c d e lo hi =
      picked-modulo (kh.random w) (total_weight (k ∷ j ∷ ks)) r k (j ∷ ks) d
      ∙ ap ok (
          ap (λ l. pick_from l (last_of k (j ∷ ks)) (r % total_weight (k ∷ j ∷ ks)) 0) e
          ∙ pick_from-span pre c post (last_of k (j ∷ ks)) (r % total_weight (k ∷ j ∷ ks)) 0
              (omega arith) (omega arith))

  last_of-mem : (k : ProviderKey) (ks : List ProviderKey) → Memᴰ (last_of k ks) (k ∷ ks)
  last_of-mem k [] = Memᴰ.head refl
  last_of-mem k (j ∷ ks) = Memᴰ.tail (last_of-mem j ks)

  pick_from-mem :
      (ks : List ProviderKey) (last : ProviderKey) (pick sum : ℕ)
      → Memᴰ (pick_from ks last pick sum) ks ⊎ (pick_from ks last pick sum ≡ last)
  unfolding pick_from
  pick_from-mem [] last pick sum = inr refl
  pick_from-mem (k ∷ ks) last pick sum = elim (Bool-cases (ltb pick (sum + weight_of k.weight))) [
    | inl t ↦ inl (rw t (Memᴰ.head refl))
    | inr n ↦ elim (pick_from-mem ks last pick (sum + weight_of k.weight)) [
      | inl m ↦ inl (rw n (Memᴰ.tail m))
      | inr e ↦ inr (rw n e)
    ]
  ]

  picked-mem :
      (q : Result ℕ × W) (k : ProviderKey) (ks : List ProviderKey) {j : ProviderKey}
      → (picked kh q k ks).0 ≡ ok j
      → Memᴰ j (k ∷ ks)
  picked-mem (err e, w) k ks h = cc
  picked-mem (ok pick, w) k ks {j} h =
      let e : pick_from (k ∷ ks) (last_of k ks) pick 0 ≡ j = cc h in
      subst (λ i. Memᴰ i (k ∷ ks)) e
        (elim (pick_from-mem (k ∷ ks) (last_of k ks) pick 0) [
          | inl m ↦ m
          | inr l ↦ subst (λ i. Memᴰ i (k ∷ ks)) (sym l) (last_of-mem k ks)
        ])

  pub weighted_random-mem :
      (ks : List ProviderKey) (w : W) {k : ProviderKey}
      → (weighted_random kh ks w).0 ≡ ok k
      → Memᴰ k ks
  unfolding weighted_random
  weighted_random-mem [] w h = cc
  weighted_random-mem (k ∷ []) w h = Memᴰ.head (cc h)
  weighted_random-mem (k ∷ j ∷ ks) w h =
      picked-mem (crypto_rand_n kh (total_weight (k ∷ j ∷ ks)) w) k (j ∷ ks) h
