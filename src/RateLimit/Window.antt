-- ===== src/RateLimit/Window.antt =====
-- internal/ratelimit/redis_limiter.go: the script admits at most `limit` requests per window.
use llm_router.Common.{
  ℕ, suc, ◌+◌, ◌≤◌, ◌≡◌, refl, sym, ap, subst, ◌∙◌, inl, inr, Bool, true, false, List, [], ◌∷◌,
  ◌++◌, arith, ltb, leb, if◌then◌else◌, leb→le, Bool-cases, length, select, length-append,
}
use llm_router.Common.Int.{pos, leb_ℤ}
use llm_router.RateLimit.{trim, script}

select-select :
    (p q : ℕ → Bool) (xs : List ℕ)
    → ((x : ℕ) → q x ≡ true → p x ≡ true)
    → select q (select p xs) ≡ select q xs
select-select p q [] h = refl
select-select p q (x ∷ xs) h = elim (Bool-cases (p x)) [
  | inl t ↦ rw t (elim (Bool-cases (q x)) [
    | inl u ↦ rw u (ap (λ l. x ∷ l) (select-select p q xs h))
    | inr u ↦ rw u (select-select p q xs h)
  ])
  | inr t ↦ elim (Bool-cases (q x)) [
    | inl u ↦ cc (h x u, t)
    | inr u ↦ rw (t, u) (select-select p q xs h)
  ]
]

select-append : (p : ℕ → Bool) (xs ys : List ℕ) → select p (xs ++ ys) ≡ select p xs ++ select p ys
select-append p [] ys = refl
select-append p (x ∷ xs) ys = elim (Bool-cases (p x)) [
  | inl t ↦ rw t (ap (λ l. x ∷ l) (select-append p xs ys))
  | inr t ↦ rw t (select-append p xs ys)
]

pub leb_pos : (a b : ℕ) → leb_ℤ (pos a) (pos b) ≡ leb a b
leb_pos a b = ground arith

pub script_admits :
    (limit window cost t : ℕ) (scores : List ℕ)
    → leb (length (trim window t scores) + suc cost) limit ≡ true
    → ((script (pos limit) window (suc cost) t scores).0.allowed ≡ true)
      × ((script (pos limit) window (suc cost) t scores).1 ≡ trim window t scores ++ (t ∷ []))
unfolding script
script_admits limit window cost t scores h =
    let fits = leb_pos (length (trim window t scores) + suc cost) limit ∙ h in
    let some_cost : ltb 0 (suc cost) ≡ true = ground arith in
    rw (fits, some_cost, script) (refl, refl)

pub script_peeks :
    (limit window t : ℕ) (scores : List ℕ)
    → leb (length (trim window t scores) + 0) limit ≡ true
    → (script (pos limit) window 0 t scores).0.allowed ≡ true
unfolding script
script_peeks limit window t scores h =
    let fits = leb_pos (length (trim window t scores) + 0) limit ∙ h in rw (fits, script) refl

pub script_refuses :
    (limit window cost t : ℕ) (scores : List ℕ)
    → leb (length (trim window t scores) + cost) limit ≡ false
    → ((script (pos limit) window cost t scores).0.allowed ≡ false)
      × ((script (pos limit) window cost t scores).1 ≡ trim window t scores)
unfolding script
script_refuses limit window cost t scores h =
    let full = leb_pos (length (trim window t scores) + cost) limit ∙ h in
    rw (full, script) (refl, refl)

-- The requests of one key, each of cost 1, at the given times: the scores that Redis keeps, and
-- the times of all requests that were admitted.
unfoldable pub requests : ℕ → ℕ → List ℕ → List ℕ × List ℕ → List ℕ × List ℕ
unfolding script
requests limit window [] s = s
requests limit window (t ∷ ts) s =
    let (res, scores) = script (pos limit) window 1 t s.0 in
    requests limit window ts (scores, if res.allowed then s.1 ++ (t ∷ []) else s.1)

abbrev pub Ascending : ℕ → List ℕ → Type 0
Ascending a [] = Unit
Ascending a (t ∷ ts) = (a ≤ t) × Ascending t ts

abbrev pub last_of : ℕ → List ℕ → ℕ
last_of a [] = a
last_of a (t ∷ ts) = last_of t ts

length-select : (p : ℕ → Bool) (xs : List ℕ) → length (select p xs) ≤ length xs
length-select p [] = omega arith
length-select p (x ∷ xs) = elim (Bool-cases (p x)) [
  | inl t ↦ rw t (omega (arith, length-select p xs))
  | inr t ↦ rw t (omega (arith, length-select p xs))
]

module _ (limit window : ℕ) where
  abbrev pub inside : ℕ → ℕ → Bool
  inside t s = ltb t (s + window)

  inside_earlier : (t u s : ℕ) → t ≤ u → inside u s ≡ true → inside t s ≡ true
  inside_earlier t u s le h = ground arith

  -- The scores and the admitted requests agree on every later window, and the window that ends now
  -- has at most `limit` admitted requests.
  record Fits (now : ℕ) (s : List ℕ × List ℕ) : Type 0 where
    agree : (t : ℕ) → now ≤ t → select (inside t) s.0 ≡ select (inside t) s.1
    bound : length (select (inside now) s.1) ≤ limit

  Fits-refused :
      (now t : ℕ) (scores granted : List ℕ)
      → now ≤ t
      → Fits now (scores, granted)
      → Fits t (select (inside t) scores, granted)
  Fits-refused now t scores granted le f = record {
    agree = λ u later.
        select-select (inside t) (inside u) scores (λ s. inside_earlier t u s later)
        ∙ f.agree u (omega arith);
    bound =
        let narrower =
          select-select (inside now) (inside t) granted (λ s. inside_earlier now t s le) in
        let small = length-select (inside t) (select (inside now) granted) in
        let b = f.bound in subst (λ l. length l ≤ limit) narrower (omega arith);
  }

  Fits-admitted :
      (now t : ℕ) (scores granted : List ℕ)
      → now ≤ t
      → length (select (inside t) scores) + 1 ≤ limit
      → Fits now (scores, granted)
      → Fits t (select (inside t) scores ++ (t ∷ []), granted ++ (t ∷ []))
  Fits-admitted now t scores granted le room f =
      let g = Fits-refused now t scores granted le f in
      record {
        agree = λ u later.
            select-append (inside u) (select (inside t) scores) (t ∷ [])
            ∙ ap (λ l. l ++ select (inside u) (t ∷ [])) (g.agree u later)
            ∙ sym (select-append (inside u) granted (t ∷ []));
        bound =
            let same = f.agree t le in
            let parts = select-append (inside t) granted (t ∷ []) in
            let one = length-select (inside t) (t ∷ []) in
            let sum = length-append (select (inside t) granted) (select (inside t) (t ∷ [])) in
            let count = ap length same in subst (λ l. length l ≤ limit) (sym parts) (omega arith);
      }

  requests-Fits :
      (now : ℕ) (ts : List ℕ) (scores granted : List ℕ)
      → Ascending now ts
      → Fits now (scores, granted)
      → Fits (last_of now ts) (requests limit window ts (scores, granted))
  unfolding requests trim
  requests-Fits now [] scores granted asc f = f
  requests-Fits now (t ∷ ts) scores granted asc f =
      elim (Bool-cases (leb (length (select (inside t) scores) + 1) limit)) [
        | inl y ↦
            let (room, scores') = script_admits limit window 0 t scores y in
            rw (room, scores', requests)
              (requests-Fits t ts _ _ asc.1
                (Fits-admitted now t scores granted asc.0 (leb→le _ _ y) f))
        | inr n ↦
            let (refused, scores') = script_refuses limit window 1 t scores n in
            rw (refused, scores', requests)
              (requests-Fits t ts _ _ asc.1 (Fits-refused now t scores granted asc.0 f))
      ]

  -- Of the requests of one key at ascending times, each of cost 1, those that are admitted in the
  -- window that ends with the last request are at most `limit`.
  pub requests_bound :
      (ts : List ℕ)
      → Ascending 0 ts
      → length (select (inside (last_of 0 ts)) (requests limit window ts ([], [])).1) ≤ limit
  requests_bound ts asc =
      (requests-Fits 0 ts [] [] asc (record { agree = λ t h. refl; bound = omega arith })).bound
