-- ===== src/Auth/Laws.antt =====
-- internal/auth: which requests get through.
use llm_router.Common.{
  ℕ, ◌≤◌, String, ◌≡◌, ap, subst, ◌∙◌, ◌≢◌, ◌⊎◌, inl, inr, true, false, Option, none, some, arith,
  str_eq, Bool-cases, Option-cases, str_eq_refl,
}
use llm_router.Auth.{
  AuthKey, KeyHost, Lookup, found, not_found, store_error, authenticated, past, is_valid, admit,
  look_up, bearer_token, key_prefix, authenticate,
}

-- The key is active and has not expired.
pub record IsUsable (now : ℕ) (k : AuthKey) : Type 0 where
  pub active : k.is_active ≡ true
  pub live : (e : ℕ) → k.expires_at ≡ some e → now ≤ e

past-live : (now : ℕ) (x : Option ℕ) → past now x ≡ false → (e : ℕ) → x ≡ some e → now ≤ e
past-live now none h e s = absurd (cc s)
past-live now (some d) h e s = let same : d ≡ e = cc s in ground arith

valid-IsUsable : (now : ℕ) (k : AuthKey) → is_valid now k ≡ none → IsUsable now k
unfolding is_valid
valid-IsUsable now k h = elim (Bool-cases k.is_active) [
  | inr off ↦ cc (rw (off, is_valid) at h)
  | inl on ↦ elim (Bool-cases (past now k.expires_at)) [
    | inl gone ↦ cc (rw (on, gone, is_valid) at h)
    | inr fresh ↦ record { active = on; live = past-live now k.expires_at fresh }
  ]
]

admit-IsUsable :
    (now : ℕ) (k j : AuthKey) → admit now k ≡ authenticated j → (k ≡ j) × IsUsable now k
unfolding admit
admit-IsUsable now k j h = elim (Option-cases (is_valid now k)) [
  | inl good ↦ (cc (rw (good, admit) at h), valid-IsUsable now k good)
  | inr (e, bad) ↦ cc (rw (bad, admit) at h)
]

false_true : (s : String) → str_eq s "" ≡ false → s ≢ ""
false_true s h e = cc (str_eq_refl "", subst (λ x. str_eq x "" ≡ false) e h)

module _ {W : Type 0} (kh : KeyHost W) where
  -- Where the key of an authenticated request comes from.
  pub record Vouched (header : String) (w : W) (k : AuthKey) : Type 0 where
    pub token : bearer_token header ≢ ""
    -- At the time that the check reads from the clock, which is the clock at the end.
    pub usable : IsUsable (kh.now (authenticate kh header w).1) k
    pub known :
        ((kh.cache_get (kh.hash_key (bearer_token header)) w).0 ≡ some k)
        ⊎ (((kh.cache_get (kh.hash_key (bearer_token header)) w).0 ≡ none)
            × ((kh.get_by_hash
                  (key_prefix (bearer_token header))
                  (kh.hash_key (bearer_token header))
                  (kh.cache_get (kh.hash_key (bearer_token header)) w).1).0
                ≡ found k))

  look_up-IsUsable :
      (hash : String) (l : Lookup) (w : W) (k : AuthKey)
      → (look_up kh hash l w).0 ≡ authenticated k
      → (l ≡ found k) × IsUsable (kh.now (look_up kh hash l w).1) k
  unfolding look_up
  look_up-IsUsable hash (found j) w k h =
      let now = kh.now (kh.cache_set hash j w) in
      let (same, usable) = admit-IsUsable now j k h in
      (ap found same, subst (IsUsable now) same usable)
  look_up-IsUsable hash not_found w k h = cc h
  look_up-IsUsable hash store_error w k h = cc h

  -- A request that is authenticated has a token, and gets the key that the cache has for the
  -- token's hash or, if the cache has none, the key that the store has for its prefix and hash; the
  -- key is active and has not expired at the time of the answer.
  pub authenticate-Vouched :
      (header : String) (w : W) (k : AuthKey)
      → (authenticate kh header w).0 ≡ authenticated k
      → Vouched header w k
  unfolding authenticate
  authenticate-Vouched header w k h = elim (Bool-cases (str_eq (bearer_token header) "")) [
    | inl blank ↦ cc (rw (blank, authenticate) at h)
    | inr some_token ↦
        let hash = kh.hash_key (bearer_token header) in
        let w₁ = (kh.cache_get hash w).1 in
        let full =
          λ (e : bearer_token header ≡ ""). false_true (bearer_token header) some_token e in
        elim (Option-cases (kh.cache_get hash w).0) [
          | inr (j, hit) ↦
              let (same, usable) =
                admit-IsUsable (kh.now w₁) j k (rw (some_token, hit, authenticate) at h) in
              record {
                token = full;
                usable =
                    rw (some_token, hit, authenticate) (subst (IsUsable (kh.now w₁)) same usable);
                known = inl (hit ∙ ap some same);
              }
          | inl miss ↦
              let l = (kh.get_by_hash (key_prefix (bearer_token header)) hash w₁).0 in
              let w₂ = (kh.get_by_hash (key_prefix (bearer_token header)) hash w₁).1 in
              let h' : (look_up kh hash l w₂).0 ≡ authenticated k =
                rw (some_token, miss, authenticate) at h in
              let (same, usable) = look_up-IsUsable hash l w₂ k h' in
              record {
                token = full;
                usable = rw (some_token, miss, authenticate) usable;
                known = inr (miss, same);
              }
        ]
  ]
