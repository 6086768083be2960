-- ===== src/Provider/Keys/Cached.antt =====
-- internal/provider/key_manager.go: which key `SelectKey` returns, whatever happened before.
use llm_router.Chat.ParseModel.{NoSlash, split_slash, split_slash-append}
use llm_router.Common.{
  ℕ, ◌-◌, ◌<◌, String, ◌≡◌, refl, sym, ap, subst, ◌∙◌, ◌≢◌, ◌⊎◌, inl, inr, Bool, true, false,
  Option, none, some, List, [], ◌∷◌, Memᴰ, arith, str_eq, if◌then◌else◌, Bool-cases, str_eq_refl,
  All, lookup, All-insert, All-lookup,
}
use llm_router.Common.Fallible.{Result, ok, err}
use llm_router.Provider.Keys.Pick.{weighted_random-mem}
use llm_router.Common.Texts.{has_prefix}
use llm_router.Provider.Keys.{
  ProviderKeyRecord, ProviderKey, KeyHost, KeyEntry, KeyManager, new_key_manager, weighted_random,
  decrypt_all, stored, loaded, reload_cache, fresh_keys, cached_or, cache_key, get_from_cache,
  from_config, key_text, chosen, select_key, drop_prefixed, invalidate_cache,
}

if-both {ℓ κ} :
    {A : Type ℓ} (P : A → Type κ) (b : Bool) {x y : A} → P x → P y → P (if b then x else y)
if-both P true a b = a
if-both P false a b = b

-- The keys of the cache are not ambiguous for providers with no slash in their names.
cache_key_inj :
    (p q g i : String) → NoSlash p → NoSlash q → cache_key p g ≡ cache_key q i → (p ≡ q) × (g ≡ i)
unfolding cache_key
cache_key_inj p q g i np nq e =
    let h : some (p, g) ≡ some (q, i) =
      sym (split_slash-append p g np) ∙ ap split_slash e ∙ split_slash-append q i nq in
    (cc h, cc h)

module _ {W : Type 0} (kh : KeyHost W) where
  -- Calls of `SelectKey` and `InvalidateCache`, and time that passes.
  pub data Reach (configured : Bool) (fallback : List (String × String))
      : KeyManager → W → Type 0 where
    start : (w : W) → Reach configured fallback (new_key_manager configured fallback) w
    selected :
        {m m' : KeyManager} {w w' : W} {r : Result String} (provider_name group : String)
        → NoSlash provider_name
        → Reach configured fallback m w
        → select_key kh m provider_name group w ≡ (r, m', w')
        → Reach configured fallback m' w'
    invalidated :
        {m : KeyManager} {w : W} (provider_name : String)
        → Reach configured fallback m w
        → Reach configured fallback (invalidate_cache provider_name m) w
    elapsed :
        {m : KeyManager} {w : W} (w' : W)
        → Reach configured fallback m w
        → Reach configured fallback m w'

  -- The keys are the decrypted active keys of a provider and group, as the store had them when it
  -- was read, which ended in `w`.
  abbrev pub LoadedAt : String → String → List ProviderKey → W → Type 0
  LoadedAt provider_name group ks w =
      (w₀ : W) × (recs : List ProviderKeyRecord) × (kh.list_active provider_name group w₀
        ≡ (ok recs, w))
      × (decrypt_all kh recs ≡ ok ks)

  abbrev pub IsEntry : String × KeyEntry → Type 0
  IsEntry (k, e) =
      (p : String) × (g : String) × (w : W) × NoSlash p
      × (k ≡ cache_key p g)
      × LoadedAt p g e.keys w
      × (e.loaded_at ≡ kh.now w)

  -- The keys were read from the store by this call, which read it at `w`, or less than five minutes
  -- before it.
  abbrev pub Current : String → String → List ProviderKey → W → Type 0
  Current p g ks w =
      ((w₁ : W) × (recs : List ProviderKeyRecord) × (kh.list_active p g w ≡ (ok recs, w₁))
        × (decrypt_all kh recs ≡ ok ks))
      ⊎ ((w₁ : W) × LoadedAt p g ks w₁ × (kh.now w - kh.now w₁ < 300_000_000_000))

  fresh_keys-some :
      (m : KeyManager) (time : ℕ) (o : Option KeyEntry) {ks : List ProviderKey}
      → fresh_keys kh m time o ≡ some ks
      → (e : KeyEntry) × (o ≡ some e) × (e.keys ≡ ks) × (time - e.loaded_at < m.cache_ttl)
  fresh_keys-some m time none h = cc
  fresh_keys-some m time (some e) h = (e, refl, ground arith, ground arith)

  -- What holds of the manager after any sequence of steps.
  abbrev Sound : Bool → List (String × String) → KeyManager → Type 0
  Sound configured fallback m =
      (m.configured ≡ configured)
      × (m.fallback ≡ fallback)
      × (m.cache_ttl ≡ 300_000_000_000)
      × All IsEntry m.cache

  module _ (b : Bool) (fb : List (String × String)) where
    stored-Sound :
        (m : KeyManager) (p g : String) (w₀ w : W) (recs : List ProviderKeyRecord)
        (d : Result (List ProviderKey))
        → NoSlash p
        → kh.list_active p g w₀ ≡ (ok recs, w)
        → decrypt_all kh recs ≡ d
        → Sound b fb m
        → Sound b fb (stored kh m (cache_key p g) d w).1
    stored-Sound m p g w₀ w recs (err e) n l de a = a
    stored-Sound m p g w₀ w recs (ok ks) n l de (x, y, z, a) = (
      x,
      y,
      z,
      All-insert IsEntry (cache_key p g) (record { keys = ks; loaded_at = kh.now w }) m.cache
          (p, g, w, n, refl, (w₀, recs, l, de), refl) a,
    )

    loaded-Sound :
        (m : KeyManager) (p g : String) (w₀ : W) (r : Result (List ProviderKeyRecord) × W)
        → NoSlash p
        → kh.list_active p g w₀ ≡ r
        → Sound b fb m
        → Sound b fb (loaded kh m (cache_key p g) r).1
    loaded-Sound m p g w₀ (err e, w) n l a = a
    loaded-Sound m p g w₀ (ok recs, w) n l a =
        stored-Sound m p g w₀ w recs (decrypt_all kh recs) n l refl a

    cached_or-Sound :
        (o : Option (List ProviderKey)) (m : KeyManager) (w : W)
        (r : Result (List ProviderKey) × KeyManager × W)
        → Sound b fb m
        → Sound b fb r.1
        → Sound b fb (cached_or kh o m w r).1
    cached_or-Sound none m w r x y = y
    cached_or-Sound (some ks) m w r x y = x

    get_from_cache-Sound :
        (m : KeyManager) (p g : String) (w : W)
        → NoSlash p
        → Sound b fb m
        → Sound b fb (get_from_cache kh m p g w).1
    unfolding get_from_cache
    get_from_cache-Sound m p g w n a =
        cached_or-Sound (fresh_keys kh m (kh.now w) (lookup (cache_key p g) m.cache)) m w
          (reload_cache kh m p g (cache_key p g) w) a
          (loaded-Sound m p g w (kh.list_active p g w) n refl a)

    chosen-manager :
        (p : String) (r : Result (List ProviderKey) × KeyManager × W) → (chosen kh p r).1 ≡ r.1
    chosen-manager p (err e, m, w) = refl
    chosen-manager p (ok [], m, w) = refl
    chosen-manager p (ok (k ∷ ks), m, w) = key_text-manager (weighted_random kh (k ∷ ks) w)
      where
        key_text-manager : (q : Result ProviderKey × W) → (key_text kh q m).1 ≡ m
        key_text-manager (err e, w') = refl
        key_text-manager (ok j, w') = refl

    select_key-Sound :
        (m : KeyManager) (p g : String) (w : W)
        → NoSlash p
        → Sound b fb m
        → Sound b fb (select_key kh m p g w).1
    unfolding select_key
    select_key-Sound m p g w n a =
        if-both (λ (r : Result String × KeyManager × W). Sound b fb r.1) m.configured
          (subst (Sound b fb) (sym (chosen-manager p (get_from_cache kh m p g w)))
            (get_from_cache-Sound m p g w n a))
          a

    drop_prefixed-All :
        (P : String × KeyEntry → Type 0) (p : String) (m : List (String × KeyEntry))
        → All P m
        → All P (drop_prefixed p m)
    unfolding drop_prefixed
    drop_prefixed-All P p [] a = tt
    drop_prefixed-All P p ((k, e) ∷ m) a = elim (Bool-cases (has_prefix p k)) [
      | inl t ↦ rw t (drop_prefixed-All P p m a.1)
      | inr t ↦ rw t (a.0, drop_prefixed-All P p m a.1)
    ]

    Reach-Sound : {m : KeyManager} {w : W} → Reach b fb m w → Sound b fb m
    unfolding new_key_manager invalidate_cache
    Reach-Sound (start w) = (refl, refl, refl, tt)
    Reach-Sound (selected {m} {w = w} p g n r e) =
        subst (λ q. Sound b fb q.1) e (select_key-Sound m p g w n (Reach-Sound r))
    Reach-Sound (invalidated {m} p r) =
        let (x, y, z, a) = Reach-Sound r in (x, y, z, drop_prefixed-All IsEntry p m.cache a)
    Reach-Sound (elapsed w' r) = Reach-Sound r

    stored-ok :
        (m : KeyManager) (k : String) (d : Result (List ProviderKey)) (w : W)
        {ks : List ProviderKey}
        → (stored kh m k d w).0 ≡ ok ks
        → d ≡ ok ks
    stored-ok m k (err e) w h = cc
    stored-ok m k (ok js) w h = h

    loaded-ok :
        (m : KeyManager) (k : String) (r : Result (List ProviderKeyRecord) × W)
        {ks : List ProviderKey}
        → (loaded kh m k r).0 ≡ ok ks
        → (recs : List ProviderKeyRecord) × (r ≡ (ok recs, r.1)) × (decrypt_all kh recs ≡ ok ks)
    loaded-ok m k (err e, w) h = cc
    loaded-ok m k (ok recs, w) h = (recs, refl, stored-ok m k (decrypt_all kh recs) w h)

    get_from_cache-Current :
        (m : KeyManager) (p g : String) (w : W) {ks : List ProviderKey}
        → NoSlash p
        → Sound b fb m
        → (get_from_cache kh m p g w).0 ≡ ok ks
        → Current p g ks w
    unfolding get_from_cache
    get_from_cache-Current m p g w {ks} n (x, y, z, a) h =
        split (fresh_keys kh m (kh.now w) (lookup (cache_key p g) m.cache)) refl h
      where
        split :
            (o : Option (List ProviderKey))
            → fresh_keys kh m (kh.now w) (lookup (cache_key p g) m.cache) ≡ o
            → (cached_or kh o m w (reload_cache kh m p g (cache_key p g) w)).0 ≡ ok ks
            → Current p g ks w
        split none f h =
            let (recs, l, d) = loaded-ok m (cache_key p g) (kh.list_active p g w) h in
            inl ((kh.list_active p g w).1, recs, l, d)
        split (some js) f h =
            let (e, l, q, t) = fresh_keys-some m (kh.now w) (lookup (cache_key p g) m.cache) f in
            let (p', g', w₁, n', k, loaded_at_w, time) =
              All-lookup IsEntry (cache_key p g) m.cache l a in
            let (pe, ge) = cache_key_inj p p' g g' n n' k in
            let ke : e.keys ≡ ks = q ∙ cc h in
            inr (
              w₁,
              subst (λ u. LoadedAt u g ks w₁) (sym pe)
                  (subst (λ u. LoadedAt p' u ks w₁) (sym ge)
                    (subst (λ u. LoadedAt p' g' u w₁) ke loaded_at_w)),
              omega (arith, time, t, z),
            )

    -- The answer of the static configuration: a key that is not empty.
    from_config-ok :
        (o : Option String) {s : String} → from_config kh o ≡ ok s → (o ≡ some s) × (s ≢ "")
    from_config-ok none h = cc
    from_config-ok (some k) {s} h = elim (Bool-cases (str_eq k "")) [
      | inl t ↦ let h' : err "no active API key for provider" ≡ ok s = rw t at h in cc
      | inr n ↦
          let h' : ok k ≡ ok s = rw n at h in
          let same : k ≡ s = cc h' in
          (ap some same, λ e. cc (n, str_eq_refl "", ap (λ t. str_eq t "") (same ∙ e)))
    ]

    abbrev pub FromConfig : String → String → Type 0
    FromConfig p s = (lookup p fb ≡ some s) × (s ≢ "")

    key_text-ok :
        (q : Result ProviderKey × W) (m : KeyManager) {s : String}
        → (key_text kh q m).0 ≡ ok s
        → (k : ProviderKey) × (q.0 ≡ ok k) × (k.decrypted_key ≡ s)
    key_text-ok (err e, w) m h = cc
    key_text-ok (ok k, w) m h = (k, refl, cc h)

    chosen-ok :
        (p : String) (r : Result (List ProviderKey) × KeyManager × W) {s : String}
        → (chosen kh p r).0 ≡ ok s
        → (ks : List ProviderKey) × (r.0 ≡ ok ks)
          × (((ks ≡ []) × (from_config kh (lookup p r.1.fallback) ≡ ok s))
              ⊎ ((k : ProviderKey) × Memᴰ k ks × (k.decrypted_key ≡ s)))
    chosen-ok p (err e, m, w) h = cc
    chosen-ok p (ok [], m, w) h = ([], refl, inl (refl, h))
    chosen-ok p (ok (k ∷ ks), m, w) h =
        let (j, e, d) = key_text-ok (weighted_random kh (k ∷ ks) w) m h in
        (k ∷ ks, refl, inr (j, weighted_random-mem kh (k ∷ ks) w e, d))

    -- A key that is returned is the decrypted key of an active record of this provider and group, as
    -- the store had them in this call or less than five minutes before it; or it is the key of the
    -- configuration, is not empty, and there is no store or it had no active key then.
    pub Reach-select_key :
        {m : KeyManager} {w : W} (p g : String) {s : String}
        → Reach b fb m w
        → NoSlash p
        → (select_key kh m p g w).0 ≡ ok s
        → ((ks : List ProviderKey) × (k : ProviderKey) × Current p g ks w
            × Memᴰ k ks
            × (k.decrypted_key ≡ s))
          ⊎ (FromConfig p s × ((b ≡ false) ⊎ Current p g [] w))
    unfolding select_key
    Reach-select_key {m} {w} p g {s} r n h = elim (Bool-cases m.configured) [
      | inr off ↦
          let c : from_config kh (lookup p m.fallback) ≡ ok s = subst (answer) off h in
          inr (
            subst (λ l. (lookup p l ≡ some s) × (s ≢ "")) fallback_eq
                (from_config-ok (lookup p m.fallback) c),
            inl (sym (Reach-Sound r).0 ∙ off),
          )
      | inl on ↦
          let c : (chosen kh p (get_from_cache kh m p g w)).0 ≡ ok s = subst (answer) on h in
          let (ks, loaded_keys, source) = chosen-ok p (get_from_cache kh m p g w) c in
          let current : Current p g ks w =
            get_from_cache-Current m p g w n (Reach-Sound r) loaded_keys in
          elim source [
            | inr (k, mem, d) ↦ inl (ks, k, current, mem, d)
            | inl (empty, f) ↦ inr (
              subst (λ l. (lookup p l ≡ some s) × (s ≢ ""))
                  (get_from_cache-Sound m p g w n (Reach-Sound r)).1
                  (from_config-ok (lookup p (get_from_cache kh m p g w).1.fallback) f),
              inr (subst (λ l. Current p g l w) empty current),
            )
          ]
    ]
      where
        answer : Bool → Type 0
        answer c =
            (if c
              then chosen kh p (get_from_cache kh m p g w)
              else (from_config kh (lookup p m.fallback), m, w)).0
            ≡ ok s

        fallback_eq : m.fallback ≡ fb
        fallback_eq = (Reach-Sound r).1
