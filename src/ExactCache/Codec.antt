-- ===== src/ExactCache/Codec.antt =====
-- internal/cache/exact/cache.go: what is fetched is what was stored, compressed or not.
use llm_router.Common.{
  ℕ, ◌≡◌, refl, ap, ◌∙◌, String, Bool, true, false, Option, none, some, ltb, ◌==◌, if◌then◌else◌,
  Bool-cases, inl, inr,
}
use llm_router.Common.Fallible.{Result, ok, err}
use llm_router.ExactCache.Store.{
  ChatResponse, Entry, Cache, CacheHost, stored, redis_key, is_gzip, maybe_decompress, decoded,
  fetched, get, entry_for, shorter, set_result, store_bytes, store,
}

-- What is relied on of JSON, gzip and Redis: decoding inverts encoding, JSON text does not start with
-- the two bytes of gzip, gzip text does, and Redis answers what was set.
pub record CodecLaws {F B W : Type 0} (h : CacheHost F B W) : Type 0 where
  pub unmarshal-marshal : (e : Entry F) (b : B) → h.marshal e ≡ some b → h.unmarshal b ≡ some e
  pub marshal_plain : (e : Entry F) (b : B) → h.marshal e ≡ some b → is_gzip h b ≡ false
  pub gzip_magic : (b z : B) → h.gzip b ≡ some z → is_gzip h z ≡ true
  pub gunzip-gzip : (b z : B) → h.gzip b ≡ some z → h.gunzip z ≡ some b
  pub get-set :
      (k : String) (b : B) (t : ℕ) (w : W)
      → (h.redis_set k b t w).0 ≡ true
      → (h.redis_get k (h.redis_set k b t w).1).0 ≡ ok (some b)

module _ {F B W : Type 0} (h : CacheHost F B W) (laws : CodecLaws h) where
  maybe_decompress-shorter :
      (b : B) (o : Option B)
      → h.gzip b ≡ o
      → is_gzip h b ≡ false
      → maybe_decompress h (shorter h b o) ≡ b
  unfolding maybe_decompress
  maybe_decompress-shorter b none z plain = rw plain
  maybe_decompress-shorter b (some z) e plain = elim (Bool-cases (ltb (h.size z) (h.size b))) [
    | inl t ↦ rw (t, laws.gzip_magic b z e, laws.gunzip-gzip b z e) refl
    | inr n ↦ rw (n, plain) refl
  ]

  set_result-stored :
      (q : Bool × W) → (set_result h q).0 ≡ stored → (q.0 ≡ true) × ((set_result h q).1 ≡ q.1)
  set_result-stored (true, w) e = (refl, refl)
  set_result-stored (false, w) e = cc

  store_bytes-get :
      (c : Cache) (key : String) (ttl : ℕ) (w : W) (o : Option B)
      → (store_bytes h c key ttl w o).0 ≡ stored
      → (b : B) × (o ≡ some b)
        × ((h.redis_get (redis_key key) (store_bytes h c key ttl w o).1).0
            ≡ ok (some (shorter h b (h.gzip b))))
  store_bytes-get c key ttl w none e = cc
  store_bytes-get c key ttl w (some b) e = elim (Bool-cases (ltb c.max_response_size (h.size b))) [
    | inl t ↦ cc (rw t at e)
    | inr n ↦
        let k = redis_key key in
        let z = shorter h b (h.gzip b) in
        let t = if ttl == 0 then c.default_ttl else ttl in
        let (done, same) = set_result-stored (h.redis_set k z t w) (rw n at e) in
        (b, refl, rw n (ap (λ v. (h.redis_get k v).0) same ∙ laws.get-set k z t w done))
  ]

  fetched-some :
      (q : Result (Option B) × W) {b : B} {e : Entry F}
      → q.0 ≡ ok (some b)
      → h.unmarshal (maybe_decompress h b) ≡ some e
      → (fetched h q).0 ≡ ok (some e)
  fetched-some (err m, w) p u = cc
  fetched-some (ok none, w) p u = cc
  fetched-some (ok (some d), w) {b} {e} p u =
      let same : d ≡ b = cc p in
      ap (λ x. decoded h (h.unmarshal (maybe_decompress h x))) same ∙ ap (decoded h) u

  -- What `Store` has stored under a key, `Get` fetches, with the time of the storing and the tokens
  -- of the response, for as long as Redis answers for the key as it did right after; whether the
  -- text was compressed makes no difference.
  pub get-store :
      (c : Cache) (key : String) (resp : ChatResponse) (cost : F) (ttl : ℕ) (w w' : W)
      → (store h c key resp cost ttl w).0 ≡ stored
      → (h.redis_get (redis_key key) w').0
        ≡ (h.redis_get (redis_key key) (store h c key resp cost ttl w).1).0
      → (get h key w').0 ≡ ok (some (entry_for h resp cost (h.now w)))
  unfolding store get
  get-store c key resp cost ttl w w' done kept =
      let entry = entry_for h resp cost (h.now w) in
      let (b, encoded, there) = store_bytes-get c key ttl w (h.marshal entry) done in
      fetched-some (h.redis_get (redis_key key) w') (kept ∙ there) (
        ap h.unmarshal
          (maybe_decompress-shorter b (h.gzip b) refl (laws.marshal_plain entry b encoded))
        ∙ laws.unmarshal-marshal entry b encoded)
