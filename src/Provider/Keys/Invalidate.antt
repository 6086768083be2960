-- ===== src/Provider/Keys/Invalidate.antt =====
-- internal/provider/key_manager.go: after `InvalidateCache` the keys come from the store.
use Prim.Native.String.{◌++◌ as str_append}
use llm_router.Common.{
  String, ◌≡◌, refl, ap, inl, inr, true, none, List, [], ◌∷◌, str_eq, Bool-cases, str_eq-eq, lookup,
}
use llm_router.Common.Texts.{has_prefix, has_prefix-append}
use llm_router.Provider.Keys.{
  KeyHost, KeyEntry, KeyManager, reload_cache, fresh_keys, cached_or, cache_key, get_from_cache,
  drop_prefixed, invalidate_cache,
}

lookup-drop_prefixed :
    (p k : String) (m : List (String × KeyEntry))
    → has_prefix p k ≡ true
    → lookup k (drop_prefixed p m) ≡ none
unfolding drop_prefixed
lookup-drop_prefixed p k [] h = refl
lookup-drop_prefixed p k ((j, e) ∷ m) h = elim (Bool-cases (has_prefix p j)) [
  | inl t ↦ rw t (lookup-drop_prefixed p k m h)
  | inr n ↦ elim (Bool-cases (str_eq j k)) [
    | inl same ↦ cc (n, h, ap (has_prefix p) (str_eq-eq j k same))
    | inr other ↦ rw (n, other) (lookup-drop_prefixed p k m h)
  ]
]

module _ {W : Type 0} (kh : KeyHost W) where
  -- After `InvalidateCache` for a provider, the keys of each of its groups are read from the store,
  -- however young the entry of the cache was.
  pub get_from_cache-invalidate_cache :
      (m : KeyManager) (p g : String) (w : W)
      → get_from_cache kh (invalidate_cache p m) p g w
        ≡ reload_cache kh (invalidate_cache p m) p g (cache_key p g) w
  unfolding get_from_cache invalidate_cache cache_key
  get_from_cache-invalidate_cache m p g w =
      ap
        (λ o.
          cached_or kh (fresh_keys kh (invalidate_cache p m) (kh.now w) o) (invalidate_cache p m) w
            (reload_cache kh (invalidate_cache p m) p g (cache_key p g) w))
        (lookup-drop_prefixed p (cache_key p g) m.cache (has_prefix-append p (str_append "/" g)))
