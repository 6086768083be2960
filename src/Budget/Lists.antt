-- ===== src/Budget/Lists.antt =====
-- internal/budget/manager.go: the cache of budget lists.
use llm_router.Common.{
  ◌+◌, ◌<◌, String, ◌≡◌, ap, ◌∙◌, Bool, none, some, List, if◌then◌else◌, lt→ltb, str_eq_refl,
  lookup, insert, delete, lookup-insert, lookup-delete,
}
use llm_router.Common.Fallible.{ok}
use llm_router.Budget.{
  Budget, BudgetHost, CachedBudgetList, ListCache, list_cache_ttl, list_key, invalidate_list_cache,
  unexpired, listed, from_list_cache, cached_list,
}

lookup-delete_self :
    {V : Type 0} (k : String) (m : List (String × V)) → lookup k (delete k m) ≡ none
lookup-delete_self k m =
    lookup-delete k k m ∙ ap (λ b. if b then none else lookup k m) (str_eq_refl k)

lookup-insert_self :
    {V : Type 0} (k : String) (v : V) (m : List (String × V)) → lookup k (insert k v m) ≡ some v
lookup-insert_self k v m =
    lookup-insert k k v m ∙ ap (λ b. if b then some v else lookup k m) (str_eq_refl k)

module _ {F W : Type 0} (bh : BudgetHost F W) where
  -- The list of an entity's budgets that was read from the store is answered again, with no call of
  -- the store, for less than 60 s, whatever is read meanwhile; after `InvalidateListCache` the next
  -- call reads the store.
  pub cached_list_window :
      (m : ListCache F) (entity_type entity_id : String) (w w₁ w₂ : W) (bs : List (Budget F))
      → bh.list entity_type entity_id w ≡ (ok bs, w₁)
      → bh.now w₂ < bh.now w₁ + list_cache_ttl
      → (m₁ : ListCache F) × (cached_list bh
            (invalidate_list_cache entity_type entity_id m)
            entity_type
            entity_id
            w
          ≡ (ok bs, m₁, w₁))
        × (cached_list bh m₁ entity_type entity_id w₂ ≡ (ok bs, m₁, w₂))
  unfolding cached_list invalidate_list_cache
  cached_list_window m t i w w₁ w₂ bs e h =
      let key = list_key t i in
      let dropped : ListCache F = invalidate_list_cache t i m in
      let entry : CachedBudgetList F = record {
        budgets = bs;
        expires_at = bh.now w₁ + list_cache_ttl;
      } in
      let m₁ : ListCache F = insert key entry dropped in
      let gone : lookup key dropped ≡ none = lookup-delete_self key m in
      (
        m₁,
        ap
              (λ o.
                from_list_cache bh (unexpired bh (bh.now w) o) dropped w
                  (listed bh key dropped (bh.list t i w)))
              gone
            ∙ ap (listed bh key dropped) e,
        ap
              (λ o.
                from_list_cache bh (unexpired bh (bh.now w₂) o) m₁ w₂
                  (listed bh key m₁ (bh.list t i w₂)))
              (lookup-insert_self key entry dropped)
            ∙ ap
                (λ (b : Bool).
                  from_list_cache bh (if b then some bs else none) m₁ w₂
                    (listed bh key m₁ (bh.list t i w₂)))
                (lt→ltb _ _ h),
      )
