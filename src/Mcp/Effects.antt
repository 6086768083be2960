-- ===== src/Mcp/Effects.antt =====
-- internal/mcp/proxy.go: what one call does to the proxy.
use llm_router.Common.{
  ℕ, ◌≤◌, String, ◌≡◌, refl, ◌⊎◌, inl, inr, true, false, Option, none, some, List, [], ◌∷◌, arith,
  ltb, Bool-cases, Option-cases, length, All,
}
use llm_router.Access.Tools.{ToolPolicy, can_call_tool, needs_approval, effective_max_result_size}
use llm_router.Mcp.Hub.{Hub, Raw, Result, ok, err, hub_call_tool}
use llm_router.Mcp.Cache.{
  ToolContent, ToolCallRequest, Host, CacheEntry, ResultCache, set, get_cached, sweep,
}
use llm_router.Mcp.Proxy.{
  ToolCallEvent, Proxy, CallError, policy_error, needs_human, Outcome, responded, refused,
  log_event, event, content_of, store_result, finish, after_cache, call_tool,
}
use llm_router.Mcp.Runs.{Call, IsGranted, call}

pub All-sweep :
    (P : String × CacheEntry → Type 0) (time : ℕ) (m : List (String × CacheEntry))
    → All P m
    → All P (sweep time m)
unfolding sweep
All-sweep P time [] hs = tt
All-sweep P time ((k, e) ∷ m) hs = elim (Bool-cases (ltb e.expires_at time)) [
  | inl t ↦ rw t (All-sweep P time m hs.1)
  | inr t ↦ rw t (hs.0, All-sweep P time m hs.1)
]

module _ {W : Type 0} (h : Host W) where
  pub finish-hub :
      (policy : Option ToolPolicy) (req : ToolCallRequest) (i j : String) (s : ℕ) (p : Proxy W)
      (r : Result Raw × W)
      → (finish h policy req i j s p r).1.hub ≡ p.hub
  unfolding finish
  finish-hub policy req i j s p (err e, w) = refl
  finish-hub policy req i j s p (ok raw, w) = ground arith

  pub finish-audit :
      (policy : Option ToolPolicy) (req : ToolCallRequest) (i j : String) (s : ℕ) (p : Proxy W)
      (r : Result Raw × W)
      → (ev : ToolCallEvent) × ((finish h policy req i j s p r).1.audit ≡ log_event ev p.audit)
        × (ev.server ≡ req.server)
        × (ev.tool ≡ req.tool)
        × (ev.virtual_key_id ≡ i)
  unfolding finish
  finish-audit policy req i j s p (err e, w) =
      (event req i j s (h.now w) e 0, refl, refl, refl, refl)
  finish-audit policy req i j s p (ok raw, w) =
      (event req i j s (h.now w) "" (length raw), ground arith, refl, refl, refl)

  store_result-cases :
      (o : Option ResultCache) (req : ToolCallRequest) (raw : Raw) (time : ℕ)
      → (store_result h o req raw time ≡ o)
        ⊎ ((c : ResultCache) × ((h.unmarshal raw).is_error ≡ false)
            × (o ≡ some c)
            × (store_result h o req raw time ≡ some (set h c req (content_of h raw) time)))
  store_result-cases none req raw time = inl refl
  store_result-cases (some c) req raw time = elim (Bool-cases (h.unmarshal raw).is_error) [
    | inl t ↦ inl (rw t)
    | inr n ↦ inr (c, n, refl, rw n)
  ]

  pub finish-cache :
      (policy : Option ToolPolicy) (req : ToolCallRequest) (i j : String) (s : ℕ) (p : Proxy W)
      (r : Result Raw × W)
      → ((finish h policy req i j s p r).1.cache ≡ p.cache)
        ⊎ ((raw : Raw) × (w : W) × (c : ResultCache) × (r ≡ (ok raw, w))
            × (length raw ≤ effective_max_result_size policy)
            × ((h.unmarshal raw).is_error ≡ false)
            × (p.cache ≡ some c)
            × ((finish h policy req i j s p r).1.cache
                ≡ some (set h c req (content_of h raw) (h.now w))))
  unfolding finish
  finish-cache policy req i j s p (err e, w) = inl refl
  finish-cache policy req i j s p (ok raw, w) =
      elim (Bool-cases (ltb (effective_max_result_size policy) (length raw))) [
        | inl t ↦ inl (rw t)
        | inr n ↦ elim (store_result-cases p.cache req raw (h.now w)) [
          | inl e ↦ inl (rw n e)
          | inr (c, no_error, e, e') ↦ inr (raw, w, c, refl, ground arith, no_error, e, rw n e')
        ]
      ]

  abbrev pub hit : List ToolContent → Outcome
  hit content =
      responded record { content = content; is_error = false; cached = true; duration_ms = 0 }

  -- What a call does: it is refused, answered from the cache, or sent to the hub.
  pub call_tool-cases :
      (p : Proxy W) (c : Call) (hub : Hub W) (w : W)
      → ((e : CallError) × (call h hub c p w ≡ (refused e, p, w)))
        ⊎ (IsGranted c
            × (((content : List ToolContent) × (get_cached h p.cache c.req (h.now w) ≡ some content)
                  × (call h hub c p w ≡ (hit content, p, w)))
                ⊎ (call h hub c p w
                    ≡ finish h c.policy c.req c.key_id c.request_id
                        (h.now w)
                        p
                        (hub_call_tool p.hub c.req.server c.req.tool c.req.arguments w))))
  unfolding call_tool after_cache
  call_tool-cases p c hub w = elim (Bool-cases (can_call_tool c.policy c.req.server c.req.tool)) [
    | inr n ↦ inl (policy_error c.req.server c.req.tool, rw n)
    | inl y ↦ elim (Bool-cases (needs_approval c.policy c.req.tool)) [
      | inl a ↦ inl (needs_human c.req.tool c.req.server, rw (y, a))
      | inr b ↦ elim (Option-cases (get_cached h p.cache c.req (h.now w))) [
        | inr (content, e) ↦ inr ((y, b), inl (content, e, rw (y, b, e)))
        | inl e ↦ inr ((y, b), inr (rw (y, b, e)))
      ]
    ]
  ]
