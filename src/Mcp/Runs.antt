-- ===== src/Mcp/Runs.antt =====
-- internal/mcp/proxy.go: sequences of calls, in any order, with ticks of the cache's cleanup and
-- changes of the outside world between them.
use llm_router.Common.{
  ℕ, ◌+◌, ◌≤◌, String, ◌≡◌, Bool, true, false, Option, none, some, List, [], ◌∷◌, Memᴰ, length, All,
}
use llm_router.Access.Tools.{ToolPolicy, can_call_tool, needs_approval, effective_max_result_size}
use llm_router.Mcp.Hub.{Hub, Raw, ok, hub_call_tool}
use llm_router.Mcp.Cache.{ToolCallRequest, Host, CacheEntry, ResultCache, key, clean}
use llm_router.Mcp.Proxy.{ToolCallEvent, Proxy, Outcome, new_proxy, content_of, call_tool}

pub record Call : Type 0 where
  pub req : ToolCallRequest
  pub policy : Option ToolPolicy
  pub key_id : String
  pub request_id : String

-- The policy of the call lets it through.
abbrev pub IsGranted : Call → Type 0
IsGranted c =
    (can_call_tool c.policy c.req.server c.req.tool ≡ true)
    × (needs_approval c.policy c.req.tool ≡ false)

abbrev pub clean_cache : Option ResultCache → ℕ → Option ResultCache
clean_cache none time = none
clean_cache (some c) time = some (clean c time)

module _ {W : Type 0} (h : Host W) (hub : Hub W) where
  abbrev pub call : Call → Proxy W → W → Outcome × Proxy W × W
  call c p w = call_tool h p c.req c.policy c.key_id c.request_id w

  -- The calls made so far, the last one first, and what they lead to.
  pub data Reach (audited : Bool) (ttl : ℕ) : List Call → Proxy W → W → Type 0 where
    start : (w : W) → Reach audited ttl [] (new_proxy hub audited ttl) w
    called :
        {cs : List Call} {p p' : Proxy W} {w w' : W} {o : Outcome} (c : Call)
        → Reach audited ttl cs p w
        → call c p w ≡ (o, p', w')
        → Reach audited ttl (c ∷ cs) p' w'
    cleaned :
        {cs : List Call} {p : Proxy W} {w : W}
        → Reach audited ttl cs p w
        → Reach audited ttl cs (record p { cache = clean_cache p.cache (h.now w) }) w
    elapsed :
        {cs : List Call} {p : Proxy W} {w : W} (w' : W)
        → Reach audited ttl cs p w
        → Reach audited ttl cs p w'

  -- An event of the audit log stems from a call that its policy lets through.
  abbrev pub Permits : List Call → ToolCallEvent → Type 0
  Permits cs ev =
      (c : Call) × Memᴰ c cs
      × (ev.server ≡ c.req.server)
      × (ev.tool ≡ c.req.tool)
      × (ev.virtual_key_id ≡ c.key_id)
      × IsGranted c

  -- The reply to a call that is fit for the cache: its server sent it before `w`, it is no error,
  -- and the policy of that call lets the call and the size of the reply through.
  abbrev pub Replied : Call → Raw → W → Type 0
  Replied c raw w =
      ((w₀ : W) × (hub_call_tool hub c.req.server c.req.tool c.req.arguments w₀ ≡ (ok raw, w)))
      × IsGranted c
      × ((h.unmarshal raw).is_error ≡ false)
      × (length raw ≤ effective_max_result_size c.policy)

  abbrev pub Stored : ℕ → List Call → String × CacheEntry → Type 0
  Stored ttl cs (k, e) =
      (c : Call) × (raw : Raw) × (w : W) × Memᴰ c cs
      × Replied c raw w
      × (k ≡ key h c.req)
      × (e.content ≡ content_of h raw)
      × (e.expires_at ≡ h.now w + ttl)

  abbrev pub AllAudited : List Call → Option (List ToolCallEvent) → Type 0
  AllAudited cs none = Unit {0}
  AllAudited cs (some evs) = All (Permits cs) evs

  abbrev pub AllStored : ℕ → List Call → Option ResultCache → Type 0
  AllStored ttl cs none = Unit {0}
  AllStored ttl cs (some c) = All (Stored ttl cs) c.entries × (c.ttl ≡ ttl)
