-- ===== src/Mcp/Invariant.antt =====
-- internal/mcp/proxy.go: what holds of the audit log and of the cache after any sequence of calls.
use llm_router.Common.{
  ℕ, ◌+◌, ◌≤◌, String, ◌≡◌, refl, sym, ap, subst, ◌∙◌, inl, inr, Bool, true, false, Option, none,
  some, List, [], ◌∷◌, Memᴰ, arith, ltb, Bool-cases, lookup, All-weaken, All-insert, All-lookup,
}
use llm_router.Access.Tools.{ToolPolicy}
use llm_router.Mcp.Hub.{Hub, Raw, Result, ok, err, hub_call_tool}
use llm_router.Mcp.Cache.{
  ToolContent, ToolCallRequest, Host, CacheEntry, ResultCache, key, get, set, get_cached, clean,
  fresh,
}
use llm_router.Mcp.Proxy.{
  ToolCallEvent, ToolCallResponse, Proxy, Outcome, responded, new_proxy, log_event, content_of,
  finish,
}
use llm_router.Mcp.Runs.{
  Call, IsGranted, clean_cache, call, Reach, start, called, cleaned, elapsed, Permits, Replied,
  Stored, AllAudited, AllStored,
}
use llm_router.Mcp.Effects.{All-sweep, finish-hub, finish-audit, finish-cache, call_tool-cases}

module _ {W : Type 0} (h : Host W) (hub : Hub W) where
  Permits-weaken :
      (c : Call) (cs : List Call) (ev : ToolCallEvent)
      → Permits h hub cs ev
      → Permits h hub (c ∷ cs) ev
  Permits-weaken c cs ev (d, m, a, b, e, g) = (d, Memᴰ.tail m, a, b, e, g)

  Stored-weaken :
      (ttl : ℕ) (c : Call) (cs : List Call) (s : String × CacheEntry)
      → Stored h hub ttl cs s
      → Stored h hub ttl (c ∷ cs) s
  Stored-weaken ttl c cs (k, e) (d, raw, w, m, r, a, b, x) = (d, raw, w, Memᴰ.tail m, r, a, b, x)

  AllAudited-weaken :
      (c : Call) (cs : List Call) (o : Option (List ToolCallEvent))
      → AllAudited h hub cs o
      → AllAudited h hub (c ∷ cs) o
  AllAudited-weaken c cs none a = tt
  AllAudited-weaken c cs (some evs) a = All-weaken (Permits-weaken c cs) evs a

  AllStored-weaken :
      (ttl : ℕ) (c : Call) (cs : List Call) (o : Option ResultCache)
      → AllStored h hub ttl cs o
      → AllStored h hub ttl (c ∷ cs) o
  AllStored-weaken ttl c cs none a = tt
  AllStored-weaken ttl c cs (some r) a = (All-weaken (Stored-weaken ttl c cs) r.entries a.0, a.1)

  AllAudited-log_event :
      (cs : List Call) (ev : ToolCallEvent) (o : Option (List ToolCallEvent))
      → Permits h hub cs ev
      → AllAudited h hub cs o
      → AllAudited h hub cs (log_event ev o)
  AllAudited-log_event cs ev none e a = tt
  AllAudited-log_event cs ev (some evs) e a = (e, a)

  AllStored-set :
      (ttl : ℕ) (cs : List Call) (c : Call) (raw : Raw) (w : W) (r : ResultCache)
      → Memᴰ c cs
      → Replied h hub c raw w
      → AllStored h hub ttl cs (some r)
      → AllStored h hub ttl cs (some (set h r c.req (content_of h raw) (h.now w)))
  unfolding set
  AllStored-set ttl cs c raw w r m rep a = (
    All-insert (Stored h hub ttl cs) (key h c.req)
        (record { content = content_of h raw; expires_at = h.now w + r.ttl }) r.entries
        (c, raw, w, m, rep, refl, refl, ap (λ t. h.now w + t) a.1) a.0,
    a.1,
  )

  AllStored-clean :
      (ttl : ℕ) (cs : List Call) (o : Option ResultCache) (time : ℕ)
      → AllStored h hub ttl cs o
      → AllStored h hub ttl cs (clean_cache o time)
  unfolding clean
  AllStored-clean ttl cs none time a = tt
  AllStored-clean ttl cs (some r) time a = (All-sweep (Stored h hub ttl cs) time r.entries a.0, a.1)

  abbrev Sound : ℕ → List Call → Proxy W → Type 0
  Sound ttl cs p = (p.hub ≡ hub) × AllAudited h hub cs p.audit × AllStored h hub ttl cs p.cache

  finish-Sound :
      (ttl : ℕ) (cs : List Call) (c : Call) (s : ℕ) (w₀ : W) (p : Proxy W)
      → IsGranted c
      → Sound ttl cs p
      → Sound ttl
          (c ∷ cs)
          (finish h c.policy c.req c.key_id c.request_id s p
            (hub_call_tool hub c.req.server c.req.tool c.req.arguments w₀)).1
  finish-Sound ttl cs c s w₀ p g (a, b, d) =
      let r = hub_call_tool hub c.req.server c.req.tool c.req.arguments w₀ in
      let (ev, e, server_eq, tool_eq, id_eq) =
        finish-audit h c.policy c.req c.key_id c.request_id s p r in
      (
        finish-hub h c.policy c.req c.key_id c.request_id s p r ∙ a,
        subst (AllAudited h hub (c ∷ cs)) (sym e) (
            AllAudited-log_event (c ∷ cs) ev p.audit
              (c, Memᴰ.head refl, server_eq, tool_eq, id_eq, g) (AllAudited-weaken c cs p.audit b)),
        elim (finish-cache h c.policy c.req c.key_id c.request_id s p r) [
          | inl k ↦
              subst (AllStored h hub ttl (c ∷ cs)) (sym k) (AllStored-weaken ttl c cs p.cache d)
          | inr (raw, w, rc, replied, small, no_error, old, new) ↦
              subst (AllStored h hub ttl (c ∷ cs)) (sym new) (
                AllStored-set ttl (c ∷ cs) c raw w rc (Memᴰ.head refl)
                  ((w₀, replied), g, no_error, small)
                  (subst (AllStored h hub ttl (c ∷ cs)) old (AllStored-weaken ttl c cs p.cache d)))
        ],
      )

  call-Sound :
      (ttl : ℕ) (cs : List Call) (c : Call) (p : Proxy W) (w : W)
      → Sound ttl cs p
      → Sound ttl (c ∷ cs) (call h hub c p w).1
  call-Sound ttl cs c p w (a, b, d) = elim (call_tool-cases h p c hub w) [
    | inl (o, e) ↦ unchanged e
    | inr (g, inl (content, m, e)) ↦ unchanged e
    | inr (g, inr e) ↦
        subst (λ r. Sound ttl (c ∷ cs) r.1)
          (sym (
            e
            ∙ ap
                (λ u.
                  finish h c.policy c.req c.key_id c.request_id (h.now w) p
                    (hub_call_tool u c.req.server c.req.tool c.req.arguments w))
                a))
          (finish-Sound ttl cs c (h.now w) w p g (a, b, d))
  ]
    where
      unchanged :
          {o : Outcome} → call h hub c p w ≡ (o, p, w) → Sound ttl (c ∷ cs) (call h hub c p w).1
      unchanged e =
          subst (λ r. Sound ttl (c ∷ cs) r.1) (sym e)
            (a, AllAudited-weaken c cs p.audit b, AllStored-weaken ttl c cs p.cache d)

  pub new_proxy-Sound : (audited : Bool) (ttl : ℕ) → Sound ttl [] (new_proxy hub audited ttl)
  unfolding new_proxy
  new_proxy-Sound true ttl = elim (Bool-cases (ltb 0 ttl)) [
    | inl t ↦ (refl, tt, rw t (tt, refl))
    | inr n ↦ (refl, tt, rw n tt)
  ]
  new_proxy-Sound false ttl = elim (Bool-cases (ltb 0 ttl)) [
    | inl t ↦ (refl, tt, rw t (tt, refl))
    | inr n ↦ (refl, tt, rw n tt)
  ]

  pub Reach-Sound :
      (audited : Bool) (ttl : ℕ) {cs : List Call} {p : Proxy W} {w : W}
      → Reach h hub audited ttl cs p w
      → Sound ttl cs p
  Reach-Sound audited ttl (start w) = new_proxy-Sound audited ttl
  Reach-Sound audited ttl (called {cs} {p} {w = w} c r e) =
      subst (λ o. Sound ttl (c ∷ cs) o.1) e (call-Sound ttl cs c p w (Reach-Sound audited ttl r))
  Reach-Sound audited ttl (cleaned {cs} {p} {w} r) =
      let (a, b, d) = Reach-Sound audited ttl r in
      (a, b, AllStored-clean ttl cs p.cache (h.now w) d)
  Reach-Sound audited ttl (elapsed w' r) = Reach-Sound audited ttl r

  -- Every event in the audit log stems from a call with its server, its tool and its key, which the
  -- policy of that call lets through.
  pub Reach-AllAudited :
      (audited : Bool) (ttl : ℕ) {cs : List Call} {p : Proxy W} {w : W}
      → Reach h hub audited ttl cs p w
      → AllAudited h hub cs p.audit
  Reach-AllAudited audited ttl r = (Reach-Sound audited ttl r).1

  fresh-some :
      (time : ℕ) (o : Option CacheEntry) {content : List ToolContent}
      → fresh time o ≡ some content
      → (e : CacheEntry) × (o ≡ some e) × (e.content ≡ content) × (time ≤ e.expires_at)
  fresh-some time none e = cc
  fresh-some time (some r) e = (r, refl, ground arith, ground arith)

  get_cached-Stored :
      (ttl : ℕ) (cs : List Call) (o : Option ResultCache) (req : ToolCallRequest) (time : ℕ)
      {content : List ToolContent}
      → get_cached h o req time ≡ some content
      → AllStored h hub ttl cs o
      → (e : CacheEntry) × Stored h hub ttl cs (key h req, e)
        × (e.content ≡ content)
        × (time ≤ e.expires_at)
  unfolding get
  get_cached-Stored ttl cs none req time g a = cc
  get_cached-Stored ttl cs (some c) req time g a =
      let (e, l, q, t) = fresh-some time (lookup (key h req) c.entries) g in
      (e, All-lookup (Stored h hub ttl cs) (key h req) c.entries l a.0, q, t)

  responded-content : {a b : ToolCallResponse} → responded a ≡ responded b → a.content ≡ b.content
  responded-content e = cc

  finish-cached :
      (policy : Option ToolPolicy) (req : ToolCallRequest) (i j : String) (s : ℕ) (p : Proxy W)
      (r : Result Raw × W) {a : ToolCallResponse}
      → (finish h policy req i j s p r).0 ≡ responded a
      → a.cached ≡ false
  unfolding finish
  finish-cached policy req i j s p (err e, w) q = cc
  finish-cached policy req i j s p (ok raw, w) q = ground arith

  -- A cached answer is what the cache holds, and is given to granted calls only.
  call_tool-cached :
      (p : Proxy W) (c : Call) (w : W) {a : ToolCallResponse}
      → (call h hub c p w).0 ≡ responded a
      → a.cached ≡ true
      → IsGranted c
        × (get_cached h p.cache c.req (h.now w) ≡ some a.content)
        × ((call h hub c p w).1 ≡ p)
  call_tool-cached p c w {a} q t = elim (call_tool-cases h p c hub w) [
    | inl (o, e) ↦ cc (ap (λ r. r.0) e)
    | inr (g, inl (content, m, e)) ↦
        (g, m ∙ ap some (responded-content (sym (ap (λ r. r.0) e) ∙ q)), ap (λ r. r.1) e)
    | inr (g, inr e) ↦ cc (
        finish-cached c.policy c.req c.key_id c.request_id (h.now w) p
          (hub_call_tool p.hub c.req.server c.req.tool c.req.arguments w)
          (sym (ap (λ r. r.0) e) ∙ q))
  ]

  -- A cached answer goes only to a call that its policy lets through. It is the content of a reply
  -- to an earlier call with the same key, which that call's server sent at most `ttl` ago; the reply
  -- was no error, and the policy of that earlier call let the call and the size of the reply through.
  -- The answer leaves the proxy as it is: the audit log gets no event.
  pub Reach-cached :
      (audited : Bool) (ttl : ℕ) {cs : List Call} {p : Proxy W} {w : W}
      → Reach h hub audited ttl cs p w
      → (now_called : Call) {a : ToolCallResponse} → (call h hub now_called p w).0 ≡ responded a
      → a.cached ≡ true
      → IsGranted now_called
        × ((c : Call) × (raw : Raw) × (w₀ : W) × Memᴰ c cs
            × (key h c.req ≡ key h now_called.req)
            × Replied h hub c raw w₀
            × (a.content ≡ content_of h raw)
            × (h.now w ≤ h.now w₀ + ttl))
        × ((call h hub now_called p w).1 ≡ p)
  Reach-cached audited ttl {cs} {p} {w} r d q t =
      let (granted, g, kept) = call_tool-cached p d w q t in
      let (e, (c, raw, w₀, m, rep, k, q, x), q', t) =
        get_cached-Stored ttl cs p.cache d.req (h.now w) g (Reach-Sound audited ttl r).2 in
      (granted, (c, raw, w₀, m, sym k, rep, sym q' ∙ q, subst (λ n. h.now w ≤ n) x t), kept)
