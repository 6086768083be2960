-- ===== src/Mcp/Proxy.antt =====
-- internal/mcp/proxy.go: the policy, the audit log, the size limit and the result cache before the
-- hub.
use llm_router.Common.{
  ℕ, ◌-◌, ◌/◌, String, Bool, true, false, not, Option, none, some, List, [], ◌∷◌, ltb,
  if◌then◌else◌, length,
}
use llm_router.Access.Tools.{ToolPolicy, can_call_tool, needs_approval, effective_max_result_size}
use llm_router.Mcp.Hub.{Hub, Arguments, Raw, Result, ok, err, hub_call_tool}
use llm_router.Mcp.Cache.{ToolContent, ToolCallRequest, Host, ResultCache, get, set, get_cached}

pub record ToolCallEvent : Type 0 where
  pub server : String
  pub tool : String
  pub arguments : Arguments
  pub result_size : ℕ
  pub duration_ms : ℕ
  pub error : String
  pub virtual_key_id : String
  pub request_id : String
  pub timestamp : ℕ

pub record ToolCallResponse : Type 0 where
  pub content : List ToolContent
  pub is_error : Bool
  pub cached : Bool
  pub duration_ms : ℕ

-- `audit` is the list of the events logged, the last one first, if there is a logger.
pub record Proxy (W : Type 0) : Type 0 where
  pub hub : Hub W
  pub audit : Option (List ToolCallEvent)
  pub cache : Option ResultCache

pub data CallError : Type 0 where
  policy_error : String → String → CallError
  needs_human : String → String → CallError
  call_failed : String → String → String → CallError
  too_large : ℕ → ℕ → CallError

pub data Outcome : Type 0 where
  responded : ToolCallResponse → Outcome
  refused : CallError → Outcome

unfoldable pub new_proxy : {W : Type 0} → Hub W → Bool → ℕ → Proxy W
new_proxy hub audited ttl = record {
  hub = hub;
  audit = if audited then some [] else none;
  cache = if ltb 0 ttl then some (record { entries = []; ttl = ttl }) else none;
}

abbrev pub log_event : ToolCallEvent → Option (List ToolCallEvent) → Option (List ToolCallEvent)
log_event ev none = none
log_event ev (some evs) = some (ev ∷ evs)

abbrev pub event : ToolCallRequest → String → String → ℕ → ℕ → String → ℕ → ToolCallEvent
event req key_id request_id start time error size = record {
  server = req.server;
  tool = req.tool;
  arguments = req.arguments;
  result_size = size;
  duration_ms = (time - start) / 1_000_000;
  error = error;
  virtual_key_id = key_id;
  request_id = request_id;
  timestamp = time;
}

module _ {W : Type 0} (h : Host W) where
  -- The content of a reply; one that is not JSON becomes plain text.
  abbrev pub content_of : Raw → List ToolContent
  content_of raw =
      if (h.unmarshal raw).failed
      then record { kind = "text"; text = h.as_text raw; payload = ""; mime_type = ""; uri = "" }
        ∷ []
      else (h.unmarshal raw).content

  abbrev pub store_result : Option ResultCache → ToolCallRequest → Raw → ℕ → Option ResultCache
  store_result none req raw time = none
  store_result (some c) req raw time =
      if (h.unmarshal raw).is_error then some c else some (set h c req (content_of raw) time)

  -- A reply that is within the limit.
  abbrev pub accept : ToolCallRequest → Raw → ℕ → Proxy W → W → Outcome × Proxy W × W
  accept req raw start p w = (
    responded record {
      content = content_of raw;
      is_error = (h.unmarshal raw).is_error;
      cached = false;
      duration_ms = (h.now w - start) / 1_000_000;
    },
    record p { cache = store_result p.cache req raw (h.now w) },
    w,
  )

  abbrev pub limited :
      Option ToolPolicy → ToolCallRequest → Raw → ℕ → Proxy W → W → Outcome × Proxy W × W
  limited policy req raw start p w =
      if ltb (effective_max_result_size policy) (length raw)
      then (refused (too_large (length raw) (effective_max_result_size policy)), p, w)
      else accept req raw start p w

  -- What follows the call of the hub, which started at `start`.
  unfoldable pub finish :
      Option ToolPolicy
      → ToolCallRequest
      → String
      → String
      → ℕ
      → Proxy W
      → Result Raw × W
      → Outcome × Proxy W × W
  unfolding effective_max_result_size set
  finish policy req key_id request_id start p (err e, w) = (
    refused (call_failed req.server req.tool e),
    record p { audit = log_event (event req key_id request_id start (h.now w) e 0) p.audit },
    w,
  )
  finish policy req key_id request_id start p (ok raw, w) =
      limited policy req raw start
        (record p {
          audit = log_event (event req key_id request_id start (h.now w) "" (length raw)) p.audit;
        })
        w

  unfoldable pub after_cache :
      Option (List ToolContent)
      → Option ToolPolicy
      → ToolCallRequest
      → String
      → String
      → Proxy W
      → W
      → Outcome × Proxy W × W
  unfolding finish hub_call_tool
  after_cache (some content) policy req key_id request_id p w = (
    responded record { content = content; is_error = false; cached = true; duration_ms = 0 },
    p,
    w,
  )
  after_cache none policy req key_id request_id p w =
      finish policy req key_id request_id (h.now w) p
        (hub_call_tool p.hub req.server req.tool req.arguments w)

  unfoldable pub call_tool :
      Proxy W → ToolCallRequest → Option ToolPolicy → String → String → W → Outcome × Proxy W × W
  unfolding after_cache get can_call_tool needs_approval
  call_tool p req policy key_id request_id w =
      if not (can_call_tool policy req.server req.tool)
      then (refused (policy_error req.server req.tool), p, w)
      else if needs_approval policy req.tool
      then (refused (needs_human req.tool req.server), p, w)
      else after_cache (get_cached h p.cache req (h.now w)) policy req key_id request_id p w
