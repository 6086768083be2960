-- ===== src/Mcp/Tests.antt =====
-- One server with one tool, whose reply is always the same, called twice with a cache.
use llm_router.Common.InsertSort.{by_insertion}
use llm_router.Common.{ℕ, ◌+◌, ◌≤◌, ◌≡◌, refl, true, false, none, [], ◌∷◌, Memᴰ}
use llm_router.Mcp.Hub.{Hub, Server, Raw, ok, err, Tool}
use llm_router.Mcp.Cache.{Parsed, Host, key}
use llm_router.Mcp.Proxy.{
  ToolCallResponse, Proxy, Outcome, responded, new_proxy, content_of, call_tool,
}
use llm_router.Mcp.Runs.{Call, IsGranted, call, Reach, start, called, Replied, AllAudited}
use llm_router.Mcp.Listing.{list_tools}
use llm_router.Mcp.Invariant.{Reach-AllAudited, Reach-cached}

abbrev search_tool : Tool
search_tool = record { name = "find"; description = ""; input_schema = "{}"; server = "" }

abbrev files : Server ℕ
files = record {
  name = "files";
  connect = λ w. (none, w);
  close = λ w. (none, w);
  health = λ w. (none, w);
  list_tools = λ w. (ok (search_tool ∷ []), w);
  list_resources = λ w. (ok [], w);
  list_prompts = λ w. (ok [], w);
  call_tool = λ tool args w. (ok (1 ∷ 2 ∷ []), w + 5);
  read_resource = λ uri w. (err "none", w);
  get_prompt = λ name args w. (err "none", w);
}

abbrev clockwork : Host ℕ
clockwork = record {
  now = λ w. w;
  sort = by_insertion;
  sum_hex = λ s. s;
  unmarshal =
      λ raw. let r : Parsed = record { failed = false; content = []; is_error = false } in r;
  as_text = λ raw. "";
}

abbrev one_server : Hub ℕ
one_server = ("files", files) ∷ []

abbrev lookup_call : Call
lookup_call = record {
  req = record { server = "files"; tool = "find"; arguments = [] };
  policy = none;
  key_id = "k";
  request_id = "r";
}

abbrev once : Outcome × Proxy ℕ × ℕ
once = call clockwork one_server lookup_call (new_proxy one_server true 100) 0

called_once : Reach clockwork one_server true 100 (lookup_call ∷ []) once.1 once.2
called_once = called lookup_call (start 0) refl

Reach-AllAudited_example : AllAudited clockwork one_server (lookup_call ∷ []) once.1.audit
Reach-AllAudited_example = Reach-AllAudited clockwork one_server true 100 called_once

abbrev from_cache : ToolCallResponse
from_cache = record { content = []; is_error = false; cached = true; duration_ms = 0 }

hits : (call clockwork one_server lookup_call once.1 once.2).0 ≡ responded from_cache
unfolding call_tool new_proxy
hits = refl

Reach-cached_example :
    IsGranted lookup_call
    × ((c : Call) × (raw : Raw) × (w₀ : ℕ) × Memᴰ c (lookup_call ∷ [])
        × (key clockwork c.req ≡ key clockwork lookup_call.req)
        × Replied clockwork one_server c raw w₀
        × (from_cache.content ≡ content_of clockwork raw)
        × (once.2 ≤ w₀ + 100))
    × ((call clockwork one_server lookup_call once.1 once.2).1 ≡ once.1)
Reach-cached_example =
    Reach-cached clockwork one_server true 100 called_once lookup_call {a = from_cache} hits refl

shows :
    Memᴰ
      (record search_tool { server = "files" })
      (list_tools (new_proxy one_server true 100) "" none 0).0
unfolding list_tools new_proxy
shows = Memᴰ.head refl
