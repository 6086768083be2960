-- ===== src/ExactCache/Middleware.antt =====
-- internal/gateway/middleware/cache.go: the middleware around the chat handler. Concurrent requests
-- that share one call of the handler (`singleflight`) are left out, and so are headers; the storing
-- of the response, which is done in a goroutine, comes after the answer.
use llm_router.Common.{
  ℕ, String, Bool, true, false, not, Option, none, some, List, str_eq, ◌==◌, if◌then◌else◌,
}
use llm_router.Common.Fallible.{Result, ok, err}
use llm_router.Common.Texts.{strip_suffix}
use llm_router.Streaming.Relay.{ChatCompletionChunk, Frame}
use llm_router.ExactCache.Store.{
  ChatRequest, ChatResponse, Entry, Headers, Cache, CacheHost, build_key, is_cacheable, get, store,
}
use llm_router.ExactCache.Replay.{replay_as_stream}

-- What the handler behind the middleware writes.
pub record Recorded (B : Type 0) : Type 0 where
  pub code : ℕ
  pub body : B

-- The answer: the handler's own, the recorded one, or one from the cache.
pub data Served (B : Type 0) : Type 0 where
  passed : Recorded B → Served B
  recorded : Recorded B → Served B
  hit_json : ChatResponse → Served B
  hit_stream : List (Frame ChatCompletionChunk) → Served B

abbrev pub has_suffix_of : Option String → Bool
has_suffix_of none = false
has_suffix_of (some s) = true

-- `fields` is `strings.Fields`.
module _ {F B W : Type 0} (h : CacheHost F B W) (fields : String → List String) where
  unfoldable pub serve_from_cache : Entry F → Bool → Served B
  unfolding replay_as_stream
  serve_from_cache e true = hit_stream (replay_as_stream fields e.response)
  serve_from_cache e false = hit_json e.response

  abbrev pub pass : Recorded B × W → Served B × W
  pass (r, w) = (passed r, w)

  abbrev pub store_parsed : Cache → String → Option ChatResponse → W → W
  store_parsed c key none w = w
  store_parsed c key (some resp) w = (store h c key resp h.zero_float 0 w).1

  unfoldable pub record_response : Cache → String → Recorded B × W → Served B × W
  unfolding store
  record_response c key (r, w) =
      (recorded r, if r.code == 200 then store_parsed c key (h.parse_response r.body) w else w)

  unfoldable pub miss : Cache → String → Bool → (W → Recorded B × W) → W → Served B × W
  unfolding record_response
  miss c key true next w = pass (next w)
  miss c key false next w = record_response c key (next w)

  abbrev pub after_lookup :
      Cache → String → Bool → (W → Recorded B × W) → Result (Option (Entry F)) × W → Served B × W
  after_lookup c key stream next (ok (some e), w) = (serve_from_cache e stream, w)
  after_lookup c key stream next (ok none, w) = miss c key stream next w
  after_lookup c key stream next (err e, w) = miss c key stream next w

  -- `none` for a body that cannot be read or decoded.
  unfoldable pub serve_body :
      Cache → Option (ChatRequest F) → Headers → (W → Recorded B × W) → W → Served B × W
  unfolding is_cacheable build_key get serve_from_cache miss
  serve_body c none headers next w = pass (next w)
  serve_body c (some req) headers next w =
      if not (is_cacheable h req true headers)
      then pass (next w)
      else if str_eq (build_key h req) ""
      then pass (next w)
      else after_lookup c (build_key h req) req.stream next (get h (build_key h req) w)

  unfoldable pub serve :
      Cache → String → Option (ChatRequest F) → Headers → (W → Recorded B × W) → W → Served B × W
  unfolding serve_body
  serve c path body headers next w =
      if has_suffix_of (strip_suffix "/chat/completions" path)
      then serve_body c body headers next w
      else pass (next w)
