-- ===== src/ExactCache/Repeat.antt =====
-- internal/gateway/middleware/cache.go: a request that is asked again.
use Prim.Native.String.{◌++◌ as str_append}
use llm_router.Common.{
  ◌≡◌, ◌≢◌, refl, subst, sym, ap, ◌∙◌, [], ◌∷◌, ◌++◌, String, Bool, true, false, Option, none, some,
  List, str_eq,
}
use llm_router.Common.Int.{pos}
use llm_router.Common.Fallible.{Result, ok, err}
use llm_router.Common.Texts.{strip_suffix-append}
use llm_router.ExactCache.Store.{
  ChatRequest, ChatResponse, Choice, Entry, Headers, Cache, CacheHost, stored, redis_key, key_data,
  build_key, is_cacheable, fetched, get, or_zero, entry_for, store,
}
use llm_router.ExactCache.Middleware.{
  Recorded, Served, passed, recorded, hit_json, hit_stream, serve_from_cache, after_lookup, miss,
  record_response, serve_body, serve,
}
use llm_router.Streaming.Relay.{ChatCompletionChunk, Frame, chunk_frame, done_frame}
use llm_router.ExactCache.Replay.{
  replay_chunk, spaced, word_chunks, replay_choice, replay_as_stream,
}
use llm_router.ExactCache.Words.{text_of, join_words, replay-text}
use llm_router.ExactCache.Codec.{CodecLaws, get-store}

module _ {F B W : Type 0} (h : CacheHost F B W) (fields : String → List String) where
  -- The request is one that the middleware looks up.
  abbrev pub IsLookedUp : ChatRequest F → Headers → Type 0
  IsLookedUp req headers =
      (is_cacheable h req true headers ≡ true) × (str_eq (build_key h req) "" ≡ false)

  serve_looked_up :
      (c : Cache) (p : String) (req : ChatRequest F) (headers : Headers) (next : W → Recorded B × W)
      (w : W)
      → IsLookedUp req headers
      → serve h fields c (str_append p "/chat/completions") (some req) headers next w
        ≡ after_lookup h fields c (build_key h req) req.stream next (get h (build_key h req) w)
  unfolding serve serve_body
  serve_looked_up c p req headers next w (cacheable, keyed) =
      rw (strip_suffix-append p "/chat/completions", cacheable, keyed) refl

  after_lookup-miss :
      (c : Cache) (key : String) (next : W → Recorded B × W) (q : Result (Option (Entry F)) × W)
      → ((e : Entry F) → q.0 ≢ ok (some e))
      → after_lookup h fields c key false next q ≡ record_response h fields c key (next q.1)
  unfolding miss
  after_lookup-miss c key next (err m, w) n = refl
  after_lookup-miss c key next (ok none, w) n = refl
  after_lookup-miss c key next (ok (some e), w) n = absurd (n e refl)

  after_lookup-hit :
      (c : Cache) (key : String) (stream : Bool) (next : W → Recorded B × W)
      (q : Result (Option (Entry F)) × W) {e : Entry F}
      → q.0 ≡ ok (some e)
      → after_lookup h fields c key stream next q ≡ (serve_from_cache h fields e stream, q.1)
  after_lookup-hit c key stream next (err m, w) p = cc
  after_lookup-hit c key stream next (ok none, w) p = cc
  after_lookup-hit c key stream next (ok (some d), w) {e} p =
      let same : d ≡ e = cc p in ap (λ x. (serve_from_cache h fields x stream, w)) same

  record_response-ok :
      (c : Cache) (key : String) (r : Recorded B) (w : W) {resp : ChatResponse}
      → r.code ≡ 200
      → h.parse_response r.body ≡ some resp
      → record_response h fields c key (r, w)
        ≡ (recorded r, (store h c key resp h.zero_float 0 w).1)
  unfolding record_response
  record_response-ok c key r w ok_code parsed = rw (ok_code, parsed) refl

  -- What the key is made of.
  pub record SameQuestion (req req' : ChatRequest F) : Type 0 where
    pub same_model : req'.model ≡ req.model
    pub same_messages : req'.messages ≡ req.messages
    pub same_temperature :
        or_zero h.zero_float req'.temperature ≡ or_zero h.zero_float req.temperature
    pub same_max_tokens : or_zero (pos 0) req'.max_tokens ≡ or_zero (pos 0) req.max_tokens
    pub same_top_p : or_zero h.zero_float req'.top_p ≡ or_zero h.zero_float req.top_p

  same_key : (req req' : ChatRequest F) → SameQuestion req req' → build_key h req' ≡ build_key h req
  unfolding build_key key_data
  same_key req req' s =
      let same_data : key_data h req' ≡ key_data h req =
        cc (s.same_model, s.same_messages, s.same_temperature, s.same_max_tokens, s.same_top_p) in
      ap (λ d. or_zero "" (h.digest d)) same_data

  -- The frames of a response: at the end the finish reason and the usage, then the end marker; their
  -- text is the words of the first choice with single spaces.
  abbrev pub Replays : ChatResponse → List (Frame ChatCompletionChunk) → Type 0
  Replays resp fs =
      (choice : Choice) (choices : List Choice)
      → resp.choices ≡ choice ∷ choices
      → (text_of fs ≡ join_words (fields choice.message.content))
        × ((start : List (Frame ChatCompletionChunk)) × (fs
              ≡ start
                ++ (chunk_frame (record {
                  id = resp.id;
                  object = "chat.completion.chunk";
                  created = resp.created;
                  model = resp.model;
                  choices =
                      record {
                        index = 0;
                        delta = record { role = ""; content = "" };
                        finish_reason = choice.finish_reason;
                      }
                      ∷ [];
                  usage = resp.usage;
                })
                    ∷ done_frame
                    ∷ [])))

  -- The answer is this response from the cache, as JSON or as a stream.
  abbrev pub AnswersWith : ChatResponse → Bool → Served B → Type 0
  AnswersWith resp false (hit_json r) = r ≡ resp
  AnswersWith resp true (hit_stream fs) = Replays resp fs
  AnswersWith resp true (hit_json r) = ⊥
  AnswersWith resp false (hit_stream fs) = ⊥
  AnswersWith resp stream (passed r) = ⊥
  AnswersWith resp stream (recorded r) = ⊥

  replay-Replays : (resp : ChatResponse) → Replays resp (replay_as_stream fields resp)
  unfolding replay_as_stream
  replay-Replays resp choice choices e =
      let start : List (Frame ChatCompletionChunk) =
        replay_chunk resp (record { role = "assistant"; content = "" }) "" none
        ∷ word_chunks resp (spaced (fields choice.message.content)) in
      (replay-text fields resp choice choices e, (start, ap (replay_choice fields resp) e))

  serve_from_cache-AnswersWith :
      (e : Entry F) (stream : Bool)
      → AnswersWith e.response stream (serve_from_cache h fields e stream)
  unfolding serve_from_cache
  serve_from_cache-AnswersWith e true = replay-Replays e.response
  serve_from_cache-AnswersWith e false = refl

  get_world : (q : Result (Option B) × W) → (fetched h q).1 ≡ q.1
  get_world (err e, w) = refl
  get_world (ok none, w) = refl
  get_world (ok (some b), w) = refl

  -- A request without streaming that the cache does not answer gets the handler's response, and
  -- where this has status 200 and can be decoded and stored, every request that the cache looks up
  -- and that has the same model, messages, temperature, number of tokens and `top_p`, where one
  -- that is not set counts as zero, is answered with that response: as JSON, or as a stream that,
  -- if the response has a choice, has the words of the first one's text, and at the end its finish
  -- reason, the usage and the end marker. Nothing but the read from Redis happens, so that the
  -- handler is not called. This holds for as long as Redis answers as it did right after; what else
  -- the requests ask for, such as tools and stop sequences, does not matter.
  pub serve-repeat :
      (laws : CodecLaws h) (c : Cache) (p : String) (req req' : ChatRequest F)
      (headers headers' : Headers) (next next' : W → Recorded B × W) (r : Recorded B)
      (resp : ChatResponse) (w w₁ w' : W)
      → IsLookedUp req headers
      → IsLookedUp req' headers'
      → req.stream ≡ false
      → SameQuestion req req'
      → ((e : Entry F) → (get h (build_key h req) w).0 ≢ ok (some e))
      → next (get h (build_key h req) w).1 ≡ (r, w₁)
      → r.code ≡ 200
      → h.parse_response r.body ≡ some resp
      → (store h c (build_key h req) resp h.zero_float 0 w₁).0 ≡ stored
      → (h.redis_get (redis_key (build_key h req)) w').0
        ≡ (h.redis_get
            (redis_key (build_key h req))
            (serve h fields c (str_append p "/chat/completions") (some req) headers next w).1).0
      → ((serve h fields c (str_append p "/chat/completions") (some req) headers next w).0
          ≡ recorded r)
        × AnswersWith resp req'.stream
            (serve h fields c (str_append p "/chat/completions") (some req') headers' next' w').0
        × ((serve h fields c (str_append p "/chat/completions") (some req') headers' next' w').1
            ≡ (h.redis_get (redis_key (build_key h req)) w').1)
  unfolding get
  serve-repeat laws c p req req' headers headers' next next' r resp w w₁ w' l l' plain same missed
        called ok_code parsed done kept =
      let key = build_key h req in
      let e = entry_for h resp h.zero_float (h.now w₁) in
      let first : serve h fields c (str_append p "/chat/completions") (some req) headers next w
          ≡ (recorded r, (store h c key resp h.zero_float 0 w₁).1) =
        serve_looked_up c p req headers next w l
        ∙ ap (λ b. after_lookup h fields c key b next (get h key w)) plain
        ∙ after_lookup-miss c key next (get h key w) missed
        ∙ ap (record_response h fields c key) called
        ∙ record_response-ok c key r w₁ ok_code parsed in
      let there : (get h key w').0 ≡ ok (some e) =
        get-store h laws c key resp h.zero_float 0 w₁ w' done
          (kept ∙ ap (λ q. (h.redis_get (redis_key key) q.1).0) first) in
      let again : serve h fields c (str_append p "/chat/completions") (some req') headers' next' w'
          ≡ (serve_from_cache h fields e req'.stream, (get h key w').1) =
        serve_looked_up c p req' headers' next' w' l'
        ∙ ap (λ k. after_lookup h fields c k req'.stream next' (get h k w'))
            (same_key req req' same)
        ∙ after_lookup-hit c key req'.stream next' (get h key w') there in
      let answered : AnswersWith resp req'.stream (serve_from_cache h fields e req'.stream) =
        unfold entry_for in serve_from_cache-AnswersWith e req'.stream in
      (
        ap (λ q. q.0) first,
        subst (AnswersWith resp req'.stream) (sym (ap (λ q. q.0) again)) answered,
        ap (λ q. q.1) again ∙ get_world (h.redis_get (redis_key key) w'),
      )
