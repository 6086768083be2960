-- ===== src/ExactCache/Store.antt =====
-- internal/cache/exact/cache.go and key.go: keys, and storing and fetching entries. `F` is `float64`,
-- `B` is `[]byte`; JSON, SHA-256, gzip, Redis and the clock are the record `CacheHost`. Embeddings,
-- which are kept in the same way, and the deletion of entries are left out.
use Prim.Native.String.{◌++◌ as str_append}
use llm_router.Common.{
  ℕ, String, Bool, true, false, not, ◌&&◌, ◌||◌, Option, none, some, List, str_eq, ltb, ◌==◌,
  if◌then◌else◌,
}
use llm_router.Common.Int.{ℤ, pos}
use llm_router.Common.Fallible.{Result, ok, err}
use llm_router.Chat.{Message}
use llm_router.Streaming.Relay.{Usage}

-- `types.ChatCompletionRequest` without the fields that only the gateway reads; `stop` and `tools` are
-- JSON text.
pub record ChatRequest (F : Type 0) : Type 0 where
  pub model : String
  pub messages : List Message
  pub temperature : Option F
  pub max_tokens : Option ℤ
  pub top_p : Option F
  pub n : Option ℤ
  pub stream : Bool
  pub stop : String
  pub presence_penalty : Option F
  pub frequency_penalty : Option F
  pub user : String
  pub tools : List String

pub record Choice : Type 0 where
  pub index : ℕ
  pub message : Message
  pub finish_reason : String

pub record ChatResponse : Type 0 where
  pub id : String
  pub object : String
  pub created : ℕ
  pub model : String
  pub choices : List Choice
  pub usage : Option Usage

pub record Entry (F : Type 0) : Type 0 where
  pub response : ChatResponse
  pub created_at : ℕ
  pub model : String
  pub prompt_tokens : ℕ
  pub completion_tokens : ℕ
  pub cost_usd : F

pub record CacheKeyData (F : Type 0) : Type 0 where
  pub model : String
  pub messages : List Message
  pub temperature : F
  pub max_tokens : ℤ
  pub top_p : F

pub record Headers : Type 0 where
  pub cache_control : String
  pub no_cache : String

pub record Cache : Type 0 where
  pub max_response_size : ℕ
  pub default_ttl : ℕ

-- `digest` is SHA-256 of the JSON text in hexadecimal, or nothing if there is no such text; `gunzip`
-- reads a compressed text to its end. `redis_get` returns nothing for `redis.Nil`.
pub record CacheHost (F B W : Type 0) : Type 0 where
  pub zero_float : F
  pub is_positive : F → Bool
  pub digest : CacheKeyData F → Option String
  pub size : B → ℕ
  pub byte_at : B → ℕ → ℕ
  pub marshal : Entry F → Option B
  pub unmarshal : B → Option (Entry F)
  pub parse_response : B → Option ChatResponse
  pub gzip : B → Option B
  pub gunzip : B → Option B
  pub now : W → ℕ
  pub redis_get : String → W → Result (Option B) × W
  pub redis_set : String → B → ℕ → W → Bool × W

-- What `Store` returns.
pub data Stored : Type 0 where
  stored marshal_failed too_large set_failed : Stored

abbrev pub redis_key : String → String
redis_key key = str_append "cache:exact:" key

abbrev pub or_zero {ℓ} : {A : Type ℓ} → A → Option A → A
or_zero z none = z
or_zero z (some v) = v

unfoldable pub is_opt_out : Headers → Bool
is_opt_out h = str_eq h.cache_control "no-cache" || str_eq h.no_cache "true"

module _ {F B W : Type 0} (h : CacheHost F B W) where
  unfoldable pub key_data : ChatRequest F → CacheKeyData F
  key_data req = record {
    model = req.model;
    messages = req.messages;
    temperature = or_zero h.zero_float req.temperature;
    max_tokens = or_zero (pos 0) req.max_tokens;
    top_p = or_zero h.zero_float req.top_p;
  }

  unfoldable pub build_key : ChatRequest F → String
  unfolding key_data
  build_key req = or_zero "" (h.digest (key_data req))

  abbrev pub is_hot : Option F → Bool
  is_hot none = false
  is_hot (some t) = h.is_positive t

  abbrev pub is_set : Option ℤ → Bool
  is_set none = false
  is_set (some n) = true

  unfoldable pub is_cacheable : ChatRequest F → Bool → Headers → Bool
  unfolding is_opt_out
  is_cacheable req temperature_zero_only headers =
      if is_opt_out headers
      then false
      else if not (is_set req.max_tokens)
      then false
      else if temperature_zero_only && is_hot req.temperature
      then false
      else true

  -- The two bytes that every gzip text starts with.
  unfoldable pub is_gzip : B → Bool
  is_gzip b =
      if ltb (h.size b) 2 || not (h.byte_at b 0 == 0x1f) || not (h.byte_at b 1 == 0x8b)
      then false
      else true

  unfoldable pub maybe_decompress : B → B
  unfolding is_gzip
  maybe_decompress b = if is_gzip b then or_zero b (h.gunzip b) else b

  abbrev pub decoded : Option (Entry F) → Result (Option (Entry F))
  decoded none = err "cache unmarshal"
  decoded (some e) = ok (some e)

  abbrev pub fetched : Result (Option B) × W → Result (Option (Entry F)) × W
  fetched (err e, w) = (err e, w)
  fetched (ok none, w) = (ok none, w)
  fetched (ok (some b), w) = (decoded (h.unmarshal (maybe_decompress b)), w)

  unfoldable pub get : String → W → Result (Option (Entry F)) × W
  unfolding maybe_decompress
  get key w = fetched (h.redis_get (redis_key key) w)

  abbrev pub prompt_tokens_of : Option Usage → ℕ
  prompt_tokens_of none = 0
  prompt_tokens_of (some u) = u.prompt_tokens

  abbrev pub completion_tokens_of : Option Usage → ℕ
  completion_tokens_of none = 0
  completion_tokens_of (some u) = u.completion_tokens

  unfoldable pub entry_for : ChatResponse → F → ℕ → Entry F
  entry_for resp cost time = record {
    response = resp;
    created_at = time;
    model = resp.model;
    prompt_tokens = prompt_tokens_of resp.usage;
    completion_tokens = completion_tokens_of resp.usage;
    cost_usd = cost;
  }

  -- The compressed text, if there is one and it is shorter.
  abbrev pub shorter : B → Option B → B
  shorter b none = b
  shorter b (some z) = if ltb (h.size z) (h.size b) then z else b

  abbrev pub set_result : Bool × W → Stored × W
  set_result (done, w) = (if done then stored else set_failed, w)

  abbrev pub store_bytes : Cache → String → ℕ → W → Option B → Stored × W
  store_bytes c key ttl w none = (marshal_failed, w)
  store_bytes c key ttl w (some b) =
      if ltb c.max_response_size (h.size b)
      then (too_large, w)
      else set_result (
          h.redis_set (redis_key key) (shorter b (h.gzip b))
            (if ttl == 0 then c.default_ttl else ttl) w)

  unfoldable pub store : Cache → String → ChatResponse → F → ℕ → W → Stored × W
  unfolding entry_for
  store c key resp cost ttl w = store_bytes c key ttl w (h.marshal (entry_for resp cost (h.now w)))
