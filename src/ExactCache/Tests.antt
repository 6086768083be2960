-- ===== src/ExactCache/Tests.antt =====
-- A store with one cell, in which texts of entries are plain or compressed.
use llm_router.Common.{
  ℕ, ◌≡◌, refl, ◌≢◌, String, true, false, Option, none, some, List, [], ◌∷◌, str_eq,
}
use llm_router.Common.Int.{pos}
use llm_router.Common.Fallible.{ok}
use llm_router.ExactCache.Store.{
  ChatRequest, ChatResponse, Entry, Headers, Cache, CacheHost, stored, redis_key, is_gzip,
  build_key, is_cacheable, get, entry_for, store,
}
use llm_router.ExactCache.Middleware.{Recorded, Served, recorded, serve}
use llm_router.ExactCache.Codec.{CodecLaws}
use llm_router.ExactCache.Repeat.{SameQuestion, AnswersWith, serve-repeat}

data Blob : Type 0 where
  plain : Entry ℕ → Blob
  zipped : Blob → Blob

abbrev size : Blob → ℕ
size (plain e) = 10
size (zipped b) = 5

abbrev byte_at : Blob → ℕ → ℕ
byte_at (plain e) i = 0x7b
byte_at (zipped b) ℕ.zero = 0x1f
byte_at (zipped b) (ℕ.suc i) = 0x8b

abbrev unmarshal : Blob → Option (Entry ℕ)
unmarshal (plain e) = some e
unmarshal (zipped b) = none

abbrev response_of : Blob → Option ChatResponse
response_of (plain e) = some e.response
response_of (zipped b) = none

abbrev gunzip : Blob → Option Blob
gunzip (plain e) = none
gunzip (zipped b) = some b

abbrev cell : CacheHost ℕ Blob (Option Blob)
cell = record {
  zero_float = 0;
  is_positive = λ t. false;
  digest = λ d. some "key";
  size = size;
  byte_at = byte_at;
  marshal = λ e. some (plain e);
  unmarshal = unmarshal;
  parse_response = response_of;
  gzip = λ b. some (zipped b);
  gunzip = gunzip;
  now = λ w. 7;
  redis_get = λ k w. (ok w, w);
  redis_set = λ k b t w. (true, some b);
}

plain_law : (e : Entry ℕ) (b : Blob) → some (plain e) ≡ some b → is_gzip cell b ≡ false
unfolding is_gzip
plain_law e (plain d) p = refl
plain_law e (zipped b) p = cc

unmarshal_law : (e : Entry ℕ) (b : Blob) → some (plain e) ≡ some b → unmarshal b ≡ some e
unmarshal_law e (plain d) p = cc
unmarshal_law e (zipped b) p = cc

magic_law : (b z : Blob) → some (zipped b) ≡ some z → is_gzip cell z ≡ true
unfolding is_gzip
magic_law b (plain e) p = cc
magic_law b (zipped c) p = refl

gunzip_law : (b z : Blob) → some (zipped b) ≡ some z → gunzip z ≡ some b
gunzip_law b (plain e) p = cc
gunzip_law b (zipped c) p = cc

abbrev cell_laws : CodecLaws cell
cell_laws = record {
  unmarshal-marshal = unmarshal_law;
  marshal_plain = plain_law;
  gzip_magic = magic_law;
  gunzip-gzip = gunzip_law;
  get-set = λ k b t w p. refl;
}

abbrev limits : Cache
limits = record { max_response_size = 100; default_ttl = 60 }

abbrev hello : ChatResponse
hello = record {
  id = "1";
  object = "chat.completion";
  created = 3;
  model = "m";
  choices =
      record {
        index = 0;
        message = record { role = "assistant"; content = "a\nb" };
        finish_reason = "stop";
      }
      ∷ [];
  usage = none;
}

stores : (store cell limits "key" hello 0 0 none).0 ≡ stored
unfolding store
stores = refl

abbrev ask : List String → ChatRequest ℕ
ask tools = record {
  model = "m";
  messages = [];
  temperature = none;
  max_tokens = some (pos 5);
  top_p = none;
  n = none;
  stream = false;
  stop = "";
  presence_penalty = none;
  frequency_penalty = none;
  user = "";
  tools = tools;
}

abbrev no_headers : Headers
no_headers = record { cache_control = ""; no_cache = "" }

abbrev reply : Recorded Blob
reply = record { code = 200; body = plain (entry_for cell hello 0 7) }

abbrev answer : Option Blob → Recorded Blob × Option Blob
answer w = (reply, w)

abbrev words : String → List String
words s = "a" ∷ "b" ∷ []

abbrev first_time : Served Blob × Option Blob
first_time = serve cell words limits "/v1/chat/completions" (some (ask [])) no_headers answer none

looked_up :
    (tools : List String)
    → (is_cacheable cell (ask tools) true no_headers ≡ true)
      × (str_eq (build_key cell (ask tools)) "" ≡ false)
unfolding is_cacheable build_key
looked_up tools = (refl, refl)

same_question : SameQuestion cell words (ask []) (ask ("{}" ∷ []))
same_question = record {
  same_model = refl;
  same_messages = refl;
  same_temperature = refl;
  same_max_tokens = refl;
  same_top_p = refl;
}

not_there : (e : Entry ℕ) → (get cell (build_key cell (ask [])) none).0 ≢ ok (some e)
unfolding get build_key
not_there e p = cc p

called_once : answer (get cell (build_key cell (ask [])) none).1 ≡ (reply, none)
unfolding get build_key
called_once = refl

reads_reply : cell.parse_response reply.body ≡ some hello
unfolding entry_for
reads_reply = refl

stores_reply : (store cell limits (build_key cell (ask [])) hello 0 0 none).0 ≡ stored
unfolding store
stores_reply = refl

abbrev second_time : Served Blob × Option Blob
second_time =
    serve cell words limits "/v1/chat/completions" (some (ask ("{}" ∷ []))) no_headers answer
      first_time.1

serve-repeat_example :
    (first_time.0 ≡ recorded reply)
    × AnswersWith cell words hello false second_time.0
    × (second_time.1 ≡ (cell.redis_get (redis_key (build_key cell (ask []))) first_time.1).1)
serve-repeat_example =
    serve-repeat cell words cell_laws limits "/v1" (ask []) (ask ("{}" ∷ [])) no_headers no_headers
      answer answer reply hello none none first_time.1 (looked_up []) (looked_up ("{}" ∷ [])) refl
      same_question not_there called_once refl reads_reply stores_reply refl
