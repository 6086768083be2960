-- ===== src/Provider/Anthropic.antt =====
-- internal/provider/anthropic/transform.go and stream.go: requests to Anthropic, and its answers in
-- the gateway's form. Its JSON, texts of type `D`, is the record `Wire`; `F` is `float64`. Calls over HTTP are left out.
pub mod Messages
pub mod Text
mod Tests
use Prim.Native.String.{◌++◌ as str_append}
use llm_router.Common.{
  ℕ, ◌+◌, String, Bool, true, false, Option, none, some, List, [], ◌∷◌, ◌++◌, str_eq, if◌then◌else◌,
}
use llm_router.Common.Int.{ℤ, pos}
use llm_router.Common.Fallible.{Result, ok, err}
use llm_router.Chat.{Message}
use llm_router.Streaming.Relay.{Usage, StreamChunk}
use llm_router.ExactCache.Store.{ChatRequest, ChatResponse}

pub record AnthropicRequest (F : Type 0) : Type 0 where
  pub model : String
  pub max_tokens : ℤ
  pub system : String
  pub messages : List Message
  pub temperature : Option F
  pub top_p : Option F
  pub stop_sequences : List String
  pub stream : Bool

pub record Content : Type 0 where
  pub kind : String
  pub text : String

pub record AnthropicResponse : Type 0 where
  pub id : String
  pub content : List Content
  pub stop_reason : String
  pub input_tokens : ℕ
  pub output_tokens : ℕ

-- `message` and `usage` are the numbers of tokens in those fields; `D` is JSON text.
pub record StreamEvent (D : Type 0) : Type 0 where
  pub kind : String
  pub delta : D
  pub message : Option ℕ
  pub usage : Option ℕ

-- `json.Unmarshal` into the types of the package.
pub record Wire (D : Type 0) : Type 0 where
  pub one_stop : String → Option String
  pub many_stops : String → Option (List String)
  pub response : D → Option AnthropicResponse
  pub event : D → Option (StreamEvent D)
  pub text_delta : D → Option Content
  pub stop_delta : D → Option String

unfoldable pub map_stop_reason : String → String
map_stop_reason reason =
    if str_eq reason "max_tokens"
    then "length"
    else if str_eq reason "tool_use"
    then "tool_calls"
    else "stop"

abbrev pub max_tokens_or : Option ℤ → ℤ
max_tokens_or none = pos 4096
max_tokens_or (some n) = n

-- The loop over the messages, with the system text and the messages so far.
unfoldable pub separate : List Message → String → List Message → String × List Message
separate [] system kept = (system, kept)
separate (m ∷ ms) system kept =
    let as_system = separate ms m.content kept in
    let as_message = separate ms system (kept ++ (m ∷ [])) in
    if str_eq m.role "system" then as_system else as_message

unfoldable pub text_of : String → List Content → String
text_of text [] = text
text_of text (c ∷ cs) =
    let longer = text_of (str_append text c.text) cs in
    let rest = text_of text cs in if str_eq c.kind "text" then longer else rest

abbrev pub usage_of : ℕ → ℕ → Usage
usage_of input output = record {
  prompt_tokens = input;
  completion_tokens = output;
  total_tokens = input + output;
}

abbrev pub to_response : String → ℕ → AnthropicResponse → ChatResponse
to_response model time r = record {
  id = str_append "chatcmpl-" r.id;
  object = "chat.completion";
  created = time;
  model = model;
  choices =
      record {
        index = 0;
        message = record { role = "assistant"; content = text_of "" r.content };
        finish_reason = map_stop_reason r.stop_reason;
      }
      ∷ [];
  usage = some (usage_of r.input_tokens r.output_tokens);
}

module _ {D : Type 0} (wire : Wire D) where
  abbrev pub or_many : Option String → Option (List String) → List String
  or_many (some s) many = s ∷ []
  or_many none (some ss) = ss
  or_many none none = []

  abbrev pub stops_of : String → List String
  stops_of stop = if str_eq stop "" then [] else or_many (wire.one_stop stop) (wire.many_stops stop)

  unfoldable pub build_request : {F : Type 0} → String → ChatRequest F → AnthropicRequest F
  unfolding separate
  build_request model req = record {
    model = model;
    max_tokens = max_tokens_or req.max_tokens;
    system = (separate req.messages "" []).0;
    messages = (separate req.messages "" []).1;
    temperature = req.temperature;
    top_p = req.top_p;
    stop_sequences = stops_of req.stop;
    stream = req.stream;
  }

  abbrev pub parsed : String → ℕ → Option AnthropicResponse → Result ChatResponse
  parsed model time none = err "unmarshal anthropic response"
  parsed model time (some r) = ok (to_response model time r)

  unfoldable pub parse_response : String → D → ℕ → Result ChatResponse
  unfolding text_of map_stop_reason
  parse_response model body time = parsed model time (wire.response body)

  abbrev pub text_chunks : Option Content → List StreamChunk
  text_chunks none = []
  text_chunks (some d) =
      if str_eq d.kind "text_delta"
      then (if str_eq d.text ""
          then []
          else record { delta = d.text; finish_reason = none; usage = none; error = none } ∷ [])
      else []

  abbrev pub stream_usage : ℕ → Option ℕ → Option Usage
  stream_usage input none = none
  stream_usage input (some output) = some (usage_of input output)

  abbrev pub stop_chunks : ℕ → Option ℕ → Option String → List StreamChunk
  stop_chunks input usage none = []
  stop_chunks input usage (some reason) =
      record {
        delta = "";
        finish_reason = some (map_stop_reason reason);
        usage = stream_usage input usage;
        error = none;
      }
      ∷ []

  abbrev pub or_same : ℕ → Option ℕ → ℕ
  or_same input none = input
  or_same input (some n) = n

  -- The chunks of an event, the input tokens after it, and whether the loop goes on.
  unfoldable pub on_event : ℕ → StreamEvent D → List StreamChunk × ℕ × Bool
  unfolding map_stop_reason
  on_event input ev =
      if str_eq ev.kind "message_start"
      then ([], or_same input ev.message, true)
      else if str_eq ev.kind "content_block_delta"
      then (text_chunks (wire.text_delta ev.delta), input, true)
      else if str_eq ev.kind "message_delta"
      then (stop_chunks input ev.usage (wire.stop_delta ev.delta), input, true)
      else if str_eq ev.kind "message_stop"
      then ([], input, false)
      else ([], input, true)

  -- The loop over the data of the events.
  unfoldable pub read_stream : ℕ → List D → List StreamChunk
  unfolding on_event
  read_stream input [] = []
  read_stream input (d ∷ ds) = elim (wire.event d) [
    | none ↦
        record {
          delta = "";
          finish_reason = none;
          usage = none;
          error = some "parse anthropic event";
        }
        ∷ []
    | some ev ↦
        let (chunks, input', goes_on) = on_event input ev in
        let rest = read_stream input' ds in if goes_on then chunks ++ rest else chunks
  ]
