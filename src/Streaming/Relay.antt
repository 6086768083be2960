-- ===== src/Streaming/Relay.antt =====
-- internal/gateway/proxy/stream.go: the loop that relays chunks to the client, for both formats.
-- What `select` picks in each round is given as a sequence of events. The bytes that are written
-- are a list of frames; flushing, write deadlines and log lines are left out. `fresh_id` and
-- `created` are the stream's identifier and time, which are taken once.
use llm_router.Common.{
  ℕ, String, Bool, true, Option, none, some, List, [], ◌∷◌, str_eq, if◌then◌else◌,
}
use llm_router.Provider.Errors.{Error, as_gateway, code_string}
use llm_router.Fallback.Router.{Providers, call_with_retry}

pub record Usage : Type 0 where
  pub prompt_tokens : ℕ
  pub completion_tokens : ℕ
  pub total_tokens : ℕ

-- `provider.StreamChunk`; the error is its message.
pub record StreamChunk : Type 0 where
  pub delta : String
  pub finish_reason : Option String
  pub usage : Option Usage
  pub error : Option String

pub record Delta : Type 0 where
  pub role : String
  pub content : String

pub record ChunkChoice : Type 0 where
  pub index : ℕ
  pub delta : Delta
  pub finish_reason : String

pub record ChatCompletionChunk : Type 0 where
  pub id : String
  pub object : String
  pub created : ℕ
  pub model : String
  pub choices : List ChunkChoice
  pub usage : Option Usage

pub record CompletionStreamChoice : Type 0 where
  pub index : ℕ
  pub text : String
  pub finish_reason : String

pub record CompletionStreamChunk : Type 0 where
  pub id : String
  pub object : String
  pub created : ℕ
  pub model : String
  pub choices : List CompletionStreamChoice
  pub usage : Option Usage

abbrev no_delta : Delta
no_delta = record { role = ""; content = "" }

unfoldable pub chunk_choice : StreamChunk → Option String → ChunkChoice
chunk_choice sc (some reason) = record { index = 0; delta = no_delta; finish_reason = reason }
chunk_choice sc none = record {
  index = 0;
  delta = record { role = ""; content = sc.delta };
  finish_reason = "";
}

unfoldable pub build_chunk : String → ℕ → String → StreamChunk → ChatCompletionChunk
unfolding chunk_choice
build_chunk id created model sc = record {
  id = id;
  object = "chat.completion.chunk";
  created = created;
  model = model;
  choices = chunk_choice sc sc.finish_reason ∷ [];
  usage = sc.usage;
}

-- The first chunk, which has the role only.
unfoldable pub role_chunk : String → ℕ → String → ChatCompletionChunk
role_chunk id created model = record {
  id = id;
  object = "chat.completion.chunk";
  created = created;
  model = model;
  choices =
      record { index = 0; delta = record { role = "assistant"; content = "" }; finish_reason = "" }
      ∷ [];
  usage = none;
}

abbrev or_empty : Option String → String
or_empty none = ""
or_empty (some s) = s

unfoldable pub build_text_chunk : String → ℕ → String → StreamChunk → CompletionStreamChunk
build_text_chunk id created model sc = record {
  id = id;
  object = "text_completion";
  created = created;
  model = model;
  choices = record { index = 0; text = sc.delta; finish_reason = or_empty sc.finish_reason } ∷ [];
  usage = sc.usage;
}

-- What is written to the client.
pub data Frame (C : Type 0) : Type 0 where
  keepalive : Frame C
  chunk_frame : C → Frame C
  error_frame : String → Frame C
  done_frame : Frame C

-- What a round of the loop sees.
pub data Event : Type 0 where
  cancelled : Event
  tick : Event
  received : StreamChunk → Event
  closed : Event

-- The request's log context, as far as the loop writes it.
pub record StreamLog : Type 0 where
  pub first_token : Bool
  pub tokens : Option Usage
  pub finish : String
  pub error : Option String

abbrev pub or_else {ℓ} : {A : Type ℓ} → Option A → Option A → Option A
or_else (some a) b = some a
or_else none b = b

abbrev pub or_keep : Option String → String → String
or_keep (some s) t = s
or_keep none t = t

unfoldable pub note_chunk : StreamChunk → StreamLog → StreamLog
note_chunk sc log = record {
  first_token = if str_eq sc.delta "" then log.first_token else true;
  tokens = or_else sc.usage log.tokens;
  finish = or_keep sc.finish_reason log.finish;
  error = log.error;
}

module _ {C : Type 0} where
  -- A chunk with an error ends the stream; after another one the loop goes on with result `r`.
  unfoldable pub on_received :
      Option String → C → List (Frame C) × StreamLog → StreamLog → List (Frame C) × StreamLog
  on_received (some message) c r log =
      (error_frame message ∷ done_frame ∷ [], record log { error = some message })
  on_received none c (out, log') log = (chunk_frame c ∷ out, log')

module _ {C : Type 0} (build : StreamChunk → C) where
  -- The loop: the frames that are written, and the log after it.
  unfoldable pub relay : List Event → StreamLog → List (Frame C) × StreamLog
  unfolding note_chunk on_received
  relay [] log = ([], log)
  relay (cancelled ∷ es) log = ([], log)
  relay (tick ∷ es) log = let (out, log') = relay es log in (keepalive ∷ out, log')
  relay (closed ∷ es) log = (done_frame ∷ [], log)
  relay (received sc ∷ es) log = on_received sc.error (build sc) (relay es (note_chunk sc log)) log

-- What the client gets: an HTTP error, or a stream with status 200.
pub data Sent (C : Type 0) : Type 0 where
  http_error : ℕ → String → Sent C
  stream : List (Frame C) → Sent C

unfoldable pub stream_channel_to_client :
    Bool → String → ℕ → String → List Event → StreamLog → Sent ChatCompletionChunk × StreamLog
unfolding relay build_chunk role_chunk
stream_channel_to_client flusher fresh_id created model es log =
    if flusher
    then (let (out, log') = relay (build_chunk fresh_id created model) es log in
        (stream (chunk_frame (role_chunk fresh_id created model) ∷ out), log'))
    else (http_error 500 "streaming unsupported by server", log)

unfoldable pub stream_text_channel_to_client :
    Bool → String → ℕ → String → List Event → StreamLog → Sent CompletionStreamChunk × StreamLog
unfolding relay build_text_chunk
stream_text_channel_to_client flusher fresh_id created model es log =
    if flusher
    then (let (out, log') = relay (build_text_chunk fresh_id created model) es log in
        (stream out, log'))
    else (http_error 500 "streaming unsupported by server", log)

-- `StreamToClient`: the provider's stream is opened with retries before anything is written; `R` is
-- the stream, `events` what the loop then sees, and `show` is `err.Error()`.
unfoldable pub stream_to_client :
    {W R : Type 0} (ps : Providers W R)
    → Bool
    → String
    → String
    → String
    → ℕ
    → String
    → (Error → String)
    → (Option R → W → List Event)
    → StreamLog
    → W
    → Sent ChatCompletionChunk × StreamLog
unfolding stream_channel_to_client
stream_to_client ps flusher provider parsed_model fresh_id created model show events log w =
    if flusher
    then (let (err, s) = call_with_retry ps provider parsed_model w in
        elim err [
          | none ↦ stream_channel_to_client true fresh_id created model (events s.0 s.1) log
          | some e ↦ elim (as_gateway e) [
            | some g ↦ (
              http_error g.http_status (code_string g.code),
              record log { error = some g.message },
            )
            | none ↦ (http_error 502 "api_error", record log { error = some (show e) })
          ]
        ])
    else (http_error 500 "streaming unsupported by server", log)
