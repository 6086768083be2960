-- ===== src/ExactCache/Replay.antt =====
-- internal/cache/exact/replay.go: a response from the cache as a stream. `fields` is
-- `strings.Fields`; flushing, the pauses and headers are left out.
use Prim.Native.String.{◌++◌ as str_append}
use llm_router.Common.{String, Option, none, List, [], ◌∷◌, ◌++◌}
use llm_router.Streaming.Relay.{ChatCompletionChunk, Delta, Usage, Frame, chunk_frame, done_frame}
use llm_router.ExactCache.Store.{ChatResponse, Choice}

-- A chunk with one choice.
abbrev pub replay_chunk : ChatResponse → Delta → String → Option Usage → Frame ChatCompletionChunk
replay_chunk r delta reason usage = chunk_frame record {
  id = r.id;
  object = "chat.completion.chunk";
  created = r.created;
  model = r.model;
  choices = record { index = 0; delta = delta; finish_reason = reason } ∷ [];
  usage = usage;
}

-- Every word but the last has a space behind it.
unfoldable pub spaced : List String → List String
spaced [] = []
spaced (word ∷ []) = word ∷ []
spaced (word ∷ next ∷ words) = str_append word " " ∷ spaced (next ∷ words)

unfoldable pub word_chunks : ChatResponse → List String → List (Frame ChatCompletionChunk)
word_chunks r [] = []
word_chunks r (text ∷ texts) =
    replay_chunk r (record { role = ""; content = text }) "" none ∷ word_chunks r texts

abbrev pub replay_choice :
    (String → List String) → ChatResponse → List Choice → List (Frame ChatCompletionChunk)
replay_choice fields r [] = done_frame ∷ []
replay_choice fields r (choice ∷ choices) =
    replay_chunk r (record { role = "assistant"; content = "" }) "" none
    ∷ (word_chunks r (spaced (fields choice.message.content))
        ++ (replay_chunk r (record { role = ""; content = "" }) choice.finish_reason r.usage
            ∷ done_frame
            ∷ []))

unfoldable pub replay_as_stream :
    (String → List String) → ChatResponse → List (Frame ChatCompletionChunk)
unfolding spaced word_chunks
replay_as_stream fields r = replay_choice fields r r.choices
