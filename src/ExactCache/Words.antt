-- ===== src/ExactCache/Words.antt =====
-- internal/cache/exact/replay.go: the text that the client reads from a replay.
use Prim.Native.String.{◌++◌ as str_append}
use text.Mathlib.TextLemmas.{nil-append, append-nil, append_assoc}
use llm_router.Common.{◌≡◌, refl, ap, ◌∙◌, String, List, [], ◌∷◌, ◌++◌}
use llm_router.Streaming.Relay.{
  ChatCompletionChunk, ChunkChoice, Frame, keepalive, chunk_frame, error_frame, done_frame,
}
use llm_router.ExactCache.Store.{ChatResponse, Choice}
use llm_router.ExactCache.Replay.{
  replay_chunk, spaced, word_chunks, replay_choice, replay_as_stream,
}

-- What a client that puts the pieces together has.
abbrev pub choice_text : List ChunkChoice → String
choice_text [] = ""
choice_text (c ∷ cs) = str_append c.delta.content (choice_text cs)

abbrev pub text_of : List (Frame ChatCompletionChunk) → String
text_of [] = ""
text_of (keepalive ∷ fs) = text_of fs
text_of (chunk_frame c ∷ fs) = str_append (choice_text c.choices) (text_of fs)
text_of (error_frame m ∷ fs) = text_of fs
text_of (done_frame ∷ fs) = text_of fs

-- `strings.Join(words, " ")`.
abbrev pub join_words : List String → String
join_words [] = ""
join_words (word ∷ []) = word
join_words (word ∷ next ∷ words) = str_append word (str_append " " (join_words (next ∷ words)))

text_of-word_chunks :
    (r : ChatResponse) (words : List String) (rest : List (Frame ChatCompletionChunk))
    → text_of rest ≡ ""
    → text_of (word_chunks r (spaced words) ++ rest) ≡ join_words words
unfolding word_chunks spaced
text_of-word_chunks r [] rest e = e
text_of-word_chunks r (word ∷ []) rest e =
    ap (λ t. str_append (str_append word "") t) e
    ∙ append-nil (str_append word "")
    ∙ append-nil word
text_of-word_chunks r (word ∷ next ∷ words) rest e =
    ap (λ t. str_append (str_append (str_append word " ") "") t)
      (text_of-word_chunks r (next ∷ words) rest e)
    ∙ ap (λ t. str_append t (join_words (next ∷ words))) (append-nil (str_append word " "))
    ∙ append_assoc word " " (join_words (next ∷ words))

-- The text of a replayed response is its words with one space between them: whatever else stands
-- between the words of the stored text, such as line breaks, is lost.
pub replay-text :
    (fields : String → List String) (r : ChatResponse) (choice : Choice) (choices : List Choice)
    → r.choices ≡ choice ∷ choices
    → text_of (replay_as_stream fields r) ≡ join_words (fields choice.message.content)
unfolding replay_as_stream
replay-text fields r choice choices e =
    ap (λ cs. text_of (replay_choice fields r cs)) e
    ∙ nil-append (
        text_of (
          word_chunks r (spaced (fields choice.message.content))
          ++ (replay_chunk r (record { role = ""; content = "" }) choice.finish_reason r.usage
              ∷ done_frame
              ∷ [])))
    ∙ text_of-word_chunks r (fields choice.message.content)
        (replay_chunk r (record { role = ""; content = "" }) choice.finish_reason r.usage
          ∷ done_frame
          ∷ [])
        refl
