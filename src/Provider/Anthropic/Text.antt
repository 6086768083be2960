-- ===== src/Provider/Anthropic/Text.antt =====
-- internal/provider/anthropic/stream.go and transform.go: a message as a stream and as one response.
use Prim.Native.String.{◌++◌ as str_append}
use text.Mathlib.TextLemmas.{nil-append, append-nil, append_assoc as str_append_assoc}
use llm_router.Common.{
  ℕ, ◌≡◌, refl, sym, ap, ◌∙◌, String, Bool, true, false, not, Option, none, some, List, [], ◌∷◌,
  ◌++◌, append_assoc, map, select, All, str_eq, str_eq-eq, Bool-cases, inl, inr, if◌then◌else◌,
}
use llm_router.Common.Fallible.{ok}
use llm_router.Streaming.Relay.{StreamChunk}
use llm_router.ExactCache.Store.{ChatResponse, Choice}
use llm_router.Provider.Anthropic.{
  Content, AnthropicResponse, StreamEvent, Wire, map_stop_reason, text_of, usage_of, to_response,
  parsed, parse_response, text_chunks, on_event, read_stream,
}

-- JSON that the package reads back; `null_json` is a delta that is not read.
pub record WireLaws {D : Type 0} (wire : Wire D) : Type 0 where
  pub event_json : StreamEvent D → D
  pub text_json : String → D
  pub stop_json : String → D
  pub null_json : D
  pub event-event_json : (e : StreamEvent D) → wire.event (event_json e) ≡ some e
  pub text_delta-text_json :
      (t : String) → wire.text_delta (text_json t) ≡ some (record { kind = "text_delta"; text = t })
  pub stop_delta-stop_json : (r : String) → wire.stop_delta (stop_json r) ≡ some r

abbrev pub concat_texts : List String → String
concat_texts [] = ""
concat_texts (t ∷ ts) = str_append t (concat_texts ts)

abbrev pub is_text : Content → Bool
is_text c = str_eq c.kind "text"

abbrev pub block_text : Content → String
block_text c = c.text

abbrev pub is_nonempty : String → Bool
is_nonempty t = not (str_eq t "")

-- A chunk with text and nothing else.
abbrev pub piece_chunk : String → StreamChunk
piece_chunk t = record { delta = t; finish_reason = none; usage = none; error = none }

text_of-blocks :
    (acc : String) (cs : List Content)
    → text_of acc cs ≡ str_append acc (concat_texts (map block_text (select is_text cs)))
unfolding text_of
text_of-blocks acc [] = sym (append-nil acc)
text_of-blocks acc (c ∷ cs) = elim (Bool-cases (is_text c)) [
  | inl e ↦ rw e (
      text_of-blocks (str_append acc c.text) cs
      ∙ str_append_assoc acc c.text (concat_texts (map block_text (select is_text cs))))
  | inr e ↦ rw e (text_of-blocks acc cs)
]

-- What a stream has between the start and the end of a message: pieces of text, deltas of another
-- kind, and events of another kind, such as `ping`, `content_block_start` and `content_block_stop`.
pub data Item (D : Type 0) : Type 0 where
  piece : String → Item D
  other_delta : D → Item D
  other_event : StreamEvent D → Item D

abbrev pub texts : {D : Type 0} → List (Item D) → List String
texts [] = []
texts (piece t ∷ is) = t ∷ texts is
texts (other_delta d ∷ is) = texts is
texts (other_event e ∷ is) = texts is

module _ {D : Type 0} (wire : Wire D) (laws : WireLaws wire) where
  -- The deltas that are not pieces have no text, and the other events no kind of a message or delta.
  abbrev pub IsItem : Item D → Type 0
  IsItem (piece t) = Unit
  IsItem (other_delta d) =
      (c : Content) → wire.text_delta d ≡ some c → str_eq c.kind "text_delta" ≡ false
  IsItem (other_event e) =
      (str_eq e.kind "message_start" ≡ false)
      × (str_eq e.kind "content_block_delta" ≡ false)
      × (str_eq e.kind "message_delta" ≡ false)
      × (str_eq e.kind "message_stop" ≡ false)

  abbrev pub delta_event : D → StreamEvent D
  delta_event d = record { kind = "content_block_delta"; delta = d; message = none; usage = none }

  abbrev pub event_of : Item D → StreamEvent D
  event_of (piece t) = delta_event (laws.text_json t)
  event_of (other_delta d) = delta_event d
  event_of (other_event e) = e

  abbrev pub start_event : ℕ → StreamEvent D
  start_event input = record {
    kind = "message_start";
    delta = laws.null_json;
    message = some input;
    usage = none;
  }

  abbrev pub end_event : String → ℕ → StreamEvent D
  end_event reason output = record {
    kind = "message_delta";
    delta = laws.stop_json reason;
    message = none;
    usage = some output;
  }

  abbrev pub stop_event : StreamEvent D
  stop_event = record {
    kind = "message_stop";
    delta = laws.null_json;
    message = none;
    usage = none;
  }

  abbrev pub item_data : List (Item D) → List D → List D
  item_data [] rest = rest
  item_data (i ∷ is) rest = laws.event_json (event_of i) ∷ item_data is rest

  -- The events of a message in their order: its start, the items, its end, further items and
  -- `message_stop`; `rest` is behind them.
  abbrev pub stream_data : ℕ → List (Item D) → String → ℕ → List (Item D) → List D → List D
  stream_data input items reason output late rest =
      laws.event_json (start_event input)
      ∷ item_data items (
          laws.event_json (end_event reason output)
          ∷ item_data late (laws.event_json stop_event ∷ rest))

  abbrev pub chunks_of : List (Item D) → List StreamChunk
  chunks_of is = map piece_chunk (select is_nonempty (texts is))

  text_chunks_none :
      (o : Option Content)
      → ((c : Content) → o ≡ some c → str_eq c.kind "text_delta" ≡ false)
      → text_chunks wire o ≡ []
  text_chunks_none none n = refl
  text_chunks_none (some c) n = rw (n c refl) refl

  on_event-item :
      (input : ℕ) (i : Item D)
      → IsItem i
      → on_event wire input (event_of i) ≡ (chunks_of (i ∷ []), input, true)
  unfolding on_event
  on_event-item input (piece t) u =
      rw (laws.text_delta-text_json t)
        (elim (Bool-cases (str_eq t "")) [ inl e ↦ rw e refl | inr e ↦ rw e refl ])
  on_event-item input (other_delta d) n =
      ap (λ cs. (cs, input, true)) (text_chunks_none (wire.text_delta d) n)
  on_event-item input (other_event e) (a, b, c, d) = rw (a, b, c, d) refl

  read_stream_on :
      (input : ℕ) (e : StreamEvent D) (cs : List StreamChunk) (input' : ℕ) (ds : List D)
      → on_event wire input e ≡ (cs, input', true)
      → read_stream wire input (laws.event_json e ∷ ds) ≡ cs ++ read_stream wire input' ds
  unfolding read_stream on_event
  read_stream_on input e cs input' ds p =
      rw (laws.event-event_json e, read_stream)
        (ap (λ q. let rest = read_stream wire q.1 ds in if q.2 then q.0 ++ rest else q.0) p)

  chunks_of-cons :
      (i : Item D) (is : List (Item D)) → chunks_of (i ∷ is) ≡ chunks_of (i ∷ []) ++ chunks_of is
  chunks_of-cons (piece t) is = elim (Bool-cases (str_eq t "")) [
    | inl e ↦ rw e refl
    | inr e ↦ rw e refl
  ]
  chunks_of-cons (other_delta d) is = refl
  chunks_of-cons (other_event e) is = refl

  read_stream-item_data :
      (input : ℕ) (is : List (Item D)) (rest : List D)
      → All IsItem is
      → read_stream wire input (item_data is rest) ≡ chunks_of is ++ read_stream wire input rest
  read_stream-item_data input [] rest h = refl
  read_stream-item_data input (i ∷ is) rest h =
      read_stream_on input (event_of i) (chunks_of (i ∷ [])) input (item_data is rest)
        (on_event-item input i h.0)
      ∙ ap (λ r. chunks_of (i ∷ []) ++ r) (read_stream-item_data input is rest h.1)
      ∙ sym (append_assoc (chunks_of (i ∷ [])) (chunks_of is) (read_stream wire input rest))
      ∙ ap (λ r. r ++ read_stream wire input rest) (sym (chunks_of-cons i is))

  -- The last chunk of a message.
  abbrev pub last_chunk : ℕ → String → ℕ → StreamChunk
  last_chunk input reason output = record {
    delta = "";
    finish_reason = some (map_stop_reason reason);
    usage = some (usage_of input output);
    error = none;
  }

  read_stream-stop :
      (input : ℕ) (rest : List D) → read_stream wire input (laws.event_json stop_event ∷ rest) ≡ []
  unfolding read_stream on_event
  read_stream-stop input rest = rw (laws.event-event_json stop_event, read_stream) refl

  on_event-end :
      (input : ℕ) (reason : String) (output : ℕ)
      → on_event wire input (end_event reason output)
        ≡ (last_chunk input reason output ∷ [], input, true)
  unfolding on_event
  on_event-end input reason output = rw (laws.stop_delta-stop_json reason) refl

  on_event-start : (input : ℕ) → on_event wire 0 (start_event input) ≡ ([], input, true)
  unfolding on_event
  on_event-start input = refl

  read_stream-stream_data :
      (input : ℕ) (is : List (Item D)) (reason : String) (output : ℕ) (late : List (Item D))
      (rest : List D)
      → All IsItem is
      → All IsItem late
      → texts late ≡ []
      → read_stream wire 0 (stream_data input is reason output late rest)
        ≡ chunks_of is ++ (last_chunk input reason output ∷ [])
  read_stream-stream_data input is reason output late rest h hl quiet =
      let stop = laws.event_json stop_event ∷ rest in
      let fin = laws.event_json (end_event reason output) ∷ item_data late stop in
      read_stream_on 0 (start_event input) [] input (item_data is fin) (on_event-start input)
      ∙ read_stream-item_data input is fin h
      ∙ ap (λ r. chunks_of is ++ r)
          (read_stream_on input (end_event reason output) (last_chunk input reason output ∷ [])
              input (item_data late stop) (on_event-end input reason output)
            ∙ ap (λ r. last_chunk input reason output ∷ r)
                (read_stream-item_data input late stop hl
                  ∙ ap
                      (λ ts. map piece_chunk (select is_nonempty ts) ++ read_stream wire input stop)
                      quiet
                  ∙ read_stream-stop input rest))

  concat_texts-select : (ts : List String) → concat_texts (select is_nonempty ts) ≡ concat_texts ts
  concat_texts-select [] = refl
  concat_texts-select (t ∷ ts) = elim (Bool-cases (str_eq t "")) [
    | inl e ↦ rw e (
        concat_texts-select ts
        ∙ sym (nil-append (concat_texts ts))
        ∙ ap (λ u. str_append u (concat_texts ts)) (sym (str_eq-eq t "" e)))
    | inr e ↦ rw e (ap (str_append t) (concat_texts-select ts))
  ]

  -- A message gives a client the same as a stream and as one response. Let the package read back the
  -- JSON of the response and of the events, which are the start of the message, pieces of text,
  -- other deltas and events of other kinds (`ping`, `content_block_start`, `content_block_stop`),
  -- the end of the message, again others, and `message_stop`, and let the pieces make up the text
  -- of the response's text blocks. Then the stream has one chunk for each piece that is not empty,
  -- in order, and one last chunk; the pieces make up the content of the gateway's response, and the
  -- last chunk has its finish reason and its usage. What follows `message_stop` is not read.
  pub read_stream-parse_response :
      (model : String) (body : D) (time input output : ℕ) (reason id : String)
      (content : List Content) (is late : List (Item D)) (rest : List D)
      → All IsItem is
      → All IsItem late
      → texts late ≡ []
      → concat_texts (map block_text (select is_text content)) ≡ concat_texts (texts is)
      → wire.response body
        ≡ some (record {
          id = id;
          content = content;
          stop_reason = reason;
          input_tokens = input;
          output_tokens = output;
        })
      → (resp : ChatResponse) × (choice : Choice) × (parse_response wire model body time ≡ ok resp)
        × (resp.choices ≡ choice ∷ [])
        × (choice.message.content ≡ concat_texts (select is_nonempty (texts is)))
        × (read_stream wire 0 (stream_data input is reason output late rest)
            ≡ map piece_chunk (select is_nonempty (texts is))
              ++ (record {
                delta = "";
                finish_reason = some choice.finish_reason;
                usage = resp.usage;
                error = none;
              }
                  ∷ []))
  unfolding parse_response
  read_stream-parse_response model body time input output reason id content is late rest h hl quiet
        same read =
      let r : AnthropicResponse = record {
        id = id;
        content = content;
        stop_reason = reason;
        input_tokens = input;
        output_tokens = output;
      } in
      (
        to_response model time r,
        record {
          index = 0;
          message = record { role = "assistant"; content = text_of "" content };
          finish_reason = map_stop_reason reason;
        },
        ap (parsed wire model time) read,
        refl,
        text_of-blocks "" content
            ∙ nil-append (concat_texts (map block_text (select is_text content)))
            ∙ same
            ∙ sym (concat_texts-select (texts is)),
        read_stream-stream_data input is reason output late rest h hl quiet,
      )
