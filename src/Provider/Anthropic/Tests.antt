-- ===== src/Provider/Anthropic/Tests.antt =====
-- Requests to Anthropic and its answers on small inputs, with witnesses.
use llm_router.Common.{
  ℕ, ◌≡◌, refl, String, false, Option, none, some, List, [], ◌∷◌, ◌++◌, All, map, select,
}
use llm_router.Common.Fallible.{ok}
use llm_router.ExactCache.Store.{ChatRequest, ChatResponse, Choice}
use llm_router.Provider.Anthropic.{
  Content, AnthropicResponse, StreamEvent, Wire, build_request, parse_response, read_stream,
}
use llm_router.Provider.Anthropic.Messages.{
  is_system, is_other, content_of, last_or, build_request-messages,
}
use llm_router.Provider.Anthropic.Text.{
  WireLaws, Item, piece, other_delta, other_event, IsItem, texts, is_nonempty, piece_chunk,
  concat_texts, stream_data, read_stream-parse_response,
}

abbrev asked : ChatRequest ℕ
asked = record {
  model = "claude";
  messages =
      record { role = "system"; content = "Be brief." }
      ∷ record { role = "user"; content = "Hello" }
      ∷ record { role = "system"; content = "Be kind." }
      ∷ [];
  temperature = none;
  max_tokens = none;
  top_p = none;
  n = none;
  stream = false;
  stop = "";
  presence_penalty = none;
  frequency_penalty = none;
  user = "";
  tools = [];
}

-- JSON as its syntax tree, as far as it is used.
data Json : Type 0 where
  text_node : String → Json
  stop_node : String → Json
  response_node : AnthropicResponse → Json
  event_node : String → Json → Option ℕ → Option ℕ → Json

abbrev as_response : Json → Option AnthropicResponse
as_response (text_node t) = none
as_response (stop_node r) = none
as_response (response_node r) = some r
as_response (event_node k d m u) = none

abbrev as_event : Json → Option (StreamEvent Json)
as_event (text_node t) = none
as_event (stop_node r) = none
as_event (response_node r) = none
as_event (event_node k d m u) = some (record { kind = k; delta = d; message = m; usage = u })

abbrev as_text : Json → Option Content
as_text (text_node t) = some (record { kind = "text_delta"; text = t })
as_text (stop_node r) = none
as_text (response_node r) = none
as_text (event_node k d m u) = none

abbrev as_stop : Json → Option String
as_stop (text_node t) = none
as_stop (stop_node r) = some r
as_stop (response_node r) = none
as_stop (event_node k d m u) = none

abbrev tree : Wire Json
tree = record {
  one_stop = λ s. none;
  many_stops = λ s. none;
  response = as_response;
  event = as_event;
  text_delta = as_text;
  stop_delta = as_stop;
}

tree-WireLaws : WireLaws tree
tree-WireLaws = record {
  event_json = λ e. event_node e.kind e.delta e.message e.usage;
  text_json = text_node;
  stop_json = stop_node;
  null_json = text_node "";
  event-event_json = λ e. refl;
  text_delta-text_json = λ t. refl;
  stop_delta-stop_json = λ r. refl;
}

build_request-messages_example :
    ((build_request tree "claude" asked).messages ≡ select is_other asked.messages)
    × ((build_request tree "claude" asked).system
        ≡ last_or "" (map content_of (select is_system asked.messages)))
build_request-messages_example = build_request-messages tree "claude" asked

brief : (build_request tree "claude" asked).system ≡ "Be kind."
unfolding build_request
brief = refl

-- An event of another kind, without data that is read.
abbrev other : String → Item Json
other kind =
    other_event (record { kind = kind; delta = text_node ""; message = none; usage = none })

-- The first block comes in two pieces, and one that is empty; the second is a tool call.
abbrev items : List (Item Json)
items =
    other "content_block_start"
    ∷ other "ping"
    ∷ piece ""
    ∷ piece "Hel"
    ∷ piece "lo"
    ∷ other "content_block_stop"
    ∷ other "content_block_start"
    ∷ other_delta (stop_node "")
    ∷ other "content_block_stop"
    ∷ []

abbrev two_blocks : List Content
two_blocks = record { kind = "text"; text = "Hello" } ∷ record { kind = "tool_use"; text = "" } ∷ []

abbrev answer : AnthropicResponse
answer = record {
  id = "msg_1";
  content = two_blocks;
  stop_reason = "max_tokens";
  input_tokens = 9;
  output_tokens = 2;
}

start-IsItem : IsItem tree tree-WireLaws (other "content_block_start")
start-IsItem = (refl, refl, refl, refl)

ping-IsItem : IsItem tree tree-WireLaws (other "ping")
ping-IsItem = (refl, refl, refl, refl)

stop-IsItem : IsItem tree tree-WireLaws (other "content_block_stop")
stop-IsItem = (refl, refl, refl, refl)

items-IsItem : All (IsItem tree tree-WireLaws) items
items-IsItem = (
  start-IsItem,
  (
    ping-IsItem,
    (tt, (tt, (tt, (stop-IsItem, (start-IsItem, ((λ c p. cc p), (stop-IsItem, tt))))))),
  ),
)

read_stream-parse_response_example :
    (resp : ChatResponse) × (choice : Choice) × (parse_response tree "claude"
        (response_node answer)
        5
      ≡ ok resp)
    × (resp.choices ≡ choice ∷ [])
    × (choice.message.content ≡ concat_texts (select is_nonempty (texts items)))
    × (read_stream tree 0
          (stream_data tree tree-WireLaws 9 items "max_tokens" 2 (other "ping" ∷ []) [])
        ≡ map piece_chunk (select is_nonempty (texts items))
          ++ (record {
            delta = "";
            finish_reason = some choice.finish_reason;
            usage = resp.usage;
            error = none;
          }
              ∷ []))
read_stream-parse_response_example =
    read_stream-parse_response tree tree-WireLaws "claude" (response_node answer) 5 9 2 "max_tokens"
      "msg_1" two_blocks items (other "ping" ∷ []) [] items-IsItem (ping-IsItem, tt) refl refl refl
