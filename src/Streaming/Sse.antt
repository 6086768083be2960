-- ===== src/Streaming/Sse.antt =====
-- internal/gateway/proxy/sse_parser.go: `ParseSSE`, on the lines of the input, which end with a line
-- feed. A line that does not fit the buffer of the scanner ends the input. `trim` is Go's
-- `TrimSpace`, `bytes` is Go's `len`.
use Prim.Native.Char.{code}
use Prim.Native.String.{◌++◌ as str_append}
use llm_router.Common.{
  ℕ, String, Option, none, some, List, [], ◌∷◌, ◌++◌, str_eq, ltb, ◌==◌, if◌then◌else◌, length,
}

pub record SseEvent : Type 0 where
  pub event_type : String
  pub content : String
  pub id : String

-- `strings.HasPrefix(s, p)` and `s[len(p):]` in one.
unfoldable pub strip_prefix : String → String → Option String
strip_prefix String.[] s = some s
strip_prefix (String.◌∷◌ c p) String.[] = none
strip_prefix (String.◌∷◌ c p) (String.◌∷◌ d s) =
    let rest = strip_prefix p s in if code c == code d then rest else none

-- One space at the front is dropped.
unfoldable pub drop_space : String → String
drop_space String.[] = ""
drop_space (String.◌∷◌ c s) = if code c == b' ' then s else String.◌∷◌ c s

-- `strings.Join(lines, "\n")`.
unfoldable pub join_lines : List String → String
join_lines [] = ""
join_lines (l ∷ []) = l
join_lines (l ∷ m ∷ ls) = str_append l (str_append "\n" (join_lines (m ∷ ls)))

-- The event that is being read: its type and id so far, and its data lines.
pub record Reading : Type 0 where
  pub event_type : String
  pub id : String
  pub data_lines : List String

abbrev pub fresh_event : Reading
fresh_event = record { event_type = ""; id = ""; data_lines = [] }

-- The events that a blank line sends.
unfoldable pub dispatch : Reading → List SseEvent
unfolding join_lines
dispatch r =
    if ltb 0 (length r.data_lines)
    then record {
      event_type = if str_eq r.event_type "" then "message" else r.event_type;
      content = join_lines r.data_lines;
      id = r.id;
    }
      ∷ []
    else []

-- The buffer of `bufio.Scanner`, which takes a line with its line break.
abbrev pub max_buffer : ℕ
max_buffer = 1048576

module _ (bytes : String → ℕ) (trim : String → String) where
  -- A line that is not blank.
  unfoldable pub read_field : String → Reading → Reading
  unfolding strip_prefix drop_space
  read_field line r = elim (strip_prefix "data:" line) [
    | some v ↦ record r { data_lines = r.data_lines ++ (drop_space v ∷ []) }
    | none ↦ elim (strip_prefix "event:" line) [
      | some v ↦ record r { event_type = trim v }
      | none ↦ elim (strip_prefix "id:" line) [ some v ↦ record r { id = trim v } | none ↦ r ]
    ]
  ]

  -- The loop; an event with no blank line behind it is dropped, and all from a line on that does not
  -- fit the buffer.
  unfoldable pub scan : List String → Reading → List SseEvent
  unfolding dispatch read_field
  scan [] r = []
  scan (line ∷ lines) r =
      let sent = dispatch r ++ scan lines fresh_event in
      let rest = scan lines (read_field line r) in
      if ltb (bytes line) max_buffer then (if str_eq line "" then sent else rest) else []

  unfoldable pub parse_sse : List String → List SseEvent
  unfolding scan
  parse_sse lines = scan lines fresh_event
