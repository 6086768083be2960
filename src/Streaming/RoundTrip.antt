-- ===== src/Streaming/RoundTrip.antt =====
-- internal/gateway/proxy: what `ParseSSE` reads from the stream that the relay writes.
use Prim.Native.String.{◌++◌ as str_append}
use text.Mathlib.TextLemmas.{nil-append, cons-append}
use mathlib.Core.List.{append-nil}
use llm_router.Common.{
  ℕ, ◌<◌, ◌≤◌, String, ◌≡◌, refl, sym, ap, ◌∙◌, true, false, All, ltb, if◌then◌else◌, arith, Option,
  none, some, List, [], ◌∷◌, ◌++◌, str_eq, str_eq-ne,
}
use llm_router.Streaming.Relay.{Frame, keepalive, chunk_frame, error_frame, done_frame}
use llm_router.Streaming.Sse.{SseEvent, Reading, fresh_event, dispatch, read_field, scan, parse_sse}

-- The text of a data line, one character at a time.
abbrev data_text : String → String
data_text s =
    String.◌∷◌ "d"
      (String.◌∷◌ "a" (String.◌∷◌ "t" (String.◌∷◌ "a" (String.◌∷◌ ":" (String.◌∷◌ " " s)))))

data_field : (s : String) → str_append "data: " s ≡ data_text s
data_field s =
    rw (cons-append, cons-append, cons-append, cons-append, cons-append, cons-append, nil-append)

str_eq-data_text : (s : String) → str_eq (data_text s) "" ≡ false
str_eq-data_text s = str_eq-ne (data_text s) "" (λ e. cc)

module _ {C : Type 0} (json : C → String) (error_json : String → String) where
  -- The lines of a frame; JSON text has no line break, so that it is one line.
  abbrev pub frame_lines : Frame C → List String
  frame_lines keepalive = ": keepalive" ∷ "" ∷ []
  frame_lines (chunk_frame c) = str_append "data: " (json c) ∷ "" ∷ []
  frame_lines (error_frame m) = str_append "data: " (error_json m) ∷ "" ∷ []
  frame_lines done_frame = str_append "data: " "[DONE]" ∷ "" ∷ []

  unfoldable pub print_frames : List (Frame C) → List String
  print_frames [] = []
  print_frames (f ∷ fs) = frame_lines f ++ print_frames fs

  abbrev pub payload : Frame C → Option String
  payload keepalive = none
  payload (chunk_frame c) = some (json c)
  payload (error_frame m) = some (error_json m)
  payload done_frame = some "[DONE]"

  abbrev pub message : String → SseEvent
  message s = record { event_type = "message"; content = s; id = "" }

  abbrev pub messages : List (Frame C) → List SseEvent
  messages [] = []
  messages (f ∷ fs) = elim (payload f) [ none ↦ messages fs | some s ↦ message s ∷ messages fs ]

  module _ (bytes : String → ℕ) (trim : String → String) where
    -- A line that the scanner reads.
    abbrev pub Fits : String → Type 0
    Fits line = bytes line < 1048576

    scan_line :
        (line : String) (lines : List String) (r : Reading)
        → Fits line
        → scan bytes trim (line ∷ lines) r ≡ (
            if str_eq line ""
            then dispatch r ++ scan bytes trim lines fresh_event
            else scan bytes trim lines (read_field bytes trim line r))
    unfolding scan
    scan_line line lines r fits =
        let small : ltb (bytes line) 1048576 ≡ true = ground arith in rw small refl

    blank-scan :
        (lines : List String) (r : Reading)
        → Fits ""
        → scan bytes trim ("" ∷ lines) r ≡ dispatch r ++ scan bytes trim lines fresh_event
    blank-scan lines r fits = scan_line "" lines r fits

    data_line-scan :
        (s : String) (lines : List String)
        → Fits (str_append "data: " s)
        → Fits ""
        → scan bytes trim (str_append "data: " s ∷ "" ∷ lines) fresh_event
          ≡ message s ∷ scan bytes trim lines fresh_event
    unfolding dispatch read_field
    data_line-scan s lines fits fits_blank =
        scan_line (str_append "data: " s) ("" ∷ lines) fresh_event fits
        ∙ rw (data_field s) (
            rw (str_eq-data_text s) (
              blank-scan lines (record { event_type = ""; id = ""; data_lines = s ∷ [] })
                fits_blank))

    keepalive-scan :
        (lines : List String)
        → Fits ": keepalive"
        → Fits ""
        → scan bytes trim (": keepalive" ∷ "" ∷ lines) fresh_event
          ≡ scan bytes trim lines fresh_event
    unfolding dispatch read_field
    keepalive-scan lines fits fits_blank =
        scan_line ": keepalive" ("" ∷ lines) fresh_event fits
        ∙ blank-scan lines fresh_event fits_blank

    scan-print_frames :
        (fs : List (Frame C)) (rest : List String)
        → All Fits (print_frames fs)
        → scan bytes trim (print_frames fs ++ rest) fresh_event
          ≡ messages fs ++ scan bytes trim rest fresh_event
    unfolding print_frames
    scan-print_frames [] rest h = refl
    scan-print_frames (keepalive ∷ fs) rest h =
        keepalive-scan (print_frames fs ++ rest) h.0 h.1.0 ∙ scan-print_frames fs rest h.1.1
    scan-print_frames (chunk_frame c ∷ fs) rest h =
        data_line-scan (json c) (print_frames fs ++ rest) h.0 h.1.0
        ∙ ap (λ ms. message (json c) ∷ ms) (scan-print_frames fs rest h.1.1)
    scan-print_frames (error_frame m ∷ fs) rest h =
        data_line-scan (error_json m) (print_frames fs ++ rest) h.0 h.1.0
        ∙ ap (λ ms. message (error_json m) ∷ ms) (scan-print_frames fs rest h.1.1)
    scan-print_frames (done_frame ∷ fs) rest h =
        data_line-scan "[DONE]" (print_frames fs ++ rest) h.0 h.1.0
        ∙ ap (λ ms. message "[DONE]" ∷ ms) (scan-print_frames fs rest h.1.1)

    long_line-scan :
        (line : String) (rest : List String)
        → 1048576 ≤ bytes line
        → scan bytes trim (line ∷ rest) fresh_event ≡ []
    unfolding scan
    long_line-scan line rest long =
        let large : ltb (bytes line) 1048576 ≡ false = ground arith in rw large refl

    -- If every line of the frames has less than 1 MiB, then the parser reads back exactly the
    -- payloads of the frames, each as one event, in the order in which they were written; keepalives
    -- are no events. Where a line of 1 MiB or more follows, it and all behind it are lost.
    pub parse_sse-print_frames :
        (fs : List (Frame C))
        → All Fits (print_frames fs)
        → (parse_sse bytes trim (print_frames fs) ≡ messages fs)
          × ((line : String) (rest : List String)
              → 1048576 ≤ bytes line
              → parse_sse bytes trim (print_frames fs ++ (line ∷ rest)) ≡ messages fs)
    unfolding parse_sse
    parse_sse-print_frames fs h =
        let whole = print_frames fs in
        (
          ap (λ l. scan bytes trim l fresh_event) (sym (append-nil whole))
              ∙ scan-print_frames fs [] h
              ∙ append-nil (messages fs),
          (λ line rest long.
              scan-print_frames fs (line ∷ rest) h
              ∙ ap (λ l. messages fs ++ l) (long_line-scan line rest long)
              ∙ append-nil (messages fs)),
        )
