-- ===== src/Streaming/Tests.antt =====
-- A short stream: two chunks with a keepalive between them, then the end of the channel.
use Prim.Native.String.{len}
use llm_router.Common.{◌≤◌, arith, String, ◌≡◌, refl, false, none, List, [], ◌∷◌, ◌++◌, map}
use llm_router.Streaming.Relay.{
  StreamChunk, Frame, keepalive, chunk_frame, error_frame, done_frame, Event, tick, received,
  closed, StreamLog, relay,
}
use llm_router.Streaming.Frames.{relay_frames, without_keepalives, received_chunks, last_frames}
use llm_router.Streaming.Sse.{parse_sse}
use llm_router.Streaming.RoundTrip.{print_frames, messages, parse_sse-print_frames}

abbrev piece : String → StreamChunk
piece s = record { delta = s; finish_reason = none; usage = none; error = none }

abbrev no_log : StreamLog
no_log = record { first_token = false; tokens = none; finish = ""; error = none }

abbrev text_of : StreamChunk → String
text_of sc = sc.delta

abbrev short_run : List Event
short_run = received (piece "a") ∷ tick ∷ received (piece "b") ∷ []

-- A tick after the end is not seen.
relay_frames_example :
    without_keepalives (relay text_of (short_run ++ (closed ∷ tick ∷ [])) no_log).0
    ≡ map (λ sc. chunk_frame (text_of sc)) (received_chunks short_run) ++ last_frames closed
relay_frames_example =
    relay_frames text_of short_run closed (tick ∷ []) no_log (refl, (tt, (refl, tt))) (λ h. h)

abbrev written : List (Frame String)
written = chunk_frame "{}" ∷ keepalive ∷ error_frame "late" ∷ done_frame ∷ []

abbrev wire : List String
unfolding print_frames
wire = print_frames (λ s. s) (λ s. s) written

parse_sse-print_frames_example :
    (parse_sse len (λ s. s) wire ≡ messages (λ s. s) (λ s. s) written)
    × ((line : String) (rest : List String)
        → 1048576 ≤ len line
        → parse_sse len (λ s. s) (wire ++ (line ∷ rest)) ≡ messages (λ s. s) (λ s. s) written)
unfolding print_frames
parse_sse-print_frames_example =
    parse_sse-print_frames (λ s. s) (λ s. s) len (λ s. s) written
      (
        omega arith,
        (
          omega arith,
          (
            omega arith,
            (omega arith, (omega arith, (omega arith, (omega arith, (omega arith, tt))))),
          ),
        ),
      )
