-- ===== src/Streaming/Frames.antt =====
-- internal/gateway/proxy/stream.go: what the relay loop writes.
use llm_router.Common.{
  String, ◌≡◌, refl, ap, ◌∙◌, Option, none, some, List, [], ◌∷◌, ◌++◌, map, All,
}
use llm_router.Streaming.Relay.{
  StreamChunk, Frame, keepalive, chunk_frame, error_frame, done_frame, Event, cancelled, tick,
  received, closed, StreamLog, relay, note_chunk, on_received,
}

-- An event that keeps the loop running.
abbrev pub IsQuiet : Event → Type 0
IsQuiet cancelled = ⊥
IsQuiet tick = Unit {0}
IsQuiet (received sc) = sc.error ≡ none
IsQuiet closed = ⊥

abbrev pub received_chunks : List Event → List StreamChunk
received_chunks [] = []
received_chunks (cancelled ∷ es) = received_chunks es
received_chunks (tick ∷ es) = received_chunks es
received_chunks (received sc ∷ es) = sc ∷ received_chunks es
received_chunks (closed ∷ es) = received_chunks es

abbrev pub without_keepalives : {C : Type 0} → List (Frame C) → List (Frame C)
without_keepalives [] = []
without_keepalives (keepalive ∷ fs) = without_keepalives fs
without_keepalives (chunk_frame c ∷ fs) = chunk_frame c ∷ without_keepalives fs
without_keepalives (error_frame s ∷ fs) = error_frame s ∷ without_keepalives fs
without_keepalives (done_frame ∷ fs) = done_frame ∷ without_keepalives fs

-- The last frames, by the event that ends the loop.
abbrev pub on_error : {C : Type 0} → Option String → List (Frame C)
on_error none = []
on_error (some m) = error_frame m ∷ done_frame ∷ []

abbrev pub last_frames : {C : Type 0} → Event → List (Frame C)
last_frames cancelled = []
last_frames tick = []
last_frames (received sc) = on_error sc.error
last_frames closed = done_frame ∷ []

on_received-last :
    {C : Type 0} (o : Option String) (c : C) (r : List (Frame C) × StreamLog) (log : StreamLog)
    → ¬ (o ≡ none)
    → without_keepalives (on_received o c r log).0 ≡ on_error o
unfolding on_received
on_received-last none c r log h = absurd (h refl)
on_received-last (some m) c r log h = refl

module _ {C : Type 0} (build : StreamChunk → C) where
  relay-last :
      (e : Event) (rest : List Event) (log : StreamLog)
      → ¬ IsQuiet e
      → without_keepalives (relay build (e ∷ rest) log).0 ≡ last_frames e
  unfolding relay
  relay-last cancelled rest log h = refl
  relay-last tick rest log h = absurd (h tt)
  relay-last closed rest log h = refl
  relay-last (received sc) rest log h =
      on_received-last sc.error (build sc) (relay build rest (note_chunk sc log)) log h

  -- While the loop runs, every chunk received becomes one frame, in order. The event that ends it
  -- decides the last frames: none if the client is gone, the end marker if the channel is closed,
  -- and the error followed by the end marker for a chunk with an error; nothing received after it
  -- is written.
  pub relay_frames :
      (es : List Event) (e : Event) (rest : List Event) (log : StreamLog)
      → All IsQuiet es
      → ¬ IsQuiet e
      → without_keepalives (relay build (es ++ (e ∷ rest)) log).0
        ≡ map (λ sc. chunk_frame (build sc)) (received_chunks es) ++ last_frames e
  unfolding relay
  relay_frames [] e rest log q h = relay-last e rest log h
  relay_frames (cancelled ∷ es) e rest log q h = absurd q.0
  relay_frames (tick ∷ es) e rest log q h = relay_frames es e rest log q.1 h
  relay_frames (closed ∷ es) e rest log q h = absurd q.0
  relay_frames (received sc ∷ es) e rest log q h =
      ap
        (λ o.
          without_keepalives
            (on_received o (build sc) (relay build (es ++ (e ∷ rest)) (note_chunk sc log)) log).0)
        q.0
      ∙ ap (λ fs. chunk_frame (build sc) ∷ fs) (relay_frames es e rest (note_chunk sc log) q.1 h)
