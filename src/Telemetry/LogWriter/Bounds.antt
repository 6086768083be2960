-- ===== src/Telemetry/LogWriter/Bounds.antt =====
-- internal/telemetry/log_writer.go: the sizes of the channel, the buffer and the batches, and the end
-- of the loop.
use native.Mathlib.Nat.{zero-add}
use llm_router.Common.{
  ◌+◌, ◌∙◌, ◌≤◌, ◌<◌, ◌≡◌, refl, ap, subst, Bool, true, false, List, [], ◌∷◌, ◌++◌, arith, length,
  length-append, All, All-append, ltb, leb, if◌then◌else◌, Bool-cases, inl, inr,
}
use llm_router.Telemetry.LogWriter.{
  Mode, running, draining, exited, LogWriter, Event, wrote, closed, ticked, received, stop_seen,
  drained, channel_size, batch_size, new_log_writer, write, flush_buf, flush, take_entry, close,
  finish_drain, tick_in, receive_in, stop_in, drain_in, step, run,
}
use llm_router.Telemetry.LogWriter.Runs.{accepted, writes, held, held-run, dropped-run}

module _ {E : Type 0} where
  abbrev pub IsBatch : List E → Type 0
  IsBatch b = (0 < length b) × (length b ≤ batch_size)

  -- Once the loop has ended, nothing is left in the buffer.
  abbrev pub IsEmptyAt : Mode → List E → Type 0
  IsEmptyAt running b = Unit {0}
  IsEmptyAt draining b = Unit {0}
  IsEmptyAt exited b = b ≡ []

  pub record IsValid (w : LogWriter E) : Type 0 where
    pub queue_fits : length w.queue ≤ channel_size
    pub buf_fits : length w.buf < batch_size
    pub batches_fit : All IsBatch w.batches
    pub emptied : IsEmptyAt w.mode w.buf

  IsEmptyAt-nil : (m : Mode) (b : List E) → b ≡ [] → IsEmptyAt m b
  IsEmptyAt-nil running b e = tt
  IsEmptyAt-nil draining b e = tt
  IsEmptyAt-nil exited b e = e

  -- A flush of a buffer that holds at most a batch.
  flush_buf-IsValid :
      (b : List E) (w : LogWriter E)
      → w.buf ≡ b
      → length b ≤ batch_size
      → length w.queue ≤ channel_size
      → All IsBatch w.batches
      → IsValid (flush_buf b w)
  unfolding flush_buf
  flush_buf-IsValid [] w e fits q bs =
      let short : length w.buf < batch_size = omega (arith, ap length e) in
      record {
        queue_fits = q;
        buf_fits = short;
        batches_fit = bs;
        emptied = IsEmptyAt-nil w.mode w.buf e;
      }
  flush_buf-IsValid (x ∷ xs) w e fits q bs = record {
    queue_fits = q;
    buf_fits = omega arith;
    batches_fit = All-append IsBatch w.batches ((x ∷ xs) ∷ []) bs ((omega arith, fits), tt);
    emptied = IsEmptyAt-nil w.mode [] refl;
  }

  flush-IsValid : (w : LogWriter E) → IsValid w → IsValid (flush w)
  unfolding flush
  flush-IsValid w v =
      flush_buf-IsValid w.buf w refl (omega (arith, v.buf_fits)) v.queue_fits v.batches_fit

  flush_buf-buf : (b : List E) (w : LogWriter E) → w.buf ≡ b → (flush_buf b w).buf ≡ []
  unfolding flush_buf
  flush_buf-buf [] w e = e
  flush_buf-buf (x ∷ xs) w e = refl

  take_entry-IsValid :
      (q : List E) (w : LogWriter E)
      → w.queue ≡ q
      → IsValid w
      → ((b : List E) → IsEmptyAt w.mode b)
      → IsValid (take_entry q w)
  unfolding take_entry flush
  take_entry-IsValid [] w e v h = v
  take_entry-IsValid (x ∷ xs) w e v h =
      let next : LogWriter E = record w { queue = xs; buf = w.buf ++ (x ∷ []) } in
      let shorter : length xs ≤ channel_size = omega (arith, ap length e, v.queue_fits) in
      let longer : length (w.buf ++ (x ∷ [])) ≤ batch_size =
        omega (arith, length-append w.buf (x ∷ []), v.buf_fits) in
      elim (Bool-cases (leb batch_size (length (w.buf ++ (x ∷ []))))) [
        | inl full ↦
            rw full (flush_buf-IsValid (w.buf ++ (x ∷ [])) next refl longer shorter v.batches_fit)
        | inr room ↦ rw room record {
          queue_fits = shorter;
          buf_fits = ground arith;
          batches_fit = v.batches_fit;
          emptied = h (w.buf ++ (x ∷ []));
        }
      ]

  tick_in-IsValid : (m : Mode) (w : LogWriter E) → IsValid w → IsValid (tick_in m w)
  unfolding tick_in
  tick_in-IsValid running w v = flush-IsValid w v
  tick_in-IsValid draining w v = v
  tick_in-IsValid exited w v = v

  receive_in-IsValid :
      (m : Mode) (w : LogWriter E) → m ≡ w.mode → IsValid w → IsValid (receive_in m w)
  unfolding receive_in
  receive_in-IsValid running w e v =
      take_entry-IsValid w.queue w refl v (subst (λ m. (b : List E) → IsEmptyAt m b) e (λ b. tt))
  receive_in-IsValid draining w e v =
      take_entry-IsValid w.queue w refl v (subst (λ m. (b : List E) → IsEmptyAt m b) e (λ b. tt))
  receive_in-IsValid exited w e v = v

  drain-IsValid : (w : LogWriter E) → IsValid w → IsValid (record w { mode = draining })
  drain-IsValid w v = record {
    queue_fits = v.queue_fits;
    buf_fits = v.buf_fits;
    batches_fit = v.batches_fit;
    emptied = tt;
  }

  if-IsValid : (b : Bool) {v w : LogWriter E} → IsValid v → IsValid w → IsValid (if b then v else w)
  if-IsValid true p q = p
  if-IsValid false p q = q

  stop_in-IsValid : (m : Mode) (w : LogWriter E) → IsValid w → IsValid (stop_in m w)
  unfolding stop_in
  stop_in-IsValid running w v = if-IsValid w.stopped (drain-IsValid w v) v
  stop_in-IsValid draining w v = v
  stop_in-IsValid exited w v = v

  finish_drain-IsValid : (q : List E) (w : LogWriter E) → IsValid w → IsValid (finish_drain q w)
  unfolding finish_drain flush
  finish_drain-IsValid [] w v =
      let u = flush-IsValid w v in
      record {
        queue_fits = u.queue_fits;
        buf_fits = u.buf_fits;
        batches_fit = u.batches_fit;
        emptied = flush_buf-buf w.buf w refl;
      }
  finish_drain-IsValid (x ∷ xs) w v = v

  drain_in-IsValid : (m : Mode) (w : LogWriter E) → IsValid w → IsValid (drain_in m w)
  unfolding drain_in
  drain_in-IsValid running w v = v
  drain_in-IsValid draining w v = finish_drain-IsValid w.queue w v
  drain_in-IsValid exited w v = v

  write-IsValid : (e : E) (w : LogWriter E) → IsValid w → IsValid (write e w)
  unfolding write
  write-IsValid e w v = elim (Bool-cases (ltb (length w.queue) channel_size)) [
    | inr full ↦ rw full record {
      queue_fits = v.queue_fits;
      buf_fits = v.buf_fits;
      batches_fit = v.batches_fit;
      emptied = v.emptied;
    }
    | inl room ↦
        let fits : length (w.queue ++ (e ∷ [])) ≤ channel_size =
          ground (arith, length-append w.queue (e ∷ []), room) in
        rw room record {
          queue_fits = fits;
          buf_fits = v.buf_fits;
          batches_fit = v.batches_fit;
          emptied = v.emptied;
        }
  ]

  step-IsValid : (ev : Event E) (w : LogWriter E) → IsValid w → IsValid (step ev w)
  unfolding step close
  step-IsValid (wrote e) w v = write-IsValid e w v
  step-IsValid closed w v = record {
    queue_fits = v.queue_fits;
    buf_fits = v.buf_fits;
    batches_fit = v.batches_fit;
    emptied = v.emptied;
  }
  step-IsValid ticked w v = tick_in-IsValid w.mode w v
  step-IsValid received w v = receive_in-IsValid w.mode w refl v
  step-IsValid stop_seen w v = stop_in-IsValid w.mode w v
  step-IsValid drained w v = drain_in-IsValid w.mode w v

  pub run-IsValid_from : (evs : List (Event E)) (w : LogWriter E) → IsValid w → IsValid (run evs w)
  unfolding run
  run-IsValid_from [] w v = v
  run-IsValid_from (ev ∷ evs) w v = run-IsValid_from evs (step ev w) (step-IsValid ev w v)

  new-IsValid : IsValid (new_log_writer {E = E})
  unfolding new_log_writer
  new-IsValid = record {
    queue_fits = omega arith;
    buf_fits = omega arith;
    batches_fit = tt;
    emptied = tt;
  }

  -- Over any sequence of events from a new writer, nothing is lost, doubled or reordered but what
  -- finds the channel full, which is counted as dropped: what the store has been handed, then the
  -- buffer, then the channel, are the accepted entries in the order of their writes, and their
  -- number and the count of drops make up the number of writes. Every batch has from 1 to 500
  -- entries, the buffer fewer than 500, the channel at most 10000; when the loop has ended, the
  -- buffer is empty.
  pub run_conserves :
      (evs : List (Event E))
      → (held (run evs new_log_writer) ≡ accepted evs new_log_writer)
        × ((run evs new_log_writer).dropped + length (accepted evs new_log_writer) ≡ writes evs)
        × IsValid (run evs new_log_writer)
  run_conserves evs = (
    unfold new_log_writer in held-run evs new_log_writer,
    unfold new_log_writer in dropped-run evs new_log_writer ∙ zero-add (writes evs),
    run-IsValid_from evs new_log_writer new-IsValid,
  )
