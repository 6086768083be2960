-- ===== src/Telemetry/LogWriter.antt =====
-- internal/telemetry/log_writer.go. What the goroutines do in turn is a sequence of events; `batches`
-- lists what the store has been handed, whether or not it could insert it, as the code only logs
-- that. The counter of drops is far below 2 ^ 63; the logger and the timeouts are left out.
use llm_router.Common.{
  ℕ, zero, suc, ◌+◌, ◌≡◌, Bool, true, false, List, [], ◌∷◌, ◌++◌, length, ltb, leb, if◌then◌else◌,
}
pub mod Runs
pub mod Bounds
pub mod Drain

-- Where the loop `run` is: in the outer `select`, in the one that drains the channel, or at its end.
pub data Mode : Type 0 where
  running draining exited : Mode

pub record LogWriter (E : Type 0) : Type 0 where
  pub queue : List E
  pub buf : List E
  pub batches : List (List E)
  pub dropped : ℕ
  pub stopped : Bool
  pub mode : Mode

-- What happens next: a request writes an entry, `Close` is called, or the loop's `select` picks the
-- ticker, an entry, the stop signal, or, while it drains, the default.
pub data Event (E : Type 0) : Type 0 where
  wrote : E → Event E
  closed : Event E
  ticked : Event E
  received : Event E
  stop_seen : Event E
  drained : Event E

abbrev pub channel_size : ℕ
channel_size = 10000

abbrev pub batch_size : ℕ
batch_size = 500

module _ {E : Type 0} where
  unfoldable pub new_log_writer : LogWriter E
  new_log_writer = record {
    queue = [];
    buf = [];
    batches = [];
    dropped = 0;
    stopped = false;
    mode = running;
  }

  unfoldable pub write : E → LogWriter E → LogWriter E
  write e w =
      if ltb (length w.queue) channel_size
      then record w { queue = w.queue ++ (e ∷ []) }
      else record w { dropped = w.dropped + 1 }

  unfoldable pub flush_buf : List E → LogWriter E → LogWriter E
  flush_buf [] w = w
  flush_buf (e ∷ es) w = record w { buf = []; batches = w.batches ++ ((e ∷ es) ∷ []) }

  unfoldable pub flush : LogWriter E → LogWriter E
  unfolding flush_buf
  flush w = flush_buf w.buf w

  -- An entry goes from the channel to the buffer, which is flushed when it is full.
  unfoldable pub take_entry : List E → LogWriter E → LogWriter E
  unfolding flush
  take_entry [] w = w
  take_entry (e ∷ es) w =
      let next : LogWriter E = record w { queue = es; buf = w.buf ++ (e ∷ []) } in
      if leb batch_size (length (w.buf ++ (e ∷ []))) then flush next else next

  unfoldable pub close : LogWriter E → LogWriter E
  close w = record w { stopped = true }

  -- The default of the inner `select` is picked only when the channel is empty.
  unfoldable pub finish_drain : List E → LogWriter E → LogWriter E
  unfolding flush
  finish_drain [] w = record (flush w) { mode = exited }
  finish_drain (e ∷ es) w = w

  unfoldable pub tick_in : Mode → LogWriter E → LogWriter E
  unfolding flush
  tick_in running w = flush w
  tick_in draining w = w
  tick_in exited w = w

  unfoldable pub receive_in : Mode → LogWriter E → LogWriter E
  unfolding take_entry
  receive_in running w = take_entry w.queue w
  receive_in draining w = take_entry w.queue w
  receive_in exited w = w

  unfoldable pub stop_in : Mode → LogWriter E → LogWriter E
  stop_in running w = if w.stopped then record w { mode = draining } else w
  stop_in draining w = w
  stop_in exited w = w

  unfoldable pub drain_in : Mode → LogWriter E → LogWriter E
  unfolding finish_drain
  drain_in running w = w
  drain_in draining w = finish_drain w.queue w
  drain_in exited w = w

  -- An event that cannot happen in a state leaves it.
  unfoldable pub step : Event E → LogWriter E → LogWriter E
  unfolding write close tick_in receive_in stop_in drain_in
  step (wrote e) w = write e w
  step closed w = close w
  step ticked w = tick_in w.mode w
  step received w = receive_in w.mode w
  step stop_seen w = stop_in w.mode w
  step drained w = drain_in w.mode w

  unfoldable pub run : List (Event E) → LogWriter E → LogWriter E
  unfolding step
  run [] w = w
  run (ev ∷ evs) w = run evs (step ev w)
