-- ===== src/Telemetry/Tests.antt =====
-- Two entries, one of which is received before the writer is closed.
use llm_router.Common.{false, length, ℕ, ◌+◌, ◌≡◌, ◌≤◌, ◌⊎◌, inl, refl, List, [], ◌∷◌}
use llm_router.Telemetry.LogWriter.{
  LogWriter, running, Event, wrote, received, ticked, stop_seen, drained, new_log_writer, close,
  step, run,
}
use llm_router.Telemetry.LogWriter.Runs.{accepted, held, writes}
use llm_router.Telemetry.LogWriter.Bounds.{IsValid, run_conserves}
use llm_router.Telemetry.LogWriter.Drain.{MayPick, IsDrained, shutdown_ends}

abbrev two_writes : List (Event ℕ)
two_writes = wrote 1 ∷ received ∷ wrote 2 ∷ ticked ∷ []

run_conserves_example :
    (held (run two_writes new_log_writer) ≡ accepted two_writes new_log_writer)
    × ((run two_writes new_log_writer).dropped + length (accepted two_writes new_log_writer)
        ≡ writes two_writes)
    × IsValid (run two_writes new_log_writer)
run_conserves_example = run_conserves two_writes

abbrev half_read : LogWriter ℕ
half_read = record {
  queue = 2 ∷ [];
  buf = 1 ∷ [];
  batches = [];
  dropped = 0;
  stopped = false;
  mode = running;
}

-- The ticker and an entry come before the stop signal.
shutdown_ends_example :
    (1 ≤ 0 + 1)
    × (IsDrained (1 ∷ 2 ∷ []) (run (ticked ∷ received ∷ stop_seen ∷ drained ∷ []) (close half_read))
        ⊎ ((ev : Event ℕ) × MayPick ev
              (run (ticked ∷ received ∷ stop_seen ∷ drained ∷ []) (close half_read))))
unfolding run step close
shutdown_ends_example =
    shutdown_ends half_read (ticked ∷ received ∷ []) (drained ∷ [])
      (refl, ((inl refl, λ e. cc e), ((refl, refl), ((refl, refl), tt))))
