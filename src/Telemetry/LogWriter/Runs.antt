-- ===== src/Telemetry/LogWriter/Runs.antt =====
-- internal/telemetry/log_writer.go: what becomes of the entries.
use llm_router.Common.{
  arith, ℕ, suc, ◌+◌, ◌≡◌, refl, sym, ap, ◌∙◌, Bool, true, false, List, [], ◌∷◌, ◌++◌, append_assoc,
  length, ltb, leb, if◌then◌else◌,
}
use mathlib.Core.List.{append-nil}
use llm_router.Telemetry.LogWriter.{
  Mode, running, draining, exited, LogWriter, Event, wrote, closed, ticked, received, stop_seen,
  drained, channel_size, batch_size, write, flush_buf, flush, take_entry, close, finish_drain,
  tick_in, receive_in, stop_in, drain_in, step, run,
}

module _ {E : Type 0} where
  -- What a run writes, in order, without the entries that find the channel full.
  abbrev pub accepted : List (Event E) → LogWriter E → List E
  accepted [] w = []
  accepted (wrote e ∷ evs) w =
      let rest = accepted evs (step (wrote e) w) in
      if ltb (length w.queue) channel_size then e ∷ rest else rest
  accepted (closed ∷ evs) w = accepted evs (step closed w)
  accepted (ticked ∷ evs) w = accepted evs (step ticked w)
  accepted (received ∷ evs) w = accepted evs (step received w)
  accepted (stop_seen ∷ evs) w = accepted evs (step stop_seen w)
  accepted (drained ∷ evs) w = accepted evs (step drained w)

  abbrev pub writes : List (Event E) → ℕ
  writes [] = 0
  writes (wrote e ∷ evs) = suc (writes evs)
  writes (closed ∷ evs) = writes evs
  writes (ticked ∷ evs) = writes evs
  writes (received ∷ evs) = writes evs
  writes (stop_seen ∷ evs) = writes evs
  writes (drained ∷ evs) = writes evs

  abbrev pub flatten : List (List E) → List E
  flatten [] = []
  flatten (b ∷ bs) = b ++ flatten bs

  flatten-append : (bs cs : List (List E)) → flatten (bs ++ cs) ≡ flatten bs ++ flatten cs
  flatten-append [] cs = refl
  flatten-append (b ∷ bs) cs =
      ap (λ l. b ++ l) (flatten-append bs cs) ∙ sym (append_assoc b (flatten bs) (flatten cs))

  -- All that the writer has: in the store, in the buffer and in the channel.
  abbrev pub held : LogWriter E → List E
  held w = flatten w.batches ++ (w.buf ++ w.queue)

  held-flush_buf : (b : List E) (w : LogWriter E) → w.buf ≡ b → held (flush_buf b w) ≡ held w
  unfolding flush_buf
  held-flush_buf [] w e = refl
  held-flush_buf (x ∷ xs) w e =
      let moved : held (flush_buf (x ∷ xs) w) ≡ flatten w.batches ++ ((x ∷ xs) ++ w.queue) =
        simp (flatten-append, append-nil, append_assoc) in
      moved ∙ ap (λ b. flatten w.batches ++ (b ++ w.queue)) (sym e)

  held-flush : (w : LogWriter E) → held (flush w) ≡ held w
  unfolding flush
  held-flush w = held-flush_buf w.buf w refl

  held-if :
      (b : Bool) (v w : LogWriter E) {l : List E}
      → held v ≡ l
      → held w ≡ l
      → held (if b then v else w) ≡ l
  held-if true v w p q = p
  held-if false v w p q = q

  held-take_entry : (q : List E) (w : LogWriter E) → w.queue ≡ q → held (take_entry q w) ≡ held w
  unfolding take_entry
  held-take_entry [] w e = refl
  held-take_entry (x ∷ xs) w e =
      let next : LogWriter E = record w { queue = xs; buf = w.buf ++ (x ∷ []) } in
      let joined : held next ≡ flatten w.batches ++ (w.buf ++ (x ∷ xs)) = simp append_assoc in
      let moved : held next ≡ held w =
        joined ∙ ap (λ q. flatten w.batches ++ (w.buf ++ q)) (sym e) in
      held-if (leb batch_size (length (w.buf ++ (x ∷ [])))) (flush next) next
        (held-flush next ∙ moved) moved

  held-tick_in : (m : Mode) (w : LogWriter E) → held (tick_in m w) ≡ held w
  unfolding tick_in
  held-tick_in running w = held-flush w
  held-tick_in draining w = refl
  held-tick_in exited w = refl

  held-receive_in : (m : Mode) (w : LogWriter E) → held (receive_in m w) ≡ held w
  unfolding receive_in
  held-receive_in running w = held-take_entry w.queue w refl
  held-receive_in draining w = held-take_entry w.queue w refl
  held-receive_in exited w = refl

  held-stop_in : (m : Mode) (w : LogWriter E) → held (stop_in m w) ≡ held w
  unfolding stop_in
  held-stop_in running w = held-if w.stopped (record w { mode = draining }) w refl refl
  held-stop_in draining w = refl
  held-stop_in exited w = refl

  held-finish_drain : (q : List E) (w : LogWriter E) → held (finish_drain q w) ≡ held w
  unfolding finish_drain
  held-finish_drain [] w = held-flush w
  held-finish_drain (x ∷ xs) w = refl

  held-drain_in : (m : Mode) (w : LogWriter E) → held (drain_in m w) ≡ held w
  unfolding drain_in
  held-drain_in running w = refl
  held-drain_in draining w = held-finish_drain w.queue w
  held-drain_in exited w = refl

  held-write :
      (b : Bool) (e : E) (w : LogWriter E) (rest : List E)
      → held (
            if b
            then record w { queue = w.queue ++ (e ∷ []) }
            else record w { dropped = w.dropped + 1 })
          ++ rest
        ≡ held w ++ (if b then e ∷ rest else rest)
  held-write true e w rest = simp append_assoc
  held-write false e w rest = refl

  pub held-run :
      (evs : List (Event E)) (w : LogWriter E) → held (run evs w) ≡ held w ++ accepted evs w
  unfolding run step write
  held-run [] w = sym (append-nil (held w))
  held-run (wrote e ∷ evs) w =
      held-run evs (write e w)
      ∙ held-write (ltb (length w.queue) channel_size) e w (accepted evs (write e w))
  held-run (closed ∷ evs) w = held-run evs (close w)
  held-run (ticked ∷ evs) w =
      held-run evs (tick_in w.mode w)
      ∙ ap (λ l. l ++ accepted evs (tick_in w.mode w)) (held-tick_in w.mode w)
  held-run (received ∷ evs) w =
      held-run evs (receive_in w.mode w)
      ∙ ap (λ l. l ++ accepted evs (receive_in w.mode w)) (held-receive_in w.mode w)
  held-run (stop_seen ∷ evs) w =
      held-run evs (stop_in w.mode w)
      ∙ ap (λ l. l ++ accepted evs (stop_in w.mode w)) (held-stop_in w.mode w)
  held-run (drained ∷ evs) w =
      held-run evs (drain_in w.mode w)
      ∙ ap (λ l. l ++ accepted evs (drain_in w.mode w)) (held-drain_in w.mode w)

  dropped-flush : (b : List E) (w : LogWriter E) → (flush_buf b w).dropped ≡ w.dropped
  unfolding flush_buf
  dropped-flush [] w = refl
  dropped-flush (x ∷ xs) w = refl

  dropped-if :
      (b : Bool) (v w : LogWriter E) {n : ℕ}
      → v.dropped ≡ n
      → w.dropped ≡ n
      → (if b then v else w).dropped ≡ n
  dropped-if true v w p q = p
  dropped-if false v w p q = q

  dropped-take_entry : (q : List E) (w : LogWriter E) → (take_entry q w).dropped ≡ w.dropped
  unfolding take_entry flush
  dropped-take_entry [] w = refl
  dropped-take_entry (x ∷ xs) w =
      let next : LogWriter E = record w { queue = xs; buf = w.buf ++ (x ∷ []) } in
      dropped-if (leb batch_size (length (w.buf ++ (x ∷ [])))) (flush_buf next.buf next) next
        (dropped-flush next.buf next) refl

  dropped-tick_in : (m : Mode) (w : LogWriter E) → (tick_in m w).dropped ≡ w.dropped
  unfolding tick_in flush
  dropped-tick_in running w = dropped-flush w.buf w
  dropped-tick_in draining w = refl
  dropped-tick_in exited w = refl

  dropped-receive_in : (m : Mode) (w : LogWriter E) → (receive_in m w).dropped ≡ w.dropped
  unfolding receive_in
  dropped-receive_in running w = dropped-take_entry w.queue w
  dropped-receive_in draining w = dropped-take_entry w.queue w
  dropped-receive_in exited w = refl

  dropped-stop_in : (m : Mode) (w : LogWriter E) → (stop_in m w).dropped ≡ w.dropped
  unfolding stop_in
  dropped-stop_in running w = dropped-if w.stopped (record w { mode = draining }) w refl refl
  dropped-stop_in draining w = refl
  dropped-stop_in exited w = refl

  dropped-finish_drain : (q : List E) (w : LogWriter E) → (finish_drain q w).dropped ≡ w.dropped
  unfolding finish_drain flush
  dropped-finish_drain [] w = dropped-flush w.buf w
  dropped-finish_drain (x ∷ xs) w = refl

  dropped-drain_in : (m : Mode) (w : LogWriter E) → (drain_in m w).dropped ≡ w.dropped
  unfolding drain_in
  dropped-drain_in running w = refl
  dropped-drain_in draining w = dropped-finish_drain w.queue w
  dropped-drain_in exited w = refl

  write-cases :
      (b : Bool) (e : E) (w : LogWriter E) (rest : List E) (n total : ℕ)
      → n + length rest
        ≡ (if b
            then record w { queue = w.queue ++ (e ∷ []) }
            else record w { dropped = w.dropped + 1 }).dropped
          + total
      → n + length (if b then e ∷ rest else rest) ≡ w.dropped + suc total
  write-cases true e w rest n total h = omega (arith, h)
  write-cases false e w rest n total h = omega (arith, h)

  -- Every write is accepted or counted as dropped.
  pub dropped-run :
      (evs : List (Event E)) (w : LogWriter E)
      → (run evs w).dropped + length (accepted evs w) ≡ w.dropped + writes evs
  unfolding run step write
  dropped-run [] w = omega arith
  dropped-run (wrote e ∷ evs) w =
      write-cases (ltb (length w.queue) channel_size) e w (accepted evs (write e w))
        (run evs (write e w)).dropped (writes evs) (dropped-run evs (write e w))
  dropped-run (closed ∷ evs) w = dropped-run evs (close w)
  dropped-run (ticked ∷ evs) w =
      omega (arith, dropped-run evs (tick_in w.mode w), dropped-tick_in w.mode w)
  dropped-run (received ∷ evs) w =
      omega (arith, dropped-run evs (receive_in w.mode w), dropped-receive_in w.mode w)
  dropped-run (stop_seen ∷ evs) w =
      omega (arith, dropped-run evs (stop_in w.mode w), dropped-stop_in w.mode w)
  dropped-run (drained ∷ evs) w =
      omega (arith, dropped-run evs (drain_in w.mode w), dropped-drain_in w.mode w)
