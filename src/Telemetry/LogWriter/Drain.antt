-- ===== src/Telemetry/LogWriter/Drain.antt =====
-- internal/telemetry/log_writer.go: the end of the loop after `Close`.
use llm_router.Common.{
  ◌+◌, ◌≤◌, ◌≡◌, ◌≢◌, refl, sym, ap, subst, ◌∙◌, ◌⊎◌, true, List, [], ◌∷◌, ◌++◌, length, leb,
  Bool-cases, inl, inr, arith,
}
use mathlib.Core.List.{append-nil}
use llm_router.Telemetry.LogWriter.{
  running, draining, exited, LogWriter, Event, wrote, closed, ticked, received, stop_seen, drained,
  batch_size, flush_buf, flush, take_entry, close, finish_drain, receive_in, stop_in, drain_in,
  step, run,
}
use llm_router.Telemetry.LogWriter.Runs.{accepted, flatten, held, held-run}

module _ {E : Type 0} where
  -- What a `select` of the loop may pick: any of its cases that is ready.
  abbrev pub MayPick : Event E → LogWriter E → Type 0
  MayPick (wrote e) w = ⊥
  MayPick closed w = ⊥
  MayPick ticked w = w.mode ≡ running
  MayPick received w = ((w.mode ≡ running) ⊎ (w.mode ≡ draining)) × (w.queue ≢ [])
  MayPick stop_seen w = (w.mode ≡ running) × (w.stopped ≡ true)
  MayPick drained w = (w.mode ≡ draining) × (w.queue ≡ [])

  -- A schedule of the loop, in which no request writes.
  abbrev pub IsSchedule : List (Event E) → LogWriter E → Type 0
  IsSchedule [] w = Unit
  IsSchedule (ev ∷ evs) w = MayPick ev w × IsSchedule evs (step ev w)

  accepted-IsSchedule :
      (evs : List (Event E)) (w : LogWriter E) → IsSchedule evs w → accepted evs w ≡ []
  accepted-IsSchedule [] w p = refl
  accepted-IsSchedule (wrote e ∷ evs) w p = absurd p.0
  accepted-IsSchedule (closed ∷ evs) w p = absurd p.0
  accepted-IsSchedule (ticked ∷ evs) w p = accepted-IsSchedule evs (step ticked w) p.1
  accepted-IsSchedule (received ∷ evs) w p = accepted-IsSchedule evs (step received w) p.1
  accepted-IsSchedule (stop_seen ∷ evs) w p = accepted-IsSchedule evs (step stop_seen w) p.1
  accepted-IsSchedule (drained ∷ evs) w p = accepted-IsSchedule evs (step drained w) p.1

  flush_buf-keeps :
      (b : List E) (w : LogWriter E)
      → ((flush_buf b w).queue ≡ w.queue) × ((flush_buf b w).mode ≡ w.mode)
  unfolding flush_buf
  flush_buf-keeps [] w = (refl, refl)
  flush_buf-keeps (x ∷ xs) w = (refl, refl)

  flush_buf-buf : (b : List E) (w : LogWriter E) → w.buf ≡ b → (flush_buf b w).buf ≡ []
  unfolding flush_buf
  flush_buf-buf [] w e = e
  flush_buf-buf (x ∷ xs) w e = refl

  take_entry-keeps :
      (x : E) (q : List E) (w : LogWriter E)
      → ((take_entry (x ∷ q) w).queue ≡ q) × ((take_entry (x ∷ q) w).mode ≡ w.mode)
  unfolding take_entry flush
  take_entry-keeps x q w = elim (Bool-cases (leb batch_size (length (w.buf ++ (x ∷ []))))) [
    | inl t ↦
        rw t (flush_buf-keeps (w.buf ++ (x ∷ [])) (record w { queue = q; buf = w.buf ++ (x ∷ []) }))
    | inr n ↦ rw n (refl, refl)
  ]

  abbrev IsOver : LogWriter E → Type 0
  IsOver w = (w.mode ≡ exited) × (w.queue ≡ []) × (w.buf ≡ [])

  finish_drain-IsOver : (w : LogWriter E) → w.queue ≡ [] → IsOver (finish_drain [] w)
  unfolding finish_drain flush
  finish_drain-IsOver w e = (refl, (flush_buf-keeps w.buf w).0 ∙ e, flush_buf-buf w.buf w refl)

  exited_schedule :
      (evs : List (Event E)) (w : LogWriter E) → w.mode ≡ exited → IsSchedule evs w → evs ≡ []
  exited_schedule [] w m p = refl
  exited_schedule (wrote e ∷ evs) w m p = absurd p.0
  exited_schedule (closed ∷ evs) w m p = absurd p.0
  exited_schedule (ticked ∷ evs) w m p = cc (sym m ∙ p.0)
  exited_schedule (received ∷ evs) w m p = elim p.0.0 [
    | inl r ↦ cc (sym m ∙ r)
    | inr d ↦ cc (sym m ∙ d)
  ]
  exited_schedule (stop_seen ∷ evs) w m p = cc (sym m ∙ p.0.0)
  exited_schedule (drained ∷ evs) w m p = cc (sym m ∙ p.0.0)

  -- The loop has ended, or it can go on.
  abbrev pub EndsOrGoesOn : LogWriter E → Type 0
  EndsOrGoesOn w = IsOver w ⊎ ((ev : Event E) × MayPick ev w)

  draining_goes_on :
      (q : List E) (w : LogWriter E) → w.mode ≡ draining → w.queue ≡ q → EndsOrGoesOn w
  draining_goes_on [] w m e = inr (drained, (m, e))
  draining_goes_on (x ∷ q) w m e = inr (received, (inr m, λ n. cc (sym e ∙ n)))

  -- While the channel is drained, each step takes an entry or is the last.
  drain_bound :
      (evs : List (Event E)) (q : List E) (w : LogWriter E)
      → w.mode ≡ draining
      → w.queue ≡ q
      → IsSchedule evs w
      → (length evs ≤ length q + 1) × EndsOrGoesOn (run evs w)
  unfolding run step
  drain_bound [] q w m e p = (omega arith, draining_goes_on q w m e)
  drain_bound (wrote x ∷ evs) q w m e p = absurd p.0
  drain_bound (closed ∷ evs) q w m e p = absurd p.0
  drain_bound (ticked ∷ evs) q w m e p = cc (sym m ∙ p.0)
  drain_bound (stop_seen ∷ evs) q w m e p = cc (sym m ∙ p.0.0)
  drain_bound (received ∷ evs) [] w m e p = absurd (p.0.1 e)
  drain_bound (received ∷ evs) (x ∷ q) w m e p =
      let next : step received w ≡ take_entry (x ∷ q) w =
        unfold receive_in in ap (λ k. receive_in k w) m ∙ ap (λ l. take_entry l w) e in
      let (bound, ends) =
        drain_bound evs q (step received w) (ap (λ v. v.mode) next ∙ (take_entry-keeps x q w).1 ∙ m)
          (ap (λ v. v.queue) next ∙ (take_entry-keeps x q w).0) p.1 in
      (omega (arith, bound), ends)
  drain_bound (drained ∷ evs) q w m e p =
      let next : step drained w ≡ finish_drain [] w =
        unfold drain_in in ap (λ k. drain_in k w) m ∙ ap (λ l. finish_drain l w) p.0.1 in
      let over : IsOver (step drained w) = subst IsOver (sym next) (finish_drain-IsOver w p.0.1) in
      let none_left = exited_schedule evs (step drained w) over.0 p.1 in
      let no_more : length evs ≡ 0 = ap length none_left in
      (
        omega (arith, no_more),
        inl (subst (λ l. IsOver (run l (step drained w))) (sym none_left) over),
      )

  run-append :
      (pre post : List (Event E)) (w : LogWriter E) → run (pre ++ post) w ≡ run post (run pre w)
  unfolding run
  run-append [] post w = refl
  run-append (ev ∷ pre) post w = run-append pre post (step ev w)

  IsSchedule-after :
      (pre post : List (Event E)) (w : LogWriter E)
      → IsSchedule (pre ++ post) w
      → IsSchedule post (run pre w)
  unfolding run
  IsSchedule-after [] post w p = p
  IsSchedule-after (ev ∷ pre) post w p = IsSchedule-after pre post (step ev w) p.1

  -- The loop has ended; the store has been handed these entries, and nothing is left.
  abbrev pub IsDrained : List E → LogWriter E → Type 0
  IsDrained entries w =
      (w.mode ≡ exited) × (w.queue ≡ []) × (w.buf ≡ []) × (flatten w.batches ≡ entries)

  over-IsDrained : (w : LogWriter E) {es : List E} → IsOver w → held w ≡ es → IsDrained es w
  over-IsDrained w {es} over kept =
      let rest : w.buf ++ w.queue ≡ [] = ap (λ b. b ++ w.queue) over.2 ∙ over.1 in
      (
        over.0,
        over.1,
        over.2,
        sym (append-nil (flatten w.batches)) ∙ ap (λ l. flatten w.batches ++ l) (sym rest) ∙ kept,
      )

  -- After `Close`, and while no request writes, whatever the `select`s of the loop pick: from the
  -- stop signal on, the loop takes at most as many steps as the channel has entries then, and one
  -- more; and it has ended or can go on. When it has ended, the store has been handed all that the
  -- writer held at `Close`, in order, and nothing is left in the buffer and the channel.
  pub shutdown_ends :
      (w : LogWriter E) (pre post : List (Event E))
      → IsSchedule (pre ++ (stop_seen ∷ post)) (close w)
      → (length post ≤ length (run pre (close w)).queue + 1)
        × (IsDrained (held w) (run (pre ++ (stop_seen ∷ post)) (close w))
            ⊎ ((ev : Event E) × MayPick ev (run (pre ++ (stop_seen ∷ post)) (close w))))
  unfolding close run step
  shutdown_ends w pre post p =
      let v = run pre (close w) in
      let (may, rest) = IsSchedule-after pre (stop_seen ∷ post) (close w) p in
      let seen : step stop_seen v ≡ record v { mode = draining } =
        unfold stop_in in ap (λ k. stop_in k v) may.0 ∙ rw may.1 refl in
      let (bound, ends) =
        drain_bound post v.queue (step stop_seen v) (ap (λ u. u.mode) seen) (ap (λ u. u.queue) seen)
          rest in
      let kept : held (run (pre ++ (stop_seen ∷ post)) (close w)) ≡ held w =
        held-run (pre ++ (stop_seen ∷ post)) (close w)
        ∙ ap (λ l. held w ++ l) (accepted-IsSchedule (pre ++ (stop_seen ∷ post)) (close w) p)
        ∙ append-nil (held w) in
      let whole = run-append pre (stop_seen ∷ post) (close w) in
      (
        bound,
        elim ends [
          | inl over ↦ inl (
              over-IsDrained (run (pre ++ (stop_seen ∷ post)) (close w))
                (subst IsOver (sym whole) over) kept)
          | inr (ev, m) ↦ inr (ev, subst (MayPick ev) (sym whole) m)
        ],
      )
