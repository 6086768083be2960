-- ===== src/Guardrail/Sequence.antt =====
-- internal/guardrail/pipeline.go: guardrails in sequence.
use llm_router.Common.{
  String, ◌≡◌, refl, inl, inr, Option, none, some, List, [], ◌∷◌, ◌++◌, Bool-cases, Option-cases,
}
use llm_router.Guardrail.{Direction, Guardrail, BlockError, blocks, run}

-- The guardrails `gs` on what a pipeline answered, unless it blocked.
abbrev pub continue_with :
    Direction → List Guardrail → String × Option BlockError → String × Option BlockError
continue_with dir gs (text, none) = run text dir gs
continue_with dir gs (text, some b) = (text, some b)

-- Guardrails that stand behind others see the text that those leave, and are not asked once one of
-- those blocks.
pub run-append :
    (dir : Direction) (gs hs : List Guardrail) (text : String)
    → run text dir (gs ++ hs) ≡ continue_with dir hs (run text dir gs)
unfolding run
run-append dir [] hs text = refl
run-append dir (g ∷ gs) hs text = elim (Option-cases (g.check text dir)) [
  | inl e ↦ rw (e, run) (run-append dir gs hs text)
  | inr (r, e) ↦ elim (Bool-cases r.triggered) [
    | inr off ↦ rw (e, run) (rw (off, run) (run-append dir gs hs text))
    | inl on ↦ elim (Bool-cases (blocks r.action)) [
      | inl stop ↦ rw (e, run) (rw (on, run) (rw (stop, run) refl))
      | inr go ↦ rw (e, run) (rw (on, run) (rw (go, run) (run-append dir gs hs _)))
    ]
  ]
]
