-- ===== src/Guardrail.antt =====
-- internal/guardrail/pipeline.go and interface.go, and internal/gateway/middleware/guardrail.go: a
-- pipeline of guardrails on the user's messages and on the response. The guardrails themselves are
-- parameters. Log lines are left out, and so is a manager without a pipeline.
pub mod Sequence
pub mod Messages
mod Tests
use Prim.Native.String.{◌++◌ as str_append}
use llm_router.Common.{
  ℕ, String, Bool, true, false, not, ◌&&◌, ◌||◌, Option, none, some, List, [], ◌∷◌, str_eq, ltb,
  if◌then◌else◌, length,
}
use llm_router.Chat.{Message}

pub data Direction : Type 0 where
  input : Direction
  output : Direction

pub data Action : Type 0 where
  block : Action
  mask : Action
  log_only : Action
  -- A text that names none of them.
  other_action : String → Action

pub record Result : Type 0 where
  pub triggered : Bool
  pub action : Action
  pub modified : String
  pub category : String
  pub guardrail : String

-- `Check`: nothing on an error.
pub record Guardrail : Type 0 where
  pub check : String → Direction → Option Result

pub record BlockError : Type 0 where
  pub guardrail : String
  pub category : String
  pub message : String

unfoldable pub block_error : Result → BlockError
block_error r = record {
  guardrail = r.guardrail;
  category = r.category;
  message = str_append "Request blocked by content policy: " (str_append r.category " detected.");
}

-- The text after a guardrail that answered and does not block.
unfoldable pub masked : Action → String → String → String
masked mask modified current = modified
masked block modified current = current
masked log_only modified current = current
masked (other_action s) modified current = current

abbrev pub blocks : Action → Bool
blocks block = true
blocks mask = false
blocks log_only = false
blocks (other_action s) = false

unfoldable pub run : String → Direction → List Guardrail → String × Option BlockError
unfolding block_error masked
run current dir [] = (current, none)
run current dir (g ∷ guards) = elim (g.check current dir) [
  | none ↦ run current dir guards
  | some r ↦ elim r.triggered [
    | false ↦ run current dir guards
    | true ↦ elim (blocks r.action) [
      | true ↦ (current, some (block_error r))
      | false ↦ run (masked r.action r.modified current) dir guards
    ]
  ]
]

pub record Pipeline : Type 0 where
  pub input_guards : List Guardrail
  pub output_guards : List Guardrail

unfoldable pub check_input : Pipeline → String → String × Option BlockError
unfolding run
check_input p text = run text input p.input_guards

unfoldable pub check_output : Pipeline → String → String × Option BlockError
unfolding run
check_output p text = run text output p.output_guards

unfoldable pub has_output : Pipeline → Bool
has_output p = ltb 0 (length p.output_guards)

-- The loop over the messages: the first error that blocks, or the messages after masking.
unfoldable pub check_messages : Pipeline → List Message → Option BlockError × List Message
unfolding check_input
check_messages p [] = (none, [])
check_messages p (m ∷ ms) =
    if not (str_eq m.role "user") || str_eq m.content ""
    then (let (err, rest) = check_messages p ms in (err, m ∷ rest))
    else (let (text, blocked) = check_input p m.content in
        let changed : Message = if str_eq text m.content then m else record m { content = text } in
        elim blocked [
          | some b ↦ (some b, m ∷ ms)
          | none ↦ let (err, rest) = check_messages p ms in (err, changed ∷ rest)
        ])

-- What the client gets: the handler's own response, a captured body with its status, or the error
-- of a guardrail with status 400.
pub data Reply : Type 0 where
  reply : ℕ → String → Reply
  policy_violation : BlockError → Reply

-- The end of `GuardrailCheck`, on the handler's response. A captured response with an empty body
-- is answered by nothing, which Go makes an empty 200.
unfoldable pub deliver : Pipeline → Bool → ℕ × String → Reply
unfolding check_output has_output
deliver p stream (status, body) =
    if not stream && has_output p
    then (if str_eq body ""
        then reply 200 ""
        else (let (filtered, rejected) = check_output p body in
            elim rejected [ some b ↦ policy_violation b | none ↦ reply status filtered ]))
    else reply status body

-- `GuardrailCheck` on a chat completion: `next` is the handler, on the messages.
unfoldable pub guardrail_check :
    Pipeline → Bool → (List Message → ℕ × String) → List Message → Reply
unfolding check_messages deliver
guardrail_check p stream next ms =
    let (blocked, checked) = check_messages p ms in
    elim blocked [ some b ↦ policy_violation b | none ↦ deliver p stream (next checked) ]
