-- ===== src/Guardrail/Messages.antt =====
-- internal/gateway/middleware/guardrail.go: what reaches the handler and what comes back.
use llm_router.Common.{
  ℕ, String, ◌≡◌, ◌≢◌, Bool, true, false, not, ◌&&◌, ◌||◌, none, str_eq, if◌then◌else◌,
}
use llm_router.Chat.{Message}
use llm_router.Guardrail.{Pipeline, check_input, check_output, has_output}

-- The messages that the guardrails inspect.
abbrev pub inspected : Message → Bool
inspected m = not (not (str_eq m.role "user") || str_eq m.content "")

-- A message after masking.
abbrev pub screen : Pipeline → Message → Message
screen p m = if inspected m then record m { content = (check_input p m.content).0 } else m

-- No guardrail blocks the message.
abbrev pub Clean : Pipeline → Message → Type 0
Clean p m = inspected m ≡ true → (check_input p m.content).1 ≡ none

-- What the client gets for the handler's answer, once no message is blocked.
pub record Answers (p : Pipeline) (stream : Bool) (passed : ℕ × String) (status : ℕ) (text : String)
    : Type 0 where
  pub unfiltered : (not stream && has_output p) ≡ false → (status ≡ passed.0) × (text ≡ passed.1)
  pub empty : (not stream && has_output p) ≡ true → passed.1 ≡ "" → (status ≡ 200) × (text ≡ "")
  pub filtered :
      (not stream && has_output p) ≡ true
      → passed.1 ≢ ""
      → (status ≡ passed.0)
        × (text ≡ (check_output p passed.1).0)
        × ((check_output p passed.1).1 ≡ none)
