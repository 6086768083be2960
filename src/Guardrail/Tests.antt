-- ===== src/Guardrail/Tests.antt =====
-- A pipeline that masks a secret, and blocks an insult.
use llm_router.Common.{ℕ, String, ◌≡◌, refl, true, false, some, List, [], ◌∷◌, str_eq}
use llm_router.Chat.{Message}
use llm_router.Guardrail.{Guardrail, block, mask, Pipeline, reply, guardrail_check}

abbrev hides : Guardrail
hides = record {
  check = λ text dir. some (record {
    triggered = str_eq text "secret";
    action = mask;
    modified = "[hidden]";
    category = "pii";
    guardrail = "pii";
  });
}

abbrev polite : Guardrail
polite = record {
  check = λ text dir. some (record {
    triggered = str_eq text "fool";
    action = block;
    modified = "";
    category = "insult";
    guardrail = "content";
  });
}

abbrev pipeline : Pipeline
pipeline = record { input_guards = hides ∷ polite ∷ []; output_guards = hides ∷ [] }

abbrev says : String → String → Message
says r c = record { role = r; content = c }

abbrev echo : List Message → ℕ × String
echo [] = (204, "")
echo (m ∷ ms) = (201, m.content)

guardrail_tests :
    (guardrail_check pipeline false echo (says "user" "secret" ∷ []) ≡ reply 201 "[hidden]")
    × (guardrail_check pipeline false echo (says "system" "secret" ∷ []) ≡ reply 201 "[hidden]")
    × (guardrail_check pipeline true echo (says "system" "secret" ∷ []) ≡ reply 201 "secret")
    × (guardrail_check pipeline false echo [] ≡ reply 200 "")
unfolding guardrail_check
guardrail_tests = (refl, refl, refl, refl)
