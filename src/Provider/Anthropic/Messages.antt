-- ===== src/Provider/Anthropic/Messages.antt =====
-- internal/provider/anthropic/transform.go: system messages and the others.
use mathlib.Core.List.{append-nil}
use llm_router.Common.{
  ◌≡◌, sym, ap, ◌∙◌, String, Bool, not, List, [], ◌∷◌, ◌++◌, append_assoc, map, select, str_eq,
  Bool-cases, inl, inr,
}
use llm_router.Chat.{Message}
use llm_router.ExactCache.Store.{ChatRequest}
use llm_router.Provider.Anthropic.{Wire, separate, build_request}

abbrev pub is_system : Message → Bool
is_system m = str_eq m.role "system"

abbrev pub is_other : Message → Bool
is_other m = not (is_system m)

abbrev pub content_of : Message → String
content_of m = m.content

-- The last element, or the default.
abbrev pub last_or : String → List String → String
last_or s [] = s
last_or s (t ∷ ts) = last_or t ts

separate-parts :
    (ms : List Message) (system : String) (kept : List Message)
    → separate ms system kept
      ≡ (last_or system (map content_of (select is_system ms)), kept ++ select is_other ms)
unfolding separate
separate-parts [] system kept = ap (λ k. (system, k)) (sym (append-nil kept))
separate-parts (m ∷ ms) system kept = elim (Bool-cases (is_system m)) [
  | inl t ↦ rw t (separate-parts ms m.content kept)
  | inr t ↦ rw t (
      separate-parts ms system (kept ++ (m ∷ []))
      ∙ ap (λ k. (last_or system (map content_of (select is_system ms)), k))
          (append_assoc kept (m ∷ []) (select is_other ms)))
]

-- Anthropic gets the messages that are not from the system, in their order, and of the system's
-- messages the last one only.
pub build_request-messages :
    {F D : Type 0} (wire : Wire D) (model : String) (req : ChatRequest F)
    → ((build_request wire model req).messages ≡ select is_other req.messages)
      × ((build_request wire model req).system
          ≡ last_or "" (map content_of (select is_system req.messages)))
unfolding build_request
build_request-messages wire model req =
    let parts = separate-parts req.messages "" [] in (ap (λ p. p.1) parts, ap (λ p. p.0) parts)
