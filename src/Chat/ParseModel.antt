-- ===== src/Chat/ParseModel.antt =====
-- internal/gateway/handler/chat.go: `parseModel`.
use Prim.Native.Char.{Char, code}
use Prim.Native.String.{◌++◌ as str_append}
use text.Mathlib.TextLemmas.{nil-append, cons-append}
use llm_router.Common.{
  String, ◌≡◌, refl, ◌≢◌, Option, none, some, arith, str_eq, ◌==◌, if◌then◌else◌, str_eq-ne,
}

-- `strings.SplitN(model, "/", 2)`: the texts before and after the first slash, if there is one.
unfoldable pub split_slash : String → Option (String × String)
split_slash String.[] = none
split_slash (String.◌∷◌ c s) =
    let rest = split_slash s in
    if code c == b'/'
    then some ("", s)
    else elim rest [ none ↦ none | some (a, b) ↦ some (String.◌∷◌ c a, b) ]

unfoldable pub parse_model : String → String × String
unfolding split_slash
parse_model model = elim (split_slash model) [
  | none ↦ ("openai", model)
  | some (provider, name) ↦ if str_eq provider "" then ("openai", model) else (provider, name)
]

-- No character of the text is a slash.
abbrev pub NoSlash : String → Type 0
NoSlash String.[] = Unit
NoSlash (String.◌∷◌ c s) = (code c ≢ b'/') × NoSlash s

abbrev slash : Char
slash = "/"

pub split_slash-append :
    (provider model : String)
    → NoSlash provider
    → split_slash (str_append provider (str_append "/" model)) ≡ some (provider, model)
unfolding split_slash
split_slash-append String.[] model h =
    rw (nil-append (str_append "/" model)) (rw (cons-append slash "" model, nil-append model) refl)
split_slash-append (String.◌∷◌ c s) model h =
    rw (cons-append c s (str_append "/" model)) (rw (split_slash-append s model h.1) (grind arith))

split_slash-none : (model : String) → NoSlash model → split_slash model ≡ none
unfolding split_slash
split_slash-none String.[] h = refl
split_slash-none (String.◌∷◌ c s) h = rw (split_slash-none s h.1) (grind arith)

-- `parseModel` inverts "provider/model" for a provider that is not empty and has no slash, whatever
-- the model's text; a text with no slash at all is a model of "openai".
pub parse_model-append :
    (provider model : String)
    → NoSlash provider
    → provider ≢ ""
    → (parse_model (str_append provider (str_append "/" model)) ≡ (provider, model))
      × (parse_model provider ≡ ("openai", provider))
unfolding parse_model
parse_model-append provider model h full = (
  rw (split_slash-append provider model h, parse_model) (rw (str_eq-ne provider "" full) refl),
  rw (split_slash-none provider h, parse_model) refl,
)
