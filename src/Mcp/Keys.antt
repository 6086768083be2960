-- ===== src/Mcp/Keys.antt =====
-- internal/mcp/proxy.go: the keys of the result cache.
use Prim.Native.String.{◌++◌ as str_append}
use text.Mathlib.TextLemmas.{append_assoc as text_assoc}
use llm_router.Common.{String, ◌≡◌, sym, ap, ◌∙◌, false, [], ◌∷◌, str_eq, str_eq_refl}
use llm_router.Mcp.Cache.{Host, key}
use llm_router.Mcp.Cache.{key_text, arguments_text, str_less}

arguments_text-two :
    (a b u v : String)
    → str_eq a b ≡ false
    → arguments_text ((a, u) ∷ (b, v) ∷ []) (a ∷ b ∷ [])
      ≡ arguments_text
          ((str_append a (str_append u b), v) ∷ [])
          (str_append a (str_append u b) ∷ [])
unfolding arguments_text
arguments_text-two a b u v d =
    rw (str_eq_refl a, d, str_eq_refl b, str_eq_refl (str_append a (str_append u b)))
      (simp text_assoc)

module _ {W : Type 0} (h : Host W) where
  -- The names and the values of the arguments are hashed without a separator: two arguments `a` and
  -- `b` have the same cache key as the one argument whose name is `a`, the value of `a` and `b` in a
  -- row.
  pub key_collision :
      (name tool a b u v : String)
      → str_eq a b ≡ false
      → h.sort.sort str_less (a ∷ b ∷ []) ≡ a ∷ b ∷ []
      → h.sort.sort str_less (str_append a (str_append u b) ∷ [])
        ≡ str_append a (str_append u b) ∷ []
      → key h record { server = name; tool = tool; arguments = (a, u) ∷ (b, v) ∷ [] }
        ≡ key h record {
          server = name;
          tool = tool;
          arguments = (str_append a (str_append u b), v) ∷ [];
        }
  unfolding key arguments_text key_text
  key_collision name tool a b u v d two one =
      let hashed = λ (t : String).
        h.sum_hex (str_append name (str_append "\0" (str_append tool (str_append "\0" t)))) in
      ap (λ ks. hashed (arguments_text ((a, u) ∷ (b, v) ∷ []) ks)) two
      ∙ ap hashed (arguments_text-two a b u v d)
      ∙ sym (ap (λ ks. hashed (arguments_text ((str_append a (str_append u b), v) ∷ []) ks)) one)
