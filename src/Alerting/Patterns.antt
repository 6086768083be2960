-- ===== src/Alerting/Patterns.antt =====
-- internal/alerting/router.go: what an event pattern matches.
use Prim.Native.String.{◌++◌ as str_append}
use llm_router.Common.{
  String, ◌≡◌, sym, ap, subst, ◌∙◌, ◌↔◌, ◌⊎◌, inl, inr, true, some, str_eq_refl, str_eq-eq,
}
use llm_router.Common.Texts.{has_prefix_iff, strip_suffix, strip_suffix-append, strip_suffix-cases}
use llm_router.Alerting.{match_stripped, match_pattern}

-- A wildcard and an event type below it, or an event type that is named in full.
abbrev pub PatternMatches : String → String → Type 0
PatternMatches pattern event_type =
    ((prefix : String) × (rest : String) × (pattern ≡ str_append prefix ".*")
      × (event_type ≡ str_append (str_append prefix ".") rest))
    ⊎ (((prefix : String) → ¬ (pattern ≡ str_append prefix ".*")) × (pattern ≡ event_type))

prefix_unique :
    (p q pattern : String)
    → strip_suffix ".*" pattern ≡ some p
    → pattern ≡ str_append q ".*"
    → q ≡ p
prefix_unique p q pattern h e =
    let same : some q ≡ some p =
      sym (strip_suffix-append q ".*") ∙ ap (strip_suffix ".*") (sym e) ∙ h in
    cc same

wildcard_iff :
    (p pattern event_type : String)
    → strip_suffix ".*" pattern ≡ some p
    → pattern ≡ str_append p ".*"
    → (match_stripped (some p) pattern event_type ≡ true) ↔ PatternMatches pattern event_type
wildcard_iff p pattern event_type h e = (
  λ m. let (rest, q) = (has_prefix_iff (str_append p ".") event_type).0 m in inl (p, rest, e, q),
  λ m. elim m [
    | inr (n, same) ↦ absurd (n p e)
    | inl (q, rest, e', whole) ↦ (has_prefix_iff (str_append p ".") event_type).1 (
      rest,
      whole ∙ ap (λ x. str_append (str_append x ".") rest) (prefix_unique p q pattern h e'),
    )
  ],
)

-- A pattern that ends in ".*" matches exactly the event types that have the text before it as a
-- prefix, followed by a dot; any other pattern matches exactly itself.
pub match_pattern_iff :
    (pattern event_type : String)
    → (match_pattern pattern event_type ≡ true) ↔ PatternMatches pattern event_type
unfolding match_pattern
match_pattern_iff pattern event_type = elim (strip_suffix-cases ".*" pattern) [
  | inl (p, e, stripped) ↦
      subst (λ o. (match_stripped o pattern event_type ≡ true) ↔ PatternMatches pattern event_type)
        (sym stripped) (wildcard_iff p pattern event_type stripped e)
  | inr (stripped, other) ↦
      subst (λ o. (match_stripped o pattern event_type ≡ true) ↔ PatternMatches pattern event_type)
        (sym stripped)
        (
          λ m. inr (other, str_eq-eq pattern event_type m),
          λ m. elim m [
            | inl (q, rest, e, whole) ↦ absurd (other q e)
            | inr (n, same) ↦ rw same (str_eq_refl event_type)
          ],
        )
]
