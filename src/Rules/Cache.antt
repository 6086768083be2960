-- ===== src/Rules/Cache.antt =====
-- internal/gateway/router/matcher.go: the cache of regular expressions and what is compiled with it.
use llm_router.Common.{
  String, ◌≡◌, refl, sym, subst, ◌∙◌, ◌≢◌, inl, inr, false, Option, none, some, List, str_eq,
  if◌then◌else◌, Bool-cases, Option-cases, str_eq_refl, str_eq-eq, lookup, insert, lookup-insert,
}
use llm_router.Rules.{RouteRule, Regex, CompiledRule, cached_compile, compile_rule}

module _ (rx : Regex) where
  open rx use {Re, compile}

  -- Every entry of the cache is what compiling its pattern gives.
  abbrev pub IsValid : List (String × Re) → Type 0
  IsValid cache = (p : String) (re : Re) → lookup p cache ≡ some re → compile p ≡ some re

  insert-IsValid :
      (p : String) (re : Re) (cache : List (String × Re))
      → compile p ≡ some re
      → IsValid cache
      → IsValid (insert p re cache)
  insert-IsValid p re cache e valid q r h =
      let at : (if str_eq p q then some re else lookup q cache) ≡ some r =
        sym (lookup-insert p q re cache) ∙ h in
      elim (Bool-cases (str_eq p q)) [
        | inl t ↦
            let same : ◌≡◌ {A = Option Re} (some re) (some r) = rw t at at in
            subst (λ x. compile x ≡ some r) (str_eq-eq p q t) (e ∙ same)
        | inr t ↦ valid q r (rw t at at)
      ]

  -- With a cache whose entries are what compiling their patterns gives, the cached compilation
  -- answers what the compilation answers, and leaves such a cache.
  pub cached_compile-compile :
      (p : String) (cache : List (String × Re))
      → IsValid cache
      → ((cached_compile rx p cache).0 ≡ compile p) × IsValid (cached_compile rx p cache).1
  unfolding cached_compile
  cached_compile-compile p cache valid = elim (Option-cases (lookup p cache)) [
    | inr (re, hit) ↦ rw (hit, cached_compile) (sym (valid p re hit), valid)
    | inl miss ↦
        rw (miss, cached_compile)
          (elim (Option-cases (compile p)) [
            | inl bad ↦ rw bad (refl, valid)
            | inr (re, good) ↦ rw good (refl, insert-IsValid p re cache good valid)
          ])
  ]

  -- A rule with a pattern carries what the pattern compiles to; one without carries nothing.
  pub record IsCompiled (cr : CompiledRule rx) : Type 0 where
    pub without : cr.rule.conditions.model_regex ≡ "" → cr.compiled_regex ≡ none
    pub withal :
        cr.rule.conditions.model_regex ≢ ""
        → (re : Re) × (cr.compiled_regex ≡ some re)
          × (compile cr.rule.conditions.model_regex ≡ some re)

  IsCompiled-of_plain :
      (r : RouteRule)
      → r.conditions.model_regex ≡ ""
      → IsCompiled (record { rule = r; compiled_regex = none })
  IsCompiled-of_plain r plain = record { without = λ h. refl; withal = λ h. absurd (h plain) }

  IsCompiled-of_regex :
      (r : RouteRule) (re : Re)
      → r.conditions.model_regex ≢ ""
      → compile r.conditions.model_regex ≡ some re
      → IsCompiled (record { rule = r; compiled_regex = some re })
  IsCompiled-of_regex r re full e = record {
    without = λ h. absurd (full h);
    withal = λ h. (re, refl, e);
  }

  str_eq-false : (a b : String) → str_eq a b ≡ false → a ≢ b
  str_eq-false a b h e = cc (str_eq_refl b, subst (λ x. str_eq x b ≡ false) e h)

  -- The compilation of a rule that has the cache to itself answers a compiled rule of that rule.
  pub compile_rule-IsCompiled :
      (r : RouteRule) (cache : List (String × Re))
      → IsValid cache
      → IsValid (compile_rule rx r cache).1
        × ((cr : CompiledRule rx)
            → (compile_rule rx r cache).0 ≡ some cr
            → (cr.rule ≡ r) × IsCompiled cr)
  unfolding compile_rule
  compile_rule-IsCompiled r cache valid =
      let pattern = r.conditions.model_regex in
      let (same, valid') = cached_compile-compile pattern cache valid in
      elim (Bool-cases (str_eq pattern "")) [
        | inl t ↦
            rw (t, compile_rule)
              (
                valid,
                λ cr h.
                    let e : record { rule = r; compiled_regex = none } ≡ cr = cc h in
                    subst (λ c. (c.rule ≡ r) × IsCompiled c) e
                      (refl, IsCompiled-of_plain r (str_eq-eq pattern "" t)),
              )
        | inr t ↦
            rw (t, compile_rule)
              (elim (Option-cases (cached_compile rx pattern cache).0) [
                | inl bad ↦ rw bad (valid', λ cr h. cc h)
                | inr (re, good) ↦ rw good (
                  valid',
                  λ cr h.
                      let e : record { rule = r; compiled_regex = some re } ≡ cr = cc h in
                      subst (λ c. (c.rule ≡ r) × IsCompiled c) e
                        (
                          refl,
                          IsCompiled-of_regex r re (str_eq-false pattern "" t) (sym same ∙ good),
                        ),
                )
              ])
      ]
