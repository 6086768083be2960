-- ===== src/Common/Texts.antt =====
-- Prefixes and suffixes of texts, as in Go's package `strings`.
use Prim.Native.Char.{Char, code}
use Prim.Native.String.{String, ◌++◌ as str_append, count}
use text.Mathlib.Text.{◌==◌ as str_eq}
use text.Mathlib.TextEquality.{Char-path}
use text.Mathlib.TextLemmas.{nil-append, cons-append, length-append, length-cons}
use mathlib.Core.Path.{◌≡◌, refl, ap, sym, ◌∙◌}
use mathlib.Core.Bool.{Bool, true, false}
use mathlib.Core.Logic.{inl, inr, ◌↔◌, ◌⊎◌}
use mathlib.Core.Option.{Option, none, some}
use native.Mathlib.Omega.{arith}
use llm_router.Common.Tests.{if◌then◌else◌, ◌==◌, Bool-cases, Option-cases, str_eq_refl, str_eq-eq}

-- `strings.HasPrefix(s, p)`.
unfoldable pub has_prefix : String → String → Bool
has_prefix String.[] s = true
has_prefix (String.◌∷◌ c p) String.[] = false
has_prefix (String.◌∷◌ c p) (String.◌∷◌ d s) =
    let rest = has_prefix p s in if code c == code d then rest else false

pub has_prefix-append : (p s : String) → has_prefix p (str_append p s) ≡ true
unfolding has_prefix
has_prefix-append String.[] s = refl
has_prefix-append (String.◌∷◌ c p) s =
    rw (cons-append c p s) (rw (has_prefix-append p s) (ground arith))

-- `s` without its suffix `p`, if it has that.
unfoldable pub strip_suffix : String → String → Option String
strip_suffix p String.[] = if str_eq "" p then some "" else none
strip_suffix p (String.◌∷◌ c s) =
    let rest = strip_suffix p s in
    if str_eq (String.◌∷◌ c s) p
    then some ""
    else elim rest [ none ↦ none | some t ↦ some (String.◌∷◌ c t) ]

strip_suffix_self : (p : String) → strip_suffix p p ≡ some ""
unfolding strip_suffix
strip_suffix_self String.[] = refl
strip_suffix_self (String.◌∷◌ c p) = rw (str_eq_refl (String.◌∷◌ c p))

cons-ne : (c : Char) (s p : String) → str_eq (String.◌∷◌ c (str_append s p)) p ≡ false
cons-ne c s p = elim (Bool-cases (str_eq (String.◌∷◌ c (str_append s p)) p)) [
  | inr n ↦ n
  | inl t ↦
      let e : count (String.◌∷◌ c (str_append s p)) ≡ count p = ap count (str_eq-eq _ _ t) in
      absurd (omega (arith, e, length-append s p, length-cons c (str_append s p)))
]

pub strip_suffix-append : (s p : String) → strip_suffix p (str_append s p) ≡ some s
unfolding strip_suffix
strip_suffix-append String.[] p = rw (nil-append p) (strip_suffix_self p)
strip_suffix-append (String.◌∷◌ c s) p =
    rw (cons-append c s p) (rw (cons-ne c s p, strip_suffix-append s p) refl)

cons_inner :
    (c : Char) (o : Option String) (t : String)
    → elim o [ none ↦ none | some u ↦ some (String.◌∷◌ c u) ] ≡ some t
    → (u : String) × (o ≡ some u) × (String.◌∷◌ c u ≡ t)
cons_inner c none t h = cc
cons_inner c (some u) t h = (u, refl, cc)

pub strip_suffix-some : (p s t : String) → strip_suffix p s ≡ some t → s ≡ str_append t p
unfolding strip_suffix
strip_suffix-some p String.[] t h = elim (Bool-cases (str_eq "" p)) [
  | inr n ↦ cc (rw n at h)
  | inl e ↦
      let q : "" ≡ t = cc (rw e at h) in
      str_eq-eq "" p e ∙ sym (nil-append p) ∙ ap (λ x. str_append x p) q
]
strip_suffix-some p (String.◌∷◌ c s) t h = elim (Bool-cases (str_eq (String.◌∷◌ c s) p)) [
  | inl e ↦
      let q : "" ≡ t = cc (rw e at h) in
      str_eq-eq (String.◌∷◌ c s) p e ∙ sym (nil-append p) ∙ ap (λ x. str_append x p) q
  | inr n ↦
      let (u, inner, whole) = cons_inner c (strip_suffix p s) t (rw n at h) in
      ap (λ x. String.◌∷◌ c x) (strip_suffix-some p s u inner)
      ∙ sym (cons-append c u p)
      ∙ ap (λ x. str_append x p) whole
]

has_prefix-some : (p s : String) → has_prefix p s ≡ true → (t : String) × (s ≡ str_append p t)
unfolding has_prefix
has_prefix-some String.[] s h = (s, sym (nil-append s))
has_prefix-some (String.◌∷◌ c p) String.[] h = cc
has_prefix-some (String.◌∷◌ c p) (String.◌∷◌ d s) h = elim (Bool-cases (code c == code d)) [
  | inr n ↦ cc (rw n at h)
  | inl e ↦
      let (t, rest) = has_prefix-some p s (rw e at h) in
      let same : code c ≡ code d = ground arith in
      (
        t,
        ap (λ x. String.◌∷◌ d x) rest
            ∙ ap (λ (x : Char). String.◌∷◌ x (str_append p t)) (sym (Char-path c d same))
            ∙ sym (cons-append c p t),
      )
]

pub has_prefix_iff :
    (p s : String) → (has_prefix p s ≡ true) ↔ ((t : String) × (s ≡ str_append p t))
has_prefix_iff p s = (has_prefix-some p s, λ h. rw h.1 (has_prefix-append p h.0))

pub strip_suffix-cases :
    (p s : String)
    → ((t : String) × (s ≡ str_append t p) × (strip_suffix p s ≡ some t))
      ⊎ ((strip_suffix p s ≡ none) × ((t : String) → ¬ (s ≡ str_append t p)))
strip_suffix-cases p s = elim (Option-cases (strip_suffix p s)) [
  | inr (t, e) ↦ inl (t, strip_suffix-some p s t e, e)
  | inl n ↦ inr (n, λ t e. cc (n, strip_suffix-append t p, ap (strip_suffix p) e))
]
