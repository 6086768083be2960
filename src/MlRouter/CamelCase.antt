-- ===== src/MlRouter/CamelCase.antt =====
-- internal/mlrouter/classifier.go: the test for words in camelCase.
use llm_router.Common.{
  String, ◌≡◌, refl, inl, inr, Bool, true, false, ◌||◌, arith, str_eq, if◌then◌else◌, Bool-cases,
  any,
}
use llm_router.MlRouter.Classifier.{Texts, any_char, tail_chars, technical_keywords, is_technical}

-- No character of the text is in upper case.
abbrev pub NoUpper : Texts → String → Type 0
NoUpper x s = any_char x.is_upper s ≡ false

tail_chars-NoUpper : (x : Texts) (s : String) → NoUpper x s → NoUpper x (tail_chars s)
unfolding any_char
tail_chars-NoUpper x String.[] h = h
tail_chars-NoUpper x (String.◌∷◌ c s) h = elim (Bool-cases (x.is_upper c)) [
  | inl t ↦ cc (rw t at h)
  | inr n ↦ rw n at h
]

any_of_four :
    (a b c d : Bool)
    → d ≡ false
    → (if a then true else if b then true else if c then true else d) ≡ (a || b || c)
any_of_four true b c d h = ground arith
any_of_four false true c d h = ground arith
any_of_four false false true d h = refl
any_of_four false false false d h = h

-- Only keywords, digits and underscores make a word technical: the test for camelCase, which is made
-- on the word in lower case, never succeeds, if `strings.ToLower` leaves no upper case.
pub is_technical_lem :
    (x : Texts)
    → ((s : String) → NoUpper x (x.to_lower s))
    → (w : String)
    → is_technical x w ≡ (
        any (str_eq (x.to_lower (x.trim_marks w))) technical_keywords
        || any_char x.is_digit (x.to_lower (x.trim_marks w))
        || x.contains (x.to_lower (x.trim_marks w)) "_")
unfolding is_technical
is_technical_lem x lowered w =
    let word = x.to_lower (x.trim_marks w) in
    any_of_four (any (str_eq word) technical_keywords) (any_char x.is_digit word)
      (x.contains word "_") (any_char x.is_upper (tail_chars word))
      (tail_chars-NoUpper x word (lowered (x.trim_marks w)))
