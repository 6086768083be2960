-- ===== src/MlRouter/Classifier.antt =====
-- internal/mlrouter/classifier.go. The float type is abstract; functions of `strings` and `unicode`
-- are arguments.
use Prim.Native.Char.{Char}
use Prim.Native.String.{◌++◌ as str_append, len}
use llm_router.Common.{
  ℕ, ◌/◌, String, Bool, true, false, not, List, [], ◌∷◌, str_eq, ltb, ◌==◌, if◌then◌else◌, length,
  select, any,
}

-- `ratio a b` is the float a / b.
pub record Floats (F : Type 0) : Type 0 where
  pub ratio : ℕ → ℕ → F
  pub add : F → F → F
  pub sub : F → F → F
  pub mul : F → F → F
  pub div : F → F → F
  pub less : F → F → Bool

-- `strings.Fields`, `strings.ToLower`, `strings.Trim` of punctuation, `strings.Contains` (the text
-- first), `unicode.IsDigit` and `unicode.IsUpper`.
pub record Texts : Type 0 where
  pub fields : String → List String
  pub to_lower : String → String
  pub trim_marks : String → String
  pub contains : String → String → Bool
  pub is_digit : Char → Bool
  pub is_upper : Char → Bool

pub record Features (F : Type 0) : Type 0 where
  pub token_estimate : ℕ
  pub message_count : ℕ
  pub has_code_blocks : Bool
  pub has_tool_calls : Bool
  pub technical_density : F
  pub complexity_score : F
  pub tier : String

-- What the classifier reads of a request: the contents of its messages and the number of its tools.
pub record Request : Type 0 where
  pub contents : List String
  pub tools : ℕ

abbrev pub technical_keywords : List String
technical_keywords =
    "function" ∷ "class" ∷ "interface" ∷ "algorithm" ∷ "optimize" ∷ "complexity" ∷ "runtime"
    ∷ "async" ∷ "goroutine" ∷ "concurrency" ∷ "distributed" ∷ "kubernetes" ∷ "tensor" ∷ "gradient"
    ∷ "neural" ∷ "regression" ∷ "theorem" ∷ "proof" ∷ "calculus" ∷ "differential" ∷ "api" ∷ "sql"
    ∷ "http" ∷ "json" ∷ "yaml" ∷ []

unfoldable pub any_char : (Char → Bool) → String → Bool
any_char p String.[] = false
any_char p (String.◌∷◌ c s) = let rest = any_char p s in if p c then true else rest

abbrev pub tail_chars : String → String
tail_chars String.[] = ""
tail_chars (String.◌∷◌ c s) = s

unfoldable pub joined : List String → String
joined [] = ""
joined (m ∷ ms) = str_append m (str_append " " (joined ms))

unfoldable pub estimate_tokens : String → ℕ
estimate_tokens text = len text / 4

module _ (x : Texts) where
  -- The tests on the word once it is trimmed and in lower case.
  unfoldable pub is_technical_word : String → Bool
  unfolding any_char
  is_technical_word w =
      if any (str_eq w) technical_keywords
      then true
      else if any_char x.is_digit w
      then true
      else if x.contains w "_"
      then true
      else any_char x.is_upper (tail_chars w)

  unfoldable pub is_technical : String → Bool
  unfolding is_technical_word
  is_technical w = is_technical_word (x.to_lower (x.trim_marks w))

module _ {F : Type 0} (f : Floats F) where
  abbrev pub zero_float : F
  zero_float = f.ratio 0 1

  abbrev pub one_float : F
  one_float = f.ratio 1 1

  unfoldable pub clamp : F → F
  clamp v = if f.less v zero_float then zero_float else if f.less one_float v then one_float else v

  unfoldable pub technical_density : Texts → String → F
  unfolding is_technical clamp
  technical_density x text =
      if length (x.fields text) == 0
      then zero_float
      else clamp (
          f.mul
            (f.div (f.ratio (length (select (is_technical x) (x.fields text))) 1)
              (f.ratio (length (x.fields text)) 1))
            (f.ratio 3 1))

  abbrev pub tier_of : F → String
  tier_of score =
      if not (f.less score (f.ratio 45 100))
      then "premium"
      else if not (f.less score (f.ratio 25 100))
      then "medium"
      else "economy"

  abbrev pub plus_if : Bool → ℕ → F → F
  plus_if b percent score = if b then f.add score (f.ratio percent 100) else score

  -- The sum of the five parts, in the order of the code.
  unfoldable pub complexity : ℕ → Bool → ℕ → F → Bool → F
  unfolding clamp
  complexity tokens code_blocks messages density tool_calls =
      let s₁ =
        f.add zero_float
          (f.mul (clamp (f.div (f.ratio tokens 1) (f.ratio 100 1))) (f.ratio 40 100)) in
      let s₂ = plus_if code_blocks 20 s₁ in
      let s₃ =
        f.add s₂ (f.mul (clamp (f.div (f.ratio messages 1) (f.ratio 6 1))) (f.ratio 15 100)) in
      let s₄ = f.add s₃ (f.mul density (f.ratio 15 100)) in clamp (plus_if tool_calls 10 s₄)

  unfoldable pub classify : Texts → Request → Features F
  unfolding technical_density complexity estimate_tokens joined
  classify x req =
      let text = joined req.contents in
      let score =
        complexity (estimate_tokens text) (x.contains text "```") (length req.contents)
          (technical_density x text) (ltb 0 req.tools) in
      record {
        token_estimate = estimate_tokens text;
        message_count = length req.contents;
        has_code_blocks = x.contains text "```";
        has_tool_calls = ltb 0 req.tools;
        technical_density = technical_density x text;
        complexity_score = score;
        tier = tier_of score;
      }
