-- ===== src/Rules/Match.antt =====
-- internal/gateway/router/matcher.go: when a rule matches a request.
use text.Mathlib.Text.{starts_with}
use llm_router.Common.{
  ℕ, zero, suc, ◌≤◌, String, ◌≡◌, refl, sym, ap, subst, ◌∙◌, ◌≢◌, ◌↔◌, ◌⊎◌, inl, inr, Bool, true,
  false, not, ◌&&◌, ◌||◌, Option, none, some, List, [], ◌∷◌, arith, str_eq, ltb, ◌==◌,
  if◌then◌else◌, Bool-cases, str_eq_refl, str_eq-eq, length, All, lookup,
}
use llm_router.Common.Int.{ℤ, pos, negsuc, pos_part, ltb_ℤ}
use llm_router.Chat.{Request}
use llm_router.Rules.{
  RouteMatch, VirtualKey, Regex, CompiledRule, metadata_agrees, value_or_empty, id_differs,
  optional_differs, is_set, regex_fails, key_matches, metadata_matches, matches,
}

-- Every pair that the rule wants is in the request's metadata, a missing key reading as "".
metadata_agrees_iff :
    (want have : List (String × String))
    → (metadata_agrees want have ≡ true) ↔ All (λ kv. value_or_empty (lookup kv.0 have) ≡ kv.1) want
unfolding metadata_agrees
metadata_agrees_iff [] have = ((λ h. tt), (λ h. refl))
metadata_agrees_iff ((k, v) ∷ want) have =
    let (to, from) = metadata_agrees_iff want have in
    elim (Bool-cases (str_eq (value_or_empty (lookup k have)) v)) [
      | inl t ↦
          rw (t, metadata_agrees)
            ((λ h. (str_eq-eq (value_or_empty (lookup k have)) v t, to h)), (λ h. from h.1))
      | inr t ↦ rw (t, metadata_agrees) ((λ h. cc h), (λ h. cc (t, h.0, str_eq_refl v)))
    ]

-- An identifier that the rule wants, if it wants one, is the one that the key has.
abbrev pub Agree : Option ℕ → Option ℕ → Type 0
Agree want have = (k : ℕ) → want ≡ some k → have ≡ some k

abbrev pub key_field : (VirtualKey → Option ℕ) → Option VirtualKey → Option ℕ
key_field f none = none
key_field f (some v) = f v

pub record KeyAgrees (m : RouteMatch) (vk : Option VirtualKey) : Type 0 where
  pub key : Agree m.key_id (key_field (λ v. some v.id) vk)
  pub user : Agree m.user_id (key_field (λ v. v.user_id) vk)
  pub team : Agree m.team_id (key_field (λ v. v.team_id) vk)
  pub org : Agree m.org_id (key_field (λ v. v.org_id) vk)

id_iff : (want : Option ℕ) (n : ℕ) → (id_differs want n ≡ false) ↔ Agree want (some n)
unfolding id_differs
id_iff none n = ((λ h k e. cc e), (λ h. refl))
id_iff (some j) n = (
  (λ h k e. let s : j ≡ k = cc e in let u : n ≡ k = ground arith in ap some u),
  (λ h. let s : n ≡ j = cc (h j refl) in ground arith),
)

optional_iff : (want have : Option ℕ) → (optional_differs want have ≡ false) ↔ Agree want have
unfolding optional_differs id_differs
optional_iff none have = ((λ h k e. cc e), (λ h. refl))
optional_iff (some j) none = ((λ h k e. cc h), (λ h. cc (h j refl)))
optional_iff (some j) (some n) = id_iff (some j) n

is_set_iff : (want : Option ℕ) → (is_set want ≡ false) ↔ Agree want none
is_set_iff none = ((λ h k e. cc e), (λ h. refl))
is_set_iff (some j) = ((λ h k e. cc h), (λ h. cc (h j refl)))

guard_iff : (b c : Bool) → ((if b then false else c) ≡ true) ↔ ((b ≡ false) × (c ≡ true))
guard_iff true c = ((λ h. cc h), (λ h. cc h.0))
guard_iff false c = ((λ h. (refl, h)), (λ h. h.1))

or_iff : (a b : Bool) → ((a || b) ≡ false) ↔ ((a ≡ false) × (b ≡ false))
or_iff true b = ((λ h. cc h), (λ h. cc h.0))
or_iff false b = ((λ h. (refl, h)), (λ h. h.1))

not_iff : (b : Bool) → (not b ≡ false) ↔ (b ≡ true)
not_iff true = ((λ h. refl), (λ h. refl))
not_iff false = ((λ h. cc h), (λ h. cc h))

set_iff : (s : String) (b : Bool) → ((not (str_eq s "") && not b) ≡ false) ↔ ((s ≢ "") → b ≡ true)
set_iff s b = elim (Bool-cases (str_eq s "")) [
  | inl t ↦ rw t ((λ h n. absurd (n (str_eq-eq s "" t))), (λ h. refl))
  | inr f ↦ rw f (
    (λ h n. (not_iff b).0 h),
    (λ h. (not_iff b).1 (h (λ e. cc (str_eq_refl s, subst (λ x. str_eq s x ≡ false) (sym e) f)))),
  )
]

text_iff : (s t : String) → ((not (str_eq s "") && not (str_eq t s)) ≡ false) ↔ ((s ≢ "") → t ≡ s)
text_iff s t =
    let (to, from) = set_iff s (str_eq t s) in
    (
      (λ h n. str_eq-eq t s (to h n)),
      (λ h. from (λ n. subst (λ x. str_eq t x ≡ true) (h n) (str_eq_refl t))),
    )

min_iff : (m : ℤ) (n : ℕ) → ((ltb_ℤ (pos 0) m && ltb_ℤ (pos n) m) ≡ false) ↔ (pos_part m ≤ n)
min_iff (pos k) n = ((λ h. ground arith), (λ h. ground arith))
min_iff (negsuc k) n = ((λ h. ground arith), (λ h. ground arith))

max_iff :
    (m : ℤ) (n : ℕ)
    → ((ltb_ℤ (pos 0) m && ltb_ℤ m (pos n)) ≡ false) ↔ ((pos_part m ≢ 0) → n ≤ pos_part m)
max_iff (pos zero) n = ((λ h f. absurd (f refl)), (λ h. ground arith))
max_iff (pos (suc k)) n = ((λ h f. ground arith), (λ h. let le = h (omega arith) in ground arith))
max_iff (negsuc k) n = ((λ h f. absurd (f refl)), (λ h. ground arith))

tools_iff : (b : Bool) (n : ℕ) → ((b && n == 0) ≡ false) ↔ (b ≡ true → n ≢ 0)
tools_iff false n = ((λ h f. cc f), (λ h. refl))
tools_iff true n = ((λ h f. ground arith), (λ h. let ne = h refl in ground arith))

guards_pass :
    (n m : ℕ) (b : Bool) → (if ltb 0 (suc n) then (if suc m == 0 then false else b) else true) ≡ b
guards_pass n m b = ground arith

metadata_iff :
    (want have : List (String × String))
    → ((if ltb 0 (length want)
          then (if length have == 0 then false else metadata_agrees want have)
          else true)
        ≡ true)
      ↔ (((want ≡ []) ⊎ (have ≢ [])) × All (λ kv. value_or_empty (lookup kv.0 have) ≡ kv.1) want)
unfolding metadata_agrees
metadata_iff [] have = ((λ h. (inl refl, tt)), (λ h. refl))
metadata_iff (w ∷ want) [] =
    ((λ h. absurd (grind arith)), (λ h. elim h.0 [ inl e ↦ cc e | inr n ↦ absurd (n refl) ]))
metadata_iff (w ∷ want) (x ∷ have) =
    let (to, from) = metadata_agrees_iff (w ∷ want) (x ∷ have) in
    let pass = guards_pass (length want) (length have) (metadata_agrees (w ∷ want) (x ∷ have)) in
    ((λ h. (inr (λ e. cc e), to (sym pass ∙ h))), (λ h. pass ∙ from h.1))

regex_iff :
    (rx : Regex) (c : Option rx.Re) (model : String)
    → (regex_fails rx c model ≡ false)
      ↔ ((re : rx.Re) → c ≡ some re → rx.match_string re model ≡ true)
unfolding regex_fails
regex_iff rx none model = ((λ h re e. cc e), (λ h. refl))
regex_iff rx (some r) model = (
  (λ h re e.
      let s : r ≡ re = cc e in subst (λ x. rx.match_string x model ≡ true) s ((not_iff _).0 h)),
  (λ h. (not_iff _).1 (h r refl)),
)

module _ (rx : Regex) where
  pub key_matches_iff :
      (m : RouteMatch) (vk : Option VirtualKey) → (key_matches rx m vk ≡ true) ↔ KeyAgrees m vk
  unfolding key_matches
  key_matches_iff m none = (
    λ h.
        let (h₁, o) = (or_iff _ _).0 ((guard_iff _ true).0 h).0 in
        let (h₂, t) = (or_iff _ _).0 h₁ in
        let (k, u) = (or_iff _ _).0 h₂ in
        record {
          key = (is_set_iff m.key_id).0 k;
          user = (is_set_iff m.user_id).0 u;
          team = (is_set_iff m.team_id).0 t;
          org = (is_set_iff m.org_id).0 o;
        },
    λ a.
        rw
          (
            (is_set_iff m.key_id).1 a.key,
            (is_set_iff m.user_id).1 a.user,
            (is_set_iff m.team_id).1 a.team,
            (is_set_iff m.org_id).1 a.org,
          )
          refl,
  )
  key_matches_iff m (some v) = (
    λ h.
        let (k, h₁) = (guard_iff _ _).0 h in
        let (u, h₂) = (guard_iff _ _).0 h₁ in
        let (t, h₃) = (guard_iff _ _).0 h₂ in
        let (o, h₄) = (guard_iff _ true).0 h₃ in
        record {
          key = (id_iff m.key_id v.id).0 k;
          user = (optional_iff m.user_id v.user_id).0 u;
          team = (optional_iff m.team_id v.team_id).0 t;
          org = (optional_iff m.org_id v.org_id).0 o;
        },
    λ a.
        rw
          (
            (id_iff m.key_id v.id).1 a.key,
            (optional_iff m.user_id v.user_id).1 a.user,
            (optional_iff m.team_id v.team_id).1 a.team,
            (optional_iff m.org_id v.org_id).1 a.org,
          )
          refl,
  )

  metadata_matches_iff :
      (m : RouteMatch) (have : List (String × String))
      → (metadata_matches rx m have ≡ true) ↔ (
          ((m.metadata ≡ []) ⊎ (have ≢ []))
          × All (λ kv. value_or_empty (lookup kv.0 have) ≡ kv.1) m.metadata)
  unfolding metadata_matches
  metadata_matches_iff m have = metadata_iff m.metadata have

  -- The conditions of a rule that are set, on a request with an estimated number of tokens.
  pub record Applies {F : Type 0} (cr : CompiledRule rx) (vk : Option VirtualKey) (req : Request F)
      (estimated : ℕ) : Type 0 where
    pub model : (cr.rule.conditions.model ≢ "") → req.model ≡ cr.rule.conditions.model
    pub prefix :
        (cr.rule.conditions.model_prefix ≢ "")
        → starts_with req.model cr.rule.conditions.model_prefix ≡ true
    pub regex : (re : rx.Re) → cr.compiled_regex ≡ some re → rx.match_string re req.model ≡ true
    pub key : KeyAgrees cr.rule.conditions vk
    pub some_metadata : (cr.rule.conditions.metadata ≡ []) ⊎ (req.metadata ≢ [])
    pub metadata :
        All (λ kv. value_or_empty (lookup kv.0 req.metadata) ≡ kv.1) cr.rule.conditions.metadata
    pub at_least : pos_part cr.rule.conditions.min_context_tokens ≤ estimated
    pub at_most :
        (pos_part cr.rule.conditions.max_context_tokens ≢ 0)
        → estimated ≤ pos_part cr.rule.conditions.max_context_tokens
    pub tools : cr.rule.conditions.has_tools ≡ true → req.tools ≢ 0

  -- A rule matches a request exactly when each of its conditions that is set holds; a metadata pair
  -- with an empty value is also met by a missing key, if the request has any metadata.
  pub matches_iff :
      {F : Type 0} (cr : CompiledRule rx) (vk : Option VirtualKey) (req : Request F) (estimated : ℕ)
      → (matches rx cr vk req estimated ≡ true) ↔ Applies cr vk req estimated
  unfolding matches
  matches_iff cr vk req estimated = (
    λ h.
        let m = cr.rule.conditions in
        let (a, h₁) = (guard_iff _ _).0 h in
        let (b, h₂) = (guard_iff _ _).0 h₁ in
        let (c, h₃) = (guard_iff _ _).0 h₂ in
        let (d, h₄) = (guard_iff _ _).0 h₃ in
        let (e, h₅) = (guard_iff _ _).0 h₄ in
        let (f, h₆) = (guard_iff _ _).0 h₅ in
        let (g, h₇) = (guard_iff _ _).0 h₆ in
        let (i, h₈) = (guard_iff _ true).0 h₇ in
        record {
          model = (text_iff m.model req.model).0 a;
          prefix = (set_iff m.model_prefix _).0 b;
          regex = (regex_iff rx cr.compiled_regex req.model).0 c;
          key = (key_matches_iff m vk).0 ((not_iff _).0 d);
          some_metadata = ((metadata_matches_iff m req.metadata).0 ((not_iff _).0 e)).0;
          metadata = ((metadata_matches_iff m req.metadata).0 ((not_iff _).0 e)).1;
          at_least = (min_iff m.min_context_tokens estimated).0 f;
          at_most = (max_iff m.max_context_tokens estimated).0 g;
          tools = (tools_iff m.has_tools req.tools).0 i;
        },
    λ a.
        let m = cr.rule.conditions in
        rw
          (
            (text_iff m.model req.model).1 a.model,
            (set_iff m.model_prefix (starts_with req.model m.model_prefix)).1 a.prefix,
            (regex_iff rx cr.compiled_regex req.model).1 a.regex,
            (key_matches_iff m vk).1 a.key,
            (metadata_matches_iff m req.metadata).1 (a.some_metadata, a.metadata),
            (min_iff m.min_context_tokens estimated).1 a.at_least,
            (max_iff m.max_context_tokens estimated).1 a.at_most,
            (tools_iff m.has_tools req.tools).1 a.tools,
          )
          refl,
  )
