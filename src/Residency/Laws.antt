-- ===== src/Residency/Laws.antt =====
-- internal/residency: what the filter lets through.
use llm_router.Common.{
  String, ◌≡◌, refl, ap, subst, ◌≢◌, ◌↔◌, ◌⊎◌, inl, inr, Bool, true, false, Option, none, some,
  List, [], ◌∷◌, Memᴰ, arith, ◌==◌, if◌then◌else◌, Bool-cases, length, select, All, All-of_mem,
  mem-select, lookup,
}
use llm_router.Fallback.{Target, Chain}
use llm_router.Residency.{
  ErrNoCompliantProvider, Policy, Registry, is_provider_allowed, passed, blocked, filter_targets,
  finish, primary, filter_chain, check_provider, flag, is_some,
}

allowed_iff :
    {V C : Type 0} (allowed : List V) (b : Option Bool) (a : Option C)
    → ((if flag b then false else if length allowed == 0 then true else is_some a) ≡ true)
      ↔ ((b ≢ some true) × ((allowed ≡ []) ⊎ (a ≢ none)))
allowed_iff [] none a = grind arith
allowed_iff [] (some true) a = grind arith
allowed_iff [] (some false) a = grind arith
allowed_iff (v ∷ vs) none none = grind arith
allowed_iff (v ∷ vs) none (some c) = grind arith
allowed_iff (v ∷ vs) (some true) a = grind arith
allowed_iff (v ∷ vs) (some false) none = grind arith
allowed_iff (v ∷ vs) (some false) (some c) = grind arith

select-none {ℓ} :
    {A : Type ℓ} (p : A → Bool) (xs : List A) → select p xs ≡ [] → All (λ x. p x ≡ false) xs
select-none p [] h = tt
select-none p (x ∷ xs) h = elim (Bool-cases (p x)) [
  | inl y ↦ cc (rw y at h)
  | inr n ↦ (n, select-none p xs (rw n at h))
]

finish-passed :
    (policy_name model : String) (chain out : Chain) (ts : List Target)
    → finish policy_name chain model ts ≡ passed out
    → (out.name ≡ chain.name) × (out.targets ≡ ts) × (out.targets ≢ [])
unfolding finish
finish-passed policy_name model chain out [] h = cc h
finish-passed policy_name model chain out (t ∷ ts) h = ground arith

abbrev no_compliant : String → String → String → ErrNoCompliantProvider
no_compliant policy_name provider model = record {
  policy = policy_name;
  provider = provider;
  model = model;
}

finish-blocked :
    (policy_name model : String) (chain : Chain) (ts : List Target) (e : ErrNoCompliantProvider)
    → finish policy_name chain model ts ≡ blocked e
    → (ts ≡ []) × (e ≡ no_compliant policy_name (primary chain.targets) model)
unfolding finish
finish-blocked policy_name model chain [] e h = (refl, cc h)
finish-blocked policy_name model chain (t ∷ ts) e h = cc h

none-select {ℓ} :
    {A : Type ℓ} (p : A → Bool) (xs : List A) → All (λ x. p x ≡ false) xs → select p xs ≡ []
none-select p [] h = refl
none-select p (x ∷ xs) h = rw h.0 (none-select p xs h.1)

-- A provider is allowed exactly when it is not blocked and is on the allowlist, if there is one.
pub is_provider_allowed_iff :
    (p : Policy) (name : String)
    → (is_provider_allowed p name ≡ true) ↔ (
        (lookup name p.blocked_providers ≢ some true)
        × ((p.allowed_providers ≡ []) ⊎ (lookup name p.allowed_providers ≢ none)))
unfolding is_provider_allowed
is_provider_allowed_iff p name =
    allowed_iff p.allowed_providers (lookup name p.blocked_providers)
      (lookup name p.allowed_providers)

-- Under a known policy, a chain that passes keeps its name and exactly its allowed targets in their
-- order, at least one, each of which `CheckProvider` accepts too.
pub filter_chain-passed :
    (registry : Registry) (policy_name model : String) (chain out : Chain) (p : Policy)
    → lookup policy_name registry ≡ some p
    → filter_chain registry policy_name chain model ≡ passed out
    → (out.name ≡ chain.name)
      × (out.targets ≡ select (λ t. is_provider_allowed p t.provider) chain.targets)
      × (out.targets ≢ [])
      × All
          (λ t.
            (is_provider_allowed p t.provider ≡ true)
            × (check_provider registry policy_name t.provider model ≡ none))
          out.targets
unfolding filter_chain check_provider
filter_chain-passed registry policy_name model chain out p known h =
    let h' : finish policy_name chain model (filter_targets p chain.targets) ≡ passed out =
      rw (known, filter_chain) at h in
    let (name, targets, full) = finish-passed policy_name model chain out _ h' in
    (
      name,
      targets,
      full,
      All-of_mem _ out.targets (λ t m.
          let kept =
            (mem-select (λ u. is_provider_allowed p u.provider) chain.targets
              (subst (λ l. Memᴰ t l) targets m)).1 in
          (kept, rw (known, check_provider) (rw kept refl))),
    )

-- Under a known policy a chain is blocked, with whatever error, exactly when none of its targets is
-- allowed; the error then names the policy, the model and the provider of the chain's first target.
pub filter_chain-blocked_iff :
    (registry : Registry) (policy_name model : String) (chain : Chain) (p : Policy)
    → lookup policy_name registry ≡ some p
    → (((e : ErrNoCompliantProvider) × (filter_chain registry policy_name chain model ≡ blocked e))
        ↔ All (λ t. is_provider_allowed p t.provider ≡ false) chain.targets)
      × ((e : ErrNoCompliantProvider)
          → filter_chain registry policy_name chain model ≡ blocked e
          → (e.policy ≡ policy_name) × (e.model ≡ model) × (e.provider ≡ primary chain.targets))
unfolding filter_chain
filter_chain-blocked_iff registry policy_name model chain p known =
    let is_ok = λ (t : Target). is_provider_allowed p t.provider in
    let ts = filter_targets p chain.targets in
    rw (known, filter_chain)
      (
        (
          (λ (e, h).
              select-none is_ok chain.targets (finish-blocked policy_name model chain ts e h).0),
          (λ a. (
            no_compliant policy_name (primary chain.targets) model,
            ap (finish policy_name chain model) (none-select is_ok chain.targets a),
          )),
        ),
        (λ e h.
            let same = (finish-blocked policy_name model chain ts e h).1 in
            (ap (λ x. x.policy) same, ap (λ x. x.model) same, ap (λ x. x.provider) same)),
      )
