-- ===== src/Access/Laws.antt =====
-- internal/auth/rbac and internal/mcp/policy.go: who is let through.
use llm_router.Common.{
  ℕ, suc, String, ◌≡◌, refl, subst, ◌≢◌, ◌↔◌, ◌⊎◌, inl, inr, Bool, true, false, not, ◌&&◌, ◌||◌,
  Option, none, some, List, [], ◌∷◌, Memᴰ, arith, str_eq, ltb, ◌==◌, if◌then◌else◌, Bool-cases,
  str_eq_refl, str_eq-eq, length, any-mem, any_of_mem,
}
use llm_router.Access.{
  UserRole, role_has_permission, out_of_scope, has_permission, handled, require_permission,
}
use llm_router.Access.Tools.{ToolPolicy, contains, can_access_server, can_call_tool}

contains_iff : (xs : List String) (x : String) → (contains xs x ≡ true) ↔ Memᴰ x xs
contains_iff xs x = (
  (λ h.
      let (a, m, e) = any-mem (λ y. str_eq y x) xs h in subst (λ y. Memᴰ y xs) (str_eq-eq a x e) m),
  (λ m. any_of_mem (λ y. str_eq y x) m (str_eq_refl x)),
)

-- A role without a scope is good everywhere, and one with a scope in that scope.
abbrev pub InScope : String → String → Type 0
InScope own wanted = (own ≢ "") → own ≡ wanted

scope_iff : (own wanted : String) → (out_of_scope own wanted ≡ false) ↔ InScope own wanted
unfolding out_of_scope
scope_iff own wanted = elim (Bool-cases (str_eq own "")) [
  | inl t ↦ rw t ((λ h n. absurd (n (str_eq-eq own "" t))), (λ h. refl))
  | inr f ↦ elim (Bool-cases (str_eq own wanted)) [
    | inl t ↦ rw (f, t) ((λ h n. str_eq-eq own wanted t), (λ h. refl))
    | inr u ↦
        rw (f, u)
          (
            (λ h. cc h),
            (λ h.
                let same = h (λ e. cc (str_eq_refl "", subst (λ x. str_eq x "" ≡ false) e f)) in
                cc (str_eq_refl wanted, subst (λ x. str_eq x wanted ≡ false) same u)),
          )
  ]
]

-- A role of the user that grants the permission in the scope.
pub record Grant (roles : List UserRole) (p org team : String) : Type 0 where
  pub role : UserRole
  pub assigned : Memᴰ role roles
  pub in_org : InScope role.org_id org
  pub in_team : InScope role.team_id team
  pub granted : (perm : String) × Memᴰ perm role.permissions × ((perm ≡ "*") ⊎ (perm ≡ p))

abbrev Granted : UserRole → String → Type 0
Granted r p = (perm : String) × Memᴰ perm r.permissions × ((perm ≡ "*") ⊎ (perm ≡ p))

or_cases : (a b : Bool) → (a || b) ≡ true → (a ≡ true) ⊎ (b ≡ true)
or_cases true b h = inl refl
or_cases false b h = inr h

or_right : (a b : Bool) → b ≡ true → (a || b) ≡ true
or_right true b h = refl
or_right false b h = h

role_iff : (r : UserRole) (p : String) → (role_has_permission r p ≡ true) ↔ Granted r p
unfolding role_has_permission
role_iff r p = (
  λ h.
      let (a, m, e) = any-mem (λ perm. str_eq perm "*" || str_eq perm p) r.permissions h in
      (
        a,
        m,
        elim (or_cases (str_eq a "*") (str_eq a p) e) [
          | inl t ↦ inl (str_eq-eq a "*" t)
          | inr t ↦ inr (str_eq-eq a p t)
        ],
      ),
  λ g.
      let (a, m, e) = g in
      any_of_mem (λ perm. str_eq perm "*" || str_eq perm p) m
        (elim e [
          | inl t ↦ rw (subst (λ x. str_eq a x ≡ true) t (str_eq_refl a)) refl
          | inr t ↦ or_right _ _ (subst (λ x. str_eq a x ≡ true) t (str_eq_refl a))
        ]),
)

Grant-tail :
    {r : UserRole} {rs : List UserRole} {p org team : String}
    → Grant rs p org team
    → Grant (r ∷ rs) p org team
Grant-tail g = record {
  role = g.role;
  assigned = Memᴰ.tail g.assigned;
  in_org = g.in_org;
  in_team = g.in_team;
  granted = g.granted;
}

has_permission-Grant :
    (roles : List UserRole) (p org team : String)
    → has_permission roles p org team ≡ true
    → Grant roles p org team
unfolding has_permission
has_permission-Grant [] p org team h = cc h
has_permission-Grant (r ∷ rs) p org team h = elim (Bool-cases (out_of_scope r.org_id org)) [
  | inl a ↦ Grant-tail (has_permission-Grant rs p org team (rw a at h))
  | inr a ↦ elim (Bool-cases (out_of_scope r.team_id team)) [
    | inl b ↦ Grant-tail (has_permission-Grant rs p org team (rw (a, b) at h))
    | inr b ↦ elim (Bool-cases (role_has_permission r p)) [
      | inl c ↦ record {
        role = r;
        assigned = Memᴰ.head refl;
        in_org = (scope_iff r.org_id org).0 a;
        in_team = (scope_iff r.team_id team).0 b;
        granted = (role_iff r p).0 c;
      }
      | inr c ↦ Grant-tail (has_permission-Grant rs p org team (rw (a, b, c) at h))
    ]
  ]
]

has_permission_of_mem :
    (roles : List UserRole) (p org team : String) (r : UserRole)
    → Memᴰ r roles
    → out_of_scope r.org_id org ≡ false
    → out_of_scope r.team_id team ≡ false
    → role_has_permission r p ≡ true
    → has_permission roles p org team ≡ true
unfolding has_permission
has_permission_of_mem [] p org team r m a b c = elim m [ ]
has_permission_of_mem (q ∷ rs) p org team r (Memᴰ.head e) a b c =
    let a' = subst (λ x. out_of_scope x.org_id org ≡ false) e a in
    let b' = subst (λ x. out_of_scope x.team_id team ≡ false) e b in
    let c' = subst (λ x. role_has_permission x p ≡ true) e c in rw (a', b', c', has_permission) refl
has_permission_of_mem (q ∷ rs) p org team r (Memᴰ.tail m) a b c =
    rw (has_permission_of_mem rs p org team r m a b c, has_permission) (ground arith)

-- A request gets through exactly when its user has a role that grants the permission, by name or
-- by the wildcard, and that is good in the organisation and the team of the request.
pub require_permission_iff :
    {R : Type 0} (p org team : String) (user : Option (List UserRole)) (next : R)
    → (require_permission p user org team next ≡ handled next)
      ↔ ((roles : List UserRole) × (user ≡ some roles) × Grant roles p org team)
unfolding require_permission
require_permission_iff p org team none next = ((λ h. cc h), (λ g. cc g.1))
require_permission_iff p org team (some roles) next = (
  λ h. elim (Bool-cases (has_permission roles p org team)) [
    | inl t ↦ (roles, refl, has_permission-Grant roles p org team t)
    | inr t ↦ cc (rw t at h)
  ],
  λ (roles', same, g).
      let e : roles' ≡ roles = cc same in
      let m = subst (Memᴰ g.role) e g.assigned in
      rw
        (has_permission_of_mem roles p org team g.role m ((scope_iff g.role.org_id org).1 g.in_org)
          ((scope_iff g.role.team_id team).1 g.in_team) ((role_iff g.role p).1 g.granted))
        refl,
)

suc_empty : (n : ℕ) → (suc n == 0) ≡ false
suc_empty n = ground arith

suc_full : (n : ℕ) → ltb 0 (suc n) ≡ true
suc_full n = ground arith

open_list_iff :
    (xs : List String) (x : String)
    → ((if length xs == 0 then true else contains xs x) ≡ true) ↔ ((xs ≡ []) ⊎ Memᴰ x xs)
open_list_iff [] x = ((λ h. inl refl), (λ h. refl))
open_list_iff (y ∷ ys) x = rw (suc_empty (length ys)) (
  (λ h. inr ((contains_iff (y ∷ ys) x).0 h)),
  (λ h. elim h [ inl e ↦ cc e | inr m ↦ (contains_iff (y ∷ ys) x).1 m ]),
)

missing_iff :
    (xs : List String) (x : String)
    → ((ltb 0 (length xs) && not (contains xs x)) ≡ false) ↔ ((xs ≡ []) ⊎ Memᴰ x xs)
missing_iff [] x = ((λ h. inl refl), (λ h. refl))
missing_iff (y ∷ ys) x = elim (Bool-cases (contains (y ∷ ys) x)) [
  | inl t ↦ rw (suc_full (length ys), t) ((λ h. inr ((contains_iff (y ∷ ys) x).0 t)), (λ h. refl))
  | inr t ↦
      rw (suc_full (length ys), t)
        (
          (λ h. cc h),
          (λ h. elim h [ inl e ↦ cc e | inr m ↦ cc ((contains_iff (y ∷ ys) x).1 m, t) ]),
        )
]

-- A tool may be called exactly when its server is allowed, it is not blocked, and it is allowed, an
-- empty list of allowed servers or tools allowing all of them.
pub can_call_tool_iff :
    (p : ToolPolicy) (server tool : String)
    → (can_call_tool (some p) server tool ≡ true) ↔ (
        ((p.allowed_servers ≡ []) ⊎ Memᴰ server p.allowed_servers)
        × (¬ Memᴰ tool p.blocked_tools)
        × ((p.allowed_tools ≡ []) ⊎ Memᴰ tool p.allowed_tools))
unfolding can_call_tool can_access_server
can_call_tool_iff p server tool =
    let servers = open_list_iff p.allowed_servers server in
    let tools = missing_iff p.allowed_tools tool in
    let blocked = contains_iff p.blocked_tools tool in
    elim (Bool-cases (can_access_server (some p) server)) [
      | inr n ↦ rw (n, can_call_tool) ((λ h. cc h), (λ h. cc (n, servers.1 h.0)))
      | inl y ↦ elim (Bool-cases (contains p.blocked_tools tool)) [
        | inl t ↦ rw (y, t, can_call_tool) ((λ h. cc h), (λ h. absurd (h.1 (blocked.0 t))))
        | inr t ↦
            rw (y, t, can_call_tool)
              (elim (Bool-cases
                (ltb 0 (length p.allowed_tools) && not (contains p.allowed_tools tool))) [
                  | inl u ↦ rw u ((λ h. cc h), (λ h. cc (u, tools.1 h.2)))
                  | inr u ↦
                      rw u
                        ((λ h. (servers.0 y, (λ m. cc (t, blocked.1 m)), tools.0 u)), (λ h. refl))
                ])
      ]
    ]
