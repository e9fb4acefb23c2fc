-- ===== src/Server/Permissions/Grants.antt =====
-- What UpdateRoleInfos stores of the approvals, before the ranges are merged.
use tacacs_plus_go.Base.{
  All, All-get, All-put, All-snoc, Any, Any-append, Any-prepend, List, Option-cases, [], arith,
  bytes_eq, bytes_eq_iff, false, get, get-put, if◌then◌else◌, inl, inr, none, put, some, subst, sym,
  true, ℕ, ◌&&◌, ◌++◌, ◌∷◌, ◌≡◌, ◌⊎◌,
}
use tacacs_plus_go.Server.Permissions.{
  PermissionsInfo, TacacsApproval, TacacsPermissions, TacacsUser, UserInfos, add_approval,
  add_approvals, lookup, range_of,
}

-- The approval is for the user and the role.
abbrev pub IsFor : List ℕ → List ℕ → TacacsApproval → Type 0
IsFor user level a = (a.user ≡ user) × (a.approval_permissions ≡ level)

-- A property of a user, a role and a range holds of all that a map stores.
abbrev pub Stores : (List ℕ → List ℕ → TacacsPermissions → Type 0) → PermissionsInfo → Type 0
Stores G = All (λ e. All (λ f. All (G (e.0) (f.0)) f.1) e.1)

lookup-put {ℓ} :
    {V : Type ℓ} (k j : List ℕ) (v : List V) (m : List (List ℕ × List V))
    → lookup j (put k v m) ≡ (if bytes_eq k j then v else lookup j m)
unfolding lookup
lookup-put k j v m = ground (arith, get-put k j v m)

pub lookup-cons {ℓ} :
    {V : Type ℓ} (k j : List ℕ) (v : List V) (m : List (List ℕ × List V))
    → lookup k ((j, v) ∷ m) ≡ (if bytes_eq j k then v else lookup k m)
unfolding lookup get
lookup-cons k j v m = ground arith

pub All-lookup {ℓ} :
    {V : Type ℓ} (Q : List ℕ → V → Type 0) (k : List ℕ) (m : List (List ℕ × List V))
    → All (λ e. All (Q (e.0)) e.1) m
    → All (Q k) (lookup k m)
unfolding lookup
All-lookup Q k m a = elim (Option-cases (get k m)) [
  | inl e ↦ subst (λ o. All (Q k) (elim o [ none ↦ [] | some v ↦ v ])) (sym e) tt
  | inr (v, e) ↦
      subst (λ o. All (Q k) (elim o [ none ↦ [] | some v ↦ v ])) (sym e)
        (All-get (λ f. All (Q (f.0)) f.1) k v m a e)
]

add_approval-Stores :
    (G : List ℕ → List ℕ → TacacsPermissions → Type 0) (users : UserInfos) (a : TacacsApproval)
    (temp : PermissionsInfo)
    → Stores G temp
    → G a.user a.approval_permissions (range_of a)
    → Stores G (add_approval users a temp)
unfolding add_approval
add_approval-Stores G users a temp s g =
    elim (get a.user users)
      as (λ o. Stores G (elim o [
        | none ↦ temp
        | some _ ↦
            put a.user
              (put a.approval_permissions
                (lookup a.approval_permissions (lookup a.user temp) ++ (range_of a ∷ []))
                (lookup a.user temp))
              temp
      ])) [
        | none ↦ s
        | some _ ↦
            let former = All-lookup (λ u f. All (G u (f.0)) f.1) a.user temp s in
            All-put (λ e. All (λ f. All (G (e.0) (f.0)) f.1) e.1) a.user _ temp s
              (All-put (λ f. All (G a.user (f.0)) f.1) a.approval_permissions _ (lookup a.user temp)
                former
                (All-snoc (G a.user a.approval_permissions) _ (range_of a)
                  (All-lookup (G a.user) a.approval_permissions (lookup a.user temp) former) g))
      ]

pub add_approvals-Stores :
    (G : List ℕ → List ℕ → TacacsPermissions → Type 0) (users : UserInfos)
    (approvals : List TacacsApproval) (temp : PermissionsInfo)
    → Stores G temp
    → All (λ a. G a.user a.approval_permissions (range_of a)) approvals
    → Stores G (add_approvals users approvals temp)
unfolding add_approvals
add_approvals-Stores G users [] temp s g = s
add_approvals-Stores G users (a ∷ approvals) temp s g =
    add_approvals-Stores G users approvals (add_approval users a temp)
      (add_approval-Stores G users a temp s g.0) g.1

module _ (users : UserInfos) (user level : List ℕ) (P : TacacsPermissions → Type 0) where
  -- The ranges that are stored for the user and the role.
  abbrev stored : PermissionsInfo → List TacacsPermissions
  stored temp = lookup level (lookup user temp)

  stored-add_approval :
      (info : TacacsUser) (a : TacacsApproval) (temp : PermissionsInfo)
      → get user users ≡ some info
      → stored (add_approval users a temp) ≡ (
          if bytes_eq a.user user && bytes_eq a.approval_permissions level
          then stored temp ++ (range_of a ∷ [])
          else stored temp)
  unfolding add_approval
  stored-add_approval info a temp known = grind (
    arith,
    known,
    lookup-put,
    bytes_eq_iff a.user user,
    bytes_eq_iff a.approval_permissions level,
  )

  add_approval-keeps :
      (info : TacacsUser) (a : TacacsApproval) (temp : PermissionsInfo)
      → get user users ≡ some info
      → Any P (stored temp)
      → Any P (stored (add_approval users a temp))
  add_approval-keeps info a temp known h =
      subst (Any P) (sym (stored-add_approval info a temp known))
        (elim (bytes_eq a.user user && bytes_eq a.approval_permissions level)
          as (λ b. Any P (if b then stored temp ++ (range_of a ∷ []) else stored temp)) [
            | true ↦ Any-append P (stored temp) (range_of a ∷ []) h
            | false ↦ h
          ])

  add_approval-adds :
      (info : TacacsUser) (a : TacacsApproval) (temp : PermissionsInfo)
      → get user users ≡ some info
      → IsFor user level a
      → P (range_of a)
      → Any P (stored (add_approval users a temp))
  add_approval-adds info a temp known for p =
      subst (Any P) (sym (stored-add_approval info a temp known)) (
        rw ((bytes_eq_iff a.user user).1 for.0, (bytes_eq_iff a.approval_permissions level).1 for.1)
          (Any-prepend P (stored temp) (range_of a ∷ []) (inl p)))

  -- What an approval of the list brings is stored, and so is what was stored before.
  pub add_approvals-stores :
      (info : TacacsUser) (approvals : List TacacsApproval) (temp : PermissionsInfo)
      → get user users ≡ some info
      → Any P (stored temp) ⊎ Any (λ a. IsFor user level a × P (range_of a)) approvals
      → Any P (stored (add_approvals users approvals temp))
  unfolding add_approvals
  add_approvals-stores info [] temp known h = elim h [ inl s ↦ s | inr n ↦ elim n [ ] ]
  add_approvals-stores info (a ∷ approvals) temp known h =
      add_approvals-stores info approvals (add_approval users a temp) known (elim h [
        | inl s ↦ inl (add_approval-keeps info a temp known s)
        | inr (inl (for, p)) ↦ inl (add_approval-adds info a temp known for p)
        | inr (inr n) ↦ inr n
      ])
