-- ===== src/Server/Permissions/Active.antt =====
-- From approvals to roles: which roles are in force, through UpdateRoleInfos and GetCurrentUserRole.
use tacacs_plus_go.Base.{
  All, All-Any, All-imp, Any, Any-imp, Any-self, Bool-cases, IsSort, List, List-cases, Option-cases,
  [], ap, arith, bytes_eq, bytes_eq_iff, codes, exists, exists_iff, get, get-map_values, inl, inr,
  map_values, refl, some, subst, sym, true, ℕ, ◌↔◌, ◌∷◌, ◌≡◌, ◌≢◌, ◌⊎◌,
}
use tacacs_plus_go.Server.Permissions.{
  ByLevel, PermissionsInfo, TacacsApproval, TacacsPermissions, TacacsUser, UserInfos, active_roles,
  add_approvals, covers_now, get_current_user_role_at, lookup, merge_permissions, merge_range_times,
  range_of, update_role_infos,
}
use tacacs_plus_go.Server.Permissions.Merge.{Covers, Earlier, Inside, merge_range_times-IsMerge}
use tacacs_plus_go.Server.Permissions.Grants.{
  All-lookup, IsFor, add_approvals-Stores, add_approvals-stores, lookup-cons,
}

covers_now-Inside : (now : ℕ) (r : TacacsPermissions) → (covers_now now r ≡ true) ↔ Inside now r
unfolding covers_now
covers_now-Inside now r = ground arith

exists-Inside :
    (now : ℕ) (ranges : List TacacsPermissions)
    → (exists (covers_now now) ranges ≡ true) ↔ Any (Inside now) ranges
exists-Inside now ranges = (
  (λ e.
      Any-imp _ _ ranges (λ r. (covers_now-Inside now r).0)
        ((exists_iff (covers_now now) ranges).0 e)),
  (λ h.
      (exists_iff (covers_now now) ranges).1
        (Any-imp _ _ ranges (λ r. (covers_now-Inside now r).1) h)),
)

-- The role is among those of a user's map that are in force.
abbrev pub IsActive : ℕ → List ℕ → ByLevel → Type 0
IsActive now level m = Any (λ role. role ≡ level) (active_roles now m)

active_roles_cases :
    (now : ℕ) (level : List ℕ) (ranges : List TacacsPermissions) (m : ByLevel)
    → (Any (Inside now) ranges
        × (active_roles now ((level, ranges) ∷ m) ≡ level ∷ active_roles now m))
      ⊎ (¬ Any (Inside now) ranges × (active_roles now ((level, ranges) ∷ m) ≡ active_roles now m))
unfolding active_roles
active_roles_cases now level ranges m = elim (Bool-cases (exists (covers_now now) ranges)) [
  | inl e ↦ inl ((exists-Inside now ranges).0 e, ground (arith, e))
  | inr e ↦ inr ((λ h. cc (e, (exists-Inside now ranges).1 h)), ground (arith, e))
]

module _ (sort_times : List TacacsPermissions → List TacacsPermissions)
    (sorted : IsSort Earlier sort_times) where
  merge_permissions-IsActive :
      (now : ℕ) (level : List ℕ) (m : ByLevel)
      → Any (Inside now) (lookup level m)
      → IsActive now level (merge_permissions sort_times m)
  unfolding lookup merge_permissions map_values get
  merge_permissions-IsActive now level [] h = elim h [ ]
  merge_permissions-IsActive now level ((j, ranges) ∷ m) h =
      let merged = merge_range_times sort_times ranges in
      let is_merge = merge_range_times-IsMerge sort_times sorted ranges in
      let here = subst (Any (Inside now)) (lookup-cons level j ranges m) h in
      elim (active_roles_cases now j merged (merge_permissions sort_times m)) [
        | inl (_, e) ↦
            subst (Any (λ role. role ≡ level)) (sym e) (elim (Bool-cases (bytes_eq j level)) [
              | inl same ↦ inl ((bytes_eq_iff j level).0 same)
              | inr other ↦ inr (merge_permissions-IsActive now level m (rw other at here))
            ])
        | inr (out, e) ↦
            subst (Any (λ role. role ≡ level)) (sym e) (elim (Bool-cases (bytes_eq j level)) [
              | inl same ↦ absurd (out (is_merge.inside now (rw same at here)))
              | inr other ↦ merge_permissions-IsActive now level m (rw other at here)
            ])
      ]

  -- A role in force comes from an approval of that role which covers the instant.
  active_roles-covered :
      (G : List ℕ → TacacsPermissions → Type 0) (now : ℕ) (level : List ℕ) (m : ByLevel)
      → All (λ f. All (G (f.0)) f.1) m
      → IsActive now level (merge_permissions sort_times m)
      → (r : TacacsPermissions) × G level r × Covers now r
  unfolding merge_permissions map_values active_roles
  active_roles-covered G now level [] g h = elim h [ ]
  active_roles-covered G now level ((j, ranges) ∷ m) g h =
      let merged = merge_range_times sort_times ranges in
      let is_merge = merge_range_times-IsMerge sort_times sorted ranges in
      elim (active_roles_cases now j merged (merge_permissions sort_times m)) [
        | inl (inside, e) ↦ elim (subst (Any (λ role. role ≡ level)) e h) [
          | inl same ↦
              let covers =
                Any-imp _ _ merged
                  (λ r (i : Inside now r). (omega (arith, i.0), omega (arith, i.1))) inside in
              All-Any (G level) (Covers now) ranges (subst (λ l. All (G l) ranges) same g.0)
                ((is_merge.covers now).0 covers)
          | inr later ↦ active_roles-covered G now level m g.1 later
        ]
        | inr (out, e) ↦
            active_roles-covered G now level m g.1 (subst (Any (λ role. role ≡ level)) e h)
      ]

  lookup-update_role_infos :
      (approvals : List TacacsApproval) (users : UserInfos) (former : PermissionsInfo)
      (user : List ℕ)
      → lookup user (update_role_infos sort_times (some approvals) users former)
        ≡ merge_permissions sort_times (lookup user (add_approvals users approvals []))
  unfolding lookup update_role_infos merge_permissions map_values
  lookup-update_role_infos approvals users former user =
      let temp = add_approvals users approvals [] in
      ground (arith, get-map_values (merge_permissions sort_times) user temp)

  -- An approval of a user that the snapshot holds puts its role in force at each instant strictly
  -- between its start and its end, whatever other approvals there are.
  pub update_role_infos-grants :
      (approvals : List TacacsApproval) (users : UserInfos) (former : PermissionsInfo)
      (user level : List ℕ) (info : TacacsUser) (now : ℕ)
      → get user users ≡ some info
      → Any (λ a. IsFor user level a × Inside now (range_of a)) approvals
      → IsActive now level
          (lookup user (update_role_infos sort_times (some approvals) users former))
  update_role_infos-grants approvals users former user level info now known h =
      subst (IsActive now level) (sym (lookup-update_role_infos approvals users former user)) (
        merge_permissions-IsActive now level (lookup user (add_approvals users approvals []))
          (add_approvals-stores users user level (Inside now) info approvals [] known (inr h)))

  -- A role is in force only at an instant that an approval of the role for the user covers, the
  -- ends of the approval included.
  pub update_role_infos-covered :
      (approvals : List TacacsApproval) (users : UserInfos) (former : PermissionsInfo)
      (user level : List ℕ) (now : ℕ)
      → IsActive now level
          (lookup user (update_role_infos sort_times (some approvals) users former))
      → Any (λ a. IsFor user level a × Covers now (range_of a)) approvals
  update_role_infos-covered approvals users former user level now h =
      let G = λ (u l : List ℕ) (r : TacacsPermissions).
        Any (λ a. IsFor u l a × (range_of a ≡ r)) approvals in
      let sources =
        All-imp _ (λ a. G a.user a.approval_permissions (range_of a)) approvals
          (λ a same.
            Any-imp _ _ approvals
              (λ b e. ((ap (λ c. c.user) e, ap (λ c. c.approval_permissions) e), ap range_of e))
              same)
          (Any-self approvals) in
      let stored = add_approvals-Stores G users approvals [] tt sources in
      let here =
        All-lookup (λ u f. All (G u (f.0)) f.1) user (add_approvals users approvals []) stored in
      let found =
        active_roles-covered (G user) now level (lookup user (add_approvals users approvals []))
          here
          (subst (IsActive now level) (lookup-update_role_infos approvals users former user) h) in
      Any-imp _ _ approvals (λ a e. (e.0, subst (Covers now) (sym e.1) found.2)) found.1

  null_of_none :
      (sort_strings : List (List ℕ) → List (List ℕ)) (perms : PermissionsInfo) (user : List ℕ)
      (now : ℕ)
      → active_roles now (lookup user perms) ≡ []
      → get_current_user_role_at sort_strings perms user now ≡ codes "null"
  unfolding lookup get_current_user_role_at
  null_of_none sort_strings perms user now e = elim (Option-cases (get user perms)) [
    | inl n ↦ ground (arith, n)
    | inr (m, s) ↦ ground (arith, s, e)
  ]

  -- A user for whom no approval covers the instant has no role: the text that is written to the
  -- database is "null".
  pub get_current_user_role_at-null :
      (sort_strings : List (List ℕ) → List (List ℕ)) (approvals : List TacacsApproval)
      (users : UserInfos) (former : PermissionsInfo) (user : List ℕ) (now : ℕ)
      → All (λ a. (a.user ≢ user) ⊎ ¬ Covers now (range_of a)) approvals
      → get_current_user_role_at sort_strings
          (update_role_infos sort_times (some approvals) users former)
          user
          now
        ≡ codes "null"
  get_current_user_role_at-null sort_strings approvals users former user now none_covers =
      let perms = update_role_infos sort_times (some approvals) users former in
      null_of_none sort_strings perms user now
        (elim (List-cases (active_roles now (lookup user perms))) [
          | inl e ↦ e
          | inr (level, rest, e) ↦
              let active = subst (Any (λ role. role ≡ level)) (sym e) (inl refl) in
              let found =
                All-Any _ _ approvals none_covers
                  (update_role_infos-covered approvals users former user level now active) in
              absurd (elim found.1 [ inl other ↦ other found.2.0.0 | inr out ↦ out found.2.1 ])
        ])
