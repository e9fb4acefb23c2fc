-- ===== src/Server/Permissions.antt =====
-- pkg/server/permissionSystem/permissionSystem.go: the roles that approvals give, and when.
-- An instant is its number of nanoseconds. A Go map is an association list, in the order in which
-- the loops over it happen to visit it.
pub mod Merge
pub mod Grants
pub mod Active
pub mod Expiry
use tacacs_plus_go.Base.{
  Bool, List, Option, [], bytes_eq, codes, exists, false, get, if◌then◌else◌, join, ltb, map_values,
  none, put, some, true, ℕ, ◌&&◌, ◌++◌, ◌∷◌,
}

pub record TacacsPermissions : Type 0 where
  pub start_time : ℕ
  pub end_time : ℕ
  pub permissions : List ℕ

-- The columns of db.TacacsUser that the permission system reads.
pub record TacacsUser : Type 0 where
  pub user : List ℕ
  pub role : List ℕ
  pub password_update_time : List ℕ
  pub status : List ℕ

-- The columns of db.TacacsApproval that the permission system reads.
pub record TacacsApproval : Type 0 where
  pub user : List ℕ
  pub approval_permissions : List ℕ
  pub start_time : ℕ
  pub end_time : ℕ

abbrev pub ByLevel : Type 0
ByLevel = List (List ℕ × List TacacsPermissions)

abbrev pub PermissionsInfo : Type 0
PermissionsInfo = List (List ℕ × ByLevel)

abbrev pub UserInfos : Type 0
UserInfos = List (List ℕ × TacacsUser)

-- A missing key of a map of maps or of slices reads as the empty one.
unfoldable pub lookup {ℓ} : {V : Type ℓ} → List ℕ → List (List ℕ × List V) → List V
lookup k m = elim (get k m) [ none ↦ [] | some v ↦ v ]

-- for _, u := range users { newMap[u.User] = u }
unfoldable pub by_name : List TacacsUser → UserInfos → UserInfos
by_name [] m = m
by_name (u ∷ users) m = by_name users (put u.user u m)

-- A failed read keeps the former snapshot.
unfoldable pub update_user_infos : Option (List TacacsUser) → UserInfos → UserInfos
update_user_infos none infos = infos
update_user_infos (some users) infos = by_name users []

unfoldable pub range_of : TacacsApproval → TacacsPermissions
range_of a = record {
  start_time = a.start_time;
  end_time = a.end_time;
  permissions = a.approval_permissions;
}

unfoldable pub add_approval : UserInfos → TacacsApproval → PermissionsInfo → PermissionsInfo
add_approval users a temp = elim (get a.user users) [
  | none ↦ temp
  | some _ ↦
      let by_level = lookup a.user temp in
      let ranges = lookup a.approval_permissions by_level ++ (range_of a ∷ []) in
      put a.user (put a.approval_permissions ranges by_level) temp
]

unfoldable pub add_approvals : UserInfos → List TacacsApproval → PermissionsInfo → PermissionsInfo
add_approvals users [] temp = temp
add_approvals users (a ∷ approvals) temp = add_approvals users approvals (add_approval users a temp)

-- current, after a range that starts no later than it ends
unfoldable pub extend : TacacsPermissions → TacacsPermissions → TacacsPermissions
extend current r = record current {
  end_time = if ltb current.end_time r.end_time then r.end_time else current.end_time;
}

unfoldable pub merge_from : TacacsPermissions → List TacacsPermissions → List TacacsPermissions
merge_from current [] = current ∷ []
merge_from current (r ∷ times) = elim (ltb current.end_time r.start_time) [
  | true ↦ current ∷ merge_from r times
  | false ↦ merge_from (extend current r) times
]

unfoldable pub merge_sorted : List TacacsPermissions → List TacacsPermissions
merge_sorted [] = []
merge_sorted (r ∷ times) = merge_from r times

-- now.After(r.StartTime) && now.Before(r.EndTime)
unfoldable pub covers_now : ℕ → TacacsPermissions → Bool
covers_now now r = ltb r.start_time now && ltb now r.end_time

unfoldable pub active_roles : ℕ → ByLevel → List (List ℕ)
active_roles now [] = []
active_roles now ((level, ranges) ∷ user_perms) =
    let rest = active_roles now user_perms in
    if exists (covers_now now) ranges then level ∷ rest else rest

-- sort.Slice by StartTime
module _ (sort_times : List TacacsPermissions → List TacacsPermissions) where
  unfoldable pub merge_range_times : List TacacsPermissions → List TacacsPermissions
  merge_range_times [] = []
  merge_range_times (r ∷ times) = merge_sorted (sort_times (r ∷ times))

  unfoldable pub merge_permissions : ByLevel → ByLevel
  merge_permissions permissions = map_values merge_range_times permissions

  -- A failed read keeps the former snapshot.
  unfoldable pub update_role_infos :
      Option (List TacacsApproval) → UserInfos → PermissionsInfo → PermissionsInfo
  update_role_infos none users info = info
  update_role_infos (some approvals) users info =
      map_values merge_permissions (add_approvals users approvals [])

-- sort.Strings
module _ (sort_strings : List (List ℕ) → List (List ℕ)) where
  unfoldable pub get_current_user_role_at : PermissionsInfo → List ℕ → ℕ → List ℕ
  get_current_user_role_at perms user now = elim (get user perms) [
    | none ↦ codes "null"
    | some user_perms ↦ elim (active_roles now user_perms) [
      | [] ↦ codes "null"
      | role ∷ others ↦ join (sort_strings (role ∷ others))
    ]
  ]

  -- The users whose role in the database is not the one they should have, with the one they should.
  unfoldable pub role_updates : UserInfos → PermissionsInfo → ℕ → List (List ℕ × List ℕ)
  role_updates [] perms now = []
  role_updates ((user, info) ∷ users) perms now =
      let rest = role_updates users perms now in
      let expect = get_current_user_role_at perms user now in
      if bytes_eq info.role expect then rest else (user, expect) ∷ rest
