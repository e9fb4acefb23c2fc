-- ===== src/Server/Quota.antt =====
-- pkg/server/http/resource_limits.go: how many approval requests a user may create.
pub mod Window
pub mod Kept
pub mod Sliding
pub mod Tests
use tacacs_plus_go.Base.{
  Bool, List, [], false, get, if◌then◌else◌, leb, length, ltb, none, not, put, some, true, ℕ, ◌&&◌,
  ◌*◌, ◌++◌, ◌+◌, ◌^◌, ◌∷◌,
}

-- time.Minute, in nanoseconds
abbrev pub minute : ℕ
minute = 60 * 10 ^ 9

abbrev pub approval_create_window : ℕ
approval_create_window = 10 * minute

abbrev pub approval_create_max : ℕ
approval_create_max = 20

abbrev pub max_approval_quota_users : ℕ
max_approval_quota_users = 100000

abbrev pub Quota : Type 0
Quota = List (List ℕ × List ℕ)

-- The times after the cutoff, which lies a window before now.
unfoldable pub fresh : ℕ → List ℕ → List ℕ
fresh now [] = []
fresh now (created ∷ entries) =
    let rest = fresh now entries in
    if ltb now (created + approval_create_window) then created ∷ rest else rest

-- The entries of a user; a missing key reads as none.
unfoldable pub entries_of : List ℕ → Quota → List ℕ
entries_of user quota = elim (get user quota) [ none ↦ [] | some entries ↦ entries ]

unfoldable pub is_known : List ℕ → Quota → Bool
is_known user quota = elim (get user quota) [ none ↦ false | some _ ↦ true ]

-- for key, old := range approvalQuota.entries { ... }
unfoldable pub drop_old : ℕ → Quota → Quota
drop_old now [] = []
drop_old now ((user, old) ∷ quota) =
    let rest = drop_old now quota in
    elim (fresh now old) [ [] ↦ rest | created ∷ times ↦ (user, created ∷ times) ∷ rest ]

-- The request of a user whose name is trimmed and not empty.
unfoldable pub allow_user : List ℕ → ℕ → Quota → Bool × Quota
allow_user user now quota =
    let kept = fresh now (entries_of user quota) in
    if leb approval_create_max (length kept)
    then (false, put user kept quota)
    else if not (is_known user quota) && leb max_approval_quota_users (length quota)
    then (let swept = drop_old now quota in
        if leb max_approval_quota_users (length swept)
        then (false, swept)
        else (true, put user (kept ++ (now ∷ [])) swept))
    else (true, put user (kept ++ (now ∷ [])) quota)

-- strings.TrimSpace is the parameter.
unfoldable pub allow_approval_create : (List ℕ → List ℕ) → List ℕ → ℕ → Quota → Bool × Quota
allow_approval_create trim_space name now quota =
    let user = trim_space name in
    elim user [ [] ↦ (false, quota) | c ∷ cs ↦ allow_user (c ∷ cs) now quota ]
