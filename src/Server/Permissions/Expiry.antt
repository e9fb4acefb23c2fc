-- ===== src/Server/Permissions/Expiry.antt =====
-- pkg/server/permissionSystem/permissionSystem.go: the warnings that a role is about to expire.
pub mod Tiers
pub mod Spaced
pub mod Tests
use tacacs_plus_go.Base.{
  Bool, List, Option, [], codes, false, get, if◌then◌else◌, leb, ltb, none, put, some, true, ℕ, ◌*◌,
  ◌++◌, ◌-◌, ◌^◌, ◌∷◌,
}
use tacacs_plus_go.Server.Permissions.{ByLevel, PermissionsInfo, TacacsPermissions, covers_now}

-- "12h", "1d" and "3d"
pub data Tier : Type 0 where
  tier_12h : Tier
  tier_1d : Tier
  tier_3d : Tier

pub record RoleExpiryAlert : Type 0 where
  pub user : List ℕ
  pub level : List ℕ
  pub expire_at : ℕ
  pub tier : Tier

-- time.Hour, in nanoseconds
abbrev pub hour : ℕ
hour = 3600 * 10 ^ 9

abbrev pub role_expiry_tier_12_hour : ℕ
role_expiry_tier_12_hour = 12 * hour

abbrev pub role_expiry_tier_1_day : ℕ
role_expiry_tier_1_day = 24 * hour

abbrev pub role_expiry_tier_3_day : ℕ
role_expiry_tier_3_day = 72 * hour

abbrev pub role_expiry_alarm_dedup_window : ℕ
role_expiry_alarm_dedup_window = 24 * hour

unfoldable pub tier_of : ℕ → Option Tier
tier_of remain =
    if leb remain role_expiry_tier_12_hour
    then some tier_12h
    else if leb remain role_expiry_tier_1_day
    then some tier_1d
    else if leb remain role_expiry_tier_3_day
    then some tier_3d
    else none

unfoldable pub tier_text : Tier → List ℕ
tier_text tier_12h = codes "12h"
tier_text tier_1d = codes "1d"
tier_text tier_3d = codes "3d"

-- The alert for a range that covers now.
unfoldable pub alert_for : List ℕ → List ℕ → ℕ → TacacsPermissions → List RoleExpiryAlert
alert_for user level now r = elim (tier_of (r.end_time - now)) [
  | none ↦ []
  | some t ↦ record { user = user; level = level; expire_at = r.end_time; tier = t } ∷ []
]

-- for _, r := range ranges { ... break }
unfoldable pub level_alerts : List ℕ → List ℕ → ℕ → List TacacsPermissions → List RoleExpiryAlert
level_alerts user level now [] = []
level_alerts user level now (r ∷ ranges) = elim (covers_now now r) [
  | true ↦ alert_for user level now r
  | false ↦ level_alerts user level now ranges
]

unfoldable pub user_alerts : List ℕ → ℕ → ByLevel → List RoleExpiryAlert
user_alerts user now [] = []
user_alerts user now ((level, ranges) ∷ by_level) =
    level_alerts user level now ranges ++ user_alerts user now by_level

unfoldable pub compute_role_expiry_alerts : PermissionsInfo → ℕ → List RoleExpiryAlert
compute_role_expiry_alerts [] now = []
compute_role_expiry_alerts ((user, by_level) ∷ perms) now =
    user_alerts user now by_level ++ compute_role_expiry_alerts perms now

-- When a card was last sent for a key.
abbrev pub AlarmHistory : Type 0
AlarmHistory = List (List ℕ × ℕ)

-- if last, ok := history.Get(key); ok && now.Sub(last) < window
unfoldable pub recently_sent : AlarmHistory → ℕ → ℕ → List ℕ → Bool
recently_sent history window now key = elim (get key history) [
  | none ↦ false
  | some last ↦ ltb (now - last) window
]

-- strconv.FormatInt(a.expireAt.Unix(), 10)
module _ (format_unix : ℕ → List ℕ) where
  unfoldable pub dedup_key : RoleExpiryAlert → List ℕ
  dedup_key a =
      a.user ++ (124 ∷ (a.level ++ (124 ∷ (format_unix a.expire_at ++ (124 ∷ tier_text a.tier)))))

  unfoldable pub pending : AlarmHistory → ℕ → List RoleExpiryAlert → List RoleExpiryAlert
  pending history now [] = []
  pending history now (a ∷ alerts) =
      let rest = pending history now alerts in
      if recently_sent history role_expiry_alarm_dedup_window now (dedup_key a)
      then rest
      else a ∷ rest

  -- The outcome of sending a card is the instant at which it has been sent, or none for an error.
  -- Each card that is sent is noted; the goroutines are taken in one of their orders.
  unfoldable pub send_cards :
      (RoleExpiryAlert → Option ℕ) → List RoleExpiryAlert → AlarmHistory → AlarmHistory
  send_cards send_card [] history = history
  send_cards send_card (a ∷ alerts) history = elim (send_card a) [
    | none ↦ send_cards send_card alerts history
    | some at ↦ send_cards send_card alerts (put (dedup_key a) at history)
  ]

  unfoldable pub check_role_permission_expiry :
      (RoleExpiryAlert → Option ℕ) → PermissionsInfo → ℕ → AlarmHistory → AlarmHistory
  check_role_permission_expiry send_card perms now history =
      send_cards send_card (pending history now (compute_role_expiry_alerts perms now)) history
