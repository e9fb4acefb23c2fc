-- ===== src/Server/Permissions/Expiry/Tests.antt =====
-- Runs of the roles' expiry warnings on concrete inputs.
use tacacs_plus_go.Base.{
  Any, List, [], ap, arith, codes, get, inl, none, refl, some, ℕ, ◌*◌, ◌↔◌, ◌∷◌, ◌≡◌,
}
use tacacs_plus_go.Server.Permissions.{PermissionsInfo, TacacsPermissions, covers_now}
use tacacs_plus_go.Server.Permissions.Expiry.{
  RoleExpiryAlert, alert_for, compute_role_expiry_alerts, dedup_key, hour, level_alerts, pending,
  recently_sent, tier_1d, tier_of, user_alerts,
}
use tacacs_plus_go.Server.Permissions.Expiry.Tiers.{AnyDue, compute_role_expiry_alerts-IsDue}
use tacacs_plus_go.Server.Permissions.Expiry.Spaced.{
  Check, IsQuiet, after, check_role_permission_expiry-IsQuiet, sends,
}

-- A range that ends 20 hours after the instant.
abbrev soon : TacacsPermissions
soon = record { start_time = 0; end_time = 21 * hour; permissions = [] }

abbrev merged : PermissionsInfo
merged = (codes "ann", (codes "net", soon ∷ []) ∷ []) ∷ []

abbrev warning : RoleExpiryAlert
warning = record { user = codes "ann"; level = codes "net"; expire_at = 21 * hour; tier = tier_1d }

compute_role_expiry_alerts-IsDue_example :
    Any (λ b. b ≡ warning) (compute_role_expiry_alerts merged hour) ↔ AnyDue hour warning merged
compute_role_expiry_alerts-IsDue_example =
    compute_role_expiry_alerts-IsDue hour warning merged (((tt, tt), tt), tt)

abbrev no_unix : ℕ → List ℕ
no_unix t = []

abbrev first_check : Check
first_check = record { perms = merged; now = hour; send_card = λ a. some (2 * hour) }

abbrev second_check : Check
second_check = record { perms = merged; now = 10 * hour; send_card = λ a. some (11 * hour) }

first_sends : Any (λ b. b ≡ warning) (sends no_unix first_check [])
unfolding pending recently_sent dedup_key compute_role_expiry_alerts user_alerts level_alerts
    alert_for tier_of covers_now get
first_sends = inl refl

check_role_permission_expiry-IsQuiet_example :
    IsQuiet no_unix (dedup_key no_unix warning) (second_check ∷ []) (after no_unix first_check [])
check_role_permission_expiry-IsQuiet_example =
    check_role_permission_expiry-IsQuiet no_unix first_check (second_check ∷ []) [] warning
      (λ b at e. omega (arith, ap {B = ℕ} (λ o. elim o [ none ↦ 0 | some t ↦ t ]) e)) first_sends
      (λ e. cc e) (omega arith, tt)
