-- ===== src/Server/Permissions/Expiry/Tiers.antt =====
-- Which warnings a merged map gives.
use tacacs_plus_go.Base.{
  All, All-Any, Any, Any-append_iff, IsAscending, List, Option-cases, [], ap, arith, inl, inr, none,
  some, subst, sym, ℕ, ◌*◌, ◌+◌, ◌-◌, ◌<◌, ◌↔◌, ◌∷◌, ◌≡◌, ◌≤◌, ◌⊎◌,
}
use tacacs_plus_go.Server.Permissions.{ByLevel, PermissionsInfo, TacacsPermissions, covers_now}
use tacacs_plus_go.Server.Permissions.Merge.{EndsBefore, Inside}
use tacacs_plus_go.Server.Permissions.Expiry.{
  RoleExpiryAlert, Tier, alert_for, compute_role_expiry_alerts, hour, level_alerts, tier_12h,
  tier_1d, tier_3d, tier_of, user_alerts,
}

-- The distance to the end of a range falls into the tier: within 12, 24 or 72 hours.
abbrev pub IsTier : ℕ → ℕ → Tier → Type 0
IsTier now end tier_12h = end ≤ now + 12 * hour
IsTier now end tier_1d = (now + 12 * hour < end) × (end ≤ now + 24 * hour)
IsTier now end tier_3d = (now + 24 * hour < end) × (end ≤ now + 72 * hour)

-- The warning that a range calls for at an instant.
pub record IsDue (user level : List ℕ) (now : ℕ) (a : RoleExpiryAlert) (r : TacacsPermissions)
    : Type 0 where
  pub user_same : user ≡ a.user
  pub level_same : level ≡ a.level
  pub covering : Inside now r
  pub expires : r.end_time ≡ a.expire_at
  pub soon : IsTier now r.end_time a.tier

tier_of_sound :
    (now end : ℕ) (t : Tier) → now < end → tier_of (end - now) ≡ some t → IsTier now end t
unfolding tier_of
tier_of_sound now end tier_12h h e = ground (arith, e)
tier_of_sound now end tier_1d h e = ground (arith, e)
tier_of_sound now end tier_3d h e = ground (arith, e)

tier_of_complete :
    (now end : ℕ) (t : Tier) → now < end → IsTier now end t → tier_of (end - now) ≡ some t
unfolding tier_of
tier_of_complete now end tier_12h h e = ground (arith, e)
tier_of_complete now end tier_1d h e = ground (arith, e)
tier_of_complete now end tier_3d h e = ground (arith, e)

alert_for-none :
    (user level : List ℕ) (now : ℕ) (r : TacacsPermissions)
    → tier_of (r.end_time - now) ≡ none
    → alert_for user level now r ≡ []
unfolding alert_for
alert_for-none user level now r e = ground (arith, e)

alert_for-some :
    (user level : List ℕ) (now : ℕ) (r : TacacsPermissions) (t : Tier)
    → tier_of (r.end_time - now) ≡ some t
    → alert_for user level now r
      ≡ record { user = user; level = level; expire_at = r.end_time; tier = t } ∷ []
unfolding alert_for
alert_for-some user level now r t e = ground (arith, e)

module _ (user level : List ℕ) (now : ℕ) (a : RoleExpiryAlert) where
  abbrev Warned : List RoleExpiryAlert → Type 0
  Warned = Any (λ b. b ≡ a)

  alert_for-IsDue :
      (r : TacacsPermissions)
      → Inside now r
      → Warned (alert_for user level now r)
      → IsDue user level now a r
  alert_for-IsDue r inside h = elim (Option-cases (tier_of (r.end_time - now))) [
    | inl e ↦ elim (subst Warned (alert_for-none user level now r e) h) [ ]
    | inr (t, e) ↦ elim (subst Warned (alert_for-some user level now r t e) h) [
      | inl same ↦ record {
        user_same = ap (λ x. x.user) same;
        level_same = ap (λ x. x.level) same;
        covering = inside;
        expires = ap (λ x. x.expire_at) same;
        soon =
            subst (IsTier now r.end_time) (ap (λ x. x.tier) same)
              (tier_of_sound now r.end_time t inside.1 e);
      }
      | inr more ↦ elim more [ ]
    ]
  ]

  IsDue-alert_for :
      (r : TacacsPermissions) → IsDue user level now a r → Warned (alert_for user level now r)
  IsDue-alert_for r due =
      subst Warned
        (sym (
          alert_for-some user level now r a.tier
            (tier_of_complete now r.end_time a.tier due.covering.1 due.soon)))
        (inl (grind (arith, due.user_same, due.level_same, due.expires)))

  level_alerts_cases :
      (r : TacacsPermissions) (ranges : List TacacsPermissions)
      → (Inside now r × (level_alerts user level now (r ∷ ranges) ≡ alert_for user level now r))
        ⊎ (¬ Inside now r
            × (level_alerts user level now (r ∷ ranges) ≡ level_alerts user level now ranges))
  unfolding level_alerts covers_now
  level_alerts_cases r ranges = ground arith

  -- The loop stops at the first range that covers the instant, and no other one does.
  level_alerts-IsDue :
      (ranges : List TacacsPermissions)
      → IsAscending EndsBefore ranges
      → Warned (level_alerts user level now ranges) ↔ Any (IsDue user level now a) ranges
  unfolding level_alerts
  level_alerts-IsDue [] apart = ((λ h. elim h [ ]), (λ h. elim h [ ]))
  level_alerts-IsDue (r ∷ ranges) apart = elim (level_alerts_cases r ranges) [
    | inl (inside, e) ↦ (
      (λ h. inl (alert_for-IsDue r inside (subst Warned e h))),
      (λ h. subst Warned (sym e) (elim h [
        | inl due ↦ IsDue-alert_for r due
        | inr later ↦
            let other = All-Any (EndsBefore r) (IsDue user level now a) ranges apart.0 later in
            absurd (omega (arith, other.1, other.2.covering.0, inside.1))
      ])),
    )
    | inr (out, e) ↦
        let ih = level_alerts-IsDue ranges apart.1 in
        (
          (λ h. inr (ih.0 (subst Warned e h))),
          (λ h.
              subst Warned (sym e)
                (elim h [ inl due ↦ absurd (out due.covering) | inr later ↦ ih.1 later ])),
        )
  ]

module _ (now : ℕ) (a : RoleExpiryAlert) where
  -- The warning is one that a range of a user's map calls for, or of all users'.
  abbrev pub UserDue : List ℕ → ByLevel → Type 0
  UserDue user = Any (λ f. Any (IsDue user (f.0) now a) f.1)

  abbrev pub AnyDue : PermissionsInfo → Type 0
  AnyDue = Any (λ e. UserDue (e.0) e.1)

  user_alerts-IsDue :
      (user : List ℕ) (by_level : ByLevel)
      → All (λ f. IsAscending EndsBefore f.1) by_level
      → Any (λ b. b ≡ a) (user_alerts user now by_level) ↔ UserDue user by_level
  unfolding user_alerts
  user_alerts-IsDue user [] apart = ((λ h. h), (λ h. h))
  user_alerts-IsDue user ((level, ranges) ∷ by_level) apart =
      let here = level_alerts-IsDue user level now a ranges apart.0 in
      let ih = user_alerts-IsDue user by_level apart.1 in
      let split =
        Any-append_iff (λ b. b ≡ a) (level_alerts user level now ranges)
          (user_alerts user now by_level) in
      (
        (λ h. elim (split.0 h) [ inl p ↦ inl (here.0 p) | inr q ↦ inr (ih.0 q) ]),
        (λ h. split.1 (elim h [ inl p ↦ inl (here.1 p) | inr q ↦ inr (ih.1 q) ])),
      )

  -- On ranges that are apart, as the merging leaves them: a warning is given if and only if a range
  -- of its user and role covers the instant, ends when the warning says, and ends within the time of
  -- the warning's tier, and not within that of a more urgent one.
  pub compute_role_expiry_alerts-IsDue :
      (perms : PermissionsInfo)
      → All (λ e. All (λ f. IsAscending EndsBefore f.1) e.1) perms
      → Any (λ b. b ≡ a) (compute_role_expiry_alerts perms now) ↔ AnyDue perms
  unfolding compute_role_expiry_alerts
  compute_role_expiry_alerts-IsDue [] apart = ((λ h. h), (λ h. h))
  compute_role_expiry_alerts-IsDue ((user, by_level) ∷ perms) apart =
      let here = user_alerts-IsDue user by_level apart.0 in
      let ih = compute_role_expiry_alerts-IsDue perms apart.1 in
      let split =
        Any-append_iff (λ b. b ≡ a) (user_alerts user now by_level)
          (compute_role_expiry_alerts perms now) in
      (
        (λ h. elim (split.0 h) [ inl p ↦ inl (here.0 p) | inr q ↦ inr (ih.0 q) ]),
        (λ h. split.1 (elim h [ inl p ↦ inl (here.1 p) | inr q ↦ inr (ih.1 q) ])),
      )
