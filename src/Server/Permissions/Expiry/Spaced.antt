-- ===== src/Server/Permissions/Expiry/Spaced.antt =====
-- A warning is not repeated within a day.
use tacacs_plus_go.Base.{
  All, Any, Any-imp, Bool-cases, List, Option, Option-cases, [], ap, arith, bytes_eq, bytes_eq_iff,
  false, get, get-put, inl, inr, none, put, refl, some, subst, sym, true, ℕ, ◌+◌, ◌<◌, ◌∙◌, ◌∷◌,
  ◌≡◌, ◌≢◌, ◌≤◌, ◌⊎◌,
}
use tacacs_plus_go.Server.Permissions.{PermissionsInfo}
use tacacs_plus_go.Server.Permissions.Expiry.{
  AlarmHistory, RoleExpiryAlert, check_role_permission_expiry, compute_role_expiry_alerts,
  dedup_key, pending, recently_sent, role_expiry_alarm_dedup_window, send_cards,
}

-- One pass of CheckRolePermissionExpiry.
pub record Check : Type 0 where
  pub perms : PermissionsInfo
  pub now : ℕ
  pub send_card : RoleExpiryAlert → Option ℕ

module _ (format_unix : ℕ → List ℕ) where
  abbrev pub sends : Check → AlarmHistory → List RoleExpiryAlert
  sends c history = pending format_unix history c.now (compute_role_expiry_alerts c.perms c.now)

  abbrev pub after : Check → AlarmHistory → AlarmHistory
  after c history = check_role_permission_expiry format_unix c.send_card c.perms c.now history

  -- None of the passes sends a card with the key.
  abbrev pub IsQuiet : List ℕ → List Check → AlarmHistory → Type 0
  IsQuiet key [] history = Unit
  IsQuiet key (c ∷ checks) history =
      All (λ a. dedup_key format_unix a ≢ key) (sends c history)
      × IsQuiet key checks (after c history)

  pending_cases :
      (history : AlarmHistory) (now : ℕ) (a : RoleExpiryAlert) (alerts : List RoleExpiryAlert)
      → let recent =
          recently_sent history role_expiry_alarm_dedup_window now (dedup_key format_unix a) in
        ((recent ≡ true)
          × (pending format_unix history now (a ∷ alerts) ≡ pending format_unix history now alerts))
        ⊎ ((recent ≡ false)
            × (pending format_unix history now (a ∷ alerts)
                ≡ a ∷ pending format_unix history now alerts))
  unfolding pending
  pending_cases history now a alerts = ground arith

  false_of_recent :
      (key : List ℕ) (last : ℕ) (history : AlarmHistory) (now : ℕ)
      → get key history ≡ some last
      → now < last + role_expiry_alarm_dedup_window
      → recently_sent history role_expiry_alarm_dedup_window now key ≢ false
  unfolding recently_sent
  false_of_recent key last history now e h f = ground (arith, e, h, f)

  pending-quiet :
      (key : List ℕ) (last : ℕ) (history : AlarmHistory) (now : ℕ) (alerts : List RoleExpiryAlert)
      → get key history ≡ some last
      → now < last + role_expiry_alarm_dedup_window
      → All (λ a. dedup_key format_unix a ≢ key) (pending format_unix history now alerts)
  unfolding pending
  pending-quiet key last history now [] e h = tt
  pending-quiet key last history now (a ∷ alerts) e h =
      let ih = pending-quiet key last history now alerts e h in
      elim (pending_cases history now a alerts) [
        | inl (recent, same) ↦ subst (All (λ b. dedup_key format_unix b ≢ key)) (sym same) ih
        | inr (old, more) ↦ subst (All (λ b. dedup_key format_unix b ≢ key)) (sym more) (
          (λ k. absurd (
              false_of_recent key last history now e h (
                subst (λ j. recently_sent history role_expiry_alarm_dedup_window now j ≡ false) k
                  old))),
          ih,
        )
      ]

  send_cards-other :
      (key : List ℕ) (send_card : RoleExpiryAlert → Option ℕ) (alerts : List RoleExpiryAlert)
      (history : AlarmHistory)
      → All (λ a. dedup_key format_unix a ≢ key) alerts
      → get key (send_cards format_unix send_card alerts history) ≡ get key history
  unfolding send_cards
  send_cards-other key send_card [] history quiet = refl
  send_cards-other key send_card (a ∷ alerts) history quiet =
      elim (send_card a)
        as (λ o.
          get key (elim o [
            | none ↦ send_cards format_unix send_card alerts history
            | some at ↦
                send_cards format_unix send_card alerts (put (dedup_key format_unix a) at history)
          ])
          ≡ get key history) [
            | none ↦ send_cards-other key send_card alerts history quiet.1
            | some at ↦
                send_cards-other key send_card alerts (put (dedup_key format_unix a) at history)
                  quiet.1
                ∙ grind (
                  arith,
                  get-put (dedup_key format_unix a) key at history,
                  bytes_eq_iff (dedup_key format_unix a) key,
                  quiet.0,
                )
          ]

  -- A card with the key has been sent at the instant or later.
  abbrev IsSent : List ℕ → ℕ → AlarmHistory → Type 0
  IsSent key from history = (last : ℕ) × (get key history ≡ some last) × (from ≤ last)

  put-IsSent :
      (key other : List ℕ) (from at : ℕ) (history : AlarmHistory)
      → from ≤ at
      → IsSent key from history ⊎ (other ≡ key)
      → IsSent key from (put other at history)
  put-IsSent key other from at history le h = elim (Bool-cases (bytes_eq other key)) [
    | inl same ↦ (at, get-put other key at history ∙ ground (arith, same), le)
    | inr different ↦ elim h [
      | inl s ↦ (s.0, get-put other key at history ∙ ground (arith, different, s.1), s.2)
      | inr e ↦ absurd (ground (arith, different, (bytes_eq_iff other key).1 e))
    ]
  ]

  send_cards-none :
      (send_card : RoleExpiryAlert → Option ℕ) (a : RoleExpiryAlert) (alerts : List RoleExpiryAlert)
      (history : AlarmHistory)
      → send_card a ≡ none
      → send_cards format_unix send_card (a ∷ alerts) history
        ≡ send_cards format_unix send_card alerts history
  unfolding send_cards
  send_cards-none send_card a alerts history e = ground (arith, e)

  send_cards-some :
      (send_card : RoleExpiryAlert → Option ℕ) (a : RoleExpiryAlert) (alerts : List RoleExpiryAlert)
      (history : AlarmHistory) (at : ℕ)
      → send_card a ≡ some at
      → send_cards format_unix send_card (a ∷ alerts) history
        ≡ send_cards format_unix send_card alerts (put (dedup_key format_unix a) at history)
  unfolding send_cards
  send_cards-some send_card a alerts history at e = ground (arith, e)

  send_cards-IsSent :
      (key : List ℕ) (from : ℕ) (send_card : RoleExpiryAlert → Option ℕ)
      (alerts : List RoleExpiryAlert) (history : AlarmHistory)
      → ((a : RoleExpiryAlert) (at : ℕ) → send_card a ≡ some at → from ≤ at)
      → IsSent key from history
        ⊎ Any (λ a. (dedup_key format_unix a ≡ key) × (send_card a ≢ none)) alerts
      → IsSent key from (send_cards format_unix send_card alerts history)
  unfolding send_cards
  send_cards-IsSent key from send_card [] history later h = elim h [
    | inl s ↦ s
    | inr n ↦ elim n [ ]
  ]
  send_cards-IsSent key from send_card (a ∷ alerts) history later h =
      let k = dedup_key format_unix a in
      elim (Option-cases (send_card a)) [
        | inl e ↦ subst (IsSent key from) (sym (send_cards-none send_card a alerts history e)) (
            send_cards-IsSent key from send_card alerts history later (elim h [
              | inl s ↦ inl s
              | inr (inl (_, sent)) ↦ absurd (sent e)
              | inr (inr more) ↦ inr more
            ]))
        | inr (at, e) ↦
            let le = later a at e in
            subst (IsSent key from) (sym (send_cards-some send_card a alerts history at e)) (
              send_cards-IsSent key from send_card alerts (put k at history) later (elim h [
                | inl s ↦ inl (put-IsSent key k from at history le (inl s))
                | inr (inl (same, _)) ↦ inl (put-IsSent key k from at history le (inr same))
                | inr (inr more) ↦ inr more
              ]))
      ]

  IsSent-IsQuiet :
      (key : List ℕ) (from : ℕ) (checks : List Check) (history : AlarmHistory)
      → IsSent key from history
      → All (λ c. c.now < from + role_expiry_alarm_dedup_window) checks
      → IsQuiet key checks history
  unfolding check_role_permission_expiry
  IsSent-IsQuiet key from [] history sent soon = tt
  IsSent-IsQuiet key from (c ∷ checks) history sent soon =
      let quiet =
        pending-quiet key sent.0 history c.now (compute_role_expiry_alerts c.perms c.now) sent.1
          (omega (arith, sent.2, soon.0)) in
      let still = send_cards-other key c.send_card (sends c history) history quiet in
      (
        quiet,
        IsSent-IsQuiet key from checks (after c history) (sent.0, still ∙ sent.1, sent.2) soon.1,
      )

  -- A pass sends a card for a warning, at the time at which the pass began or later. Then no pass that
  -- begins within 24 hours of that one's begin sends a card with the same user, role, end and tier,
  -- whatever becomes of the permissions and of the other cards.
  pub check_role_permission_expiry-IsQuiet :
      (c : Check) (checks : List Check) (history : AlarmHistory) (a : RoleExpiryAlert)
      → ((b : RoleExpiryAlert) (at : ℕ) → c.send_card b ≡ some at → c.now ≤ at)
      → Any (λ b. b ≡ a) (sends c history)
      → c.send_card a ≢ none
      → All (λ d. d.now < c.now + role_expiry_alarm_dedup_window) checks
      → IsQuiet (dedup_key format_unix a) checks (after c history)
  unfolding check_role_permission_expiry
  check_role_permission_expiry-IsQuiet c checks history a later warned sent soon =
      IsSent-IsQuiet (dedup_key format_unix a) c.now checks (after c history)
        (send_cards-IsSent (dedup_key format_unix a) c.now c.send_card (sends c history) history
          later
          (inr (
            Any-imp _ _ (sends c history)
              (λ b e.
                (ap (dedup_key format_unix) e, subst (λ x. c.send_card x ≢ none) (sym e) sent))
              warned)))
        soon
