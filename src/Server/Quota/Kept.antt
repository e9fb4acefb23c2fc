-- ===== src/Server/Quota/Kept.antt =====
-- What the quota keeps of the times at which a user has been granted a request
-- (pkg/server/http/resource_limits.go).
use tacacs_plus_go.Base.{
  All-imp, All-put, Bool, Bool-cases, List, [], ap, arith, bytes_eq, bytes_eq_iff, false,
  if◌then◌else◌, inl, inr, length, length-append, put, subst, sym, true, ℕ, ◌&&◌, ◌++◌, ◌+◌, ◌<◌,
  ◌∷◌, ◌≡◌, ◌≢◌, ◌≤◌, ◌⊎◌,
}
use tacacs_plus_go.Server.Quota.{
  Quota, allow_user, approval_create_max, drop_old, entries_of, fresh,
}
use tacacs_plus_go.Server.Quota.Window.{
  FewerFresh, IsWithin, IsWithin-entries_of, drop_old-IsWithin, drop_old-keeps, entries_of-put,
  fresh-append, fresh-fresh, length-fresh,
}

-- The quota, and the times at which a certain user has been granted a request, the latest first.
pub record Granted : Type 0 where
  pub quota : Quota
  pub times : List ℕ

allow_user_cases :
    (user : List ℕ) (now : ℕ) (quota : Quota)
    → let kept = fresh now (entries_of user quota) in
      ((allow_user user now quota ≡ (false, put user kept quota))
        ⊎ (allow_user user now quota ≡ (false, drop_old now quota)))
      ⊎ ((length kept < approval_create_max)
          × ((allow_user user now quota ≡ (true, put user (kept ++ (now ∷ [])) quota))
              ⊎ (allow_user user now quota
                  ≡ (true, put user (kept ++ (now ∷ [])) (drop_old now quota)))))
unfolding allow_user
allow_user_cases user now quota = ground arith

module _ (user : List ℕ) where
  -- The quota holds the user's granted times that are still fresh.
  pub record IsKept (now : ℕ) (g : Granted) : Type 0 where
    pub holds : (t : ℕ) → now ≤ t → FewerFresh t g.times (entries_of user g.quota)
    pub within : IsWithin now g.quota

  put-IsKept :
      (now : ℕ) (other v times : List ℕ) (ready : Quota)
      → IsWithin now ready
      → ((t : ℕ) → now ≤ t → length (fresh t v) ≤ approval_create_max)
      → (other ≡ user → (t : ℕ) → now ≤ t → FewerFresh t times v)
      → (other ≢ user → (t : ℕ) → now ≤ t → FewerFresh t times (entries_of user ready))
      → IsKept now (record { quota = put other v ready; times = times })
  put-IsKept now other v times ready w small mine others = record {
    holds = λ t h.
        subst (FewerFresh t times) (sym (entries_of-put other user v ready))
          (elim (Bool-cases (bytes_eq other user)) [
            | inl e ↦ rw e (mine ((bytes_eq_iff other user).0 e) t h)
            | inr e ↦ rw e (others (λ same. cc (e, (bytes_eq_iff other user).1 same)) t h)
          ]);
    within =
        All-put (λ e. (t : ℕ) → now ≤ t → length (fresh t e.1) ≤ approval_create_max) other v ready
          w small;
  }

  module _ (t now : ℕ) (other : List ℕ) (g : Granted) (le : t ≤ now) (k : IsKept t g) where
    abbrev kept : List ℕ
    kept = fresh now (entries_of other g.quota)

    later-IsWithin : IsWithin now g.quota
    later-IsWithin = All-imp _ _ g.quota (λ e h s b. h s (omega (arith, le, b))) k.within

    kept-small : (s : ℕ) → now ≤ s → length (fresh s kept) ≤ approval_create_max
    kept-small s h = omega (
      arith,
      ap length (fresh-fresh now s (entries_of other g.quota) h),
      IsWithin-entries_of now s other g.quota h later-IsWithin,
    )

    kept-holds : other ≡ user → (s : ℕ) → now ≤ s → FewerFresh s g.times kept
    kept-holds same s h =
        let fewer =
          subst (λ u. FewerFresh s g.times (entries_of u g.quota)) (sym same)
            (k.holds s (omega (arith, le, h))) in
        omega (arith, ap length (fresh-fresh now s (entries_of other g.quota) h), fewer)

    swept-holds : (s : ℕ) → now ≤ s → FewerFresh s g.times (entries_of user (drop_old now g.quota))
    swept-holds s h =
        omega (arith, k.holds s (omega (arith, le, h)), drop_old-keeps now s user g.quota h)

    one-fresh :
        (s : ℕ) (times : List ℕ)
        → length (fresh s (now ∷ times)) ≡ length (fresh s (now ∷ [])) + length (fresh s times)
    unfolding fresh
    one-fresh s times = ground arith

    added-small :
        length kept < approval_create_max
        → (s : ℕ) → now ≤ s
        → length (fresh s (kept ++ (now ∷ []))) ≤ approval_create_max
    added-small room s h = omega (
      arith,
      room,
      ap length (fresh-append s kept (now ∷ [])),
      length-append (fresh s kept) (fresh s (now ∷ [])),
      length-fresh s kept,
      length-fresh s (now ∷ []),
    )

    added-holds :
        other ≡ user → (s : ℕ) → now ≤ s → FewerFresh s (now ∷ g.times) (kept ++ (now ∷ []))
    added-holds same s h = omega (
      arith,
      kept-holds same s h,
      one-fresh s g.times,
      ap length (fresh-append s kept (now ∷ [])),
      length-append (fresh s kept) (fresh s (now ∷ [])),
    )

    pub later-IsKept : IsKept now g
    later-IsKept = record {
      holds = λ s h. k.holds s (omega (arith, le, h));
      within = later-IsWithin;
    }

    swept-IsKept : IsKept now (record { quota = drop_old now g.quota; times = g.times })
    swept-IsKept = record {
      holds = swept-holds;
      within = drop_old-IsWithin now g.quota later-IsWithin;
    }

    -- The state behind an answer.
    abbrev pub answered : Bool × Quota → Granted
    answered r = record {
      quota = r.1;
      times = if r.0 && bytes_eq other user then now ∷ g.times else g.times;
    }

    granted-IsKept :
        (ready : Quota)
        → IsKept now (record { quota = ready; times = g.times })
        → length kept < approval_create_max
        → IsKept now (answered (true, put other (kept ++ (now ∷ [])) ready))
    granted-IsKept ready r room =
        let v = kept ++ (now ∷ []) in
        elim (Bool-cases (bytes_eq other user)) [
          | inl e ↦
              let same = (bytes_eq_iff other user).0 e in
              subst
                (λ b. IsKept now (record {
                  quota = put other v ready;
                  times = if b then now ∷ g.times else g.times;
                }))
                (sym e)
                (put-IsKept now other v (now ∷ g.times) ready r.within (added-small room)
                  added-holds (λ n. absurd (n same)))
          | inr e ↦
              subst
                (λ b. IsKept now (record {
                  quota = put other v ready;
                  times = if b then now ∷ g.times else g.times;
                }))
                (sym e)
                (put-IsKept now other v g.times ready r.within (added-small room)
                  (λ same. absurd (cc (e, (bytes_eq_iff other user).1 same))) (λ _. r.holds))
        ]

    pub allow_user-IsKept : IsKept now (answered (allow_user other now g.quota))
    allow_user-IsKept = elim (allow_user_cases other now g.quota) [
      | inl (inl e) ↦
          subst (λ (r : Bool × Quota). IsKept now (answered r)) (sym e)
            (put-IsKept now other kept g.times g.quota later-IsWithin kept-small kept-holds
              (λ _. later-IsKept.holds))
      | inl (inr e) ↦ subst (λ (r : Bool × Quota). IsKept now (answered r)) (sym e) swept-IsKept
      | inr (room, inl e) ↦
          subst (λ (r : Bool × Quota). IsKept now (answered r)) (sym e)
            (granted-IsKept g.quota later-IsKept room)
      | inr (room, inr e) ↦
          subst (λ (r : Bool × Quota). IsKept now (answered r)) (sym e)
            (granted-IsKept (drop_old now g.quota) swept-IsKept room)
    ]
