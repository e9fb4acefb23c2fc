-- ===== src/Swm/RateLimit/Lockout.antt =====
-- How failures lock a bucket, and a locked bucket refuses (pkg/swm/http/ratelimit.go).
use tacacs_plus_go.Base.{
  Any, Bool-cases, List, Option-cases, [], ap, arith, bytes_eq, bytes_eq_iff, bytes_eq_refl, false,
  inl, inr, none, put, some, subst, sym, true, ℕ, ◌+◌, ◌-◌, ◌<◌, ◌∙◌, ◌∷◌, ◌≡◌, ◌≢◌, ◌≤◌,
}
use tacacs_plus_go.Swm.RateLimit.{
  Bucket, Buckets, any_locked, expired, fail, get_bucket_locked, limit, lockout_dur,
  login_attempt_window, login_rate_limit, record_login_failure, refresh,
}
use tacacs_plus_go.Swm.RateLimit.Kept.{
  Holds, IsKept, get_bucket_locked-Holds, get_bucket_locked_found, put-Holds_other, put-Holds_self,
}

-- Locked until after a time.
abbrev pub LockedAt : ℕ → Bucket → Type 0
LockedAt t b = t < b.locked_until

pub LockedAt-IsKept : (now t : ℕ) → now ≤ t → IsKept now (LockedAt t)
unfolding refresh expired
LockedAt-IsKept now t h = record {
  by_refresh = λ b p. ground arith;
  by_sweep = λ b p. ground arith;
}

any_locked-LockedAt :
    (now : ℕ) (k : List ℕ) (keys : List (List ℕ)) (bs : Buckets)
    → k ≢ []
    → Any (λ key. k ≡ key) keys
    → Holds (LockedAt now) k bs
    → (any_locked keys now bs).0 ≡ true
unfolding any_locked
any_locked-LockedAt now k [] bs ne m h = absurd m
any_locked-LockedAt now k (key ∷ keys) bs ne (inl same) h =
    let (b, e, l) =
      get_bucket_locked_found now (LockedAt now) (LockedAt-IsKept now now (omega arith)) k bs ne
        h in
    ground (arith, same, e, l)
any_locked-LockedAt now k (key ∷ keys) bs ne (inr m) h =
    let rest = any_locked-LockedAt now k keys (get_bucket_locked key now bs).1 ne m (
      get_bucket_locked-Holds now (LockedAt now) (LockedAt-IsKept now now (omega arith)) k key bs
        h) in
    ground (arith, rest)

pub login_rate_limit-LockedAt :
    (now : ℕ) (k : List ℕ) (keys : List (List ℕ)) (bs : Buckets)
    → k ≢ []
    → Any (λ key. k ≡ key) keys
    → Holds (LockedAt now) k bs
    → (login_rate_limit keys now bs).0 ≡ true
unfolding login_rate_limit
login_rate_limit-LockedAt now k keys bs ne m h =
    ground (arith, any_locked-LockedAt now k keys bs ne m h)

record_none :
    (key : List ℕ) (keys : List (List ℕ)) (now : ℕ) (bs : Buckets)
    → (get_bucket_locked key now bs).0 ≡ none
    → record_login_failure (key ∷ keys) now bs
      ≡ record_login_failure keys now (get_bucket_locked key now bs).1
unfolding record_login_failure
record_none key keys now bs e = ground (arith, e)

record_some :
    (key : List ℕ) (keys : List (List ℕ)) (now : ℕ) (bs : Buckets) (b : Bucket)
    → (get_bucket_locked key now bs).0 ≡ some b
    → record_login_failure (key ∷ keys) now bs
      ≡ record_login_failure keys now (put key (fail key now b) (get_bucket_locked key now bs).1)
unfolding record_login_failure
record_some key keys now bs b e = ground (arith, e)

fail-LockedAt :
    (k : List ℕ) (now t : ℕ) (b : Bucket)
    → t < now + lockout_dur
    → LockedAt t b
    → LockedAt t (fail k now b)
unfolding fail
fail-LockedAt k now t b late h = ground arith

-- A bucket at which the next failure in this window locks.
abbrev pub IsReady : List ℕ → ℕ → Bucket → Type 0
IsReady k now b = (limit k ≤ b.fail_count + 1) × (now - b.window_start ≤ login_attempt_window)

IsReady-IsKept : (k : List ℕ) (now : ℕ) → IsKept now (IsReady k now)
unfolding refresh expired
IsReady-IsKept k now = record {
  by_refresh = λ b p. (ground arith, ground arith);
  by_sweep = λ b p. ground arith;
}

fail-IsReady :
    (k : List ℕ) (now t : ℕ) (b : Bucket)
    → t < now + lockout_dur
    → IsReady k now b
    → LockedAt t (fail k now b)
unfolding fail
fail-IsReady k now t b late h = ground (arith, h)

module _ (now t : ℕ) (k : List ℕ) (ne : k ≢ []) (le : now ≤ t) (late : t < now + lockout_dur) where
  -- A failure in the bucket itself, with a property that leads to a lockout.
  fail_self :
      (P : Bucket → Type 0)
      → IsKept now P
      → ((b : Bucket) → P b → LockedAt t (fail k now b))
      → (keys : List (List ℕ)) (bs : Buckets) → Holds P k bs
      → (bs' : Buckets) × (record_login_failure (k ∷ keys) now bs
          ≡ record_login_failure keys now bs')
        × Holds (LockedAt t) k bs'
  fail_self P kept locks keys bs h =
      let (b, e, p) = get_bucket_locked_found now P kept k bs ne h in
      (
        put k (fail k now b) (get_bucket_locked k now bs).1,
        record_some k keys now bs b (ap (λ r. r.0) e),
        put-Holds_self (LockedAt t) k (fail k now b) _ (locks b p),
      )

  -- A failure in another bucket.
  fail_other :
      (P : Bucket → Type 0)
      → IsKept now P
      → (key : List ℕ) (keys : List (List ℕ)) (bs : Buckets) → bytes_eq key k ≡ false
      → Holds P k bs
      → (bs' : Buckets) × (record_login_failure (key ∷ keys) now bs
          ≡ record_login_failure keys now bs')
        × Holds P k bs'
  fail_other P kept key keys bs other h =
      let looked = get_bucket_locked-Holds now P kept k key bs h in
      elim (Option-cases (get_bucket_locked key now bs).0) [
        | inl e ↦ (_, record_none key keys now bs e, looked)
        | inr (b, e) ↦
            (_, record_some key keys now bs b e, put-Holds_other P k key _ _ other looked)
      ]

  pub record_login_failure-LockedAt :
      (keys : List (List ℕ)) (bs : Buckets)
      → Holds (LockedAt t) k bs
      → Holds (LockedAt t) k (record_login_failure keys now bs)
  unfolding record_login_failure
  record_login_failure-LockedAt [] bs h = h
  record_login_failure-LockedAt (key ∷ keys) bs h = elim (Bool-cases (bytes_eq key k)) [
    | inl same ↦
        let key_is : key ≡ k = (bytes_eq_iff key k).0 same in
        let (bs', e, l) =
          fail_self (LockedAt t) (LockedAt-IsKept now t le) (λ b p. fail-LockedAt k now t b late p)
            keys bs h in
        subst (Holds (LockedAt t) k)
          (sym (ap (λ x. record_login_failure (x ∷ keys) now bs) key_is ∙ e))
          (record_login_failure-LockedAt keys bs' l)
    | inr other ↦
        let (bs', e, l) = fail_other (LockedAt t) (LockedAt-IsKept now t le) key keys bs other h in
        subst (Holds (LockedAt t) k) (sym e) (record_login_failure-LockedAt keys bs' l)
  ]

  pub record_login_failure-IsReady :
      (keys : List (List ℕ)) (bs : Buckets)
      → Any (λ key. k ≡ key) keys
      → Holds (IsReady k now) k bs
      → Holds (LockedAt t) k (record_login_failure keys now bs)
  record_login_failure-IsReady [] bs m h = absurd m
  record_login_failure-IsReady (key ∷ keys) bs m h = elim (Bool-cases (bytes_eq key k)) [
    | inl same ↦
        let key_is : key ≡ k = (bytes_eq_iff key k).0 same in
        let (bs', e, l) =
          fail_self (IsReady k now) (IsReady-IsKept k now) (λ b p. fail-IsReady k now t b late p)
            keys bs h in
        subst (Holds (LockedAt t) k)
          (sym (ap (λ x. record_login_failure (x ∷ keys) now bs) key_is ∙ e))
          (record_login_failure-LockedAt keys bs' l)
    | inr other ↦
        let (bs', e, l) = fail_other (IsReady k now) (IsReady-IsKept k now) key keys bs other h in
        subst (Holds (LockedAt t) k) (sym e) (
          record_login_failure-IsReady keys bs'
            (elim m [ inl is ↦ absurd (cc (other, bytes_eq_refl k, is)) | inr m' ↦ m' ]) l)
  ]
