-- ===== src/Swm/RateLimit/Events.antt =====
-- Lockouts of pkg/swm/http/ratelimit.go: none ends early, whatever requests come meanwhile.
use tacacs_plus_go.Base.{
  All, Any, Bool-cases, List, Option-cases, [], ap, arith, bytes_eq, bytes_eq_iff, codes, false,
  get, inl, inr, ltb, none, put, some, subst, sym, true, ℕ, ◌+◌, ◌-◌, ◌<◌, ◌∙◌, ◌∷◌, ◌≡◌, ◌≢◌, ◌≤◌,
  ◌⊎◌,
}
use tacacs_plus_go.Swm.RateLimit.{
  Bucket, Buckets, any_locked, count_all, get_bucket_locked, lockout_dur, login_rate_limit,
  record_login_failure, reset_login_counter,
}
use tacacs_plus_go.Swm.RateLimit.Kept.{
  Holds, get_bucket_locked-Holds, get_bucket_locked_found, put-Holds_other, put-Holds_self,
}
use tacacs_plus_go.Swm.RateLimit.Lockout.{
  IsReady, LockedAt, LockedAt-IsKept, login_rate_limit-LockedAt, record_login_failure-IsReady,
  record_login_failure-LockedAt,
}
use mathlib.Core.Option.{some-injective}

-- A call of LoginRateLimit, of RecordLoginFailure or of ResetLoginCounter, with its keys and time.
pub data LoginEvent : Type 0 where
  requested : List (List ℕ) → ℕ → LoginEvent
  failed : List (List ℕ) → ℕ → LoginEvent
  reset : List (List ℕ) → LoginEvent

unfoldable pub act : LoginEvent → Buckets → Buckets
act (requested keys t) bs = (login_rate_limit keys t bs).1
act (failed keys t) bs = record_login_failure keys t bs
act (reset keys) bs = reset_login_counter keys bs

unfoldable pub run : List LoginEvent → Buckets → Buckets
run [] bs = bs
run (e ∷ es) bs = run es (act e bs)

-- An event of the lockout's time that does not reset the key; a reset leaves the global bucket.
abbrev pub IsMeanwhile : List ℕ → ℕ → LoginEvent → Type 0
IsMeanwhile k now (requested keys t) = (now ≤ t) × (t < now + lockout_dur)
IsMeanwhile k now (failed keys t) = (now ≤ t) × (t < now + lockout_dur)
IsMeanwhile k now (reset keys) = All (λ key. (key ≡ codes "global") ⊎ (key ≢ k)) keys

count_none :
    (key : List ℕ) (keys : List (List ℕ)) (now : ℕ) (bs : Buckets)
    → (get_bucket_locked key now bs).0 ≡ none
    → count_all (key ∷ keys) now bs ≡ count_all keys now (get_bucket_locked key now bs).1
unfolding count_all
count_none key keys now bs e = ground (arith, e)

count_some :
    (key : List ℕ) (keys : List (List ℕ)) (now : ℕ) (bs : Buckets) (b : Bucket)
    → (get_bucket_locked key now bs).0 ≡ some b
    → (count_all (key ∷ keys) now bs).1
      ≡ (count_all keys now
          (put key (record b { count = b.count + 1 }) (get_bucket_locked key now bs).1)).1
unfolding count_all
count_some key keys now bs b e = ground (arith, e)

any_locked_state :
    (key : List ℕ) (keys : List (List ℕ)) (now : ℕ) (bs : Buckets)
    → let bs' = (get_bucket_locked key now bs).1 in
      ((any_locked (key ∷ keys) now bs).1 ≡ bs')
      ⊎ ((any_locked (key ∷ keys) now bs).1 ≡ (any_locked keys now bs').1)
unfolding any_locked
any_locked_state key keys now bs = elim (Option-cases (get_bucket_locked key now bs).0) [
  | inl e ↦ inr (ground (arith, e))
  | inr (b, e) ↦ elim (Bool-cases (ltb now b.locked_until)) [
    | inl l ↦ inl (ground (arith, e, l))
    | inr l ↦ inr (ground (arith, e, l))
  ]
]

module _ (t : ℕ) (k : List ℕ) (ne : k ≢ []) where
  any_locked-Holds :
      (u : ℕ) (keys : List (List ℕ)) (bs : Buckets)
      → u ≤ t
      → Holds (LockedAt t) k bs
      → Holds (LockedAt t) k (any_locked keys u bs).1
  unfolding any_locked
  any_locked-Holds u [] bs le h = h
  any_locked-Holds u (key ∷ keys) bs le h =
      let looked = get_bucket_locked-Holds u (LockedAt t) (LockedAt-IsKept u t le) k key bs h in
      let rest = any_locked-Holds u keys (get_bucket_locked key u bs).1 le looked in
      elim (any_locked_state key keys u bs) [
        | inl e ↦ subst (Holds (LockedAt t) k) (sym e) looked
        | inr e ↦ subst (Holds (LockedAt t) k) (sym e) rest
      ]

  -- A request counted in a bucket leaves the lockouts.
  counted-Holds :
      (u : ℕ) (key : List ℕ) (b : Bucket) (bs : Buckets)
      → u ≤ t
      → (get_bucket_locked key u bs).0 ≡ some b
      → Holds (LockedAt t) k bs
      → Holds
          (LockedAt t)
          k
          (put key (record b { count = b.count + 1 }) (get_bucket_locked key u bs).1)
  counted-Holds u key b bs le e h =
      let kept = LockedAt-IsKept u t le in
      elim (Bool-cases (bytes_eq key k)) [
        | inl same ↦
            let key_is : key ≡ k = (bytes_eq_iff key k).0 same in
            let (c, found, l) = get_bucket_locked_found u (LockedAt t) kept k bs ne h in
            let one : c ≡ b = some-injective c b (
              sym (ap (λ r. r.0) found)
              ∙ ap (λ x. (get_bucket_locked x u bs).0) (sym key_is)
              ∙ e) in
            subst
              (λ x.
                Holds (LockedAt t) k
                  (put x (record b { count = b.count + 1 }) (get_bucket_locked key u bs).1))
              (sym key_is) (put-Holds_self (LockedAt t) k _ _ (subst (LockedAt t) one l))
        | inr other ↦
            put-Holds_other (LockedAt t) k key _ _ other
              (get_bucket_locked-Holds u (LockedAt t) kept k key bs h)
      ]

  count_all-Holds :
      (u : ℕ) (keys : List (List ℕ)) (bs : Buckets)
      → u ≤ t
      → Holds (LockedAt t) k bs
      → Holds (LockedAt t) k (count_all keys u bs).1
  unfolding count_all
  count_all-Holds u [] bs le h = h
  count_all-Holds u (key ∷ keys) bs le h = elim (Option-cases (get_bucket_locked key u bs).0) [
    | inl e ↦
        subst (λ r. Holds (LockedAt t) k r.1) (sym (count_none key keys u bs e))
          (count_all-Holds u keys _ le
            (get_bucket_locked-Holds u (LockedAt t) (LockedAt-IsKept u t le) k key bs h))
    | inr (b, e) ↦
        subst (Holds (LockedAt t) k) (sym (count_some key keys u bs b e))
          (count_all-Holds u keys _ le (counted-Holds u key b bs le e h))
  ]

  login_rate_limit-Holds :
      (u : ℕ) (keys : List (List ℕ)) (bs : Buckets)
      → u ≤ t
      → Holds (LockedAt t) k bs
      → Holds (LockedAt t) k (login_rate_limit keys u bs).1
  unfolding login_rate_limit
  login_rate_limit-Holds u keys bs le h =
      let looked = any_locked-Holds u keys bs le h in
      elim (Bool-cases (any_locked keys u bs).0) [
        | inl l ↦ rw l looked
        | inr l ↦ rw l (count_all-Holds u keys (any_locked keys u bs).1 le looked)
      ]

  reset_login_counter-Holds :
      (keys : List (List ℕ)) (bs : Buckets)
      → All (λ key. (key ≡ codes "global") ⊎ (key ≢ k)) keys
      → Holds (LockedAt t) k bs
      → Holds (LockedAt t) k (reset_login_counter keys bs)
  unfolding reset_login_counter
  reset_login_counter-Holds [] bs a h = h
  reset_login_counter-Holds (key ∷ keys) bs (a, others) h =
      elim (Bool-cases (bytes_eq key (codes "global"))) [
        | inl g ↦ rw g (reset_login_counter-Holds keys bs others h)
        | inr g ↦
            let other : bytes_eq key k ≡ false =
              ground (arith, a, bytes_eq_iff key k, bytes_eq_iff key (codes "global")) in
            elim (Option-cases (get key bs)) [
              | inl e ↦ rw (g, e) (reset_login_counter-Holds keys bs others h)
              | inr (b, e) ↦
                  rw (g, e)
                    (reset_login_counter-Holds keys _ others
                      (put-Holds_other (LockedAt t) k key _ bs other h))
            ]
      ]

module _ (now t : ℕ) (k : List ℕ) (ne : k ≢ []) (is : t + 1 ≡ now + lockout_dur) where
  act-Holds :
      (e : LoginEvent) (bs : Buckets)
      → IsMeanwhile k now e
      → Holds (LockedAt t) k bs
      → Holds (LockedAt t) k (act e bs)
  unfolding act
  act-Holds (requested keys u) bs m h =
      login_rate_limit-Holds t k ne u keys bs (omega (arith, m, is)) h
  act-Holds (failed keys u) bs m h =
      record_login_failure-LockedAt u t k ne (omega (arith, m, is)) (omega (arith, m, is)) keys bs h
  act-Holds (reset keys) bs m h = reset_login_counter-Holds t k ne keys bs m h

  run-Holds :
      (es : List LoginEvent) (bs : Buckets)
      → All (IsMeanwhile k now) es
      → Holds (LockedAt t) k bs
      → Holds (LockedAt t) k (run es bs)
  unfolding run
  run-Holds [] bs m h = h
  run-Holds (e ∷ es) bs (m, ms) h = run-Holds es (act e bs) ms (act-Holds e bs m h)

LockedAt-earlier :
    (u t : ℕ) (k : List ℕ) (bs : Buckets)
    → u ≤ t
    → Holds (LockedAt t) k bs
    → Holds (LockedAt u) k bs
LockedAt-earlier u t k bs le (b, e, l) = (b, e, omega (arith, l, le))

-- A failure that brings a bucket to its limit within the bucket's window locks it: every request
-- with that bucket's key in the fifteen minutes from the failure is refused, whatever requests and
-- failures of those fifteen minutes and resets of other keys are in between, whatever other keys
-- they have and however full the map of buckets is.
pub login_rate_limit-record_login_failure :
    (now u : ℕ) (k : List ℕ) (keys' keys : List (List ℕ)) (es : List LoginEvent) (bs : Buckets)
    → k ≢ []
    → now ≤ u
    → u < now + lockout_dur
    → Any (λ key. k ≡ key) keys'
    → All (IsMeanwhile k now) es
    → Any (λ key. k ≡ key) keys
    → Holds (IsReady k now) k bs
    → (login_rate_limit keys u (run es (record_login_failure keys' now bs))).0 ≡ true
login_rate_limit-record_login_failure now u k keys' keys es bs ne le late m between m' h =
    let t = (now + lockout_dur) - 1 in
    let is : t + 1 ≡ now + lockout_dur = omega arith in
    let locked = record_login_failure-IsReady now t k ne (omega arith) (omega arith) keys' bs m h in
    login_rate_limit-LockedAt u k keys _ ne m'
      (LockedAt-earlier u t k _ (omega arith) (run-Holds now t k ne is es _ between locked))
