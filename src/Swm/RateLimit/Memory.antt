-- ===== src/Swm/RateLimit/Memory.antt =====
-- The number of buckets of pkg/swm/http/ratelimit.go stays bounded.
use tacacs_plus_go.Base.{
  List, Option-cases, [], arith, bytes_eq_refl, get, get-put, inl, inr, length, put, some, suc, ℕ,
  ◌+◌, ◌∷◌, ◌≡◌, ◌≤◌,
}
use tacacs_plus_go.Swm.RateLimit.{
  Bucket, Buckets, any_locked, count_all, fail, get_bucket_locked, login_rate_limit,
  max_rate_buckets, new_bucket, record_login_failure, refresh, reset_login_counter, sweep,
}

length-put_le : (k : List ℕ) (b : Bucket) (bs : Buckets) → length (put k b bs) ≤ suc (length bs)
unfolding put
length-put_le k b [] = omega arith
length-put_le k b ((j, c) ∷ bs) = ground (arith, length-put_le k b bs)

length-put_present :
    (k : List ℕ) (b c : Bucket) (bs : Buckets) → get k bs ≡ some c → length (put k b bs) ≡ length bs
unfolding get put
length-put_present k b c [] h = absurd (cc h)
length-put_present k b c ((j, d) ∷ bs) h = ground (arith, length-put_present k b c bs)

length-sweep : (now : ℕ) (bs : Buckets) → length (sweep now bs) ≤ length bs
unfolding sweep
length-sweep now [] = omega arith
length-sweep now ((k, b) ∷ bs) = ground (arith, length-sweep now bs)

abbrev pub IsBounded : Buckets → Type 0
IsBounded bs = length bs ≤ max_rate_buckets

get_bucket_locked-IsBounded :
    (key : List ℕ) (now : ℕ) (bs : Buckets)
    → IsBounded bs
    → IsBounded (get_bucket_locked key now bs).1
unfolding get_bucket_locked new_bucket
get_bucket_locked-IsBounded key now bs h = elim (Option-cases (get key bs)) [
  | inl n ↦ ground (
    arith,
    length-put_le key (record { count = 0; window_start = now; fail_count = 0; locked_until = 0 })
        bs,
    length-put_le key (record { count = 0; window_start = now; fail_count = 0; locked_until = 0 })
        (sweep now bs),
    length-sweep now bs,
  )
  | inr (b, g) ↦ ground (arith, length-put_present key (refresh now b) b bs g)
]

-- The bucket that a look returns is in the map.
get_bucket_locked_present :
    (key : List ℕ) (now : ℕ) (bs : Buckets) (b : Bucket)
    → (get_bucket_locked key now bs).0 ≡ some b
    → get key (get_bucket_locked key now bs).1 ≡ some b
unfolding get_bucket_locked new_bucket
get_bucket_locked_present key now bs b h = elim (Option-cases (get key bs)) [
  | inl n ↦
      ground (arith, bytes_eq_refl key, get-put key key b bs, get-put key key b (sweep now bs))
  | inr (c, g) ↦ ground (arith, bytes_eq_refl key, get-put key key (refresh now c) bs)
]

put-IsBounded :
    (key : List ℕ) (now : ℕ) (bs : Buckets) (b c : Bucket)
    → IsBounded bs
    → (get_bucket_locked key now bs).0 ≡ some b
    → IsBounded (put key c (get_bucket_locked key now bs).1)
put-IsBounded key now bs b c h e = omega (
  arith,
  length-put_present key c b (get_bucket_locked key now bs).1
      (get_bucket_locked_present key now bs b e),
  get_bucket_locked-IsBounded key now bs h,
)

any_locked-IsBounded :
    (keys : List (List ℕ)) (now : ℕ) (bs : Buckets)
    → IsBounded bs
    → IsBounded (any_locked keys now bs).1
unfolding any_locked
any_locked-IsBounded [] now bs h = h
any_locked-IsBounded (key ∷ keys) now bs h =
    let looked = get_bucket_locked-IsBounded key now bs h in
    ground (arith, looked, any_locked-IsBounded keys now (get_bucket_locked key now bs).1 looked)

count_all-IsBounded :
    (keys : List (List ℕ)) (now : ℕ) (bs : Buckets)
    → IsBounded bs
    → IsBounded (count_all keys now bs).1
unfolding count_all
count_all-IsBounded [] now bs h = h
count_all-IsBounded (key ∷ keys) now bs h =
    let looked = get_bucket_locked-IsBounded key now bs h in
    elim (Option-cases (get_bucket_locked key now bs).0) [
      | inl e ↦
          ground (arith, e, count_all-IsBounded keys now (get_bucket_locked key now bs).1 looked)
      | inr (b, e) ↦
          let next = put-IsBounded key now bs b (record b { count = b.count + 1 }) h e in
          ground (
            arith,
            e,
            count_all-IsBounded keys now
                (put key (record b { count = b.count + 1 }) (get_bucket_locked key now bs).1) next,
          )
    ]

record_login_failure-IsBounded :
    (keys : List (List ℕ)) (now : ℕ) (bs : Buckets)
    → IsBounded bs
    → IsBounded (record_login_failure keys now bs)
unfolding record_login_failure
record_login_failure-IsBounded [] now bs h = h
record_login_failure-IsBounded (key ∷ keys) now bs h =
    let looked = get_bucket_locked-IsBounded key now bs h in
    elim (Option-cases (get_bucket_locked key now bs).0) [
      | inl e ↦ ground (
        arith,
        e,
        record_login_failure-IsBounded keys now (get_bucket_locked key now bs).1 looked,
      )
      | inr (b, e) ↦
          let next = put-IsBounded key now bs b (fail key now b) h e in
          ground (
            arith,
            e,
            record_login_failure-IsBounded keys now
                (put key (fail key now b) (get_bucket_locked key now bs).1) next,
          )
    ]

reset_login_counter-IsBounded :
    (keys : List (List ℕ)) (bs : Buckets) → IsBounded bs → IsBounded (reset_login_counter keys bs)
unfolding reset_login_counter
reset_login_counter-IsBounded [] bs h = h
reset_login_counter-IsBounded (key ∷ keys) bs h = elim (Option-cases (get key bs)) [
  | inl n ↦ ground (arith, reset_login_counter-IsBounded keys bs h)
  | inr (b, e) ↦
      let next = record b { fail_count = 0; locked_until = 0 } in
      let l = length-put_present key next b bs e in
      ground (
        arith,
        reset_login_counter-IsBounded keys bs h,
        reset_login_counter-IsBounded keys (put key next bs) (omega arith),
      )
]

-- No request makes the map of buckets larger than maxRateBuckets, whatever keys it has: neither the
-- limiter, nor the record of a failure, nor the reset after a success.
pub limits-IsBounded :
    (keys : List (List ℕ)) (now : ℕ) (bs : Buckets)
    → IsBounded bs
    → IsBounded (login_rate_limit keys now bs).1
      × IsBounded (record_login_failure keys now bs)
      × IsBounded (reset_login_counter keys bs)
unfolding login_rate_limit
limits-IsBounded keys now bs h =
    let looked = any_locked-IsBounded keys now bs h in
    (
      ground (arith, looked, count_all-IsBounded keys now (any_locked keys now bs).1 looked),
      record_login_failure-IsBounded keys now bs h,
      reset_login_counter-IsBounded keys bs h,
    )
