-- ===== src/Swm/RateLimit.antt =====
-- pkg/swm/http/ratelimit.go: the limits on logins and registrations. Times are nanoseconds, and the
-- zero time is 0. Each function runs under the mutex of the buckets, as one step.
pub mod Events
pub mod Kept
pub mod Lockout
pub mod Memory
use tacacs_plus_go.Base.{
  Bool, List, Option, [], bytes_eq, codes, false, get, if◌then◌else◌, leb, length, ltb, none, put,
  some, true, ℕ, ◌&&◌, ◌*◌, ◌++◌, ◌+◌, ◌-◌, ◌||◌, ◌∷◌,
}

pub record Bucket : Type 0 where
  pub count : ℕ
  pub window_start : ℕ
  pub fail_count : ℕ
  pub locked_until : ℕ

abbrev pub Buckets : Type 0
Buckets = List (List ℕ × Bucket)

abbrev pub minute : ℕ
minute = 60000000000

abbrev pub login_attempt_window : ℕ
login_attempt_window = minute

abbrev pub login_attempt_max : ℕ
login_attempt_max = 5

abbrev pub global_attempt_max : ℕ
global_attempt_max = 1000

abbrev pub lockout_dur : ℕ
lockout_dur = 15 * minute

abbrev pub max_rate_buckets : ℕ
max_rate_buckets = 100000

-- The limit for a key: the bucket of the whole process has its own.
unfoldable pub limit : List ℕ → ℕ
limit key = if bytes_eq key (codes "global") then global_attempt_max else login_attempt_max

-- A bucket whose window is over starts anew, and its lockout ends no earlier than it was set to.
unfoldable pub refresh : ℕ → Bucket → Bucket
refresh now b =
    if ltb login_attempt_window (now - b.window_start)
    then (if ltb now b.locked_until
        then record b { window_start = now; count = 0 }
        else record b { window_start = now; count = 0; fail_count = 0; locked_until = 0 })
    else b

-- now.After(b.lockedUntil) && now.Sub(b.windowStart) > 2*loginAttemptWindow
unfoldable pub expired : ℕ → Bucket → Bool
expired now b = ltb b.locked_until now && ltb (2 * login_attempt_window) (now - b.window_start)

unfoldable pub sweep : ℕ → Buckets → Buckets
sweep now [] = []
sweep now ((k, b) ∷ bs) = let rest = sweep now bs in if expired now b then rest else (k, b) ∷ rest

unfoldable pub new_bucket : List ℕ → ℕ → Buckets → Option Bucket × Buckets
new_bucket key now bs =
    let b : Bucket = record { count = 0; window_start = now; fail_count = 0; locked_until = 0 } in
    (some b, put key b bs)

unfoldable pub get_bucket_locked : List ℕ → ℕ → Buckets → Option Bucket × Buckets
get_bucket_locked key now bs = if bytes_eq key [] then (none, bs) else elim (get key bs) [
  | some b ↦ let b' = refresh now b in (some b', put key b' bs)
  | none ↦
      if ltb (length bs) max_rate_buckets
      then new_bucket key now bs
      else if leb max_rate_buckets (length (sweep now bs))
      then (none, sweep now bs)
      else new_bucket key now (sweep now bs)
]

-- The first loop of LoginRateLimit: whether a bucket is locked.
unfoldable pub any_locked : List (List ℕ) → ℕ → Buckets → Bool × Buckets
any_locked [] now bs = (false, bs)
any_locked (key ∷ keys) now bs =
    let (b, bs') = get_bucket_locked key now bs in
    let rest = any_locked keys now bs' in
    elim b [ none ↦ rest | some b ↦ if ltb now b.locked_until then (true, bs') else rest ]

-- The second loop: each bucket counts the request, and one over its limit refuses it.
unfoldable pub count_all : List (List ℕ) → ℕ → Buckets → Bool × Buckets
count_all [] now bs = (false, bs)
count_all (key ∷ keys) now bs =
    let (b, bs') = get_bucket_locked key now bs in
    elim b [
      | none ↦ count_all keys now bs'
      | some b ↦
          let (locked, out) = count_all keys now (put key (record b { count = b.count + 1 }) bs') in
          (ltb (limit key) (b.count + 1) || locked, out)
    ]

-- Whether the request is refused.
unfoldable pub login_rate_limit : List (List ℕ) → ℕ → Buckets → Bool × Buckets
login_rate_limit keys now bs =
    let (locked, bs') = any_locked keys now bs in
    if locked then (true, bs') else count_all keys now bs'

-- A failure in one bucket: at the limit it locks the bucket.
unfoldable pub fail : List ℕ → ℕ → Bucket → Bucket
fail key now b =
    if leb (limit key) (b.fail_count + 1)
    then record b { fail_count = 0; locked_until = now + lockout_dur }
    else record b { fail_count = b.fail_count + 1 }

unfoldable pub record_login_failure : List (List ℕ) → ℕ → Buckets → Buckets
record_login_failure [] now bs = bs
record_login_failure (key ∷ keys) now bs =
    let (b, bs') = get_bucket_locked key now bs in
    elim b [
      | none ↦ record_login_failure keys now bs'
      | some b ↦ record_login_failure keys now (put key (fail key now b) bs')
    ]

unfoldable pub reset_login_counter : List (List ℕ) → Buckets → Buckets
reset_login_counter [] bs = bs
reset_login_counter (key ∷ keys) bs =
    if bytes_eq key (codes "global") then reset_login_counter keys bs else elim (get key bs) [
      | none ↦ reset_login_counter keys bs
      | some b ↦
          reset_login_counter keys (put key (record b { fail_count = 0; locked_until = 0 }) bs)
    ]

-- The keys of a request, from its address and its user name, which may be empty. `to_lower` is
-- strings.ToLower.
unfoldable pub rate_limit_keys : (List ℕ → List ℕ) → List ℕ → List ℕ → List (List ℕ)
rate_limit_keys to_lower ip [] = (codes "ip:" ++ ip) ∷ codes "global" ∷ []
rate_limit_keys to_lower ip (c ∷ username) =
    (codes "ip:" ++ ip) ∷ codes "global" ∷ (codes "user:" ++ to_lower (c ∷ username)) ∷ []
