-- ===== src/Swm/Tests.antt =====
-- Runs of the limits of pkg/swm on concrete buckets.
use tacacs_plus_go.Base.{
  List, [], arith, bytes_eq, bytes_eq_iff, codes, false, get, inl, inr, refl, true, ℕ, ◌∷◌, ◌≡◌,
  ◌≢◌,
}
use tacacs_plus_go.Swm.RateLimit.{
  Buckets, limit, login_rate_limit, record_login_failure, reset_login_counter,
}
use tacacs_plus_go.Swm.RateLimit.Kept.{Holds}
use tacacs_plus_go.Swm.RateLimit.Lockout.{IsReady}
use tacacs_plus_go.Swm.RateLimit.Events.{
  LoginEvent, failed, login_rate_limit-record_login_failure, requested, reset, run,
}
use tacacs_plus_go.Swm.RateLimit.Memory.{IsBounded, limits-IsBounded}

-- The fourth failure of an account was recorded ten seconds after its window began.
abbrev buckets : Buckets
buckets =
    (codes "global", record { count = 4; window_start = 0; fail_count = 4; locked_until = 0 })
    ∷ (codes "user:bob", record { count = 4; window_start = 0; fail_count = 4; locked_until = 0 })
    ∷ []

bob-IsReady : Holds (IsReady (codes "user:bob") 10000000000) (codes "user:bob") buckets
unfolding get limit bytes_eq
bob-IsReady = (_, refl, (omega arith, omega arith))

differs : (a b : List ℕ) → bytes_eq a b ≡ false → a ≢ b
differs a b ne e = absurd (cc (ne, (bytes_eq_iff a b).1 e))

-- Bob is refused, fails and is refused again, and ann's counters are reset.
abbrev events : List LoginEvent
events =
    requested (codes "ip:::2" ∷ codes "global" ∷ codes "user:bob" ∷ []) 20000000000
    ∷ failed (codes "ip:::3" ∷ codes "global" ∷ codes "user:bob" ∷ []) 30000000000
    ∷ reset (codes "ip:::3" ∷ codes "global" ∷ codes "user:ann" ∷ [])
    ∷ []

login_rate_limit-record_login_failure_example :
    (login_rate_limit (codes "ip:::1" ∷ codes "global" ∷ codes "user:bob" ∷ []) 900000000000 (
      run events (
        record_login_failure
          (codes "ip:::2" ∷ codes "global" ∷ codes "user:bob" ∷ [])
          10000000000
          buckets))).0
    ≡ true
unfolding bytes_eq
login_rate_limit-record_login_failure_example =
    login_rate_limit-record_login_failure 10000000000 900000000000 (codes "user:bob")
      (codes "ip:::2" ∷ codes "global" ∷ codes "user:bob" ∷ [])
      (codes "ip:::1" ∷ codes "global" ∷ codes "user:bob" ∷ []) events buckets (λ e. cc e)
      (omega arith) (omega arith) (inr (inr (inl refl)))
      (
        (omega arith, omega arith),
        (
          (omega arith, omega arith),
          ((inr (differs _ _ refl), (inl refl, (inr (differs _ _ refl), tt))), tt),
        ),
      )
      (inr (inr (inl refl))) bob-IsReady

limits-IsBounded_example :
    IsBounded (login_rate_limit (codes "ip:::2" ∷ codes "global" ∷ []) 10000000000 buckets).1
    × IsBounded (record_login_failure (codes "ip:::2" ∷ codes "global" ∷ []) 10000000000 buckets)
    × IsBounded (reset_login_counter (codes "ip:::2" ∷ codes "global" ∷ []) buckets)
limits-IsBounded_example =
    limits-IsBounded (codes "ip:::2" ∷ codes "global" ∷ []) 10000000000 buckets (omega arith)
