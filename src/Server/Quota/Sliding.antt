-- ===== src/Server/Quota/Sliding.antt =====
-- No user gets more than the quota within any window of time (pkg/server/http/resource_limits.go).
use tacacs_plus_go.Base.{
  Bool, List, List-cases, [], arith, bytes_eq, false, if◌then◌else◌, inl, inr, length, ltb, refl,
  subst, sym, ℕ, ◌&&◌, ◌*◌, ◌+◌, ◌^◌, ◌∷◌, ◌≡◌, ◌≤◌, ◌⊎◌,
}
use tacacs_plus_go.Server.Quota.{Quota, allow_approval_create, allow_user, fresh}
use tacacs_plus_go.Server.Quota.Window.{IsWithin-entries_of}
use tacacs_plus_go.Server.Quota.Kept.{Granted, IsKept, allow_user-IsKept, answered, later-IsKept}

-- A request: the name that it carries, and its time.
abbrev pub Create : Type 0
Create = List ℕ × ℕ

-- The clock goes forward.
abbrev pub IsOrderedFrom : ℕ → List Create → Type 0
IsOrderedFrom t [] = Unit
IsOrderedFrom t (c ∷ creates) = (t ≤ c.1) × IsOrderedFrom c.1 creates

-- The time of the last request.
abbrev pub last_time : ℕ → List Create → ℕ
last_time t [] = t
last_time t (c ∷ creates) = last_time c.1 creates

-- How many of the times lie less than ten minutes before t, or after it.
unfoldable pub granted_within : ℕ → List ℕ → ℕ
granted_within t [] = 0
granted_within t (x ∷ xs) =
    let rest = granted_within t xs in if ltb t (x + 600 * 10 ^ 9) then 1 + rest else rest

granted_within-fresh : (t : ℕ) (xs : List ℕ) → granted_within t xs ≡ length (fresh t xs)
unfolding granted_within fresh
granted_within-fresh t [] = refl
granted_within-fresh t (x ∷ xs) = ground (arith, granted_within-fresh t xs)

module _ (trim_space : List ℕ → List ℕ) (user : List ℕ) where
  unfoldable pub act : Create → Granted → Granted
  act c g =
      let result = allow_approval_create trim_space c.0 c.1 g.quota in
      record {
        quota = result.1;
        times = if result.0 && bytes_eq (trim_space c.0) user then c.1 ∷ g.times else g.times;
      }

  unfoldable pub run : List Create → Granted → Granted
  run [] g = g
  run (c ∷ creates) g = run creates (act c g)

  allow_approval_create_cases :
      (name : List ℕ) (now : ℕ) (quota : Quota)
      → (allow_approval_create trim_space name now quota ≡ (false, quota))
        ⊎ (allow_approval_create trim_space name now quota ≡ allow_user (trim_space name) now quota)
  unfolding allow_approval_create
  allow_approval_create_cases name now quota = elim (List-cases (trim_space name)) [
    | inl e ↦ inl (ground (arith, e))
    | inr (c, cs, e) ↦ inr (ground (arith, e))
  ]

  act-IsKept :
      (t : ℕ) (c : Create) (g : Granted) → t ≤ c.1 → IsKept user t g → IsKept user c.1 (act c g)
  unfolding act
  act-IsKept t c g le k =
      let name = trim_space c.0 in
      elim (allow_approval_create_cases c.0 c.1 g.quota) [
        | inl e ↦
            subst (λ (r : Bool × Quota). IsKept user c.1 (answered user t c.1 name g le k r))
              (sym e) (later-IsKept user t c.1 name g le k)
        | inr e ↦
            subst (λ (r : Bool × Quota). IsKept user c.1 (answered user t c.1 name g le k r))
              (sym e) (allow_user-IsKept user t c.1 name g le k)
      ]

  run-IsKept :
      (t : ℕ) (creates : List Create) (g : Granted)
      → IsOrderedFrom t creates
      → IsKept user t g
      → IsKept user (last_time t creates) (run creates g)
  unfolding run
  run-IsKept t [] g o k = k
  run-IsKept t (c ∷ creates) g o k = run-IsKept c.1 creates (act c g) o.1 (act-IsKept t c g o.0 k)

  -- Whatever users ask for approvals, as long as the clock goes forward: within the ten minutes before
  -- the last request, or before any later instant, no user has been granted more than twenty.
  pub run-IsLimited :
      (start t : ℕ) (creates : List Create)
      → IsOrderedFrom start creates
      → last_time start creates ≤ t
      → granted_within t (run creates (record { quota = []; times = [] })).times ≤ 20
  unfolding fresh
  run-IsLimited start t creates o le =
      let g : Granted = record { quota = []; times = [] } in
      let k = run-IsKept start creates g o (record { holds = λ s h. omega arith; within = tt }) in
      omega (
        arith,
        granted_within-fresh t (run creates g).times,
        k.holds t le,
        IsWithin-entries_of (last_time start creates) t user (run creates g).quota le k.within,
      )
