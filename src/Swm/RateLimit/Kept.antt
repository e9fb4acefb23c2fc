-- ===== src/Swm/RateLimit/Kept.antt =====
-- What a look at one bucket leaves of another (pkg/swm/http/ratelimit.go).
use tacacs_plus_go.Base.{
  Bool-cases, List, Option-cases, [], ap, arith, bytes_eq, bytes_eq_iff, bytes_eq_refl, false, get,
  get-put, inl, inr, none, put, refl, some, subst, sym, ℕ, ◌∙◌, ◌∷◌, ◌≡◌, ◌≢◌, ◌⊎◌,
}
use tacacs_plus_go.Swm.RateLimit.{
  Bucket, Buckets, expired, get_bucket_locked, new_bucket, refresh, sweep,
}
use mathlib.Core.Option.{some-injective}

-- The bucket of a key has a property.
abbrev pub Holds : (Bucket → Type 0) → List ℕ → Buckets → Type 0
Holds P k bs = (b : Bucket) × (get k bs ≡ some b) × P b

-- A property that a look at a bucket keeps, and that keeps the bucket from being swept.
pub record IsKept (now : ℕ) (P : Bucket → Type 0) : Type 0 where
  pub by_refresh : (b : Bucket) → P b → P (refresh now b)
  pub by_sweep : (b : Bucket) → P b → expired now b ≡ false

pub put-Holds_self :
    (P : Bucket → Type 0) (k : List ℕ) (b : Bucket) (bs : Buckets) → P b → Holds P k (put k b bs)
put-Holds_self P k b bs p = (b, get-put k k b bs ∙ rw (bytes_eq_refl k) refl, p)

pub put-Holds_other :
    (P : Bucket → Type 0) (k key : List ℕ) (b : Bucket) (bs : Buckets)
    → bytes_eq key k ≡ false
    → Holds P k bs
    → Holds P k (put key b bs)
put-Holds_other P k key b bs ne (c, g, p) = (c, get-put key k b bs ∙ rw ne g, p)

-- The buckets that a look at a bucket leaves.
get_bucket_locked_state :
    (key : List ℕ) (now : ℕ) (bs : Buckets)
    → let out = (get_bucket_locked key now bs).1 in
      ((out ≡ bs) ⊎ ((b : Bucket) × (get key bs ≡ some b) × (out ≡ put key (refresh now b) bs)))
      ⊎ ((get key bs ≡ none)
          × (((out ≡ sweep now bs) ⊎ (out ≡ (new_bucket key now bs).1))
              ⊎ (out ≡ (new_bucket key now (sweep now bs)).1)))
unfolding get_bucket_locked
get_bucket_locked_state key now bs = elim (Option-cases (get key bs)) [
  | inl n ↦ elim (Bool-cases (bytes_eq key [])) [
    | inl e ↦ inl (inl (ground arith))
    | inr ne ↦ inr (n, ground arith)
  ]
  | inr (b, g) ↦ elim (Bool-cases (bytes_eq key [])) [
    | inl e ↦ inl (inl (ground arith))
    | inr ne ↦ inl (inr (b, g, ground arith))
  ]
]

module _ (now : ℕ) (P : Bucket → Type 0) (kept : IsKept now P) (k : List ℕ) where
  get-sweep : (bs : Buckets) (b : Bucket) → P b → get k bs ≡ some b → get k (sweep now bs) ≡ some b
  unfolding get sweep
  get-sweep [] b p g = g
  get-sweep ((j, c) ∷ bs) b p g = ground (arith, get-sweep bs b p, kept.by_sweep b p)

  sweep-Holds : (bs : Buckets) → Holds P k bs → Holds P k (sweep now bs)
  sweep-Holds bs (b, g, p) = (b, get-sweep bs b p g, p)

  new_bucket-Holds :
      (key : List ℕ) (bs : Buckets)
      → bytes_eq key k ≡ false
      → Holds P k bs
      → Holds P k (new_bucket key now bs).1
  unfolding new_bucket
  new_bucket-Holds key bs ne h = put-Holds_other P k key _ bs ne h

  absent_other :
      (key : List ℕ) (bs : Buckets) → Holds P k bs → get key bs ≡ none → bytes_eq key k ≡ false
  absent_other key bs (b, g, p) e = elim (Bool-cases (bytes_eq key k)) [
    | inl same ↦ absurd (cc (g, e, (bytes_eq_iff key k).0 same))
    | inr ne ↦ ne
  ]

  refreshed-Holds :
      (key : List ℕ) (b : Bucket) (bs : Buckets)
      → get key bs ≡ some b
      → Holds P k bs
      → Holds P k (put key (refresh now b) bs)
  refreshed-Holds key b bs e (c, g, p) = elim (Bool-cases (bytes_eq key k)) [
    | inl same ↦
        let key_is : key ≡ k = (bytes_eq_iff key k).0 same in
        let one : c ≡ b = some-injective c b (sym g ∙ ap (λ x. get x bs) (sym key_is) ∙ e) in
        subst (λ x. Holds P k (put x (refresh now b) bs)) (sym key_is)
          (put-Holds_self P k (refresh now b) bs (kept.by_refresh b (subst P one p)))
    | inr ne ↦ put-Holds_other P k key _ bs ne (c, g, p)
  ]

  pub get_bucket_locked-Holds :
      (key : List ℕ) (bs : Buckets) → Holds P k bs → Holds P k (get_bucket_locked key now bs).1
  get_bucket_locked-Holds key bs h = elim (get_bucket_locked_state key now bs) [
    | inl (inl e) ↦ subst (Holds P k) (sym e) h
    | inl (inr (b, g, e)) ↦ subst (Holds P k) (sym e) (refreshed-Holds key b bs g h)
    | inr (n, inl (inl e)) ↦ subst (Holds P k) (sym e) (sweep-Holds bs h)
    | inr (n, inl (inr e)) ↦
        subst (Holds P k) (sym e) (new_bucket-Holds key bs (absent_other key bs h n) h)
    | inr (n, inr e) ↦
        subst (Holds P k) (sym e)
          (new_bucket-Holds key (sweep now bs) (absent_other key bs h n) (sweep-Holds bs h))
  ]

  -- A look at the bucket itself finds it.
  pub get_bucket_locked_found :
      (bs : Buckets)
      → k ≢ []
      → Holds P k bs
      → (b : Bucket) × (get_bucket_locked k now bs ≡ (some b, put k b bs)) × P b
  unfolding get_bucket_locked
  get_bucket_locked_found bs ne (b, g, p) =
      (refresh now b, ground (arith, bytes_eq_iff k []), kept.by_refresh b p)
