-- ===== src/Base/Maps.antt =====
-- Go maps keyed by strings, as association lists; and strings.Join, Any.
use Prim.Native.Nat.{ℕ}
use mathlib.Core.Bool.{Bool, true, false, ◌||◌}
use mathlib.Core.List.{List, [], ◌∷◌}
use mathlib.Core.Logic.{◌⊎◌, inl, inr, ◌↔◌}
use mathlib.Core.Option
use mathlib.Core.Option.{Option, none, some, some-injective}
use mathlib.Core.Path.{◌≡◌, refl, sym, subst}
use native.Mathlib.Omega.{arith}
use tacacs_plus_go.Base.Lists.{All}
use tacacs_plus_go.Base.Tests.{if◌then◌else◌, Bool-cases}
use tacacs_plus_go.Base.Bytes.{bytes_eq, bytes_eq_iff}

abbrev pub Any {ℓ} : {A : Type ℓ} → (A → Type 0) → List A → Type 0
Any P [] = ⊥
Any P (x ∷ xs) = P x ⊎ Any P xs

module _ {ℓ} {V : Type ℓ} where
  unfoldable pub get : List ℕ → List (List ℕ × V) → Option V
  get k [] = none
  get k ((j, v) ∷ m) = if bytes_eq j k then some v else get k m

  unfoldable pub put : List ℕ → V → List (List ℕ × V) → List (List ℕ × V)
  put k v [] = (k, v) ∷ []
  put k v ((j, u) ∷ m) = if bytes_eq j k then (k, v) ∷ m else (j, u) ∷ put k v m

  pub get-put :
      (k j : List ℕ) (v : V) (m : List (List ℕ × V))
      → get j (put k v m) ≡ (if bytes_eq k j then some v else get j m)
  unfolding get put
  get-put k j v [] = refl
  get-put k j v ((i, u) ∷ m) =
      ground (arith, bytes_eq_iff k j, bytes_eq_iff i k, bytes_eq_iff i j, get-put k j v m)

  -- The value of a key and the entries of the map.
  pub get-Any :
      (P : List ℕ × V → Type 0) (k : List ℕ) (v : V) (m : List (List ℕ × V))
      → get k m ≡ some v
      → P (k, v)
      → Any P m
  unfolding get
  get-Any P k v [] e p = absurd (cc e)
  get-Any P k v ((j, u) ∷ m) e p = elim (Bool-cases (bytes_eq j k)) [
    | inl same ↦ inl (
        subst (λ x. P (x, u)) (sym ((bytes_eq_iff j k).0 same))
          (subst (λ x. P (k, x)) (sym (some-injective u v (rw same at e))) p))
    | inr other ↦ inr (get-Any P k v m (rw other at e) p)
  ]

  pub All-get :
      (P : List ℕ × V → Type 0) (k : List ℕ) (v : V) (m : List (List ℕ × V))
      → All P m
      → get k m ≡ some v
      → P (k, v)
  unfolding get
  All-get P k v [] a e = absurd (cc e)
  All-get P k v ((j, u) ∷ m) a e = elim (Bool-cases (bytes_eq j k)) [
    | inl same ↦
        subst (λ x. P (k, x)) (some-injective u v (rw same at e))
          (subst (λ x. P (x, u)) ((bytes_eq_iff j k).0 same) a.0)
    | inr other ↦ All-get P k v m a.1 (rw other at e)
  ]

  pub All-put :
      (P : List ℕ × V → Type 0) (k : List ℕ) (v : V) (m : List (List ℕ × V))
      → All P m
      → P (k, v)
      → All P (put k v m)
  unfolding put
  All-put P k v [] a p = (p, tt)
  All-put P k v ((j, u) ∷ m) a p =
      elim (bytes_eq j k) as (λ b. All P (if b then (k, v) ∷ m else (j, u) ∷ put k v m)) [
        | true ↦ (p, a.1)
        | false ↦ (a.0, All-put P k v m a.1 p)
      ]

module _ {ℓ κ} {V : Type ℓ} {W : Type κ} where
  -- A map with a function applied to each value.
  unfoldable pub map_values : (V → W) → List (List ℕ × V) → List (List ℕ × W)
  map_values f [] = []
  map_values f ((k, v) ∷ m) = (k, f v) ∷ map_values f m

  pub get-map_values :
      (f : V → W) (k : List ℕ) (m : List (List ℕ × V))
      → get k (map_values f m) ≡ Option.map f (get k m)
  unfolding get map_values
  get-map_values f k [] = refl
  get-map_values f k ((j, v) ∷ m) = ground (arith, get-map_values f k m)

-- for _, x := range xs { if test(x) { found = true; break } }
unfoldable pub exists {ℓ} : {A : Type ℓ} → (A → Bool) → List A → Bool
exists test [] = false
exists test (x ∷ xs) = test x || exists test xs

pub exists_iff {ℓ} :
    {A : Type ℓ} (test : A → Bool) (xs : List A)
    → (exists test xs ≡ true) ↔ Any (λ x. test x ≡ true) xs
unfolding exists
exists_iff test [] = ((λ e. cc), λ h. elim h [ ])
exists_iff test (x ∷ xs) =
    let ih = exists_iff test xs in
    (
      (λ e. elim (Bool-cases (test x)) [
        | inl t ↦ inl t
        | inr t ↦ inr (ih.0 (ground (arith, e, t)))
      ]),
      (λ h. elim h [
        | inl t ↦ ground (arith, t)
        | inr t ↦ ground (arith, ih.1 t, Bool-cases (test x))
      ]),
    )
