-- ===== src/Base/Store.antt =====
-- A store of objects addressed by their position, and a table keyed by numbers.
use Prim.Native.Nat.{ℕ, zero, suc, ◌<◌}
use mathlib.Core.List.{List, [], ◌∷◌, ◌++◌}
use mathlib.Core.Logic.{◌≢◌}
use mathlib.Core.Option.{Option, none, some}
use mathlib.Core.Path.{◌≡◌, refl, ap}
use native.Mathlib.Omega.{arith}
use tacacs_plus_go.Base.Tests.{◌==◌, if◌then◌else◌}
use tacacs_plus_go.Base.Lists.{length}

module _ {ℓ} {A : Type ℓ} where
  unfoldable pub get_elem? : List A → ℕ → Option A
  get_elem? [] i = none
  get_elem? (x ∷ xs) zero = some x
  get_elem? (x ∷ xs) (suc i) = get_elem? xs i

  -- A write out of bounds changes nothing.
  unfoldable pub set : List A → ℕ → A → List A
  set [] i v = []
  set (x ∷ xs) zero v = v ∷ xs
  set (x ∷ xs) (suc i) v = x ∷ set xs i v

  pub get_elem?-lt : (xs : List A) (i : ℕ) {v : A} → get_elem? xs i ≡ some v → i < length xs
  unfolding get_elem?
  get_elem?-lt [] i h = absurd (ground (arith, h))
  get_elem?-lt (x ∷ xs) zero h = omega arith
  get_elem?-lt (x ∷ xs) (suc i) h = omega (arith, get_elem?-lt xs i h)

  pub get_elem?-set_self :
      (xs : List A) (i : ℕ) (v : A) → i < length xs → get_elem? (set xs i v) i ≡ some v
  unfolding get_elem? set
  get_elem?-set_self [] i v h = absurd (omega arith)
  get_elem?-set_self (x ∷ xs) zero v h = refl
  get_elem?-set_self (x ∷ xs) (suc i) v h = get_elem?-set_self xs i v (omega arith)

  pub get_elem?-set_ne :
      (xs : List A) (i j : ℕ) (v : A) → i ≢ j → get_elem? (set xs i v) j ≡ get_elem? xs j
  unfolding get_elem? set
  get_elem?-set_ne [] i j v h = refl
  get_elem?-set_ne (x ∷ xs) zero zero v h = absurd (h refl)
  get_elem?-set_ne (x ∷ xs) zero (suc j) v h = refl
  get_elem?-set_ne (x ∷ xs) (suc i) zero v h = refl
  get_elem?-set_ne (x ∷ xs) (suc i) (suc j) v h = get_elem?-set_ne xs i j v (λ e. h (ap suc e))

  pub get_elem?-append_old :
      (xs : List A) (v : A) (i : ℕ) → i < length xs → get_elem? (xs ++ (v ∷ [])) i ≡ get_elem? xs i
  unfolding get_elem?
  get_elem?-append_old [] v i h = absurd (omega arith)
  get_elem?-append_old (x ∷ xs) v zero h = refl
  get_elem?-append_old (x ∷ xs) v (suc i) h = get_elem?-append_old xs v i (omega arith)

  pub get_elem?-append_new : (xs : List A) (v : A) → get_elem? (xs ++ (v ∷ [])) (length xs) ≡ some v
  unfolding get_elem?
  get_elem?-append_new [] v = refl
  get_elem?-append_new (x ∷ xs) v = get_elem?-append_new xs v

-- A table of addresses by number: Go's map[uint32]*T.
unfoldable pub find : ℕ → List (ℕ × ℕ) → Option ℕ
find k [] = none
find k ((j, a) ∷ m) = if j == k then some a else find k m

unfoldable pub delete : ℕ → List (ℕ × ℕ) → List (ℕ × ℕ)
delete k [] = []
delete k ((j, a) ∷ m) = let rest = delete k m in if j == k then rest else (j, a) ∷ rest

pub find-delete :
    (k j : ℕ) (m : List (ℕ × ℕ)) → find j (delete k m) ≡ (if k == j then none else find j m)
unfolding find delete
find-delete k j [] = ground arith
find-delete k j ((i, a) ∷ m) = ground (arith, find-delete k j m)

pub find-delete_absent : (k j : ℕ) (m : List (ℕ × ℕ)) → find j m ≡ none → find j (delete k m) ≡ none
find-delete_absent k j m h = ground (arith, find-delete k j m)

pub find-delete_self : (k : ℕ) (m : List (ℕ × ℕ)) → find k (delete k m) ≡ none
find-delete_self k m = ground (arith, find-delete k k m)
