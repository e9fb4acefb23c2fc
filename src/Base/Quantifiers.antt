-- ===== src/Base/Quantifiers.antt =====
-- What holds of every element of a list, and of some element.
use mathlib.Core.List.{List, [], ◌∷◌, ◌++◌}
use mathlib.Core.Logic.{◌⊎◌, ◌↔◌, inl, inr}
use mathlib.Core.Path.{◌≡◌, refl}
use tacacs_plus_go.Base.Lists.{All}
use tacacs_plus_go.Base.Maps.{Any}

pub All-snoc {ℓ} :
    {A : Type ℓ} (P : A → Type 0) (xs : List A) (x : A) → All P xs → P x → All P (xs ++ (x ∷ []))
All-snoc P [] x a p = (p, tt)
All-snoc P (y ∷ xs) x a p = (a.0, All-snoc P xs x a.1 p)

pub Any-prepend {ℓ} : {A : Type ℓ} (P : A → Type 0) (xs ys : List A) → Any P ys → Any P (xs ++ ys)
Any-prepend P [] ys h = h
Any-prepend P (x ∷ xs) ys h = inr (Any-prepend P xs ys h)

pub Any-append {ℓ} : {A : Type ℓ} (P : A → Type 0) (xs ys : List A) → Any P xs → Any P (xs ++ ys)
Any-append P [] ys h = elim h [ ]
Any-append P (x ∷ xs) ys (inl p) = inl p
Any-append P (x ∷ xs) ys (inr h) = inr (Any-append P xs ys h)

pub All-imp {ℓ} :
    {A : Type ℓ} (P Q : A → Type 0) (xs : List A) → ((x : A) → P x → Q x) → All P xs → All Q xs
All-imp P Q [] f a = tt
All-imp P Q (x ∷ xs) f a = (f x a.0, All-imp P Q xs f a.1)

-- An element of the list that has both properties.
pub All-Any {ℓ} :
    {A : Type ℓ} (P Q : A → Type 0) (xs : List A) → All P xs → Any Q xs → (x : A) × P x × Q x
All-Any P Q [] a h = elim h [ ]
All-Any P Q (x ∷ xs) a (inl q) = (x, a.0, q)
All-Any P Q (x ∷ xs) a (inr h) = All-Any P Q xs a.1 h

pub Any-self : {A : Type 0} (xs : List A) → All (λ (x : A). Any (λ (y : A). y ≡ x) xs) xs
Any-self [] = tt
Any-self (x ∷ xs) = (inl refl, All-imp _ _ xs (λ y h. inr h) (Any-self xs))

pub Any-imp {ℓ} :
    {A : Type ℓ} (P Q : A → Type 0) (xs : List A) → ((x : A) → P x → Q x) → Any P xs → Any Q xs
Any-imp P Q [] f h = h
Any-imp P Q (x ∷ xs) f (inl p) = inl (f x p)
Any-imp P Q (x ∷ xs) f (inr h) = inr (Any-imp P Q xs f h)

pub Any-append_iff {ℓ} :
    {A : Type ℓ} (P : A → Type 0) (xs ys : List A) → Any P (xs ++ ys) ↔ (Any P xs ⊎ Any P ys)
Any-append_iff P [] ys = ((λ h. inr h), (λ h. elim h [ inl p ↦ elim p [ ] | inr q ↦ q ]))
Any-append_iff P (x ∷ xs) ys = (
  (λ h. elim h [
    | inl p ↦ inl (inl p)
    | inr t ↦ elim ((Any-append_iff P xs ys).0 t) [ inl p ↦ inl (inr p) | inr q ↦ inr q ]
  ]),
  (λ h. elim h [
    | inl (inl p) ↦ inl p
    | inl (inr p) ↦ inr ((Any-append_iff P xs ys).1 (inl p))
    | inr q ↦ inr ((Any-append_iff P xs ys).1 (inr q))
  ]),
)
