-- ===== src/Base/Sorting.antt =====
-- What sort.Slice and sort.Strings promise: a rearrangement in ascending order.
use mathlib.Core.List.{List, [], ◌∷◌}
use mathlib.Core.Logic.{inl, inr, ◌↔◌}
use tacacs_plus_go.Base.Lists.{All}
use tacacs_plus_go.Base.Maps.{Any}

-- One list is a rearrangement of the other.
pub data Arranged {A : Type 0} : List A → List A → Type 0 where
  nil_nil : Arranged [] []
  cons_cons : {x : A} {xs ys : List A} → Arranged xs ys → Arranged (x ∷ xs) (x ∷ ys)
  swap_front : {x y : A} {xs : List A} → Arranged (x ∷ y ∷ xs) (y ∷ x ∷ xs)
  chained : {xs ys zs : List A} → Arranged xs ys → Arranged ys zs → Arranged xs zs

abbrev pub IsAscending : {A : Type 0} → (A → A → Type 0) → List A → Type 0
IsAscending Le [] = Unit
IsAscending Le (x ∷ xs) = All (Le x) xs × IsAscending Le xs

pub record IsSort {A : Type 0} (Le : A → A → Type 0) (sort : List A → List A) : Type 0 where
  pub arranged : (xs : List A) → Arranged (sort xs) xs
  pub ascending : (xs : List A) → IsAscending Le (sort xs)

module _ {A : Type 0} where
  pub Any-Arranged : (P : A → Type 0) {xs ys : List A} → Arranged xs ys → Any P xs → Any P ys
  Any-Arranged P nil_nil h = h
  Any-Arranged P (cons_cons a) (inl p) = inl p
  Any-Arranged P (cons_cons a) (inr h) = inr (Any-Arranged P a h)
  Any-Arranged P swap_front (inl p) = inr (inl p)
  Any-Arranged P swap_front (inr (inl p)) = inl p
  Any-Arranged P swap_front (inr (inr h)) = inr (inr h)
  Any-Arranged P (chained a b) h = Any-Arranged P b (Any-Arranged P a h)

  pub Arranged-refl : (xs : List A) → Arranged xs xs
  Arranged-refl [] = nil_nil
  Arranged-refl (x ∷ xs) = cons_cons (Arranged-refl xs)

  pub Arranged-sym : {xs ys : List A} → Arranged xs ys → Arranged ys xs
  Arranged-sym nil_nil = nil_nil
  Arranged-sym (cons_cons a) = cons_cons (Arranged-sym a)
  Arranged-sym swap_front = swap_front
  Arranged-sym (chained a b) = chained (Arranged-sym b) (Arranged-sym a)

  pub IsSort-Any :
      (Le : A → A → Type 0) (sort : List A → List A)
      → IsSort Le sort
      → (P : A → Type 0) (xs : List A) → Any P (sort xs) ↔ Any P xs
  IsSort-Any Le sort s P xs =
      (Any-Arranged P (s.arranged xs), Any-Arranged P (Arranged-sym (s.arranged xs)))

  pub All-Arranged : (P : A → Type 0) {xs ys : List A} → Arranged xs ys → All P xs → All P ys
  All-Arranged P nil_nil h = h
  All-Arranged P (cons_cons a) h = (h.0, All-Arranged P a h.1)
  All-Arranged P swap_front h = (h.1.0, (h.0, h.1.1))
  All-Arranged P (chained a b) h = All-Arranged P b (All-Arranged P a h)
