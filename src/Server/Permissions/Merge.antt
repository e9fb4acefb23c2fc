-- ===== src/Server/Permissions/Merge.antt =====
-- Merged ranges: the instants that they cover, and the gaps between them.
use tacacs_plus_go.Base.{
  All, Any, IsAscending, IsSort, IsSort-Any, List, [], arith, inl, inr, subst, sym, ℕ, ◌<◌, ◌↔◌,
  ◌∷◌, ◌≡◌, ◌≤◌, ◌⊎◌,
}
use tacacs_plus_go.Server.Permissions.{
  TacacsPermissions, extend, merge_from, merge_range_times, merge_sorted,
}

abbrev pub Earlier : TacacsPermissions → TacacsPermissions → Type 0
Earlier x y = x.start_time ≤ y.start_time

-- The instant is in the range, an end of it included.
abbrev pub Covers : ℕ → TacacsPermissions → Type 0
Covers t r = (r.start_time ≤ t) × (t ≤ r.end_time)

-- The instant is strictly between the ends of the range.
abbrev pub Inside : ℕ → TacacsPermissions → Type 0
Inside t r = (r.start_time < t) × (t < r.end_time)

abbrev pub EndsBefore : TacacsPermissions → TacacsPermissions → Type 0
EndsBefore x y = x.end_time < y.start_time

-- What the merging promises: the ranges cover what the given ones cover and are apart.
pub record IsMerge (merged times : List TacacsPermissions) : Type 0 where
  pub covers : (t : ℕ) → Any (Covers t) merged ↔ Any (Covers t) times
  pub inside : (t : ℕ) → Any (Inside t) times → Any (Inside t) merged
  pub apart : IsAscending EndsBefore merged

extend-Covers :
    (t : ℕ) (c r : TacacsPermissions)
    → c.start_time ≤ r.start_time
    → r.start_time ≤ c.end_time
    → Covers t (extend c r) ↔ (Covers t c ⊎ Covers t r)
unfolding extend
extend-Covers t c r h k = ground arith

extend-Inside :
    (t : ℕ) (c r : TacacsPermissions)
    → c.start_time ≤ r.start_time
    → Inside t c ⊎ Inside t r
    → Inside t (extend c r)
unfolding extend
extend-Inside t c r h k = ground arith

-- The current range is pushed, or the next one is merged into it.
merge_from_cases :
    (c r : TacacsPermissions) (times : List TacacsPermissions)
    → ((c.end_time < r.start_time) × (merge_from c (r ∷ times) ≡ c ∷ merge_from r times))
      ⊎ ((r.start_time ≤ c.end_time) × (merge_from c (r ∷ times) ≡ merge_from (extend c r) times))
unfolding merge_from extend
merge_from_cases c r times = ground arith

merge_from-Covers :
    (t : ℕ) (c : TacacsPermissions) (times : List TacacsPermissions)
    → IsAscending Earlier (c ∷ times)
    → Any (Covers t) (merge_from c times) ↔ Any (Covers t) (c ∷ times)
unfolding merge_from extend
merge_from-Covers t c [] a = ((λ h. h), (λ h. h))
merge_from-Covers t c (r ∷ times) a = elim (merge_from_cases c r times) [
  | inl (gap, e) ↦
      let ih = merge_from-Covers t r times a.1 in
      subst (λ m. Any (Covers t) m ↔ Any (Covers t) (c ∷ r ∷ times)) (sym e)
        (
          (λ h. elim h [ inl p ↦ inl p | inr q ↦ inr (ih.0 q) ]),
          (λ h. elim h [ inl p ↦ inl p | inr q ↦ inr (ih.1 q) ]),
        )
  | inr (close, e) ↦
      let ih = merge_from-Covers t (extend c r) times (a.0.1, a.1.1) in
      let same = extend-Covers t c r a.0.0 close in
      subst (λ m. Any (Covers t) m ↔ Any (Covers t) (c ∷ r ∷ times)) (sym e)
        (
          (λ h. elim (ih.0 h) [
            | inl p ↦ elim (same.0 p) [ inl x ↦ inl x | inr y ↦ inr (inl y) ]
            | inr q ↦ inr (inr q)
          ]),
          (λ h. ih.1 (elim h [
            | inl x ↦ inl (same.1 (inl x))
            | inr (inl y) ↦ inl (same.1 (inr y))
            | inr (inr q) ↦ inr q
          ])),
        )
]

merge_from-Inside :
    (t : ℕ) (c : TacacsPermissions) (times : List TacacsPermissions)
    → IsAscending Earlier (c ∷ times)
    → Any (Inside t) (c ∷ times)
    → Any (Inside t) (merge_from c times)
unfolding merge_from extend
merge_from-Inside t c [] a h = h
merge_from-Inside t c (r ∷ times) a h = elim (merge_from_cases c r times) [
  | inl (gap, e) ↦
      subst (Any (Inside t)) (sym e)
        (elim h [ inl p ↦ inl p | inr q ↦ inr (merge_from-Inside t r times a.1 q) ])
  | inr (close, e) ↦ subst (Any (Inside t)) (sym e) (
      merge_from-Inside t (extend c r) times (a.0.1, a.1.1)
        (elim h [
          | inl x ↦ inl (extend-Inside t c r a.0.0 (inl x))
          | inr (inl y) ↦ inl (extend-Inside t c r a.0.0 (inr y))
          | inr (inr q) ↦ inr q
        ]))
]

-- All that is merged starts after an instant that precedes the current range.
merge_from-after :
    (bound : ℕ) (c : TacacsPermissions) (times : List TacacsPermissions)
    → bound < c.start_time
    → IsAscending Earlier (c ∷ times)
    → All (λ y. bound < y.start_time) (merge_from c times)
unfolding merge_from extend
merge_from-after bound c [] h a = (h, tt)
merge_from-after bound c (r ∷ times) h a = elim (merge_from_cases c r times) [
  | inl (gap, e) ↦
      subst (All (λ y. bound < y.start_time)) (sym e)
        (h, merge_from-after bound r times (omega (arith, h, a.0.0)) a.1)
  | inr (close, e) ↦
      subst (All (λ y. bound < y.start_time)) (sym e)
        (merge_from-after bound (extend c r) times h (a.0.1, a.1.1))
]

merge_from-apart :
    (c : TacacsPermissions) (times : List TacacsPermissions)
    → IsAscending Earlier (c ∷ times)
    → IsAscending EndsBefore (merge_from c times)
unfolding merge_from extend
merge_from-apart c [] a = (tt, tt)
merge_from-apart c (r ∷ times) a = elim (merge_from_cases c r times) [
  | inl (gap, e) ↦
      subst (IsAscending EndsBefore) (sym e)
        (merge_from-after c.end_time r times gap a.1, merge_from-apart r times a.1)
  | inr (close, e) ↦
      subst (IsAscending EndsBefore) (sym e) (merge_from-apart (extend c r) times (a.0.1, a.1.1))
]

merge_sorted-IsMerge :
    (times : List TacacsPermissions)
    → IsAscending Earlier times
    → IsMerge (merge_sorted times) times
unfolding merge_sorted
merge_sorted-IsMerge [] a = record {
  covers = λ t. ((λ h. h), (λ h. h));
  inside = λ t h. h;
  apart = tt;
}
merge_sorted-IsMerge (r ∷ times) a = record {
  covers = λ t. merge_from-Covers t r times a;
  inside = λ t h. merge_from-Inside t r times a h;
  apart = merge_from-apart r times a;
}

module _ (sort_times : List TacacsPermissions → List TacacsPermissions)
    (sorted : IsSort Earlier sort_times) where
  -- Whatever sort.Slice does with equal starts: the merged ranges cover exactly the instants that
  -- the given ones cover, the ends included; an instant strictly inside a given range is strictly
  -- inside a merged one; and each merged range ends before the next ones start.
  pub merge_range_times-IsMerge :
      (times : List TacacsPermissions) → IsMerge (merge_range_times sort_times times) times
  unfolding merge_range_times
  merge_range_times-IsMerge [] = record {
    covers = λ t. ((λ h. h), (λ h. h));
    inside = λ t h. h;
    apart = tt;
  }
  merge_range_times-IsMerge (r ∷ times) =
      let m = merge_sorted-IsMerge (sort_times (r ∷ times)) (sorted.ascending (r ∷ times)) in
      let same =
        λ (P : TacacsPermissions → Type 0). IsSort-Any Earlier sort_times sorted P (r ∷ times) in
      record {
        covers = λ t. (
          (λ h. (same (Covers t)).0 ((m.covers t).0 h)),
          (λ h. (m.covers t).1 ((same (Covers t)).1 h)),
        );
        inside = λ t h. m.inside t ((same (Inside t)).1 h);
        apart = m.apart;
      }
