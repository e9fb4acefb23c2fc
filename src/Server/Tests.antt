-- ===== src/Server/Tests.antt =====
-- Runs of the roles' service on concrete inputs.
use tacacs_plus_go.Base.{
  All, All-imp, Any, Arranged, Arranged-refl, IsAscending, IsSort, List, [], arith, bytes_eq,
  chained, codes, cons_cons, exists, false, get, inl, inr, join, ltb, map_values, nil_nil, put,
  refl, some, subst, swap_front, sym, true, ℕ, ◌∷◌, ◌≡◌, ◌≢◌, ◌⊎◌,
}
use tacacs_plus_go.Server.Permissions.{
  TacacsApproval, TacacsPermissions, TacacsUser, UserInfos, active_roles, add_approval,
  add_approvals, covers_now, extend, get_current_user_role_at, lookup, merge_from,
  merge_permissions, merge_range_times, merge_sorted, range_of, update_role_infos,
}
use tacacs_plus_go.Server.Permissions.Merge.{
  Covers, Earlier, Inside, IsMerge, merge_range_times-IsMerge,
}
use tacacs_plus_go.Server.Permissions.Grants.{IsFor}
use tacacs_plus_go.Server.Permissions.Active.{
  IsActive, get_current_user_role_at-null, update_role_infos-covered, update_role_infos-grants,
}
use Prim.Native.String.{String}

-- A sort by start, as sort.Slice would do.
insert_range : TacacsPermissions → List TacacsPermissions → List TacacsPermissions
insert_range r [] = r ∷ []
insert_range r (x ∷ xs) = elim (ltb x.start_time r.start_time) [
  | true ↦ x ∷ insert_range r xs
  | false ↦ r ∷ x ∷ xs
]

sort_ranges : List TacacsPermissions → List TacacsPermissions
sort_ranges [] = []
sort_ranges (x ∷ xs) = insert_range x (sort_ranges xs)

insert_range_cases :
    (r x : TacacsPermissions) (xs : List TacacsPermissions)
    → (Earlier x r × (insert_range r (x ∷ xs) ≡ x ∷ insert_range r xs))
      ⊎ (Earlier r x × (insert_range r (x ∷ xs) ≡ r ∷ x ∷ xs))
unfolding insert_range
insert_range_cases r x xs = ground arith

insert_range-Arranged :
    (r : TacacsPermissions) (xs : List TacacsPermissions) → Arranged (insert_range r xs) (r ∷ xs)
unfolding insert_range
insert_range-Arranged r [] = Arranged-refl (r ∷ [])
insert_range-Arranged r (x ∷ xs) = elim (insert_range_cases r x xs) [
  | inl (_, e) ↦
      subst (λ ys. Arranged ys (r ∷ x ∷ xs)) (sym e)
        (chained (cons_cons (insert_range-Arranged r xs)) swap_front)
  | inr (_, e) ↦ subst (λ ys. Arranged ys (r ∷ x ∷ xs)) (sym e) (Arranged-refl (r ∷ x ∷ xs))
]

insert_range-All :
    (P : TacacsPermissions → Type 0) (r : TacacsPermissions) (xs : List TacacsPermissions)
    → P r
    → All P xs
    → All P (insert_range r xs)
unfolding insert_range
insert_range-All P r [] p a = (p, tt)
insert_range-All P r (x ∷ xs) p a = elim (insert_range_cases r x xs) [
  | inl (_, e) ↦ subst (All P) (sym e) (a.0, insert_range-All P r xs p a.1)
  | inr (_, e) ↦ subst (All P) (sym e) (p, a)
]

insert_range-IsAscending :
    (r : TacacsPermissions) (xs : List TacacsPermissions)
    → IsAscending Earlier xs
    → IsAscending Earlier (insert_range r xs)
unfolding insert_range
insert_range-IsAscending r [] a = (tt, tt)
insert_range-IsAscending r (x ∷ xs) a = elim (insert_range_cases r x xs) [
  | inl (le, e) ↦
      subst (IsAscending Earlier) (sym e)
        (insert_range-All (Earlier x) r xs le a.0, insert_range-IsAscending r xs a.1)
  | inr (le, e) ↦
      subst (IsAscending Earlier) (sym e)
        ((le, All-imp (Earlier x) (Earlier r) xs (λ y h. omega (arith, le, h)) a.0), a)
]

sort_ranges-Arranged : (xs : List TacacsPermissions) → Arranged (sort_ranges xs) xs
unfolding sort_ranges
sort_ranges-Arranged [] = nil_nil
sort_ranges-Arranged (x ∷ xs) =
    chained (insert_range-Arranged x (sort_ranges xs)) (cons_cons (sort_ranges-Arranged xs))

sort_ranges-IsAscending : (xs : List TacacsPermissions) → IsAscending Earlier (sort_ranges xs)
unfolding sort_ranges
sort_ranges-IsAscending [] = tt
sort_ranges-IsAscending (x ∷ xs) =
    insert_range-IsAscending x (sort_ranges xs) (sort_ranges-IsAscending xs)

sort_ranges-IsSort : IsSort Earlier sort_ranges
sort_ranges-IsSort = record { arranged = sort_ranges-Arranged; ascending = sort_ranges-IsAscending }

abbrev approval : String → String → ℕ → ℕ → TacacsApproval
approval u l s e = record {
  user = codes u;
  approval_permissions = codes l;
  start_time = s;
  end_time = e;
}

abbrev approvals : List TacacsApproval
approvals =
    approval "ann" "net" 5 9
    ∷ approval "bob" "net" 1 9
    ∷ approval "ann" "net" 1 5
    ∷ approval "ann" "core" 8 12
    ∷ []

abbrev ann : TacacsUser
ann = record {
  user = codes "ann";
  role = codes "null";
  password_update_time = [];
  status = codes "1";
}

abbrev users : UserInfos
users = (codes "ann", ann) ∷ []

abbrev ranges : List TacacsPermissions
ranges =
    record { start_time = 5; end_time = 9; permissions = [] }
    ∷ record { start_time = 1; end_time = 5; permissions = [] }
    ∷ []

-- Two approvals that touch are one range: the role is in force at the instant between them.
test_touching :
    get_current_user_role_at
      (λ roles. roles)
      (update_role_infos sort_ranges (some approvals) users [])
      (codes "ann")
      5
    ≡ codes "net"
unfolding update_role_infos merge_permissions map_values merge_range_times merge_sorted merge_from
    extend add_approvals add_approval lookup range_of get put get_current_user_role_at active_roles
    covers_now exists join sort_ranges insert_range bytes_eq
test_touching = refl

test_both :
    get_current_user_role_at
      (λ roles. roles)
      (update_role_infos sort_ranges (some approvals) users [])
      (codes "ann")
      9
    ≡ codes "core"
unfolding update_role_infos merge_permissions map_values merge_range_times merge_sorted merge_from
    extend add_approvals add_approval lookup range_of get put get_current_user_role_at active_roles
    covers_now exists join sort_ranges insert_range bytes_eq
test_both = refl

merge_range_times-IsMerge_example : IsMerge (merge_range_times sort_ranges ranges) ranges
merge_range_times-IsMerge_example = merge_range_times-IsMerge sort_ranges sort_ranges-IsSort ranges

get-ann : get (codes "ann") users ≡ some ann
unfolding get bytes_eq
get-ann = refl

ann_granted : Any (λ a. IsFor (codes "ann") (codes "net") a × Inside 7 (range_of a)) approvals
unfolding range_of
ann_granted = inl ((refl, refl), (omega arith, omega arith))

update_role_infos-grants_example :
    IsActive 7
      (codes "net")
      (lookup (codes "ann") (update_role_infos sort_ranges (some approvals) users []))
update_role_infos-grants_example =
    update_role_infos-grants sort_ranges sort_ranges-IsSort approvals users [] (codes "ann")
      (codes "net") ann 7 get-ann ann_granted

update_role_infos-covered_example :
    Any (λ a. IsFor (codes "ann") (codes "net") a × Covers 7 (range_of a)) approvals
update_role_infos-covered_example =
    update_role_infos-covered sort_ranges sort_ranges-IsSort approvals users [] (codes "ann")
      (codes "net") 7
      (update_role_infos-grants sort_ranges sort_ranges-IsSort approvals users [] (codes "ann")
        (codes "net") ann 7 get-ann ann_granted)

ann_out : All (λ a. (a.user ≢ codes "ann") ⊎ ¬ Covers 13 (range_of a)) approvals
unfolding range_of
ann_out = (
  inr (λ c. omega (arith, c.1)),
  (
    inr (λ c. omega (arith, c.1)),
    (inr (λ c. omega (arith, c.1)), (inr (λ c. omega (arith, c.1)), tt)),
  ),
)

get_current_user_role_at-null_example :
    get_current_user_role_at
      (λ roles. roles)
      (update_role_infos sort_ranges (some approvals) users [])
      (codes "ann")
      13
    ≡ codes "null"
get_current_user_role_at-null_example =
    get_current_user_role_at-null sort_ranges sort_ranges-IsSort (λ roles. roles) approvals users []
      (codes "ann") 13 ann_out
