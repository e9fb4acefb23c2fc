-- ===== src/Server/Quota/Window.antt =====
-- The times that the quota keeps, and those that it drops (pkg/server/http/resource_limits.go).
use tacacs_plus_go.Base.{
  All, All-get, List, List-cases, Option-cases, [], ap, arith, bytes_eq, false, get, get-put,
  if◌then◌else◌, inl, inr, length, put, refl, subst, sym, true, ℕ, ◌++◌, ◌∷◌, ◌≡◌, ◌≤◌, ◌⊎◌,
}
use tacacs_plus_go.Server.Quota.{Quota, approval_create_max, drop_old, entries_of, fresh}

pub fresh-fresh : (t t' : ℕ) (xs : List ℕ) → t ≤ t' → fresh t' (fresh t xs) ≡ fresh t' xs
unfolding fresh
fresh-fresh t t' [] h = refl
fresh-fresh t t' (x ∷ xs) h = ground (arith, fresh-fresh t t' xs h)

pub length-fresh : (t : ℕ) (xs : List ℕ) → length (fresh t xs) ≤ length xs
unfolding fresh
length-fresh t [] = omega arith
length-fresh t (x ∷ xs) = ground (arith, length-fresh t xs)

pub fresh-append : (t : ℕ) (xs ys : List ℕ) → fresh t (xs ++ ys) ≡ fresh t xs ++ fresh t ys
unfolding fresh
fresh-append t [] ys = refl
fresh-append t (x ∷ xs) ys = ground (arith, fresh-append t xs ys)

pub entries_of-put :
    (k j : List ℕ) (v : List ℕ) (m : Quota)
    → entries_of j (put k v m) ≡ (if bytes_eq k j then v else entries_of j m)
unfolding entries_of
entries_of-put k j v m = ground (arith, get-put k j v m)

entries_of-cons :
    (j k : List ℕ) (v : List ℕ) (m : Quota)
    → entries_of j ((k, v) ∷ m) ≡ (if bytes_eq k j then v else entries_of j m)
unfolding entries_of get
entries_of-cons j k v m = ground arith

drop_old_cases :
    (now : ℕ) (user : List ℕ) (old : List ℕ) (quota : Quota)
    → ((fresh now old ≡ []) × (drop_old now ((user, old) ∷ quota) ≡ drop_old now quota))
      ⊎ (drop_old now ((user, old) ∷ quota) ≡ (user, fresh now old) ∷ drop_old now quota)
unfolding drop_old
drop_old_cases now user old quota = elim (List-cases (fresh now old)) [
  | inl e ↦ inl (e, ground (arith, e))
  | inr (x, xs, e) ↦ inr (ground (arith, e))
]

-- At the instant no fewer of the first times are within a window than of the second ones.
abbrev pub FewerFresh : ℕ → List ℕ → List ℕ → Type 0
FewerFresh t xs ys = length (fresh t xs) ≤ length (fresh t ys)

fresh-none : (now t : ℕ) (old ys : List ℕ) → now ≤ t → fresh now old ≡ [] → FewerFresh t old ys
unfolding fresh
fresh-none now t old ys h e =
    omega (arith, ap length (fresh-fresh now t old h), ap (λ x. length (fresh t x)) e)

-- Dropping the old times loses no fresh one.
pub drop_old-keeps :
    (now t : ℕ) (user : List ℕ) (quota : Quota)
    → now ≤ t
    → FewerFresh t (entries_of user quota) (entries_of user (drop_old now quota))
unfolding drop_old
drop_old-keeps now t user [] h = omega arith
drop_old-keeps now t user ((k, old) ∷ quota) h =
    let ih = drop_old-keeps now t user quota h in
    let start = entries_of-cons user k old quota in
    let same = ap length (fresh-fresh now t old h) in
    elim (drop_old_cases now k old quota) [
      | inl (none_fresh, e) ↦
          subst
            (λ (q : Quota). FewerFresh t (entries_of user ((k, old) ∷ quota)) (entries_of user q))
            (sym e)
            (subst (λ xs. FewerFresh t xs (entries_of user (drop_old now quota))) (sym start)
              (elim (bytes_eq k user)
                as (λ b.
                  FewerFresh t (if b then old else entries_of user quota)
                    (entries_of user (drop_old now quota))) [
                      | true ↦
                          fresh-none now t old (entries_of user (drop_old now quota)) h none_fresh
                      | false ↦ ih
                    ]))
      | inr e ↦
          subst
            (λ (q : Quota). FewerFresh t (entries_of user ((k, old) ∷ quota)) (entries_of user q))
            (sym e)
            (subst
              (λ xs. FewerFresh t xs (entries_of user ((k, fresh now old) ∷ drop_old now quota)))
              (sym start)
              (subst
                (λ ys. FewerFresh t (if bytes_eq k user then old else entries_of user quota) ys)
                (sym (entries_of-cons user k (fresh now old) (drop_old now quota)))
                (elim (bytes_eq k user)
                  as (λ b.
                    FewerFresh t (if b then old else entries_of user quota)
                      (if b then fresh now old else entries_of user (drop_old now quota))) [
                        | true ↦ omega (arith, same)
                        | false ↦ ih
                      ])))
    ]

-- From the instant on, no user has more fresh times than the quota.
abbrev pub IsWithin : ℕ → Quota → Type 0
IsWithin now = All (λ e. (t : ℕ) → now ≤ t → length (fresh t e.1) ≤ approval_create_max)

pub drop_old-IsWithin :
    (now : ℕ) (quota : Quota) → IsWithin now quota → IsWithin now (drop_old now quota)
unfolding drop_old
drop_old-IsWithin now [] w = tt
drop_old-IsWithin now ((k, old) ∷ quota) w = elim (drop_old_cases now k old quota) [
  | inl (_, e) ↦ subst (IsWithin now) (sym e) (drop_old-IsWithin now quota w.1)
  | inr e ↦ subst (IsWithin now) (sym e) (
    (λ t h. omega (arith, ap length (fresh-fresh now t old h), w.0 t h)),
    drop_old-IsWithin now quota w.1,
  )
]

pub IsWithin-entries_of :
    (now t : ℕ) (user : List ℕ) (quota : Quota)
    → now ≤ t
    → IsWithin now quota
    → length (fresh t (entries_of user quota)) ≤ approval_create_max
unfolding entries_of fresh
IsWithin-entries_of now t user quota h w = elim (Option-cases (get user quota)) [
  | inl e ↦ ground (arith, e)
  | inr (v, e) ↦
      let found =
        All-get (λ f. (t : ℕ) → now ≤ t → length (fresh t f.1) ≤ approval_create_max) user v quota w
          e t h in
      ground (arith, e, found)
]
