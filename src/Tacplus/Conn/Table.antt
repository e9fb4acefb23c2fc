-- ===== src/Tacplus/Conn/Table.antt =====
-- The invariant of the session map of pkg/public/tacplus/conn.go.
use tacacs_plus_go.Base.Store.{
  delete, find, find-delete_absent, get_elem?, get_elem?-append_old, get_elem?-lt, get_elem?-set_ne,
  get_elem?-set_self, set,
}
use tacacs_plus_go.Tacplus.Conn.{Sess}
use tacacs_plus_go.Base.{
  Bool-cases, List, [], ap, arith, eq_cases, false, inl, inr, none, some, subst, sym, ℕ, ◌++◌, ◌==◌,
  ◌∙◌, ◌∷◌, ◌≡◌, ◌≢◌,
}

-- At the address stands a session of this id whose two channels are open.
abbrev pub IsOpen : List Sess → ℕ → ℕ → Type 0
IsOpen heap id a =
    (s : Sess) × (get_elem? heap a ≡ some s)
    × (s.id ≡ id)
    × (s.in_closed ≡ false)
    × (s.done_closed ≡ false)

-- Each key occurs once, and its session is open.
unfoldable pub IsTable : List Sess → List (ℕ × ℕ) → Type 0
IsTable heap [] = Unit
IsTable heap ((id, a) ∷ m) = IsOpen heap id a × (find id m ≡ none) × IsTable heap m

pub IsTable-find :
    (heap : List Sess) (m : List (ℕ × ℕ)) (id a : ℕ)
    → IsTable heap m
    → find id m ≡ some a
    → IsOpen heap id a
unfolding IsTable find
IsTable-find heap [] id a t h = absurd (ground (arith, h))
IsTable-find heap ((j, b) ∷ m) id a (o, n, t) h = elim (eq_cases j id) [
  | inl e ↦ subst (λ i. IsOpen heap i a) e (subst (IsOpen heap j) (ground arith) o)
  | inr ne ↦ IsTable-find heap m id a t (ground arith)
]

pub delete-IsTable :
    (heap : List Sess) (m : List (ℕ × ℕ)) (id : ℕ) → IsTable heap m → IsTable heap (delete id m)
unfolding IsTable delete
delete-IsTable heap [] id t = tt
delete-IsTable heap ((j, b) ∷ m) id (o, n, t) =
    let ih = delete-IsTable heap m id t in
    elim (Bool-cases (j == id)) [
      | inl e ↦ rw e ih
      | inr e ↦ rw e (o, find-delete_absent id j m n, ih)
    ]

-- A write to a session that the map does not have.
module _ (heap : List Sess) (a : ℕ) (s v : Sess) (h : get_elem? heap a ≡ some s) where
  set_away-IsOpen : (j b : ℕ) → j ≢ s.id → IsOpen heap j b → IsOpen (set heap a v) j b
  set_away-IsOpen j b ne (r, g, i, c, d) =
      (r, get_elem?-set_ne heap a b v (λ e. ne (ground arith)) ∙ g, i, c, d)

  pub set_away-IsTable :
      (m : List (ℕ × ℕ)) → find s.id m ≡ none → IsTable heap m → IsTable (set heap a v) m
  unfolding IsTable find
  set_away-IsTable [] n t = tt
  set_away-IsTable ((j, b) ∷ m) n (o, f, t) =
      (set_away-IsOpen j b (ground arith) o, f, set_away-IsTable m (ground arith) t)

  -- A write that leaves the session open.
  module _ (i : v.id ≡ s.id) (c : v.in_closed ≡ s.in_closed)
      (d : v.done_closed ≡ s.done_closed) where
    set-IsOpen : (j b : ℕ) → IsOpen heap j b → IsOpen (set heap a v) j b
    set-IsOpen j b (r, g, k, p, q) = elim (eq_cases a b) [
      | inl e ↦ (
        v,
        ap (get_elem? (set heap a v)) (sym e) ∙ get_elem?-set_self heap a v (get_elem?-lt heap a h),
        ground arith,
        ground arith,
        ground arith,
      )
      | inr ne ↦ (r, get_elem?-set_ne heap a b v ne ∙ g, k, p, q)
    ]

    pub set_open-IsTable : (m : List (ℕ × ℕ)) → IsTable heap m → IsTable (set heap a v) m
    unfolding IsTable
    set_open-IsTable [] t = tt
    set_open-IsTable ((j, b) ∷ m) (o, f, t) = (set-IsOpen j b o, f, set_open-IsTable m t)

pub append-IsTable :
    (heap : List Sess) (m : List (ℕ × ℕ)) (v : Sess) → IsTable heap m → IsTable (heap ++ (v ∷ [])) m
unfolding IsTable
append-IsTable heap [] v t = tt
append-IsTable heap ((j, b) ∷ m) v ((r, g, i, c, d), f, t) = (
  (r, get_elem?-append_old heap v b (get_elem?-lt heap b g) ∙ g, i, c, d),
  f,
  append-IsTable heap m v t,
)
