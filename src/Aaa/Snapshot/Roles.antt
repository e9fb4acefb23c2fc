-- ===== src/Aaa/Snapshot/Roles.antt =====
-- The key of a user's roles, from which the roles can be told again up to what they permit.
use tacacs_plus_go.Base.{
  All, All-Arranged, Any, Any-append_iff, Arranged-sym, IsSort, IsSort-Any, List, NoComma,
  Option-cases, [], ap, arith, get, inl, inr, join, map, none, refl, some, split_from,
  split_from-join, subst, sym, ℕ, ◌++◌, ◌↔◌, ◌∙◌, ◌∷◌, ◌≡◌, ◌⊎◌,
}
use tacacs_plus_go.Aaa.Users.{Platform, RoleAcl}
use tacacs_plus_go.Aaa.Users.Permission.{Counts}
use tacacs_plus_go.Aaa.Snapshot.{RoleCmdsServers, RoleInfo, generate_role_key, role_acl, roles_of}

module _ (pf : Platform) (info : RoleInfo) where
  -- The roles that a key stands for.
  abbrev pub catalog : List ℕ → List RoleAcl
  catalog key = roles_of pf info (split_from [] key)

  -- Some role of that name has the property.
  abbrev pub HasRole : (RoleAcl → Type 0) → List ℕ → Type 0
  HasRole P name = Any P (roles_of pf info (name ∷ []))

  roles_of_cases :
      (name : List ℕ) (names : List (List ℕ))
      → ((get name info ≡ none) × (roles_of pf info (name ∷ names) ≡ roles_of pf info names))
        ⊎ ((permits : RoleCmdsServers) × (get name info ≡ some permits)
            × (roles_of pf info (name ∷ names) ≡ role_acl pf name permits ∷ roles_of pf info names))
  unfolding roles_of
  roles_of_cases name names = elim (Option-cases (get name info)) [
    | inl e ↦ inl (e, ground (arith, e))
    | inr (permits, e) ↦ inr (permits, e, ground (arith, e))
  ]

  roles_of-some :
      (name : List ℕ) (names : List (List ℕ)) (permits : RoleCmdsServers)
      → get name info ≡ some permits
      → roles_of pf info (name ∷ names) ≡ role_acl pf name permits ∷ roles_of pf info names
  unfolding roles_of
  roles_of-some name names permits e = ground (arith, e)

  roles_of-cons :
      (name : List ℕ) (names : List (List ℕ))
      → roles_of pf info (name ∷ names) ≡ roles_of pf info (name ∷ []) ++ roles_of pf info names
  unfolding roles_of
  roles_of-cons name names = elim (Option-cases (get name info)) [
    | inl e ↦ ground (arith, e)
    | inr (permits, e) ↦ ground (arith, e)
  ]

  pub roles_of-Any :
      (P : RoleAcl → Type 0) (names : List (List ℕ))
      → Any P (roles_of pf info names) ↔ Any (HasRole P) names
  unfolding roles_of
  roles_of-Any P [] = ((λ h. h), (λ h. h))
  roles_of-Any P (name ∷ names) =
      let ih = roles_of-Any P names in
      let whole = roles_of-cons name names in
      let parts = Any-append_iff P (roles_of pf info (name ∷ [])) (roles_of pf info names) in
      (
        (λ h. elim (parts.0 (subst (Any P) whole h)) [ inl p ↦ inl p | inr q ↦ inr (ih.0 q) ]),
        (λ h.
            subst (Any P) (sym whole) (parts.1 (elim h [ inl p ↦ inl p | inr q ↦ inr (ih.1 q) ]))),
      )

  abbrev pub names_of : List RoleAcl → List (List ℕ)
  names_of = map (λ (r : RoleAcl). r.role_name)

  -- The names of the roles lead to the same roles.
  pub roles_of-names_of :
      (names : List (List ℕ))
      → roles_of pf info (names_of (roles_of pf info names)) ≡ roles_of pf info names
  unfolding roles_of role_acl
  roles_of-names_of [] = refl
  roles_of-names_of (name ∷ names) = elim (roles_of_cases name names) [
    | inl (_, e) ↦
        subst (λ (l : List RoleAcl). roles_of pf info (names_of l) ≡ l) (sym e)
          (roles_of-names_of names)
    | inr (permits, g, e) ↦
        subst (λ (l : List RoleAcl). roles_of pf info (names_of l) ≡ l) (sym e)
          (roles_of-some name (names_of (roles_of pf info names)) permits g
            ∙ ap (λ l. role_acl pf name permits ∷ l) (roles_of-names_of names))
  ]

  pub names_of-NoComma :
      (names : List (List ℕ)) → All NoComma names → All NoComma (names_of (roles_of pf info names))
  unfolding roles_of role_acl
  names_of-NoComma [] a = tt
  names_of-NoComma (name ∷ names) a = elim (roles_of_cases name names) [
    | inl (_, e) ↦
        subst (λ (l : List RoleAcl). All NoComma (names_of l)) (sym e) (names_of-NoComma names a.1)
    | inr (permits, g, e) ↦
        subst (λ (l : List RoleAcl). All NoComma (names_of l)) (sym e)
          (a.0, names_of-NoComma names a.1)
  ]

  -- Without a name a role counts for nothing.
  no_name : (cmd server : List ℕ) → ¬ Any (Counts pf cmd server) (roles_of pf info ([] ∷ []))
  unfolding roles_of role_acl
  no_name cmd server h = elim (roles_of_cases [] []) [
    | inl (_, e) ↦ elim (subst (Any (Counts pf cmd server)) e h) [ ]
    | inr (permits, g, e) ↦ elim (subst (Any (Counts pf cmd server)) e h) [
      | inl c ↦ c.0 refl
      | inr more ↦ elim more [ ]
    ]
  ]

  module _ (sort_strings : List (List ℕ) → List (List ℕ)) (Le : List ℕ → List ℕ → Type 0)
      (sorted : IsSort Le sort_strings) where
    sort_strings-join :
        (name : List ℕ) (names : List (List ℕ))
        → All NoComma (name ∷ names)
        → split_from [] (join (sort_strings (name ∷ names))) ≡ sort_strings (name ∷ names)
    sort_strings-join name names a =
        split_from-join (sort_strings (name ∷ names))
          (λ e.
            subst (Any (λ (n : List ℕ). Unit)) e (
              (IsSort-Any Le sort_strings sorted (λ (n : List ℕ). Unit) (name ∷ names)).1 (inl tt)))
          (All-Arranged NoComma (Arranged-sym (sorted.arranged (name ∷ names))) a)

    -- The key of some roles stands for roles with the same names, each as often.
    catalog-cons :
        (role : RoleAcl) (roles : List RoleAcl)
        → All NoComma (names_of (role ∷ roles))
        → catalog (generate_role_key pf sort_strings (role ∷ roles))
          ≡ roles_of pf info (sort_strings (names_of (role ∷ roles)))
    unfolding generate_role_key
    catalog-cons role roles a =
        ap (roles_of pf info) (sort_strings-join role.role_name (names_of roles) a)

    catalog-nil : catalog (generate_role_key pf sort_strings []) ≡ roles_of pf info ([] ∷ [])
    unfolding generate_role_key split_from
    catalog-nil = refl

    -- The key of a user's roles stands for roles that permit the same.
    pub catalog-Any :
        (cmd server : List ℕ) (names : List (List ℕ))
        → All NoComma names
        → Any
            (Counts pf cmd server)
            (catalog (generate_role_key pf sort_strings (roles_of pf info names)))
          ↔ Any (Counts pf cmd server) (roles_of pf info names)
    catalog-Any cmd server names a =
        by_roles (roles_of pf info names) (names_of-NoComma names a) (roles_of-names_of names)
      where
        by_roles :
            (roles : List RoleAcl)
            → All NoComma (names_of roles)
            → roles_of pf info (names_of roles) ≡ roles
            → Any (Counts pf cmd server) (catalog (generate_role_key pf sort_strings roles))
              ↔ Any (Counts pf cmd server) roles
        by_roles [] c e = (
          (λ h. absurd (no_name cmd server (subst (Any (Counts pf cmd server)) catalog-nil h))),
          (λ h. elim h [ ]),
        )
        by_roles (role ∷ roles) c e =
            let P = Counts pf cmd server in
            let ns = names_of (role ∷ roles) in
            let same = IsSort-Any Le sort_strings sorted (HasRole P) ns in
            let left = roles_of-Any P (sort_strings ns) in
            let right = roles_of-Any P ns in
            (
              (λ h.
                  subst (Any P) e
                    (right.1 (same.0 (left.0 (subst (Any P) (catalog-cons role roles c) h))))),
              (λ h.
                  subst (Any P) (sym (catalog-cons role roles c))
                    (left.1 (same.1 (right.0 (subst (Any P) (sym e) h))))),
            )
