-- ===== src/Aaa/Users/Permission.antt =====
-- What a role permits, against the loops that check it (pkg/client/tac_plus/user.go).
use tacacs_plus_go.Aaa.Users.{
  CmdCheckResult, Platform, RoleAcl, check_role_match, check_roles, cmd_is_pass, is_empty,
  server_is_pass,
}
use tacacs_plus_go.Base.{
  Any, Bool, Bool-cases, List, [], arith, bytes_eq, bytes_eq_iff, codes, exists, exists_iff, false,
  inl, inr, not, refl, true, ℕ, ◌&&◌, ◌||◌, ◌↔◌, ◌∷◌, ◌≡◌, ◌≢◌, ◌⊎◌,
}

-- A role permits a command on a server: some pattern matches the command, or there is none; and the
-- server is one of the addresses, or an IP address inside one of the networks, or there is none.
pub record Permits (pf : Platform) (cmd server : List ℕ) (role : RoleAcl) : Type 0 where
  pub command : (cmd ≡ []) ⊎ Any (λ p. pf.match_string p cmd ≡ true) role.permit_cmds
  pub address :
      ((server ≡ []) ⊎ Any (λ i. server ≡ i) role.ips)
      ⊎ ((pf.is_ip server ≡ true) × Any (λ net. pf.contains net server ≡ true) role.ip_nets)

is_empty_iff : (xs : List ℕ) → (is_empty xs ≡ true) ↔ (xs ≡ [])
is_empty_iff [] = ((λ _. refl), (λ _. refl))
is_empty_iff (x ∷ xs) = ((λ e. cc), (λ e. cc))

or_iff : (a b : Bool) (P Q : Type 0) → (a ≡ true) ↔ P → (b ≡ true) ↔ Q → ((a || b) ≡ true) ↔ (P ⊎ Q)
or_iff true b P Q f g = ((λ _. inl (f.0 refl)), (λ _. refl))
or_iff false b P Q f g =
    ((λ e. inr (g.0 e)), (λ h. elim h [ inl p ↦ absurd (cc (f.1 p)) | inr q ↦ g.1 q ]))

and_iff :
    (a b : Bool) (P Q : Type 0) → (a ≡ true) ↔ P → (b ≡ true) ↔ Q → ((a && b) ≡ true) ↔ (P × Q)
and_iff true b P Q f g = ((λ e. (f.0 refl, g.0 e)), (λ h. g.1 h.1))
and_iff false b P Q f g = ((λ e. absurd (cc e)), (λ h. f.1 h.0))

Any-map :
    (P Q : List ℕ → Type 0) (xs : List (List ℕ)) → ((x : List ℕ) → P x → Q x) → Any P xs → Any Q xs
Any-map P Q [] f h = h
Any-map P Q (x ∷ xs) f (inl h) = inl (f x h)
Any-map P Q (x ∷ xs) f (inr h) = inr (Any-map P Q xs f h)

ips_iff :
    (server : List ℕ) (ips : List (List ℕ))
    → (exists (λ permit. bytes_eq server permit) ips ≡ true) ↔ Any (λ i. server ≡ i) ips
ips_iff server ips = (
  (λ e. Any-map _ _ ips (λ x. (bytes_eq_iff server x).0) ((exists_iff _ ips).0 e)),
  (λ h. (exists_iff _ ips).1 (Any-map _ _ ips (λ x. (bytes_eq_iff server x).1) h)),
)

module _ (pf : Platform) (cmd server : List ℕ) where
  cmd_is_pass_iff :
      (role : RoleAcl)
      → (cmd_is_pass pf cmd role ≡ true)
        ↔ ((cmd ≡ []) ⊎ Any (λ p. pf.match_string p cmd ≡ true) role.permit_cmds)
  unfolding cmd_is_pass
  cmd_is_pass_iff role = or_iff _ _ _ _ (is_empty_iff cmd) (exists_iff _ role.permit_cmds)

  server_is_pass_iff :
      (role : RoleAcl)
      → (server_is_pass pf server role ≡ true) ↔ (
          ((server ≡ []) ⊎ Any (λ i. server ≡ i) role.ips)
          ⊎ ((pf.is_ip server ≡ true) × Any (λ net. pf.contains net server ≡ true) role.ip_nets))
  unfolding server_is_pass
  server_is_pass_iff role =
      or_iff _ _ _ _ (or_iff _ _ _ _ (is_empty_iff server) (ips_iff server role.ips))
        (and_iff _ _ _ _ ((λ e. e), (λ e. e)) (exists_iff _ role.ip_nets))

  Permits-iff :
      (role : RoleAcl)
      → ((cmd_is_pass pf cmd role ≡ true) × (server_is_pass pf server role ≡ true))
        ↔ Permits pf cmd server role
  Permits-iff role = (
    (λ h. record {
      command = (cmd_is_pass_iff role).0 h.0;
      address = (server_is_pass_iff role).0 h.1;
    }),
    (λ h. ((cmd_is_pass_iff role).1 h.command, (server_is_pass_iff role).1 h.address)),
  )

  -- A role counts for a check if it has a name and permits the command on the server.
  abbrev pub Counts : RoleAcl → Type 0
  Counts role = (role.role_name ≢ []) × Permits pf cmd server role

  check_role_match_iff :
      (role : RoleAcl) → (not (is_empty (check_role_match pf cmd server role)) ≡ true) ↔ Counts role
  unfolding check_role_match
  check_role_match_iff role = (
    (λ e.
        ((λ k. ground (arith, e, k)), (Permits-iff role).0 (ground (arith, e), ground (arith, e)))),
    (λ h.
        let (c, s) = (Permits-iff role).1 h.1 in
        let name : is_empty role.role_name ≡ false = elim (Bool-cases (is_empty role.role_name)) [
          | inl t ↦ absurd (h.0 ((is_empty_iff role.role_name).0 t))
          | inr t ↦ t
        ] in
        ground (arith, c, s, name)),
  )

  check_role_match-name :
      (role : RoleAcl)
      → not (is_empty (check_role_match pf cmd server role)) ≡ true
      → check_role_match pf cmd server role ≡ role.role_name
  unfolding check_role_match
  check_role_match-name role e = ground (arith, e)

  -- What a result says of the roles that were checked: it passes exactly if some role with a name
  -- permits the command on the server; the reason is then the name of such a role, and otherwise a
  -- fixed text.
  pub record Verdict (roles : List RoleAcl) (r : CmdCheckResult) : Type 0 where
    pub passes : (r.is_pass ≡ true) ↔ Any Counts roles
    pub named : r.is_pass ≡ true → Any (λ role. Counts role × (r.reason ≡ role.role_name)) roles
    pub refused : r.is_pass ≡ false → r.reason ≡ codes "cmd and server are not match"

  Verdict-match :
      (role : RoleAcl) (roles : List RoleAcl) (name : List ℕ)
      → Counts role
      → name ≡ role.role_name
      → Verdict (role ∷ roles) (record { is_pass = true; reason = name })
  Verdict-match role roles name c e = record {
    passes = ((λ _. inl c), (λ _. refl));
    named = λ _. inl (c, e);
    refused = λ t. absurd (cc t);
  }

  Verdict-skip :
      (role : RoleAcl) (roles : List RoleAcl) (r : CmdCheckResult)
      → ¬ Counts role
      → Verdict roles r
      → Verdict (role ∷ roles) r
  Verdict-skip role roles r no_count v = record {
    passes = (
      (λ e. inr (v.passes.0 e)),
      (λ h. elim h [ inl c ↦ absurd (no_count c) | inr a ↦ v.passes.1 a ]),
    );
    named = λ e. inr (v.named e);
    refused = v.refused;
  }

  -- The role loop gives the verdict on the roles.
  pub check_roles-Verdict : (roles : List RoleAcl) → Verdict roles (check_roles pf cmd server roles)
  unfolding check_roles
  check_roles-Verdict [] = record {
    passes = ((λ e. absurd (cc e)), (λ h. elim h [ ]));
    named = λ e. absurd (cc e);
    refused = λ _. refl;
  }
  check_roles-Verdict (role ∷ roles) =
      elim (Bool-cases (not (is_empty (check_role_match pf cmd server role)))) [
        | inl t ↦ rw t (
            Verdict-match role roles _ ((check_role_match_iff role).0 t)
              (check_role_match-name role t))
        | inr t ↦ rw t (
            Verdict-skip role roles _ (λ c. cc (t, (check_role_match_iff role).1 c))
              (check_roles-Verdict roles))
      ]
