-- ===== src/Aaa/Handler/Decisions.antt =====
-- What the program's handler decides (pkg/client/tac_plus/handler.go).
use tacacs_plus_go.Aaa.Handler.{World, check_authen, check_author}
use tacacs_plus_go.Aaa.Users.Permission.{Counts, check_roles-Verdict}
use tacacs_plus_go.Aaa.Users.Cache.{
  IsCoherent, IsLine, SameVerdict, check_cmd_and_server_in_role-coherent,
}
use tacacs_plus_go.Aaa.Users.Passwords.{IsRightCache, check_user_password-right}
use tacacs_plus_go.Aaa.Users.{
  Platform, RoleAcl, UserInfo, check_cmd_and_server_in_role, check_user_password,
}
use tacacs_plus_go.Base.{
  Any, Bool, List, Option-cases, [], arith, false, get, inl, inr, none, refl, some, subst, sym,
  true, ℕ, ◌||◌, ◌↔◌, ◌∙◌, ◌≡◌, ◌≢◌, ◌⊎◌,
}

-- The users that may log in with a password: known, with that password, and on duty or with a role.
pub record MayLogin (pf : Platform) (w : World) (user pass : List ℕ) : Type 0 where
  pub info : UserInfo
  pub known : get user w.users ≡ some info
  pub right : pf.check_password_hash pass info.password ≡ true
  pub entitled : (info.is_on_duty ≡ true) ⊎ (info.role ≢ [])

-- The users that may run a command on a server: on duty, or with a role that permits both.
pub record MayRun (pf : Platform) (w : World) (user cmd server : List ℕ) : Type 0 where
  pub info : UserInfo
  pub known : get user w.users ≡ some info
  pub entitled : (info.is_on_duty ≡ true) ⊎ Any (Counts pf cmd server) info.role

-- What holds of the handler's state between requests: the caches give what the checks would give, the
-- snapshot's hashes have no newline, and a user's roles are those that stand for the user's key.
pub record IsSound (pf : Platform) (catalog : List ℕ → List RoleAcl) (w : World) : Type 0 where
  pub passwords_right : IsRightCache pf w.passwords
  pub cmds_coherent : IsCoherent pf catalog w.cmds
  pub hash_line :
      (user : List ℕ) (info : UserInfo) → get user w.users ≡ some info → IsLine info.password
  pub same_roles :
      (user : List ℕ) (info : UserInfo)
      → get user w.users ≡ some info
      → SameVerdict pf info.role (catalog info.roles_key)

module _ (pf : Platform) (catalog : List ℕ → List RoleAcl) where
  known_login :
      (user pass : List ℕ) (w : World) (info : UserInfo)
      → get user w.users ≡ some info
      → (check_user_password pf pass info.password w.passwords).0
        ≡ pf.check_password_hash pass info.password
      → ((check_authen pf user pass w).0.0 ≡ true) ↔ (
          (pf.check_password_hash pass info.password ≡ true)
          × ((info.is_on_duty ≡ true) ⊎ (info.role ≢ [])))
  unfolding check_authen
  known_login user pass w info known right =
      ((λ e. (ground arith, ground arith)), (λ h. ground arith))

  unknown_login :
      (user pass : List ℕ) (w : World)
      → get user w.users ≡ none
      → (check_authen pf user pass w).0.0 ≡ false
  unfolding check_authen
  unknown_login user pass w e = ground arith

  -- In a sound state a login passes exactly for the users that may log in.
  pub check_authen_iff :
      (user pass : List ℕ) (w : World)
      → IsSound pf catalog w
      → ((check_authen pf user pass w).0.0 ≡ true) ↔ MayLogin pf w user pass
  check_authen_iff user pass w sound = by_user (Option-cases (get user w.users))
    where
      by_user :
          (get user w.users ≡ none) ⊎ ((info : UserInfo) × (get user w.users ≡ some info))
          → ((check_authen pf user pass w).0.0 ≡ true) ↔ MayLogin pf w user pass
      by_user (inl unknown) = (
        (λ e. absurd (cc (e, unknown_login user pass w unknown))),
        (λ m. absurd (cc (unknown, m.known))),
      )
      by_user (inr (info, known)) =
          let right =
            check_user_password-right pf pass info.password w.passwords
              (sound.hash_line user info known) sound.passwords_right in
          let iff = known_login user pass w info known right.0 in
          (
            (λ e.
                let (r, t) = iff.0 e in
                record { info = info; known = known; right = r; entitled = t }),
            (λ m.
                let same : m.info ≡ info = ground (arith, known, m.known) in
                iff.1 (
                  subst (λ i. pf.check_password_hash pass i.password ≡ true) same m.right,
                  subst (λ i. (i.is_on_duty ≡ true) ⊎ (i.role ≢ [])) same m.entitled,
                )),
          )

  known_author :
      (user cmd server : List ℕ) (w : World) (info : UserInfo)
      → get user w.users ≡ some info
      → (check_author pf user cmd server w).0.0 ≡ (
          info.is_on_duty
          || (check_cmd_and_server_in_role pf cmd server info.roles_key info.role w.cmds).0.is_pass)
  unfolding check_author
  known_author user cmd server w info known = ground arith

  unknown_author :
      (user cmd server : List ℕ) (w : World)
      → get user w.users ≡ none
      → (check_author pf user cmd server w).0.0 ≡ false
  unfolding check_author
  unknown_author user cmd server w e = ground arith

  or_cases : (a b : Bool) → ((a || b) ≡ true) ↔ ((a ≡ true) ⊎ (b ≡ true))
  or_cases true b = ((λ _. inl refl), (λ _. refl))
  or_cases false b = ((λ e. inr e), (λ h. elim h [ inl e ↦ absurd (cc e) | inr e ↦ e ]))

  -- In a sound state a command on a server passes exactly for the users that may run it there, if
  -- neither text has a newline.
  pub check_author_iff :
      (user cmd server : List ℕ) (w : World)
      → IsSound pf catalog w
      → IsLine cmd
      → IsLine server
      → ((check_author pf user cmd server w).0.0 ≡ true) ↔ MayRun pf w user cmd server
  check_author_iff user cmd server w sound hc hs = by_user (Option-cases (get user w.users))
    where
      by_user :
          (get user w.users ≡ none) ⊎ ((info : UserInfo) × (get user w.users ≡ some info))
          → ((check_author pf user cmd server w).0.0 ≡ true) ↔ MayRun pf w user cmd server
      by_user (inl unknown) = (
        (λ e. absurd (cc (e, unknown_author user cmd server w unknown))),
        (λ m. absurd (cc (unknown, m.known))),
      )
      by_user (inr (info, known)) =
          let right =
            check_cmd_and_server_in_role-coherent pf catalog cmd server info.roles_key info.role
              w.cmds hc hs (sound.same_roles user info known) sound.cmds_coherent in
          let verdict = check_roles-Verdict pf cmd server info.role in
          let split =
            or_cases info.is_on_duty
              (check_cmd_and_server_in_role pf cmd server info.roles_key info.role
                w.cmds).0.is_pass in
          rw (known_author user cmd server w info known) (
            (λ e. record {
              info = info;
              known = known;
              entitled = elim (split.0 e) [
                | inl d ↦ inl d
                | inr p ↦ inr (verdict.passes.0 (sym right.0 ∙ p))
              ];
            }),
            (λ m.
                let same : m.info ≡ info = ground (arith, known, m.known) in
                elim (subst (λ i. (i.is_on_duty ≡ true) ⊎ Any (Counts pf cmd server) i.role) same
                  m.entitled) [
                    | inl d ↦ split.1 (inl d)
                    | inr a ↦ split.1 (inr (right.0 ∙ verdict.passes.1 a))
                  ]),
          )
