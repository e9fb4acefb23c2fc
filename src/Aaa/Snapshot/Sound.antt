-- ===== src/Aaa/Snapshot/Sound.antt =====
-- What a rebuilding of the users' snapshot leaves (pkg/client/tac_plus/user.go).
use tacacs_plus_go.Base.{
  All, All-get, All-put, Any, Bool, Bool-cases, IsSort, List, Option-cases, [], ap, arith, bytes_eq,
  bytes_eq_iff, false, get, if◌then◌else◌, inl, inr, put, refl, some, split_from,
  split_from-NoComma, subst, sym, true, ℕ, ◌↔◌, ◌∙◌, ◌∷◌, ◌≡◌, ◌≢◌, ◌⊎◌,
}
use tacacs_plus_go.Aaa.Users.{Platform, RoleAcl, UserInfo}
use tacacs_plus_go.Aaa.Users.Permission.{Counts, check_roles-Verdict}
use tacacs_plus_go.Aaa.Users.Cache.{IsCoherent, IsLine, SameVerdict}
use tacacs_plus_go.Aaa.Users.Passwords.{IsRightCache}
use tacacs_plus_go.Aaa.Handler.Decisions.{IsSound}
use tacacs_plus_go.Aaa.Snapshot.{
  Database, RoleInfo, Snapshot, TacacsUser, get_all_role_cmds_servers, roles_of,
  update_tacacs_user_info_and_cache, update_users, user_info, user_infos, user_status_normal,
}
use tacacs_plus_go.Aaa.Snapshot.Roles.{catalog, catalog-Any}

Bool-ext : (a b : Bool) → (a ≡ true) ↔ (b ≡ true) → a ≡ b
Bool-ext true true h = refl
Bool-ext true false h = sym (h.0 refl)
Bool-ext false true h = h.1 refl
Bool-ext false false h = refl

SameVerdict-Any :
    (pf : Platform) (roles roles' : List RoleAcl)
    → ((cmd server : List ℕ) → Any (Counts pf cmd server) roles' ↔ Any (Counts pf cmd server) roles)
    → SameVerdict pf roles roles'
SameVerdict-Any pf roles roles' same cmd server =
    let v = (check_roles-Verdict pf cmd server roles).passes in
    let v' = (check_roles-Verdict pf cmd server roles').passes in
    Bool-ext _ _
      ((λ e. v'.1 ((same cmd server).1 (v.0 e))), (λ e. v.1 ((same cmd server).0 (v'.0 e))))

module _ (pf : Platform) (sort_strings : List (List ℕ) → List (List ℕ))
    (Le : List ℕ → List ℕ → Type 0) (sorted : IsSort Le sort_strings) where
  -- A user's password hash is one line, and the user's key stands for roles that permit the same.
  pub record IsKeyed (info : RoleInfo) (entry : List ℕ × UserInfo) : Type 0 where
    pub hash_line : IsLine entry.1.password
    pub same_roles : SameVerdict pf entry.1.role (catalog pf info entry.1.roles_key)

  user_info-IsKeyed :
      (info : RoleInfo) (on_duty : List (List ℕ)) (u : TacacsUser)
      → IsLine u.password
      → IsKeyed info (u.user, user_info pf sort_strings info on_duty u)
  unfolding user_info
  user_info-IsKeyed info on_duty u line =
      let names = split_from [] u.role in
      record {
        hash_line = line;
        same_roles = SameVerdict-Any pf (roles_of pf info names) _ (λ cmd server.
            catalog-Any pf info sort_strings Le sorted cmd server names
              (split_from-NoComma [] u.role tt));
      }

  user_infos-IsKeyed :
      (info : RoleInfo) (on_duty : List (List ℕ)) (users : List TacacsUser)
      (m : List (List ℕ × UserInfo))
      → All (λ u. IsLine u.password) users
      → All (IsKeyed info) m
      → All (IsKeyed info) (user_infos pf sort_strings info on_duty users m)
  unfolding user_infos
  user_infos-IsKeyed info on_duty [] m lines k = k
  user_infos-IsKeyed info on_duty (u ∷ users) m lines k =
      user_infos-IsKeyed info on_duty users _ lines.1
        (elim (bytes_eq u.status user_status_normal)
          as (λ b.
            All (IsKeyed info)
              (if b then put u.user (user_info pf sort_strings info on_duty u) m else m)) [
                | true ↦
                    All-put (IsKeyed info) u.user _ m k (user_info-IsKeyed info on_duty u lines.0)
                | false ↦ k
              ])

  -- A run that publishes has read the database without an error, and the same metadata before and
  -- after.
  pub record IsPublished (db : Database) (s s' : Snapshot) : Type 0 where
    pub info : RoleInfo
    pub users : List TacacsUser
    pub roles_read : get_all_role_cmds_servers pf db ≡ some info
    pub users_read : db.tacacs_user_infos ≡ some users
    pub before : db.tables_update_time ≡ some s'.table_update_time
    pub latest : db.latest_update_time ≡ some s'.table_update_time
    pub is_new : s.table_update_time ≢ s'.table_update_time
    pub published :
        s'.world
        ≡ update_tacacs_user_info_and_cache
            (user_infos pf sort_strings info db.on_duty_users users [])
            s.world

  update_users_cases :
      (running : Bool) (db : Database) (s : Snapshot)
      → (update_users pf sort_strings running db s ≡ s)
        ⊎ IsPublished db s (update_users pf sort_strings running db s)
  unfolding update_users
  update_users_cases running db s = elim (Bool-cases running) [
    | inl r ↦ inl (ground (arith, r))
    | inr r ↦ elim (Option-cases db.tables_update_time) [
      | inl t ↦ inl (ground (arith, r, t))
      | inr (before, t) ↦ elim (Bool-cases (bytes_eq s.table_update_time before)) [
        | inl o ↦ inl (ground (arith, r, t, o))
        | inr o ↦ elim (Option-cases (get_all_role_cmds_servers pf db)) [
          | inl i ↦ inl (ground (arith, r, t, o, i))
          | inr (info, i) ↦ elim (Option-cases db.tacacs_user_infos) [
            | inl u ↦ inl (ground (arith, r, t, o, i, u))
            | inr (users, u) ↦ elim (Option-cases db.latest_update_time) [
              | inl l ↦ inl (ground (arith, r, t, o, i, u, l))
              | inr (latest, l) ↦ elim (Bool-cases (bytes_eq latest before)) [
                | inr n ↦ inl (ground (arith, r, t, o, i, u, l, n))
                | inl n ↦
                    let same = (bytes_eq_iff latest before).0 n in
                    let result : Snapshot = record {
                      world =
                          update_tacacs_user_info_and_cache
                            (user_infos pf sort_strings info db.on_duty_users users []) s.world;
                      table_update_time = latest;
                    } in
                    let computes : update_users pf sort_strings running db s ≡ result =
                      ground (arith, r, t, o, i, u, l, n) in
                    inr (
                      subst (IsPublished db s) (sym computes) (record {
                        info = info;
                        users = users;
                        roles_read = i;
                        users_read = u;
                        before = t ∙ ap some (sym same);
                        latest = l;
                        is_new =
                            λ e. cc (o, (bytes_eq_iff s.table_update_time before).1 (e ∙ same));
                        published = refl;
                      }))
              ]
            ]
          ]
        ]
      ]
    ]
  ]

  empty-IsCoherent : (catalog' : List ℕ → List RoleAcl) → IsCoherent pf catalog' []
  unfolding get
  empty-IsCoherent catalog' k r e = absurd (cc e)

  empty-IsRightCache : IsRightCache pf []
  unfolding get
  empty-IsRightCache k v e = absurd (cc e)

  IsPublished-IsSound :
      (db : Database) (s s' : Snapshot)
      → ((users : List TacacsUser)
          → db.tacacs_user_infos ≡ some users
          → All (λ u. IsLine u.password) users)
      → (p : IsPublished db s s') → IsSound pf (catalog pf p.info) s'.world
  unfolding update_tacacs_user_info_and_cache
  IsPublished-IsSound db s s' lines p =
      let keyed =
        user_infos-IsKeyed p.info db.on_duty_users p.users [] (lines p.users p.users_read) tt in
      subst (IsSound pf (catalog pf p.info)) (sym p.published) (record {
        passwords_right = empty-IsRightCache;
        cmds_coherent = empty-IsCoherent (catalog pf p.info);
        hash_line = λ user u e. (All-get (IsKeyed p.info) user u _ keyed e).hash_line;
        same_roles = λ user u e. (All-get (IsKeyed p.info) user u _ keyed e).same_roles;
      })

  -- A run of updateUsers leaves the handler's state sound, if it was sound and the password hashes of
  -- the database have no newline. Either nothing changes, or the new users and empty caches are
  -- published together with metadata that were the same before and after the database was read.
  pub update_users-IsSound :
      (running : Bool) (db : Database) (s : Snapshot) (former : List ℕ → List RoleAcl)
      → ((users : List TacacsUser)
          → db.tacacs_user_infos ≡ some users
          → All (λ u. IsLine u.password) users)
      → IsSound pf former s.world
      → let s' = update_users pf sort_strings running db s in
        ((s' ≡ s) × IsSound pf former s'.world)
        ⊎ ((p : IsPublished db s s') × IsSound pf (catalog pf p.info) s'.world)
  update_users-IsSound running db s former lines sound = elim (update_users_cases running db s) [
    | inl same ↦ inl (same, subst (λ (x : Snapshot). IsSound pf former x.world) (sym same) sound)
    | inr p ↦ inr (p, IsPublished-IsSound db s _ lines p)
  ]
