-- ===== src/Aaa/Users/Cache.antt =====
-- The result caches of pkg/client/tac_plus/user.go against the checks that they stand for.
use tacacs_plus_go.Aaa.Users.{
  CmdCache, CmdCheckResult, Platform, RoleAcl, check_cmd_and_server_in_role, check_roles, cmd_key,
}
use tacacs_plus_go.Base.{
  All, Bool-cases, List, Option-cases, [], ap, append_assoc, arith, bytes_eq, bytes_eq_iff,
  bytes_eq_refl, false, get, get-put, if◌then◌else◌, inl, inr, none, put, refl, some, subst, sym,
  true, ℕ, ◌++◌, ◌∙◌, ◌∷◌, ◌≡◌, ◌≢◌, ◌⊎◌,
}

-- A text with no newline, which is what the cache keys are joined by.
abbrev pub IsLine : List ℕ → Type 0
IsLine = All (λ c. c ≢ 10)

-- Two joined texts are equal only part by part, if the first parts are lines.
split_line :
    (a a' b b' : List ℕ)
    → IsLine a
    → IsLine a'
    → a ++ (10 ∷ b) ≡ a' ++ (10 ∷ b')
    → (a ≡ a') × (b ≡ b')
split_line [] [] b b' h h' e = (refl, cc)
split_line [] (y ∷ a') b b' h h' e = absurd (h'.0 (ground (arith, e)))
split_line (x ∷ a) [] b b' h h' e = absurd (h.0 (ground (arith, e)))
split_line (x ∷ a) (y ∷ a') b b' h h' e =
    let tails : a ++ (10 ∷ b) ≡ a' ++ (10 ∷ b') = cc in
    let heads : x ≡ y = cc in let (p, q) = split_line a a' b b' h.1 h'.1 tails in (cc (heads, p), q)

pub cmd_key-injective :
    (c c' s s' k k' : List ℕ)
    → IsLine c
    → IsLine c'
    → IsLine s
    → IsLine s'
    → cmd_key c s k ≡ cmd_key c' s' k'
    → (c ≡ c') × (s ≡ s') × (k ≡ k')
unfolding cmd_key
cmd_key-injective c c' s s' k k' hc hc' hs hs' e =
    let (p, q) = split_line c c' _ _ hc hc' e in
    let (r, t) = split_line s s' _ _ hs hs' q in (p, r, t)

-- The roles for which a key of a snapshot stands, up to the result of every check.
abbrev pub SameVerdict : Platform → List RoleAcl → List RoleAcl → Type 0
SameVerdict pf roles roles' =
    (c s : List ℕ) → (check_roles pf c s roles).is_pass ≡ (check_roles pf c s roles').is_pass

module _ (pf : Platform) (catalog : List ℕ → List RoleAcl) where
  pub record Entry (key : List ℕ) (r : CmdCheckResult) : Type 0 where
    pub cmd : List ℕ
    pub server : List ℕ
    pub roles_key : List ℕ
    pub is_key : key ≡ cmd_key cmd server roles_key
    pub cmd_line : IsLine cmd
    pub server_line : IsLine server
    pub is_result : r.is_pass ≡ (check_roles pf cmd server (catalog roles_key)).is_pass

  -- Every entry was computed from the roles of the snapshot.
  abbrev pub IsCoherent : CmdCache → Type 0
  IsCoherent cache = (k : List ℕ) (r : CmdCheckResult) → get k cache ≡ some r → Entry k r

  empty-IsCoherent : IsCoherent []
  unfolding get
  empty-IsCoherent k r e = absurd (cc e)

  put-IsCoherent :
      (k : List ℕ) (r : CmdCheckResult) (cache : CmdCache)
      → Entry k r
      → IsCoherent cache
      → IsCoherent (put k r cache)
  put-IsCoherent k r cache new old j t e =
      by_key (Bool-cases (bytes_eq k j)) (sym (get-put k j r cache) ∙ e)
    where
      by_key :
          (bytes_eq k j ≡ true) ⊎ (bytes_eq k j ≡ false)
          → (if bytes_eq k j then some r else get j cache) ≡ some t
          → Entry j t
      by_key (inl same) f =
          let at : k ≡ j = (bytes_eq_iff k j).0 same in
          let is : r ≡ t = ground (arith, same, f) in
          subst (λ x. Entry x t) at (subst (λ x. Entry k x) is new)
      by_key (inr other) f = old j t (rw other at f)

  hit_is_right :
      (cmd server roles_key : List ℕ) (roles : List RoleAcl) (r : CmdCheckResult)
      → IsLine cmd
      → IsLine server
      → SameVerdict pf roles (catalog roles_key)
      → Entry (cmd_key cmd server roles_key) r
      → r.is_pass ≡ (check_roles pf cmd server roles).is_pass
  hit_is_right cmd server roles_key roles r hc hs same e =
      let (p, q, t) =
        cmd_key-injective cmd e.cmd server e.server roles_key e.roles_key hc e.cmd_line hs
          e.server_line e.is_key in
      e.is_result ∙ rw (← p, ← q, ← t) (sym (same cmd server))

  check_miss :
      (cmd server roles_key : List ℕ) (role : RoleAcl) (roles : List RoleAcl) (cache : CmdCache)
      → get (cmd_key cmd server roles_key) cache ≡ none
      → check_cmd_and_server_in_role pf cmd server roles_key (role ∷ roles) cache ≡ (
        check_roles pf cmd server (role ∷ roles),
        put (cmd_key cmd server roles_key) (check_roles pf cmd server (role ∷ roles)) cache,
      )
  unfolding check_cmd_and_server_in_role
  check_miss cmd server roles_key role roles cache e = rw (e, check_cmd_and_server_in_role)

  check_hit :
      (cmd server roles_key : List ℕ) (role : RoleAcl) (roles : List RoleAcl) (cache : CmdCache)
      (r : CmdCheckResult)
      → get (cmd_key cmd server roles_key) cache ≡ some r
      → check_cmd_and_server_in_role pf cmd server roles_key (role ∷ roles) cache ≡ (r, cache)
  unfolding check_cmd_and_server_in_role
  check_hit cmd server roles_key role roles cache r e = rw (e, check_cmd_and_server_in_role)

  abbrev pub IsRight : List ℕ → List ℕ → List RoleAcl → CmdCheckResult × CmdCache → Type 0
  IsRight cmd server roles out =
      (out.0.is_pass ≡ (check_roles pf cmd server roles).is_pass) × IsCoherent out.1

  -- A check of a command and a server with no newline in them passes through a coherent cache exactly
  -- as it does without one, and leaves the cache coherent; with no role it does not pass.
  pub check_cmd_and_server_in_role-coherent :
      (cmd server roles_key : List ℕ) (roles : List RoleAcl) (cache : CmdCache)
      → IsLine cmd
      → IsLine server
      → SameVerdict pf roles (catalog roles_key)
      → IsCoherent cache
      → IsRight cmd server roles (check_cmd_and_server_in_role pf cmd server roles_key roles cache)
  check_cmd_and_server_in_role-coherent cmd server roles_key [] cache hc hs same co =
      unfold check_cmd_and_server_in_role check_roles in (refl, co)
  check_cmd_and_server_in_role-coherent cmd server roles_key (role ∷ roles) cache hc hs same co =
      by_cache (Option-cases (get (cmd_key cmd server roles_key) cache))
    where
      by_cache :
          (get (cmd_key cmd server roles_key) cache ≡ none)
            ⊎ ((r : CmdCheckResult) × (get (cmd_key cmd server roles_key) cache ≡ some r))
          → IsRight cmd server
              (role ∷ roles)
              (check_cmd_and_server_in_role pf cmd server roles_key (role ∷ roles) cache)
      by_cache (inl miss) =
          subst (IsRight cmd server (role ∷ roles))
            (sym (check_miss cmd server roles_key role roles cache miss))
            (
              refl,
              put-IsCoherent _ _ cache
                  (record {
                    cmd = cmd;
                    server = server;
                    roles_key = roles_key;
                    is_key = refl;
                    cmd_line = hc;
                    server_line = hs;
                    is_result = same cmd server;
                  })
                  co,
            )
      by_cache (inr (r, hit)) =
          subst (IsRight cmd server (role ∷ roles))
            (sym (check_hit cmd server roles_key role roles cache r hit))
            (hit_is_right cmd server roles_key (role ∷ roles) r hc hs same (co _ r hit), co)

-- If the cache is empty, two checks carry the same role key and each at least one role: after the
-- check of a command with a newline in it, the check of the command before the newline, on the server
-- that the rest and the first server make, is answered by the first result, whatever its roles permit.
pub cmd_key_collision :
    (pf : Platform) (c t s key : List ℕ) (role role' : RoleAcl) (roles roles' : List RoleAcl)
    → let out = check_cmd_and_server_in_role pf (c ++ (10 ∷ t)) s key (role ∷ roles) [] in
      (check_cmd_and_server_in_role pf c (t ++ (10 ∷ s)) key (role' ∷ roles') out.1).0
      ≡ check_roles pf (c ++ (10 ∷ t)) s (role ∷ roles)
cmd_key_collision pf c t s key role role' roles roles' =
    let cat : List ℕ → List RoleAcl = λ _. [] in
    let r = check_roles pf (c ++ (10 ∷ t)) s (role ∷ roles) in
    let k = cmd_key (c ++ (10 ∷ t)) s key in
    let same : cmd_key c (t ++ (10 ∷ s)) key ≡ k = unfold cmd_key in simp append_assoc in
    let stored : get (cmd_key c (t ++ (10 ∷ s)) key) (put k r []) ≡ some r =
      rw (same, get-put k k r [], bytes_eq_refl k) in
    rw (check_miss pf cat (c ++ (10 ∷ t)) s key role roles [] (unfold get in refl)) (
      ap (λ (o : CmdCheckResult × CmdCache). o.0)
        (check_hit pf cat c (t ++ (10 ∷ s)) key role' roles' (put k r []) r stored))
