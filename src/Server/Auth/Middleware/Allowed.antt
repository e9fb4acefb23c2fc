-- ===== src/Server/Auth/Middleware/Allowed.antt =====
-- Which requests swmAuthMiddleware passes to a handler.
use tacacs_plus_go.Base.{
  Bool, Bool-cases, List, Option, Option-cases, [], ap, arith, bytes_eq, bytes_eq_iff, codes, false,
  inl, inr, none, not, refl, some, true, ℕ, ◌<◌, ◌==◌, ◌^◌, ◌∙◌, ◌∷◌, ◌≡◌, ◌≢◌, ◌≤◌, ◌⊎◌,
}
use tacacs_plus_go.Server.Auth.{
  Body, NonceStore, Platform, Request, is_blank, read_and_restore_body, verify_swm_signature,
}
use tacacs_plus_go.Server.Auth.Middleware.Paths.{
  IsAdminPath, IsOwnersPath, IsWriting, IsWriting-has_body_method, is_in-Any, not_exempt,
  path_requires_admin-IsAdminPath,
}
use tacacs_plus_go.Server.Auth.Middleware.{
  Json, SwmAuth, approval_forbidden, approval_status_close, approval_update_path, body_forbidden,
  check_body, check_identity, has_body_method, is_admin_request, is_in, ownership_body_user_paths,
  ownership_forbidden, path_requires_admin, serves, swm_auth_middleware,
}
use tacacs_plus_go.Server.Auth.Signed.{verify_swm_signature-IsSigned}
use tacacs_plus_go.Server.Auth.Signed.{IsSigned, verify_swm_signature-IsSigned}

module _ (json : Json) (pf : Platform) (conf : SwmAuth) where
  -- The body is empty, or comes from an administrator, or neither changes an approval's status to
  -- something else than closed nor names another user where it must name the request's own.
  abbrev pub BodyRule : Request → List ℕ → Type 0
  BodyRule r bytes =
      (bytes ≡ [])
      ⊎ ((r.is_admin ≡ codes "1")
          ⊎ (((r.path ≢ codes "/tacacs/approval/update")
                ⊎ ((json.status bytes ≡ none) ⊎ (json.status bytes ≡ some 0)))
              × ((¬ IsOwnersPath r.path)
                  ⊎ ((json.user bytes ≡ none)
                      ⊎ ((json.user bytes ≡ some []) ⊎ (json.user bytes ≡ some r.user))))))

  -- The request may be served: it is signed, with a user; the administrators' paths are for an
  -- administrator; and the body of a writing request has been read and satisfies the rule.
  pub record IsAllowed (now now_unix : ℕ) (r : Request) (store : NonceStore) : Type 0 where
    pub signed : IsSigned pf conf.secret conf.max_skew now now_unix r store
    pub known : r.user ≢ []
    pub admin : (¬ IsAdminPath r.path r.method) ⊎ (r.is_admin ≡ codes "1")
    pub body :
        (¬ IsWriting r.method)
        ⊎ ((bytes : List ℕ) × ((read_and_restore_body
                (verify_swm_signature pf conf.secret conf.max_skew now now_unix r store).2).0
              ≡ some bytes)
            × BodyRule r bytes)

  approval_forbidden-false :
      (r : Request) (bytes : List ℕ)
      → is_admin_request r ≡ false
      → approval_forbidden json r bytes ≡ false
      → (r.path ≢ approval_update_path)
        ⊎ ((json.status bytes ≡ none) ⊎ (json.status bytes ≡ some 0))
  unfolding approval_forbidden
  approval_forbidden-false r bytes a h = elim (Bool-cases (bytes_eq r.path approval_update_path)) [
    | inl same ↦ inr (elim (Option-cases (json.status bytes)) [
      | inl e ↦ inl e
      | inr (status, e) ↦ inr (e ∙ ap some (zero_of status (ground (arith, a, h, same, e))))
    ])
    | inr other ↦ inl (λ e. cc (other, (bytes_eq_iff r.path approval_update_path).1 e))
  ]
    where
      zero_of : (n : ℕ) → not (n == approval_status_close) ≡ false → n ≡ 0
      zero_of n h = ground arith

  ownership_forbidden-false :
      (r : Request) (bytes : List ℕ)
      → is_admin_request r ≡ false
      → ownership_forbidden json r bytes ≡ false
      → (¬ IsOwnersPath r.path)
        ⊎ ((json.user bytes ≡ none)
            ⊎ ((json.user bytes ≡ some []) ⊎ (json.user bytes ≡ some r.user)))
  unfolding ownership_forbidden
  ownership_forbidden-false r bytes a h =
      elim (Bool-cases (is_in ownership_body_user_paths r.path)) [
        | inr other ↦ inl (is_in-Any r.path ownership_body_user_paths other)
        | inl owner ↦ inr (elim (Option-cases (json.user bytes)) [
          | inl e ↦ inl e
          | inr ([], e) ↦ inr (inl e)
          | inr (c ∷ u, e) ↦
              inr (
                inr
                  (e ∙ ap some ((bytes_eq_iff (c ∷ u) r.user).0 (ground (arith, a, h, owner, e)))))
        ])
      ]

  admin_of : (r : Request) → is_admin_request r ≡ true → r.is_admin ≡ codes "1"
  unfolding is_admin_request
  admin_of r a = (bytes_eq_iff r.is_admin (codes "1")).0 a

  body_forbidden-false :
      (r : Request) (bytes : List ℕ) → body_forbidden json r bytes ≡ false → BodyRule r bytes
  unfolding body_forbidden
  body_forbidden-false r [] h = inl refl
  body_forbidden-false r (c ∷ bytes) h = inr (elim (Bool-cases (is_admin_request r)) [
    | inl a ↦ inl (admin_of r a)
    | inr a ↦ inr (
      approval_forbidden-false r (c ∷ bytes) a (ground (arith, h)),
      ownership_forbidden-false r (c ∷ bytes) a (ground (arith, h)),
    )
  ])

  check_body-serves :
      (verified : Bool) (r : Request) (flag : Option Bool) (left : Body)
      → conf.enforce ≡ true
      → check_body json conf verified r ≡ serves flag left
      → (¬ IsWriting r.method)
        ⊎ ((bytes : List ℕ) × ((read_and_restore_body r.body).0 ≡ some bytes) × BodyRule r bytes)
  unfolding check_body
  check_body-serves verified r flag left on h = elim (Bool-cases (has_body_method r.method)) [
    | inr e ↦ inl (λ w. cc (e, IsWriting-has_body_method r.method w))
    | inl e ↦ inr (elim (Option-cases (read_and_restore_body r.body).0) [
      | inl n ↦ absurd (ground (arith, h, e, n))
      | inr (bytes, b) ↦ (bytes, b, body_forbidden-false r bytes (ground (arith, h, e, b, on)))
    ])
  ]

  check_identity-serves :
      (verified : Bool) (r : Request) (flag : Option Bool) (left : Body)
      → conf.enforce ≡ true
      → check_identity json conf verified r ≡ serves flag left
      → (verified ≡ true)
        × (is_blank r.user ≡ false)
        × ((path_requires_admin r.path r.method ≡ false) ⊎ (is_admin_request r ≡ true))
        × (check_body json conf verified r ≡ serves flag left)
  unfolding check_identity
  check_identity-serves verified r flag left on h = ground (arith, on, h)

  -- With enforcement, a request on a path that is not exempt is passed to its handler only if it
  -- carries a header whose signature is the MAC of its canonical lines, a timestamp within the skew
  -- (or the least int64 behind the clock) and a nonce of at most 128 bytes that the store holds for
  -- no later time, names a user, comes from an administrator where the path is an administrators'
  -- one, and has, for a writing method, a body that was read and that, unless it is empty or the
  -- request an administrator's, neither sets an approval to another status than closed nor names
  -- another user on a path of owners. The parser of timestamps yields int64s, the clock is below
  -- 2 ^ 62 and the skew at most 10 ^ 9.
  pub swm_auth_middleware-IsAllowed :
      (now now_unix : ℕ) (r : Request) (store : NonceStore) (flag : Option Bool) (left : Body)
      → ((s : List ℕ) (n : ℕ) → pf.parse_int s ≡ some n → n < 2 ^ 64)
      → now < 2 ^ 62
      → conf.max_skew ≤ 10 ^ 9
      → conf.enforce ≡ true
      → r.path ≢ codes "/health"
      → (swm_auth_middleware json pf conf now now_unix r store).0 ≡ serves flag left
      → IsAllowed now now_unix r store
  unfolding swm_auth_middleware
  swm_auth_middleware-IsAllowed now now_unix r store flag left int64 hn hs on path h =
      let result = verify_swm_signature pf conf.secret conf.max_skew now now_unix r store in
      let verified : Bool = elim result.0 [ none ↦ true | some _ ↦ false ] in
      let r' : Request = record r { body = result.2 } in
      let passed =
        check_identity-serves verified r' flag left on
          (ground (arith, h, not_exempt r.path path)) in
      record {
        signed =
            verify_swm_signature-IsSigned pf conf.secret conf.max_skew now now_unix r store int64 hn
              hs (ground (arith, passed.0));
        known = λ e. cc (ap is_blank e, passed.1);
        admin = elim passed.2 [
          | inl e ↦ inl (path_requires_admin-IsAdminPath r.path r.method e)
          | inr e ↦ inr (admin_of r' e)
        ];
        body = check_body-serves verified r' flag left on passed.3;
      }
