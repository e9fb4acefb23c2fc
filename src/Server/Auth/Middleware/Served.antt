-- ===== src/Server/Auth/Middleware/Served.antt =====
-- A request of the console that keeps to the rules reaches its handler.
use tacacs_plus_go.Base.{
  List, [], ap, arith, bytes_eq_iff, codes, false, get, inl, inr, length, none, refl, some, true, ℕ,
  ◌+◌, ◌<◌, ◌^◌, ◌∙◌, ◌≡◌, ◌≢◌, ◌≤◌, ◌⊎◌,
}
use tacacs_plus_go.Server.Auth.{
  Body, NonceStore, Platform, Request, delivers, max_body_peek, max_nonce_count, max_nonce_length,
  read_and_restore_body, skew_or_default, verify_swm_signature,
}
use tacacs_plus_go.Server.Auth.Signing.{
  IsGo, IsToken, compute_signature_header, is_blank_of, read_and_restore_body-delivers,
  verify_swm_signature-compute_signature_header,
}
use tacacs_plus_go.Server.Auth.Middleware.{
  Json, SwmAuth, body_forbidden, check_body, check_identity, is_admin_request, is_in,
  path_requires_admin, serves, swm_auth_exempt_paths, swm_auth_middleware,
}

module _ (json : Json) (pf : Platform) (go : IsGo pf) (conf : SwmAuth) where
  check_identity_passes :
      (r : Request) (body : List ℕ)
      → r.user ≢ []
      → (path_requires_admin r.path r.method ≡ false) ⊎ (is_admin_request r ≡ true)
      → r.body ≡ delivers body
      → length body ≤ max_body_peek
      → body_forbidden json r body ≡ false
      → check_identity json conf true r ≡ serves (some true) (delivers body)
  unfolding check_identity check_body
  check_identity_passes r body known admin whole small free =
      let b = is_blank_of r.user known in
      let read = ap read_and_restore_body whole ∙ read_and_restore_body-delivers body small in
      ground (arith, b, admin, whole, read, free)

  swm_auth_middleware_verified :
      (now now_unix : ℕ) (r : Request) (left : Body) (store : NonceStore)
      → is_in swm_auth_exempt_paths r.path ≡ false
      → (verify_swm_signature pf conf.secret conf.max_skew now now_unix r store).0 ≡ none
      → (verify_swm_signature pf conf.secret conf.max_skew now now_unix r store).2 ≡ left
      → (swm_auth_middleware json pf conf now now_unix r store).0
        ≡ check_identity json conf true (record r { body = left })
  unfolding swm_auth_middleware
  swm_auth_middleware_verified now now_unix r left store path accepted kept =
      rw (path, accepted, kept) refl

  -- A request that the console has signed with the shared secret reaches its handler, marked as
  -- verified and with its whole body, whether the checks are enforced or not: if the clocks differ by
  -- no more than the skew, the nonce is a short token that the store does not hold, the store is not
  -- full, the body is within 256 KiB, there is a user, an administrators' path is asked for by an
  -- administrator, and the body breaks no rule.
  pub swm_auth_middleware-compute_signature_header :
      (sent now now_unix : ℕ) (nonce method path user is_admin body : List ℕ) (store : NonceStore)
      → conf.secret ≢ []
      → IsToken nonce
      → length nonce ≤ max_nonce_length
      → length body ≤ max_body_peek
      → sent < 2 ^ 62
      → now < 2 ^ 62
      → skew_or_default conf.max_skew < 2 ^ 62
      → sent ≤ now + skew_or_default conf.max_skew
      → now ≤ sent + skew_or_default conf.max_skew
      → store.count < max_nonce_count
      → get nonce store.entries ≡ none
      → is_in swm_auth_exempt_paths path ≡ false
      → user ≢ []
      → (path_requires_admin path method ≡ false) ⊎ (is_admin ≡ codes "1")
      → let r : Request = record {
        method = method;
        path = path;
        signature =
            compute_signature_header pf sent nonce method path user is_admin body conf.secret;
        user = user;
        is_admin = is_admin;
        body = delivers body;
      } in
        body_forbidden json r body ≡ false
        → (swm_auth_middleware json pf conf now now_unix r store).0
          ≡ serves (some true) (delivers body)
  unfolding is_admin_request
  swm_auth_middleware-compute_signature_header sent now now_unix nonce method path user is_admin
        body store has token short small s n k early late room free exempt known admin rule =
      let signed =
        verify_swm_signature-compute_signature_header pf go sent now now_unix conf.max_skew nonce
          method path user is_admin body conf.secret store has token short small s n k early late
          room free in
      let r : Request = record {
        method = method;
        path = path;
        signature =
            compute_signature_header pf sent nonce method path user is_admin body conf.secret;
        user = user;
        is_admin = is_admin;
        body = delivers body;
      } in
      swm_auth_middleware_verified now now_unix r (delivers body) store exempt signed.0 signed.1
      ∙ check_identity_passes r body known
          (elim admin [ inl e ↦ inl e | inr e ↦ inr ((bytes_eq_iff is_admin (codes "1")).1 e) ])
          refl small rule
