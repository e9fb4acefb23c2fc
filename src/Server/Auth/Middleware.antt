-- ===== src/Server/Auth/Middleware.antt =====
-- pkg/server/http: swmAuthMiddleware and acl.go, from the request to its handler.
pub mod Paths
pub mod Allowed
pub mod Served
use tacacs_plus_go.Base.{
  Bool, List, Option, [], bytes_eq, codes, exists, false, has_prefix, if◌then◌else◌, none, not,
  some, true, ℕ, ◌&&◌, ◌==◌, ◌||◌, ◌∷◌,
}
use tacacs_plus_go.Server.Auth.{
  Body, NonceStore, Platform, Request, is_blank, read_and_restore_body, verify_swm_signature,
}

-- cfg.ServerConfig().SwmAuth, with its resolved secret
pub record SwmAuth : Type 0 where
  pub secret : List ℕ
  pub max_skew : ℕ
  pub enforce : Bool

-- encoding/json: the int64 under "status" and the text under "user", the zero value if the key is
-- missing, and nothing if json.Unmarshal fails.
pub record Json : Type 0 where
  pub status : List ℕ → Option ℕ
  pub user : List ℕ → Option (List ℕ)

-- c.JSON with a status and c.Abort, or c.Next: the value under swmAuthVerifiedContextKey, if it is
-- set, and the body that is left.
pub data Outcome : Type 0 where
  aborts : ℕ → Outcome
  serves : Option Bool → Body → Outcome

abbrev pub swm_auth_exempt_paths : List (List ℕ)
swm_auth_exempt_paths = codes "/health" ∷ []

abbrev pub admin_only_prefixes : List (List ℕ)
admin_only_prefixes =
    codes "/tacacs/user/get-admin"
    ∷ codes "/tacacs/user/delete"
    ∷ codes "/tacacs/user/create"
    ∷ codes "/tacacs/user/clear/"
    ∷ codes "/tacacs/template/command/"
    ∷ codes "/tacacs/template/server/"
    ∷ []

abbrev pub admin_write_prefixes : List (List ℕ)
admin_write_prefixes = codes "/tacacs/system/" ∷ codes "/tacacs/template/role/" ∷ []

abbrev pub admin_only_exact : List (List ℕ)
admin_only_exact =
    codes "/tacacs/user/reset/password"
    ∷ codes "/tacacs/meta/refresh"
    ∷ codes "/tacacs/system/log-config"
    ∷ []

abbrev pub ownership_body_user_paths : List (List ℕ)
ownership_body_user_paths =
    codes "/tacacs/user/update/password"
    ∷ codes "/tacacs/user/update/notes"
    ∷ codes "/tacacs/user/update/basicInfo"
    ∷ codes "/tacacs/approval/create"
    ∷ []

abbrev pub approval_update_path : List ℕ
approval_update_path = codes "/tacacs/approval/update"

abbrev pub approval_status_close : ℕ
approval_status_close = 0

unfoldable pub is_in : List (List ℕ) → List ℕ → Bool
is_in paths path = exists (bytes_eq path) paths

unfoldable pub has_body_method : List ℕ → Bool
has_body_method m =
    (bytes_eq m (codes "POST") || bytes_eq m (codes "PUT"))
    || (bytes_eq m (codes "DELETE") || bytes_eq m (codes "PATCH"))

unfoldable pub path_requires_admin : List ℕ → List ℕ → Bool
path_requires_admin path method =
    if is_in admin_only_exact path
    then true
    else if exists (λ p. has_prefix p path) admin_only_prefixes
    then true
    else if has_body_method method
    then exists (λ p. has_prefix p path) admin_write_prefixes
    else false

unfoldable pub is_admin_request : Request → Bool
is_admin_request r = bytes_eq r.is_admin (codes "1")

module _ (json : Json) where
  -- The status of the approval is to be changed to something else than closed.
  unfoldable pub approval_forbidden : Request → List ℕ → Bool
  approval_forbidden r body =
      bytes_eq r.path approval_update_path
      && (elim (json.status body) [
        | none ↦ false
        | some status ↦ not (status == approval_status_close)
      ]
          && not (is_admin_request r))

  -- The body names another user than the request's.
  unfoldable pub ownership_forbidden : Request → List ℕ → Bool
  ownership_forbidden r body =
      (is_in ownership_body_user_paths r.path && not (is_admin_request r))
      && (elim (json.user body) [
        | none ↦ false
        | some u ↦ not (is_blank u) && not (bytes_eq u r.user)
      ])

  unfoldable pub body_forbidden : Request → List ℕ → Bool
  body_forbidden r body =
      not (is_blank body) && (approval_forbidden r body || ownership_forbidden r body)

  unfoldable pub check_body : SwmAuth → Bool → Request → Outcome
  check_body conf verified r =
      if has_body_method r.method
      then (let read = read_and_restore_body r.body in
          elim read.0 [
            | none ↦ aborts 413
            | some body ↦
                if body_forbidden r body && conf.enforce
                then aborts 403
                else serves (some verified) read.1
          ])
      else serves (some verified) r.body

  unfoldable pub check_identity : SwmAuth → Bool → Request → Outcome
  check_identity conf verified r =
      if not verified && conf.enforce
      then aborts 401
      else if is_blank r.user && conf.enforce
      then aborts 401
      else if (path_requires_admin r.path r.method && not (is_admin_request r)) && conf.enforce
      then aborts 403
      else check_body conf verified r

  unfoldable pub swm_auth_middleware :
      Platform → SwmAuth → ℕ → ℕ → Request → NonceStore → Outcome × NonceStore
  swm_auth_middleware pf conf now now_unix r store =
      if is_in swm_auth_exempt_paths r.path
      then (serves none r.body, store)
      else let result = verify_swm_signature pf conf.secret conf.max_skew now now_unix r store in
        let verified : Bool = elim result.0 [ none ↦ true | some _ ↦ false ] in
        (check_identity conf verified (record r { body = result.2 }), result.1)
