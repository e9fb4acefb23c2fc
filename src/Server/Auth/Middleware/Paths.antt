-- ===== src/Server/Auth/Middleware/Paths.antt =====
-- The paths and methods of the rules in pkg/server/http/acl.go, written out, and the code's tests.
use tacacs_plus_go.Base.{
  Any, Bool, Bool-cases, List, [], ap, arith, bytes_eq, bytes_eq_iff, codes, exists, false,
  has_prefix, inl, inr, refl, true, ℕ, ◌++◌, ◌∙◌, ◌∷◌, ◌≡◌, ◌≢◌, ◌⊎◌,
}
use tacacs_plus_go.Server.Auth.Middleware.{
  admin_only_exact, admin_only_prefixes, admin_write_prefixes, has_body_method, is_in,
  path_requires_admin, swm_auth_exempt_paths,
}

-- A path that begins with a text.
abbrev pub Starts : List ℕ → List ℕ → Type 0
Starts path prefix = (rest : List ℕ) × (path ≡ prefix ++ rest)

abbrev pub IsWriting : List ℕ → Type 0
IsWriting method =
    Any (λ m. method ≡ m) (codes "POST" ∷ codes "PUT" ∷ codes "DELETE" ∷ codes "PATCH" ∷ [])

-- What only an administrator may ask for.
abbrev pub IsAdminPath : List ℕ → List ℕ → Type 0
IsAdminPath path method =
    Any (λ p. path ≡ p)
      (codes "/tacacs/user/reset/password"
        ∷ codes "/tacacs/meta/refresh"
        ∷ codes "/tacacs/system/log-config"
        ∷ [])
    ⊎ (Any (Starts path) (
          codes "/tacacs/user/get-admin"
          ∷ codes "/tacacs/user/delete"
          ∷ codes "/tacacs/user/create"
          ∷ codes "/tacacs/user/clear/"
          ∷ codes "/tacacs/template/command/"
          ∷ codes "/tacacs/template/server/"
          ∷ [])
        ⊎ (IsWriting method
            × Any (Starts path) (codes "/tacacs/system/" ∷ codes "/tacacs/template/role/" ∷ [])))

-- The bodies sent to these paths say whose they are.
abbrev pub IsOwnersPath : List ℕ → Type 0
IsOwnersPath path =
    Any (λ p. path ≡ p)
      (codes "/tacacs/user/update/password"
        ∷ codes "/tacacs/user/update/notes"
        ∷ codes "/tacacs/user/update/basicInfo"
        ∷ codes "/tacacs/approval/create"
        ∷ [])

has_prefix-prepend : (p s : List ℕ) → has_prefix p (p ++ s) ≡ true
unfolding has_prefix
has_prefix-prepend [] s = refl
has_prefix-prepend (c ∷ p) s = ground (arith, has_prefix-prepend p s)

exists-Any_not :
    (test : List ℕ → Bool) (P : List ℕ → Type 0) (xs : List (List ℕ))
    → ((x : List ℕ) → P x → test x ≡ true)
    → exists test xs ≡ false
    → ¬ Any P xs
unfolding exists
exists-Any_not test P [] holds h m = m
exists-Any_not test P (x ∷ xs) holds h (inl p) = absurd (ground (arith, h, holds x p))
exists-Any_not test P (x ∷ xs) holds h (inr m) =
    exists-Any_not test P xs holds (ground (arith, h)) m

pub is_in-Any :
    (path : List ℕ) (paths : List (List ℕ)) → is_in paths path ≡ false → ¬ Any (λ p. path ≡ p) paths
unfolding is_in
is_in-Any path paths h =
    exists-Any_not (bytes_eq path) (λ p. path ≡ p) paths (λ x e. (bytes_eq_iff path x).1 e) h

exists-Starts :
    (path : List ℕ) (prefixes : List (List ℕ))
    → exists (λ p. has_prefix p path) prefixes ≡ false
    → ¬ Any (Starts path) prefixes
exists-Starts path prefixes h =
    exists-Any_not (λ p. has_prefix p path) (Starts path) prefixes
      (λ p (rest, e). ap (has_prefix p) e ∙ has_prefix-prepend p rest) h

pub IsWriting-has_body_method : (m : List ℕ) → IsWriting m → has_body_method m ≡ true
unfolding has_body_method
IsWriting-has_body_method m (inl e) = ground (arith, (bytes_eq_iff _ _).1 e)
IsWriting-has_body_method m (inr (inl e)) = ground (arith, (bytes_eq_iff _ _).1 e)
IsWriting-has_body_method m (inr (inr (inl e))) = ground (arith, (bytes_eq_iff _ _).1 e)
IsWriting-has_body_method m (inr (inr (inr (inl e)))) = ground (arith, (bytes_eq_iff _ _).1 e)
IsWriting-has_body_method m (inr (inr (inr (inr x)))) = elim x [ ]

pub path_requires_admin-IsAdminPath :
    (path method : List ℕ) → path_requires_admin path method ≡ false → ¬ IsAdminPath path method
unfolding path_requires_admin
path_requires_admin-IsAdminPath path method h (inl m) =
    is_in-Any path admin_only_exact (ground (arith, h)) m
path_requires_admin-IsAdminPath path method h (inr (inl m)) =
    exists-Starts path admin_only_prefixes (ground (arith, h)) m
path_requires_admin-IsAdminPath path method h (inr (inr (w, m))) =
    exists-Starts path admin_write_prefixes (ground (arith, h, IsWriting-has_body_method method w))
      m

pub not_exempt : (path : List ℕ) → path ≢ codes "/health" → is_in swm_auth_exempt_paths path ≡ false
unfolding is_in exists
not_exempt path ne = elim (Bool-cases (bytes_eq path (codes "/health"))) [
  | inl e ↦ absurd (ne ((bytes_eq_iff _ _).0 e))
  | inr e ↦ ground (arith, e)
]
