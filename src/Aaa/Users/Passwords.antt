-- ===== src/Aaa/Users/Passwords.antt =====
-- The cache of password checks of pkg/client/tac_plus/user.go.
use tacacs_plus_go.Aaa.Users.Cache.{IsLine}
use tacacs_plus_go.Aaa.Users.{PasswordCache, Platform, check_user_password, password_key}
use tacacs_plus_go.Base.{
  Bool, Bool-cases, List, Option-cases, [], ap₂, arith, bytes_eq, bytes_eq_iff, false, get, get-put,
  if◌then◌else◌, inl, inr, none, put, refl, some, subst, sym, true, ℕ, ◌++◌, ◌∙◌, ◌∷◌, ◌≡◌, ◌⊎◌,
}

not-IsLine : (xs ys : List ℕ) → ¬ IsLine (xs ++ (10 ∷ ys))
not-IsLine [] ys h = h.0 refl
not-IsLine (x ∷ xs) ys h = not-IsLine xs ys h.1

-- A hash with no newline is what follows the last newline of the key.
pub password_key-injective :
    (p p' h h' : List ℕ)
    → IsLine h
    → IsLine h'
    → password_key p h ≡ password_key p' h'
    → (p ≡ p') × (h ≡ h')
unfolding password_key
password_key-injective [] [] h h' l l' e = (refl, cc)
password_key-injective [] (y ∷ p') h h' l l' e =
    let t : h ≡ p' ++ (10 ∷ h') = cc in absurd (not-IsLine p' h' (subst IsLine t l))
password_key-injective (x ∷ p) [] h h' l l' e =
    let t : p ++ (10 ∷ h) ≡ h' = cc in absurd (not-IsLine p h (subst IsLine (sym t) l'))
password_key-injective (x ∷ p) (y ∷ p') h h' l l' e =
    let tails : p ++ (10 ∷ h) ≡ p' ++ (10 ∷ h') = cc in
    let heads : x ≡ y = cc in
    let (s, t) = password_key-injective p p' h h' l l' tails in (cc (heads, s), t)

module _ (pf : Platform) where
  pub record Checked (key : List ℕ) (v : Bool) : Type 0 where
    pub password : List ℕ
    pub hash : List ℕ
    pub is_key : key ≡ password_key password hash
    pub hash_line : IsLine hash
    pub is_result : v ≡ pf.check_password_hash password hash

  -- Every cached result is the one that bcrypt gives.
  abbrev pub IsRightCache : PasswordCache → Type 0
  IsRightCache cache = (k : List ℕ) (v : Bool) → get k cache ≡ some v → Checked k v

  put-IsRightCache :
      (k : List ℕ) (v : Bool) (cache : PasswordCache)
      → Checked k v
      → IsRightCache cache
      → IsRightCache (put k v cache)
  put-IsRightCache k v cache new old j t e =
      by_key (Bool-cases (bytes_eq k j)) (sym (get-put k j v cache) ∙ e)
    where
      by_key :
          (bytes_eq k j ≡ true) ⊎ (bytes_eq k j ≡ false)
          → (if bytes_eq k j then some v else get j cache) ≡ some t
          → Checked j t
      by_key (inl same) f =
          let at : k ≡ j = (bytes_eq_iff k j).0 same in
          let is : v ≡ t = ground (arith, same, f) in
          subst (λ x. Checked x t) at (subst (λ x. Checked k x) is new)
      by_key (inr other) f = old j t (rw other at f)

  -- A hash without a newline is checked as bcrypt checks it, whatever the cache holds, and the cache
  -- stays right.
  pub check_user_password-right :
      (password hash : List ℕ) (cache : PasswordCache)
      → IsLine hash
      → IsRightCache cache
      → let out = check_user_password pf password hash cache in
        (out.0 ≡ pf.check_password_hash password hash) × IsRightCache out.1
  unfolding check_user_password
  check_user_password-right password hash cache line right =
      by_cache (Option-cases (get (password_key password hash) cache))
    where
      by_cache :
          (get (password_key password hash) cache ≡ none)
            ⊎ ((v : Bool) × (get (password_key password hash) cache ≡ some v))
          → ((check_user_password pf password hash cache).0 ≡ pf.check_password_hash password hash)
            × IsRightCache (check_user_password pf password hash cache).1
      by_cache (inl miss) =
          rw (miss, check_user_password)
            (
              refl,
              put-IsRightCache _ _ cache
                  (record {
                    password = password;
                    hash = hash;
                    is_key = refl;
                    hash_line = line;
                    is_result = refl;
                  })
                  right,
            )
      by_cache (inr (v, hit)) =
          let c = right _ v hit in
          let (p, h) =
            password_key-injective password c.password hash c.hash line c.hash_line c.is_key in
          rw (hit, check_user_password) (c.is_result ∙ sym (ap₂ pf.check_password_hash p h), right)
