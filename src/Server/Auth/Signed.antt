-- ===== src/Server/Auth/Signed.antt =====
-- What verifySwmSignature asks of a request (pkg/server/http/middleware_swm_auth.go).
use tacacs_plus_go.Base.{
  Bool-cases, List, Option-cases, [], ap, arith, bytes_eq_iff, false, get, inl, inr, length, ltb,
  none, refl, some, subst, suc, sym, zero, ℕ, ◌&&◌, ◌++◌, ◌+◌, ◌<◌, ◌^◌, ◌∙◌, ◌∷◌, ◌≡◌, ◌≢◌, ◌≤◌,
  ◌⊎◌,
}
use tacacs_plus_go.Server.Auth.{
  NonceStore, Platform, Request, SigParts, abs64, canonical, check_signature, is_blank, is_stale,
  le64, or_empty, parse_swm_sig_header, read_and_restore_body, signs, skew_or_default, sub64,
  use_nonce, verify_swm_signature,
}
use tacacs_plus_go.Server.Auth.Verify.{SignatureCheck-cases, verify_rejects, verify_signs}
use tacacs_plus_go.Server.Auth.Replay.{use_nonce-refuses}

-- The seconds that a timestamp may lie off the clock: 300 where none are configured.
abbrev pub allowed_skew : ℕ → ℕ
allowed_skew zero = 300
allowed_skew (suc n) = suc n

-- Texts on lines of their own.
abbrev pub lines : List (List ℕ) → List ℕ
lines [] = []
lines (text ∷ []) = text
lines (text ∷ next ∷ texts) = text ++ (10 ∷ lines (next ∷ texts))

-- A timestamp within the skew of the clock, where numbers from 2 ^ 63 on stand for the negative ones
-- less 2 ^ 64. The one that lies 2 ^ 63 seconds before the clock passes too.
abbrev pub IsTimely : ℕ → ℕ → ℕ → Type 0
IsTimely now skew ts =
    ((ts < 2 ^ 63) × (ts ≤ now + skew) × (now ≤ ts + skew))
    ⊎ ((2 ^ 64 + now ≤ ts + skew) ⊎ (ts ≡ 2 ^ 63 + now))

-- A nonce that the store does not hold, or holds with an expiry that has passed (or is negative).
abbrev pub IsFresh : ℕ → NonceStore → List ℕ → Type 0
IsFresh now_unix store nonce =
    (get nonce store.entries ≡ none)
    ⊎ ((exp : ℕ) × (get nonce store.entries ≡ some exp) × ((exp ≤ now_unix) ⊎ (2 ^ 63 ≤ exp)))

module _ (pf : Platform) where
  -- The request carries a signature of itself under the secret, a timely timestamp and a fresh nonce.
  pub record IsSigned (secret : List ℕ) (max_skew now now_unix : ℕ) (r : Request)
      (store : NonceStore) : Type 0 where
    pub keyed : secret ≢ []
    pub parts : SigParts
    pub header : parse_swm_sig_header pf r.signature ≡ some parts
    pub ts : ℕ
    pub dated : pf.parse_int parts.ts ≡ some ts
    pub timely : IsTimely now (allowed_skew max_skew) ts
    pub named : parts.nonce ≢ []
    pub short : length parts.nonce ≤ 128
    pub mac :
        pf.mac secret (
          lines (
            r.method
            ∷ r.path
            ∷ parts.ts
            ∷ parts.nonce
            ∷ r.user
            ∷ r.is_admin
            ∷ pf.body_hash (or_empty (read_and_restore_body r.body).0)
            ∷ []))
        ≡ parts.sig
    pub first_use : IsFresh now_unix store parts.nonce

  is_blank-nil : (s : List ℕ) → is_blank s ≡ false → s ≢ []
  is_blank-nil s h e = cc (ap is_blank e, h)

  skew_or_default-allowed : (n : ℕ) → skew_or_default n ≡ allowed_skew n
  unfolding skew_or_default
  skew_or_default-allowed zero = refl
  skew_or_default-allowed (suc n) = refl

  skew_or_default-bound : (n : ℕ) → n ≤ 10 ^ 9 → skew_or_default n ≤ 10 ^ 9
  unfolding skew_or_default
  skew_or_default-bound zero h = omega arith
  skew_or_default-bound (suc n) h = h

  is_stale-IsTimely :
      (now skew ts : ℕ)
      → now < 2 ^ 62
      → skew ≤ 10 ^ 9
      → ts < 2 ^ 64
      → is_stale now ts skew ≡ false
      → IsTimely now skew ts
  unfolding is_stale le64 abs64 sub64
  is_stale-IsTimely now skew ts hn hs ht h = ground arith

  -- A nonce that passes is not one that the store holds for later.
  use_nonce-IsFresh :
      (now now_unix skew : ℕ) (nonce : List ℕ) (store : NonceStore)
      → (use_nonce now now_unix skew nonce store).0 ≡ none
      → IsFresh now_unix store nonce
  use_nonce-IsFresh now now_unix skew nonce store h =
      elim (Option-cases (get nonce store.entries)) [
        | inl e ↦ inl e
        | inr (exp, e) ↦ inr (
          exp,
          e,
          elim (Bool-cases (ltb now_unix exp && ltb exp (2 ^ 63))) [
            | inl live ↦ absurd (
                use_nonce-refuses nonce exp now now_unix skew store (ground arith) (ground arith) e
                  h)
            | inr over ↦ ground arith
          ],
        )
      ]

  -- What the checks before the nonce's have found.
  abbrev Checked : List ℕ → ℕ → ℕ → Request → List ℕ → SigParts → ℕ → Type 0
  Checked secret skew now r nonce parts ts =
      (secret ≢ [])
      × (is_stale now ts skew ≡ false)
      × (parts.nonce ≢ [])
      × (length parts.nonce ≤ 128)
      × (pf.mac secret (
            canonical r.method r.path parts.ts parts.nonce r.user r.is_admin
              (pf.body_hash (or_empty (read_and_restore_body r.body).0)))
          ≡ parts.sig)
      × (nonce ≡ parts.nonce)

  check_signature-Checked :
      (secret : List ℕ) (skew now : ℕ) (r : Request) (nonce : List ℕ) (parts : SigParts) (ts : ℕ)
      → parse_swm_sig_header pf r.signature ≡ some parts
      → pf.parse_int parts.ts ≡ some ts
      → (check_signature pf secret skew now r).0 ≡ signs nonce
      → Checked secret skew now r nonce parts ts
  unfolding check_signature
  check_signature-Checked secret skew now r nonce parts ts e d h = (
    is_blank-nil secret (ground (arith, e, d, h)),
    ground (arith, e, d, h),
    is_blank-nil parts.nonce (ground (arith, e, d, h)),
    ground (arith, e, d, h),
    (bytes_eq_iff _ _).0 (ground (arith, e, d, h)),
    ground (arith, e, d, h),
  )

  check_signature_parts :
      (secret : List ℕ) (skew now : ℕ) (r : Request) (nonce : List ℕ)
      → (check_signature pf secret skew now r).0 ≡ signs nonce
      → (parts : SigParts) × (parse_swm_sig_header pf r.signature ≡ some parts)
        × (ts : ℕ) × (pf.parse_int parts.ts ≡ some ts)
  unfolding check_signature
  check_signature_parts secret skew now r nonce h =
      elim (Option-cases (parse_swm_sig_header pf r.signature)) [
        | inl e ↦ absurd (ground (arith, e, h))
        | inr (parts, e) ↦ elim (Option-cases (pf.parse_int parts.ts)) [
          | inl n ↦ absurd (ground (arith, e, n, h))
          | inr (ts, d) ↦ (parts, e, ts, d)
        ]
      ]

  pub verify_swm_signature-IsSigned :
      (secret : List ℕ) (max_skew now now_unix : ℕ) (r : Request) (store : NonceStore)
      → ((s : List ℕ) (n : ℕ) → pf.parse_int s ≡ some n → n < 2 ^ 64)
      → now < 2 ^ 62
      → max_skew ≤ 10 ^ 9
      → (verify_swm_signature pf secret max_skew now now_unix r store).0 ≡ none
      → IsSigned secret max_skew now now_unix r store
  unfolding canonical
  verify_swm_signature-IsSigned secret max_skew now now_unix r store int64 hn hs h =
      let skew = skew_or_default max_skew in
      elim (SignatureCheck-cases pf secret max_skew (check_signature pf secret skew now r).0) [
        | inl (e, c) ↦
            absurd (cc (h, (verify_rejects pf secret max_skew now now_unix r store e c).0))
        | inr (nonce, c) ↦
            let (parts, header, ts, dated) = check_signature_parts secret skew now r nonce c in
            let (keyed, on_time, named, short, mac, is) =
              check_signature-Checked secret skew now r nonce parts ts header dated c in
            let used = sym (verify_signs pf secret max_skew now now_unix r store nonce c).0 ∙ h in
            record {
              keyed = keyed;
              parts = parts;
              header = header;
              ts = ts;
              dated = dated;
              timely =
                  subst (λ s. IsTimely now s ts) (skew_or_default-allowed max_skew)
                    (is_stale-IsTimely now skew ts hn (skew_or_default-bound max_skew hs)
                      (int64 parts.ts ts dated) on_time);
              named = named;
              short = short;
              mac = mac;
              first_use =
                  subst (IsFresh now_unix store) is
                    (use_nonce-IsFresh now now_unix skew nonce store used);
            }
      ]
