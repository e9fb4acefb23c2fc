-- ===== src/Server/Auth/Verify.antt =====
-- The outcomes of verifySwmSignature (pkg/server/http/middleware_swm_auth.go).
use tacacs_plus_go.Base.{List, Option, arith, inl, inr, refl, some, true, ℕ, ◌≡◌, ◌≢◌, ◌⊎◌}
use tacacs_plus_go.Server.Auth.{
  Body, NonceStore, Platform, Request, SigParts, SignatureCheck, SwmAuthErr, check_signature,
  is_stale, parse_swm_sig_header, rejects, signs, skew_or_default, use_nonce, verify_swm_signature,
}

module _ (pf : Platform) (secret : List ℕ) (max_skew : ℕ) where
  abbrev pub verify : ℕ → ℕ → Request → NonceStore → Option SwmAuthErr × NonceStore × Body
  verify now now_unix r store = verify_swm_signature pf secret max_skew now now_unix r store

  pub SignatureCheck-cases :
      (c : SignatureCheck)
      → ((e : SwmAuthErr) × (c ≡ rejects e)) ⊎ ((nonce : List ℕ) × (c ≡ signs nonce))
  SignatureCheck-cases (rejects e) = inl (e, refl)
  SignatureCheck-cases (signs nonce) = inr (nonce, refl)

  pub check_signature_signs :
      (skew now : ℕ) (r : Request) (parts : SigParts) (nonce : List ℕ)
      → parse_swm_sig_header pf r.signature ≡ some parts
      → (check_signature pf secret skew now r).0 ≡ signs nonce
      → nonce ≡ parts.nonce
  unfolding check_signature
  check_signature_signs skew now r parts nonce e h = ground (arith, e, h)

  pub check_signature_stale :
      (skew now : ℕ) (r : Request) (parts : SigParts) (ts : ℕ) (nonce : List ℕ)
      → parse_swm_sig_header pf r.signature ≡ some parts
      → pf.parse_int parts.ts ≡ some ts
      → is_stale now ts skew ≡ true
      → (check_signature pf secret skew now r).0 ≢ signs nonce
  unfolding check_signature
  check_signature_stale skew now r parts ts nonce e t stale h = ground (arith, e, t, stale, h)

  pub verify_rejects :
      (now now_unix : ℕ) (r : Request) (store : NonceStore) (e : SwmAuthErr)
      → (check_signature pf secret (skew_or_default max_skew) now r).0 ≡ rejects e
      → ((verify now now_unix r store).0 ≡ some e) × ((verify now now_unix r store).1 ≡ store)
  unfolding verify_swm_signature
  verify_rejects now now_unix r store e h = (ground (arith, h), ground (arith, h))

  pub verify_signs :
      (now now_unix : ℕ) (r : Request) (store : NonceStore) (nonce : List ℕ)
      → (check_signature pf secret (skew_or_default max_skew) now r).0 ≡ signs nonce
      → ((verify now now_unix r store).0
          ≡ (use_nonce now now_unix (skew_or_default max_skew) nonce store).0)
        × ((verify now now_unix r store).1
            ≡ (use_nonce now now_unix (skew_or_default max_skew) nonce store).1)
  unfolding verify_swm_signature
  verify_signs now now_unix r store nonce h = (ground (arith, h), ground (arith, h))
