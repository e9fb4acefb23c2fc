-- ===== src/Server/Auth/Counted.antt =====
-- How large the store of nonces of pkg/server/http/middleware_swm_auth.go becomes.
use tacacs_plus_go.Base.{
  Bool-cases, List, Option-cases, [], arith, bytes_eq, false, get, if◌then◌else◌, inl, inr, leb,
  length, none, put, refl, subst, sym, true, ℕ, ◌+◌, ◌∷◌, ◌≡◌, ◌≤◌,
}
use tacacs_plus_go.Server.Auth.{
  NonceStore, Platform, Request, check_signature, clean, clean_if_full, expiry, live_nonces,
  max_nonce_count, skew_or_default, use_nonce, verify_swm_signature,
}
use tacacs_plus_go.Server.Auth.Verify.{SignatureCheck-cases, verify_rejects, verify_signs}

-- The counter is the number of the entries, and within the limit.
pub record IsCounted (store : NonceStore) : Type 0 where
  pub counted : store.count ≡ length store.entries
  pub bounded : store.count ≤ max_nonce_count

length-live_nonces :
    (now : ℕ) (entries : List (List ℕ × ℕ)) → length (live_nonces now entries) ≤ length entries
unfolding live_nonces
length-live_nonces now [] = omega arith
length-live_nonces now ((nonce, exp) ∷ entries) = ground (arith, length-live_nonces now entries)

length-put :
    (k : List ℕ) (v : ℕ) (m : List (List ℕ × ℕ))
    → get k m ≡ none
    → length (put k v m) ≡ length m + 1
unfolding get put
length-put k v [] e = refl
length-put k v ((j, u) ∷ m) e = elim (Bool-cases (bytes_eq j k)) [
  | inl same ↦ absurd (ground (arith, same, e))
  | inr other ↦ let ih = length-put k v m (ground (arith, other, e)) in ground (arith, other, ih)
]

-- A pass of the cleaner keeps the counter right and the store within the limit.
pub clean-IsCounted : (now : ℕ) (store : NonceStore) → IsCounted store → IsCounted (clean now store)
unfolding clean
clean-IsCounted now store c =
    let less = length-live_nonces now store.entries in
    record {
      counted = omega (arith, less, c.counted);
      bounded = omega (arith, less, c.counted, c.bounded);
    }

clean_if_full-IsCounted :
    (now : ℕ) (store : NonceStore) → IsCounted store → IsCounted (clean_if_full now store)
unfolding clean_if_full
clean_if_full-IsCounted now store c =
    elim (leb max_nonce_count store.count)
      as (λ b. IsCounted (if b then clean now store else store)) [
        | true ↦ clean-IsCounted now store c
        | false ↦ c
      ]

use_nonce-IsCounted :
    (now now_unix skew : ℕ) (nonce : List ℕ) (former : NonceStore)
    → IsCounted former
    → IsCounted (use_nonce now now_unix skew nonce former).1
unfolding use_nonce
use_nonce-IsCounted now now_unix skew nonce former c =
    let store = clean_if_full now_unix former in
    let ready = clean_if_full-IsCounted now_unix former c in
    elim (Bool-cases (leb max_nonce_count store.count)) [
      | inl full ↦ rw full ready
      | inr room ↦ elim (Option-cases (get nonce store.entries)) [
        | inr (exp, e) ↦ rw (room, e) ready
        | inl e ↦
            let more = length-put nonce (expiry now skew) store.entries e in
            rw (room, e)
              (record {
                counted = omega (arith, more, ready.counted);
                bounded = ground (arith, room);
              })
      ]
    ]

-- Whatever requests come, signed or not: the counter stays the number of the nonces that are stored,
-- and there are never more than maxNonceCount of them.
pub verify_swm_signature-IsCounted :
    (pf : Platform) (secret : List ℕ) (max_skew now now_unix : ℕ) (r : Request) (store : NonceStore)
    → IsCounted store
    → IsCounted (verify_swm_signature pf secret max_skew now now_unix r store).1
verify_swm_signature-IsCounted pf secret max_skew now now_unix r store c =
    let skew = skew_or_default max_skew in
    elim (SignatureCheck-cases pf secret max_skew (check_signature pf secret skew now r).0) [
      | inl (e, h) ↦
          subst IsCounted (sym (verify_rejects pf secret max_skew now now_unix r store e h).1) c
      | inr (nonce, h) ↦
          subst IsCounted (sym (verify_signs pf secret max_skew now now_unix r store nonce h).1)
            (use_nonce-IsCounted now now_unix skew nonce store c)
    ]
