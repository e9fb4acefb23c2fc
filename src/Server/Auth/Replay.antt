-- ===== src/Server/Auth/Replay.antt =====
-- The clock of pkg/server/http/middleware_swm_auth.go, and how long the store holds a nonce.
use tacacs_plus_go.Base.{
  Bool-cases, List, [], arith, bytes_eq, bytes_eq_iff, get, get-put, if◌then◌else◌, inl, inr, leb,
  ltb, none, put, some, true, ℕ, ◌+◌, ◌<◌, ◌^◌, ◌∙◌, ◌∷◌, ◌≡◌, ◌≢◌, ◌≤◌, ◌⊎◌,
}
use tacacs_plus_go.Server.Auth.{
  NonceStore, abs64, clean, clean_if_full, expiry, is_stale, le64, live_nonces, nonce_ttl_for_skew,
  seconds64, sub64, use_nonce,
}

-- The seconds for which a nonce is kept.
abbrev pub ttl_seconds : ℕ → ℕ
ttl_seconds skew = if ltb 600 skew then skew + 60 else 600

le64_small : (a b : ℕ) → a < 2 ^ 63 → b < 2 ^ 63 → le64 a b ≡ leb a b
unfolding le64
le64_small a b h k = ground arith

pub is_stale_late : (now ts skew : ℕ) → now < 2 ^ 62 → ts + skew < now → is_stale now ts skew ≡ true
unfolding is_stale le64 abs64 sub64
is_stale_late now ts skew h k = ground arith

pub expiry_seconds :
    (now skew : ℕ) → now < 2 ^ 62 → skew ≤ 10 ^ 9 → expiry now skew ≡ now + ttl_seconds skew
unfolding expiry seconds64 nonce_ttl_for_skew le64
expiry_seconds now skew h k = ground arith

pub live_nonces-keeps :
    (now : ℕ) (nonce : List ℕ) (exp : ℕ) (entries : List (List ℕ × ℕ))
    → now < exp
    → exp < 2 ^ 63
    → get nonce entries ≡ some exp
    → get nonce (live_nonces now entries) ≡ some exp
unfolding live_nonces get
live_nonces-keeps now nonce exp [] h k e = e
live_nonces-keeps now nonce exp ((j, u) ∷ entries) h k e = elim (Bool-cases (bytes_eq j nonce)) [
  | inl same ↦
      let fresh = le64_small exp now k (omega (arith, h, k)) in ground (arith, same, e, fresh, h)
  | inr other ↦
      let ih = live_nonces-keeps now nonce exp entries h k (ground (arith, other, e)) in
      ground (arith, other, ih)
]

module _ (nonce : List ℕ) (exp : ℕ) where
  clean_if_full-keeps :
      (now : ℕ) (store : NonceStore)
      → now < exp
      → exp < 2 ^ 63
      → get nonce store.entries ≡ some exp
      → get nonce (clean_if_full now store).entries ≡ some exp
  unfolding clean_if_full clean
  clean_if_full-keeps now store h k e =
      let kept = live_nonces-keeps now nonce exp store.entries h k e in ground (arith, kept, e)

  pub use_nonce_cases :
      (now now_unix skew : ℕ) (other : List ℕ) (former : NonceStore)
      → ((use_nonce now now_unix skew other former).0 ≢ none)
          × ((use_nonce now now_unix skew other former).1 ≡ clean_if_full now_unix former)
        ⊎ ((get other (clean_if_full now_unix former).entries ≡ none)
            × (use_nonce now now_unix skew other former ≡ (
              none,
              record {
                entries = put other (expiry now skew) (clean_if_full now_unix former).entries;
                count = (clean_if_full now_unix former).count + 1;
              },
            )))
  unfolding use_nonce
  use_nonce_cases now now_unix skew other former = ground arith

  -- A nonce that the store holds stays until it expires, and is refused.
  pub use_nonce-keeps :
      (now now_unix skew : ℕ) (other : List ℕ) (store : NonceStore)
      → now_unix < exp
      → exp < 2 ^ 63
      → get nonce store.entries ≡ some exp
      → get nonce (use_nonce now now_unix skew other store).1.entries ≡ some exp
  use_nonce-keeps now now_unix skew other store h k e =
      let kept = clean_if_full-keeps now_unix store h k e in
      elim (use_nonce_cases now now_unix skew other store) [
        | inl (_, same) ↦ rw same kept
        | inr (free, added) ↦ rw added (
            get-put other nonce (expiry now skew) (clean_if_full now_unix store).entries
            ∙ grind (arith, kept, free, bytes_eq_iff other nonce))
      ]

  pub use_nonce-refuses :
      (now now_unix skew : ℕ) (store : NonceStore)
      → now_unix < exp
      → exp < 2 ^ 63
      → get nonce store.entries ≡ some exp
      → (use_nonce now now_unix skew nonce store).0 ≢ none
  use_nonce-refuses now now_unix skew store h k e =
      let kept = clean_if_full-keeps now_unix store h k e in
      elim (use_nonce_cases now now_unix skew nonce store) [
        | inl (refused, _) ↦ refused
        | inr (free, _) ↦ absurd (cc (free, kept))
      ]
