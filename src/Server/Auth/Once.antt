-- ===== src/Server/Auth/Once.antt =====
-- A signed request is not accepted twice (pkg/server/http/middleware_swm_auth.go).
use tacacs_plus_go.Base.{
  Bool-cases, List, Option, [], ap, arith, bytes_eq, bytes_eq_iff, get, get-put, inl, inr, none,
  some, subst, sym, ℕ, ◌+◌, ◌<◌, ◌^◌, ◌∙◌, ◌∷◌, ◌≡◌, ◌≢◌, ◌≤◌, ◌⊎◌,
}
use tacacs_plus_go.Server.Auth.{
  NonceStore, Platform, Request, SigParts, SwmAuthErr, check_signature, clean, clean_if_full,
  expiry, parse_swm_sig_header, skew_or_default, use_nonce,
}
use tacacs_plus_go.Server.Auth.Replay.{
  expiry_seconds, is_stale_late, live_nonces-keeps, ttl_seconds, use_nonce-keeps, use_nonce-refuses,
  use_nonce_cases,
}
use tacacs_plus_go.Server.Auth.Verify.{
  SignatureCheck-cases, check_signature_signs, check_signature_stale, verify, verify_rejects,
  verify_signs,
}

-- What the store meets after the request: a pass of the cleaner, or a request. A request reads the
-- clock when its signature is checked and once more when its nonce is used.
pub data StoreEvent : Type 0 where
  cleans : ℕ → StoreEvent
  receives : ℕ → ℕ → Request → StoreEvent

-- The clock goes forward, by no more than `lag` while a request is checked.
abbrev pub IsForward : ℕ → ℕ → List StoreEvent → Type 0
IsForward lag t [] = Unit
IsForward lag t (cleans now ∷ events) = (t ≤ now) × (now < 2 ^ 62) × IsForward lag now events
IsForward lag t (receives now now_unix r ∷ events) =
    (t ≤ now)
    × (now ≤ now_unix)
    × (now_unix ≤ now + lag)
    × (now_unix < 2 ^ 62)
    × IsForward lag now_unix events

module _ (pf : Platform) (secret : List ℕ) (max_skew : ℕ) where
  -- No request of the sequence that carries the signature header is accepted.
  abbrev pub IsRefused : List ℕ → List StoreEvent → NonceStore → Type 0
  IsRefused signature [] store = Unit
  IsRefused signature (cleans now ∷ events) store = IsRefused signature events (clean now store)
  IsRefused signature (receives now now_unix r ∷ events) store =
      ((r.signature ≢ signature) ⊎ ((verify pf secret max_skew now now_unix r store).0 ≢ none))
      × IsRefused signature events (verify pf secret max_skew now now_unix r store).1

  module _ (signature : List ℕ) (parts : SigParts) (ts exp lag : ℕ) where
    -- The store holds the request's nonce, or it is too late for its timestamp.
    abbrev IsGuarded : ℕ → NonceStore → Type 0
    IsGuarded t store = (get parts.nonce store.entries ≡ some exp) ⊎ (exp ≤ t)

    time_cases : (t : ℕ) → (t < exp) ⊎ (exp ≤ t)
    time_cases t = ground arith

    clean-IsGuarded :
        (t now : ℕ) (store : NonceStore)
        → exp < 2 ^ 63
        → t ≤ now
        → IsGuarded t store
        → IsGuarded now (clean now store)
    unfolding clean
    clean-IsGuarded t now store k le (inr late) = inr (omega (arith, le, late))
    clean-IsGuarded t now store k le (inl held) = elim (time_cases now) [
      | inl early ↦ inl (live_nonces-keeps now parts.nonce exp store.entries early k held)
      | inr late ↦ inr late
    ]

    use_nonce-IsGuarded :
        (t now now_unix skew : ℕ) (other : List ℕ) (store : NonceStore)
        → exp < 2 ^ 63
        → t ≤ now_unix
        → IsGuarded t store
        → IsGuarded now_unix (use_nonce now now_unix skew other store).1
    use_nonce-IsGuarded t now now_unix skew other store k le (inr late) =
        inr (omega (arith, le, late))
    use_nonce-IsGuarded t now now_unix skew other store k le (inl held) =
        elim (time_cases now_unix) [
          | inl early ↦
              inl (use_nonce-keeps parts.nonce exp now now_unix skew other store early k held)
          | inr late ↦ inr late
        ]

    verify-IsGuarded :
        (t now now_unix : ℕ) (r : Request) (store : NonceStore)
        → exp < 2 ^ 63
        → t ≤ now_unix
        → IsGuarded t store
        → IsGuarded now_unix (verify pf secret max_skew now now_unix r store).1
    verify-IsGuarded t now now_unix r store k le g =
        elim (SignatureCheck-cases pf secret max_skew
          (check_signature pf secret (skew_or_default max_skew) now r).0) [
            | inl (e, h) ↦
                subst (IsGuarded now_unix)
                  (sym (verify_rejects pf secret max_skew now now_unix r store e h).1)
                  (elim g [ inl held ↦ inl held | inr late ↦ inr (omega (arith, late, le)) ])
            | inr (other, h) ↦
                subst (IsGuarded now_unix)
                  (sym (verify_signs pf secret max_skew now now_unix r store other h).1)
                  (use_nonce-IsGuarded t now now_unix (skew_or_default max_skew) other store k le g)
          ]

    module _ (parsed : parse_swm_sig_header pf signature ≡ some parts)
        (stamped : pf.parse_int parts.ts ≡ some ts) (bound : exp < 2 ^ 63)
        (kept : ts + skew_or_default max_skew + lag < exp) where
      verify-refuses :
          (t now now_unix : ℕ) (r : Request) (store : NonceStore)
          → r.signature ≡ signature
          → (t ≤ now) × (now ≤ now_unix) × (now_unix ≤ now + lag) × (now_unix < 2 ^ 62)
          → IsGuarded t store
          → (verify pf secret max_skew now now_unix r store).0 ≢ none
      verify-refuses t now now_unix r store same clock g accepted =
          let skew = skew_or_default max_skew in
          let reads = subst (λ s. parse_swm_sig_header pf s ≡ some parts) (sym same) parsed in
          elim (SignatureCheck-cases pf secret max_skew (check_signature pf secret skew now r).0) [
            | inl (e, h) ↦
                cc (accepted, (verify_rejects pf secret max_skew now now_unix r store e h).0)
            | inr (nonce, h) ↦
                let too_late : exp ≤ now_unix → ⊥ = λ late.
                  check_signature_stale pf secret max_skew skew now r parts ts nonce reads stamped
                    (is_stale_late now ts skew (omega (arith, clock.1, clock.3))
                      (omega (arith, late, kept, clock.2)))
                    h in
                elim (time_cases now_unix) [
                  | inr late ↦ too_late late
                  | inl early ↦ elim g [
                    | inr late ↦ too_late (omega (arith, late, clock.0, clock.1))
                    | inl held ↦
                        let mine =
                          check_signature_signs pf secret max_skew skew now r parts nonce reads h in
                        use_nonce-refuses parts.nonce exp now now_unix skew store early bound held (
                          subst (λ n. (use_nonce now now_unix skew n store).0 ≡ none) mine
                            (sym (verify_signs pf secret max_skew now now_unix r store nonce h).0
                              ∙ accepted))
                  ]
                ]
          ]

      events-IsRefused :
          (t : ℕ) (events : List StoreEvent) (store : NonceStore)
          → IsForward lag t events
          → IsGuarded t store
          → IsRefused signature events store
      events-IsRefused t [] store forward g = tt
      events-IsRefused t (cleans now ∷ events) store forward g =
          events-IsRefused now events (clean now store) forward.2
            (clean-IsGuarded t now store bound forward.0 g)
      events-IsRefused t (receives now now_unix r ∷ events) store forward g = (
        elim (Bool-cases (bytes_eq r.signature signature)) [
          | inl same ↦ inr (
              verify-refuses t now now_unix r store ((bytes_eq_iff r.signature signature).0 same)
                (forward.0, forward.1, forward.2, forward.3) g)
          | inr other ↦ inl (λ e. cc (other, (bytes_eq_iff r.signature signature).1 e))
        ],
        events-IsRefused now_unix events (verify pf secret max_skew now now_unix r store).1
            forward.4
            (verify-IsGuarded t now now_unix r store bound (omega (arith, forward.0, forward.1)) g),
      )

  accepted-held :
      (now now_unix : ℕ) (r : Request) (store : NonceStore) (parts : SigParts)
      → parse_swm_sig_header pf r.signature ≡ some parts
      → (verify pf secret max_skew now now_unix r store).0 ≡ none
      → get parts.nonce (verify pf secret max_skew now now_unix r store).1.entries
        ≡ some (expiry now (skew_or_default max_skew))
  accepted-held now now_unix r store parts reads accepted =
      let skew = skew_or_default max_skew in
      elim (SignatureCheck-cases pf secret max_skew (check_signature pf secret skew now r).0) [
        | inl (e, h) ↦
            absurd (cc (accepted, (verify_rejects pf secret max_skew now now_unix r store e h).0))
        | inr (nonce, h) ↦
            let mine = check_signature_signs pf secret max_skew skew now r parts nonce reads h in
            let both = verify_signs pf secret max_skew now now_unix r store nonce h in
            elim (use_nonce_cases parts.nonce 0 now now_unix skew nonce store) [
              | inl (refused, _) ↦ absurd (refused (sym both.0 ∙ accepted))
              | inr (_, added) ↦
                  let stored = clean_if_full now_unix store in
                  subst (λ (s : NonceStore). get parts.nonce s.entries ≡ some (expiry now skew))
                    (sym (both.1 ∙ ap (λ (p : Option SwmAuthErr × NonceStore). p.1) added))
                    (get-put nonce parts.nonce (expiry now skew) stored.entries
                      ∙ ground (arith, (bytes_eq_iff nonce parts.nonce).1 mine))
            ]
      ]

  -- Once a request has been accepted, no request with the same signature header is: whatever other
  -- requests are signed and accepted, and whenever the store is cleaned, if the clock goes forward.
  -- The condition is that the request's timestamp, the skew and the delay of the second reading of the
  -- clock come before the time until which the nonce is kept; a timestamp that is not in the future
  -- meets it under the default skew of 300 seconds, if the delay is below 300 seconds.
  pub verify_swm_signature-IsRefused :
      (now now_unix : ℕ) (r : Request) (store : NonceStore) (parts : SigParts) (ts lag : ℕ)
      (events : List StoreEvent)
      → parse_swm_sig_header pf r.signature ≡ some parts
      → pf.parse_int parts.ts ≡ some ts
      → skew_or_default max_skew ≤ 10 ^ 9
      → now < 2 ^ 62
      → ts + skew_or_default max_skew + lag < now + ttl_seconds (skew_or_default max_skew)
      → (verify pf secret max_skew now now_unix r store).0 ≡ none
      → IsForward lag now_unix events
      → IsRefused r.signature events (verify pf secret max_skew now now_unix r store).1
  verify_swm_signature-IsRefused now now_unix r store parts ts lag events reads stamped small clock
        kept accepted forward =
      let skew = skew_or_default max_skew in
      let known = expiry_seconds now skew clock small in
      events-IsRefused r.signature parts ts (expiry now skew) lag reads stamped
        (ground (arith, known, small, clock)) (omega (arith, known, kept)) now_unix events
        (verify pf secret max_skew now now_unix r store).1 forward
        (inl (accepted-held now now_unix r store parts reads accepted))
