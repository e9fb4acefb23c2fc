-- ===== src/Server/Auth/Signing.antt =====
-- pkg/swm/http/swm_signing.go: what the console signs, and the server's check of it.
use tacacs_plus_go.Base.{
  All, All-imp, List, NoComma, Option, [], ap, arith, bytes_eq_iff, codes, false, get, has_prefix,
  if◌then◌else◌, length, le→ltb, ltb, none, refl, some, split_from, split_from-comma,
  split_from-last, suc, take, zero, ℕ, ◌++◌, ◌+◌, ◌<◌, ◌^◌, ◌∙◌, ◌∷◌, ◌≡◌, ◌≢◌, ◌≤◌,
}
use tacacs_plus_go.Server.Auth.{
  Body, NonceStore, Platform, Request, abs64, canonical, check_signature, clean_if_full, delivers,
  is_blank, is_stale, le64, max_body_peek, max_nonce_count, max_nonce_length, parse_swm_sig_header,
  read_and_restore_body, read_part, read_parts, skew_or_default, sub64, use_nonce,
  verify_swm_signature,
}

-- A visible ASCII character other than the comma.
abbrev pub IsTokenChar : ℕ → Type 0
IsTokenChar c = (33 ≤ c) × (c ≤ 126) × (c ≢ 44)

abbrev pub IsToken : List ℕ → Type 0
IsToken s = (s ≢ []) × All IsTokenChar s

-- The documented behaviour of the packages' functions.
pub record IsGo (pf : Platform) : Type 0 where
  -- a text without white space at its ends is its own trimming
  pub trims : (s : List ℕ) → All IsTokenChar s → pf.trim_space s ≡ s
  pub parses : (n : ℕ) → n < 2 ^ 63 → pf.parse_int (pf.format_int n) ≡ some n
  pub formats : (n : ℕ) → IsToken (pf.format_int n)
  -- the alphabet of base64
  pub macs : (secret text : List ℕ) → IsToken (pf.mac secret text)

-- fmt.Sprintf("t=%s,n=%s,v1=%s", ts, nonce, sig)
unfoldable pub header_value : List ℕ → List ℕ → List ℕ → List ℕ
header_value ts nonce sig =
    (codes "t=" ++ ts) ++ (44 ∷ ((codes "n=" ++ nonce) ++ (44 ∷ (codes "v1=" ++ sig))))

-- The clock and the nonce that the function reads are its arguments.
unfoldable pub compute_signature_header :
    Platform → ℕ → List ℕ → List ℕ → List ℕ → List ℕ → List ℕ → List ℕ → List ℕ → List ℕ
compute_signature_header pf now nonce method path user is_admin body secret =
    let ts = pf.format_int now in
    let text = canonical method path ts nonce user is_admin (pf.body_hash body) in
    header_value ts nonce (pf.mac secret text)

pub is_blank_of : (s : List ℕ) → s ≢ [] → is_blank s ≡ false
is_blank_of [] n = absurd (n refl)
is_blank_of (c ∷ s) n = refl

NoComma-tokens : (s : List ℕ) → All IsTokenChar s → NoComma s
NoComma-tokens s a = All-imp IsTokenChar (λ c. c ≢ 44) s (λ c h. h.2) a

-- The three parts of the header, with their keys.
t_part : (ts : List ℕ) → All IsTokenChar ts → All IsTokenChar (codes "t=" ++ ts)
t_part ts a = (omega arith, (omega arith, a))

n_part : (nonce : List ℕ) → All IsTokenChar nonce → All IsTokenChar (codes "n=" ++ nonce)
n_part nonce a = (omega arith, (omega arith, a))

v1_part : (sig : List ℕ) → All IsTokenChar sig → All IsTokenChar (codes "v1=" ++ sig)
v1_part sig a = (omega arith, (omega arith, (omega arith, a)))

split_from-header_value :
    (ts nonce sig : List ℕ)
    → All IsTokenChar ts
    → All IsTokenChar nonce
    → All IsTokenChar sig
    → split_from [] (header_value ts nonce sig)
      ≡ (codes "t=" ++ ts) ∷ (codes "n=" ++ nonce) ∷ (codes "v1=" ++ sig) ∷ []
unfolding header_value
split_from-header_value ts nonce sig t n s =
    split_from-comma [] (codes "t=" ++ ts) ((codes "n=" ++ nonce) ++ (44 ∷ (codes "v1=" ++ sig)))
      (NoComma-tokens (codes "t=" ++ ts) (t_part ts t))
    ∙ ap (λ x. (codes "t=" ++ ts) ∷ x)
        (split_from-comma [] (codes "n=" ++ nonce) (codes "v1=" ++ sig)
            (NoComma-tokens (codes "n=" ++ nonce) (n_part nonce n))
          ∙ ap (λ x. (codes "n=" ++ nonce) ∷ x)
              (split_from-last [] (codes "v1=" ++ sig)
                (NoComma-tokens (codes "v1=" ++ sig) (v1_part sig s))))

is_stale_near :
    (now ts skew : ℕ)
    → now < 2 ^ 62
    → ts < 2 ^ 62
    → skew < 2 ^ 62
    → now ≤ ts + skew
    → ts ≤ now + skew
    → is_stale now ts skew ≡ false
unfolding is_stale le64 abs64 sub64
is_stale_near now ts skew h k s early late = ground arith

take_all : (n : ℕ) (xs : List ℕ) → length xs ≤ n → take n xs ≡ xs
take_all zero [] h = refl
take_all zero (x ∷ xs) h = absurd (omega arith)
take_all (suc n) [] h = refl
take_all (suc n) (x ∷ xs) h = ap (λ ys. x ∷ ys) (take_all n xs (omega (arith, h)))

abbrev peeked : List ℕ → Option (List ℕ) × Body
peeked body =
    if ltb max_body_peek (length body) then (none, delivers body) else (some body, delivers body)

peeked_small :
    (body : List ℕ) → length body ≤ max_body_peek → peeked body ≡ (some body, delivers body)
peeked_small body h = rw (le→ltb max_body_peek (length body) h) refl

pub read_and_restore_body-delivers :
    (body : List ℕ)
    → length body ≤ max_body_peek
    → read_and_restore_body (delivers body) ≡ (some body, delivers body)
unfolding read_and_restore_body
read_and_restore_body-delivers body h =
    ap peeked (take_all (max_body_peek + 1) body (omega (arith, h))) ∙ peeked_small body h

is_blank-header_value : (ts nonce sig : List ℕ) → is_blank (header_value ts nonce sig) ≡ false
unfolding header_value
is_blank-header_value ts nonce sig = refl

module _ (pf : Platform) (go : IsGo pf) where
  read_parts-header_value :
      (ts nonce sig : List ℕ)
      → All IsTokenChar ts
      → All IsTokenChar nonce
      → All IsTokenChar sig
      → read_parts pf
          (split_from [] (header_value ts nonce sig))
          (record { ts = []; nonce = []; sig = [] })
        ≡ record { ts = ts; nonce = nonce; sig = sig }
  unfolding read_parts read_part has_prefix
  read_parts-header_value ts nonce sig t n s =
      rw
        (
          split_from-header_value ts nonce sig t n s,
          go.trims (codes "t=" ++ ts) (t_part ts t),
          go.trims (codes "n=" ++ nonce) (n_part nonce n),
          go.trims (codes "v1=" ++ sig) (v1_part sig s),
        )
        refl

  pub parse_swm_sig_header-header_value :
      (ts nonce sig : List ℕ)
      → IsToken ts
      → IsToken nonce
      → IsToken sig
      → parse_swm_sig_header pf (header_value ts nonce sig)
        ≡ some (record { ts = ts; nonce = nonce; sig = sig })
  unfolding parse_swm_sig_header
  parse_swm_sig_header-header_value ts nonce sig t n s =
      rw
        (
          read_parts-header_value ts nonce sig t.1 n.1 s.1,
          is_blank_of ts t.0,
          is_blank_of nonce n.0,
          is_blank_of sig s.0,
        )
        refl

  verify_accepts :
      (secret nonce sig : List ℕ) (max_skew now now_unix sent : ℕ) (r : Request) (body : List ℕ)
      (store : NonceStore)
      → secret ≢ []
      → r.signature ≡ header_value (pf.format_int sent) nonce sig
      → IsToken nonce
      → length nonce ≤ max_nonce_length
      → IsToken sig
      → sent < 2 ^ 62
      → is_stale now sent (skew_or_default max_skew) ≡ false
      → read_and_restore_body r.body ≡ (some body, delivers body)
      → pf.mac secret (
          canonical r.method r.path
            (pf.format_int sent)
            nonce
            r.user
            r.is_admin
            (pf.body_hash body))
        ≡ sig
      → store.count < max_nonce_count
      → get nonce store.entries ≡ none
      → let result = verify_swm_signature pf secret max_skew now now_unix r store in
        (result.0 ≡ none) × (result.2 ≡ delivers body)
  unfolding verify_swm_signature check_signature use_nonce clean_if_full
  verify_accepts secret nonce sig max_skew now now_unix sent r body store has signed token short
        valid s fresh reads same room free =
      let b1 = is_blank_of secret has in
      let b2 = is_blank-header_value (pf.format_int sent) nonce sig in
      let p =
        parse_swm_sig_header-header_value (pf.format_int sent) nonce sig (go.formats sent) token
          valid in
      let b3 = is_blank_of nonce token.0 in
      let b4 = le→ltb max_nonce_length (length nonce) short in
      let b5 = (bytes_eq_iff _ _).1 same in
      ground
        (arith, b1, b2, p, go.parses sent (omega (arith, s)), fresh, b3, b4, reads, b5, room, free)

  -- A request that the console signs with the shared secret is accepted by the server, which leaves its
  -- body to be read by the handler: if the two clocks differ by no more than the skew, the nonce is a
  -- short token that the store does not hold, the store is not full, and the body is within the
  -- limit of 256 KiB.
  pub verify_swm_signature-compute_signature_header :
      (sent now now_unix max_skew : ℕ) (nonce method path user is_admin body secret : List ℕ)
      (store : NonceStore)
      → secret ≢ []
      → IsToken nonce
      → length nonce ≤ max_nonce_length
      → length body ≤ max_body_peek
      → sent < 2 ^ 62
      → now < 2 ^ 62
      → skew_or_default max_skew < 2 ^ 62
      → sent ≤ now + skew_or_default max_skew
      → now ≤ sent + skew_or_default max_skew
      → store.count < max_nonce_count
      → get nonce store.entries ≡ none
      → let r : Request = record {
        method = method;
        path = path;
        signature = compute_signature_header pf sent nonce method path user is_admin body secret;
        user = user;
        is_admin = is_admin;
        body = delivers body;
      } in
        let result = verify_swm_signature pf secret max_skew now now_unix r store in
        (result.0 ≡ none) × (result.2 ≡ delivers body)
  unfolding compute_signature_header
  verify_swm_signature-compute_signature_header sent now now_unix max_skew nonce method path user
        is_admin body secret store has_secret token short small s n k early late room free =
      let ts = pf.format_int sent in
      let text = canonical method path ts nonce user is_admin (pf.body_hash body) in
      verify_accepts secret nonce (pf.mac secret text) max_skew now now_unix sent _ body store
        has_secret refl token short (go.macs secret text) s
        (is_stale_near now sent (skew_or_default max_skew) n s k late early)
        (read_and_restore_body-delivers body small) refl room free
