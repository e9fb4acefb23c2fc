-- ===== src/Server/Auth/Tests.antt =====
-- Runs of the console's signing and of the server's check of it.
use tacacs_plus_go.Base.{
  All, List, [], ap, arith, bytes_eq, bytes_eq_iff, codes, exists, false, get, has_prefix, inl,
  length, none, refl, some, suc, true, zero, ℕ, ◌%◌, ◌++◌, ◌+◌, ◌-◌, ◌<◌, ◌^◌, ◌∷◌, ◌≡◌, ◌≢◌,
}
use tacacs_plus_go.Server.Auth.{
  NonceStore, Platform, Request, SigParts, canonical, delivers, parse_swm_sig_header,
  skew_or_default, verify_swm_signature,
}
use tacacs_plus_go.Server.Auth.Verify.{verify}
use tacacs_plus_go.Server.Auth.Counted.{IsCounted, verify_swm_signature-IsCounted}
use tacacs_plus_go.Server.Auth.Signing.{
  IsGo, IsToken, IsTokenChar, compute_signature_header, parse_swm_sig_header-header_value,
  verify_swm_signature-compute_signature_header,
}
use tacacs_plus_go.Server.Auth.Once.{IsRefused, cleans, receives, verify_swm_signature-IsRefused}
use tacacs_plus_go.Server.Auth.Middleware.{
  Json, SwmAuth, approval_forbidden, body_forbidden, has_body_method, is_admin_request, is_in,
  ownership_forbidden, path_requires_admin, serves, swm_auth_exempt_paths, swm_auth_middleware,
}
use tacacs_plus_go.Server.Auth.Middleware.Served.{swm_auth_middleware-compute_signature_header}
use tacacs_plus_go.Server.Auth.Middleware.Allowed.{IsAllowed, swm_auth_middleware-IsAllowed}
use mathlib.Core.Option.{some-injective}

-- Numbers in unary, and a code that keeps the last digit of each byte: stand-ins for strconv and HMAC.
ones : ℕ → List ℕ
ones zero = []
ones (suc n) = 49 ∷ ones n

digits : List ℕ → List ℕ
digits [] = []
digits (c ∷ s) = (48 + c % 10) ∷ digits s

abbrev simple : Platform
simple = record {
  mac = λ secret text. 61 ∷ digits (secret ++ text);
  body_hash = digits;
  parse_int = λ s. some ((length s - 1) % 2 ^ 64);
  format_int = λ n. 49 ∷ ones n;
  trim_space = λ s. s;
}

ones-IsTokenChar : (n : ℕ) → All IsTokenChar (ones n)
unfolding ones
ones-IsTokenChar zero = tt
ones-IsTokenChar (suc n) = (omega arith, ones-IsTokenChar n)

digits-IsTokenChar : (s : List ℕ) → All IsTokenChar (digits s)
unfolding digits
digits-IsTokenChar [] = tt
digits-IsTokenChar (c ∷ s) = ((omega arith, omega arith, omega arith), digits-IsTokenChar s)

length-ones : (n : ℕ) → length (ones n) ≡ n
unfolding ones
length-ones zero = refl
length-ones (suc n) = ap suc (length-ones n)

parse-format : (n : ℕ) → n < 2 ^ 63 → (suc (length (ones n)) - 1) % 2 ^ 64 ≡ n
parse-format n h = omega (arith, length-ones n)

simple-IsGo : IsGo simple
simple-IsGo = record {
  trims = λ s t. refl;
  parses = λ n h. ap some (parse-format n h);
  formats = λ n. ((λ e. cc e), ((omega arith, omega arith, omega arith), ones-IsTokenChar n));
  macs = λ secret text.
      ((λ e. cc e), ((omega arith, omega arith, omega arith), digits-IsTokenChar (secret ++ text)));
}

abbrev secret : List ℕ
secret = codes "s3"

abbrev nonce : List ℕ
nonce = codes "n1"

abbrev body : List ℕ
body = codes "{}"

nonce-IsToken : IsToken nonce
nonce-IsToken = (
  (λ e. cc e),
  ((omega arith, omega arith, omega arith), ((omega arith, omega arith, omega arith), tt)),
)

abbrev empty_store : NonceStore
empty_store = record { entries = []; count = 0 }

signed : Request
signed = record {
  method = codes "POST";
  path = codes "/tacacs/user/update/notes";
  signature =
      compute_signature_header simple 5 nonce (codes "POST") (codes "/tacacs/user/update/notes")
        (codes "ann") (codes "0") body secret;
  user = codes "ann";
  is_admin = codes "0";
  body = delivers body;
}

get_empty : get {V = ℕ} nonce [] ≡ none
unfolding get
get_empty = refl

accepted : (verify_swm_signature simple secret 0 6 6 signed empty_store).0 ≡ none
unfolding signed skew_or_default
accepted =
    (verify_swm_signature-compute_signature_header simple simple-IsGo 5 6 6 0 nonce (codes "POST")
      (codes "/tacacs/user/update/notes") (codes "ann") (codes "0") body secret empty_store
      (λ e. cc e) nonce-IsToken (omega arith) (omega arith) (omega arith) (omega arith)
      (omega arith) (omega arith) (omega arith) (omega arith) get_empty).0

abbrev signed_parts : SigParts
signed_parts = record {
  ts = 49 ∷ ones 5;
  nonce = nonce;
  sig = simple.mac secret (
      canonical (codes "POST") (codes "/tacacs/user/update/notes") (49 ∷ ones 5) nonce (codes "ann")
        (codes "0") (digits body));
}

signed-parse : parse_swm_sig_header simple signed.signature ≡ some signed_parts
unfolding signed compute_signature_header
signed-parse =
    parse_swm_sig_header-header_value simple simple-IsGo (49 ∷ ones 5) nonce signed_parts.sig
      (simple-IsGo.formats 5) nonce-IsToken (simple-IsGo.macs secret _)

verify_swm_signature-IsRefused_example :
    IsRefused simple secret 0 signed.signature
      (receives 7 7 signed ∷ cleans 700 ∷ receives 701 701 signed ∷ [])
      (verify simple secret 0 6 6 signed empty_store).1
unfolding skew_or_default
verify_swm_signature-IsRefused_example =
    verify_swm_signature-IsRefused simple secret 0 6 6 signed empty_store signed_parts 5 0
      (receives 7 7 signed ∷ cleans 700 ∷ receives 701 701 signed ∷ []) signed-parse
      (ap some (parse-format 5 (omega arith))) (omega arith) (omega arith) (ground arith) accepted
      (
        omega arith,
        omega arith,
        omega arith,
        omega arith,
        (omega arith, omega arith, (omega arith, omega arith, omega arith, omega arith, tt)),
      )

abbrev json : Json
json = record { status = λ b. some 0; user = λ b. some (codes "ann") }

abbrev conf : SwmAuth
conf = record { secret = secret; max_skew = 0; enforce = true }

not_exempt : is_in swm_auth_exempt_paths (codes "/tacacs/user/update/notes") ≡ false
unfolding is_in exists bytes_eq
not_exempt = refl

not_admin_path : path_requires_admin (codes "/tacacs/user/update/notes") (codes "POST") ≡ false
unfolding path_requires_admin is_in exists bytes_eq has_prefix has_body_method
not_admin_path = refl

not_forbidden : body_forbidden json signed body ≡ false
unfolding signed body_forbidden approval_forbidden ownership_forbidden is_in exists bytes_eq
    is_admin_request
not_forbidden = refl

swm_auth_middleware-compute_signature_header_example :
    (swm_auth_middleware json simple conf 6 6 signed empty_store).0
    ≡ serves (some true) (delivers body)
unfolding signed skew_or_default
swm_auth_middleware-compute_signature_header_example =
    swm_auth_middleware-compute_signature_header json simple simple-IsGo conf 5 6 6 nonce
      (codes "POST") (codes "/tacacs/user/update/notes") (codes "ann") (codes "0") body empty_store
      (λ e. cc e) nonce-IsToken (omega arith) (omega arith) (omega arith) (omega arith)
      (omega arith) (omega arith) (omega arith) (omega arith) get_empty not_exempt (λ e. cc e)
      (inl not_admin_path) not_forbidden

served :
    (swm_auth_middleware json simple conf 6 6 signed empty_store).0
    ≡ serves (some true) (delivers body)
unfolding signed skew_or_default
served =
    swm_auth_middleware-compute_signature_header json simple simple-IsGo conf 5 6 6 nonce
      (codes "POST") (codes "/tacacs/user/update/notes") (codes "ann") (codes "0") body empty_store
      (λ e. cc e) nonce-IsToken (omega arith) (omega arith) (omega arith) (omega arith)
      (omega arith) (omega arith) (omega arith) (omega arith) get_empty not_exempt (λ e. cc e)
      (inl not_admin_path) not_forbidden

parses_int64 : (s : List ℕ) (n : ℕ) → simple.parse_int s ≡ some n → n < 2 ^ 64
parses_int64 s n e = ground (arith, some-injective _ n e)

other_path : codes "/tacacs/user/update/notes" ≢ codes "/health"
unfolding bytes_eq
other_path e = cc ((bytes_eq_iff (codes "/tacacs/user/update/notes") (codes "/health")).1 e)

swm_auth_middleware-IsAllowed_example : IsAllowed json simple conf 6 6 signed empty_store
unfolding signed
swm_auth_middleware-IsAllowed_example =
    swm_auth_middleware-IsAllowed json simple conf 6 6 signed empty_store (some true)
      (delivers body) parses_int64 (omega arith) (omega arith) refl other_path served

empty_store-IsCounted : IsCounted empty_store
empty_store-IsCounted = record { counted = refl; bounded = omega arith }

verify_swm_signature-IsCounted_example :
    IsCounted (verify_swm_signature simple secret 0 6 6 signed empty_store).1
verify_swm_signature-IsCounted_example =
    verify_swm_signature-IsCounted simple secret 0 6 6 signed empty_store empty_store-IsCounted
