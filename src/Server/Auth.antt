-- ===== src/Server/Auth.antt =====
-- pkg/server/http/middleware_swm_auth.go: the signature of a request and the store of nonces.
-- Texts are lists of bytes; an int64 is the remainder of a number by 2 ^ 64, in two's complement.
pub mod Replay
pub mod Verify
pub mod Signed
pub mod Once
pub mod Counted
pub mod Signing
pub mod Middleware
pub mod Tests
use tacacs_plus_go.Base.{
  Bool, List, Option, [], bytes_eq, codes, drop, false, get, has_prefix, if◌then◌else◌, leb, length,
  ltb, none, not, put, some, split_from, suc, take, true, zero, ℕ, ◌%◌, ◌&&◌, ◌*◌, ◌++◌, ◌+◌, ◌-◌,
  ◌/◌, ◌^◌, ◌||◌, ◌∷◌,
}

-- What the code takes from Go's crypto, encoding, strconv and strings packages.
pub record Platform : Type 0 where
  -- base64 of HMAC-SHA256 under a secret, and the hexadecimal SHA-256
  pub mac : List ℕ → List ℕ → List ℕ
  pub body_hash : List ℕ → List ℕ
  -- strconv.ParseInt(s, 10, 64) and strconv.FormatInt(n, 10)
  pub parse_int : List ℕ → Option ℕ
  pub format_int : ℕ → List ℕ
  pub trim_space : List ℕ → List ℕ

pub data SwmAuthErr : Type 0 where
  missing_secret : SwmAuthErr
  missing_signature : SwmAuthErr
  bad_header_format : SwmAuthErr
  bad_timestamp : SwmAuthErr
  stale_timestamp : SwmAuthErr
  replayed_nonce : SwmAuthErr
  nonce_store_full : SwmAuthErr
  bad_signature : SwmAuthErr

-- What the checks before the nonce's say: an error, or the nonce of a valid signature.
pub data SignatureCheck : Type 0 where
  rejects : SwmAuthErr → SignatureCheck
  signs : List ℕ → SignatureCheck

-- The body of a request: none, bytes, or a reader that fails and goes on as another body.
pub data Body : Type 0 where
  no_body : Body
  delivers : List ℕ → Body
  breaks : Body → Body

pub record Request : Type 0 where
  pub method : List ℕ
  pub path : List ℕ
  pub signature : List ℕ
  pub user : List ℕ
  pub is_admin : List ℕ
  pub body : Body

-- nonceStore and nonceCount
pub record NonceStore : Type 0 where
  pub entries : List (List ℕ × ℕ)
  pub count : ℕ

abbrev pub max_nonce_length : ℕ
max_nonce_length = 128

abbrev pub max_nonce_count : ℕ
max_nonce_count = 100000

abbrev pub max_body_peek : ℕ
max_body_peek = 256 * 1024

abbrev pub second : ℕ
second = 10 ^ 9

abbrev pub nonce_ttl : ℕ
nonce_ttl = 600 * second

-- a ≤ b, a - b and a / time.Second on int64
unfoldable pub le64 : ℕ → ℕ → Bool
le64 a b = leb ((a + 2 ^ 63) % 2 ^ 64) ((b + 2 ^ 63) % 2 ^ 64)

unfoldable pub sub64 : ℕ → ℕ → ℕ
sub64 a b = (a + (2 ^ 64 - b)) % 2 ^ 64

unfoldable pub seconds64 : ℕ → ℕ
seconds64 d = if ltb d (2 ^ 63) then d / second else (2 ^ 64 - (2 ^ 64 - d) / second) % 2 ^ 64

unfoldable pub abs64 : ℕ → ℕ
abs64 x = if ltb x (2 ^ 63) then x else (2 ^ 64 - x) % 2 ^ 64

unfoldable pub is_stale : ℕ → ℕ → ℕ → Bool
is_stale now ts skew = not (le64 (abs64 (sub64 now ts)) skew)

unfoldable pub nonce_ttl_for_skew : ℕ → ℕ
nonce_ttl_for_skew skew =
    let window = (skew * second) % 2 ^ 64 in
    if ltb 0 skew && not (le64 window nonce_ttl) then (window + 60 * second) % 2 ^ 64 else nonce_ttl

-- The configured skew, with the default for one that is not positive (0 here).
unfoldable pub skew_or_default : ℕ → ℕ
skew_or_default zero = 300
skew_or_default (suc n) = suc n

unfoldable pub expiry : ℕ → ℕ → ℕ
expiry now skew = (now + seconds64 (nonce_ttl_for_skew skew)) % 2 ^ 64

-- nonceStore.Range(...): the entries that have not expired stay
unfoldable pub live_nonces : ℕ → List (List ℕ × ℕ) → List (List ℕ × ℕ)
live_nonces now [] = []
live_nonces now ((nonce, exp) ∷ entries) =
    let rest = live_nonces now entries in if le64 exp now then rest else (nonce, exp) ∷ rest

-- A pass of the cleaner, and the cleaning in verifySwmSignature.
unfoldable pub clean : ℕ → NonceStore → NonceStore
clean now store =
    let left = live_nonces now store.entries in
    record { entries = left; count = store.count - (length store.entries - length left) }

unfoldable pub clean_if_full : ℕ → NonceStore → NonceStore
clean_if_full now store = if leb max_nonce_count store.count then clean now store else store

-- The part of verifySwmSignature under nonceMu.
unfoldable pub use_nonce : ℕ → ℕ → ℕ → List ℕ → NonceStore → Option SwmAuthErr × NonceStore
use_nonce now now_unix skew nonce former =
    let store = clean_if_full now_unix former in
    if leb max_nonce_count store.count
    then (some nonce_store_full, store)
    else elim (get nonce store.entries) [
      | some _ ↦ (some replayed_nonce, store)
      | none ↦ (
        none,
        record { entries = put nonce (expiry now skew) store.entries; count = store.count + 1 },
      )
    ]

-- readAndRestoreBody: the bytes, or nothing for an error; and the body that is left to read.
unfoldable pub read_and_restore_body : Body → Option (List ℕ) × Body
read_and_restore_body no_body = (some [], no_body)
read_and_restore_body (breaks next) = (none, next)
read_and_restore_body (delivers bytes) =
    let body = take (max_body_peek + 1) bytes in
    if ltb max_body_peek (length body) then (none, delivers body) else (some body, delivers body)

abbrev pub or_empty : Option (List ℕ) → List ℕ
or_empty none = []
or_empty (some bytes) = bytes

pub record SigParts : Type 0 where
  pub ts : List ℕ
  pub nonce : List ℕ
  pub sig : List ℕ

unfoldable pub read_part : List ℕ → SigParts → SigParts
read_part p parts =
    if has_prefix (codes "t=") p
    then record parts { ts = drop 2 p }
    else if has_prefix (codes "n=") p
    then record parts { nonce = drop 2 p }
    else if has_prefix (codes "v1=") p
    then record parts { sig = drop 3 p }
    else parts

abbrev pub is_blank : List ℕ → Bool
is_blank [] = true
is_blank (x ∷ xs) = false

-- strings.Join of the seven lines with "\n"
unfoldable pub canonical : List ℕ → List ℕ → List ℕ → List ℕ → List ℕ → List ℕ → List ℕ → List ℕ
canonical method path ts nonce user is_admin hash =
    method
    ++ (10
        ∷ (path
            ++ (10 ∷ (ts ++ (10 ∷ (nonce ++ (10 ∷ (user ++ (10 ∷ (is_admin ++ (10 ∷ hash)))))))))))

module _ (pf : Platform) where
  unfoldable pub read_parts : List (List ℕ) → SigParts → SigParts
  read_parts [] parts = parts
  read_parts (p ∷ ps) parts = read_parts ps (read_part (pf.trim_space p) parts)

  unfoldable pub parse_swm_sig_header : List ℕ → Option SigParts
  parse_swm_sig_header h =
      let parts = read_parts (split_from [] h) (record { ts = []; nonce = []; sig = [] }) in
      if is_blank parts.ts || (is_blank parts.nonce || is_blank parts.sig) then none else some parts

  -- Everything but the nonces: the header's parts, with the body that is left, or an error.
  unfoldable pub check_signature : List ℕ → ℕ → ℕ → Request → SignatureCheck × Body
  check_signature secret skew now r =
      if is_blank secret
      then (rejects missing_secret, r.body)
      else if is_blank r.signature
      then (rejects missing_signature, r.body)
      else elim (parse_swm_sig_header r.signature) [
        | none ↦ (rejects bad_header_format, r.body)
        | some parts ↦ elim (pf.parse_int parts.ts) [
          | none ↦ (rejects bad_timestamp, r.body)
          | some ts ↦
              if is_stale now ts skew
              then (rejects stale_timestamp, r.body)
              else if is_blank parts.nonce || ltb max_nonce_length (length parts.nonce)
              then (rejects bad_header_format, r.body)
              else let hash = pf.body_hash (or_empty (read_and_restore_body r.body).0) in
                let text = canonical r.method r.path parts.ts parts.nonce r.user r.is_admin hash in
                let left = (read_and_restore_body r.body).1 in
                if bytes_eq (pf.mac secret text) parts.sig
                then (signs parts.nonce, left)
                else (rejects bad_signature, left)
        ]
      ]

  -- The error, the store after the request, and the request's body after it.
  unfoldable pub verify_swm_signature :
      List ℕ → ℕ → ℕ → ℕ → Request → NonceStore → Option SwmAuthErr × NonceStore × Body
  verify_swm_signature secret max_skew now now_unix r store =
      let skew = skew_or_default max_skew in
      let checked = check_signature secret skew now r in
      elim checked.0 [
        | rejects e ↦ (some e, store, checked.1)
        | signs nonce ↦
            let used = use_nonce now now_unix skew nonce store in (used.0, used.1, checked.1)
      ]
