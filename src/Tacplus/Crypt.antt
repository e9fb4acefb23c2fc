-- ===== src/Tacplus/Crypt.antt =====
-- pkg/public/tacplus/conn.go: crypt, over a raw packet cut at its header fields.
pub mod Involution
use tacacs_plus_go.Base.{
  All, IsByte, List, Option, [], drop, length, map, none, some, suc, take, uint8, zero, ℕ, ◌++◌,
  ◌/◌, ◌^◌, ◌∷◌, ◌≡◌,
}
use mathlib.Core.Option
use Prim.Native.Nat.{bit_xor}

-- The bytes of a packet at the offsets hdrVer, hdrType, hdrSeqNo, hdrFlags, hdrID (four bytes, as the
-- big-endian number that they encode), hdrBodyLen (likewise), and from hdrLen on.
pub record Raw : Type 0 where
  pub version : ℕ
  pub typ : ℕ
  pub seq_no : ℕ
  pub flags : ℕ
  pub id : ℕ
  pub body_len : ℕ
  pub body : List ℕ

-- binary.BigEndian.PutUint32
unfoldable pub put_uint32 : ℕ → List ℕ
put_uint32 n = uint8 (n / 2 ^ 24) ∷ uint8 (n / 2 ^ 16) ∷ uint8 (n / 2 ^ 8) ∷ uint8 n ∷ []

-- body[i] ^= c, for the bytes c of the sum
unfoldable pub xor_bytes : List ℕ → List ℕ → List ℕ
xor_bytes [] sum = []
xor_bytes (x ∷ body) [] = x ∷ body
xor_bytes (x ∷ body) (c ∷ sum) = bit_xor x c ∷ xor_bytes body sum

-- `md5` is crypto/md5: what it relies on is that a digest has 16 bytes.
pub record IsDigest (md5 : List ℕ → List ℕ) : Type 0 where
  pub size : (m : List ℕ) → length (md5 m) ≡ 16
  pub bytes : (m : List ℕ) → All IsByte (md5 m)

-- The loop over what is left of the body; `none` means that the fuel ran out. A digest that is
-- longer than what is left is cut, and the next round hashes what was used of this one.
unfoldable pub crypt_loop : (List ℕ → List ℕ) → ℕ → List ℕ → List ℕ → List ℕ → Option (List ℕ)
crypt_loop md5 fuel buf sum [] = some []
crypt_loop md5 zero buf sum (x ∷ body) = none
crypt_loop md5 (suc fuel) buf sum (x ∷ body) =
    let next = take (length (x ∷ body)) (md5 (buf ++ sum)) in
    Option.map (λ rest. xor_bytes (take (length next) (x ∷ body)) next ++ rest)
      (crypt_loop md5 fuel buf next (drop (length next) (x ∷ body)))

-- Each round masks a byte at least, so that the body's length is enough fuel.
unfoldable pub crypt : (List ℕ → List ℕ) → List ℕ → Raw → Option Raw
crypt md5 key p =
    Option.map (λ body. record p { body = body })
      (crypt_loop md5 (length p.body) (put_uint32 p.id ++ (key ++ (p.version ∷ p.seq_no ∷ []))) []
        p.body)
