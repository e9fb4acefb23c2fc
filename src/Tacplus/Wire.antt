-- ===== src/Tacplus/Wire.antt =====
-- pkg/public/tacplus/packet.go: the read buffer and the byte writers.
use tacacs_plus_go.Base.{
  Bool-cases, Decodes, List, Result, [], arith, bad_packet, drop, drop_append, err, if◌then◌else◌,
  inl, inr, length, length-append, length-drop, le→ltb, ltb, ltb→le, ok, panic, take, take_append,
  uint8, ℕ, ◌*◌, ◌++◌, ◌+◌, ◌/◌, ◌<◌, ◌>>=◌, ◌∷◌, ◌≡◌, ◌≤◌,
}

abbrev pub max_uint8 : ℕ
max_uint8 = 255

abbrev pub max_uint16 : ℕ
max_uint16 = 65535

-- (*b)[0], (*b)[1:] on an empty buffer is a run-time panic.
unfoldable pub byte : List ℕ → Result (ℕ × List ℕ)
byte [] = panic
byte (c ∷ b) = ok (c, b)

unfoldable pub uint16 : List ℕ → Result (ℕ × List ℕ)
uint16 [] = panic
uint16 (c ∷ []) = panic
uint16 (c ∷ d ∷ b) = ok (c * 256 + d, b)

-- `bytes`, `slice` and `string` cut n bytes off the front; (*b)[n:] panics where n > len(*b).
unfoldable pub bytes : ℕ → List ℕ → Result (List ℕ × List ℕ)
bytes n b = if ltb (length b) n then panic else ok (take n b, drop n b)

-- byte(i>>8), byte(i), byte(j>>8), byte(j)
unfoldable pub append_uint16 : List ℕ → ℕ → ℕ → List ℕ
append_uint16 b i j = b ++ (uint8 (i / 256) ∷ uint8 i ∷ uint8 (j / 256) ∷ uint8 j ∷ [])

pub bytes-append : (s rest : List ℕ) → bytes (length s) (s ++ rest) ≡ ok (s, rest)
unfolding bytes
bytes-append s rest = rw (
  le→ltb (length (s ++ rest)) (length s) (omega (arith, length-append s rest)),
  take_append s rest,
  drop_append s rest,
)

-- The same with the length read from one byte of the packet.
pub bytes_uint8 :
    (s rest : List ℕ) → length s ≤ max_uint8 → bytes (uint8 (length s)) (s ++ rest) ≡ ok (s, rest)
bytes_uint8 s rest h =
    let e : uint8 (length s) ≡ length s = omega arith in rw e (bytes-append s rest)

pub bytes_uint16 :
    (s rest : List ℕ)
    → length s ≤ max_uint16
    → bytes (uint8 (length s / 256) * 256 + uint8 (length s)) (s ++ rest) ≡ ok (s, rest)
bytes_uint16 s rest h =
    let e : uint8 (length s / 256) * 256 + uint8 (length s) ≡ length s = omega arith in
    rw e (bytes-append s rest)

pub bytes_take : (n : ℕ) (b : List ℕ) → n ≤ length b → bytes n b ≡ ok (take n b, drop n b)
unfolding bytes
bytes_take n b h = rw (le→ltb (length b) n h)

-- A read that the length check before it has made safe goes on to what follows it.
pub byte-Decodes {ℓ} :
    {A : Type ℓ} (b : List ℕ) (k : ℕ × List ℕ → Result A)
    → 0 < length b
    → ((c : ℕ) (r : List ℕ) → length b ≡ length r + 1 → Decodes (k (c, r)))
    → Decodes (byte b >>= k)
unfolding byte
byte-Decodes [] k h f = absurd (omega arith)
byte-Decodes (c ∷ r) k h f = f c r (omega arith)

pub uint16-Decodes {ℓ} :
    {A : Type ℓ} (b : List ℕ) (k : ℕ × List ℕ → Result A)
    → 1 < length b
    → ((n : ℕ) (r : List ℕ) → length b ≡ length r + 2 → Decodes (k (n, r)))
    → Decodes (uint16 b >>= k)
unfolding uint16
uint16-Decodes [] k h f = absurd (omega arith)
uint16-Decodes (c ∷ []) k h f = absurd (omega arith)
uint16-Decodes (c ∷ d ∷ r) k h f = f (c * 256 + d) r (omega arith)

pub bytes-Decodes {ℓ} :
    {A : Type ℓ} (n : ℕ) (b : List ℕ) (k : List ℕ × List ℕ → Result A)
    → n ≤ length b
    → ((s r : List ℕ) → length b ≡ length r + n → Decodes (k (s, r)))
    → Decodes (bytes n b >>= k)
bytes-Decodes n b k h f =
    rw (bytes_take n b h) (f (take n b) (drop n b) (omega (arith, length-drop n b)))

pub check-Decodes {ℓ} :
    {A : Type ℓ} (x y : ℕ) (m : Result A)
    → (y ≤ x → Decodes m)
    → Decodes (if ltb x y then err bad_packet else m)
check-Decodes x y m f = elim (Bool-cases (ltb x y)) [
  | inl t ↦ rw t tt
  | inr t ↦ rw t (f (ltb→le x y t))
]
