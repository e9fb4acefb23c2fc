-- ===== src/Tacplus/Crypt/Involution.antt =====
-- Masking a body twice gives it back: `crypt` both encrypts and decrypts (pkg/public/tacplus/conn.go).
use tacacs_plus_go.Base.{
  All, IsByte, List, [], ap, arith, drop, drop_append, length, length-append, length-drop,
  length-take_le, refl, some, subst, suc, take, take-append-drop, take_append, zero, ℕ, ◌++◌, ◌<◌,
  ◌∙◌, ◌∷◌, ◌≡◌, ◌≤◌,
}
use tacacs_plus_go.Base.Bits.{xor_twice}
use tacacs_plus_go.Tacplus.Crypt.{IsDigest, Raw, crypt, crypt_loop, put_uint32, xor_bytes}
use mathlib.Core.Option

take-All : (n : ℕ) (xs : List ℕ) → All IsByte xs → All IsByte (take n xs)
take-All zero xs h = tt
take-All (suc n) [] h = tt
take-All (suc n) (x ∷ xs) h = (h.0, take-All n xs h.1)

drop-All : (n : ℕ) (xs : List ℕ) → All IsByte xs → All IsByte (drop n xs)
drop-All zero xs h = h
drop-All (suc n) [] h = tt
drop-All (suc n) (x ∷ xs) h = drop-All n xs h.1

append-All : (xs ys : List ℕ) → All IsByte xs → All IsByte ys → All IsByte (xs ++ ys)
append-All [] ys h k = k
append-All (x ∷ xs) ys h k = (h.0, append-All xs ys h.1 k)

length-xor_bytes : (xs ks : List ℕ) → length (xor_bytes xs ks) ≡ length xs
unfolding xor_bytes
length-xor_bytes [] ks = refl
length-xor_bytes (x ∷ xs) [] = refl
length-xor_bytes (x ∷ xs) (k ∷ ks) = ap suc (length-xor_bytes xs ks)

xor_bytes-All : (xs ks : List ℕ) → All IsByte xs → All IsByte ks → All IsByte (xor_bytes xs ks)
unfolding xor_bytes
xor_bytes-All [] ks h e = tt
xor_bytes-All (x ∷ xs) [] h e = h
xor_bytes-All (x ∷ xs) (k ∷ ks) h e = ((xor_twice x k h.0 e.0).1, xor_bytes-All xs ks h.1 e.1)

xor_bytes_twice :
    (xs ks : List ℕ) → All IsByte xs → All IsByte ks → xor_bytes (xor_bytes xs ks) ks ≡ xs
unfolding xor_bytes
xor_bytes_twice [] ks h e = refl
xor_bytes_twice (x ∷ xs) [] h e = refl
xor_bytes_twice (x ∷ xs) (k ∷ ks) h e =
    cc ((xor_twice x k h.0 e.0).0, xor_bytes_twice xs ks h.1 e.1)

module _ (md5 : List ℕ → List ℕ) (digest : IsDigest md5) (buf : List ℕ) where
  -- The bytes of the digest that a round uses, and the part of the body that it masks.
  abbrev mask : List ℕ → List ℕ → List ℕ
  mask sum b = take (length b) (md5 (buf ++ sum))

  abbrev head : List ℕ → List ℕ → List ℕ
  head sum b = take (length (mask sum b)) b

  abbrev rest : List ℕ → List ℕ → List ℕ
  rest sum b = drop (length (mask sum b)) b

  crypt_loop_round :
      (fuel : ℕ) (sum b : List ℕ)
      → 0 < length b
      → crypt_loop md5 (suc fuel) buf sum b
        ≡ Option.map
            (λ r. xor_bytes (head sum b) (mask sum b) ++ r)
            (crypt_loop md5 fuel buf (mask sum b) (rest sum b))
  unfolding crypt_loop
  crypt_loop_round fuel sum [] h = absurd (omega arith)
  crypt_loop_round fuel sum (x ∷ b) h = refl

  length-take_bounds :
      (n : ℕ) (xs : List ℕ)
      → (length (take n xs) ≤ n) × (0 < n → 0 < length xs → 0 < length (take n xs))
  length-take_bounds zero xs = omega arith
  length-take_bounds (suc n) [] = omega arith
  length-take_bounds (suc n) (x ∷ xs) =
      let (lo, hi) = length-take_bounds n xs in (omega arith, λ _ _. omega arith)

  abbrev Masks : ℕ → List ℕ → List ℕ → Type 0
  Masks fuel sum b =
      (out : List ℕ) × (crypt_loop md5 fuel buf sum b ≡ some out)
      × (length out ≡ length b)
      × All IsByte out
      × (crypt_loop md5 fuel buf sum out ≡ some b)

  -- One round in front of a loop that masks the rest.
  round-Masks :
      (fuel : ℕ) (sum b : List ℕ)
      → 0 < length b
      → All IsByte b
      → Masks fuel (mask sum b) (rest sum b)
      → Masks (suc fuel) sum b
  round-Masks fuel sum b pos hb (r, e, lr, hr, back) = (
    front ++ r,
    once,
    len,
    append-All front r (xor_bytes-All _ _ (take-All _ b hb) mask_bytes) hr,
    twice,
  )
    where
      m : List ℕ
      m = mask sum b

      front : List ℕ
      front = xor_bytes (head sum b) m

      mask_bytes : All IsByte m
      mask_bytes = take-All (length b) _ (digest.bytes _)

      front_length : length front ≡ length m
      front_length =
          length-xor_bytes (head sum b) m
          ∙ length-take_le (length m) b (length-take_bounds (length b) _).0

      len : length (front ++ r) ≡ length b
      len = omega (
        arith,
        length-append front r,
        front_length,
        lr,
        length-drop (length m) b,
        (length-take_bounds (length b) (md5 (buf ++ sum))).0,
      )

      once : crypt_loop md5 (suc fuel) buf sum b ≡ some (front ++ r)
      once = crypt_loop_round fuel sum b pos ∙ ap (Option.map (λ t. front ++ t)) e

      same_mask : mask sum (front ++ r) ≡ m
      same_mask = ap (λ (n : ℕ). take n (md5 (buf ++ sum))) len

      cut_head : take (length m) (front ++ r) ≡ front
      cut_head = subst (λ n. take n (front ++ r) ≡ front) front_length (take_append front r)

      cut_rest : drop (length m) (front ++ r) ≡ r
      cut_rest = subst (λ n. drop n (front ++ r) ≡ r) front_length (drop_append front r)

      twice : crypt_loop md5 (suc fuel) buf sum (front ++ r) ≡ some b
      twice =
          crypt_loop_round fuel sum (front ++ r) (omega (arith, len))
          ∙ rw (same_mask, cut_head, cut_rest, back)
              (ap some (
                rw (xor_bytes_twice (head sum b) m (take-All (length m) b hb) mask_bytes)
                  (take-append-drop (length m) b)))

  pub crypt_loop-Masks :
      (fuel : ℕ) (sum b : List ℕ) → length b ≤ fuel → All IsByte b → Masks fuel sum b
  crypt_loop-Masks fuel sum [] h hb =
      ([], unfold crypt_loop in refl, refl, tt, unfold crypt_loop in refl)
  crypt_loop-Masks zero sum (x ∷ b) h hb = absurd (omega arith)
  crypt_loop-Masks (suc fuel) sum (x ∷ b) h hb = round-Masks fuel sum (x ∷ b) (omega arith) hb (
      crypt_loop-Masks fuel (mask sum (x ∷ b)) (rest sum (x ∷ b))
        (omega (
          arith,
          length-drop (length (mask sum (x ∷ b))) (x ∷ b),
          (length-take_bounds (length (x ∷ b)) (md5 (buf ++ sum))).1 (omega arith)
              (omega (arith, digest.size (buf ++ sum))),
        ))
        (drop-All (length (mask sum (x ∷ b))) (x ∷ b) hb))

-- For every body of bytes `crypt` returns: the header is kept, the body has the same length, and a
-- second `crypt` with the same key gives the packet back.
pub crypt_twice :
    (md5 : List ℕ → List ℕ) (digest : IsDigest md5) (key : List ℕ) (p : Raw)
    → All IsByte p.body
    → (q : List ℕ) × (crypt md5 key p ≡ some (record p { body = q }))
      × (length q ≡ length p.body)
      × All IsByte q
      × (crypt md5 key (record p { body = q }) ≡ some p)
unfolding crypt
crypt_twice md5 digest key p h =
    let buf = put_uint32 p.id ++ (key ++ (p.version ∷ p.seq_no ∷ [])) in
    let (q, e, l, hq, back) =
      crypt_loop-Masks md5 digest buf (length p.body) [] p.body (omega arith) h in
    (q, rw e, l, hq, rw (l, back))
