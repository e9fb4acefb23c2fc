-- ===== src/Tacplus/Packet/AuthenContinue.antt =====
-- pkg/public/tacplus/packet.go: AuthenContinue.
use tacacs_plus_go.Base.{
  Bool, Error, List, Decodes, Option, Result, [], append_assoc, arith, bad_packet, err, false,
  if◌then◌else◌, length, length-append, ltb, message_too_large, none, ok, some, true, ℕ, ◌++◌, ◌+◌,
  ◌>>=◌, ◌∷◌, ◌≡◌, ◌≤◌,
}
use tacacs_plus_go.Tacplus.Wire.{
  append_uint16, byte, byte-Decodes, bytes, bytes-Decodes, bytes_take, bytes_uint16, check-Decodes,
  max_uint16, uint16, uint16-Decodes,
}
use Prim.Native.Nat.{bit_and}

-- `message` is the user's answer, or the reason where `abort` is set.
pub record AuthenContinue : Type 0 where
  pub abort : Bool
  pub message : List ℕ

abbrev pub flags : AuthenContinue → ℕ
flags a = if a.abort then 1 else 0

abbrev pub body : AuthenContinue → List ℕ
body a =
    (if a.abort
      then append_uint16 [] 0 (length a.message)
      else append_uint16 [] (length a.message) 0)
    ++ (flags a ∷ a.message)

unfoldable pub marshal : AuthenContinue → List ℕ → List ℕ × Option Error
marshal a b =
    if ltb max_uint16 (length a.message) then (b, some message_too_large) else (b ++ body a, none)

unfoldable pub unmarshal : List ℕ → Result AuthenContinue
unmarshal buf = if ltb (length buf) 5 then err bad_packet else do
  (ml, b) ← uint16 buf
  (dl, b) ← uint16 b
  (flag_byte, b) ← byte b
  let abort = ltb 0 (bit_and flag_byte 1)
  if ltb (length b) (ml + dl) then err bad_packet else do
    (msg, b) ← bytes ml b
    (data_bytes, b) ← bytes dl b
    ok (record { abort = abort; message = if abort then data_bytes else msg })

abbrev pub Fits : AuthenContinue → Type 0
Fits a = length a.message ≤ max_uint16

pub marshal-Fits : (a : AuthenContinue) (b : List ℕ) → Fits a → marshal a b ≡ (b ++ body a, none)
unfolding marshal
marshal-Fits a b h = ground arith

pub Fits-marshal : (a : AuthenContinue) (b : List ℕ) → (marshal a b).1 ≡ none → Fits a
unfolding marshal
Fits-marshal a b h = ground arith

no_bytes : (b : List ℕ) → bytes 0 b ≡ ok ([], b)
no_bytes b = bytes_take 0 b (omega arith)

unmarshal-body_abort :
    (s rest : List ℕ)
    → length s ≤ max_uint16
    → unmarshal (append_uint16 [] 0 (length s) ++ (1 ∷ s ++ rest))
      ≡ ok (record { abort = true; message = s })
unfolding unmarshal byte uint16 append_uint16
unmarshal-body_abort s rest h =
    ground (arith, bytes_uint16 s rest, no_bytes (s ++ rest), length-append s rest)

unmarshal-body_message :
    (s rest : List ℕ)
    → length s ≤ max_uint16
    → unmarshal (append_uint16 [] (length s) 0 ++ (0 ∷ s ++ rest))
      ≡ ok (record { abort = false; message = s })
unfolding unmarshal byte uint16 append_uint16
unmarshal-body_message s rest h =
    ground (arith, bytes_uint16 s rest, no_bytes rest, length-append s rest)

pub unmarshal-body :
    (a : AuthenContinue) (rest : List ℕ) → Fits a → unmarshal (body a ++ rest) ≡ ok a
unmarshal-body a rest h = by_flag a.abort a.message h
  where
    by_flag :
        (f : Bool) (s : List ℕ)
        → length s ≤ max_uint16
        → unmarshal (body (record { abort = f; message = s }) ++ rest)
          ≡ ok (record { abort = f; message = s })
    by_flag true s k = rw append_assoc (unmarshal-body_abort s rest k)
    by_flag false s k = rw append_assoc (unmarshal-body_message s rest k)

pub unmarshal-Decodes : (buf : List ℕ) → Decodes (unmarshal buf)
unfolding unmarshal
unmarshal-Decodes buf = check-Decodes (length buf) 5 _ λ h.
    uint16-Decodes buf _ (omega arith) λ ml b1 e1. uint16-Decodes b1 _ (omega arith) λ dl b2 e2.
      byte-Decodes b2 _ (omega arith) λ _ b3 e3. check-Decodes (length b3) (ml + dl) _ λ k.
        bytes-Decodes ml b3 _ (omega arith)
          λ _ c1 f1. bytes-Decodes dl c1 _ (omega arith) λ _ c2 f2. tt
