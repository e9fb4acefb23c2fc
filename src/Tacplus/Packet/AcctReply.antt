-- ===== src/Tacplus/Packet/AcctReply.antt =====
-- pkg/public/tacplus/packet.go: AcctReply.
use tacacs_plus_go.Base.{
  Error, List, Decodes, Option, Result, [], append_assoc, arith, bad_packet, data_too_large, err,
  if◌then◌else◌, length, length-append, ltb, none, ok, server_msg_too_large, some, ℕ, ◌++◌, ◌+◌,
  ◌>>=◌, ◌∷◌, ◌≡◌, ◌≤◌,
}
use tacacs_plus_go.Tacplus.Wire.{
  append_uint16, byte, byte-Decodes, bytes, bytes-Decodes, bytes_uint16, check-Decodes, max_uint16,
  uint16, uint16-Decodes,
}

pub record AcctReply : Type 0 where
  pub status : ℕ
  pub server_msg : List ℕ
  pub data_bytes : List ℕ

abbrev pub body : AcctReply → List ℕ
body a =
    append_uint16 [] (length a.server_msg) (length a.data_bytes)
    ++ (a.status ∷ (a.server_msg ++ a.data_bytes))

unfoldable pub marshal : AcctReply → List ℕ → List ℕ × Option Error
marshal a b =
    if ltb max_uint16 (length a.server_msg)
    then (b, some server_msg_too_large)
    else if ltb max_uint16 (length a.data_bytes)
    then (b, some data_too_large)
    else (b ++ body a, none)

unfoldable pub unmarshal : List ℕ → Result AcctReply
unmarshal buf = if ltb (length buf) 5 then err bad_packet else do
  (sl, b) ← uint16 buf
  (dl, b) ← uint16 b
  (status, b) ← byte b
  if ltb (length b) (sl + dl) then err bad_packet else do
    (server_msg, b) ← bytes sl b
    (data_bytes, b) ← bytes dl b
    ok (record { status = status; server_msg = server_msg; data_bytes = data_bytes })

abbrev pub Fits : AcctReply → Type 0
Fits a = (length a.server_msg ≤ max_uint16) × (length a.data_bytes ≤ max_uint16)

pub marshal-Fits : (a : AcctReply) (b : List ℕ) → Fits a → marshal a b ≡ (b ++ body a, none)
unfolding marshal
marshal-Fits a b h = ground arith

pub Fits-marshal : (a : AcctReply) (b : List ℕ) → (marshal a b).1 ≡ none → Fits a
unfolding marshal
Fits-marshal a b h = ground arith

pub unmarshal-body : (a : AcctReply) (rest : List ℕ) → Fits a → unmarshal (body a ++ rest) ≡ ok a
unfolding unmarshal byte uint16 append_uint16
unmarshal-body a rest h = simp append_assoc (
    ground (
      arith,
      bytes_uint16 a.server_msg (a.data_bytes ++ rest),
      bytes_uint16 a.data_bytes rest,
      length-append a.server_msg (a.data_bytes ++ rest),
      length-append a.data_bytes rest,
    ))

pub unmarshal-Decodes : (buf : List ℕ) → Decodes (unmarshal buf)
unfolding unmarshal
unmarshal-Decodes buf = check-Decodes (length buf) 5 _ λ h.
    uint16-Decodes buf _ (omega arith) λ sl b1 e1. uint16-Decodes b1 _ (omega arith) λ dl b2 e2.
      byte-Decodes b2 _ (omega arith) λ _ b3 e3. check-Decodes (length b3) (sl + dl) _ λ k.
        bytes-Decodes sl b3 _ (omega arith)
          λ _ c1 f1. bytes-Decodes dl c1 _ (omega arith) λ _ c2 f2. tt
