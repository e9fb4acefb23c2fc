-- ===== src/Tacplus/Packet/AuthenReply.antt =====
-- pkg/public/tacplus/packet.go: AuthenReply.
use tacacs_plus_go.Base.{
  Bool, Error, List, Decodes, Option, Result, [], append_assoc, arith, bad_packet, data_too_large,
  err, if◌then◌else◌, length, length-append, ltb, none, ok, server_msg_too_large, some, ℕ, ◌++◌,
  ◌+◌, ◌>>=◌, ◌||◌, ◌∷◌, ◌≡◌, ◌≤◌,
}
use tacacs_plus_go.Tacplus.Wire.{
  append_uint16, byte, byte-Decodes, bytes, bytes-Decodes, bytes_uint16, check-Decodes, max_uint16,
  uint16, uint16-Decodes,
}
use Prim.Native.Nat.{bit_and}

pub record AuthenReply : Type 0 where
  pub status : ℕ
  pub no_echo : Bool
  pub server_msg : List ℕ
  pub data_bytes : List ℕ

abbrev pub status_get_data : ℕ
status_get_data = 0x3

abbrev pub status_get_pass : ℕ
status_get_pass = 0x5

-- The reply ends the session unless it asks for data, a user or a password.
unfoldable pub last : AuthenReply → Bool
last a = ltb a.status status_get_data || ltb status_get_pass a.status

abbrev pub flags : AuthenReply → ℕ
flags a = if a.no_echo then 1 else 0

abbrev pub body : AuthenReply → List ℕ
body a =
    append_uint16 (a.status ∷ flags a ∷ []) (length a.server_msg) (length a.data_bytes)
    ++ (a.server_msg ++ a.data_bytes)

unfoldable pub marshal : AuthenReply → List ℕ → List ℕ × Option Error
marshal a b =
    if ltb max_uint16 (length a.server_msg)
    then (b, some server_msg_too_large)
    else if ltb max_uint16 (length a.data_bytes)
    then (b, some data_too_large)
    else (b ++ body a, none)

unfoldable pub unmarshal : List ℕ → Result AuthenReply
unmarshal buf = if ltb (length buf) 6 then err bad_packet else do
  (status, b) ← byte buf
  (flag_byte, b) ← byte b
  (sl, b) ← uint16 b
  (dl, b) ← uint16 b
  if ltb (length b) (sl + dl) then err bad_packet else do
    (server_msg, b) ← bytes sl b
    (data_bytes, b) ← bytes dl b
    ok (record {
      status = status;
      no_echo = ltb 0 (bit_and flag_byte 1);
      server_msg = server_msg;
      data_bytes = data_bytes;
    })

abbrev pub Fits : AuthenReply → Type 0
Fits a = (length a.server_msg ≤ max_uint16) × (length a.data_bytes ≤ max_uint16)

pub marshal-Fits : (a : AuthenReply) (b : List ℕ) → Fits a → marshal a b ≡ (b ++ body a, none)
unfolding marshal
marshal-Fits a b h = ground arith

pub Fits-marshal : (a : AuthenReply) (b : List ℕ) → (marshal a b).1 ≡ none → Fits a
unfolding marshal
Fits-marshal a b h = ground arith

pub unmarshal-body : (a : AuthenReply) (rest : List ℕ) → Fits a → unmarshal (body a ++ rest) ≡ ok a
unfolding unmarshal byte uint16 append_uint16
unmarshal-body a rest h = simp append_assoc (
    ground (
      arith,
      bytes_uint16 a.server_msg (a.data_bytes ++ rest),
      bytes_uint16 a.data_bytes rest,
      length-append a.server_msg (a.data_bytes ++ rest),
      length-append a.data_bytes rest,
    ))

pub unmarshal-Decodes : (buf : List ℕ) → Decodes (unmarshal buf)
unfolding unmarshal
unmarshal-Decodes buf = check-Decodes (length buf) 6 _ λ h.
    byte-Decodes buf _ (omega arith) λ _ b1 e1. byte-Decodes b1 _ (omega arith) λ _ b2 e2.
      uint16-Decodes b2 _ (omega arith) λ sl b3 e3. uint16-Decodes b3 _ (omega arith) λ dl b4 e4.
        check-Decodes (length b4) (sl + dl) _ λ k.
          bytes-Decodes sl b4 _ (omega arith)
            λ _ c1 f1. bytes-Decodes dl c1 _ (omega arith) λ _ c2 f2. tt
