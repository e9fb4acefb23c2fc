-- ===== src/Tacplus/Packet/AuthenStart.antt =====
-- pkg/public/tacplus/packet.go: AuthenStart.
use tacacs_plus_go.Base.{
  Decodes, Error, List, Option, Result, append_assoc, arith, bad_packet, data_too_large, err,
  if◌then◌else◌, length, length-append, ltb, none, ok, port_too_large, rem_addr_too_large, some,
  uint8, user_too_large, ℕ, ◌++◌, ◌+◌, ◌==◌, ◌>>=◌, ◌||◌, ◌∷◌, ◌≡◌, ◌≤◌,
}
use tacacs_plus_go.Tacplus.Wire.{
  byte, byte-Decodes, bytes, bytes-Decodes, bytes_uint8, check-Decodes, max_uint8,
}

pub record AuthenStart : Type 0 where
  pub action : ℕ
  pub priv_lvl : ℕ
  pub authen_type : ℕ
  pub authen_service : ℕ
  pub user : List ℕ
  pub port : List ℕ
  pub rem_addr : List ℕ
  pub data_bytes : List ℕ

-- The protocol version that the packet's action and authentication type call for: minor version one
-- for a login with PAP, CHAP, ARAP or MS-CHAP and for a send-auth with PAP, CHAP or MS-CHAP.
unfoldable pub version : AuthenStart → ℕ
version a =
    if a.action == 0x1
    then (if a.authen_type == 0x2
          || a.authen_type == 0x3
          || a.authen_type == 0x4
          || a.authen_type == 0x5
        then 0xc1
        else 0xc0)
    else if a.action == 0x4
    then (if a.authen_type == 0x2 || a.authen_type == 0x3 || a.authen_type == 0x5
        then 0xc1
        else 0xc0)
    else 0xc0

abbrev pub body : AuthenStart → List ℕ
body a =
    a.action
    ∷ a.priv_lvl
    ∷ a.authen_type
    ∷ a.authen_service
    ∷ uint8 (length a.user)
    ∷ uint8 (length a.port)
    ∷ uint8 (length a.rem_addr)
    ∷ uint8 (length a.data_bytes)
    ∷ (a.user ++ (a.port ++ (a.rem_addr ++ a.data_bytes)))

-- The slice that Go returns on an error is the one that it was given.
unfoldable pub marshal : AuthenStart → List ℕ → List ℕ × Option Error
marshal a b =
    if ltb max_uint8 (length a.user)
    then (b, some user_too_large)
    else if ltb max_uint8 (length a.port)
    then (b, some port_too_large)
    else if ltb max_uint8 (length a.rem_addr)
    then (b, some rem_addr_too_large)
    else if ltb max_uint8 (length a.data_bytes)
    then (b, some data_too_large)
    else (b ++ body a, none)

unfoldable pub unmarshal : List ℕ → Result AuthenStart
unmarshal buf = if ltb (length buf) 8 then err bad_packet else do
  (action, b) ← byte buf
  (priv_lvl, b) ← byte b
  (authen_type, b) ← byte b
  (authen_service, b) ← byte b
  (ul, b) ← byte b
  (pl, b) ← byte b
  (rl, b) ← byte b
  (dl, b) ← byte b
  if ltb (length b) (ul + pl + rl + dl) then err bad_packet else do
    (user, b) ← bytes ul b
    (port, b) ← bytes pl b
    (rem_addr, b) ← bytes rl b
    (data_bytes, b) ← bytes dl b
    ok (record {
      action = action;
      priv_lvl = priv_lvl;
      authen_type = authen_type;
      authen_service = authen_service;
      user = user;
      port = port;
      rem_addr = rem_addr;
      data_bytes = data_bytes;
    })

abbrev pub Fits : AuthenStart → Type 0
Fits a =
    (length a.user ≤ max_uint8)
    × (length a.port ≤ max_uint8)
    × (length a.rem_addr ≤ max_uint8)
    × (length a.data_bytes ≤ max_uint8)

pub marshal-Fits : (a : AuthenStart) (b : List ℕ) → Fits a → marshal a b ≡ (b ++ body a, none)
unfolding marshal
marshal-Fits a b h = ground arith

pub Fits-marshal : (a : AuthenStart) (b : List ℕ) → (marshal a b).1 ≡ none → Fits a
unfolding marshal
Fits-marshal a b h = ground arith

pub unmarshal-body : (a : AuthenStart) (rest : List ℕ) → Fits a → unmarshal (body a ++ rest) ≡ ok a
unfolding unmarshal byte
unmarshal-body a rest h = simp append_assoc (
    ground (
      arith,
      bytes_uint8 a.user (a.port ++ (a.rem_addr ++ (a.data_bytes ++ rest))),
      bytes_uint8 a.port (a.rem_addr ++ (a.data_bytes ++ rest)),
      bytes_uint8 a.rem_addr (a.data_bytes ++ rest),
      bytes_uint8 a.data_bytes rest,
      length-append a.user (a.port ++ (a.rem_addr ++ (a.data_bytes ++ rest))),
      length-append a.port (a.rem_addr ++ (a.data_bytes ++ rest)),
      length-append a.rem_addr (a.data_bytes ++ rest),
      length-append a.data_bytes rest,
    ))

pub unmarshal-Decodes : (buf : List ℕ) → Decodes (unmarshal buf)
unfolding unmarshal
unmarshal-Decodes buf = check-Decodes (length buf) 8 _ λ h.
    byte-Decodes buf _ (omega arith) λ _ b1 e1. byte-Decodes b1 _ (omega arith) λ _ b2 e2.
      byte-Decodes b2 _ (omega arith) λ _ b3 e3. byte-Decodes b3 _ (omega arith) λ _ b4 e4.
        byte-Decodes b4 _ (omega arith) λ ul b5 e5. byte-Decodes b5 _ (omega arith) λ pl b6 e6.
          byte-Decodes b6 _ (omega arith) λ rl b7 e7. byte-Decodes b7 _ (omega arith) λ dl b8 e8.
            check-Decodes (length b8) (ul + pl + rl + dl) _ λ k.
              bytes-Decodes ul b8 _ (omega arith) λ _ c1 f1.
                bytes-Decodes pl c1 _ (omega arith) λ _ c2 f2.
                  bytes-Decodes rl c2 _ (omega arith)
                    λ _ c3 f3. bytes-Decodes dl c3 _ (omega arith) λ _ c4 f4. tt
