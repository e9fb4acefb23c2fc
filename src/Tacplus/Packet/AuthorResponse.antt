-- ===== src/Tacplus/Packet/AuthorResponse.antt =====
-- pkg/public/tacplus/packet.go: AuthorResponse.
use tacacs_plus_go.Base.{
  Error, List, Decodes, Option, Result, [], append_assoc, arg_too_long, arith, bad_packet,
  bind-Decodes, data_too_large, err, false, if◌then◌else◌, length, length-append, ltb, none, ok,
  server_msg_too_large, some, too_many_args, uint8, ℕ, ◌++◌, ◌+◌, ◌>>=◌, ◌∷◌, ◌≡◌, ◌≤◌,
}
use tacacs_plus_go.Tacplus.Wire.{
  append_uint16, byte, byte-Decodes, bytes, bytes-Decodes, bytes_uint16, bytes_uint8, check-Decodes,
  max_uint16, max_uint8, uint16, uint16-Decodes,
}
use tacacs_plus_go.Tacplus.Packet.Args.{
  ArgsFit, ArgsFit-arg_over, arg_bytes, arg_lengths, arg_over, arg_over-ArgsFit, length-arg_lengths,
  read_args, read_args-Decodes, read_args-arg_bytes,
}

pub record AuthorResponse : Type 0 where
  pub status : ℕ
  pub arg : List (List ℕ)
  pub server_msg : List ℕ
  pub data_bytes : List ℕ

abbrev pub body : AuthorResponse → List ℕ
body a =
    append_uint16 (a.status ∷ uint8 (length a.arg) ∷ []) (length a.server_msg) (length a.data_bytes)
    ++ (arg_lengths a.arg ++ (a.server_msg ++ (a.data_bytes ++ arg_bytes a.arg)))

unfoldable pub marshal : AuthorResponse → List ℕ → List ℕ × Option Error
marshal a b =
    if ltb max_uint8 (length a.arg)
    then (b, some too_many_args)
    else if ltb max_uint16 (length a.server_msg)
    then (b, some server_msg_too_large)
    else if ltb max_uint16 (length a.data_bytes)
    then (b, some data_too_large)
    else if arg_over a.arg
    then (b, some arg_too_long)
    else (b ++ body a, none)

unfoldable pub unmarshal : List ℕ → Result AuthorResponse
unmarshal buf = if ltb (length buf) 6 then err bad_packet else do
  (status, b) ← byte buf
  (ac, b) ← byte b
  (sl, b) ← uint16 b
  (dl, b) ← uint16 b
  if ltb (length b) (ac + sl + dl) then err bad_packet else do
    (al, b) ← bytes ac b
    (server_msg, b) ← bytes sl b
    (data_bytes, b) ← bytes dl b
    (arg, b) ← read_args al b
    ok (record { status = status; arg = arg; server_msg = server_msg; data_bytes = data_bytes })

abbrev pub Fits : AuthorResponse → Type 0
Fits a =
    (length a.arg ≤ max_uint8)
    × (length a.server_msg ≤ max_uint16)
    × (length a.data_bytes ≤ max_uint16)
    × ArgsFit a.arg

pub marshal-Fits : (a : AuthorResponse) (b : List ℕ) → Fits a → marshal a b ≡ (b ++ body a, none)
unfolding marshal
marshal-Fits a b (c, s, d, h) = ground (arith, ArgsFit-arg_over a.arg h)

pub Fits-marshal : (a : AuthorResponse) (b : List ℕ) → (marshal a b).1 ≡ none → Fits a
unfolding marshal
Fits-marshal a b h =
    let e : arg_over a.arg ≡ false = ground arith in
    (ground arith, ground arith, ground arith, arg_over-ArgsFit a.arg e)

pub unmarshal-body :
    (a : AuthorResponse) (rest : List ℕ) → Fits a → unmarshal (body a ++ rest) ≡ ok a
unfolding unmarshal byte uint16 append_uint16
unmarshal-body a rest (c, s, d, h) =
    let args = arg_bytes a.arg ++ rest in
    simp append_assoc (
      ground (
        arith,
        bytes_uint8 (arg_lengths a.arg) (a.server_msg ++ (a.data_bytes ++ args)),
        bytes_uint16 a.server_msg (a.data_bytes ++ args),
        bytes_uint16 a.data_bytes args,
        read_args-arg_bytes a.arg rest h,
        length-arg_lengths a.arg,
        length-append (arg_lengths a.arg) (a.server_msg ++ (a.data_bytes ++ args)),
        length-append a.server_msg (a.data_bytes ++ args),
        length-append a.data_bytes args,
      ))

pub unmarshal-Decodes : (buf : List ℕ) → Decodes (unmarshal buf)
unfolding unmarshal
unmarshal-Decodes buf = check-Decodes (length buf) 6 _ λ h.
    byte-Decodes buf _ (omega arith) λ _ b1 e1. byte-Decodes b1 _ (omega arith) λ ac b2 e2.
      uint16-Decodes b2 _ (omega arith) λ sl b3 e3. uint16-Decodes b3 _ (omega arith) λ dl b4 e4.
        check-Decodes (length b4) (ac + sl + dl) _ λ k.
          bytes-Decodes ac b4 _ (omega arith) λ al c1 f1.
            bytes-Decodes sl c1 _ (omega arith) λ _ c2 f2.
              bytes-Decodes dl c2 _ (omega arith)
                λ _ c3 f3. bind-Decodes (read_args al c3) _ (read_args-Decodes al c3) λ _. tt
