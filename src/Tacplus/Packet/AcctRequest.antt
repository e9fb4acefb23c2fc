-- ===== src/Tacplus/Packet/AcctRequest.antt =====
-- pkg/public/tacplus/packet.go: AcctRequest.
use tacacs_plus_go.Base.{
  Error, List, Decodes, Option, Result, append_assoc, arg_too_long, arith, bad_packet, bind-Decodes,
  err, false, if◌then◌else◌, length, length-append, ltb, none, ok, port_too_large,
  rem_addr_too_large, some, too_many_args, uint8, user_too_large, ℕ, ◌++◌, ◌+◌, ◌>>=◌, ◌∷◌, ◌≡◌,
  ◌≤◌,
}
use tacacs_plus_go.Tacplus.Wire.{
  byte, byte-Decodes, bytes, bytes-Decodes, bytes_uint8, check-Decodes, max_uint8,
}
use tacacs_plus_go.Tacplus.Packet.Args.{
  ArgsFit, ArgsFit-arg_over, arg_bytes, arg_lengths, arg_over, arg_over-ArgsFit, length-arg_lengths,
  read_args, read_args-Decodes, read_args-arg_bytes,
}

pub record AcctRequest : Type 0 where
  pub flags : ℕ
  pub authen_method : ℕ
  pub priv_lvl : ℕ
  pub authen_type : ℕ
  pub authen_service : ℕ
  pub user : List ℕ
  pub port : List ℕ
  pub rem_addr : List ℕ
  pub arg : List (List ℕ)

abbrev pub body : AcctRequest → List ℕ
body a =
    a.flags
    ∷ a.authen_method
    ∷ a.priv_lvl
    ∷ a.authen_type
    ∷ a.authen_service
    ∷ uint8 (length a.user)
    ∷ uint8 (length a.port)
    ∷ uint8 (length a.rem_addr)
    ∷ uint8 (length a.arg)
    ∷ (arg_lengths a.arg ++ (a.user ++ (a.port ++ (a.rem_addr ++ arg_bytes a.arg))))

unfoldable pub marshal : AcctRequest → List ℕ → List ℕ × Option Error
marshal a b =
    if ltb max_uint8 (length a.user)
    then (b, some user_too_large)
    else if ltb max_uint8 (length a.port)
    then (b, some port_too_large)
    else if ltb max_uint8 (length a.rem_addr)
    then (b, some rem_addr_too_large)
    else if ltb max_uint8 (length a.arg)
    then (b, some too_many_args)
    else if arg_over a.arg
    then (b, some arg_too_long)
    else (b ++ body a, none)

unfoldable pub unmarshal : List ℕ → Result AcctRequest
unmarshal buf = if ltb (length buf) 9 then err bad_packet else do
  (flags, b) ← byte buf
  (authen_method, b) ← byte b
  (priv_lvl, b) ← byte b
  (authen_type, b) ← byte b
  (authen_service, b) ← byte b
  (ul, b) ← byte b
  (pl, b) ← byte b
  (rl, b) ← byte b
  (ac, b) ← byte b
  if ltb (length b) (ul + pl + rl + ac) then err bad_packet else do
    (al, b) ← bytes ac b
    (user, b) ← bytes ul b
    (port, b) ← bytes pl b
    (rem_addr, b) ← bytes rl b
    (arg, b) ← read_args al b
    ok (record {
      flags = flags;
      authen_method = authen_method;
      priv_lvl = priv_lvl;
      authen_type = authen_type;
      authen_service = authen_service;
      user = user;
      port = port;
      rem_addr = rem_addr;
      arg = arg;
    })

abbrev pub Fits : AcctRequest → Type 0
Fits a =
    (length a.user ≤ max_uint8)
    × (length a.port ≤ max_uint8)
    × (length a.rem_addr ≤ max_uint8)
    × (length a.arg ≤ max_uint8)
    × ArgsFit a.arg

pub marshal-Fits : (a : AcctRequest) (b : List ℕ) → Fits a → marshal a b ≡ (b ++ body a, none)
unfolding marshal
marshal-Fits a b (u, p, r, c, h) = ground (arith, ArgsFit-arg_over a.arg h)

pub Fits-marshal : (a : AcctRequest) (b : List ℕ) → (marshal a b).1 ≡ none → Fits a
unfolding marshal
Fits-marshal a b h =
    let e : arg_over a.arg ≡ false = ground arith in
    (ground arith, ground arith, ground arith, ground arith, arg_over-ArgsFit a.arg e)

-- The reads behind the fixed fields, at the lengths that `marshal` wrote.
pub unmarshal-body : (a : AcctRequest) (rest : List ℕ) → Fits a → unmarshal (body a ++ rest) ≡ ok a
unfolding unmarshal byte
unmarshal-body a rest (u, p, r, c, h) =
    let args = arg_bytes a.arg ++ rest in
    simp append_assoc (
      ground (
        arith,
        bytes_uint8 (arg_lengths a.arg) (a.user ++ (a.port ++ (a.rem_addr ++ args))),
        bytes_uint8 a.user (a.port ++ (a.rem_addr ++ args)),
        bytes_uint8 a.port (a.rem_addr ++ args),
        bytes_uint8 a.rem_addr args,
        read_args-arg_bytes a.arg rest h,
        length-arg_lengths a.arg,
        length-append (arg_lengths a.arg) (a.user ++ (a.port ++ (a.rem_addr ++ args))),
        length-append a.user (a.port ++ (a.rem_addr ++ args)),
        length-append a.port (a.rem_addr ++ args),
        length-append a.rem_addr args,
      ))

pub unmarshal-Decodes : (buf : List ℕ) → Decodes (unmarshal buf)
unfolding unmarshal
unmarshal-Decodes buf = check-Decodes (length buf) 9 _ λ h.
    byte-Decodes buf _ (omega arith) λ _ b1 e1. byte-Decodes b1 _ (omega arith) λ _ b2 e2.
      byte-Decodes b2 _ (omega arith) λ _ b3 e3. byte-Decodes b3 _ (omega arith) λ _ b4 e4.
        byte-Decodes b4 _ (omega arith) λ _ b5 e5. byte-Decodes b5 _ (omega arith) λ ul b6 e6.
          byte-Decodes b6 _ (omega arith) λ pl b7 e7. byte-Decodes b7 _ (omega arith) λ rl b8 e8.
            byte-Decodes b8 _ (omega arith) λ ac b9 e9.
              check-Decodes (length b9) (ul + pl + rl + ac) _ λ k.
                bytes-Decodes ac b9 _ (omega arith) λ al c1 f1.
                  bytes-Decodes ul c1 _ (omega arith) λ _ c2 f2.
                    bytes-Decodes pl c2 _ (omega arith) λ _ c3 f3.
                      bytes-Decodes rl c3 _ (omega arith) λ _ c4 f4.
                        bind-Decodes (read_args al c4) _ (read_args-Decodes al c4) λ _. tt
