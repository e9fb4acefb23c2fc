-- ===== src/Tacplus/Codec/Bounds.antt =====
-- The size of an encoded packet against maxBodyLen (pkg/public/tacplus/conn.go).
use tacacs_plus_go.Tacplus.Packet.AuthorResponse.{AuthorResponse}
use tacacs_plus_go.Base.{
  List, [], ap, arith, length, length-append, none, refl, suc, sym, zero, ℕ, ◌*◌, ◌++◌, ◌+◌, ◌∙◌,
  ◌∷◌, ◌≡◌, ◌≤◌,
}
use tacacs_plus_go.Tacplus.Codec.{
  Fits, Packet, acct_reply, acct_request, authen_continue, authen_reply, authen_start,
  author_request, author_response, body, marshal,
}
use tacacs_plus_go.Tacplus.Codec.RoundTrip.{Fits-marshal, marshal-Fits}
use tacacs_plus_go.Tacplus.Packet.Args.{
  ArgsFit, arg_bytes, arg_lengths, length-arg_bytes-le, length-arg_lengths,
}
use tacacs_plus_go.Tacplus.Wire.{append_uint16}

abbrev pub max_body_len : ℕ
max_body_len = 196356

length-body-le : (p : Packet) → Fits p → length (body p) ≤ max_body_len
unfolding body append_uint16
length-body-le (authen_start a) h = omega (
  arith,
  length-append a.user (a.port ++ (a.rem_addr ++ a.data_bytes)),
  length-append a.port (a.rem_addr ++ a.data_bytes),
  length-append a.rem_addr a.data_bytes,
)
length-body-le (authen_reply a) h = omega (arith, length-append a.server_msg a.data_bytes)
length-body-le (authen_continue a) h = ground arith
length-body-le (author_request a) (u, p, r, c, h) = omega (
  arith,
  length-append (arg_lengths a.arg) (a.user ++ (a.port ++ (a.rem_addr ++ arg_bytes a.arg))),
  length-append a.user (a.port ++ (a.rem_addr ++ arg_bytes a.arg)),
  length-append a.port (a.rem_addr ++ arg_bytes a.arg),
  length-append a.rem_addr (arg_bytes a.arg),
  length-arg_lengths a.arg,
  length-arg_bytes-le a.arg h,
)
length-body-le (author_response a) (c, s, d, h) = omega (
  arith,
  length-append (arg_lengths a.arg) (a.server_msg ++ (a.data_bytes ++ arg_bytes a.arg)),
  length-append a.server_msg (a.data_bytes ++ arg_bytes a.arg),
  length-append a.data_bytes (arg_bytes a.arg),
  length-arg_lengths a.arg,
  length-arg_bytes-le a.arg h,
)
length-body-le (acct_request a) (u, p, r, c, h) = omega (
  arith,
  length-append (arg_lengths a.arg) (a.user ++ (a.port ++ (a.rem_addr ++ arg_bytes a.arg))),
  length-append a.user (a.port ++ (a.rem_addr ++ arg_bytes a.arg)),
  length-append a.port (a.rem_addr ++ arg_bytes a.arg),
  length-append a.rem_addr (arg_bytes a.arg),
  length-arg_lengths a.arg,
  length-arg_bytes-le a.arg h,
)
length-body-le (acct_reply a) h = omega (arith, length-append a.server_msg a.data_bytes)

abbrev replicate {ℓ} : {A : Type ℓ} → ℕ → A → List A
replicate zero a = []
replicate (suc n) a = a ∷ replicate n a

length-replicate {ℓ} : {A : Type ℓ} (n : ℕ) (a : A) → length (replicate n a) ≡ n
length-replicate zero a = refl
length-replicate (suc n) a = ap suc (length-replicate n a)

length-arg_bytes_full :
    (n : ℕ) (s : List ℕ) → length s ≡ 255 → length (arg_bytes (replicate n s)) ≡ 255 * n
unfolding arg_bytes
length-arg_bytes_full zero s h = omega arith
length-arg_bytes_full (suc n) s h =
    omega (arith, length-append s (arg_bytes (replicate n s)), length-arg_bytes_full n s h)

replicate-ArgsFit : (n : ℕ) (s : List ℕ) → length s ≤ 255 → ArgsFit (replicate n s)
replicate-ArgsFit zero s h = tt
replicate-ArgsFit (suc n) s h = (h, replicate-ArgsFit n s h)

abbrev zeros : ℕ → List ℕ
zeros n = replicate n 0

-- The largest response of `c` arguments of `l` bytes, with two texts of `m` bytes.
abbrev full : ℕ → ℕ → ℕ → AuthorResponse
full c l m = record {
  status = 1;
  arg = replicate c (zeros l);
  server_msg = zeros m;
  data_bytes = zeros m;
}

full-Fits : (c l m : ℕ) → c ≤ 255 → l ≤ 255 → m ≤ 65535 → Fits (author_response (full c l m))
full-Fits c l m hc hl hm = (
  omega (arith, length-replicate c (zeros l)),
  omega (arith, length-replicate {A = ℕ} m),
  omega (arith, length-replicate {A = ℕ} m),
  replicate-ArgsFit c (zeros l) (omega (arith, length-replicate {A = ℕ} l 0)),
)

length-full :
    (c l m : ℕ) → l ≡ 255 → length (body (author_response (full c l m))) ≡ 6 + c + m + m + 255 * c
unfolding body append_uint16
length-full c l m e = omega (
  arith,
  length-append (arg_lengths (full c l m).arg)
      ((full c l m).server_msg ++ ((full c l m).data_bytes ++ arg_bytes (full c l m).arg)),
  length-append (full c l m).server_msg ((full c l m).data_bytes ++ arg_bytes (full c l m).arg),
  length-append (full c l m).data_bytes (arg_bytes (full c l m).arg),
  length-arg_lengths (full c l m).arg,
  length-replicate c (zeros l),
  length-replicate {A = ℕ} m,
  length-arg_bytes_full c (zeros l) (length-replicate {A = ℕ} l 0 ∙ e),
)

-- maxBodyLen bounds what any packet adds to the slice, and some AuthorResponse reaches it.
pub max_body_len_tight :
    ((p : Packet) (b b' : List ℕ) → marshal p b ≡ (b', none) → length b' ≤ length b + max_body_len)
    × ((a : AuthorResponse) × (b' : List ℕ) × (marshal (author_response a) [] ≡ (b', none))
        × (length b' ≡ max_body_len))
max_body_len_tight = (
  λ p b b' e. bound p b b' e,
  (
    full 255 255 65535,
    body (author_response (full 255 255 65535)),
    marshal-Fits (author_response (full 255 255 65535)) []
        (full-Fits 255 255 65535 (omega arith) (omega arith) (omega arith)),
    length-full 255 255 65535 refl,
  ),
)
  where
    bound :
        (p : Packet) (b b' : List ℕ)
        → marshal p b ≡ (b', none)
        → length b' ≤ length b + max_body_len
    bound p b b' e =
        let h : Fits p = Fits-marshal p b (ap (λ r. r.1) e) in
        let e' : b' ≡ b ++ body p = ap (λ r. r.0) (sym e ∙ marshal-Fits p b h) in
        omega (arith, ap (length {0}) e', length-append b (body p), length-body-le p h)
