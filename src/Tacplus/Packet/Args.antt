-- ===== src/Tacplus/Packet/Args.antt =====
-- pkg/public/tacplus/packet.go: the Arg lists of the author and acct packets.
use tacacs_plus_go.Base.{
  All, Bool, List, Decodes, Result, [], ap, append_assoc, arith, bad_packet, bind-Decodes, err,
  false, if◌then◌else◌, length, length-append, ltb, ok, refl, suc, uint8, ℕ, ◌*◌, ◌++◌, ◌>>=◌, ◌||◌,
  ◌∷◌, ◌≡◌, ◌≤◌,
}
use tacacs_plus_go.Tacplus.Wire.{bytes, bytes-Decodes, bytes_uint8, check-Decodes, max_uint8}

-- for _, s := range a.Arg { if len(s) > maxUint8 { return b, errors.New("Arg Too Long") } }
unfoldable pub arg_over : List (List ℕ) → Bool
arg_over [] = false
arg_over (s ∷ args) = ltb max_uint8 (length s) || arg_over args

-- for _, s := range a.Arg { b = append(b, uint8(len(s))) }
unfoldable pub arg_lengths : List (List ℕ) → List ℕ
arg_lengths [] = []
arg_lengths (s ∷ args) = uint8 (length s) ∷ arg_lengths args

-- for _, s := range a.Arg { b = append(b, s...) }
unfoldable pub arg_bytes : List (List ℕ) → List ℕ
arg_bytes [] = []
arg_bytes (s ∷ args) = s ++ arg_bytes args

-- for i, n := range al { if len(b) < int(n) { return errBadPacket }; a.Arg[i] = b.string(int(n)) }
unfoldable pub read_args : List ℕ → List ℕ → Result (List (List ℕ) × List ℕ)
read_args [] b = ok ([], b)
read_args (n ∷ al) b =
    if ltb (length b) n
    then err bad_packet
    else do (s, b') ← bytes n b; (args, b'') ← read_args al b'; ok (s ∷ args, b'')

abbrev pub ArgsFit : List (List ℕ) → Type 0
ArgsFit args = All (λ s. length s ≤ max_uint8) args

pub ArgsFit-arg_over : (args : List (List ℕ)) → ArgsFit args → arg_over args ≡ false
unfolding arg_over
ArgsFit-arg_over [] h = refl
ArgsFit-arg_over (s ∷ args) h = ground (arith, ArgsFit-arg_over args h.1)

pub arg_over-ArgsFit : (args : List (List ℕ)) → arg_over args ≡ false → ArgsFit args
unfolding arg_over
arg_over-ArgsFit [] h = tt
arg_over-ArgsFit (s ∷ args) h =
    let e : arg_over args ≡ false = ground arith in (ground arith, arg_over-ArgsFit args e)

pub length-arg_lengths : (args : List (List ℕ)) → length (arg_lengths args) ≡ length args
unfolding arg_lengths
length-arg_lengths [] = refl
length-arg_lengths (s ∷ args) = ap suc (length-arg_lengths args)

pub length-arg_bytes-le :
    (args : List (List ℕ)) → ArgsFit args → length (arg_bytes args) ≤ 255 * length args
unfolding arg_bytes
length-arg_bytes-le [] h = omega arith
length-arg_bytes-le (s ∷ args) h =
    omega (arith, length-append s (arg_bytes args), length-arg_bytes-le args h.1)

-- The lengths and the contents that `marshal` writes are read back, whatever follows them.
pub read_args-arg_bytes :
    (args : List (List ℕ)) (rest : List ℕ)
    → ArgsFit args
    → read_args (arg_lengths args) (arg_bytes args ++ rest) ≡ ok (args, rest)
unfolding read_args arg_lengths arg_bytes
read_args-arg_bytes [] rest h = refl
read_args-arg_bytes (s ∷ args) rest h = simp append_assoc (
    ground (
      arith,
      bytes_uint8 s (arg_bytes args ++ rest),
      length-append s (arg_bytes args ++ rest),
      read_args-arg_bytes args rest h.1,
    ))

pub read_args-Decodes : (al b : List ℕ) → Decodes (read_args al b)
unfolding read_args
read_args-Decodes [] b = tt
read_args-Decodes (n ∷ al) b = check-Decodes (length b) n _ λ h.
    bytes-Decodes n b _ h
      λ s b' _. bind-Decodes (read_args al b') _ (read_args-Decodes al b') λ _. tt
