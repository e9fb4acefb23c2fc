-- ===== src/Tacplus/Framing/Chunks.antt =====
-- How the stream is cut does not depend on how it arrives (pkg/public/tacplus/conn.go).
use tacacs_plus_go.Base.{
  All, Bool, List, Result, [], ap, append-nil, append_assoc, arith, drop_append, empty_of_length,
  inl, inr, length, length-append, none, ok, refl, some, subst, sym, take_append, uint8, ℕ, ◌*◌,
  ◌++◌, ◌+◌, ◌/◌, ◌<◌, ◌^◌, ◌∙◌, ◌∷◌, ◌≡◌, ◌≤◌, ◌⊎◌,
}
use tacacs_plus_go.Tacplus.Crypt.{Raw, put_uint32}
use tacacs_plus_go.Tacplus.Framing.{
  Network, after_first, at, check_major, cut, hdr_len, read_body, read_raw, read_to, uint32,
}
use tacacs_plus_go.Tacplus.Codec.Bounds.{max_body_len}

-- The bytes that the network still delivers.
unfoldable pub stream : Network → List ℕ
stream [] = []
stream ((chunk, e) ∷ net) = chunk ++ stream net

abbrev pub NoErrors : Network → Type 0
NoErrors = All (λ arrival. arrival.1 ≡ none)

-- A packet as the bytes that writePacket hands to the network.
abbrev pub bytes_of : Raw → List ℕ
bytes_of p =
    p.version ∷ p.typ ∷ p.seq_no ∷ p.flags ∷ (put_uint32 p.id ++ (put_uint32 p.body_len ++ p.body))

split_append :
    (a b c d : List ℕ)
    → a ++ b ≡ c ++ d
    → length a ≤ length c
    → (m : List ℕ) × (c ≡ a ++ m) × (b ≡ m ++ d)
split_append [] b c d e h = (c, refl, e)
split_append (x ∷ a) b [] d e h = absurd (omega arith)
split_append (x ∷ a) b (y ∷ c) d e h =
    let (m, p, q) = split_append a b c d (cc e) (omega arith) in (m, cc (p, e), q)

-- What a read of `need` more bytes leaves.
abbrev pub Fills : List ℕ → List ℕ → Result (List ℕ) × Network → Type 0
Fills out rest r = (net : Network) × (r ≡ (ok out, net)) × (stream net ≡ rest) × NoErrors net

read_to_more :
    (timeout : Bool) (want : ℕ) (net : Network) (chunk got : List ℕ)
    → length (got ++ chunk) < want
    → read_to timeout none want got ((chunk, none) ∷ net)
      ≡ read_to timeout none want (got ++ chunk) net
unfolding read_to after_first
read_to_more timeout want net chunk got h = ground (arith, length-append got chunk)

read_to_exact :
    (timeout : Bool) (want : ℕ) (net : Network) (chunk got : List ℕ)
    → length got + length chunk ≡ want
    → read_to timeout none want got ((chunk, none) ∷ net) ≡ (ok (got ++ chunk), net)
unfolding read_to after_first
read_to_exact timeout want net chunk got h = ground (arith, length-append got chunk)

read_to_over :
    (timeout : Bool) (want : ℕ) (net : Network) (need left got : List ℕ)
    → length got + length need ≡ want
    → 0 < length left
    → read_to timeout none want got ((need ++ left, none) ∷ net)
      ≡ (ok (got ++ need), (left, none) ∷ net)
unfolding read_to after_first
read_to_over timeout want net need left got h pos =
    ground (arith, length-append need left, take_append need left, drop_append need left)

order_cases : (a b : ℕ) → (a < b) ⊎ ((a ≡ b) ⊎ (b < a))
order_cases a b = ground arith

read_to-Fills :
    (timeout : Bool) (want : ℕ) (net : Network) (got need rest : List ℕ)
    → NoErrors net
    → stream net ≡ need ++ rest
    → 0 < length need
    → length got + length need ≡ want
    → Fills (got ++ need) rest (read_to timeout none want got net)
unfolding stream
read_to-Fills timeout want [] got [] rest ne e pos h = absurd (omega arith)
read_to-Fills timeout want [] got (x ∷ need) rest ne e pos h = absurd (cc e)
read_to-Fills timeout want ((chunk, none) ∷ net) got need rest ne e pos h =
    elim (order_cases (length chunk) (length need)) [
      | inl less ↦
          let (m, p, q) = split_append chunk (stream net) need rest e (omega arith) in
          let l : length need ≡ length chunk + length m = ap length p ∙ length-append chunk m in
          subst (Fills (got ++ need) rest)
            (sym (read_to_more timeout want net chunk got (omega (arith, length-append got chunk))))
            (subst (λ t. Fills t rest (read_to timeout none want (got ++ chunk) net))
              (append_assoc got chunk m ∙ ap (λ t. got ++ t) (sym p))
              (read_to-Fills timeout want net (got ++ chunk) m rest ne.1 q (omega arith)
                (omega (arith, length-append got chunk))))
      | inr (inl same) ↦
          let (m, p, q) = split_append chunk (stream net) need rest e (omega arith) in
          let whole : need ≡ chunk =
            p
            ∙ ap (λ t. chunk ++ t)
                (empty_of_length m (omega (arith, ap length p, length-append chunk m)))
            ∙ append-nil chunk in
          (
            net,
            read_to_exact timeout want net chunk got (omega arith)
                ∙ ap (λ t. (ok (got ++ t), net)) (sym whole),
            q
                ∙ ap (λ t. t ++ rest)
                    (empty_of_length m (omega (arith, ap length p, length-append chunk m))),
            ne.1,
          )
      | inr (inr more) ↦
          let (m, p, q) = split_append need rest chunk (stream net) (sym e) (omega arith) in
          let l : length chunk ≡ length need + length m = ap length p ∙ length-append need m in
          (
            ((m, none) ∷ net),
            ap (λ t. read_to timeout none want got ((t, none) ∷ net)) p
                ∙ read_to_over timeout want net need m got h (omega arith),
            sym q,
            (refl, ne.1),
          )
    ]
read_to-Fills timeout want ((chunk, some f) ∷ net) got need rest ne e pos h = absurd (cc (ne.0))

uint32_bytes :
    (n : ℕ)
    → n < 2 ^ 32
    → uint8 (n / 2 ^ 24) * 2 ^ 24
        + uint8 (n / 2 ^ 16) * 2 ^ 16
        + uint8 (n / 2 ^ 8) * 2 ^ 8
        + uint8 n
      ≡ n
uint32_bytes n h = omega arith

abbrev header_of : Raw → List ℕ
header_of p = p.version ∷ p.typ ∷ p.seq_no ∷ p.flags ∷ (put_uint32 p.id ++ put_uint32 p.body_len)

uint32-header_of : (p : Raw) → p.body_len < 2 ^ 32 → uint32 8 (header_of p) ≡ p.body_len
unfolding uint32 put_uint32 at
uint32-header_of p h = uint32_bytes p.body_len h

length-header_of : (p : Raw) → length (header_of p) ≡ 12
unfolding put_uint32
length-header_of p = refl

read_body_empty :
    (timeout : Bool) (p : Raw) (net : Network)
    → p.body_len ≡ 0
    → read_body timeout none (header_of p) net ≡ (ok (header_of p), net)
unfolding read_body
read_body_empty timeout p net l = ground (arith, uint32-header_of p (omega arith))

read_body_some :
    (timeout : Bool) (p : Raw) (net : Network)
    → 0 < p.body_len
    → p.body_len ≤ max_body_len
    → read_body timeout none (header_of p) net
      ≡ read_to timeout none (length (header_of p) + p.body_len) (header_of p) net
unfolding read_body
read_body_some timeout p net pos bound = ground (arith, uint32-header_of p (omega arith))

read_body-header_of :
    (timeout : Bool) (p : Raw) (net : Network) (rest : List ℕ)
    → p.body_len ≡ length p.body
    → length p.body ≤ max_body_len
    → NoErrors net
    → stream net ≡ p.body ++ rest
    → Fills (header_of p ++ p.body) rest (read_body timeout none (header_of p) net)
read_body-header_of timeout p net rest l bound ne e = elim (order_cases 0 p.body_len) [
  | inl pos ↦
      subst (Fills (header_of p ++ p.body) rest)
        (sym (read_body_some timeout p net pos (omega arith)))
        (read_to-Fills timeout (length (header_of p) + p.body_len) net (header_of p) p.body rest ne
          e (omega arith) (omega arith))
  | inr (inl zero_len) ↦
      let no_body = empty_of_length p.body (omega arith) in
      (
        net,
        read_body_empty timeout p net (sym zero_len)
            ∙ ap (λ t. (ok t, net))
                (sym (ap (λ t. header_of p ++ t) no_body ∙ append-nil (header_of p))),
        e ∙ ap (λ t. t ++ rest) no_body,
        ne,
      )
  | inr (inr under) ↦ absurd (omega arith)
]

read_raw_header :
    (timeout : Bool) (p : Raw) (net net' : Network)
    → p.version / 16 ≡ 0xc
    → read_to timeout none hdr_len [] net ≡ (ok (header_of p), net')
    → read_raw timeout none net ≡ read_body timeout none (header_of p) net'
unfolding read_raw check_major at
read_raw_header timeout p net net' version e = ground (arith, e)

cut-bytes_of : (p : Raw) → p.id < 2 ^ 32 → p.body_len < 2 ^ 32 → cut (bytes_of p) ≡ p
unfolding cut at uint32 put_uint32
cut-bytes_of p hi hl = ground (arith, uint32_bytes p.id hi, uint32_bytes p.body_len hl)

-- A packet of the protocol's major version, with its body's length in the header and no more than
-- maxBodyLen bytes of body, is read whole from a network that delivers it without an error, however
-- its bytes are spread over the arrivals; what follows it is left to be read, and its fields and body
-- are those of the packet.
pub read_raw-bytes_of :
    (timeout : Bool) (p : Raw) (net : Network) (rest : List ℕ)
    → p.version / 16 ≡ 0xc
    → p.id < 2 ^ 32
    → p.body_len ≡ length p.body
    → length p.body ≤ max_body_len
    → NoErrors net
    → stream net ≡ bytes_of p ++ rest
    → (net' : Network) × (read_raw timeout none net ≡ (ok (bytes_of p), net'))
      × (stream net' ≡ rest)
      × NoErrors net'
      × (cut (bytes_of p) ≡ p)
read_raw-bytes_of timeout p net rest version hi l bound ne e =
    let whole : bytes_of p ≡ header_of p ++ p.body = unfold put_uint32 in refl in
    let (net1, r1, s1, n1) =
      read_to-Fills timeout hdr_len net [] (header_of p) (p.body ++ rest) ne
        (e ∙ ap (λ t. t ++ rest) whole ∙ append_assoc (header_of p) p.body rest)
        (omega (arith, length-header_of p)) (omega (arith, length-header_of p)) in
    let (net2, r2, s2, n2) = read_body-header_of timeout p net1 rest l bound n1 s1 in
    (
      net2,
      read_raw_header timeout p net net1 version r1 ∙ r2 ∙ ap (λ t. (ok t, net2)) (sym whole),
      s2,
      n2,
      cut-bytes_of p hi (omega arith),
    )
