-- ===== src/Tacplus/Framing.antt =====
-- pkg/public/tacplus/conn.go: readPacketHeader, readPacketBody and readPacket, which cut the network's
-- stream of bytes into packets.
--
-- The network is the list of what it still delivers: the bytes of one arrival, and the error that its
-- last read returns with them. Its end is io.EOF. `set_deadline` is what SetReadDeadline returns, and
-- `timeout` is ReadTimeout > 0.
pub mod Chunks
use tacacs_plus_go.Base.{
  Bool, Error, List, Option, Result, [], drop, eof, err, false, if◌then◌else◌, length, ltb, none,
  not, ok, packet_too_large, panic, some, suc, take, true, unexpected_eof, unsupported_major, zero,
  ℕ, ◌&&◌, ◌*◌, ◌++◌, ◌+◌, ◌-◌, ◌/◌, ◌==◌, ◌^◌, ◌||◌, ◌∷◌,
}
use tacacs_plus_go.Tacplus.Crypt.{Raw}
use tacacs_plus_go.Tacplus.Codec.Bounds.{max_body_len}

abbrev pub Network : Type 0
Network = List (List ℕ × Option Error)

abbrev pub hdr_len : ℕ
hdr_len = 12

abbrev pub is_none : Option Error → Bool
is_none none = true
is_none (some e) = false

-- The deadline is set on the first bytes; its error replaces that of the read.
unfoldable pub after_first : Bool → Option Error → ℕ → ℕ → Option Error → Option Error
after_first timeout set_deadline n nn e =
    if n == 0 && ltb 0 nn && timeout && (is_none e || nn == hdr_len) then set_deadline else e

unfoldable pub short_read : ℕ → Error → Error
short_read n eof = if ltb 0 n then unexpected_eof else eof
short_read n e = e

-- The loops of readPacketHeader and readPacketBody: reads until `want` bytes are there, of which `got`
-- are. The body's loop starts behind the header, so that it never is at n == 0. A read gets no more
-- than it asks for, and what is left of an arrival stays in the network.
unfoldable pub read_to : Bool → Option Error → ℕ → List ℕ → Network → Result (List ℕ) × Network
read_to timeout set_deadline want got [] = (err (short_read (length got) eof), [])
read_to timeout set_deadline want got ((chunk, e) ∷ net) =
    let room = want - length got in
    let more = read_to timeout set_deadline want (got ++ chunk) net in
    if ltb room (length chunk)
    then (ok (got ++ take room chunk), (drop room chunk, e) ∷ net)
    else if length (got ++ chunk) == want
    then (ok (got ++ chunk), net)
    else elim (after_first timeout set_deadline (length got) (length chunk) e) [
      | none ↦ more
      | some x ↦ (err (short_read (length (got ++ chunk)) x), net)
    ]

unfoldable pub at : ℕ → List ℕ → ℕ
at i [] = 0
at zero (x ∷ xs) = x
at (suc i) (x ∷ xs) = at i xs

-- binary.BigEndian.Uint32 of the four bytes from an offset on.
unfoldable pub uint32 : ℕ → List ℕ → ℕ
uint32 i h = at i h * 2 ^ 24 + at (i + 1) h * 2 ^ 16 + at (i + 2) h * 2 ^ 8 + at (i + 3) h

unfoldable pub read_body : Bool → Option Error → List ℕ → Network → Result (List ℕ) × Network
read_body timeout set_deadline h net =
    let s = uint32 8 h in
    if ltb max_body_len s
    then (err packet_too_large, net)
    else if s == 0
    then (ok h, net)
    else read_to timeout set_deadline (length h + s) h net

unfoldable pub check_major :
    Bool → Option Error → Result (List ℕ) × Network → Result (List ℕ) × Network
check_major timeout set_deadline (ok h, net) =
    if not (at 0 h / 16 == 0xc)
    then (err (unsupported_major (at 0 h / 16)), net)
    else read_body timeout set_deadline h net
check_major timeout set_deadline (err e, net) = (err e, net)
check_major timeout set_deadline (panic, net) = (panic, net)

-- The deadline is cleared, and then the header and the body are read.
unfoldable pub read_raw : Bool → Option Error → Network → Result (List ℕ) × Network
read_raw timeout set_deadline net = elim (if timeout then set_deadline else none) [
  | some e ↦ (err e, net)
  | none ↦ check_major timeout set_deadline (read_to timeout set_deadline hdr_len [] net)
]

-- The header's fields and the body, at the offsets that conn.go names.
unfoldable pub cut : List ℕ → Raw
cut p = record {
  version = at 0 p;
  typ = at 1 p;
  seq_no = at 2 p;
  flags = at 3 p;
  id = uint32 4 p;
  body_len = uint32 8 p;
  body = drop hdr_len p;
}
