-- ===== src/Tacplus/Tests.antt =====
-- Runs of pkg/public/tacplus on concrete packets.
mod Server
mod Conn
mod Client
use tacacs_plus_go.Base.{
  All, Bool, Decodes, IsByte, List, [], arith, bit_and, codes, drop, err, false, invalid_seq_no,
  length, ltb, none, ok, refl, session_not_found, some, take, true, uint8, ℕ, ◌%◌, ◌&&◌, ◌++◌, ◌+◌,
  ◌↔◌, ◌∷◌, ◌≡◌, ◌≢◌, ◌⊎◌,
}
use tacacs_plus_go.Tacplus.Wire.{bytes}
use tacacs_plus_go.Tacplus.Crypt.{IsDigest, Raw, crypt}
use tacacs_plus_go.Tacplus.Crypt.Involution.{crypt_twice}
use tacacs_plus_go.Tacplus.Session.{
  ConnConfig, SessionState, outgoing, packet, read_packet, write_packet, written,
}
use tacacs_plus_go.Tacplus.Session.Exchange.{numbered, read_packet-write_packet, read_packet_cases}
use tacacs_plus_go.Tacplus.Codec.RoundTrip.{
  marshal-Fits, marshal_cases, unmarshal-Decodes, unmarshal-marshal,
}
use tacacs_plus_go.Tacplus.Packet.Args.{arg_bytes, arg_lengths}
use tacacs_plus_go.Tacplus.Packet.AcctRequest
use tacacs_plus_go.Tacplus.Packet.AcctRequest.{AcctRequest}
use tacacs_plus_go.Tacplus.Codec
use tacacs_plus_go.Tacplus.Codec.{acct_request}

-- A digest of 16 bytes that depends on the first byte of the text.
abbrev first_byte : List ℕ → ℕ
first_byte [] = 0
first_byte (x ∷ xs) = x % 256

abbrev pub toy_md5 : List ℕ → List ℕ
toy_md5 m = first_byte m ∷ 2 ∷ 3 ∷ 4 ∷ 5 ∷ 6 ∷ 7 ∷ 8 ∷ 9 ∷ 10 ∷ 11 ∷ 12 ∷ 13 ∷ 14 ∷ 15 ∷ 16 ∷ []

first_byte-IsByte : (m : List ℕ) → IsByte (first_byte m)
first_byte-IsByte [] = omega arith
first_byte-IsByte (x ∷ xs) = omega arith

-- The byte test, to be computed.
abbrev pub all_bytes : List ℕ → Bool
all_bytes [] = true
all_bytes (x ∷ xs) = ltb x 256 && all_bytes xs

pub all_bytes→All : (xs : List ℕ) → all_bytes xs ≡ true → All IsByte xs
all_bytes→All [] e = tt
all_bytes→All (x ∷ xs) e = (ground arith, all_bytes→All xs (ground arith))

pub toy_md5-IsDigest : IsDigest toy_md5
toy_md5-IsDigest = record {
  size = λ m. refl;
  bytes = λ m. (first_byte-IsByte m, all_bytes→All (drop 1 (toy_md5 m)) refl);
}

abbrev pub request : AcctRequest
request = record {
  flags = 4;
  authen_method = 6;
  priv_lvl = 1;
  authen_type = 1;
  authen_service = 1;
  user = codes "bob";
  port = codes "tty1";
  rem_addr = codes "10.0.0.1";
  arg = codes "cmd=show" ∷ codes "task_id=7" ∷ [];
}

pub request-Fits : AcctRequest.Fits request
request-Fits =
    (omega arith, omega arith, omega arith, omega arith, (omega arith, (omega arith, tt)))

unmarshal-marshal_example :
    (take 2 (1 ∷ 2 ∷ AcctRequest.body request) ≡ 1 ∷ 2 ∷ [])
    × (Codec.unmarshal
          (Codec.kind (acct_request request))
          (drop 2 (1 ∷ 2 ∷ AcctRequest.body request) ++ (0 ∷ 0 ∷ []))
        ≡ ok (acct_request request))
unfolding Codec.body
unmarshal-marshal_example =
    unmarshal-marshal (acct_request request) (1 ∷ 2 ∷ []) (1 ∷ 2 ∷ AcctRequest.body request)
      (0 ∷ 0 ∷ []) (marshal-Fits (acct_request request) (1 ∷ 2 ∷ []) request-Fits)

marshal_cases_example :
    (((Codec.marshal (acct_request request) (9 ∷ [])).1 ≡ none) ↔ AcctRequest.Fits request)
    × (¬ AcctRequest.Fits request → (Codec.marshal (acct_request request) (9 ∷ [])).0 ≡ 9 ∷ [])
marshal_cases_example = marshal_cases (acct_request request) (9 ∷ [])

unmarshal-Decodes_example :
    Decodes (Codec.unmarshal Codec.acct (4 ∷ 6 ∷ 1 ∷ 1 ∷ 1 ∷ 200 ∷ 0 ∷ 0 ∷ 3 ∷ 1 ∷ []))
unmarshal-Decodes_example =
    unmarshal-Decodes Codec.acct (4 ∷ 6 ∷ 1 ∷ 1 ∷ 1 ∷ 200 ∷ 0 ∷ 0 ∷ 3 ∷ 1 ∷ [])

abbrev pub packet_0 : Raw
packet_0 = record {
  version = 0xc0;
  typ = 3;
  seq_no = 0;
  flags = 0;
  id = 7;
  body_len = 0;
  body = AcctRequest.body request;
}

pub request-IsBytes : All IsByte (AcctRequest.body request)
unfolding arg_lengths arg_bytes
request-IsBytes = all_bytes→All (AcctRequest.body request) refl

crypt_twice_example :
    (q : List ℕ) × (crypt toy_md5 (codes "key") packet_0 ≡ some (record packet_0 { body = q }))
    × (length q ≡ length packet_0.body)
    × All IsByte q
    × (crypt toy_md5 (codes "key") (record packet_0 { body = q }) ≡ some packet_0)
crypt_twice_example = crypt_twice toy_md5 toy_md5-IsDigest (codes "key") packet_0 request-IsBytes

abbrev pub config : ConnConfig
config = record { mux = true; legacy_mux = false; secret = codes "key" }

abbrev pub client_state : SessionState
client_state = record {
  session = record { id = 7; seq = 0; done = false; err = none };
  config = config;
  parity = 1;
  conn_err = none;
  incoming = [];
  outcomes = written ∷ [];
  sent = [];
}

abbrev pub server_state : SessionState
server_state = record client_state {
  parity = 0;
  incoming = packet (outgoing toy_md5 config packet_0) ∷ [];
}

read_packet-write_packet_example :
    (write_packet toy_md5 client_state packet_0 ≡ (
      none,
      record client_state {
        session = record (client_state.session) { seq = 1 };
        outcomes = [];
        sent = outgoing toy_md5 config packet_0 ∷ [];
      },
    ))
    × (read_packet toy_md5 server_state
        ≡ ((some (numbered packet_0), none), record server_state { incoming = [] }))
read_packet-write_packet_example =
    read_packet-write_packet toy_md5 toy_md5-IsDigest client_state server_state packet_0 [] [] refl
      refl refl refl (omega arith) request-IsBytes refl

read_packet_cases_example :
    let p : Raw = record packet_0 { seq_no = 3 } in
    let out = (read_packet toy_md5 (record server_state { incoming = packet p ∷ [] })).0 in
    ((out.1 ≡ none) ↔ ((p.seq_no ≡ uint8 (0 + 1)) × (bit_and p.seq_no 1 ≢ server_state.parity)))
    × (out.1 ≡ some session_not_found
        ↔ ((p.seq_no ≢ uint8 (0 + 1)) × (client_state.session.seq ≡ 0)))
    × (out.1 ≡ some invalid_seq_no ↔ (
        ((p.seq_no ≢ uint8 (0 + 1)) × (client_state.session.seq ≢ 0))
        ⊎ ((p.seq_no ≡ uint8 (0 + 1)) × (bit_and p.seq_no 1 ≡ server_state.parity))))
    × (out.1 ≢ none → out.0 ≡ some p)
read_packet_cases_example =
    let p : Raw = record packet_0 { seq_no = 3 } in
    read_packet_cases toy_md5 toy_md5-IsDigest (record server_state { incoming = packet p ∷ [] }) p
      [] refl
