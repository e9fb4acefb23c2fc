-- ===== src/Tacplus/Session/Exchange.antt =====
-- What one end of a session writes, the other end reads (pkg/public/tacplus/conn.go).
use tacacs_plus_go.Base.{
  All, IsByte, List, [], ap, arith, false, invalid_seq_no, length, none, session_not_found, some,
  sym, uint8, ℕ, ◌%◌, ◌++◌, ◌+◌, ◌^◌, ◌↔◌, ◌∙◌, ◌∷◌, ◌≡◌, ◌≢◌, ◌⊎◌,
}
use tacacs_plus_go.Tacplus.Crypt.{IsDigest, Raw, crypt}
use tacacs_plus_go.Tacplus.Crypt.Involution.{crypt_twice}
use tacacs_plus_go.Tacplus.Session.{
  ConnConfig, Incoming, SessionState, WriteOutcome, check_seq, crypt_packet, finish_write,
  next_incoming, next_outcome, outgoing, packet, read_packet, receive, write_packet, written,
}
use Prim.Native.Nat.{bit_and}

-- The packet that the reader hands on: the header with the next number and the body's length.
abbrev pub numbered : Raw → Raw
numbered p = record p { seq_no = uint8 (p.seq_no + 1); body_len = length p.body % 2 ^ 32 }

module _ (md5 : List ℕ → List ℕ) (digest : IsDigest md5) where
  crypt_packet-eq_some :
      (key : List ℕ) (p q : Raw) → crypt md5 key p ≡ some q → crypt_packet md5 key p ≡ q
  unfolding crypt_packet
  crypt_packet-eq_some key p q e = rw (e, crypt_packet)

  pub outgoing_lem :
      (c : ConnConfig) (p : Raw)
      → All IsByte p.body
      → (q : List ℕ) × (outgoing md5 c p ≡ record (numbered p) { body = q })
        × (crypt_packet md5 c.secret (record (numbered p) { body = q }) ≡ numbered p)
        × (length q ≡ length p.body)
  unfolding outgoing
  outgoing_lem c p h =
      let (q, e, l, hq, back) = crypt_twice md5 digest c.secret (numbered p) h in
      (q, crypt_packet-eq_some _ _ _ e, crypt_packet-eq_some _ _ _ back, l)

  check_seq_next :
      (r : SessionState) (q : Raw)
      → q.seq_no ≡ uint8 (r.session.seq + 1)
      → bit_and q.seq_no 1 ≢ r.parity
      → check_seq r q ≡ none
  unfolding check_seq
  check_seq_next r q seq parity = ground arith

  receive_next :
      (r : SessionState) (q : Raw) (is : List Incoming)
      → r.incoming ≡ packet q ∷ is
      → check_seq r q ≡ none
      → read_packet md5 r
        ≡ ((some (crypt_packet md5 r.config.secret q), none), record r { incoming = is })
  unfolding read_packet receive next_incoming check_seq
  receive_next r q is inc h = ground arith

  -- A packet that one end writes without an error is read by the other end, with the body that was
  -- written: if both hold the same secret, the reader expects the writer's number, the number has
  -- the parity of incoming packets, and the body consists of bytes.
  pub read_packet-write_packet :
      (w r : SessionState) (p : Raw) (os : List WriteOutcome) (is : List Incoming)
      → w.session.done ≡ false
      → w.outcomes ≡ written ∷ os
      → r.config.secret ≡ w.config.secret
      → uint8 (r.session.seq + 1) ≡ uint8 (p.seq_no + 1)
      → bit_and (uint8 (p.seq_no + 1)) 1 ≢ r.parity
      → All IsByte p.body
      → r.incoming ≡ packet (outgoing md5 w.config p) ∷ is
      → (write_packet md5 w p ≡ (
        none,
        record w {
          session = record (w.session) { seq = uint8 (p.seq_no + 1) };
          outcomes = os;
          sent = w.sent ++ (outgoing md5 w.config p ∷ []);
        },
      ))
        × (read_packet md5 r ≡ ((some (numbered p), none), record r { incoming = is }))
  read_packet-write_packet w r p os is open_w ow secret seq parity hb inc =
      let (q, e, back, _) = outgoing_lem w.config p hb in
      let read = receive_next r (outgoing md5 w.config p) is inc in
      (
        unfold write_packet finish_write next_outcome in ground arith,
        read (rw e (check_seq_next r (record (numbered p) { body = q }) (sym seq) parity))
            ∙ ap (λ (t : Raw). ((some t, none), record r { incoming = is })) (rw (secret, e) back),
      )

  -- A packet is accepted exactly if its number follows the last written one, modulo 256, and its
  -- parity is not the connection's. A refused one is handed on with the error: errSessionNotFound
  -- where the number is wrong on a session that has written nothing, and errInvalidSeqNo where it is
  -- wrong on another session, or only the parity is.
  pub read_packet_cases :
      (r : SessionState) (p : Raw) (is : List Incoming)
      → r.incoming ≡ packet p ∷ is
      → let out = (read_packet md5 r).0 in
        ((out.1 ≡ none)
          ↔ ((p.seq_no ≡ uint8 (r.session.seq + 1)) × (bit_and p.seq_no 1 ≢ r.parity)))
        × (out.1 ≡ some session_not_found
            ↔ ((p.seq_no ≢ uint8 (r.session.seq + 1)) × (r.session.seq ≡ 0)))
        × (out.1 ≡ some invalid_seq_no ↔ (
            ((p.seq_no ≢ uint8 (r.session.seq + 1)) × (r.session.seq ≢ 0))
            ⊎ ((p.seq_no ≡ uint8 (r.session.seq + 1)) × (bit_and p.seq_no 1 ≡ r.parity))))
        × (out.1 ≢ none → out.0 ≡ some p)
  unfolding read_packet receive check_seq next_incoming
  read_packet_cases r p is inc = ground arith
