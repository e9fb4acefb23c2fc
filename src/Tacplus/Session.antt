-- ===== src/Tacplus/Session.antt =====
-- pkg/public/tacplus/conn.go: a session's state, readPacket and writePacket.
--
-- What the goroutines of the connection do to a session arrives as two scripts: the next result of
-- the receive in readPacket, and the outcome of the next write request.
pub mod Exchange
use tacacs_plus_go.Tacplus.Crypt.{Raw, crypt}
use tacacs_plus_go.Base.{
  Bool, Error, List, Option, [], drop, if◌then◌else◌, invalid_seq_no, length, none, not,
  session_closed, session_not_found, some, true, uint8, ℕ, ◌%◌, ◌++◌, ◌+◌, ◌==◌, ◌^◌, ◌∷◌,
}
use Prim.Native.Nat.{bit_and}

pub record ConnConfig : Type 0 where
  pub mux : Bool
  pub legacy_mux : Bool
  pub secret : List ℕ

pub record Session : Type 0 where
  pub id : ℕ
  pub seq : ℕ
  pub done : Bool
  pub err : Option Error

-- What the select of readPacket yields: a packet, nil from the closed channel, or ctx.Err().
pub data Incoming : Type 0 where
  packet : Raw → Incoming
  closed_in : Incoming
  cancelled_in : Error → Incoming

-- What a write request meets: it is written, the network fails, the context ends before the writer
-- takes it or after, or the session is closed first.
pub data WriteOutcome : Type 0 where
  written : WriteOutcome
  failed : Error → WriteOutcome
  cancelled : Error → WriteOutcome
  abandoned : Error → WriteOutcome
  session_done : WriteOutcome

pub record SessionState : Type 0 where
  pub session : Session
  pub config : ConnConfig
  pub parity : ℕ
  pub conn_err : Option Error
  pub incoming : List Incoming
  pub outcomes : List WriteOutcome
  pub sent : List Raw

-- The session's error is handed out once; then errSessionClosed, unless the connection has an error,
-- which is handed out once too.
unfoldable pub read_err : SessionState → Error × SessionState
read_err s =
    let s' = record s { session = record (s.session) { err = some session_closed } } in
    elim s.session.err [
      | some e ↦ (e, s')
      | none ↦ elim s.conn_err [
        | some e ↦ (e, record s' { conn_err = none })
        | none ↦ (session_closed, s')
      ]
    ]

-- The checks behind the receive: the number must follow the last written one, modulo 256, and its
-- parity must not be the connection's.
unfoldable pub check_seq : SessionState → Raw → Option Error
check_seq s p =
    if not (p.seq_no == uint8 (s.session.seq + 1))
    then (if s.session.seq == 0 then some session_not_found else some invalid_seq_no)
    else if bit_and (p.seq_no) 1 == s.parity
    then some invalid_seq_no
    else none

-- A script that has ended stands for a channel that was closed.
unfoldable pub next_incoming : List Incoming → Incoming
next_incoming [] = closed_in
next_incoming (i ∷ is) = i

unfoldable pub next_outcome : List WriteOutcome → WriteOutcome
next_outcome [] = written
next_outcome (o ∷ os) = o

module _ (md5 : List ℕ → List ℕ) where
  -- `crypt` in place. Its fuel never runs out, so that the packet is never left as it was.
  unfoldable pub crypt_packet : List ℕ → Raw → Raw
  crypt_packet key p = elim (crypt md5 key p) [ some q ↦ q | none ↦ p ]

  unfoldable pub receive : SessionState → Incoming → (Option Raw × Option Error) × SessionState
  receive s (packet p) = elim (check_seq s p) [
    | some e ↦ ((some p, some e), s)
    | none ↦ ((some (crypt_packet s.config.secret p), none), s)
  ]
  receive s closed_in = let (e, s') = read_err s in ((none, some e), s')
  receive s (cancelled_in e) = ((none, some e), s)

  unfoldable pub read_packet : SessionState → (Option Raw × Option Error) × SessionState
  read_packet s = receive (record s { incoming = drop 1 s.incoming }) (next_incoming s.incoming)

  unfoldable pub finish_write : SessionState → Raw → WriteOutcome → Option Error × SessionState
  finish_write s p written = (none, record s { sent = s.sent ++ (p ∷ []) })
  finish_write s p (failed e) = (some e, s)
  finish_write s p (cancelled e) = (some e, s)
  finish_write s p (abandoned e) = (some e, record s { sent = s.sent ++ (p ∷ []) })
  finish_write s p session_done =
      let (e, s') = read_err (record s { session = record (s.session) { done = true } }) in
      (some e, s')

  -- The packet with its number incremented and its length set, and its body masked.
  unfoldable pub outgoing : ConnConfig → Raw → Raw
  outgoing c p =
      crypt_packet c.secret
        (record p { seq_no = uint8 (p.seq_no + 1); body_len = length p.body % 2 ^ 32 })

  unfoldable pub write_packet : SessionState → Raw → Option Error × SessionState
  write_packet s p =
      if s.session.done
      then (let (e, s') = read_err s in (some e, s'))
      else finish_write
          (record s {
            session = record (s.session) { seq = uint8 (p.seq_no + 1) };
            outcomes = drop 1 s.outcomes;
          })
          (outgoing s.config p) (next_outcome s.outcomes)
