-- ===== src/Tacplus/Server.antt =====
-- pkg/public/tacplus/server.go: server sessions and the dispatch of requests to a RequestHandler.
use tacacs_plus_go.Base.{
  Bool, Error, List, Option, Result, [], err, false, if◌then◌else◌, none, not, ok, panic,
  session_closed, some, take, true, ℕ, ◌==◌, ◌||◌,
}
use tacacs_plus_go.Tacplus.Crypt.{Raw}
use tacacs_plus_go.Tacplus.Session.{ConnConfig, Session, SessionState, read_packet, write_packet}
use tacacs_plus_go.Tacplus.Message.{message}
use Prim.Native.Nat.{bit_and}
use tacacs_plus_go.Tacplus.Packet.AuthenReply
use tacacs_plus_go.Tacplus.Packet.AuthenContinue
use tacacs_plus_go.Tacplus.Packet.AuthorResponse
use tacacs_plus_go.Tacplus.Packet.AcctReply
use tacacs_plus_go.Tacplus.Packet.AuthenStart.{AuthenStart}
use tacacs_plus_go.Tacplus.Packet.AuthenReply.{AuthenReply}
use tacacs_plus_go.Tacplus.Packet.AuthenContinue.{AuthenContinue}
use tacacs_plus_go.Tacplus.Packet.AuthorRequest.{AuthorRequest}
use tacacs_plus_go.Tacplus.Packet.AuthorResponse.{AuthorResponse}
use tacacs_plus_go.Tacplus.Packet.AcctRequest.{AcctRequest}
use tacacs_plus_go.Tacplus.Packet.AcctReply.{AcctReply}

-- `p` is the last packet read, whose header the next reply reuses; nil is `none`.
pub record ServerSession : Type 0 where
  pub state : SessionState
  pub p : Option Raw

-- A run on a session and the handler's own state ends with a value or in a run-time panic. `stuck`
-- is no outcome of the program: a loop of the model had too little fuel.
pub data Run (W A : Type 0) : Type 0 where
  ret : A → ServerSession → W → Run W A
  panicked : ServerSession → W → Run W A
  stuck : Run W A

abbrev pub M : Type 0 → Type 0 → Type 0
M W A = ServerSession → W → Run W A

infixl 5 ◌>>=◌
abbrev pub ◌>>=◌ : {W A B : Type 0} → M W A → (A → M W B) → M W B
◌>>=◌ m f s w = elim (m s w) [
  | ret a s' w' ↦ f a s' w'
  | panicked s' w' ↦ panicked s' w'
  | stuck ↦ stuck
]

abbrev pub pure : {W A : Type 0} → A → M W A
pure a s w = ret a s w

abbrev pub ver_default : ℕ
ver_default = 0xc0

abbrev pub hdr_flag_single_connect : ℕ
hdr_flag_single_connect = 0x04

abbrev pub sess_type_authen : ℕ
sess_type_authen = 1

abbrev pub sess_type_author : ℕ
sess_type_author = 2

abbrev pub sess_type_acct : ℕ
sess_type_acct = 3

-- session.close: the connection closes the session, if it has not been closed before.
unfoldable pub close_session : Session → Session
close_session s = if s.done then s else record s { done = true; err = some session_closed }

unfoldable pub close : ServerSession → ServerSession
close s = record s {
  state = record (s.state) { session = close_session s.state.session };
  p = none;
}

-- The header of the last packet, over an empty body: s.p[:hdrLen].
abbrev pub header : Raw → Raw
header p = record p { body = [] }

-- The single-connection flag is settled in the first reply of a session.
unfoldable pub reply_flags : ConnConfig → Raw → Raw
reply_flags c p =
    if p.seq_no == 1
    then (if c.mux || c.legacy_mux
        then record p { flags = bit_and p.flags hdr_flag_single_connect }
        else record p { flags = 0 })
    else p

unfoldable pub is_single_connect : ServerSession → Bool
is_single_connect s = elim s.p [
  | none ↦ false
  | some p ↦ not (bit_and p.flags hdr_flag_single_connect == 0)
]

-- The body of the error reply for the type of the request; other types get the bare header.
unfoldable pub error_body : ℕ → List ℕ → List ℕ
error_body typ msg =
    if typ == sess_type_authen
    then (AuthenReply.marshal
        (record { status = 0x7; no_echo = false; server_msg = msg; data_bytes = [] }) []).0
    else if typ == sess_type_author
    then (AuthorResponse.marshal
        (record { status = 0x11; arg = []; server_msg = msg; data_bytes = [] }) []).0
    else if typ == sess_type_acct
    then (AcctReply.marshal (record { status = 0x2; server_msg = msg; data_bytes = [] }) []).0
    else []

-- The handler of the three kinds of request. A `none` closes the session with no reply.
pub record RequestHandler (W : Type 0) : Type 0 where
  pub authen_start : AuthenStart → M W (Option AuthenReply)
  pub author_request : AuthorRequest → M W (Option AuthorResponse)
  pub acct_request : AcctRequest → M W (Option AcctReply)

module _ (md5 : List ℕ → List ℕ) where
  unfoldable pub write_server : ServerSession → Raw → Option Error × ServerSession
  write_server s p =
      let (e, state) = write_packet md5 s.state (reply_flags s.state.config p) in
      (e, record s { state = state })

  unfoldable pub send_error : ServerSession → Error → ServerSession
  send_error s e = elim s.p [
    | none ↦ s
    | some p ↦
        let msg = take 65535 (message e) in
        close (write_server s (record p { body = error_body p.typ msg })).1
  ]

  unfoldable pub read_continue :
      {W : Type 0} → (Option Raw × Option Error) × SessionState → M W (Result AuthenContinue)
  read_continue ((p, some e), state) s w =
      ret (err e) (send_error (record s { state = state; p = p }) e) w
  read_continue ((none, none), state) s w = panicked (record s { state = state; p = none }) w
  read_continue ((some p, none), state) s w =
      let s' : ServerSession = record s { state = state; p = some p } in
      elim (AuthenContinue.unmarshal p.body) [
        | ok c ↦ ret (ok c) s' w
        | err e ↦ ret (err e) (send_error s' e) w
        | panic ↦ panicked s' w
      ]

  unfoldable pub written_reply :
      {W : Type 0} → Option Error × ServerSession → M W (Result AuthenContinue)
  written_reply (some e, s') s w = ret (err e) (close s') w
  written_reply (none, s') s w = read_continue (read_packet md5 s'.state) s' w

  unfoldable pub send_reply : {W : Type 0} → AuthenReply → M W (Result AuthenContinue)
  send_reply r s w = elim s.p [
    | none ↦ ret (err session_closed) s w
    | some p ↦ elim (AuthenReply.marshal r []).1 [
      | some e ↦ ret (err e) s w
      | none ↦ written_reply (write_server s (record p { body = (AuthenReply.marshal r []).0 })) s w
    ]
  ]

  unfoldable pub get_data : {W : Type 0} → List ℕ → Bool → M W (Result AuthenContinue)
  get_data message no_echo =
      send_reply (record { status = 0x3; no_echo = no_echo; server_msg = message; data_bytes = [] })

  unfoldable pub get_user : {W : Type 0} → List ℕ → M W (Result AuthenContinue)
  get_user message =
      send_reply (record { status = 0x4; no_echo = false; server_msg = message; data_bytes = [] })

  unfoldable pub get_pass : {W : Type 0} → List ℕ → M W (Result AuthenContinue)
  get_pass message =
      send_reply (record { status = 0x5; no_echo = true; server_msg = message; data_bytes = [] })
