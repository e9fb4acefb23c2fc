-- ===== src/Tacplus/Dispatch.antt =====
-- pkg/public/tacplus/server.go: handleAuthenStart, handleAuthorRequest, handleAcctRequest and
-- serveSession.
pub mod Replies
use tacacs_plus_go.Tacplus.Server.{
  M, RequestHandler, Run, close, panicked, pure, ret, send_error, sess_type_acct, sess_type_authen,
  sess_type_author, stuck, ver_default, write_server, ◌>>=◌,
}
use tacacs_plus_go.Tacplus.Session.{SessionState, read_packet}
use tacacs_plus_go.Tacplus.Crypt.{Raw}
use tacacs_plus_go.Base.{
  Error, List, Option, [], bad_acct_reply, bad_authen_reply, bad_author_response, err,
  if◌then◌else◌, invalid_session_type, none, not, ok, panic, some, unsupported_acct_minor,
  unsupported_authen_minor, unsupported_author_minor, ℕ, ◌%◌, ◌==◌,
}
use mathlib.Core.Option
use tacacs_plus_go.Tacplus.Packet.AuthenStart
use tacacs_plus_go.Tacplus.Packet.AuthenReply
use tacacs_plus_go.Tacplus.Packet.AuthorRequest
use tacacs_plus_go.Tacplus.Packet.AuthorResponse
use tacacs_plus_go.Tacplus.Packet.AcctRequest
use tacacs_plus_go.Tacplus.Packet.AcctReply
use tacacs_plus_go.Tacplus.Packet.AuthenStart.{AuthenStart}
use tacacs_plus_go.Tacplus.Packet.AuthenReply.{AuthenReply}
use tacacs_plus_go.Tacplus.Packet.AuthorRequest.{AuthorRequest}
use tacacs_plus_go.Tacplus.Packet.AuthorResponse.{AuthorResponse}
use tacacs_plus_go.Tacplus.Packet.AcctRequest.{AcctRequest}
use tacacs_plus_go.Tacplus.Packet.AcctReply.{AcctReply}

-- The (packet, error) pair of the three handle functions. Each also sets s.p, and serveSession
-- stores the packet there once more.
abbrev pub Handled : Type 0
Handled = Option Raw × Option Error

-- reply.marshal(s.p[:hdrLen]): cutting a nil slice at hdrLen is a run-time panic.
unfoldable pub marshal_reply : {W : Type 0} → List ℕ × Option Error → (Error → Error) → M W Handled
marshal_reply (b, e) wrap s w = elim s.p [
  | none ↦ panicked s w
  | some p ↦
      let q : Raw = record p { body = b } in
      ret (some q, Option.map wrap e) (record s { p = some q }) w
]

-- A request of the wrong version is answered under the right one.
unfoldable pub refuse_version : {W : Type 0} → Raw → ℕ → Error → M W Handled
refuse_version p v e s w =
    let q : Raw = record p { version = v } in ret (some q, some e) (record s { p = some q }) w

module _ {W : Type 0} (h : RequestHandler W) where
  reply_authen : Option AuthenReply → M W Handled
  reply_authen none = pure (none, none)
  reply_authen (some r) = marshal_reply (AuthenReply.marshal r []) bad_authen_reply

  unfoldable pub handle_authen_start : Raw → M W Handled
  unfolding reply_authen
  handle_authen_start p = elim (AuthenStart.unmarshal p.body) [
    | err e ↦ pure (some p, some e)
    | panic ↦ panicked
    | ok a ↦
        if not (p.version == AuthenStart.version a)
        then refuse_version p (AuthenStart.version a) (unsupported_authen_minor (p.version % 16))
        else (h.authen_start a >>= reply_authen)
  ]

  reply_author : Option AuthorResponse → M W Handled
  reply_author none = pure (none, none)
  reply_author (some r) = marshal_reply (AuthorResponse.marshal r []) bad_author_response

  unfoldable pub handle_author_request : Raw → M W Handled
  unfolding reply_author
  handle_author_request p = elim (AuthorRequest.unmarshal p.body) [
    | err e ↦ pure (some p, some e)
    | panic ↦ panicked
    | ok a ↦
        if not (p.version == ver_default)
        then refuse_version p ver_default (unsupported_author_minor (p.version % 16))
        else (h.author_request a >>= reply_author)
  ]

  reply_acct : Option AcctReply → M W Handled
  reply_acct none = pure (none, none)
  reply_acct (some r) = marshal_reply (AcctReply.marshal r []) bad_acct_reply

  unfoldable pub handle_acct_request : Raw → M W Handled
  unfolding reply_acct
  handle_acct_request p = elim (AcctRequest.unmarshal p.body) [
    | err e ↦ pure (some p, some e)
    | panic ↦ panicked
    | ok a ↦
        if not (p.version == ver_default)
        then refuse_version p ver_default (unsupported_acct_minor (p.version % 16))
        else (h.acct_request a >>= reply_acct)
  ]

  -- The switch on the type of the first packet.
  unfoldable pub dispatch : Raw → M W Handled
  dispatch p =
      if p.typ == sess_type_authen
      then handle_authen_start p
      else if p.typ == sess_type_author
      then handle_author_request p
      else if p.typ == sess_type_acct
      then handle_acct_request p
      else pure (some p, some (invalid_session_type p.typ))

  module _ (md5 : List ℕ → List ℕ) where
    -- What follows the switch: an error reply, the reply, or nothing.
    unfoldable pub answer : Handled → M W (Unit {0})
    answer (p, some e) s w = ret tt (send_error md5 (record s { p = p }) e) w
    answer (none, none) s w = ret tt (record s { p = none }) w
    answer (some p, none) s w = ret tt (write_server md5 (record s { p = some p }) p).1 w

    unfoldable pub serve_first : (Option Raw × Option Error) × SessionState → M W (Unit {0})
    serve_first ((p, some e), state) s w =
        ret tt (send_error md5 (record s { state = state; p = p }) e) w
    serve_first ((none, none), state) s w = panicked (record s { state = state; p = none }) w
    serve_first ((some p, none), state) s w =
        (dispatch p >>= answer) (record s { state = state; p = some p }) w

    -- The deferred calls close the session on every way out, and recover from a panic.
    unfoldable pub deferred : Run W (Unit {0}) → Run W (Unit {0})
    deferred (ret a s w) = ret a (close s) w
    deferred (panicked s w) = panicked (close s) w
    deferred stuck = stuck

    unfoldable pub serve_session : SessionState → W → Run W (Unit {0})
    serve_session state w =
        deferred (serve_first (read_packet md5 state) (record { state = state; p = none }) w)
