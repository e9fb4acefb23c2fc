-- ===== src/Tacplus/Client.antt =====
-- pkg/public/tacplus/client.go: ClientSession, the client's end of an authentication.
pub mod Prompted
use tacacs_plus_go.Base.{
  Error, List, Option, Result, [], err, false, if◌then◌else◌, leb, none, ok, panic, session_closed,
  some, take, too_many_packets, true, ℕ,
}
use tacacs_plus_go.Tacplus.Crypt.{Raw}
use tacacs_plus_go.Tacplus.Session.{SessionState, read_packet, write_packet}
use tacacs_plus_go.Tacplus.Server.{close_session}
use tacacs_plus_go.Tacplus.Packet.AuthenReply.{AuthenReply, last}
use tacacs_plus_go.Tacplus.Packet.AuthenContinue
use tacacs_plus_go.Tacplus.Packet.AuthenReply
use tacacs_plus_go.Tacplus.Packet.AuthenContinue.{AuthenContinue}

-- `p` is the last packet read, whose header the next request reuses; nil is `none`.
pub record ClientSession : Type 0 where
  pub state : SessionState
  pub p : Option Raw

unfoldable pub close_client : ClientSession → ClientSession
close_client c = record c {
  state = record (c.state) { session = close_session c.state.session };
  p = none;
}

-- rep.unmarshal(c.p[hdrLen:]) behind a read; nil has no such slice.
unfoldable pub read_reply :
    (Option Raw × Option Error) × SessionState → ClientSession → Result AuthenReply × ClientSession
read_reply ((p, some e), state) c = (err e, record c { state = state; p = p })
read_reply ((none, none), state) c = (panic, record c { state = state; p = none })
read_reply ((some p, none), state) c =
    (AuthenReply.unmarshal p.body, record c { state = state; p = some p })

-- What Continue makes of the outcome of its request.
unfoldable pub after_request :
    Result AuthenReply × ClientSession → Result AuthenReply × ClientSession
after_request (ok rep, c) = if last rep then (ok rep, close_client c) else (ok rep, c)
after_request (err e, c) = (err e, close_client c)
after_request (panic, c) = (panic, c)

module _ (md5 : List ℕ → List ℕ) where
  -- The first half of sendRequest: the request is marshalled and written.
  unfoldable pub send : AuthenContinue → ClientSession → Option Error × ClientSession
  send req c = elim c.p [
    | none ↦ (some session_closed, c)
    | some p ↦ elim (AuthenContinue.marshal req []).1 [
      | some e ↦ (some e, c)
      | none ↦
          let (e, state) =
            write_packet md5 c.state (record p { body = (AuthenContinue.marshal req []).0 }) in
          (e, record c { state = state })
    ]
  ]

  unfoldable pub send_request : AuthenContinue → ClientSession → Result AuthenReply × ClientSession
  send_request req c =
      let (e, c') = send req c in
      elim e [ some e ↦ (err e, c') | none ↦ read_reply (read_packet md5 c'.state) c' ]

  -- sendRequest with no reply to wait for, and Close.
  unfoldable pub abort : List ℕ → ClientSession → Option Error × ClientSession
  abort reason c =
      let (e, c') = send (record { abort = true; message = take 65535 reason }) c in
      (e, close_client c')

  -- ClientSession.Continue
  unfoldable pub continue_session : List ℕ → ClientSession → Result AuthenReply × ClientSession
  continue_session msg c =
      if leb 0xfe c.state.session.seq
      then (err too_many_packets, (abort [] c).1)
      else after_request (send_request (record { abort = false; message = msg }) c)
