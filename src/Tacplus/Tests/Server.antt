-- ===== src/Tacplus/Tests/Server.antt =====
-- An accounting request served by pkg/public/tacplus/server.go.
use tacacs_plus_go.Tacplus.Tests.{
  all_bytes→All, client_state, config, packet_0, request, request-Fits, request-IsBytes,
  server_state, toy_md5, toy_md5-IsDigest,
}
use tacacs_plus_go.Base.{
  All, IsByte, [], append-nil, arith, codes, none, ok, refl, session_closed, some, subst, true, ℕ,
  ◌+◌, ◌∷◌, ◌≡◌,
}
use tacacs_plus_go.Tacplus.Wire.{append_uint16}
use tacacs_plus_go.Tacplus.Crypt.{Raw}
use tacacs_plus_go.Tacplus.Session.{SessionState, outgoing, packet, read_packet}
use tacacs_plus_go.Tacplus.Session.Exchange.{numbered, read_packet-write_packet}
use tacacs_plus_go.Tacplus.Dispatch.Replies.{
  Answers, reply_packet, serve_session-Answers, serve_session-delivers,
}
use tacacs_plus_go.Tacplus.Dispatch.{serve_session}
use tacacs_plus_go.Tacplus.Server.{RequestHandler, ServerSession, ret}
use tacacs_plus_go.Tacplus.Packet.AcctRequest
use tacacs_plus_go.Tacplus.Packet.AcctReply.{AcctReply}
use tacacs_plus_go.Tacplus.Codec
use tacacs_plus_go.Tacplus.Codec.{acct_reply}
use tacacs_plus_go.Tacplus.Packet.AcctReply

-- A handler that prompts for nothing and accepts every accounting record.
abbrev accepted : AcctReply
accepted = record { status = 1; server_msg = codes "done"; data_bytes = [] }

abbrev accept_all : RequestHandler ℕ
accept_all = record {
  authen_start = λ a s w. ret none s w;
  author_request = λ a s w. ret none s w;
  acct_request = λ a s w. ret (some accepted) s (w + 1);
}

-- The server's session with the request that it has read.
abbrev read_state : SessionState
read_state = record server_state { incoming = [] }

abbrev with_request : ServerSession
with_request = record { state = read_state; p = some (numbered packet_0) }

read_request : read_packet toy_md5 server_state ≡ ((some (numbered packet_0), none), read_state)
read_request =
    (read_packet-write_packet toy_md5 toy_md5-IsDigest client_state server_state packet_0 [] [] refl
      refl refl refl (omega arith) request-IsBytes refl).1

accept_all-Answers :
    Answers accept_all (numbered packet_0) with_request 4 with_request 5 (acct_reply accepted)
accept_all-Answers =
    Answers.acct request accepted refl
      (subst (λ t. AcctRequest.unmarshal t ≡ ok request) (append-nil (AcctRequest.body request))
        (AcctRequest.unmarshal-body request [] request-Fits))
      refl refl (omega arith, omega arith)

serve_session-Answers_example :
    serve_session accept_all toy_md5 server_state 4
    ≡ ret tt
        (record {
          state = record read_state {
            session = record { id = 7; seq = 2; done = true; err = some session_closed };
            outcomes = [];
            sent =
                outgoing toy_md5 config (
                  reply_packet accept_all toy_md5 read_state
                    (numbered packet_0)
                    (acct_reply accepted))
                ∷ [];
          };
          p = none;
        })
        5
serve_session-Answers_example =
    serve_session-Answers accept_all toy_md5 server_state read_state 4 5 (numbered packet_0)
      (numbered packet_0) with_request (acct_reply accepted) [] read_request accept_all-Answers refl
      refl refl

reply-IsBytes : All IsByte (Codec.body (acct_reply accepted))
unfolding Codec.body append_uint16
reply-IsBytes = all_bytes→All (AcctReply.body accepted) refl

-- The client after its request, with the reply in its queue.
abbrev waiting : SessionState
waiting = record client_state {
  session = record (client_state.session) { seq = 1 };
  outcomes = [];
  incoming =
      packet (
        outgoing toy_md5 config
          (reply_packet accept_all toy_md5 read_state (numbered packet_0) (acct_reply accepted)))
      ∷ [];
}

serve_session-delivers_example :
    (final : ServerSession) × (reply : Raw) × (serve_session accept_all toy_md5 server_state 4
      ≡ ret tt final 5)
    × (final.state.sent
        ≡ outgoing toy_md5 config
            (reply_packet accept_all toy_md5 read_state (numbered packet_0) (acct_reply accepted))
          ∷ [])
    × (read_packet toy_md5 waiting ≡ ((some reply, none), record waiting { incoming = [] }))
    × (Codec.unmarshal (Codec.kind (acct_reply accepted)) reply.body ≡ ok (acct_reply accepted))
serve_session-delivers_example =
    serve_session-delivers accept_all toy_md5 toy_md5-IsDigest server_state read_state waiting 4 5
      (numbered packet_0) (numbered packet_0) with_request (acct_reply accepted) [] [] read_request
      accept_all-Answers refl refl refl reply-IsBytes refl refl (omega arith) refl
