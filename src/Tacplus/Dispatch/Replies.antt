-- ===== src/Tacplus/Dispatch/Replies.antt =====
-- What serveSession answers, seen from the client (pkg/public/tacplus/server.go).
use tacacs_plus_go.Tacplus.Dispatch.{
  answer, deferred, dispatch, handle_acct_request, handle_authen_start, handle_author_request,
  marshal_reply, serve_first, serve_session,
}
use tacacs_plus_go.Tacplus.Server.{
  RequestHandler, ServerSession, close, close_session, reply_flags, ret, write_server,
}
use tacacs_plus_go.Tacplus.Session.Exchange.{numbered, read_packet-write_packet}
use tacacs_plus_go.Tacplus.Codec.RoundTrip.{unmarshal-body}
use tacacs_plus_go.Tacplus.Session.{
  ConnConfig, Incoming, SessionState, WriteOutcome, finish_write, next_outcome, outgoing, packet,
  read_packet, write_packet, written,
}
use tacacs_plus_go.Tacplus.Crypt.{IsDigest, Raw}
use tacacs_plus_go.Base.{
  All, Error, IsByte, List, [], append-nil, arith, bad_acct_reply, bad_authen_reply,
  bad_author_response, bit_and, false, none, ok, refl, session_closed, some, subst, true, uint8, ℕ,
  ◌++◌, ◌+◌, ◌∷◌, ◌≡◌, ◌≢◌,
}
use tacacs_plus_go.Tacplus.Packet.AuthenStart
use tacacs_plus_go.Tacplus.Packet.AuthenReply
use tacacs_plus_go.Tacplus.Packet.AuthorRequest
use tacacs_plus_go.Tacplus.Packet.AuthorResponse
use tacacs_plus_go.Tacplus.Packet.AcctRequest
use tacacs_plus_go.Tacplus.Packet.AcctReply
use tacacs_plus_go.Tacplus.Packet.AuthenStart.{AuthenStart}
use tacacs_plus_go.Tacplus.Packet.AuthenReply.{AuthenReply}
use tacacs_plus_go.Tacplus.Packet.AuthorRequest.{AuthorRequest}
use tacacs_plus_go.Tacplus.Packet.AuthorResponse.{AuthorResponse}
use tacacs_plus_go.Tacplus.Packet.AcctRequest.{AcctRequest}
use tacacs_plus_go.Tacplus.Packet.AcctReply.{AcctReply}
use tacacs_plus_go.Tacplus.Codec
use tacacs_plus_go.Tacplus.Codec.{Packet}

-- The request in `p` is well formed and of the version for its type, and the handler's reply to it
-- fits the wire format. `s'` and `w'` are what the handler's prompts made of the session and of its
-- own state.
pub data Answers {W : Type 0} (h : RequestHandler W) (p : Raw) (s : ServerSession) (w : W)
    (s' : ServerSession) (w' : W) : Packet → Type 0 where
  authen :
      (a : AuthenStart) (r : AuthenReply)
      → p.typ ≡ 1
      → AuthenStart.unmarshal p.body ≡ ok a
      → p.version ≡ AuthenStart.version a
      → h.authen_start a s w ≡ ret (some r) s' w'
      → AuthenReply.Fits r
      → Answers h p s w s' w' (Packet.authen_reply r)
  author :
      (a : AuthorRequest) (r : AuthorResponse)
      → p.typ ≡ 2
      → AuthorRequest.unmarshal p.body ≡ ok a
      → p.version ≡ 0xc0
      → h.author_request a s w ≡ ret (some r) s' w'
      → AuthorResponse.Fits r
      → Answers h p s w s' w' (Packet.author_response r)
  acct :
      (a : AcctRequest) (r : AcctReply)
      → p.typ ≡ 3
      → AcctRequest.unmarshal p.body ≡ ok a
      → p.version ≡ 0xc0
      → h.acct_request a s w ≡ ret (some r) s' w'
      → AcctReply.Fits r
      → Answers h p s w s' w' (Packet.acct_reply r)

Answers-Fits :
    {W : Type 0} {h : RequestHandler W} {p : Raw} {s : ServerSession} {w : W} {s' : ServerSession}
    {w' : W} {pk : Packet}
    → Answers h p s w s' w' pk
    → Codec.Fits pk
Answers-Fits (authen a r t u v e f) = f
Answers-Fits (author a r t u v e f) = f
Answers-Fits (acct a r t u v e f) = f

module _ {W : Type 0} (h : RequestHandler W) where
  marshal_reply_lem :
      (b : List ℕ) (wrap : Error → Error) (s : ServerSession) (w : W) (p : Raw)
      → s.p ≡ some p
      → marshal_reply (b, none) wrap s w
        ≡ ret (some (record p { body = b }), none) (record s { p = some (record p { body = b }) }) w
  unfolding marshal_reply
  marshal_reply_lem b wrap s w p e = ground arith

  dispatch-Answers :
      (p p' : Raw) (s s' : ServerSession) (w w' : W) (pk : Packet)
      → Answers h p s w s' w' pk
      → s'.p ≡ some p'
      → let q : Raw = record p' { body = Codec.body pk } in
        dispatch h p s w ≡ ret (some q, none) (record s' { p = some q }) w'
  unfolding dispatch handle_authen_start handle_author_request handle_acct_request Codec.body
  dispatch-Answers p p' s s' w w' pk (authen a r t u v e f) k = ground (
    arith,
    AuthenReply.marshal-Fits r [] f,
    marshal_reply_lem (AuthenReply.body r) bad_authen_reply s' w' p' k,
  )
  dispatch-Answers p p' s s' w w' pk (author a r t u v e f) k = ground (
    arith,
    AuthorResponse.marshal-Fits r [] f,
    marshal_reply_lem (AuthorResponse.body r) bad_author_response s' w' p' k,
  )
  dispatch-Answers p p' s s' w w' pk (acct a r t u v e f) k = ground (
    arith,
    AcctReply.marshal-Fits r [] f,
    marshal_reply_lem (AcctReply.body r) bad_acct_reply s' w' p' k,
  )

  module _ (md5 : List ℕ → List ℕ) where
    -- The reply packet before it is numbered and masked: the last header read, its flags settled.
    abbrev pub reply_packet : SessionState → Raw → Packet → Raw
    reply_packet s p' pk = reply_flags s.config (record p' { body = Codec.body pk })

    reply_flags_keeps :
        (c : ConnConfig) (p : Raw)
        → ((reply_flags c p).seq_no ≡ p.seq_no) × ((reply_flags c p).body ≡ p.body)
    unfolding reply_flags
    reply_flags_keeps c p = ground arith

    write_server_written :
        (s : ServerSession) (p : Raw) (os : List WriteOutcome)
        → s.state.session.done ≡ false
        → s.state.outcomes ≡ written ∷ os
        → (write_server md5 s p).1 ≡ record s {
          state = record (s.state) {
            session = record (s.state.session) { seq = uint8 (p.seq_no + 1) };
            outcomes = os;
            sent =
                s.state.sent ++ (outgoing md5 s.state.config (reply_flags s.state.config p) ∷ []);
          };
        }
    unfolding write_server write_packet finish_write next_outcome
    write_server_written s p os o k = ground (arith, reply_flags_keeps s.state.config p)

    -- serveSession answers a well-formed request with exactly one more packet, the handler's reply
    -- under the header of the last packet read, and then closes the session; the handler's state is
    -- the one that the handler left.
    pub serve_session-Answers :
        (state state1 : SessionState) (w w' : W) (p p' : Raw) (s' : ServerSession) (pk : Packet)
        (os : List WriteOutcome)
        → read_packet md5 state ≡ ((some p, none), state1)
        → Answers h p (record { state = state1; p = some p }) w s' w' pk
        → s'.p ≡ some p'
        → s'.state.session.done ≡ false
        → s'.state.outcomes ≡ written ∷ os
        → serve_session h md5 state w
          ≡ ret tt
              (record {
                state = record (s'.state) {
                  session = record (s'.state.session) {
                    seq = uint8 (p'.seq_no + 1);
                    done = true;
                    err = some session_closed;
                  };
                  outcomes = os;
                  sent =
                      s'.state.sent
                      ++ (outgoing md5 s'.state.config (reply_packet s'.state p' pk) ∷ []);
                };
                p = none;
              })
              w'
    unfolding serve_session serve_first deferred answer close close_session
    serve_session-Answers state state1 w w' p p' s' pk os e a k o k' = ground (
      arith,
      dispatch-Answers p p' (record { state = state1; p = some p }) s' w w' pk a k,
      write_server_written (record s' { p = some (record p' { body = Codec.body pk }) })
          (record p' { body = Codec.body pk }) os o k',
    )

    -- The client of the session, which holds the same secret and has sent the packet before the
    -- reply, reads that reply and decodes it to what the handler returned.
    pub serve_session-delivers :
        IsDigest md5
        → (state state1 r : SessionState) (w w' : W) (p p' : Raw) (s' : ServerSession) (pk : Packet)
          (os : List WriteOutcome) (is : List Incoming)
        → read_packet md5 state ≡ ((some p, none), state1)
        → Answers h p (record { state = state1; p = some p }) w s' w' pk
        → s'.p ≡ some p'
        → s'.state.session.done ≡ false
        → s'.state.outcomes ≡ written ∷ os
        → All IsByte (Codec.body pk)
        → r.config.secret ≡ s'.state.config.secret
        → r.session.seq ≡ p'.seq_no
        → bit_and (uint8 (p'.seq_no + 1)) 1 ≢ r.parity
        → r.incoming ≡ packet (outgoing md5 s'.state.config (reply_packet s'.state p' pk)) ∷ is
        → (final : ServerSession) × (reply : Raw) × (serve_session h md5 state w ≡ ret tt final w')
          × (final.state.sent
              ≡ s'.state.sent ++ (outgoing md5 s'.state.config (reply_packet s'.state p' pk) ∷ []))
          × (read_packet md5 r ≡ ((some reply, none), record r { incoming = is }))
          × (Codec.unmarshal (Codec.kind pk) reply.body ≡ ok pk)
    serve_session-delivers digest state state1 r w w' p p' s' pk os is e a k o k' hb secret seq
          parity inc =
        let q = reply_packet s'.state p' pk in
        let keeps = reply_flags_keeps s'.state.config (record p' { body = Codec.body pk }) in
        let read =
          read_packet-write_packet md5 digest s'.state r q os is o k' secret (rw (keeps.0, seq))
            (rw keeps.0 parity) (rw keeps.1 hb) inc in
        (
          _,
          numbered q,
          serve_session-Answers state state1 w w' p p' s' pk os e a k o k',
          refl,
          read.1,
          rw keeps.1 (
              subst (λ t. Codec.unmarshal (Codec.kind pk) t ≡ ok pk) (append-nil (Codec.body pk))
                (unmarshal-body pk [] (Answers-Fits a))),
        )
