-- ===== src/Tacplus/Client/Prompted.antt =====
-- A prompt answered by the client (pkg/public/tacplus/client.go and server.go).
use tacacs_plus_go.Base.{
  All, Bool, IsByte, List, Result, [], ap, append-nil, arith, bit_and, err, false, none, ok, panic,
  some, subst, true, uint8, ℕ, ◌++◌, ◌+◌, ◌∷◌, ◌≡◌, ◌≢◌, ◌⊎◌,
}
use tacacs_plus_go.Tacplus.Crypt.{IsDigest, Raw}
use tacacs_plus_go.Tacplus.Session.{Incoming, WriteOutcome, outgoing, packet, read_packet, written}
use tacacs_plus_go.Tacplus.Session.Exchange.{numbered, read_packet-write_packet}
use tacacs_plus_go.Tacplus.Client.{ClientSession, abort, send}
use tacacs_plus_go.Tacplus.Server.{ServerSession, read_continue, ret}
use tacacs_plus_go.Tacplus.Packet.AuthenReply.{AuthenReply}
use tacacs_plus_go.Tacplus.Packet.AuthenContinue
use tacacs_plus_go.Tacplus.Packet.AuthenReply
use tacacs_plus_go.Tacplus.Packet.AuthenContinue.{AuthenContinue}

-- The outcome of a session that is closed.
abbrev pub IsClosed : ClientSession → Type 0
IsClosed c = (c.p ≡ none) × (c.state.session.done ≡ true)

-- A prompt: the statuses that ask for data, for a user or for a password.
abbrev pub IsPrompt : AuthenReply → Type 0
IsPrompt rep = (rep.status ≡ 3) ⊎ ((rep.status ≡ 4) ⊎ (rep.status ≡ 5))

-- What a request with outcome r, on a session whose flag of closing is `done`, leaves: the reply is
-- returned, and a prompt leaves the session as it was; another reply or an error closes it.
abbrev pub Continued : Bool → Result AuthenReply → Result AuthenReply × ClientSession → Type 0
Continued done (ok rep) (r, c) =
    (r ≡ ok rep)
    × ((IsPrompt rep × (c.p ≢ none) × (c.state.session.done ≡ done))
        ⊎ ((¬ IsPrompt rep) × IsClosed c))
Continued done (err e) (r, c) = (r ≡ err e) × IsClosed c
Continued done panic (r, c) = ⊥

module _ (md5 : List ℕ → List ℕ) where
  -- The client's answer to the prompt that it holds is sent as one more packet, and the server's
  -- prompt that reads this packet returns the answer, if both hold the same secret, the client's
  -- session is open and its write succeeds, the answer fits the wire format and consists of bytes,
  -- and the server's last packet has the number of the packet that the client holds and a parity
  -- by which the answer's number is not the server's own.
  pub read_continue-send :
      IsDigest md5
      → {W : Type 0} (msg : List ℕ) (c : ClientSession) (s : ServerSession) (w : W) (p : Raw)
        (os : List WriteOutcome) (is : List Incoming)
      → c.p ≡ some p
      → c.state.session.done ≡ false
      → c.state.outcomes ≡ written ∷ os
      → s.state.config.secret ≡ c.state.config.secret
      → s.state.session.seq ≡ p.seq_no
      → bit_and (uint8 (p.seq_no + 1)) 1 ≢ s.state.parity
      → AuthenContinue.Fits (record { abort = false; message = msg })
      → All IsByte (AuthenContinue.body (record { abort = false; message = msg }))
      → let q : Raw = record p {
        body = AuthenContinue.body (record { abort = false; message = msg });
      } in
        s.state.incoming ≡ packet (outgoing md5 c.state.config q) ∷ is
        → (send md5 (record { abort = false; message = msg }) c ≡ (
          none,
          record c {
            state = record (c.state) {
              session = record (c.state.session) { seq = uint8 (p.seq_no + 1) };
              outcomes = os;
              sent = c.state.sent ++ (outgoing md5 c.state.config q ∷ []);
            };
          },
        ))
          × (read_continue md5 (read_packet md5 s.state) s w
              ≡ ret
                  (ok (record { abort = false; message = msg }))
                  (record { state = record (s.state) { incoming = is }; p = some (numbered q) })
                  w)
  unfolding read_continue send
  read_continue-send digest msg c s w p os is cp opened ow secret seq parity fits hb inc =
      let req : AuthenContinue = record { abort = false; message = msg } in
      let q : Raw = record p { body = AuthenContinue.body req } in
      let moved =
        read_packet-write_packet md5 digest c.state s.state q os is opened ow secret
          (ap (λ n. uint8 (n + 1)) seq) parity hb inc in
      let back : AuthenContinue.unmarshal (AuthenContinue.body req) ≡ ok req =
        subst (λ t. AuthenContinue.unmarshal t ≡ ok req) (append-nil (AuthenContinue.body req))
          (AuthenContinue.unmarshal-body req [] fits) in
      (
        ground (arith, AuthenContinue.marshal-Fits req [] fits, moved.0),
        ground (arith, moved.1, back),
      )
