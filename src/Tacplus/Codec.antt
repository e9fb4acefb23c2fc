-- ===== src/Tacplus/Codec.antt =====
-- pkg/public/tacplus/conn.go: the interface `packet`, over the seven types that implement it.
pub mod RoundTrip
pub mod Bounds
use tacacs_plus_go.Base.{Error, List, Option, Result, err, ok, panic, ℕ}
use tacacs_plus_go.Tacplus.Packet.AuthenStart
use tacacs_plus_go.Tacplus.Packet.AuthenReply
use tacacs_plus_go.Tacplus.Packet.AuthenContinue
use tacacs_plus_go.Tacplus.Packet.AuthorRequest
use tacacs_plus_go.Tacplus.Packet.AuthorResponse
use tacacs_plus_go.Tacplus.Packet.AcctRequest
use tacacs_plus_go.Tacplus.Packet.AcctReply
use tacacs_plus_go.Tacplus.Packet.AuthenStart.{AuthenStart}
use tacacs_plus_go.Tacplus.Packet.AuthenReply.{AuthenReply}
use tacacs_plus_go.Tacplus.Packet.AuthenContinue.{AuthenContinue}
use tacacs_plus_go.Tacplus.Packet.AuthorRequest.{AuthorRequest}
use tacacs_plus_go.Tacplus.Packet.AuthorResponse.{AuthorResponse}
use tacacs_plus_go.Tacplus.Packet.AcctRequest.{AcctRequest}
use tacacs_plus_go.Tacplus.Packet.AcctReply.{AcctReply}

pub data Packet : Type 0 where
  authen_start : AuthenStart → Packet
  authen_reply : AuthenReply → Packet
  authen_continue : AuthenContinue → Packet
  author_request : AuthorRequest → Packet
  author_response : AuthorResponse → Packet
  acct_request : AcctRequest → Packet
  acct_reply : AcctReply → Packet

-- The type that the receiver of a packet decodes it into.
pub data Kind : Type 0 where
  start reply continue request response acct acct_answer : Kind

unfoldable pub kind : Packet → Kind
kind (authen_start a) = start
kind (authen_reply a) = reply
kind (authen_continue a) = continue
kind (author_request a) = request
kind (author_response a) = response
kind (acct_request a) = acct
kind (acct_reply a) = acct_answer

unfoldable pub marshal : Packet → List ℕ → List ℕ × Option Error
marshal (authen_start a) b = AuthenStart.marshal a b
marshal (authen_reply a) b = AuthenReply.marshal a b
marshal (authen_continue a) b = AuthenContinue.marshal a b
marshal (author_request a) b = AuthorRequest.marshal a b
marshal (author_response a) b = AuthorResponse.marshal a b
marshal (acct_request a) b = AcctRequest.marshal a b
marshal (acct_reply a) b = AcctReply.marshal a b

abbrev pub as_packet {ℓ} : {A : Type ℓ} → (A → Packet) → Result A → Result Packet
as_packet f (ok a) = ok (f a)
as_packet f (err e) = err e
as_packet f panic = panic

unfoldable pub unmarshal : Kind → List ℕ → Result Packet
unmarshal start buf = as_packet authen_start (AuthenStart.unmarshal buf)
unmarshal reply buf = as_packet authen_reply (AuthenReply.unmarshal buf)
unmarshal continue buf = as_packet authen_continue (AuthenContinue.unmarshal buf)
unmarshal request buf = as_packet author_request (AuthorRequest.unmarshal buf)
unmarshal response buf = as_packet author_response (AuthorResponse.unmarshal buf)
unmarshal acct buf = as_packet acct_request (AcctRequest.unmarshal buf)
unmarshal acct_answer buf = as_packet acct_reply (AcctReply.unmarshal buf)

-- What the wire format can carry: texts of one-byte or two-byte length, and at most 255 arguments.
abbrev pub Fits : Packet → Type 0
Fits (authen_start a) = AuthenStart.Fits a
Fits (authen_reply a) = AuthenReply.Fits a
Fits (authen_continue a) = AuthenContinue.Fits a
Fits (author_request a) = AuthorRequest.Fits a
Fits (author_response a) = AuthorResponse.Fits a
Fits (acct_request a) = AcctRequest.Fits a
Fits (acct_reply a) = AcctReply.Fits a

unfoldable pub body : Packet → List ℕ
body (authen_start a) = AuthenStart.body a
body (authen_reply a) = AuthenReply.body a
body (authen_continue a) = AuthenContinue.body a
body (author_request a) = AuthorRequest.body a
body (author_response a) = AuthorResponse.body a
body (acct_request a) = AcctRequest.body a
body (acct_reply a) = AcctReply.body a
