-- ===== src/Tacplus/Codec/RoundTrip.antt =====
-- Encoding and decoding of the seven packet types (pkg/public/tacplus/packet.go).
use tacacs_plus_go.Base.{
  Decodes, Error, List, Option-cases, Result, ap, arith, bad_packet, drop, drop_append, err, inl,
  inr, length, none, ok, panic, refl, some, sym, take, take_append, ℕ, ◌++◌, ◌↔◌, ◌∙◌, ◌≡◌, ◌⊎◌,
}
use tacacs_plus_go.Tacplus.Codec.{
  Fits, Kind, Packet, acct, acct_answer, acct_reply, acct_request, as_packet, authen_continue,
  authen_reply, authen_start, author_request, author_response, body, continue, kind, marshal, reply,
  request, response, start, unmarshal,
}
use tacacs_plus_go.Tacplus.Packet.AuthenStart
use tacacs_plus_go.Tacplus.Packet.AuthenReply
use tacacs_plus_go.Tacplus.Packet.AuthenContinue
use tacacs_plus_go.Tacplus.Packet.AuthorRequest
use tacacs_plus_go.Tacplus.Packet.AuthorResponse
use tacacs_plus_go.Tacplus.Packet.AcctRequest
use tacacs_plus_go.Tacplus.Packet.AcctReply

pub marshal-Fits : (p : Packet) (b : List ℕ) → Fits p → marshal p b ≡ (b ++ body p, none)
unfolding marshal body
marshal-Fits (authen_start a) b h = AuthenStart.marshal-Fits a b h
marshal-Fits (authen_reply a) b h = AuthenReply.marshal-Fits a b h
marshal-Fits (authen_continue a) b h = AuthenContinue.marshal-Fits a b h
marshal-Fits (author_request a) b h = AuthorRequest.marshal-Fits a b h
marshal-Fits (author_response a) b h = AuthorResponse.marshal-Fits a b h
marshal-Fits (acct_request a) b h = AcctRequest.marshal-Fits a b h
marshal-Fits (acct_reply a) b h = AcctReply.marshal-Fits a b h

pub Fits-marshal : (p : Packet) (b : List ℕ) → (marshal p b).1 ≡ none → Fits p
unfolding marshal
Fits-marshal (authen_start a) b h = AuthenStart.Fits-marshal a b h
Fits-marshal (authen_reply a) b h = AuthenReply.Fits-marshal a b h
Fits-marshal (authen_continue a) b h = AuthenContinue.Fits-marshal a b h
Fits-marshal (author_request a) b h = AuthorRequest.Fits-marshal a b h
Fits-marshal (author_response a) b h = AuthorResponse.Fits-marshal a b h
Fits-marshal (acct_request a) b h = AcctRequest.Fits-marshal a b h
Fits-marshal (acct_reply a) b h = AcctReply.Fits-marshal a b h

pub unmarshal-body :
    (p : Packet) (rest : List ℕ) → Fits p → unmarshal (kind p) (body p ++ rest) ≡ ok p
unfolding unmarshal body kind
unmarshal-body (authen_start a) rest h = rw (AuthenStart.unmarshal-body a rest h)
unmarshal-body (authen_reply a) rest h = rw (AuthenReply.unmarshal-body a rest h)
unmarshal-body (authen_continue a) rest h = rw (AuthenContinue.unmarshal-body a rest h)
unmarshal-body (author_request a) rest h = rw (AuthorRequest.unmarshal-body a rest h)
unmarshal-body (author_response a) rest h = rw (AuthorResponse.unmarshal-body a rest h)
unmarshal-body (acct_request a) rest h = rw (AcctRequest.unmarshal-body a rest h)
unmarshal-body (acct_reply a) rest h = rw (AcctReply.unmarshal-body a rest h)

-- Whenever `marshal` succeeds it keeps the bytes before the packet, and what it wrote behind them is
-- decoded to the same packet, whatever bytes follow.
pub unmarshal-marshal :
    (p : Packet) (b b' rest : List ℕ)
    → marshal p b ≡ (b', none)
    → (take (length b) b' ≡ b) × (unmarshal (kind p) (drop (length b) b' ++ rest) ≡ ok p)
unmarshal-marshal p b b' rest e =
    let h : Fits p = Fits-marshal p b (ap (λ r. r.1) e) in
    let e' : b' ≡ b ++ body p = ap (λ r. r.0) (sym e ∙ marshal-Fits p b h) in
    rw (e', take_append b (body p), drop_append b (body p)) (refl, unmarshal-body p rest h)

-- An error of `marshal` leaves the slice as it was.
marshal_error :
    (p : Packet) (b : List ℕ) {e : Error} → (marshal p b).1 ≡ some e → (marshal p b).0 ≡ b
unfolding marshal
marshal_error (authen_start a) b h = unfold AuthenStart.marshal in ground arith
marshal_error (authen_reply a) b h = unfold AuthenReply.marshal in ground arith
marshal_error (authen_continue a) b h = unfold AuthenContinue.marshal in ground arith
marshal_error (author_request a) b h = unfold AuthorRequest.marshal in ground arith
marshal_error (author_response a) b h = unfold AuthorResponse.marshal in ground arith
marshal_error (acct_request a) b h = unfold AcctRequest.marshal in ground arith
marshal_error (acct_reply a) b h = unfold AcctReply.marshal in ground arith

-- `marshal` succeeds exactly on the packets whose texts and argument lists fit their length fields,
-- and otherwise returns the slice that it was given.
pub marshal_cases :
    (p : Packet) (b : List ℕ)
    → (((marshal p b).1 ≡ none) ↔ Fits p) × (¬ Fits p → (marshal p b).0 ≡ b)
marshal_cases p b = (
  (Fits-marshal p b, λ h. ap (λ r. r.1) (marshal-Fits p b h)),
  refused (Option-cases (marshal p b).1),
)
  where
    refused :
        ((marshal p b).1 ≡ none) ⊎ ((e : Error) × ((marshal p b).1 ≡ some e))
        → ¬ Fits p
        → (marshal p b).0 ≡ b
    refused (inl e) no_fit = absurd (no_fit (Fits-marshal p b e))
    refused (inr (e, h)) no_fit = marshal_error p b h

as_packet-Decodes {ℓ} :
    {A : Type ℓ} (f : A → Packet) (r : Result A) → Decodes r → Decodes (as_packet f r)
as_packet-Decodes f (ok a) h = tt
as_packet-Decodes f (err bad_packet) h = tt
as_packet-Decodes f (err _) h = absurd h
as_packet-Decodes f panic h = h

-- No decoder reads out of range: on every buffer it returns a packet or errBadPacket.
pub unmarshal-Decodes : (k : Kind) (buf : List ℕ) → Decodes (unmarshal k buf)
unfolding unmarshal
unmarshal-Decodes start buf = as_packet-Decodes _ _ (AuthenStart.unmarshal-Decodes buf)
unmarshal-Decodes reply buf = as_packet-Decodes _ _ (AuthenReply.unmarshal-Decodes buf)
unmarshal-Decodes continue buf = as_packet-Decodes _ _ (AuthenContinue.unmarshal-Decodes buf)
unmarshal-Decodes request buf = as_packet-Decodes _ _ (AuthorRequest.unmarshal-Decodes buf)
unmarshal-Decodes response buf = as_packet-Decodes _ _ (AuthorResponse.unmarshal-Decodes buf)
unmarshal-Decodes acct buf = as_packet-Decodes _ _ (AcctRequest.unmarshal-Decodes buf)
unmarshal-Decodes acct_answer buf = as_packet-Decodes _ _ (AcctReply.unmarshal-Decodes buf)
