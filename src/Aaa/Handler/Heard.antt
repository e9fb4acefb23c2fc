-- ===== src/Aaa/Handler/Heard.antt =====
-- What a login hears of its client (pkg/client/tac_plus/handler.go, over pkg/public/tacplus).
use tacacs_plus_go.Tacplus.Server.{ServerSession, write_server}
use tacacs_plus_go.Base.{
  Bool-cases, Error, List, Option, Option-cases, [], ap, arith, drop, false, inl, inr, none, ok,
  refl, some, sym, ℕ, ◌++◌, ◌∙◌, ◌∷◌, ◌≡◌,
}
use tacacs_plus_go.Tacplus.Crypt.{Raw}
use tacacs_plus_go.Tacplus.Session.{
  Incoming, SessionState, WriteOutcome, abandoned, cancelled, cancelled_in, check_seq, closed_in,
  crypt_packet, failed, finish_write, next_incoming, packet, read_packet, receive, session_done,
  write_packet, written,
}
use tacacs_plus_go.Tacplus.Packet.AuthenContinue
use tacacs_plus_go.Tacplus.Packet.AuthenContinue.{AuthenContinue}

-- The next packet in the session's queue has been taken, and is an answer of the client.
pub record Reads (md5 : List ℕ → List ℕ) (s s' : SessionState) (said : AuthenContinue)
    : Type 0 where
  pub p : Raw
  pub taken : s.incoming ≡ packet p ∷ s'.incoming
  pub config : s'.config ≡ s.config
  pub decoded : AuthenContinue.unmarshal (crypt_packet md5 s.config.secret p).body ≡ ok said

-- The last packet taken from the session's queue, on the way from s to s', is an answer of the client
-- that does not abort, with this text.
pub record Heard (md5 : List ℕ → List ℕ) (s s' : SessionState) (text : List ℕ) : Type 0 where
  pub before : List Incoming
  pub p : Raw
  pub taken : s.incoming ≡ before ++ (packet p ∷ s'.incoming)
  pub config : s'.config ≡ s.config
  pub said : AuthenContinue
  pub decoded : AuthenContinue.unmarshal (crypt_packet md5 s.config.secret p).body ≡ ok said
  pub stays : said.abort ≡ false
  pub says : said.message ≡ text

-- A write leaves the queue and the configuration.
abbrev pub Keeps : SessionState → SessionState → Type 0
Keeps s s' = (s'.incoming ≡ s.incoming) × (s'.config ≡ s.config)

module _ (md5 : List ℕ → List ℕ) where
  -- What readPacket returns: an error, and otherwise the packet that it takes from the queue.
  abbrev pub Received : SessionState → (Option Raw × Option Error) × SessionState → Type 0
  Received s x =
      x.0.1 ≡ none
      → (q : Raw) × (x.0.0 ≡ some (crypt_packet md5 s.config.secret q))
        × (s.incoming ≡ packet q ∷ x.1.incoming)
        × (x.1.config ≡ s.config)

  receive_packet :
      (s : SessionState) (i : Incoming)
      → (receive md5 s i).0.1 ≡ none
      → (q : Raw) × (i ≡ packet q)
        × (receive md5 s i ≡ ((some (crypt_packet md5 s.config.secret q), none), s))
  unfolding receive
  receive_packet s (packet q) e = elim (Option-cases (check_seq s q)) [
    | inl h ↦ (q, refl, ground (arith, h))
    | inr (x, h) ↦ absurd (ground (arith, h, e))
  ]
  receive_packet s closed_in e = absurd (cc e)
  receive_packet s (cancelled_in x) e = absurd (cc e)

  next_incoming-cons :
      (is : List Incoming) (q : Raw) → next_incoming is ≡ packet q → is ≡ packet q ∷ drop 1 is
  unfolding next_incoming
  next_incoming-cons [] q e = absurd (cc e)
  next_incoming-cons (i ∷ is) q e = ap (λ j. j ∷ is) e

  pub read_packet-Received : (s : SessionState) → Received s (read_packet md5 s)
  unfolding read_packet
  read_packet-Received s e =
      let (q, next, is) =
        receive_packet (record s { incoming = drop 1 s.incoming }) (next_incoming s.incoming) e in
      (
        q,
        ap (λ r. r.0.0) is,
        next_incoming-cons s.incoming q next
            ∙ ap (λ (r : (Option Raw × Option Error) × SessionState). packet q ∷ r.1.incoming)
                (sym is),
        ap (λ (r : (Option Raw × Option Error) × SessionState). r.1.config) is,
      )

  finish_write-Keeps :
      (s : SessionState) (p : Raw) (o : WriteOutcome)
      → (finish_write md5 s p o).0 ≡ none
      → Keeps s (finish_write md5 s p o).1
  unfolding finish_write
  finish_write-Keeps s p written e = (refl, refl)
  finish_write-Keeps s p (failed x) e = absurd (cc e)
  finish_write-Keeps s p (cancelled x) e = absurd (cc e)
  finish_write-Keeps s p (abandoned x) e = absurd (cc e)
  finish_write-Keeps s p session_done e = absurd (cc e)

  write_packet-Keeps :
      (s : SessionState) (p : Raw)
      → (write_packet md5 s p).0 ≡ none
      → Keeps s (write_packet md5 s p).1
  unfolding write_packet
  write_packet-Keeps s p e = elim (Bool-cases s.session.done) [
    | inl d ↦ absurd (ground (arith, d, e))
    | inr d ↦ rw d (finish_write-Keeps _ _ _ (rw d at e))
  ]

  pub write_server-Keeps :
      (s : ServerSession) (p : Raw)
      → (write_server md5 s p).0 ≡ none
      → Keeps s.state (write_server md5 s p).1.state
  unfolding write_server
  write_server-Keeps s p e = write_packet-Keeps s.state _ e
