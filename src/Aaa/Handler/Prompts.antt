-- ===== src/Aaa/Handler/Prompts.antt =====
-- The interactive prompts of HandleAuthenStart (pkg/client/tac_plus/handler.go), over sendReply of
-- pkg/public/tacplus/server.go.
use tacacs_plus_go.Aaa.Handler.Heard.{
  Heard, Keeps, Reads, Received, read_packet-Received, write_server-Keeps,
}
use tacacs_plus_go.Tacplus.Server.{
  M, Run, ServerSession, close, get_pass, get_user, panicked, read_continue, ret, send_error,
  send_reply, stuck, written_reply, ◌>>=◌,
}
use tacacs_plus_go.Base.{
  Bool-cases, Decodes-cases, Error, List, Option, Option-cases, Result, [], ap, arith, bad_packet,
  codes, err, false, inl, inr, ltb, none, ok, panic, refl, some, subst, suc, sym, zero, ℕ, ◌+◌, ◌<◌,
  ◌||◌, ◌∙◌, ◌∷◌, ◌≡◌, ◌≢◌, ◌≤◌,
}
use tacacs_plus_go.Tacplus.Crypt.{Raw}
use tacacs_plus_go.Tacplus.Session.{ConnConfig, SessionState, crypt_packet, packet, read_packet}
use tacacs_plus_go.Aaa.Handler.{World, after_prompt, prompt_answer, prompt_loop}
use mathlib.Core.Option.{some-injective}
use tacacs_plus_go.Tacplus.Packet.AuthenContinue
use tacacs_plus_go.Tacplus.Packet.AuthenReply
use tacacs_plus_go.Tacplus.Packet.AuthenContinue.{AuthenContinue}
use tacacs_plus_go.Tacplus.Packet.AuthenReply.{AuthenReply}

-- A run that ends with a value, and neither in a panic nor out of fuel.
abbrev pub Returns : {A : Type 0} → (A → ServerSession → World → Type 0) → Run World A → Type 0
Returns P (ret a s w) = P a s w
Returns P (panicked s w) = ⊥
Returns P stuck = ⊥

pub weaken-Returns :
    {A : Type 0} (P Q : A → ServerSession → World → Type 0) (x : Run World A)
    → Returns P x
    → ((a : A) (s : ServerSession) (w : World) → P a s w → Q a s w)
    → Returns Q x
weaken-Returns P Q (ret a s w) h k = k a s w h
weaken-Returns P Q (panicked s w) h k = h
weaken-Returns P Q stuck h k = h

-- What a prompt leaves: an answer that has been read, or an error and no last packet.
abbrev pub Prompted :
    (List ℕ → List ℕ)
    → ServerSession
    → World
    → Result AuthenContinue
    → ServerSession
    → World
    → Type 0
Prompted md5 s w (ok c) s' w' = (w' ≡ w) × Reads md5 s.state s'.state c
Prompted md5 s w (err e) s' w' = (w' ≡ w) × (s'.p ≡ none)
Prompted md5 s w panic s' w' = ⊥

-- What the prompt loop returns: nothing, or a text that is not empty and that the client answered.
abbrev pub Asked :
    (List ℕ → List ℕ) → ServerSession → World → Option (List ℕ) → ServerSession → World → Type 0
Asked md5 s w none s' w' = w' ≡ w
Asked md5 s w (some t) s' w' = (w' ≡ w) × (t ≢ []) × Heard md5 s.state s'.state t

module _ (md5 : List ℕ → List ℕ) where
  send_error-p : (s : ServerSession) (e : Error) → (send_error md5 s e).p ≡ none
  unfolding send_error close
  send_error-p s e = elim (Option-cases s.p) [
    | inl h ↦ rw (h, send_error) h
    | inr (p, h) ↦ rw (h, send_error)
  ]

  Reads-Heard :
      (s s' : SessionState) (c : AuthenContinue)
      → Reads md5 s s' c
      → c.abort ≡ false
      → Heard md5 s s' c.message
  Reads-Heard s s' c r stays = record {
    before = [];
    p = r.p;
    taken = r.taken;
    config = r.config;
    said = c;
    decoded = r.decoded;
    stays = stays;
    says = refl;
  }

  Reads-Asked :
      (s s1 : ServerSession) (c : AuthenContinue) (w : World) (t : Option (List ℕ))
      (s' : ServerSession) (w' : World)
      → Reads md5 s.state s1.state c
      → Asked md5 s1 w t s' w'
      → Asked md5 s w t s' w'
  Reads-Asked s s1 c w none s' w' r h = h
  Reads-Asked s s1 c w (some t) s' w' r (same, filled, h) = (
    same,
    filled,
    record {
      before = packet r.p ∷ h.before;
      p = h.p;
      taken = r.taken ∙ ap (λ is. packet r.p ∷ is) h.taken;
      config = h.config ∙ r.config;
      said = h.said;
      decoded =
          subst (λ g. AuthenContinue.unmarshal (crypt_packet md5 g.secret h.p).body ≡ ok h.said)
            r.config h.decoded;
      stays = h.stays;
      says = h.says;
    },
  )

  read_continue-Prompted :
      (x : (Option Raw × Option Error) × SessionState) (s0 s : ServerSession) (w : World)
      → Received md5 s0.state x
      → Returns (Prompted md5 s0 w) (read_continue md5 x s w)
  unfolding read_continue
  read_continue-Prompted ((p, some e), state) s0 s w h = (refl, send_error-p _ e)
  read_continue-Prompted ((none, none), state) s0 s w h = absurd (cc (h refl).1)
  read_continue-Prompted ((some p, none), state) s0 s w h =
      let (q, is, taken, config) = h refl in
      elim (Decodes-cases (AuthenContinue.unmarshal p.body)
        (AuthenContinue.unmarshal-Decodes p.body)) [
          | inl (c, e) ↦
              rw (e, Returns, read_continue)
                (
                  refl,
                  record {
                    p = q;
                    taken = taken;
                    config = config;
                    decoded =
                        ap (λ (t : Raw). AuthenContinue.unmarshal t.body)
                          (sym (some-injective p _ is))
                        ∙ e;
                  },
                )
          | inr e ↦ rw (e, Returns, read_continue) (refl, send_error-p _ bad_packet)
        ]

  written_reply-Prompted :
      (x : Option Error × ServerSession) (s0 s : ServerSession) (w : World)
      → (x.0 ≡ none → Keeps s0.state x.1.state)
      → Returns (Prompted md5 s0 w) (written_reply md5 x s w)
  unfolding written_reply close
  written_reply-Prompted (some e, s') s0 s w k = (refl, refl)
  written_reply-Prompted (none, s') s0 s w k =
      let (queue, config) = k refl in
      read_continue-Prompted (read_packet md5 s'.state) s0 s' w λ e.
        let (q, is, taken, same) = read_packet-Received md5 s'.state e in
        (
          q,
          is ∙ ap (λ (g : ConnConfig). some (crypt_packet md5 g.secret q)) config,
          sym queue ∙ taken,
          same ∙ config,
        )

  -- A prompt whose text fits ends with an answer, or with an error and no last packet; it leaves the
  -- handler's state alone.
  pub send_reply-Prompted :
      (r : AuthenReply) (s : ServerSession) (w : World)
      → (AuthenReply.marshal r []).1 ≡ none
      → Returns (Prompted md5 s w) (send_reply md5 r s w)
  unfolding send_reply
  send_reply-Prompted r s w m = elim (Option-cases s.p) [
    | inl h ↦ rw (h, Returns, send_reply) (refl, h)
    | inr (p, h) ↦
        rw (h, m, Returns, send_reply) (written_reply-Prompted _ s s w (write_server-Keeps md5 s _))
  ]

  pub get_user-Prompted :
      (s : ServerSession) (w : World)
      → Returns (Prompted md5 s w) (get_user md5 (codes "User:") s w)
  unfolding get_user AuthenReply.marshal
  get_user-Prompted s w = send_reply-Prompted _ s w refl

  pub get_pass-Prompted :
      (s : ServerSession) (w : World)
      → Returns (Prompted md5 s w) (get_pass md5 (codes "Password:") s w)
  unfolding get_pass AuthenReply.marshal
  get_pass-Prompted s w = send_reply-Prompted _ s w refl

  answer-Asked :
      (message : List ℕ) (w : World) (s s' : ServerSession) (w' : World)
      (again : M World (Option (List ℕ))) (c : AuthenContinue)
      → w' ≡ w
      → Reads md5 s.state s'.state c
      → Heard md5 s.state s'.state message
      → ((s : ServerSession) → Returns (Asked md5 s w) (again s w))
      → Returns (Asked md5 s w) (after_prompt (ret (some message) s' w') again)
  unfolding after_prompt
  answer-Asked [] w s s' w' again c same r heard h =
      subst (λ v. Returns (Asked md5 s w) (again s' v)) (sym same)
        (weaken-Returns (Asked md5 s' w) (Asked md5 s w) (again s' w) (h s')
          (λ t s2 w2. Reads-Asked s s' c w t s2 w2 r))
  answer-Asked (x ∷ xs) w s s' w' again c same r heard h = (same, (λ e. cc e), heard)

  round-Asked :
      (num : ℕ) (x : Run World (Result AuthenContinue)) (s : ServerSession) (w : World)
      (again : M World (Option (List ℕ)))
      → Returns (Prompted md5 s w) x
      → (num ≤ 5 → (s : ServerSession) → Returns (Asked md5 s w) (again s w))
      → Returns (Asked md5 s w) (after_prompt (((λ _ _. x) >>= prompt_answer num) s w) again)
  unfolding prompt_answer
  round-Asked num (ret (ok c) s' w') s w again (same, r) next =
      elim (Bool-cases (c.abort || ltb 5 num)) [
        | inl t ↦ rw t (unfold after_prompt in same)
        | inr t ↦
            let heard = Reads-Heard s.state s'.state c r (ground (arith, t)) in
            rw t (answer-Asked c.message w s s' w' again c same r heard (next (ground (arith, t))))
      ]
  round-Asked num (ret (err e) s' w') s w again h next = unfold after_prompt in h.0
  round-Asked num (ret panic s' w') s w again h next = absurd h
  round-Asked num (panicked s' w') s w again h next = absurd h
  round-Asked num stuck s w again h next = absurd h

  -- The loop makes six prompts at most, so that there is always fuel for the prompts left.
  pub prompt_loop-Asked :
      (ask : M World (Result AuthenContinue))
      → ((s : ServerSession) (w : World) → Returns (Prompted md5 s w) (ask s w))
      → (fuel num : ℕ) (s : ServerSession) (w : World) → 6 < num + fuel
      → num ≤ 5
      → Returns (Asked md5 s w) (prompt_loop fuel num ask s w)
  unfolding prompt_loop
  prompt_loop-Asked ask h zero num s w enough n = absurd (omega arith)
  prompt_loop-Asked ask h (suc fuel) num s w enough n =
      round-Asked (num + 1) (ask s w) s w (prompt_loop fuel (num + 1) ask) (h s w)
        λ m s'. prompt_loop-Asked ask h fuel (num + 1) s' w (omega arith) m
