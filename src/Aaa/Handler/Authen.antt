-- ===== src/Aaa/Handler/Authen.antt =====
-- HandleAuthenStart as a whole (pkg/client/tac_plus/handler.go).
use tacacs_plus_go.Tacplus.Server.{
  M, Run, ServerSession, get_pass, get_user, panicked, ret, stuck, ◌>>=◌,
}
use tacacs_plus_go.Base.{
  Bool-cases, List, Option, [], ap, arith, codes, inl, inr, none, refl, some, subst, sym, true, ℕ,
  ◌++◌, ◌∷◌, ◌≡◌, ◌≢◌, ◌⊎◌,
}
use tacacs_plus_go.Aaa.Handler.{
  AuthenInfo, World, ask_pass, ask_user, authen_fail, authen_pass, check_authen, finish_authen,
  handle_authen, log_authen, log_authen_info, prompt_fuel, prompt_loop, with_pass, with_user,
}
use tacacs_plus_go.Aaa.Handler.Heard.{Heard}
use tacacs_plus_go.Aaa.Handler.Prompts.{
  Asked, Returns, get_pass-Prompted, get_user-Prompted, prompt_loop-Asked, weaken-Returns,
}
use tacacs_plus_go.Aaa.Users.{Platform}
use tacacs_plus_go.Tacplus.Packet.AuthenReply.{AuthenReply}
use tacacs_plus_go.Tacplus.Packet.AuthenStart.{AuthenStart}

bind-Returns :
    {A B : Type 0} (P : A → ServerSession → World → Type 0) (Q : B → ServerSession → World → Type 0)
    (x : Run World A) (f : A → M World B) (s : ServerSession) (w : World)
    → Returns P x
    → ((a : A) (s' : ServerSession) (w' : World) → P a s' w' → Returns Q (f a s' w'))
    → Returns Q (((λ _ _. x) >>= f) s w)
bind-Returns P Q (ret a s' w') f s w h k = k a s' w' h
bind-Returns P Q (panicked s' w') f s w h k = absurd h
bind-Returns P Q stuck f s w h k = absurd h

-- A login that passed, from the session s to s': as the user that the packet names or, if it names
-- none, the one that the client answered, and then with the password that the client answered.
pub record Granted (md5 : List ℕ → List ℕ) (pf : Platform) (a : AuthenStart) (s : ServerSession)
    (w : World) (s' : ServerSession) : Type 0 where
  pub user : List ℕ
  pub pass : List ℕ
  pub between : ServerSession
  pub passed : (check_authen pf user pass w).0.0 ≡ true
  pub named :
      ((user ≡ a.user) × (between ≡ s)) ⊎ ((a.user ≡ []) × Heard md5 s.state between.state user)
  pub typed : Heard md5 between.state s'.state pass
  pub filled : (user ≢ []) × (pass ≢ [])

-- The reply and the log record of a login: a pass that was granted, or a failure.
abbrev pub Answered :
    (List ℕ → List ℕ)
    → Platform
    → AuthenStart
    → ServerSession
    → World
    → Option AuthenReply
    → ServerSession
    → World
    → Type 0
Answered md5 pf a s w r s' w' =
    (((r ≡ some authen_pass) × Granted md5 pf a s w s') ⊎ (r ≡ some authen_fail))
    × ((info : AuthenInfo) × (w'.log ≡ w.log ++ (log_authen info ∷ [])))

log_one :
    (info : AuthenInfo) (w w' : World)
    → w'.log ≡ w.log
    → (log_authen_info info w').log ≡ w.log ++ (log_authen info ∷ [])
unfolding log_authen_info
log_one info w w' e = rw e

-- The user: the one that the packet names, on the session as it is, or the one that was answered.
abbrev Named : (List ℕ → List ℕ) → List ℕ → ServerSession → List ℕ → ServerSession → Type 0
Named md5 given s user s' =
    (user ≢ []) × (((user ≡ given) × (s' ≡ s)) ⊎ ((given ≡ []) × Heard md5 s.state s'.state user))

abbrev AskedUser :
    (List ℕ → List ℕ)
    → List ℕ
    → ServerSession
    → World
    → Option (List ℕ)
    → ServerSession
    → World
    → Type 0
AskedUser md5 given s w none s' w' = w' ≡ w
AskedUser md5 given s w (some user) s' w' = (w' ≡ w) × Named md5 given s user s'

module _ (pf : Platform) where
  check_authen-log : (user pass : List ℕ) (w : World) → (check_authen pf user pass w).1.log ≡ w.log
  unfolding check_authen
  check_authen-log user pass w = ground arith

  module _ (md5 : List ℕ → List ℕ) (a : AuthenStart) (s : ServerSession) (w : World) where
    finish_authen-Answered :
        (info : AuthenInfo) (user pass : List ℕ) (s1 s' : ServerSession)
        → Named md5 a.user s user s1
        → pass ≢ []
        → Heard md5 s1.state s'.state pass
        → Returns (Answered md5 pf a s w) (finish_authen pf info user pass s' w)
    unfolding finish_authen
    finish_authen-Answered info user pass s1 s' (some_user, named) filled typed = (
      elim (Bool-cases (check_authen pf user pass w).0.0) [
        | inl t ↦ inl (
          rw t,
          record {
            user = user;
            pass = pass;
            between = s1;
            passed = t;
            named = named;
            typed = typed;
            filled = (some_user, filled);
          },
        )
        | inr t ↦ inr (rw t)
      ],
      (_, log_one _ w _ (check_authen-log user pass w)),
    )

    with_pass-Answered :
        (info : AuthenInfo) (user : List ℕ) (p : Option (List ℕ)) (s1 s' : ServerSession)
        (w' : World)
        → Named md5 a.user s user s1
        → Asked md5 s1 w p s' w'
        → Returns (Answered md5 pf a s w) (with_pass pf info user p s' w')
    unfolding with_pass
    with_pass-Answered info user none s1 s' w' named same =
        (inr refl, (_, log_one _ w w' (ap (λ (v : World). v.log) same)))
    with_pass-Answered info user (some pass) s1 s' w' named (same, filled, typed) =
        subst (λ v. Returns (Answered md5 pf a s w) (finish_authen pf info user pass s' v))
          (sym same) (finish_authen-Answered info user pass s1 s' named filled typed)

    with_user-Answered :
        (info : AuthenInfo) (u : Option (List ℕ)) (s1 : ServerSession) (w' : World)
        → AskedUser md5 a.user s w u s1 w'
        → Returns (Answered md5 pf a s w) (with_user md5 pf info u s1 w')
    unfolding with_user ask_pass
    with_user-Answered info none s1 w' same =
        (inr refl, (_, log_one _ w w' (ap (λ (v : World). v.log) same)))
    with_user-Answered info (some user) s1 w' (same, named) =
        bind-Returns (Asked md5 s1 w) (Answered md5 pf a s w) _ (with_pass pf info user) s1 w'
          (subst
            (λ v.
              Returns (Asked md5 s1 w)
                (prompt_loop prompt_fuel 0 (get_pass md5 (codes "Password:")) s1 v))
            (sym same)
            (prompt_loop-Asked md5 (get_pass md5 (codes "Password:")) (get_pass-Prompted md5)
              prompt_fuel 0 s1 w (omega arith) (omega arith)))
          λ p s' v asked. with_pass-Answered info user p s1 s' v named asked

  module _ (md5 : List ℕ → List ℕ) where
    asked_user :
        (s : ServerSession) (w : World) (u : Option (List ℕ)) (s' : ServerSession) (w' : World)
        → Asked md5 s w u s' w'
        → AskedUser md5 [] s w u s' w'
    asked_user s w none s' w' h = h
    asked_user s w (some user) s' w' (same, filled, heard) = (same, (filled, inr (refl, heard)))

    ask_user-AskedUser :
        (user : List ℕ) (s : ServerSession) (w : World)
        → Returns (AskedUser md5 user s w) (ask_user md5 user s w)
    unfolding ask_user
    ask_user-AskedUser [] s w =
        weaken-Returns (Asked md5 s w) (AskedUser md5 [] s w) _
          (prompt_loop-Asked md5 (get_user md5 (codes "User:")) (get_user-Prompted md5) prompt_fuel
            0 s w (omega arith) (omega arith))
          (asked_user s w)
    ask_user-AskedUser (c ∷ cs) s w = (refl, ((λ e. cc e), inl (refl, refl)))

    -- HandleAuthenStart ends on every packet, session and state, whatever the client answers: it
    -- returns a pass or a failure and logs one record. It returns a pass only for a user and a
    -- password, neither of them empty, that pass the check: the user is the packet's or, if the
    -- packet names none, the text of an answer of the client that does not abort, and the password
    -- is the text of the last packet that the handler takes from the session, such an answer too.
    pub handle_authen-Answered :
        (a : AuthenStart) (s : ServerSession) (w : World)
        → Returns (Answered md5 pf a s w) (handle_authen md5 pf a s w)
    unfolding handle_authen
    handle_authen-Answered a s w =
        bind-Returns (AskedUser md5 a.user s w) (Answered md5 pf a s w) _ _ s w
          (ask_user-AskedUser a.user s w)
          λ u s1 w' asked. with_user-Answered md5 a s w _ u s1 w' asked
