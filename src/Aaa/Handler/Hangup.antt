-- ===== src/Aaa/Handler/Hangup.antt =====
-- What becomes of a login whose client goes away during a prompt (pkg/client/tac_plus/handler.go and
-- pkg/public/tacplus/server.go).
use tacacs_plus_go.Tacplus.Packet.AuthenContinue.{AuthenContinue}
use tacacs_plus_go.Aaa.Handler.Prompts.{Prompted, Returns, get_user-Prompted}
use tacacs_plus_go.Aaa.Handler.{
  AuthenInfo, World, after_prompt, ask_user, authen_fail, handle_authen, log_authen_info,
  my_handler, prompt_answer, prompt_loop, with_user,
}
use tacacs_plus_go.Tacplus.Dispatch.{
  deferred, dispatch, handle_authen_start, marshal_reply, serve_first, serve_session,
}
use tacacs_plus_go.Tacplus.Server.{
  M, ServerSession, close, get_user, is_single_connect, panicked, ret,
}
use tacacs_plus_go.Aaa.Users.{Platform}
use tacacs_plus_go.Tacplus.Session.{SessionState, read_packet}
use tacacs_plus_go.Tacplus.Crypt.{Raw}
use tacacs_plus_go.Base.{
  Error, List, Result, [], arith, codes, err, none, ok, some, subst, suc, ℕ, ◌∷◌, ◌≡◌,
}
use tacacs_plus_go.Tacplus.Packet.AuthenStart
use tacacs_plus_go.Tacplus.Packet.AuthenStart.{AuthenStart}

module _ (md5 : List ℕ → List ℕ) (pf : Platform) where
  prompt_loop_fails :
      (fuel num : ℕ) (ask : M World (Result AuthenContinue)) (s s' : ServerSession) (w : World)
      (e : Error)
      → ask s w ≡ ret (err e) s' w
      → prompt_loop (suc fuel) num ask s w ≡ ret none s' w
  unfolding prompt_loop prompt_answer after_prompt
  prompt_loop_fails fuel num ask s s' w e h = ground (arith, h)

  ask_user_fails :
      (user : List ℕ) (s s' : ServerSession) (w : World) (e : Error)
      → user ≡ []
      → get_user md5 (codes "User:") s w ≡ ret (err e) s' w
      → ask_user md5 user s w ≡ ret none s' w
  unfolding ask_user
  ask_user_fails [] s s' w e nobody h =
      prompt_loop_fails 6 0 (get_user md5 (codes "User:")) s s' w e h
  ask_user_fails (c ∷ cs) s s' w e nobody h = absurd (cc nobody)

  -- The log record of a login that gives up at the first prompt.
  abbrev pub gave_up : AuthenStart → ServerSession → World → AuthenInfo
  gave_up a s w = record {
    user = a.user;
    switch_addr = w.switch_ip;
    server_addr = a.rem_addr;
    authen_status = codes "getUserError";
    details = codes "Get User Num Exceed 5";
    is_single = is_single_connect s;
  }

  -- The handler answers a failed prompt with a failure, though the session has no packet left.
  handle_authen_hangup :
      (a : AuthenStart) (s s' : ServerSession) (w : World) (e : Error)
      → a.user ≡ []
      → get_user md5 (codes "User:") s w ≡ ret (err e) s' w
      → handle_authen md5 pf a s w ≡ ret (some authen_fail) s' (log_authen_info (gave_up a s w) w)
  unfolding handle_authen with_user
  handle_authen_hangup a s s' w e nobody h = ground (arith, ask_user_fails a.user s s' w e nobody h)

  no_packet :
      (s s' : ServerSession) (w : World) (e : Error)
      → get_user md5 (codes "User:") s w ≡ ret (err e) s' w
      → s'.p ≡ none
  no_packet s s' w e h = (subst (Returns (Prompted md5 s w)) h (get_user-Prompted md5 s w)).1

  -- Where a login names no user and the prompt for one fails, whatever the reason, the handler's
  -- failure reply is marshalled into the header of a packet that is gone: the session's goroutine
  -- panics, which its deferred functions recover from, and it closes the session.
  pub serve_session_hangup :
      (state state1 : SessionState) (p : Raw) (a : AuthenStart) (s' : ServerSession) (w : World)
      (e : Error)
      → read_packet md5 state ≡ ((some p, none), state1)
      → p.typ ≡ 1
      → AuthenStart.unmarshal p.body ≡ ok a
      → p.version ≡ AuthenStart.version a
      → a.user ≡ []
      → get_user md5 (codes "User:") (record { state = state1; p = some p }) w ≡ ret (err e) s' w
      → serve_session (my_handler md5 pf) md5 state w
        ≡ panicked
            (close s')
            (log_authen_info (gave_up a (record { state = state1; p = some p }) w) w)
  unfolding serve_session serve_first deferred dispatch handle_authen_start marshal_reply
  serve_session_hangup state state1 p a s' w e read typ decoded version nobody h =
      let s : ServerSession = record { state = state1; p = some p } in
      ground (arith, handle_authen_hangup a s s' w e nobody h, no_packet s s' w e h)
