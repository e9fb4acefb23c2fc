-- ===== src/Aaa/Handler.antt =====
-- pkg/client/tac_plus/handler.go: the RequestHandler of the program, over the snapshot and the caches
-- of user.go. The records handed to LogAuthen, LogAuthor and LogAccount are kept in order; their
-- times, the host's name and the JSON that log.go makes of them are left out.
pub mod Decisions
pub mod Heard
pub mod Prompts
pub mod Authen
pub mod Hangup
use tacacs_plus_go.Tacplus.Server.{
  M, RequestHandler, Run, get_pass, get_user, is_single_connect, panicked, pure, ret, stuck, ◌>>=◌,
}
use tacacs_plus_go.Aaa.Users.{
  CmdCache, PasswordCache, Platform, UserInfo, check_cmd_and_server_in_role, check_user_password,
}
use tacacs_plus_go.Aaa.Command.{acct_cmd, author_cmd}
use tacacs_plus_go.Base.{
  Bool, List, Option, Result, [], codes, err, false, get, if◌then◌else◌, ltb, none, not, ok, panic,
  some, suc, true, zero, ℕ, ◌++◌, ◌+◌, ◌||◌, ◌∷◌,
}
use tacacs_plus_go.Tacplus.Packet.AuthenStart.{AuthenStart}
use tacacs_plus_go.Tacplus.Packet.AuthenReply.{AuthenReply}
use tacacs_plus_go.Tacplus.Packet.AuthenContinue.{AuthenContinue}
use tacacs_plus_go.Tacplus.Packet.AuthorRequest.{AuthorRequest}
use tacacs_plus_go.Tacplus.Packet.AuthorResponse.{AuthorResponse}
use tacacs_plus_go.Tacplus.Packet.AcctRequest.{AcctRequest}
use tacacs_plus_go.Tacplus.Packet.AcctReply.{AcctReply}

pub record AuthenInfo : Type 0 where
  pub user : List ℕ
  pub switch_addr : List ℕ
  pub server_addr : List ℕ
  pub authen_status : List ℕ
  pub details : List ℕ
  pub is_single : Bool

pub record AuthorInfo : Type 0 where
  pub user : List ℕ
  pub switch_addr : List ℕ
  pub server_addr : List ℕ
  pub author_status : List ℕ
  pub details : List ℕ
  pub cmd : List ℕ
  pub is_single : Bool

pub record AccountInfo : Type 0 where
  pub request : AcctRequest
  pub switch_addr : List ℕ
  pub cmd : List ℕ
  pub is_single : Bool

pub data LogEntry : Type 0 where
  log_authen : AuthenInfo → LogEntry
  log_author : AuthorInfo → LogEntry
  log_account : AccountInfo → LogEntry

-- `switch_ip` is getSwitchIp(s.RemoteAddr()).
pub record World : Type 0 where
  pub users : List (List ℕ × UserInfo)
  pub passwords : PasswordCache
  pub cmds : CmdCache
  pub switch_ip : List ℕ
  pub log : List LogEntry

abbrev reply_status : ℕ → AuthenReply
reply_status n = record { status = n; no_echo = false; server_msg = []; data_bytes = [] }

abbrev pub authen_pass : AuthenReply
authen_pass = reply_status 0x1

abbrev pub authen_fail : AuthenReply
authen_fail = reply_status 0x2

unfoldable pub wrong_password : List ℕ → List ℕ
wrong_password pass = codes "password is wrong, inputPass:'" ++ (pass ++ codes "'")

-- One prompt: `none` gives up, and `some []` asks again.
unfoldable pub prompt_answer : ℕ → Result AuthenContinue → M World (Option (List ℕ))
prompt_answer num (ok c) s w =
    if c.abort || ltb 5 num then ret none s w else ret (some c.message) s w
prompt_answer num (err e) s w = ret none s w
prompt_answer num panic s w = panicked s w

unfoldable pub after_prompt :
    Run World (Option (List ℕ)) → M World (Option (List ℕ)) → Run World (Option (List ℕ))
after_prompt (ret none s w) again = ret none s w
after_prompt (ret (some []) s w) again = again s w
after_prompt (ret (some (c ∷ cs)) s w) again = ret (some (c ∷ cs)) s w
after_prompt (panicked s w) again = panicked s w
after_prompt stuck again = stuck

-- for user == "" { getUserNum++; ... }, where `num` counts the prompts made.
unfoldable pub prompt_loop : ℕ → ℕ → M World (Result AuthenContinue) → M World (Option (List ℕ))
prompt_loop zero num ask s w = stuck
prompt_loop (suc fuel) num ask s w =
    after_prompt ((ask >>= prompt_answer (num + 1)) s w) (prompt_loop fuel (num + 1) ask)

-- The sixth prompt gives up whatever it returns, so that seven rounds are enough.
abbrev pub prompt_fuel : ℕ
prompt_fuel = 7

unfoldable pub log_authen_info : AuthenInfo → World → World
log_authen_info info w = record w { log = w.log ++ (log_authen info ∷ []) }

unfoldable pub handle_acct : AcctRequest → M World (Option AcctReply)
handle_acct a s w =
    let info : AccountInfo = record {
      request = a;
      switch_addr = w.switch_ip;
      cmd = acct_cmd a.arg;
      is_single = is_single_connect s;
    } in
    ret (some (record { status = 0x1; server_msg = []; data_bytes = [] })) s
      (record w { log = w.log ++ (log_account info ∷ []) })

module _ (md5 : List ℕ → List ℕ) where
  unfoldable pub ask_user : List ℕ → M World (Option (List ℕ))
  ask_user [] = prompt_loop prompt_fuel 0 (get_user md5 (codes "User:"))
  ask_user (c ∷ cs) = pure (some (c ∷ cs))

  unfoldable pub ask_pass : M World (Option (List ℕ))
  ask_pass = prompt_loop prompt_fuel 0 (get_pass md5 (codes "Password:"))

module _ (pf : Platform) where
  -- The user exists, the password is right, and the user is on duty or has a role.
  unfoldable pub check_authen : List ℕ → List ℕ → World → (Bool × List ℕ) × World
  check_authen user pass w = elim (get user w.users) [
    | none ↦ ((false, codes "User does not exist"), w)
    | some info ↦
        let (good, passwords) = check_user_password pf pass info.password w.passwords in
        let w' : World = record w { passwords = passwords } in
        if not good
        then ((false, wrong_password pass), w')
        else if info.is_on_duty
        then ((true, codes "isOnDuty"), w')
        else elim info.role [
          | [] ↦ ((false, codes "User role is null"), w')
          | role ∷ roles ↦ ((true, codes "User role is pass"), w')
        ]
  ]

  unfoldable pub finish_authen : AuthenInfo → List ℕ → List ℕ → M World (Option AuthenReply)
  finish_authen info user pass s w =
      let ((is_pass, detail), w') = check_authen user pass w in
      let info' : AuthenInfo = record info {
        user = user;
        authen_status = if is_pass then codes "pass" else codes "noPass";
        details = detail;
      } in
      ret (some (if is_pass then authen_pass else authen_fail)) s (log_authen_info info' w')

  unfoldable pub with_pass : AuthenInfo → List ℕ → Option (List ℕ) → M World (Option AuthenReply)
  with_pass info user none s w =
      let info' : AuthenInfo = record info {
        user = user;
        authen_status = codes "getPassError";
        details = codes "Get User Password Num Exceed 5";
      } in
      ret (some authen_fail) s (log_authen_info info' w)
  with_pass info user (some pass) s w = finish_authen info user pass s w

  -- The status, the detail and the arguments of an authorization, and the caches behind it.
  unfoldable pub check_author :
      List ℕ → List ℕ → List ℕ → World → (Bool × List ℕ × List (List ℕ)) × World
  check_author user cmd server w = elim (get user w.users) [
    | none ↦ ((false, codes "User does not exist", []), w)
    | some info ↦
        if info.is_on_duty
        then ((true, codes "isOnDuty", info.args), w)
        else let (r, cmds) =
            check_cmd_and_server_in_role pf cmd server info.roles_key info.role w.cmds in
          ((r.is_pass, r.reason, info.args), record w { cmds = cmds })
  ]

  unfoldable pub handle_author : AuthorRequest → M World (Option AuthorResponse)
  handle_author a s w =
      let cmd = author_cmd a.arg in
      let ((is_pass, detail, user_args), w') = check_author a.user cmd a.rem_addr w in
      let info : AuthorInfo = record {
        user = a.user;
        switch_addr = w.switch_ip;
        server_addr = a.rem_addr;
        author_status = if is_pass then codes "pass" else codes "noPass";
        details = detail;
        cmd = cmd;
        is_single = is_single_connect s;
      } in
      ret
        (some (
          if is_pass
          then record { status = 0x1; arg = user_args; server_msg = []; data_bytes = [] }
          else record { status = 0x10; arg = []; server_msg = []; data_bytes = [] }))
        s (record w' { log = w'.log ++ (log_author info ∷ []) })

module _ (md5 : List ℕ → List ℕ) (pf : Platform) where
  unfoldable pub with_user : AuthenInfo → Option (List ℕ) → M World (Option AuthenReply)
  unfolding with_pass
  with_user info none s w =
      let info' : AuthenInfo = record info {
        authen_status = codes "getUserError";
        details = codes "Get User Num Exceed 5";
      } in
      ret (some authen_fail) s (log_authen_info info' w)
  with_user info (some user) s w = (ask_pass md5 >>= with_pass pf info user) s w

  unfoldable pub handle_authen : AuthenStart → M World (Option AuthenReply)
  unfolding with_user
  handle_authen a s w =
      let info : AuthenInfo = record {
        user = a.user;
        switch_addr = w.switch_ip;
        server_addr = a.rem_addr;
        authen_status = [];
        details = [];
        is_single = is_single_connect s;
      } in
      (ask_user md5 a.user >>= with_user info) s w

  abbrev pub my_handler : RequestHandler World
  my_handler = record {
    authen_start = handle_authen;
    author_request = handle_author pf;
    acct_request = handle_acct;
  }
