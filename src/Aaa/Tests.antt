-- ===== src/Aaa/Tests.antt =====
-- Runs of pkg/client/tac_plus on a concrete user, role and connection.
use tacacs_plus_go.Base.{
  List, [], arith, bytes_eq, codes, err, false, get, none, not, refl, session_closed, some, subst,
  true, ℕ, ◌++◌, ◌↔◌, ◌∷◌, ◌≡◌,
}
use tacacs_plus_go.Aaa.Users.{
  Platform, RoleAcl, UserInfo, check_cmd_and_server_in_role, check_roles, check_user_password,
  is_empty,
}
use tacacs_plus_go.Aaa.Users.Permission.{Verdict, check_roles-Verdict}
use tacacs_plus_go.Aaa.Users.Cache.{
  IsCoherent, IsLine, SameVerdict, check_cmd_and_server_in_role-coherent, cmd_key_collision,
}
use tacacs_plus_go.Aaa.Users.Passwords.{IsRightCache, check_user_password-right}
use tacacs_plus_go.Aaa.Handler.{
  World, check_authen, check_author, handle_authen, log_authen_info, my_handler,
}
use tacacs_plus_go.Aaa.Handler.Decisions.{
  IsSound, MayLogin, MayRun, check_authen_iff, check_author_iff,
}
use tacacs_plus_go.Aaa.Handler.Prompts.{Returns}
use tacacs_plus_go.Aaa.Handler.Authen.{Answered, handle_authen-Answered}
use tacacs_plus_go.Aaa.Handler.Hangup.{gave_up, serve_session_hangup}
use tacacs_plus_go.Tacplus.Crypt.{Raw, crypt, crypt_loop, xor_bytes}
use tacacs_plus_go.Tacplus.Session.{
  SessionState, check_seq, crypt_packet, finish_write, next_incoming, next_outcome, outgoing,
  packet, read_err, read_packet, receive, write_packet, written,
}
use tacacs_plus_go.Tacplus.Dispatch.{serve_session}
use tacacs_plus_go.Tacplus.Server.{
  ServerSession, close, get_user, panicked, read_continue, reply_flags, ret, send_error, send_reply,
  write_server, written_reply,
}
use tacacs_plus_go.Tacplus.Packet.AuthenStart.{AuthenStart}
use tacacs_plus_go.Tacplus.Packet.AuthenReply.{AuthenReply}
use tacacs_plus_go.Tacplus.Packet.AuthenStart
use tacacs_plus_go.Tacplus.Packet.AuthenReply
use tacacs_plus_go.Tacplus.Wire.{byte, bytes}

-- Patterns, networks and hashes that stand for themselves.
abbrev pub literal : Platform
literal = record {
  compiles = λ p. true;
  match_string = bytes_eq;
  is_ip = λ s. not (is_empty s);
  is_cidr = λ s. true;
  contains = bytes_eq;
  trim_space = λ s. s;
  check_password_hash = bytes_eq;
}

abbrev pub operator : RoleAcl
operator = record {
  role_name = codes "operator";
  permit_cmds = codes "show" ∷ [];
  ips = codes "10.0.0.1" ∷ [];
  ip_nets = [];
}

abbrev alice : UserInfo
alice = record {
  is_on_duty = false;
  role = operator ∷ [];
  roles_key = codes "1";
  password = codes "pw";
  args = [];
}

abbrev catalog : List ℕ → List RoleAcl
catalog key = operator ∷ []

abbrev pub world : World
world = record {
  users = (codes "alice", alice) ∷ [];
  passwords = [];
  cmds = [];
  switch_ip = codes "10.0.0.1";
  log = [];
}

only_alice : (user : List ℕ) (info : UserInfo) → get user world.users ≡ some info → alice ≡ info
unfolding get
only_alice user info e = ground (arith, e)

pub pw-IsLine : IsLine (codes "pw")
pw-IsLine = (λ e. omega arith, (λ e. omega arith, tt))

no_password-IsRightCache : IsRightCache literal []
unfolding get
no_password-IsRightCache k v e = absurd (cc e)

pub world-IsSound : IsSound literal catalog world
unfolding get
world-IsSound = record {
  passwords_right = no_password-IsRightCache;
  cmds_coherent = λ k r e. absurd (cc e);
  hash_line =
      λ user info e. subst (λ (i : UserInfo). IsLine i.password) (only_alice user info e) pw-IsLine;
  same_roles = λ user info e.
      subst (λ (i : UserInfo). SameVerdict literal i.role (catalog i.roles_key))
        (only_alice user info e) (λ c s. refl);
}

show-IsLine : IsLine (codes "show")
show-IsLine = (λ e. omega arith, (λ e. omega arith, (λ e. omega arith, (λ e. omega arith, tt))))

server-IsLine : IsLine (codes "::1")
server-IsLine = (λ e. omega arith, (λ e. omega arith, (λ e. omega arith, tt)))

check_roles-Verdict_example :
    Verdict literal
      (codes "show")
      (codes "::1")
      (operator ∷ [])
      (check_roles literal (codes "show") (codes "::1") (operator ∷ []))
check_roles-Verdict_example =
    check_roles-Verdict literal (codes "show") (codes "::1") (operator ∷ [])

check_cmd_and_server_in_role-coherent_example :
    let out =
      check_cmd_and_server_in_role literal
        (codes "show")
        (codes "::1")
        (codes "1")
        (operator ∷ [])
        [] in
    (out.0.is_pass ≡ (check_roles literal (codes "show") (codes "::1") (operator ∷ [])).is_pass)
    × IsCoherent literal catalog out.1
check_cmd_and_server_in_role-coherent_example =
    check_cmd_and_server_in_role-coherent literal catalog (codes "show") (codes "::1") (codes "1")
      (operator ∷ []) [] show-IsLine server-IsLine (λ c s. refl) world-IsSound.cmds_coherent

-- The refused "show\nx" on "y" makes "show" on "x\ny" refused, though the role permits that.
cmd_key_collision_example :
    let out =
      check_cmd_and_server_in_role literal
        (codes "show" ++ (10 ∷ codes "x"))
        (codes "y")
        (codes "1")
        (operator ∷ [])
        [] in
    (check_cmd_and_server_in_role literal
      (codes "show")
      (codes "x" ++ (10 ∷ codes "y"))
      (codes "1")
      (record operator { ips = codes "x\ny" ∷ [] } ∷ [])
      out.1).0
    ≡ check_roles literal (codes "show" ++ (10 ∷ codes "x")) (codes "y") (operator ∷ [])
cmd_key_collision_example =
    cmd_key_collision literal (codes "show") (codes "x") (codes "y") (codes "1") operator
      (record operator { ips = codes "x\ny" ∷ [] }) [] []

check_user_password-right_example :
    let out = check_user_password literal (codes "guess") (codes "pw") [] in
    (out.0 ≡ bytes_eq (codes "guess") (codes "pw")) × IsRightCache literal out.1
check_user_password-right_example =
    check_user_password-right literal (codes "guess") (codes "pw") [] pw-IsLine
      no_password-IsRightCache

check_authen_iff_example :
    ((check_authen literal (codes "alice") (codes "pw") world).0.0 ≡ true)
    ↔ MayLogin literal world (codes "alice") (codes "pw")
check_authen_iff_example =
    check_authen_iff literal catalog (codes "alice") (codes "pw") world world-IsSound

check_author_iff_example :
    ((check_author literal (codes "alice") (codes "show") (codes "::1") world).0.0 ≡ true)
    ↔ MayRun literal world (codes "alice") (codes "show") (codes "::1")
check_author_iff_example =
    check_author_iff literal catalog (codes "alice") (codes "show") (codes "::1") world
      world-IsSound show-IsLine server-IsLine

-- A login that names no user, and a client that sends nothing after it.
abbrev zero_md5 : List ℕ → List ℕ
zero_md5 m = 0 ∷ 0 ∷ 0 ∷ 0 ∷ 0 ∷ 0 ∷ 0 ∷ 0 ∷ 0 ∷ 0 ∷ 0 ∷ 0 ∷ 0 ∷ 0 ∷ 0 ∷ 0 ∷ []

abbrev login : AuthenStart
login = record {
  action = 1;
  priv_lvl = 1;
  authen_type = 1;
  authen_service = 1;
  user = [];
  port = [];
  rem_addr = [];
  data_bytes = [];
}

abbrev first_packet : Raw
first_packet = record {
  version = 0xc0;
  typ = 1;
  seq_no = 1;
  flags = 0;
  id = 7;
  body_len = 8;
  body = 1 ∷ 1 ∷ 1 ∷ 1 ∷ 0 ∷ 0 ∷ 0 ∷ 0 ∷ [];
}

abbrev state : SessionState
state = record {
  session = record { id = 7; seq = 0; done = false; err = none };
  config = record { mux = true; legacy_mux = false; secret = codes "key" };
  parity = 0;
  conn_err = none;
  incoming = packet first_packet ∷ [];
  outcomes = written ∷ [];
  sent = [];
}

abbrev asked : SessionState
asked = record state { incoming = [] }

abbrev user_prompt : AuthenReply
user_prompt = record { status = 4; no_echo = false; server_msg = codes "User:"; data_bytes = [] }

-- What the failed prompt leaves of the session: no packet.
abbrev hung_up : ServerSession
hung_up = record {
  state = record asked {
    session = record { id = 7; seq = 2; done = false; err = some session_closed };
    outcomes = [];
    sent =
        outgoing zero_md5 state.config (record first_packet { body = AuthenReply.body user_prompt })
        ∷ [];
  };
  p = none;
}

read_login : read_packet zero_md5 state ≡ ((some first_packet, none), asked)
unfolding read_packet receive next_incoming check_seq crypt_packet crypt crypt_loop xor_bytes
read_login = refl

no_user :
    get_user zero_md5 (codes "User:") (record { state = asked; p = some first_packet }) world
    ≡ ret (err session_closed) hung_up world
unfolding get_user send_reply AuthenReply.marshal written_reply write_server write_packet
    reply_flags finish_write next_outcome read_continue read_packet receive next_incoming read_err
    send_error
no_user = refl

serve_session_hangup_example :
    serve_session (my_handler zero_md5 literal) zero_md5 state world
    ≡ panicked (close hung_up) (
        log_authen_info
          (gave_up zero_md5 literal login (record { state = asked; p = some first_packet }) world)
          world)
unfolding AuthenStart.unmarshal AuthenStart.version byte bytes
serve_session_hangup_example =
    serve_session_hangup zero_md5 literal state asked first_packet login hung_up world
      session_closed read_login refl refl refl refl no_user

handle_authen-Answered_example :
    Returns
      (Answered zero_md5 literal login (record { state = asked; p = some first_packet }) world)
      (handle_authen zero_md5 literal login (record { state = asked; p = some first_packet }) world)
handle_authen-Answered_example =
    handle_authen-Answered literal zero_md5 login (record { state = asked; p = some first_packet })
      world
