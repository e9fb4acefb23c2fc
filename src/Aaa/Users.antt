-- ===== src/Aaa/Users.antt =====
-- pkg/client/tac_plus/user.go: the users' snapshot, the role check and the two result caches.
pub mod Permission
pub mod Cache
pub mod Passwords
use tacacs_plus_go.Base.{
  Bool, List, [], bytes_eq, codes, exists, false, get, if◌then◌else◌, none, not, put, some, true, ℕ,
  ◌&&◌, ◌++◌, ◌||◌, ◌∷◌,
}

-- What the code takes from Go's regexp and net packages and from bcrypt. A compiled regexp stands
-- for its pattern and a parsed network for its CIDR text.
pub record Platform : Type 0 where
  -- regexp.Compile(p) succeeds; its MatchString(s)
  pub compiles : List ℕ → Bool
  pub match_string : List ℕ → List ℕ → Bool
  -- net.ParseIP(s) is not nil; net.ParseCIDR(s) succeeds; its Contains(net.ParseIP(s))
  pub is_ip : List ℕ → Bool
  pub is_cidr : List ℕ → Bool
  pub contains : List ℕ → List ℕ → Bool
  -- strings.TrimSpace
  pub trim_space : List ℕ → List ℕ
  -- utils.CheckPasswordHash, which is bcrypt
  pub check_password_hash : List ℕ → List ℕ → Bool

pub record RoleAcl : Type 0 where
  pub role_name : List ℕ
  pub permit_cmds : List (List ℕ)
  pub ips : List (List ℕ)
  pub ip_nets : List (List ℕ)

pub record UserInfo : Type 0 where
  pub is_on_duty : Bool
  pub role : List RoleAcl
  pub roles_key : List ℕ
  pub password : List ℕ
  pub args : List (List ℕ)

pub record CmdCheckResult : Type 0 where
  pub is_pass : Bool
  pub reason : List ℕ

abbrev pub PasswordCache : Type 0
PasswordCache = List (List ℕ × Bool)

abbrev pub CmdCache : Type 0
CmdCache = List (List ℕ × CmdCheckResult)

abbrev pub is_empty : List ℕ → Bool
is_empty [] = true
is_empty (x ∷ xs) = false

-- password + "\n" + hash
unfoldable pub password_key : List ℕ → List ℕ → List ℕ
password_key password hash = password ++ (10 ∷ hash)

-- cmd + "\n" + server + "\n" + rolesKey
unfoldable pub cmd_key : List ℕ → List ℕ → List ℕ → List ℕ
cmd_key cmd server roles_key = cmd ++ (10 ∷ (server ++ (10 ∷ roles_key)))

module _ (pf : Platform) where
  unfoldable pub check_user_password : List ℕ → List ℕ → PasswordCache → Bool × PasswordCache
  check_user_password password hash cache =
      let key = password_key password hash in
      elim (get key cache) [
        | some v ↦ (v, cache)
        | none ↦
            let is_pass = pf.check_password_hash password hash in (is_pass, put key is_pass cache)
      ]

  unfoldable pub cmd_is_pass : List ℕ → RoleAcl → Bool
  cmd_is_pass cmd role = is_empty cmd || exists (λ p. pf.match_string p cmd) role.permit_cmds

  unfoldable pub server_is_pass : List ℕ → RoleAcl → Bool
  server_is_pass server role =
      (is_empty server || exists (λ permit. bytes_eq server permit) role.ips)
      || (pf.is_ip server && exists (λ net. pf.contains net server) role.ip_nets)

  -- The name of the role, if it permits the command on the server; else the empty text.
  unfoldable pub check_role_match : List ℕ → List ℕ → RoleAcl → List ℕ
  check_role_match cmd server role =
      if not (cmd_is_pass cmd role)
      then []
      else if server_is_pass server role
      then role.role_name
      else []

  -- for _, role := range roles { ... break }
  unfoldable pub check_roles : List ℕ → List ℕ → List RoleAcl → CmdCheckResult
  check_roles cmd server [] = record {
    is_pass = false;
    reason = codes "cmd and server are not match";
  }
  check_roles cmd server (role ∷ roles) =
      let rest = check_roles cmd server roles in
      let role_name = check_role_match cmd server role in
      if not (is_empty role_name) then record { is_pass = true; reason = role_name } else rest

  unfoldable pub check_cmd_and_server_in_role :
      List ℕ → List ℕ → List ℕ → List RoleAcl → CmdCache → CmdCheckResult × CmdCache
  check_cmd_and_server_in_role cmd server roles_key [] cache =
      (record { is_pass = false; reason = codes "role is nil" }, cache)
  check_cmd_and_server_in_role cmd server roles_key (role ∷ roles) cache =
      let key = cmd_key cmd server roles_key in
      elim (get key cache) [
        | some r ↦ (r, cache)
        | none ↦ let r = check_roles cmd server (role ∷ roles) in (r, put key r cache)
      ]
