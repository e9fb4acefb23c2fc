-- ===== src/Aaa/Snapshot.antt =====
-- pkg/client/tac_plus/user.go: the rebuilding of the users' snapshot from the database.
pub mod Roles
pub mod Sound
pub mod Tests
use tacacs_plus_go.Base.{
  Bool, List, Option, [], bytes_eq, codes, exists, get, if◌then◌else◌, join, map, none, put, some,
  split_from, ℕ, ◌++◌, ◌==◌, ◌∷◌,
}
use tacacs_plus_go.Aaa.Users.{Platform, RoleAcl, UserInfo, is_empty}
use tacacs_plus_go.Aaa.Handler.{World}

-- The columns of db.TacacsUser that the rebuilding reads.
pub record TacacsUser : Type 0 where
  pub user : List ℕ
  pub role : List ℕ
  pub password : List ℕ
  pub status : List ℕ

-- db.TacacsRoleTemplate, with an id of 0 for a template that is not found
pub record TacacsRoleTemplate : Type 0 where
  pub id : ℕ
  pub server_template_list : List ℕ
  pub command_template_list : List ℕ

-- What the database answers during one run; none is an error. The details of a list are empty after
-- an error. The metadata are read before and after.
pub record Database : Type 0 where
  pub role_templates : Option (List (List ℕ))
  pub role_template : List ℕ → TacacsRoleTemplate
  pub server_templates : List ℕ → List (List ℕ)
  pub command_templates : List ℕ → List (List ℕ)
  pub tacacs_user_infos : Option (List TacacsUser)
  pub on_duty_users : List (List ℕ)
  pub tables_update_time : Option (List ℕ)
  pub latest_update_time : Option (List ℕ)

pub record RoleCmdsServers : Type 0 where
  pub permit_cmds : List (List ℕ)
  pub permit_servers : List (List ℕ)

abbrev pub RoleInfo : Type 0
RoleInfo = List (List ℕ × RoleCmdsServers)

-- utils.GetNetworkType: nothing, an address, or a network with its text
pub data NetworkType : Type 0 where
  invalid : NetworkType
  ip_address : NetworkType
  ip_net : List ℕ → NetworkType

-- The snapshot and the caches, and the metadata that they were built for.
pub record Snapshot : Type 0 where
  pub world : World
  pub table_update_time : List ℕ

abbrev pub user_status_normal : List ℕ
user_status_normal = codes "1"

unfoldable pub update_tacacs_user_info_and_cache : List (List ℕ × UserInfo) → World → World
update_tacacs_user_info_and_cache users w = record w { users = users; passwords = []; cmds = [] }

module _ (pf : Platform) where
  -- for _, list := range strings.Split(lists, ",") { ... append(details...) }
  unfoldable pub details_of : (List ℕ → List (List ℕ)) → List (List ℕ) → List (List ℕ)
  details_of details [] = []
  details_of details (list ∷ lists) =
      let rest = details_of details lists in
      if is_empty (pf.trim_space list) then rest else details list ++ rest

  unfoldable pub add_role : Database → List ℕ → RoleInfo → RoleInfo
  add_role db name cache =
      let template = db.role_template name in
      if template.id == 0
      then cache
      else put name
          (record {
            permit_cmds =
                details_of db.command_templates (split_from [] template.command_template_list);
            permit_servers =
                details_of db.server_templates (split_from [] template.server_template_list);
          })
          cache

  unfoldable pub add_roles : Database → List (List ℕ) → RoleInfo → RoleInfo
  add_roles db [] cache = cache
  add_roles db (name ∷ names) cache = add_roles db names (add_role db name cache)

  unfoldable pub get_all_role_cmds_servers : Database → Option RoleInfo
  get_all_role_cmds_servers db = elim db.role_templates [
    | none ↦ none
    | some names ↦ some (add_roles db names [])
  ]

  unfoldable pub get_network_type : List ℕ → NetworkType
  get_network_type text =
      let str = pf.trim_space text in
      if exists (λ c. c == 47) str
      then (if pf.is_cidr str then ip_net str else invalid)
      else if pf.is_ip str
      then ip_address
      else invalid

  unfoldable pub compiled : List (List ℕ) → List (List ℕ)
  compiled [] = []
  compiled (cmd ∷ cmds) = let rest = compiled cmds in if pf.compiles cmd then cmd ∷ rest else rest

  unfoldable pub ips_of : List (List ℕ) → List (List ℕ)
  ips_of [] = []
  ips_of (server ∷ servers) =
      let rest = ips_of servers in
      elim (get_network_type server) [ ip_address ↦ server ∷ rest | _ ↦ rest ]

  unfoldable pub ip_nets_of : List (List ℕ) → List (List ℕ)
  ip_nets_of [] = []
  ip_nets_of (server ∷ servers) =
      let rest = ip_nets_of servers in
      elim (get_network_type server) [ ip_net net ↦ net ∷ rest | _ ↦ rest ]

  unfoldable pub role_acl : List ℕ → RoleCmdsServers → RoleAcl
  role_acl name permits = record {
    role_name = name;
    permit_cmds = compiled permits.permit_cmds;
    ips = ips_of permits.permit_servers;
    ip_nets = ip_nets_of permits.permit_servers;
  }

  unfoldable pub roles_of : RoleInfo → List (List ℕ) → List RoleAcl
  roles_of info [] = []
  roles_of info (name ∷ names) =
      let rest = roles_of info names in
      elim (get name info) [ none ↦ rest | some permits ↦ role_acl name permits ∷ rest ]

  -- sort.Strings is the parameter.
  module _ (sort_strings : List (List ℕ) → List (List ℕ)) where
    unfoldable pub generate_role_key : List RoleAcl → List ℕ
    generate_role_key [] = []
    generate_role_key (role ∷ roles) = join (sort_strings (map (λ r. r.role_name) (role ∷ roles)))

    unfoldable pub user_info : RoleInfo → List (List ℕ) → TacacsUser → UserInfo
    user_info info on_duty u =
        let roles = roles_of info (split_from [] u.role) in
        record {
          is_on_duty = exists (bytes_eq u.user) on_duty;
          role = roles;
          roles_key = generate_role_key roles;
          password = u.password;
          args = codes "priv-lvl=15" ∷ [];
        }

    unfoldable pub user_infos :
        RoleInfo
        → List (List ℕ)
        → List TacacsUser
        → List (List ℕ × UserInfo)
        → List (List ℕ × UserInfo)
    user_infos info on_duty [] m = m
    user_infos info on_duty (u ∷ users) m = user_infos info on_duty users (
        if bytes_eq u.status user_status_normal then put u.user (user_info info on_duty u) m else m)

    -- One run of updateUsers, which no other run overlaps. Another run that is under way makes it
    -- return at once.
    unfoldable pub update_users : Bool → Database → Snapshot → Snapshot
    update_users running db s = if running then s else elim db.tables_update_time [
      | none ↦ s
      | some before ↦
          if bytes_eq s.table_update_time before then s else elim (get_all_role_cmds_servers db) [
            | none ↦ s
            | some info ↦ elim db.tacacs_user_infos [
              | none ↦ s
              | some users ↦ elim db.latest_update_time [
                | none ↦ s
                | some latest ↦
                    if bytes_eq latest before
                    then record {
                      world =
                          update_tacacs_user_info_and_cache
                            (user_infos info db.on_duty_users users []) s.world;
                      table_update_time = latest;
                    }
                    else s
              ]
            ]
          ]
    ]
