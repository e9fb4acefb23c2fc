-- ===== src/Aaa/Snapshot/Tests.antt =====
-- A rebuilding of the snapshot of pkg/client/tac_plus on a concrete database.
use tacacs_plus_go.Base.{
  All, Arranged-refl, IsAscending, IsSort, List, Option, [], codes, false, none, some, subst, ℕ,
  ◌∷◌, ◌≡◌, ◌⊎◌,
}
use tacacs_plus_go.Aaa.Users.Cache.{IsLine}
use tacacs_plus_go.Aaa.Handler.Decisions.{IsSound}
use tacacs_plus_go.Aaa.Snapshot.{Database, Snapshot, TacacsUser, update_users}
use tacacs_plus_go.Aaa.Snapshot.Roles.{catalog}
use tacacs_plus_go.Aaa.Snapshot.Sound.{IsPublished, update_users-IsSound}
use tacacs_plus_go.Aaa.Tests.{literal, operator, pw-IsLine, world, world-IsSound}

-- Any order will do for the names; here, the one they come in.
abbrev AnyOrder : List ℕ → List ℕ → Type 0
AnyOrder a b = Unit

All-AnyOrder : (x : List ℕ) (xs : List (List ℕ)) → All (AnyOrder x) xs
All-AnyOrder x [] = tt
All-AnyOrder x (y ∷ xs) = (tt, All-AnyOrder x xs)

names-IsAscending : (xs : List (List ℕ)) → IsAscending AnyOrder xs
names-IsAscending [] = tt
names-IsAscending (x ∷ xs) = (All-AnyOrder x xs, names-IsAscending xs)

names-IsSort : IsSort AnyOrder (λ names. names)
names-IsSort = record { arranged = Arranged-refl; ascending = names-IsAscending }

abbrev database : Database
database = record {
  role_templates = some (codes "net" ∷ []);
  role_template = λ name. record {
    id = 1;
    server_template_list = codes "lab";
    command_template_list = codes "read";
  };
  server_templates = λ list. codes "::1" ∷ [];
  command_templates = λ list. codes "show" ∷ [];
  tacacs_user_infos = some (
      record { user = codes "alice"; role = codes "net"; password = codes "pw"; status = codes "1" }
      ∷ []);
  on_duty_users = [];
  tables_update_time = some (codes "7");
  latest_update_time = some (codes "7");
}

database-IsLine :
    (rows : List TacacsUser)
    → database.tacacs_user_infos ≡ some rows
    → All (λ u. IsLine u.password) rows
database-IsLine rows e =
    subst
      (λ (o : Option (List TacacsUser)). elim o [
        | none ↦ Unit
        | some found ↦ All (λ u. IsLine u.password) found
      ])
      e (pw-IsLine, tt)

abbrev first_snapshot : Snapshot
first_snapshot = record { world = world; table_update_time = [] }

update_users-IsSound_example :
    let s' = update_users literal (λ names. names) false database first_snapshot in
    ((s' ≡ first_snapshot) × IsSound literal (λ key. operator ∷ []) s'.world)
    ⊎ ((p : IsPublished literal (λ names. names) AnyOrder names-IsSort database first_snapshot s')
        × IsSound literal (catalog literal p.info) s'.world)
update_users-IsSound_example =
    update_users-IsSound literal (λ names. names) AnyOrder names-IsSort false database
      first_snapshot (λ key. operator ∷ []) database-IsLine world-IsSound
