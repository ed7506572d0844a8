-- ===== src/Auth/Bootstrap.antt =====
-- The administrator of the configuration: `reconcile_configured_bootstrap_admin` of
-- crates/server/src/auth/mod.rs, on a store that was read from its file.
pub mod Reconciled
use vaylix.Prelude.{
  ℕ, String, Bool, true, false, ◌&&◌, ◌||◌, not, Option, none, some, List, [], ◌∷◌, Result, ok, err,
  str_eq, if◌then◌else◌,
}
use vaylix.Table.{Table, lookup, insert, remove}
use vaylix.Auth.Error.{ServerError}
use vaylix.Auth.Grants.{all_permissions, same_permission, same_grant, add, extend}
use vaylix.Auth.Store.{
  Secrets, UserRecord, RoleRecord, StoredAuth, admin_role, has_role, is_admin, admin_role_record,
  star_grants,
}

abbrev pub default_name : String
default_name = "vaylix"

abbrev pub is_default : String → String → Bool
is_default name password = str_eq name default_name && str_eq password "vaylix"

abbrev pub or_admin_record : Option RoleRecord → RoleRecord
or_admin_record none = admin_role_record
or_admin_record (some role) = role

abbrev pub all_extended : RoleRecord → RoleRecord
all_extended role = record {
  permissions = extend same_permission role.permissions all_permissions;
  grants = extend same_grant role.grants (star_grants all_permissions);
}

unfoldable pub ensure_admin_role : StoredAuth → StoredAuth
ensure_admin_role stored = record stored {
  roles =
      insert admin_role (all_extended (or_admin_record (lookup admin_role stored.roles)))
        stored.roles;
}

unfoldable pub remove_admin_user_if_present : String → StoredAuth → StoredAuth
remove_admin_user_if_present name stored = elim (lookup name stored.users) [
  | none ↦ stored
  | some user ↦
      if has_role admin_role user
      then record stored { users = remove name stored.users }
      else stored
]

unfoldable pub retire_previous_bootstrap_admin : Option String → String → StoredAuth → StoredAuth
retire_previous_bootstrap_admin none name stored = stored
retire_previous_bootstrap_admin (some previous) name stored =
    if str_eq previous name then stored else remove_admin_user_if_present previous stored

-- The names of the enabled administrators.
unfoldable pub admins_of : Table UserRecord → List String
admins_of [] = []
admins_of ((name, user) ∷ users) =
    let rest = admins_of users in if is_admin user then name ∷ rest else rest

abbrev the_only : List String → Option String
the_only (name ∷ []) = some name
the_only _ = none

unfoldable pub legacy_single_admin_username : StoredAuth → Option String
legacy_single_admin_username stored = elim stored.bootstrap_admin [
  | some _ ↦ none
  | none ↦ the_only (admins_of stored.users)
]

abbrev pub with_admin : String → Option UserRecord → UserRecord
with_admin hash none = record { password_hash = hash; roles = admin_role ∷ []; disabled = false }
with_admin hash (some user) = record {
  password_hash = hash;
  roles = add str_eq admin_role user.roles;
  disabled = false;
}

-- A store of the first version names no bootstrap administrator.
abbrev pub retired : Option String → Option String → String → StoredAuth → StoredAuth
retired none legacy name stored = retire_previous_bootstrap_admin legacy name stored
retired (some previous) legacy name stored =
    retire_previous_bootstrap_admin (some previous) name stored

-- `or` calls the password check for a default user who is no administrator only.
abbrev pub retire_default :
    StoredAuth → Bool → Result ServerError Bool → Result ServerError StoredAuth
retire_default stored true matches = ok (remove_admin_user_if_present default_name stored)
retire_default stored false (err e) = err e
retire_default stored false (ok true) = ok (remove_admin_user_if_present default_name stored)
retire_default stored false (ok false) = ok stored

abbrev pub installed : String → String → StoredAuth → StoredAuth
installed name hash stored =
    let ready = ensure_admin_role stored in
    record ready { users = insert name (with_admin hash (lookup name ready.users)) ready.users }

abbrev pub finished : String → Result ServerError StoredAuth → Result ServerError StoredAuth
finished name (err e) = err e
finished name (ok stored) = ok (record stored { bootstrap_admin = some name; version = 2 })

module _ (s : Secrets) where
  unfoldable pub retire_legacy_default_bootstrap_user :
      StoredAuth → String → Result ServerError StoredAuth
  retire_legacy_default_bootstrap_user stored name =
      if str_eq name default_name then ok stored else elim (lookup default_name stored.users) [
        | none ↦ ok stored
        | some user ↦
            retire_default stored (has_role admin_role user)
              (s.password_matches user.password_hash "vaylix")
      ]

  unfoldable pub reconcile_configured_bootstrap_admin :
      StoredAuth → String → String → Result ServerError StoredAuth
  reconcile_configured_bootstrap_admin stored name password =
      if is_default name password
      then ok (record stored { version = 2 })
      else elim (s.hash_password password) [
        | err e ↦ err e
        | ok hash ↦ finished name (
            retire_legacy_default_bootstrap_user
              (retired stored.bootstrap_admin (legacy_single_admin_username stored) name
                (installed name hash stored))
              name)
      ]
