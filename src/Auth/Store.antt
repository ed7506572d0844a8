-- ===== src/Auth/Store.antt =====
-- The users and roles of crates/server/src/auth/mod.rs. An operation gives its result and the store,
-- which it has changed before a failing save.
mod Count
pub mod Stays
pub mod Verify
use vaylix.Prelude.{
  ℕ, zero, suc, ◌+◌, ◌<◌, String, Bool, true, false, ◌&&◌, ◌||◌, not, Option, none, some, List, [],
  ◌∷◌, Result, ok, err, length, ltb, leb, ◌==◌, str_eq, if◌then◌else◌,
}
use vaylix.Table.{Table, lookup, insert, remove, contains_key}
use vaylix.Text.{as_bytes}
use vaylix.Engine.Wildcard.{chars}
use vaylix.Auth.Error.{
  ServerError, authentication_configuration, password_policy_violation, last_admin_user,
  user_already_exists, user_not_found, role_already_exists, role_not_found, protected_role,
}
use vaylix.Auth.Grants.{
  Permission, PermissionGrant, Identity, all_permissions, same_permission, same_grant, member, add,
  discard, extend,
}

-- What is not in this file: Argon2 with the random salt, which gives a hash or an error, and the
-- writing of the store.
pub record Secrets : Type 0 where
  pub hash_password : String → Result ServerError String
  pub password_matches : String → String → Result ServerError Bool
  pub bad_save : Option ServerError

pub record UserRecord : Type 0 where
  pub password_hash : String
  pub roles : List String
  pub disabled : Bool

pub record RoleRecord : Type 0 where
  pub permissions : List Permission
  pub grants : List PermissionGrant

pub record StoredAuth : Type 0 where
  pub version : ℕ
  pub users : Table UserRecord
  pub roles : Table RoleRecord
  pub bootstrap_admin : Option String

-- `persist` tells whether the store has a file.
pub record AuthStore : Type 0 where
  pub stored : StoredAuth
  pub persist : Bool

abbrev pub Outcome : Type 0
Outcome = Result ServerError (Unit {0}) × AuthStore

abbrev pub admin_role : String
admin_role = "admin"

abbrev pub has_role : String → UserRecord → Bool
has_role role user = member str_eq role user.roles

abbrev pub is_admin : UserRecord → Bool
is_admin user = not user.disabled && has_role admin_role user

abbrev pub one_if : Bool → ℕ
one_if true = 1
one_if false = 0

unfoldable pub count_admins : Table UserRecord → ℕ
count_admins [] = 0
count_admins (pair ∷ table) = one_if (is_admin pair.1) + count_admins table

abbrev pub admin_user_count : AuthStore → ℕ
admin_user_count store = count_admins store.stored.users

abbrev pub with_users : Table UserRecord → AuthStore → AuthStore
with_users users store = record store { stored = record store.stored { users = users } }

abbrev pub with_roles : Table RoleRecord → AuthStore → AuthStore
with_roles roles store = record store { stored = record store.stored { roles = roles } }

abbrev pub saved : Option ServerError → Result ServerError (Unit {0})
saved none = ok tt
saved (some e) = err e

abbrev pub refused : ServerError → AuthStore → Outcome
refused e store = (err e, store)

-- `is_ascii_alphabetic` and `is_ascii_digit`
abbrev is_letter : ℕ → Bool
is_letter c = (leb 65 c && leb c 90) || (leb 97 c && leb c 122)

abbrev is_digit : ℕ → Bool
is_digit c = leb 48 c && leb c 57

abbrev any_char : (ℕ → Bool) → List ℕ → Bool
any_char test [] = false
any_char test (c ∷ text) = test c || any_char test text

unfoldable pub validate_password_policy : String → Result ServerError (Unit {0})
validate_password_policy password =
    if ltb (length (as_bytes password)) 12
    then err password_policy_violation
    else if not (any_char is_letter (chars password)) || not (any_char is_digit (chars password))
    then err password_policy_violation
    else ok tt

-- `values_mut` with the removal of the role from each user
unfoldable pub without_role : String → Table UserRecord → Table UserRecord
without_role role [] = []
without_role role ((name, user) ∷ users) =
    (name, record user { roles = discard str_eq role user.roles }) ∷ without_role role users

abbrev pub star_grant : Permission → PermissionGrant
star_grant p = record { permission = p; pattern = "*" }

abbrev pub star_grants : List Permission → List PermissionGrant
star_grants [] = []
star_grants (p ∷ permissions) = star_grant p ∷ star_grants permissions

-- The permissions of the grants on every key.
abbrev pub unscoped : List PermissionGrant → List Permission
unscoped [] = []
unscoped (g ∷ grants) =
    let rest = unscoped grants in if str_eq g.pattern "*" then g.permission ∷ rest else rest

abbrev pub extended_by :
    RoleRecord → List Permission × List PermissionGrant → List Permission × List PermissionGrant
extended_by role (permissions, grants) = (
  extend same_permission (extend same_permission permissions role.permissions)
      (unscoped role.grants),
  extend same_grant (extend same_grant grants (star_grants role.permissions)) role.grants,
)

-- A role that is not there any more adds nothing.
abbrev pub with_role :
    Option RoleRecord
    → List Permission × List PermissionGrant
    → List Permission × List PermissionGrant
with_role none found = found
with_role (some role) found = extended_by role found

unfoldable pub resolve_roles :
    List String
    → Table RoleRecord
    → List Permission × List PermissionGrant
    → List Permission × List PermissionGrant
resolve_roles [] roles found = found
resolve_roles (name ∷ names) roles found =
    resolve_roles names roles (with_role (lookup name roles) found)

unfoldable pub resolve_permissions :
    StoredAuth → UserRecord → List Permission × List PermissionGrant
resolve_permissions stored user = resolve_roles user.roles stored.roles ([], [])

abbrev pub identity_of : String → List Permission × List PermissionGrant → Identity
identity_of name (permissions, grants) = record {
  username = name;
  permissions = permissions;
  grants = grants;
}

abbrev pub is_last_admin : String → AuthStore → Bool
is_last_admin name store =
    leb (admin_user_count store) 1
    && elim (lookup name store.stored.users) [ none ↦ false | some user ↦ has_role admin_role user ]

abbrev pub revoked : Permission → String → RoleRecord → RoleRecord
revoked permission pattern role = record role {
  grants = discard same_grant (record { permission = permission; pattern = pattern }) role.grants;
  permissions =
      if str_eq pattern "*"
      then discard same_permission permission role.permissions
      else role.permissions;
}

module _ (s : Secrets) where
  -- `save` answers for a store with no file.
  abbrev pub save : AuthStore → Outcome
  save store = if store.persist then (saved s.bad_save, store) else (ok tt, store)

  unfoldable pub verify : AuthStore → String → String → Result ServerError (Option Identity)
  verify store name password = elim (lookup name store.stored.users) [
    | none ↦ ok none
    | some user ↦
        if user.disabled then ok none else elim (s.password_matches user.password_hash password) [
          | err e ↦ err e
          | ok false ↦ ok none
          | ok true ↦ ok (some (identity_of name (resolve_permissions store.stored user)))
        ]
  ]

  abbrev pub put_user : String → AuthStore → Result ServerError UserRecord → Outcome
  put_user name store (err e) = refused e store
  put_user name store (ok user) = save (with_users (insert name user store.stored.users) store)

  abbrev pub new_user : String → Result ServerError UserRecord
  new_user password = elim (s.hash_password password) [
    | err e ↦ err e
    | ok hash ↦ ok (record { password_hash = hash; roles = []; disabled = false })
  ]

  unfoldable pub create_user : String → String → AuthStore → Outcome
  create_user name password store = elim (validate_password_policy password) [
    | err e ↦ refused e store
    | ok _ ↦
        if contains_key name store.stored.users
        then refused (user_already_exists name) store
        else put_user name store (new_user password)
  ]

  abbrev pub rehashed : UserRecord → String → Result ServerError UserRecord
  rehashed user password = elim (s.hash_password password) [
    | err e ↦ err e
    | ok hash ↦ ok (record user { password_hash = hash })
  ]

  unfoldable pub alter_user_password : String → String → AuthStore → Outcome
  alter_user_password name password store = elim (validate_password_policy password) [
    | err e ↦ refused e store
    | ok _ ↦ elim (lookup name store.stored.users) [
      | none ↦ refused (user_not_found name) store
      | some user ↦ put_user name store (rehashed user password)
    ]
  ]

  unfoldable pub drop_user : String → AuthStore → Outcome
  drop_user name store =
      if not (contains_key name store.stored.users)
      then refused (user_not_found name) store
      else if is_last_admin name store
      then refused last_admin_user store
      else save (with_users (remove name store.stored.users) store)

  unfoldable pub create_role : String → AuthStore → Outcome
  create_role role store =
      if contains_key role store.stored.roles
      then refused (role_already_exists role) store
      else save (
          with_roles (insert role (record { permissions = []; grants = [] }) store.stored.roles)
            store)

  unfoldable pub drop_role : String → AuthStore → Outcome
  drop_role role store =
      if str_eq role admin_role
      then refused (protected_role role) store
      else if not (contains_key role store.stored.roles)
      then refused (role_not_found role) store
      else save (
          with_roles (remove role store.stored.roles)
            (with_users (without_role role store.stored.users) store))

  unfoldable pub grant_role : String → String → AuthStore → Outcome
  grant_role role name store =
      if not (contains_key role store.stored.roles)
      then refused (role_not_found role) store
      else elim (lookup name store.stored.users) [
        | none ↦ refused (user_not_found name) store
        | some user ↦ put_user name store (ok (record user { roles = add str_eq role user.roles }))
      ]

  unfoldable pub revoke_role : String → String → AuthStore → Outcome
  revoke_role role name store =
      if str_eq role admin_role && is_last_admin name store
      then refused last_admin_user store
      else elim (lookup name store.stored.users) [
        | none ↦ refused (user_not_found name) store
        | some user ↦
            put_user name store (ok (record user { roles = discard str_eq role user.roles }))
      ]

  abbrev pub put_role : String → RoleRecord → AuthStore → Outcome
  put_role name role store = save (with_roles (insert name role store.stored.roles) store)

  unfoldable pub grant_permission : Permission → String → String → AuthStore → Outcome
  grant_permission permission pattern name store = elim (lookup name store.stored.roles) [
    | none ↦ refused (role_not_found name) store
    | some role ↦
        put_role name
          (record role {
            grants =
                add same_grant (record { permission = permission; pattern = pattern }) role.grants;
          })
          store
  ]

  unfoldable pub revoke_permission : Permission → String → String → AuthStore → Outcome
  revoke_permission permission pattern name store =
      if str_eq name admin_role && same_permission permission Permission.admin && str_eq pattern "*"
      then refused (protected_role name) store
      else elim (lookup name store.stored.roles) [
        | none ↦ refused (role_not_found name) store
        | some role ↦ put_role name (revoked permission pattern role) store
      ]

abbrev pub admin_role_record : RoleRecord
admin_role_record = record { permissions = all_permissions; grants = star_grants all_permissions }

abbrev pub admin_roles : Table RoleRecord
admin_roles = (admin_role, admin_role_record) ∷ []

unfoldable pub bootstrap_store : Secrets → String → String → Result ServerError StoredAuth
bootstrap_store s name password = elim (s.hash_password password) [
  | err e ↦ err e
  | ok hash ↦ ok (record {
    version = 2;
    users = (name, record { password_hash = hash; roles = admin_role ∷ []; disabled = false }) ∷ [];
    roles = admin_roles;
    bootstrap_admin = some name;
  })
]

-- `AuthConfig::new`, with no file.
unfoldable pub new_config : Secrets → String → String → Result ServerError AuthStore
new_config s name password = elim (bootstrap_store s name password) [
  | err e ↦ err e
  | ok stored ↦ ok (record { stored = stored; persist = false })
]
