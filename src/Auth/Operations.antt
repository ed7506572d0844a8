-- ===== src/Auth/Operations.antt =====
-- The commands on users and roles, one after the other, as crates/server/src/auth/mod.rs has them
-- under the lock of its store.
pub mod Lockout
use vaylix.Prelude.{List, [], ◌∷◌, String}
use vaylix.Auth.Grants.{Permission}
use vaylix.Auth.Store
use vaylix.Auth.Store.{Secrets, AuthStore, Outcome}

-- The commands that change users and roles.
pub data Operation : Type 0 where
  create_user alter_user_password : (name password : String) → Operation
  drop_user : (name : String) → Operation
  create_role drop_role : (role : String) → Operation
  grant_role revoke_role : (role name : String) → Operation
  grant_permission revoke_permission : (permission : Permission) (pattern role : String) → Operation

unfoldable pub perform : Secrets → Operation → AuthStore → Outcome
perform s (Operation.create_user name password) = Store.create_user s name password
perform s (Operation.alter_user_password name password) = Store.alter_user_password s name password
perform s (Operation.drop_user name) = Store.drop_user s name
perform s (Operation.create_role role) = Store.create_role s role
perform s (Operation.drop_role role) = Store.drop_role s role
perform s (Operation.grant_role role name) = Store.grant_role s role name
perform s (Operation.revoke_role role name) = Store.revoke_role s role name
perform s (Operation.grant_permission permission pattern role) =
    Store.grant_permission s permission pattern role
perform s (Operation.revoke_permission permission pattern role) =
    Store.revoke_permission s permission pattern role

-- The store after some operations, the failed ones included.
unfoldable pub run : Secrets → List Operation → AuthStore → AuthStore
run s [] store = store
run s (operation ∷ more) store = run s more (perform s operation store).1
