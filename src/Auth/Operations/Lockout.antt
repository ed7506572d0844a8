-- ===== src/Auth/Operations/Lockout.antt =====
-- No sequence of operations of crates/server/src/auth/mod.rs locks the administrators out.
use vaylix.Prelude.{
  ◌≤◌, ◌≡◌, String, true, some, List, [], ◌∷◌, ok, str_eq_refl, eq_iff, Bool-cases, inl, inr, arith,
}
use vaylix.Table.{Table, lookup}
use vaylix.Table.Laws.{IsMap, lookup-IsFresh}
use vaylix.Auth.Grants.{Permission, Identity, has}
use vaylix.Auth.Store.{
  Secrets, UserRecord, AuthStore, is_admin, count_admins, verify, bootstrap_store, new_config,
}
use vaylix.Auth.Store.Stays.{
  create_user-Stays, alter_user_password-Stays, drop_user-Stays, create_role-Stays, drop_role-Stays,
  grant_role-Stays, revoke_role-Stays, grant_permission-Stays, revoke_permission-Stays, IsOpen,
  Stays,
}
use vaylix.Auth.Store.Verify.{verify-has}
use vaylix.Auth.Operations.{Operation, perform, run}

module _ (s : Secrets) (store : AuthStore) where
  perform-Stays : (operation : Operation) → Stays store (perform s operation store)
  unfolding perform
  perform-Stays (Operation.create_user name password) = create_user-Stays s store name password
  perform-Stays (Operation.alter_user_password name password) =
      alter_user_password-Stays s store name password
  perform-Stays (Operation.drop_user name) = drop_user-Stays s store name
  perform-Stays (Operation.create_role role) = create_role-Stays s store role
  perform-Stays (Operation.drop_role role) = drop_role-Stays s store role
  perform-Stays (Operation.grant_role role name) = grant_role-Stays s store role name
  perform-Stays (Operation.revoke_role role name) = revoke_role-Stays s store role name
  perform-Stays (Operation.grant_permission p pattern role) =
      grant_permission-Stays s store p pattern role
  perform-Stays (Operation.revoke_permission p pattern role) =
      revoke_permission-Stays s store p pattern role

pub run-IsOpen :
    (s : Secrets) (operations : List Operation) (store : AuthStore)
    → IsOpen store.stored
    → IsOpen (run s operations store).stored
unfolding run
run-IsOpen s [] store v = v
run-IsOpen s (o ∷ more) store v =
    run-IsOpen s more (perform s o store).1 ((perform-Stays s store o).stays v)

pub new_config-IsOpen :
    (s : Secrets) (name password : String) (store : AuthStore)
    → new_config s name password ≡ ok store
    → IsOpen store.stored
unfolding new_config bootstrap_store count_admins lookup
new_config-IsOpen s name password store h = record {
  users = ground arith;
  admins = ground arith;
  role = ground arith;
}

administrator :
    (users : Table UserRecord)
    → IsMap users
    → 1 ≤ count_admins users
    → (name : String) × (user : UserRecord) × (lookup name users ≡ some user)
      × (is_admin user ≡ true)
unfolding count_admins lookup
administrator [] m h = absurd (omega arith)
administrator ((name, user) ∷ users) m h = elim (Bool-cases (is_admin user)) [
  | inl e ↦ (name, user, ground (arith, str_eq_refl name), e)
  | inr n ↦
      let (other, u, found, e) = administrator users m.1 (ground (arith, n)) in
      (other, u, ground (arith, eq_iff name other, lookup-IsFresh name users), e)
]

-- An enabled administrator is left after every sequence of operations, failed ones included, on a
-- store that has one and whose admin role gives every permission.
pub run-administrator :
    (s : Secrets) (operations : List Operation) (store : AuthStore)
    → IsOpen store.stored
    → (name : String) × (user : UserRecord) × (lookup name (run s operations store).stored.users
        ≡ some user)
      × (is_admin user ≡ true)
run-administrator s operations store v =
    let after = run-IsOpen s operations store v in
    administrator (run s operations store).stored.users after.users after.admins

-- After every sequence of operations on such a store, an enabled administrator with the right
-- password is let in and has every permission.
pub verify-run :
    (s : Secrets) (operations : List Operation) (store : AuthStore) (name password : String)
    (user : UserRecord) (permission : Permission)
    → IsOpen store.stored
    → lookup name (run s operations store).stored.users ≡ some user
    → is_admin user ≡ true
    → s.password_matches user.password_hash password ≡ ok true
    → (identity : Identity) × (verify s (run s operations store) name password ≡ ok (some identity))
      × (has identity permission ≡ true)
verify-run s operations store name password user permission v =
    verify-has s (run s operations store) name password user permission
      (run-IsOpen s operations store v)
