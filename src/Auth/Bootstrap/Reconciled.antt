-- ===== src/Auth/Bootstrap/Reconciled.antt =====
-- The store that starts the server has the administrator of its configuration.
use vaylix.Prelude.{
  ◌≤◌, ◌≡◌, refl, String, Bool, true, false, Option, none, some, [], ◌∷◌, Result, ok, err, str_eq,
  str_eq_refl, eq_iff, if◌then◌else◌, arith, Bool-cases, inl, inr,
}
use vaylix.Table.{Table, lookup, remove}
use vaylix.Table.Laws.{IsMap, IsMap-insert, IsMap-remove, lookup-insert, lookup-remove}
use vaylix.Auth.Error.{ServerError}
use vaylix.Auth.Grants.{all_permissions}
use vaylix.Auth.Store.{
  Secrets, UserRecord, RoleRecord, StoredAuth, is_admin, count_admins, has_role, admin_role,
}
use vaylix.Auth.Store.Stays.{IsOpen, gives_all}
use vaylix.Auth.Store.Verify.{extend-holds_all}
use vaylix.Auth.Bootstrap.{
  or_admin_record, is_default, all_extended, ensure_admin_role, remove_admin_user_if_present,
  retire_previous_bootstrap_admin, legacy_single_admin_username, with_admin, retired,
  retire_default, retire_legacy_default_bootstrap_user, installed, finished,
  reconcile_configured_bootstrap_admin, default_name,
}

count_admins-lookup :
    (name : String) (user : UserRecord) (users : Table UserRecord)
    → lookup name users ≡ some user
    → is_admin user ≡ true
    → 1 ≤ count_admins users
unfolding lookup count_admins
count_admins-lookup name user [] h a = cc
count_admins-lookup name user ((other, old) ∷ users) h a =
    ground (arith, count_admins-lookup name user users)

abbrev IsAdminAt : String → StoredAuth → Type 0
IsAdminAt name stored =
    (user : UserRecord) × (lookup name stored.users ≡ some user) × (is_admin user ≡ true)

-- The configured administrator is in the store, enabled, and the role gives every permission.
pub record IsInstalled (name : String) (stored : StoredAuth) : Type 0 where
  pub users : IsMap stored.users
  pub user : UserRecord
  pub found : lookup name stored.users ≡ some user
  pub admin : is_admin user ≡ true
  pub role : gives_all (lookup admin_role stored.roles) ≡ true

all_extended-gives_all : (role : RoleRecord) → gives_all (some (all_extended role)) ≡ true
all_extended-gives_all role = extend-holds_all role.permissions all_permissions refl

with_admin-is_admin : (hash : String) (o : Option UserRecord) → is_admin (with_admin hash o) ≡ true
with_admin-is_admin hash none = refl
with_admin-is_admin hash (some user) = ground arith

installed-IsInstalled :
    (name hash : String) (stored : StoredAuth)
    → IsMap stored.users
    → IsInstalled name (installed name hash stored)
unfolding ensure_admin_role
installed-IsInstalled name hash stored m =
    let user = with_admin hash (lookup name stored.users) in
    let role = or_admin_record (lookup admin_role stored.roles) in
    record {
      users = IsMap-insert name user stored.users m;
      user = user;
      found = ground (arith, lookup-insert name name user stored.users, str_eq_refl name);
      admin = with_admin-is_admin hash (lookup name stored.users);
      role =
          rw (lookup-insert admin_role admin_role (all_extended role) stored.roles)
            (all_extended-gives_all role);
    }

-- Removing another user leaves the administrator.
remove_admin_user_if_present-IsInstalled :
    (name other : String) (stored : StoredAuth)
    → str_eq other name ≡ false
    → IsInstalled name stored
    → IsInstalled name (remove_admin_user_if_present other stored)
unfolding remove_admin_user_if_present
remove_admin_user_if_present-IsInstalled name other stored n v = by_user (lookup other stored.users)
  where
    by_role :
        (t : Bool)
        → IsInstalled name
            (if t then record stored { users = remove other stored.users } else stored)
    by_role false = v
    by_role true = record {
      users = IsMap-remove other stored.users v.users;
      user = v.user;
      found = rw (lookup-remove other name stored.users, n) v.found;
      admin = v.admin;
      role = v.role;
    }

    by_user :
        (o : Option UserRecord)
        → IsInstalled name (elim o [
          | none ↦ stored
          | some user ↦
              if has_role admin_role user
              then record stored { users = remove other stored.users }
              else stored
        ])
    by_user none = v
    by_user (some user) = by_role (has_role admin_role user)

retire_previous-IsInstalled :
    (previous : Option String) (name : String) (stored : StoredAuth)
    → IsInstalled name stored
    → IsInstalled name (retire_previous_bootstrap_admin previous name stored)
unfolding retire_previous_bootstrap_admin
retire_previous-IsInstalled none name stored v = v
retire_previous-IsInstalled (some previous) name stored v =
    elim (Bool-cases (str_eq previous name)) [
      | inl e ↦ rw (e) v
      | inr n ↦ rw (n) (remove_admin_user_if_present-IsInstalled name previous stored n v)
    ]

retired-IsInstalled :
    (previous legacy : Option String) (name : String) (stored : StoredAuth)
    → IsInstalled name stored
    → IsInstalled name (retired previous legacy name stored)
retired-IsInstalled none legacy name stored v = retire_previous-IsInstalled legacy name stored v
retired-IsInstalled (some previous) legacy name stored v =
    retire_previous-IsInstalled (some previous) name stored v

retire_default-IsInstalled :
    (name : String) (stored after : StoredAuth) (t : Bool) (matches : Result ServerError Bool)
    → str_eq name default_name ≡ false
    → IsInstalled name stored
    → retire_default stored t matches ≡ ok after
    → IsInstalled name after
retire_default-IsInstalled name stored after true matches n v h =
    let same : remove_admin_user_if_present default_name stored ≡ after = cc in
    rw⁻¹ (same) (
      remove_admin_user_if_present-IsInstalled name default_name stored
        (ground (arith, n, eq_iff name default_name, eq_iff default_name name)) v)
retire_default-IsInstalled name stored after false (err e) n v h = cc
retire_default-IsInstalled name stored after false (ok true) n v h =
    let same : remove_admin_user_if_present default_name stored ≡ after = cc in
    rw⁻¹ (same) (
      remove_admin_user_if_present-IsInstalled name default_name stored
        (ground (arith, n, eq_iff name default_name, eq_iff default_name name)) v)
retire_default-IsInstalled name stored after false (ok false) n v h =
    let same : stored ≡ after = cc in rw⁻¹ (same) v

module _ (s : Secrets) where
  retire_legacy_default-IsInstalled :
      (name : String) (stored after : StoredAuth)
      → IsInstalled name stored
      → retire_legacy_default_bootstrap_user s stored name ≡ ok after
      → IsInstalled name after
  unfolding retire_legacy_default_bootstrap_user
  retire_legacy_default-IsInstalled name stored after v =
      by_name (str_eq name default_name) refl (lookup default_name stored.users)
    where
      by_name :
          (t : Bool)
          → str_eq name default_name ≡ t
          → (o : Option UserRecord)
          → (if t then ok stored else elim o [
            | none ↦ ok stored
            | some user ↦
                retire_default stored
                  (has_role admin_role user)
                  (s.password_matches user.password_hash "vaylix")
          ])
            ≡ ok after
          → IsInstalled name after
      by_name true e o h = let same : stored ≡ after = cc in rw⁻¹ (same) v
      by_name false e none h = let same : stored ≡ after = cc in rw⁻¹ (same) v
      by_name false e (some user) h =
          retire_default-IsInstalled name stored after (has_role admin_role user)
            (s.password_matches user.password_hash "vaylix") e v h

  finished-IsInstalled :
      (name : String) (r : Result ServerError StoredAuth) (after : StoredAuth)
      → ((stored : StoredAuth) → r ≡ ok stored → IsInstalled name stored)
      → finished name r ≡ ok after
      → IsInstalled name after
  finished-IsInstalled name (err e) after h k = cc
  finished-IsInstalled name (ok stored) after h k =
      let v = h stored refl in
      let same : record stored { bootstrap_admin = some name; version = 2 } ≡ after = cc in
      rw⁻¹ (same)
        (record { users = v.users; user = v.user; found = v.found; admin = v.admin; role = v.role })

  reconcile-IsInstalled :
      (stored after : StoredAuth) (name password : String)
      → IsMap stored.users
      → is_default name password ≡ false
      → reconcile_configured_bootstrap_admin s stored name password ≡ ok after
      → IsInstalled name after
  unfolding reconcile_configured_bootstrap_admin
  reconcile-IsInstalled stored after name password m d = rw (d) (by_hash (s.hash_password password))
    where
      ready : String → StoredAuth
      ready hash =
          retired stored.bootstrap_admin (legacy_single_admin_username stored) name
            (installed name hash stored)

      by_hash :
          (r : Result ServerError String)
          → (elim r [
            | err e ↦ err e
            | ok hash ↦ finished name (retire_legacy_default_bootstrap_user s (ready hash) name)
          ])
            ≡ ok after
          → IsInstalled name after
      by_hash (err e) h = cc
      by_hash (ok hash) h =
          finished-IsInstalled name (retire_legacy_default_bootstrap_user s (ready hash) name) after
            (λ found. retire_legacy_default-IsInstalled name (ready hash) found (
              retired-IsInstalled stored.bootstrap_admin (legacy_single_admin_username stored) name
                (installed name hash stored) (installed-IsInstalled name hash stored m)))
            h

  -- A store that was read from its file and reconciled with a configured administrator other than
  -- the default has this user enabled, as an administrator, and is open, whoever was retired.
  pub reconcile_configured_bootstrap_admin-IsOpen :
      (stored after : StoredAuth) (name password : String)
      → IsMap stored.users
      → is_default name password ≡ false
      → reconcile_configured_bootstrap_admin s stored name password ≡ ok after
      → IsOpen after
        × (user : UserRecord) × (lookup name after.users ≡ some user)
        × (is_admin user ≡ true)
  reconcile_configured_bootstrap_admin-IsOpen stored after name password m d h =
      let v = reconcile-IsInstalled stored after name password m d h in
      (
        record {
          users = v.users;
          admins = count_admins-lookup name v.user after.users v.found v.admin;
          role = v.role;
        },
        v.user,
        v.found,
        v.admin,
      )
