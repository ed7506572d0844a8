-- ===== src/Auth/Store/Verify.antt =====
-- What `verify` of crates/server/src/auth/mod.rs gives an administrator.
use vaylix.Prelude.{
  ◌≡◌, refl, String, Bool, true, false, Option, none, some, List, [], ◌∷◌, ok, str_eq, eq_iff,
  arith, Bool-cases, inl, inr,
}
use vaylix.Table.{Table, lookup}
use vaylix.Auth.Grants.{
  Permission, PermissionGrant, Identity, same_permission, member, add, extend, has,
}
use vaylix.Auth.Store.{
  Secrets, UserRecord, RoleRecord, AuthStore, admin_role, is_admin, resolve_roles,
  resolve_permissions, extended_by, with_role, identity_of, verify, unscoped,
}
use vaylix.Auth.Store.Stays.{IsOpen, gives_all}

abbrev pub holds_all : List Permission → Bool
holds_all = member same_permission Permission.admin

holds_all-add :
    (p : Permission) (ys : List Permission)
    → holds_all ys ≡ true
    → holds_all (add same_permission p ys) ≡ true
holds_all-add p ys h = ground arith

holds_all-extend :
    (ys more : List Permission)
    → holds_all ys ≡ true
    → holds_all (extend same_permission ys more) ≡ true
holds_all-extend ys [] h = h
holds_all-extend ys (p ∷ more) h =
    holds_all-extend (add same_permission p ys) more (holds_all-add p ys h)

member_same :
    (p q : Permission) (ys : List Permission)
    → same_permission p q ≡ true
    → member same_permission p ys ≡ true
    → member same_permission q ys ≡ true
member_same p q [] h m = cc
member_same p q (y ∷ ys) h m = ground (arith, member_same p q ys h)

add-holds_all :
    (p : Permission) (ys : List Permission)
    → same_permission p Permission.admin ≡ true
    → holds_all (add same_permission p ys) ≡ true
add-holds_all p ys h = ground (arith, member_same p Permission.admin ys h)

pub extend-holds_all :
    (ys more : List Permission)
    → holds_all more ≡ true
    → holds_all (extend same_permission ys more) ≡ true
extend-holds_all ys [] h = cc
extend-holds_all ys (p ∷ more) h = elim (Bool-cases (same_permission p Permission.admin)) [
  | inl e ↦ holds_all-extend (add same_permission p ys) more (add-holds_all p ys e)
  | inr n ↦ extend-holds_all (add same_permission p ys) more (ground (arith, n))
]

abbrev Found : Type 0
Found = List Permission × List PermissionGrant

extended_by-holds_all :
    (role : RoleRecord) (found : Found)
    → holds_all found.0 ≡ true
    → holds_all (extended_by role found).0 ≡ true
extended_by-holds_all role found h =
    holds_all-extend (extend same_permission found.0 role.permissions) (unscoped role.grants)
      (holds_all-extend found.0 role.permissions h)

with_role-holds_all :
    (o : Option RoleRecord) (found : Found)
    → holds_all found.0 ≡ true
    → holds_all (with_role o found).0 ≡ true
with_role-holds_all none found h = h
with_role-holds_all (some role) found h = extended_by-holds_all role found h

resolve_roles-holds_all :
    (names : List String) (roles : Table RoleRecord) (found : Found)
    → holds_all found.0 ≡ true
    → holds_all (resolve_roles names roles found).0 ≡ true
unfolding resolve_roles
resolve_roles-holds_all [] roles found h = h
resolve_roles-holds_all (name ∷ names) roles found h =
    resolve_roles-holds_all names roles (with_role (lookup name roles) found)
      (with_role-holds_all (lookup name roles) found h)

with_role_admin :
    (o : Option RoleRecord) (found : Found)
    → gives_all o ≡ true
    → holds_all (with_role o found).0 ≡ true
with_role_admin none found g = cc
with_role_admin (some role) found g =
    holds_all-extend (extend same_permission found.0 role.permissions) (unscoped role.grants)
      (extend-holds_all found.0 role.permissions g)

resolve_roles-admin :
    (names : List String) (roles : Table RoleRecord) (found : Found)
    → gives_all (lookup admin_role roles) ≡ true
    → member str_eq admin_role names ≡ true
    → holds_all (resolve_roles names roles found).0 ≡ true
unfolding resolve_roles
resolve_roles-admin [] roles found g h = cc
resolve_roles-admin (name ∷ names) roles found g h = elim (Bool-cases (str_eq name admin_role)) [
  | inl e ↦
      let same : name ≡ admin_role = (eq_iff name admin_role).0 e in
      resolve_roles-holds_all names roles (with_role (lookup name roles) found)
        (with_role_admin (lookup name roles) found (rw (same) g))
  | inr n ↦
      resolve_roles-admin names roles (with_role (lookup name roles) found) g (ground (arith, n))
]

-- While an administrator is left, an enabled administrator with the right password is let in and has
-- every permission.
pub verify-has :
    (s : Secrets) (store : AuthStore) (name password : String) (user : UserRecord)
    (permission : Permission)
    → IsOpen store.stored
    → lookup name store.stored.users ≡ some user
    → is_admin user ≡ true
    → s.password_matches user.password_hash password ≡ ok true
    → (identity : Identity) × (verify s store name password ≡ ok (some identity))
      × (has identity permission ≡ true)
unfolding verify has resolve_permissions
verify-has s store name password user permission v found admin matches =
    let enabled : user.disabled ≡ false = ground arith in
    let held =
      resolve_roles-admin user.roles store.stored.roles ([], []) v.role (ground (arith, admin)) in
    (
      identity_of name (resolve_permissions store.stored user),
      ground (arith, found, enabled, matches),
      rw (held) refl,
    )
