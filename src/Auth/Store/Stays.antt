-- ===== src/Auth/Store/Stays.antt =====
-- An administrator stays through each operation of crates/server/src/auth/mod.rs.
use vaylix.Prelude.{
  ◌≤◌, ◌≡◌, refl, String, Bool, true, false, ◌&&◌, not, Option, none, some, List, [], ◌∷◌, Result,
  ok, err, str_eq, eq_iff, if◌then◌else◌, arith,
}
use vaylix.Table.{lookup, insert, contains_key}
use vaylix.Table.Laws.{IsMap, IsMap-insert, IsMap-remove, lookup-insert, lookup-remove}
use vaylix.Auth.Error.{ServerError}
use vaylix.Auth.Grants.{Permission, same_permission, member, add, discard}
use vaylix.Auth.Store.{
  Secrets, UserRecord, RoleRecord, StoredAuth, AuthStore, admin_role, is_admin, one_if,
  count_admins, validate_password_policy, Outcome, save, put_user, new_user, rehashed,
  is_last_admin, put_role, refused, create_user, alter_user_password, drop_user, create_role,
  drop_role, grant_role, revoke_role, grant_permission, revoked, revoke_permission,
}
use vaylix.Auth.Store.Count.{
  admin_at, count_admins-insert, count_admins-remove, count_admins-without_role, IsMap-without_role,
  member-discard,
}

-- The role of the administrators gives every permission.
abbrev pub gives_all : Option RoleRecord → Bool
gives_all none = false
gives_all (some role) = member same_permission Permission.admin role.permissions

-- An enabled administrator is left, and the role still gives every permission.
pub record IsOpen (stored : StoredAuth) : Type 0 where
  pub users : IsMap stored.users
  pub admins : 1 ≤ count_admins stored.users
  pub role : gives_all (lookup admin_role stored.roles) ≡ true

-- What an operation makes of the store.
pub record Stays (store : AuthStore) (o : Outcome) : Type 0 where
  pub stays : IsOpen store.stored → IsOpen o.1.stored

module _ (store : AuthStore) where
  result_Stays :
      {A : Type 0} (r : Result ServerError A) {f : ServerError → Outcome} {g : A → Outcome}
      → ((e : ServerError) → Stays store (f e))
      → ((a : A) → r ≡ ok a → Stays store (g a))
      → Stays store (elim r [ err e ↦ f e | ok a ↦ g a ])
  result_Stays (err e) h k = h e
  result_Stays (ok a) h k = k a refl

  option_Stays :
      {A : Type 0} (r : Option A) {f : Outcome} {g : A → Outcome}
      → Stays store f
      → ((a : A) → r ≡ some a → Stays store (g a))
      → Stays store (elim r [ none ↦ f | some a ↦ g a ])
  option_Stays none h k = h
  option_Stays (some a) h k = k a refl

  if_Stays :
      (t : Bool) {x y : Outcome}
      → (t ≡ true → Stays store x)
      → (t ≡ false → Stays store y)
      → Stays store (if t then x else y)
  if_Stays true h k = h refl
  if_Stays false h k = k refl

  refused-Stays : (e : ServerError) → Stays store (refused e store)
  refused-Stays e = record { stays = λ v. v }

  save-Stays :
      (s : Secrets) (after : AuthStore)
      → (IsOpen store.stored → IsOpen after.stored)
      → Stays store (save s after)
  save-Stays s after h =
      let same : (save s after).1 ≡ after = ground arith in record { stays = λ v. rw (same) (h v) }

  put_user-Stays :
      (s : Secrets) (name : String) (r : Result ServerError UserRecord)
      → ((user : UserRecord)
          → r ≡ ok user
          → IsOpen store.stored
          → 1 ≤ count_admins (insert name user store.stored.users))
      → Stays store (put_user s name store r)
  put_user-Stays s name (err e) h = refused-Stays e
  put_user-Stays s name (ok user) h = save-Stays s _ λ v. record {
    users = IsMap-insert name user store.stored.users v.users;
    admins = h user refl v;
    role = v.role;
  }

  -- A user that is put in the place of a user who was no enabled administrator, or is one still.
  put_keeps :
      (name : String) (user : UserRecord)
      → admin_at name store.stored.users ≤ one_if (is_admin user)
      → IsOpen store.stored
      → 1 ≤ count_admins (insert name user store.stored.users)
  put_keeps name user h v =
      let e = count_admins-insert name user store.stored.users in let n = v.admins in omega arith

  put_role-Stays :
      (s : Secrets) (name : String) (role : RoleRecord)
      → (str_eq name admin_role ≡ true
          → gives_all (lookup admin_role store.stored.roles) ≡ true
          → gives_all (some role) ≡ true)
      → Stays store (put_role s name role store)
  put_role-Stays s name role h = save-Stays s _ λ v. record {
    users = v.users;
    admins = v.admins;
    role = ground (arith, h, v.role, lookup-insert name admin_role role store.stored.roles);
  }

member-add :
    (x role : String) (roles : List String)
    → member str_eq x roles ≡ true
    → member str_eq x (add str_eq role roles) ≡ true
member-add x role roles h = ground arith

admin-discard :
    (permission : Permission) (permissions : List Permission)
    → same_permission permission Permission.admin ≡ false
    → member same_permission Permission.admin (discard same_permission permission permissions)
      ≡ member same_permission Permission.admin permissions
admin-discard permission [] h = refl
admin-discard permission (p ∷ permissions) h =
    ground (arith, admin-discard permission permissions h)

module _ (s : Secrets) (store : AuthStore) where
  pub create_user-Stays : (name password : String) → Stays store (create_user s name password store)
  unfolding create_user contains_key
  create_user-Stays name password =
      result_Stays store (validate_password_policy password) (refused-Stays store) λ _ _.
        if_Stays store (contains_key name store.stored.users) (λ _. refused-Stays store _)
          λ absent.
            put_user-Stays store s name (new_user s password)
              λ user e. put_keeps store name user (ground arith)

  pub alter_user_password-Stays :
      (name password : String) → Stays store (alter_user_password s name password store)
  unfolding alter_user_password
  alter_user_password-Stays name password =
      result_Stays store (validate_password_policy password) (refused-Stays store) λ _ _.
        option_Stays store (lookup name store.stored.users) (refused-Stays store _) λ old found.
          put_user-Stays store s name (rehashed s old password)
            λ user e. put_keeps store name user (ground arith)

  pub drop_user-Stays : (name : String) → Stays store (drop_user s name store)
  unfolding drop_user contains_key
  drop_user-Stays name =
      if_Stays store (not (contains_key name store.stored.users)) (λ _. refused-Stays store _)
        λ _.
          if_Stays store (is_last_admin name store) (λ _. refused-Stays store _)
            λ kept. save-Stays store s _ λ v. record {
              users = IsMap-remove name store.stored.users v.users;
              admins =
                  ground (arith, v.admins, count_admins-remove name store.stored.users v.users);
              role = v.role;
            }

  pub create_role-Stays : (role : String) → Stays store (create_role s role store)
  unfolding create_role contains_key
  create_role-Stays role =
      if_Stays store (contains_key role store.stored.roles) (λ _. refused-Stays store _)
        λ absent. put_role-Stays store s role _ (λ e k. ground (arith, eq_iff role admin_role))

  pub drop_role-Stays : (role : String) → Stays store (drop_role s role store)
  unfolding drop_role
  drop_role-Stays role =
      if_Stays store (str_eq role admin_role) (λ _. refused-Stays store _)
        λ other.
          if_Stays store (not (contains_key role store.stored.roles)) (λ _. refused-Stays store _)
            λ _. save-Stays store s _ λ v. record {
              users = IsMap-without_role role store.stored.users v.users;
              admins = rw (count_admins-without_role role store.stored.users other) v.admins;
              role = ground (arith, v.role, lookup-remove role admin_role store.stored.roles);
            }

  pub grant_role-Stays : (role name : String) → Stays store (grant_role s role name store)
  unfolding grant_role
  grant_role-Stays role name =
      if_Stays store (not (contains_key role store.stored.roles)) (λ _. refused-Stays store _)
        λ _.
          option_Stays store (lookup name store.stored.users) (refused-Stays store _) λ old found.
            put_user-Stays store s name (ok (record old { roles = add str_eq role old.roles }))
              λ user e.
                put_keeps store name user (ground (arith, member-add admin_role role old.roles))

  pub revoke_role-Stays : (role name : String) → Stays store (revoke_role s role name store)
  unfolding revoke_role
  revoke_role-Stays role name =
      if_Stays store (str_eq role admin_role && is_last_admin name store)
        (λ _. refused-Stays store _)
        λ kept.
          option_Stays store (lookup name store.stored.users) (refused-Stays store _) λ old found.
            put_user-Stays store s name (ok (record old { roles = discard str_eq role old.roles }))
              λ user e v. ground (
                arith,
                v.admins,
                count_admins-insert name user store.stored.users,
                member-discard admin_role role old.roles,
              )

  pub grant_permission-Stays :
      (permission : Permission) (pattern name : String)
      → Stays store (grant_permission s permission pattern name store)
  unfolding grant_permission
  grant_permission-Stays permission pattern name =
      option_Stays store (lookup name store.stored.roles) (refused-Stays store _)
        λ old found. put_role-Stays store s name _ (λ e k. ground (arith, eq_iff name admin_role))

  pub revoke_permission-Stays :
      (permission : Permission) (pattern name : String)
      → Stays store (revoke_permission s permission pattern name store)
  unfolding revoke_permission
  revoke_permission-Stays permission pattern name =
      if_Stays store
        (str_eq name admin_role
          && same_permission permission Permission.admin
          && str_eq pattern "*")
        (λ _. refused-Stays store _)
        λ kept.
          option_Stays store (lookup name store.stored.roles) (refused-Stays store _) λ old found.
            put_role-Stays store s name (revoked permission pattern old) (λ e k.
              ground (arith, eq_iff name admin_role, admin-discard permission old.permissions))
