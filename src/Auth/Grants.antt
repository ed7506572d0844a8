-- ===== src/Auth/Grants.antt =====
-- The permissions, grants and identities of crates/server/src/auth/mod.rs. A `BTreeSet` is a list:
-- what is read of one here does not depend on its order.
use vaylix.Prelude.{
  String, Bool, false, ◌&&◌, ◌||◌, List, [], ◌∷◌, Result, ok, err, str_eq, ◌==◌, ℕ, if◌then◌else◌,
}
use vaylix.Engine.Wildcard.{chars}
use vaylix.Language.Words.{to_ascii_lowercase}
use vaylix.Auth.Error.{ServerError, invalid_permission}
use vaylix.Auth.Pattern.{wildcard_matches, pattern_covers}

pub data Permission : Type 0 where
  read write admin backup restore metrics snapshot clear user_admin role_admin : Permission

-- The position in the source's order, for the tests of equality.
abbrev pub rank : Permission → ℕ
rank Permission.read = 0
rank Permission.write = 1
rank Permission.admin = 2
rank Permission.backup = 3
rank Permission.restore = 4
rank Permission.metrics = 5
rank Permission.snapshot = 6
rank Permission.clear = 7
rank Permission.user_admin = 8
rank Permission.role_admin = 9

abbrev pub same_permission : Permission → Permission → Bool
same_permission p q = rank p == rank q

abbrev pub all_permissions : List Permission
all_permissions =
    Permission.read ∷ Permission.write ∷ Permission.admin ∷ Permission.backup ∷ Permission.restore
    ∷ Permission.metrics ∷ Permission.snapshot ∷ Permission.clear ∷ Permission.user_admin
    ∷ Permission.role_admin ∷ []

-- The permission of a lowercase text.
unfoldable pub named_permission : String → String → Result ServerError Permission
named_permission value word =
    if str_eq word "read"
    then ok Permission.read
    else if str_eq word "write"
    then ok Permission.write
    else if str_eq word "admin"
    then ok Permission.admin
    else if str_eq word "backup"
    then ok Permission.backup
    else if str_eq word "restore"
    then ok Permission.restore
    else if str_eq word "metrics"
    then ok Permission.metrics
    else if str_eq word "snapshot"
    then ok Permission.snapshot
    else if str_eq word "clear"
    then ok Permission.clear
    else if str_eq word "user_admin"
    then ok Permission.user_admin
    else if str_eq word "role_admin"
    then ok Permission.role_admin
    else err (invalid_permission value)

unfoldable pub parse_permission : String → Result ServerError Permission
parse_permission value = named_permission value (to_ascii_lowercase value)

pub record PermissionGrant : Type 0 where
  pub permission : Permission
  pub pattern : String

abbrev pub same_grant : PermissionGrant → PermissionGrant → Bool
same_grant g h = same_permission g.permission h.permission && str_eq g.pattern h.pattern

module _ {A : Type 0} (same : A → A → Bool) where
  abbrev pub member : A → List A → Bool
  member x [] = false
  member x (y ∷ ys) = same y x || member x ys

  abbrev pub add : A → List A → List A
  add x ys = if member x ys then ys else x ∷ ys

  abbrev pub discard : A → List A → List A
  discard x [] = []
  discard x (y ∷ ys) = let rest = discard x ys in if same y x then rest else y ∷ rest

  -- `set.extend(more)`
  abbrev pub extend : List A → List A → List A
  extend ys [] = ys
  extend ys (x ∷ more) = extend (add x ys) more

pub record Identity : Type 0 where
  pub username : String
  pub permissions : List Permission
  pub grants : List PermissionGrant

unfoldable pub has : Identity → Permission → Bool
has identity permission =
    member same_permission Permission.admin identity.permissions
    || member same_permission permission identity.permissions

unfoldable pub any_matches : Permission → List ℕ → List PermissionGrant → Bool
any_matches permission key [] = false
any_matches permission key (g ∷ grants) =
    (same_permission g.permission permission && wildcard_matches (chars g.pattern) key)
    || any_matches permission key grants

unfoldable pub any_covers : Permission → List ℕ → List PermissionGrant → Bool
any_covers permission requested [] = false
any_covers permission requested (g ∷ grants) =
    (same_permission g.permission permission && pattern_covers (chars g.pattern) requested)
    || any_covers permission requested grants

unfoldable pub allows_key : Identity → Permission → String → Bool
allows_key identity permission key =
    member same_permission Permission.admin identity.permissions
    || any_matches permission (chars key) identity.grants

unfoldable pub allows_pattern : Identity → Permission → String → Bool
allows_pattern identity permission requested =
    member same_permission Permission.admin identity.permissions
    || any_covers permission (chars requested) identity.grants
