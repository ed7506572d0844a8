-- ===== src/Auth/Store/Count.antt =====
-- How the number of enabled administrators follows the changes of the users.
use vaylix.Prelude.{
  ℕ, ◌+◌, ◌≡◌, refl, String, false, none, some, List, [], ◌∷◌, str_eq, eq_iff, arith,
}
use vaylix.Table.{Table, lookup, insert, remove}
use vaylix.Table.Laws.{IsMap, IsFresh, lookup-IsFresh}
use vaylix.Auth.Grants.{member, discard}
use vaylix.Auth.Store.{UserRecord, admin_role, is_admin, one_if, count_admins, without_role}

-- One if the user is an enabled administrator.
abbrev pub admin_at : String → Table UserRecord → ℕ
admin_at name users = elim (lookup name users) [ none ↦ 0 | some user ↦ one_if (is_admin user) ]

pub count_admins-insert :
    (name : String) (user : UserRecord) (users : Table UserRecord)
    → count_admins (insert name user users) + admin_at name users
      ≡ one_if (is_admin user) + count_admins users
unfolding count_admins insert lookup
count_admins-insert name user [] = omega arith
count_admins-insert name user ((other, old) ∷ users) =
    ground (arith, count_admins-insert name user users)

remove_fresh :
    (name : String) (users : Table UserRecord) → IsFresh name users → remove name users ≡ users
unfolding remove
remove_fresh name [] h = refl
remove_fresh name ((other, old) ∷ users) h = ground (arith, remove_fresh name users)

pub count_admins-remove :
    (name : String) (users : Table UserRecord)
    → IsMap users
    → count_admins (remove name users) + admin_at name users ≡ count_admins users
unfolding count_admins remove lookup
count_admins-remove name [] m = refl
count_admins-remove name ((other, old) ∷ users) m = ground (
  arith,
  count_admins-remove name users,
  remove_fresh name users,
  eq_iff other name,
  lookup-IsFresh name users,
)

pub member-discard :
    (x role : String) (roles : List String)
    → str_eq role x ≡ false
    → member str_eq x (discard str_eq role roles) ≡ member str_eq x roles
member-discard x role [] h = refl
member-discard x role (r ∷ roles) h =
    ground (arith, member-discard x role roles h, eq_iff r x, eq_iff r role, eq_iff role x)

pub count_admins-without_role :
    (role : String) (users : Table UserRecord)
    → str_eq role admin_role ≡ false
    → count_admins (without_role role users) ≡ count_admins users
unfolding count_admins without_role
count_admins-without_role role [] h = refl
count_admins-without_role role ((name, user) ∷ users) h =
    ground
      (arith, count_admins-without_role role users h, member-discard admin_role role user.roles h)

IsFresh-without_role :
    (name role : String) (users : Table UserRecord)
    → IsFresh name users
    → IsFresh name (without_role role users)
unfolding without_role
IsFresh-without_role name role [] h = tt
IsFresh-without_role name role (pair ∷ users) h = (h.0, IsFresh-without_role name role users h.1)

pub IsMap-without_role :
    (role : String) (users : Table UserRecord) → IsMap users → IsMap (without_role role users)
unfolding without_role
IsMap-without_role role [] h = tt
IsMap-without_role role (pair ∷ users) h =
    (IsFresh-without_role pair.0 role users h.0, IsMap-without_role role users h.1)
