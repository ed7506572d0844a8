-- ===== src/Examples/Access.antt =====
-- Instances of the theorems on users, roles and grants.
use vaylix.Prelude.{◌≡◌, refl, String, true, false, none, some, List, [], ◌∷◌, ok, str_eq, All}
use vaylix.Table.{lookup}
use vaylix.Engine.Command.{Command}
use vaylix.Engine.Wildcard.{chars}
use vaylix.Engine.Scan.{matching, scan_page}
use vaylix.Auth.Grants.{Permission, PermissionGrant, Identity, has, allows_key}
use vaylix.Auth.Pattern.Globs.{IsSimple}
use vaylix.Auth.Store.{
  Secrets, UserRecord, StoredAuth, AuthStore, admin_role, is_admin, verify, new_config, admin_roles,
}
use vaylix.Auth.Store.Stays.{IsOpen}
use vaylix.Auth.Operations.{Operation, run}
use vaylix.Auth.Operations.Lockout.{new_config-IsOpen, run-administrator, verify-run}
use vaylix.Auth.Bootstrap.{reconcile_configured_bootstrap_admin}
use vaylix.Auth.Bootstrap.Reconciled.{reconcile_configured_bootstrap_admin-IsOpen}
use vaylix.Auth.Authorize.{authorize_command}
use vaylix.Auth.Authorize.Scans.{authorize_command-scan_page}

-- A hash that is the password itself.
abbrev plain : Secrets
plain = record {
  hash_password = λ password. ok password;
  password_matches = λ hash password. ok (str_eq hash password);
  bad_save = none;
}

abbrev root : UserRecord
root = record { password_hash = "vaylix"; roles = admin_role ∷ []; disabled = false }

abbrev fresh : AuthStore
fresh = record {
  stored = record {
    version = 2;
    users = ("root", root) ∷ [];
    roles = admin_roles;
    bootstrap_admin = some "root";
  };
  persist = false;
}

fresh-IsOpen : IsOpen fresh.stored
unfolding new_config vaylix.Auth.Store.bootstrap_store
fresh-IsOpen = new_config-IsOpen plain "root" "vaylix" fresh refl

-- A second user, and the attempts to drop the administrator and to take the role away.
abbrev attempts : List Operation
attempts =
    Operation.create_user "ann" "a_password_1"
    ∷ Operation.drop_user "root"
    ∷ Operation.revoke_role "admin" "root"
    ∷ Operation.drop_role "admin"
    ∷ Operation.revoke_permission Permission.admin "*" "admin"
    ∷ []

run-administrator_example :
    (name : String) × (user : UserRecord) × (lookup name (run plain attempts fresh).stored.users
      ≡ some user)
    × (is_admin user ≡ true)
run-administrator_example = run-administrator plain attempts fresh fresh-IsOpen

verify-run_example :
    (identity : Identity) × (verify plain (run plain attempts fresh) "root" "vaylix"
      ≡ ok (some identity))
    × (has identity Permission.clear ≡ true)
unfolding chars lookup run vaylix.Auth.Operations.perform vaylix.Auth.Store.count_admins
    vaylix.Auth.Store.create_user vaylix.Auth.Store.drop_role vaylix.Auth.Store.drop_user
    vaylix.Auth.Store.revoke_permission vaylix.Auth.Store.revoke_role
    vaylix.Auth.Store.validate_password_policy vaylix.Table.contains_key vaylix.Table.insert
    vaylix.Text.as_bytes vaylix.Text.utf8_char
verify-run_example =
    verify-run plain attempts fresh "root" "vaylix" root Permission.clear fresh-IsOpen refl refl
      refl

abbrev guest_of : String → Identity
guest_of pattern = record {
  username = "guest";
  permissions = [];
  grants = record { permission = Permission.read; pattern = pattern } ∷ [];
}

abbrev some_keys : List String
some_keys = "app:1" ∷ "app:2" ∷ "user1" ∷ []

authorize_command-scan_page_example :
    All
      (λ key. allows_key (guest_of "app:*") Permission.read key ≡ true)
      (scan_page 0 none (matching (some "app:*") some_keys)).keys
unfolding authorize_command chars vaylix.Auth.Authorize.command_keys
    vaylix.Auth.Authorize.command_pattern vaylix.Auth.Authorize.command_permission
    vaylix.Auth.Grants.allows_pattern vaylix.Auth.Grants.any_covers
    vaylix.Auth.Pattern.pattern_covers
authorize_command-scan_page_example =
    authorize_command-scan_page (guest_of "app:*") 0 (some "app:*") none some_keys
      (IsSimple.prefix (chars "app:") refl, tt) refl

-- A grant with a question mark, which SCAN reads as any character and a grant as itself.
question_authorized :
    authorize_command (Command.scan 0 (some "user?") none) (some (guest_of "user?")) ≡ ok tt
unfolding authorize_command chars vaylix.Auth.Authorize.command_keys
    vaylix.Auth.Authorize.command_pattern vaylix.Auth.Authorize.command_permission
    vaylix.Auth.Grants.allows_pattern vaylix.Auth.Grants.any_covers
    vaylix.Auth.Pattern.pattern_covers
question_authorized = refl

question_scanned : (scan_page 0 none (matching (some "user?") some_keys)).keys ≡ "user1" ∷ []
unfolding matching scan_page
question_scanned = refl

question_unreadable : allows_key (guest_of "user?") Permission.read "user1" ≡ false
unfolding allows_key chars vaylix.Auth.Grants.any_matches vaylix.Auth.Pattern.wildcard_matches
question_unreadable = refl

-- The administrator of the configuration is now `ann`, who takes the place of `root`.
abbrev ann : UserRecord
ann = record { password_hash = "another_1234"; roles = admin_role ∷ []; disabled = false }

abbrev reconciled : StoredAuth
reconciled = record {
  version = 2;
  users = ("ann", ann) ∷ [];
  roles = admin_roles;
  bootstrap_admin = some "ann";
}

reconcile_configured_bootstrap_admin-IsOpen_example :
    IsOpen reconciled
    × (user : UserRecord) × (lookup "ann" reconciled.users ≡ some user)
    × (is_admin user ≡ true)
unfolding lookup reconcile_configured_bootstrap_admin vaylix.Auth.Bootstrap.ensure_admin_role
    vaylix.Auth.Bootstrap.remove_admin_user_if_present
    vaylix.Auth.Bootstrap.retire_legacy_default_bootstrap_user
    vaylix.Auth.Bootstrap.retire_previous_bootstrap_admin vaylix.Table.insert vaylix.Table.remove
reconcile_configured_bootstrap_admin-IsOpen_example =
    reconcile_configured_bootstrap_admin-IsOpen plain fresh.stored reconciled "ann" "another_1234"
      (tt, tt) refl refl
