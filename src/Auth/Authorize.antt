-- ===== src/Auth/Authorize.antt =====
-- crates/server/src/server/authorization.rs: which commands a session may run.
pub mod Scans
use vaylix.Prelude.{
  String, Bool, true, false, ◌&&◌, Option, none, some, List, [], ◌∷◌, Result, ok, err,
  if◌then◌else◌,
}
use vaylix.Engine.Command.{Command, AdminCommand}
use vaylix.Auth.Error.{ServerError, authentication_required, permission_denied}
use vaylix.Auth.Grants.{Permission, Identity, has, allows_key, allows_pattern}

unfoldable pub admin_command_allowed_during_maintenance : AdminCommand → Bool
admin_command_allowed_during_maintenance AdminCommand.info = true
admin_command_allowed_during_maintenance AdminCommand.metrics = true
admin_command_allowed_during_maintenance AdminCommand.metrics_prom = true
admin_command_allowed_during_maintenance AdminCommand.backup = true
admin_command_allowed_during_maintenance (AdminCommand.backup_verify dump) = true
admin_command_allowed_during_maintenance (AdminCommand.backup_verify_from path) = true
admin_command_allowed_during_maintenance AdminCommand.show_users = true
admin_command_allowed_during_maintenance AdminCommand.show_roles = true
admin_command_allowed_during_maintenance AdminCommand.show_grants = true
admin_command_allowed_during_maintenance (AdminCommand.show_grants_for_user name) = true
admin_command_allowed_during_maintenance (AdminCommand.show_grants_for_role role) = true
admin_command_allowed_during_maintenance AdminCommand.who_am_i = true
admin_command_allowed_during_maintenance AdminCommand.maintenance_status = true
admin_command_allowed_during_maintenance AdminCommand.maintenance_off = true
admin_command_allowed_during_maintenance AdminCommand.health = true
admin_command_allowed_during_maintenance AdminCommand.show_replication = true
admin_command_allowed_during_maintenance _ = false

unfoldable pub is_allowed_during_maintenance : Command → Bool
unfolding admin_command_allowed_during_maintenance
is_allowed_during_maintenance (Command.ping message) = true
is_allowed_during_maintenance (Command.get key) = true
is_allowed_during_maintenance (Command.exists key) = true
is_allowed_during_maintenance (Command.get_ex key expiration persist) = true
is_allowed_during_maintenance (Command.mget keys) = true
is_allowed_during_maintenance (Command.ttl key) = true
is_allowed_during_maintenance (Command.scan cursor pattern count) = true
is_allowed_during_maintenance Command.db_size = true
is_allowed_during_maintenance Command.count = true
is_allowed_during_maintenance Command.list = true
is_allowed_during_maintenance (Command.administrative c) =
    admin_command_allowed_during_maintenance c
is_allowed_during_maintenance _ = false

unfoldable pub admin_command_permission : AdminCommand → Option Permission
admin_command_permission (AdminCommand.auth name password) = none
admin_command_permission AdminCommand.multi = none
admin_command_permission AdminCommand.exec = none
admin_command_permission AdminCommand.discard = none
admin_command_permission AdminCommand.maintenance_status = none
admin_command_permission AdminCommand.health = none
admin_command_permission AdminCommand.who_am_i = none
admin_command_permission AdminCommand.info = some Permission.metrics
admin_command_permission AdminCommand.metrics = some Permission.metrics
admin_command_permission AdminCommand.metrics_prom = some Permission.metrics
admin_command_permission AdminCommand.save = some Permission.snapshot
admin_command_permission AdminCommand.snapshot = some Permission.snapshot
admin_command_permission AdminCommand.backup = some Permission.backup
admin_command_permission (AdminCommand.backup_to path) = some Permission.backup
admin_command_permission (AdminCommand.backup_verify dump) = some Permission.backup
admin_command_permission (AdminCommand.backup_verify_from path) = some Permission.backup
admin_command_permission (AdminCommand.restore dump) = some Permission.restore
admin_command_permission (AdminCommand.restore_from path) = some Permission.restore
admin_command_permission (AdminCommand.restore_check dump) = some Permission.restore
admin_command_permission (AdminCommand.restore_check_from path) = some Permission.restore
admin_command_permission (AdminCommand.create_user name password) = some Permission.user_admin
admin_command_permission (AdminCommand.alter_user_password name password) =
    some Permission.user_admin
admin_command_permission (AdminCommand.drop_user name) = some Permission.user_admin
admin_command_permission (AdminCommand.create_role role) = some Permission.role_admin
admin_command_permission (AdminCommand.drop_role role) = some Permission.role_admin
admin_command_permission (AdminCommand.grant_role role name) = some Permission.role_admin
admin_command_permission (AdminCommand.revoke_role role name) = some Permission.role_admin
admin_command_permission (AdminCommand.grant_permission p pattern role) = some Permission.role_admin
admin_command_permission (AdminCommand.revoke_permission p pattern role) =
    some Permission.role_admin
admin_command_permission AdminCommand.show_roles = some Permission.role_admin
admin_command_permission AdminCommand.show_grants = none
admin_command_permission (AdminCommand.show_grants_for_user name) = some Permission.user_admin
admin_command_permission (AdminCommand.show_grants_for_role role) = some Permission.role_admin
admin_command_permission AdminCommand.show_users = some Permission.user_admin
admin_command_permission AdminCommand.maintenance_on = some Permission.admin
admin_command_permission AdminCommand.maintenance_off = some Permission.admin
admin_command_permission AdminCommand.show_replication = some Permission.admin
admin_command_permission AdminCommand.show_cluster = some Permission.admin
admin_command_permission AdminCommand.promote_follower = some Permission.admin
admin_command_permission AdminCommand.pause_replication = some Permission.admin
admin_command_permission AdminCommand.resume_replication = some Permission.admin
admin_command_permission (AdminCommand.cluster_join node address) = some Permission.admin
admin_command_permission (AdminCommand.cluster_remove node) = some Permission.admin
admin_command_permission AdminCommand.help = none
admin_command_permission AdminCommand.exit = none

unfoldable pub command_permission : Command → Option Permission
unfolding admin_command_permission
command_permission (Command.ping message) = none
command_permission (Command.get key) = some Permission.read
command_permission (Command.exists key) = some Permission.read
command_permission (Command.mget keys) = some Permission.read
command_permission (Command.ttl key) = some Permission.read
command_permission (Command.scan cursor pattern count) = some Permission.read
command_permission Command.db_size = some Permission.read
command_permission Command.count = some Permission.read
command_permission Command.list = some Permission.read
command_permission Command.clear = some Permission.clear
command_permission (Command.administrative c) = admin_command_permission c
command_permission _ = some Permission.write

abbrev keys_of : {V : Type 0} → List (String × V) → List String
keys_of [] = []
keys_of (e ∷ entries) = e.0 ∷ keys_of entries

unfoldable pub command_keys : Command → List String
command_keys (Command.get key) = key ∷ []
command_keys (Command.get_del key) = key ∷ []
command_keys (Command.get_ex key expiration persist) = key ∷ []
command_keys (Command.set key value options) = key ∷ []
command_keys (Command.set_nx key value) = key ∷ []
command_keys (Command.exists key) = key ∷ []
command_keys (Command.incr key) = key ∷ []
command_keys (Command.decr key) = key ∷ []
command_keys (Command.expire key seconds) = key ∷ []
command_keys (Command.ttl key) = key ∷ []
command_keys (Command.persist key) = key ∷ []
command_keys (Command.mget keys) = keys
command_keys (Command.delete keys) = keys
command_keys (Command.mset entries) = keys_of entries
command_keys (Command.rename source destination) = source ∷ destination ∷ []
command_keys (Command.rename_nx source destination) = source ∷ destination ∷ []
command_keys _ = []

abbrev pub or_star : Option String → String
or_star none = "*"
or_star (some pattern) = pattern

unfoldable pub command_pattern : Command → Option String
command_pattern (Command.scan cursor pattern count) = some (or_star pattern)
command_pattern _ = none

unfoldable pub all_allowed : Identity → Permission → List String → Bool
all_allowed identity permission [] = true
all_allowed identity permission (key ∷ keys) =
    allows_key identity permission key && all_allowed identity permission keys

-- A command with no keys, by its pattern or else by its permission alone.
unfoldable pub keyless_allowed : Identity → Permission → Option String → Bool
keyless_allowed identity permission none = has identity permission
keyless_allowed identity permission (some pattern) = allows_pattern identity permission pattern

unfoldable pub permitted : Identity → Permission → Option String → List String → Bool
unfolding keyless_allowed all_allowed
permitted identity permission pattern [] = keyless_allowed identity permission pattern
permitted identity permission pattern (key ∷ keys) = all_allowed identity permission (key ∷ keys)

-- The command and the identity of the session.
unfoldable pub authorize_command : Command → Option Identity → Result ServerError (Unit {0})
unfolding permitted
authorize_command command session = elim (command_permission command) [
  | none ↦ ok tt
  | some permission ↦ elim session [
    | none ↦ err authentication_required
    | some identity ↦
        if permitted identity permission (command_pattern command) (command_keys command)
        then ok tt
        else err permission_denied
  ]
]
