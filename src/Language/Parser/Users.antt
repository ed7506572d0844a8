-- ===== src/Language/Parser/Users.antt =====
-- The commands on users, storage and the cluster in crates/command/src/parser.rs.
use vaylix.Prelude.{Bool, ◌&&◌, ◌||◌, not, List, [], ◌∷◌, Result, ok, err, str_eq, if◌then◌else◌}
use vaylix.Engine.Command.{Command, AdminCommand}
use vaylix.Language.Error.{CommandError, invalid_arity, invalid_option}
use vaylix.Language.Lexer.{Token}
use vaylix.Language.Words.{token_text, keyword, is_word}

abbrev pub admin : AdminCommand → Result CommandError Command
admin c = ok (Command.administrative c)

unfoldable pub parse_auth : List Token → Result CommandError Command
parse_auth (_ ∷ u ∷ p ∷ []) = admin (AdminCommand.auth (token_text u) (token_text p))
parse_auth _ = err (invalid_arity "auth <username> <password>")

abbrev pub backup_usage : Result CommandError Command
backup_usage = err (
    invalid_arity
      "backup [to <path>] | backup verify <logical-dump-json> | backup verify from <path>")

unfoldable pub parse_backup : List Token → Result CommandError Command
parse_backup (_ ∷ []) = admin AdminCommand.backup
parse_backup (_ ∷ x ∷ y ∷ []) =
    if is_word "to" x
    then admin (AdminCommand.backup_to (token_text y))
    else if is_word "verify" x && not (is_word "from" y)
    then admin (AdminCommand.backup_verify (token_text y))
    else backup_usage
parse_backup (_ ∷ x ∷ y ∷ z ∷ []) =
    if is_word "verify" x && is_word "from" y
    then admin (AdminCommand.backup_verify_from (token_text z))
    else backup_usage
parse_backup _ = backup_usage

unfoldable pub parse_metrics : List Token → Result CommandError Command
parse_metrics (_ ∷ []) = admin AdminCommand.metrics
parse_metrics (_ ∷ x ∷ []) =
    if is_word "prom" x
    then admin AdminCommand.metrics_prom
    else err (invalid_arity "metrics [prom]")
parse_metrics _ = err (invalid_arity "metrics [prom]")

abbrev pub restore_usage : Result CommandError Command
restore_usage = err (
    invalid_arity
      "restore <logical-dump-json> | restore from <path> | restore check <logical-dump-json> | restore check from <path>")

unfoldable pub parse_restore : List Token → Result CommandError Command
parse_restore (_ ∷ dump ∷ []) = admin (AdminCommand.restore (token_text dump))
parse_restore (_ ∷ x ∷ y ∷ []) =
    if is_word "from" x
    then admin (AdminCommand.restore_from (token_text y))
    else if is_word "check" x && not (is_word "from" y)
    then admin (AdminCommand.restore_check (token_text y))
    else restore_usage
parse_restore (_ ∷ x ∷ y ∷ z ∷ []) =
    if is_word "check" x && is_word "from" y
    then admin (AdminCommand.restore_check_from (token_text z))
    else restore_usage
parse_restore _ = restore_usage

unfoldable pub parse_maintenance : List Token → Result CommandError Command
parse_maintenance (_ ∷ x ∷ []) =
    let word = keyword x in
    if str_eq word "on"
    then admin AdminCommand.maintenance_on
    else if str_eq word "off"
    then admin AdminCommand.maintenance_off
    else if str_eq word "status"
    then admin AdminCommand.maintenance_status
    else err (invalid_arity "maintenance <on|off|status>")
parse_maintenance _ = err (invalid_arity "maintenance <on|off|status>")

unfoldable pub parse_promote : List Token → Result CommandError Command
parse_promote (_ ∷ x ∷ []) =
    if str_eq (keyword x) "follower"
    then admin AdminCommand.promote_follower
    else err (invalid_arity "promote follower")
parse_promote _ = err (invalid_arity "promote follower")

unfoldable pub cluster_join : List Token → Result CommandError Command
cluster_join (n ∷ a ∷ []) = admin (AdminCommand.cluster_join (token_text n) (token_text a))
cluster_join _ = err (invalid_arity "cluster join <node-id> <host:port>")

unfoldable pub cluster_remove : List Token → Result CommandError Command
cluster_remove (n ∷ []) = admin (AdminCommand.cluster_remove (token_text n))
cluster_remove _ = err (invalid_arity "cluster remove <node-id>")

unfoldable pub parse_cluster : List Token → Result CommandError Command
parse_cluster (_ ∷ x ∷ rest) =
    let word = keyword x in
    if str_eq word "join"
    then cluster_join rest
    else if str_eq word "remove"
    then cluster_remove rest
    else err (invalid_option "cluster" word)
parse_cluster _ = err (invalid_arity "cluster <join|remove> ...")

abbrev pub toggle_usage : Bool → Result CommandError Command
toggle_usage pause =
    err (invalid_arity (if pause then "pause replication" else "resume replication"))

unfoldable pub parse_replication_toggle : List Token → Bool → Result CommandError Command
parse_replication_toggle (_ ∷ x ∷ []) pause =
    if str_eq (keyword x) "replication"
    then admin (if pause then AdminCommand.pause_replication else AdminCommand.resume_replication)
    else toggle_usage pause
parse_replication_toggle _ pause = toggle_usage pause

abbrev pub alter_usage : Result CommandError Command
alter_usage = err (invalid_arity "alter user <username> password <password>")

unfoldable pub parse_alter : List Token → Result CommandError Command
parse_alter (_ ∷ x ∷ u ∷ y ∷ p ∷ []) =
    if not (is_word "user" x) || not (is_word "password" y)
    then alter_usage
    else admin (AdminCommand.alter_user_password (token_text u) (token_text p))
parse_alter _ = alter_usage

unfoldable pub create_user : List Token → Result CommandError Command
create_user (u ∷ x ∷ p ∷ []) =
    if not (is_word "password" x)
    then err (invalid_arity "create user <username> password <password>")
    else admin (AdminCommand.create_user (token_text u) (token_text p))
create_user _ = err (invalid_arity "create user <username> password <password>")

unfoldable pub create_role : List Token → Result CommandError Command
create_role (r ∷ []) = admin (AdminCommand.create_role (token_text r))
create_role _ = err (invalid_arity "create role <role>")

unfoldable pub parse_create : List Token → Result CommandError Command
parse_create (_ ∷ x ∷ y ∷ rest) =
    let word = keyword x in
    if str_eq word "user"
    then create_user (y ∷ rest)
    else if str_eq word "role"
    then create_role (y ∷ rest)
    else err (invalid_option "create" word)
parse_create _ =
    err (invalid_arity "create user <username> password <password> | create role <role>")

unfoldable pub drop_user : List Token → Result CommandError Command
drop_user (u ∷ []) = admin (AdminCommand.drop_user (token_text u))
drop_user _ = err (invalid_arity "drop user <username>")

unfoldable pub drop_role : List Token → Result CommandError Command
drop_role (r ∷ []) = admin (AdminCommand.drop_role (token_text r))
drop_role _ = err (invalid_arity "drop role <role>")

unfoldable pub parse_drop : List Token → Result CommandError Command
parse_drop (_ ∷ x ∷ y ∷ rest) =
    let word = keyword x in
    if str_eq word "user"
    then drop_user (y ∷ rest)
    else if str_eq word "role"
    then drop_role (y ∷ rest)
    else err (invalid_option "drop" word)
parse_drop _ = err (invalid_arity "drop user <username> | drop role <role>")

unfoldable pub parse_grant : List Token → Result CommandError Command
parse_grant (_ ∷ x ∷ a ∷ to ∷ c ∷ []) =
    let word = keyword x in
    if str_eq word "role" && is_word "to" to
    then admin (AdminCommand.grant_role (token_text a) (token_text c))
    else if str_eq word "permission" && is_word "to" to
    then admin (AdminCommand.grant_permission (token_text a) "*" (token_text c))
    else err (invalid_option "grant" word)
parse_grant (_ ∷ x ∷ a ∷ on ∷ p ∷ to ∷ c ∷ []) =
    let word = keyword x in
    if str_eq word "permission" && (is_word "on" on && is_word "to" to)
    then admin (AdminCommand.grant_permission (token_text a) (token_text p) (token_text c))
    else err (invalid_option "grant" word)
parse_grant _ = err (
    invalid_arity
      "grant role <role> to <username> | grant permission <permission> [on <pattern>] to <role>")

unfoldable pub parse_revoke : List Token → Result CommandError Command
parse_revoke (_ ∷ x ∷ a ∷ from ∷ c ∷ []) =
    let word = keyword x in
    if str_eq word "role" && is_word "from" from
    then admin (AdminCommand.revoke_role (token_text a) (token_text c))
    else if str_eq word "permission" && is_word "from" from
    then admin (AdminCommand.revoke_permission (token_text a) "*" (token_text c))
    else err (invalid_option "revoke" word)
parse_revoke (_ ∷ x ∷ a ∷ on ∷ p ∷ from ∷ c ∷ []) =
    let word = keyword x in
    if str_eq word "permission" && (is_word "on" on && is_word "from" from)
    then admin (AdminCommand.revoke_permission (token_text a) (token_text p) (token_text c))
    else err (invalid_option "revoke" word)
parse_revoke _ = err (
    invalid_arity
      "revoke role <role> from <username> | revoke permission <permission> [on <pattern>] from <role>")

unfoldable pub parse_show : List Token → Result CommandError Command
parse_show (_ ∷ x ∷ []) =
    let word = keyword x in
    if str_eq word "users"
    then admin AdminCommand.show_users
    else if str_eq word "roles"
    then admin AdminCommand.show_roles
    else if str_eq word "grants"
    then admin AdminCommand.show_grants
    else if str_eq word "replication"
    then admin AdminCommand.show_replication
    else if str_eq word "cluster"
    then admin AdminCommand.show_cluster
    else err (invalid_option "show" word)
parse_show (_ ∷ x ∷ for ∷ kind ∷ name ∷ []) =
    let word = keyword x in
    if str_eq word "grants" && (is_word "for" for && is_word "user" kind)
    then admin (AdminCommand.show_grants_for_user (token_text name))
    else if str_eq word "grants" && (is_word "for" for && is_word "role" kind)
    then admin (AdminCommand.show_grants_for_role (token_text name))
    else err (invalid_option "show" word)
parse_show _ = err (
    invalid_arity
      "show users | show roles | show grants | show grants for user <username> | show grants for role <role> | show replication | show cluster")
