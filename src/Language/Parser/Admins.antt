-- ===== src/Language/Parser/Admins.antt =====
-- The parsers of the commands on users, storage and the cluster keep the promise of Good.
use vaylix.Prelude.{Bool, ◌&&◌, not, List, [], ◌∷◌, str_eq}
use vaylix.Engine.Command.{AdminCommand}
use vaylix.Language.Error.{invalid_arity, invalid_option}
use vaylix.Language.Lexer.{Token}
use vaylix.Language.Words.{token_text, keyword, is_word}
use vaylix.Language.Parser.{
  parse_auth, parse_backup, parse_metrics, parse_restore, parse_maintenance, parse_promote,
  parse_cluster, cluster_join, cluster_remove, parse_replication_toggle, parse_alter, parse_create,
  create_user, create_role, parse_drop, drop_user, drop_role, parse_grant, parse_revoke, parse_show,
}
use vaylix.Language.Parser.Good.{Good, bad, choose, command}

pub parse_auth-Yields : (ts : List Token) → Good (parse_auth ts)
unfolding parse_auth
parse_auth-Yields (_ ∷ u ∷ p ∷ []) = command _
parse_auth-Yields _ = bad _

pub parse_backup-Yields : (ts : List Token) → Good (parse_backup ts)
unfolding parse_backup
parse_backup-Yields (_ ∷ []) = command _
parse_backup-Yields (_ ∷ x ∷ y ∷ []) =
    choose (is_word "to" x) (command (AdminCommand.backup_to (token_text y))) (
      choose (is_word "verify" x && not (is_word "from" y))
        (command (AdminCommand.backup_verify (token_text y)))
        (bad (
          invalid_arity
            "backup [to <path>] | backup verify <logical-dump-json> | backup verify from <path>")))
parse_backup-Yields (_ ∷ x ∷ y ∷ z ∷ []) = choose _ (command _) (bad _)
parse_backup-Yields _ = bad _

pub parse_restore-Yields : (ts : List Token) → Good (parse_restore ts)
unfolding parse_restore
parse_restore-Yields (_ ∷ x ∷ []) = command _
parse_restore-Yields (_ ∷ x ∷ y ∷ []) =
    choose (is_word "from" x) (command (AdminCommand.restore_from (token_text y))) (
      choose (is_word "check" x && not (is_word "from" y))
        (command (AdminCommand.restore_check (token_text y)))
        (bad (
          invalid_arity
            "restore <logical-dump-json> | restore from <path> | restore check <logical-dump-json> | restore check from <path>")))
parse_restore-Yields (_ ∷ x ∷ y ∷ z ∷ []) = choose _ (command _) (bad _)
parse_restore-Yields _ = bad _

pub parse_metrics-Yields : (ts : List Token) → Good (parse_metrics ts)
unfolding parse_metrics
parse_metrics-Yields (_ ∷ []) = command _
parse_metrics-Yields (_ ∷ x ∷ []) = choose _ (command _) (bad _)
parse_metrics-Yields _ = bad _

pub parse_maintenance-Yields : (ts : List Token) → Good (parse_maintenance ts)
unfolding parse_maintenance
parse_maintenance-Yields (_ ∷ x ∷ []) =
    choose (str_eq (keyword x) "on") (command AdminCommand.maintenance_on) (
      choose (str_eq (keyword x) "off") (command AdminCommand.maintenance_off) (
        choose (str_eq (keyword x) "status") (command AdminCommand.maintenance_status)
          (bad (invalid_arity "maintenance <on|off|status>"))))
parse_maintenance-Yields _ = bad _

pub parse_promote-Yields : (ts : List Token) → Good (parse_promote ts)
unfolding parse_promote
parse_promote-Yields (_ ∷ x ∷ []) = choose _ (command _) (bad _)
parse_promote-Yields _ = bad _

pub cluster_join-Yields : (ts : List Token) → Good (cluster_join ts)
unfolding cluster_join
cluster_join-Yields (n ∷ a ∷ []) = command _
cluster_join-Yields _ = bad _

pub cluster_remove-Yields : (ts : List Token) → Good (cluster_remove ts)
unfolding cluster_remove
cluster_remove-Yields (n ∷ []) = command _
cluster_remove-Yields _ = bad _

pub parse_cluster-Yields : (ts : List Token) → Good (parse_cluster ts)
unfolding parse_cluster
parse_cluster-Yields (_ ∷ x ∷ rest) =
    choose (str_eq (keyword x) "join") (cluster_join-Yields rest)
      (choose (str_eq (keyword x) "remove") (cluster_remove-Yields rest) (bad _))
parse_cluster-Yields _ = bad _

pub parse_replication_toggle-Yields :
    (ts : List Token) (pause : Bool) → Good (parse_replication_toggle ts pause)
unfolding parse_replication_toggle
parse_replication_toggle-Yields (_ ∷ x ∷ []) pause = choose _ (command _) (bad _)
parse_replication_toggle-Yields _ pause = bad _

pub parse_alter-Yields : (ts : List Token) → Good (parse_alter ts)
unfolding parse_alter
parse_alter-Yields (_ ∷ x ∷ u ∷ y ∷ p ∷ []) = choose _ (bad _) (command _)
parse_alter-Yields _ = bad _

pub create_user-Yields : (ts : List Token) → Good (create_user ts)
unfolding create_user
create_user-Yields (u ∷ x ∷ p ∷ []) = choose _ (bad _) (command _)
create_user-Yields _ = bad _

pub create_role-Yields : (ts : List Token) → Good (create_role ts)
unfolding create_role
create_role-Yields (r ∷ []) = command _
create_role-Yields _ = bad _

pub parse_create-Yields : (ts : List Token) → Good (parse_create ts)
unfolding parse_create
parse_create-Yields (_ ∷ x ∷ y ∷ rest) =
    choose (str_eq (keyword x) "user") (create_user-Yields (y ∷ rest))
      (choose (str_eq (keyword x) "role") (create_role-Yields (y ∷ rest)) (bad _))
parse_create-Yields _ = bad _

pub drop_user-Yields : (ts : List Token) → Good (drop_user ts)
unfolding drop_user
drop_user-Yields (u ∷ []) = command _
drop_user-Yields _ = bad _

pub drop_role-Yields : (ts : List Token) → Good (drop_role ts)
unfolding drop_role
drop_role-Yields (r ∷ []) = command _
drop_role-Yields _ = bad _

pub parse_drop-Yields : (ts : List Token) → Good (parse_drop ts)
unfolding parse_drop
parse_drop-Yields (_ ∷ x ∷ y ∷ rest) =
    choose (str_eq (keyword x) "user") (drop_user-Yields (y ∷ rest))
      (choose (str_eq (keyword x) "role") (drop_role-Yields (y ∷ rest)) (bad _))
parse_drop-Yields _ = bad _

pub parse_grant-Yields : (ts : List Token) → Good (parse_grant ts)
unfolding parse_grant
parse_grant-Yields (_ ∷ x ∷ a ∷ t ∷ c ∷ []) =
    choose (str_eq (keyword x) "role" && is_word "to" t)
      (command (AdminCommand.grant_role (token_text a) (token_text c)))
      (choose (str_eq (keyword x) "permission" && is_word "to" t)
        (command (AdminCommand.grant_permission (token_text a) "*" (token_text c)))
        (bad (invalid_option "grant" (keyword x))))
parse_grant-Yields (_ ∷ x ∷ a ∷ o ∷ p ∷ t ∷ c ∷ []) = choose _ (command _) (bad _)
parse_grant-Yields _ = bad _

pub parse_revoke-Yields : (ts : List Token) → Good (parse_revoke ts)
unfolding parse_revoke
parse_revoke-Yields (_ ∷ x ∷ a ∷ t ∷ c ∷ []) =
    choose (str_eq (keyword x) "role" && is_word "from" t)
      (command (AdminCommand.revoke_role (token_text a) (token_text c)))
      (choose (str_eq (keyword x) "permission" && is_word "from" t)
        (command (AdminCommand.revoke_permission (token_text a) "*" (token_text c)))
        (bad (invalid_option "revoke" (keyword x))))
parse_revoke-Yields (_ ∷ x ∷ a ∷ o ∷ p ∷ t ∷ c ∷ []) = choose _ (command _) (bad _)
parse_revoke-Yields _ = bad _

pub parse_show-Yields : (ts : List Token) → Good (parse_show ts)
unfolding parse_show
parse_show-Yields (_ ∷ x ∷ []) =
    choose (str_eq (keyword x) "users") (command AdminCommand.show_users) (
      choose (str_eq (keyword x) "roles") (command AdminCommand.show_roles) (
        choose (str_eq (keyword x) "grants") (command AdminCommand.show_grants) (
          choose (str_eq (keyword x) "replication") (command AdminCommand.show_replication) (
            choose (str_eq (keyword x) "cluster") (command AdminCommand.show_cluster)
              (bad (invalid_option "show" (keyword x)))))))
parse_show-Yields (_ ∷ x ∷ f ∷ k ∷ n ∷ []) =
    choose (str_eq (keyword x) "grants" && (is_word "for" f && is_word "user" k))
      (command (AdminCommand.show_grants_for_user (token_text n)))
      (choose (str_eq (keyword x) "grants" && (is_word "for" f && is_word "role" k))
        (command (AdminCommand.show_grants_for_role (token_text n)))
        (bad (invalid_option "show" (keyword x))))
parse_show-Yields _ = bad _
