-- ===== src/Engine/Command.antt =====
-- crates/command/src/command.rs: a parsed command, and the answers of
-- crates/engine/src/engine/traits.rs. The commands that no transaction runs are kept together.
use vaylix.Prelude.{ℕ, String, Bool, Option, List}
use vaylix.Engine.Integer.{ℤ}

pub data SetCondition : Type 0 where
  nx xx : SetCondition

-- `Ex` seconds and `Px` milliseconds; the engine's own `Expiration` has the same two cases.
pub data Expiration : Type 0 where
  ex px : ℕ → Expiration

pub record SetOptions : Type 0 where
  pub condition : Option SetCondition
  pub if_version : Option ℕ
  pub expiration : Option Expiration
  pub keep_ttl : Bool
  pub return_previous : Bool

-- The commands of sessions, users, storage and the cluster.
pub data AdminCommand : Type 0 where
  info metrics metrics_prom save snapshot backup : AdminCommand
  backup_to backup_verify backup_verify_from : String → AdminCommand
  restore restore_from restore_check restore_check_from : String → AdminCommand
  auth alter_user_password create_user : String → String → AdminCommand
  drop_user create_role drop_role : String → AdminCommand
  grant_role revoke_role : String → String → AdminCommand
  grant_permission revoke_permission : String → String → String → AdminCommand
  show_users show_roles show_grants who_am_i : AdminCommand
  show_grants_for_user show_grants_for_role : String → AdminCommand
  maintenance_on maintenance_off maintenance_status health : AdminCommand
  show_cluster show_replication : AdminCommand
  cluster_join : String → String → AdminCommand
  cluster_remove : String → AdminCommand
  promote_follower pause_replication resume_replication : AdminCommand
  multi exec discard help exit : AdminCommand

pub data Command : Type 0 where
  ping : Option String → Command
  get get_del exists incr decr ttl persist : String → Command
  get_ex : String → Option Expiration → Bool → Command
  set : String → List ℕ → SetOptions → Command
  set_nx : String → List ℕ → Command
  mget delete : List String → Command
  mset : List (String × List ℕ) → Command
  expire : String → ℕ → Command
  rename rename_nx : String → String → Command
  scan : ℕ → Option String → Option ℕ → Command
  db_size count list clear : Command
  administrative : AdminCommand → Command

pub record ScanPage : Type 0 where
  pub next_cursor : ℕ
  pub keys : List String

pub data TransactionResult : Type 0 where
  ok not_found : TransactionResult
  value : List ℕ → TransactionResult
  boolean : Bool → TransactionResult
  count : ℕ → TransactionResult
  integer : ℤ → TransactionResult
  entries : List (String × List ℕ) → TransactionResult
  strings : List (Option (List ℕ)) → TransactionResult
  scan : ScanPage → TransactionResult
