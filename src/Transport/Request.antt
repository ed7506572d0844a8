-- ===== src/Transport/Request.antt =====
-- `RequestMetadata`, `Request`, `from_command` and `into_command` of
-- crates/transport/src/request/mod.rs.
mod Encode
mod Decode
pub mod Trips
mod Payloads
mod Calm
pub mod RoundTrip
pub mod Panics
unfoldable pub use Encode.*
unfoldable pub use Decode.*
use vaylix.Prelude.{ℕ, String, Option, none, List, [], Result, ok, err, ◌>>=◌, ◌>>◌}
use vaylix.Engine.Command.{Command, AdminCommand}
use vaylix.Transport.Error.{TransportError, unsupported_command, Decoded, fail}
use vaylix.Transport.Buf.{Buf}
use vaylix.Transport.Opcode.{Opcode}

pub record RequestMetadata : Type 0 where
  pub deadline_ms : Option ℕ
  pub trace_id : Option (List ℕ)
  pub sequence : Option ℕ

-- Identifiers are the 16 bytes of a `Uuid`.
pub record Request : Type 0 where
  pub request_id : List ℕ
  pub opcode : Opcode
  pub payload : List ℕ
  pub metadata : RequestMetadata

abbrev pub no_metadata : RequestMetadata
no_metadata = record { deadline_ms = none; trace_id = none; sequence = none }

abbrev pub new_request : List ℕ → Opcode → List ℕ → Request
new_request id opcode payload = record {
  request_id = id;
  opcode = opcode;
  payload = payload;
  metadata = no_metadata;
}

abbrev pub with_metadata : RequestMetadata → Request → Request
with_metadata metadata request = record request { metadata = metadata }

abbrev pub tagged : Opcode → Encoded → Result TransportError (Opcode × List ℕ)
tagged opcode encoded = encoded >>= λ payload. ok (opcode, payload)

module _ (b : Buf) where
  -- The opcode and the payload of a command.
  unfoldable pub payload_of : Command → Result TransportError (Opcode × List ℕ)
  payload_of (Command.ping message) = tagged Opcode.ping (encode_optional_string b message)
  payload_of (Command.get key) = tagged Opcode.get (encode_key b key)
  payload_of (Command.get_del key) = tagged Opcode.get_del (encode_key b key)
  payload_of (Command.exists key) = tagged Opcode.exists (encode_key b key)
  payload_of (Command.incr key) = tagged Opcode.incr (encode_key b key)
  payload_of (Command.decr key) = tagged Opcode.decr (encode_key b key)
  payload_of (Command.ttl key) = tagged Opcode.ttl (encode_key b key)
  payload_of (Command.persist key) = tagged Opcode.persist (encode_key b key)
  payload_of (Command.get_ex key expiration persist) =
      tagged Opcode.get_ex (encode_get_ex b key expiration persist)
  payload_of (Command.set key value options) = tagged Opcode.set (encode_set b key value options)
  payload_of (Command.set_nx key value) = tagged Opcode.set_nx (encode_key_bytes b key value)
  payload_of (Command.mget keys) = tagged Opcode.mget (encode_keys b keys)
  payload_of (Command.mset entries) = tagged Opcode.mset (encode_byte_pairs b entries)
  payload_of (Command.delete keys) = tagged Opcode.delete (encode_keys b keys)
  payload_of (Command.expire key seconds) = tagged Opcode.expire (encode_key_u64 b key seconds)
  payload_of (Command.rename source destination) =
      tagged Opcode.rename (encode_key_value b source destination)
  payload_of (Command.rename_nx source destination) =
      tagged Opcode.rename_nx (encode_key_value b source destination)
  payload_of (Command.scan cursor pattern count) =
      tagged Opcode.scan (encode_scan b cursor pattern count)
  payload_of Command.db_size = tagged Opcode.db_size (ok [])
  payload_of Command.list = tagged Opcode.list (ok [])
  payload_of Command.clear = tagged Opcode.clear (ok [])
  payload_of Command.count = tagged Opcode.count (ok [])
  payload_of (Command.administrative AdminCommand.info) = tagged Opcode.info (ok [])
  payload_of (Command.administrative AdminCommand.metrics) = tagged Opcode.metrics (ok [])
  payload_of (Command.administrative AdminCommand.metrics_prom) = tagged Opcode.metrics_prom (ok [])
  payload_of (Command.administrative AdminCommand.save) = tagged Opcode.save (ok [])
  payload_of (Command.administrative AdminCommand.snapshot) = tagged Opcode.snapshot (ok [])
  payload_of (Command.administrative AdminCommand.backup) = tagged Opcode.backup (ok [])
  payload_of (Command.administrative AdminCommand.show_users) = tagged Opcode.show_users (ok [])
  payload_of (Command.administrative AdminCommand.show_roles) = tagged Opcode.show_roles (ok [])
  payload_of (Command.administrative AdminCommand.show_grants) = tagged Opcode.show_grants (ok [])
  payload_of (Command.administrative AdminCommand.who_am_i) = tagged Opcode.who_am_i (ok [])
  payload_of (Command.administrative AdminCommand.multi) = tagged Opcode.multi (ok [])
  payload_of (Command.administrative AdminCommand.exec) = tagged Opcode.exec (ok [])
  payload_of (Command.administrative AdminCommand.discard) = tagged Opcode.discard (ok [])
  payload_of (Command.administrative AdminCommand.maintenance_on) =
      tagged Opcode.maintenance_on (ok [])
  payload_of (Command.administrative AdminCommand.maintenance_off) =
      tagged Opcode.maintenance_off (ok [])
  payload_of (Command.administrative AdminCommand.maintenance_status) =
      tagged Opcode.maintenance_status (ok [])
  payload_of (Command.administrative AdminCommand.health) = tagged Opcode.health (ok [])
  payload_of (Command.administrative AdminCommand.show_cluster) = tagged Opcode.show_cluster (ok [])
  payload_of (Command.administrative AdminCommand.show_replication) =
      tagged Opcode.show_replication (ok [])
  payload_of (Command.administrative AdminCommand.promote_follower) =
      tagged Opcode.promote_follower (ok [])
  payload_of (Command.administrative AdminCommand.pause_replication) =
      tagged Opcode.pause_replication (ok [])
  payload_of (Command.administrative AdminCommand.resume_replication) =
      tagged Opcode.resume_replication (ok [])
  payload_of (Command.administrative (AdminCommand.backup_to s)) =
      tagged Opcode.backup_to (encode_key b s)
  payload_of (Command.administrative (AdminCommand.backup_verify_from s)) =
      tagged Opcode.backup_verify_from (encode_key b s)
  payload_of (Command.administrative (AdminCommand.restore_from s)) =
      tagged Opcode.restore_from (encode_key b s)
  payload_of (Command.administrative (AdminCommand.restore_check_from s)) =
      tagged Opcode.restore_check_from (encode_key b s)
  payload_of (Command.administrative (AdminCommand.drop_user s)) =
      tagged Opcode.drop_user (encode_key b s)
  payload_of (Command.administrative (AdminCommand.create_role s)) =
      tagged Opcode.create_role (encode_key b s)
  payload_of (Command.administrative (AdminCommand.drop_role s)) =
      tagged Opcode.drop_role (encode_key b s)
  payload_of (Command.administrative (AdminCommand.show_grants_for_user s)) =
      tagged Opcode.show_grants_for_user (encode_key b s)
  payload_of (Command.administrative (AdminCommand.show_grants_for_role s)) =
      tagged Opcode.show_grants_for_role (encode_key b s)
  payload_of (Command.administrative (AdminCommand.cluster_remove s)) =
      tagged Opcode.cluster_remove (encode_key b s)
  payload_of (Command.administrative (AdminCommand.backup_verify s)) =
      tagged Opcode.backup_verify (encode_dump b s)
  payload_of (Command.administrative (AdminCommand.restore s)) =
      tagged Opcode.restore (encode_dump b s)
  payload_of (Command.administrative (AdminCommand.restore_check s)) =
      tagged Opcode.restore_check (encode_dump b s)
  payload_of (Command.administrative (AdminCommand.auth s t)) =
      tagged Opcode.auth (encode_key_value b s t)
  payload_of (Command.administrative (AdminCommand.alter_user_password s t)) =
      tagged Opcode.alter_user_password (encode_key_value b s t)
  payload_of (Command.administrative (AdminCommand.create_user s t)) =
      tagged Opcode.create_user (encode_key_value b s t)
  payload_of (Command.administrative (AdminCommand.grant_role s t)) =
      tagged Opcode.grant_role (encode_key_value b s t)
  payload_of (Command.administrative (AdminCommand.revoke_role s t)) =
      tagged Opcode.revoke_role (encode_key_value b s t)
  payload_of (Command.administrative (AdminCommand.cluster_join s t)) =
      tagged Opcode.cluster_join (encode_key_value b s t)
  payload_of (Command.administrative (AdminCommand.grant_permission s t u)) =
      tagged Opcode.grant_permission (encode_three_strings b s t u)
  payload_of (Command.administrative (AdminCommand.revoke_permission s t u)) =
      tagged Opcode.revoke_permission (encode_three_strings b s t u)
  payload_of (Command.administrative AdminCommand.help) = err (unsupported_command "help")
  payload_of (Command.administrative AdminCommand.exit) = err (unsupported_command "exit")

  unfoldable pub from_command : List ℕ → Command → Result TransportError Request
  from_command id command =
      payload_of command >>= λ (opcode, payload). ok (new_request id opcode payload)

  -- `into_command`, by the opcode.
  unfoldable pub command_of : Opcode → List ℕ → Decoded Command
  command_of Opcode.ping p = do m ← decode_optional_string b p; ok (Command.ping m)
  command_of Opcode.get p = do key ← decode_single_key b p; ok (Command.get key)
  command_of Opcode.get_del p = do key ← decode_single_key b p; ok (Command.get_del key)
  command_of Opcode.exists p = do key ← decode_single_key b p; ok (Command.exists key)
  command_of Opcode.incr p = do key ← decode_single_key b p; ok (Command.incr key)
  command_of Opcode.decr p = do key ← decode_single_key b p; ok (Command.decr key)
  command_of Opcode.ttl p = do key ← decode_single_key b p; ok (Command.ttl key)
  command_of Opcode.persist p = do key ← decode_single_key b p; ok (Command.persist key)
  command_of Opcode.get_ex p = do (key, e, x) ← decode_get_ex b p; ok (Command.get_ex key e x)
  command_of Opcode.set p = do (key, v, o) ← decode_set b p; ok (Command.set key v o)
  command_of Opcode.set_nx p = do (key, v) ← decode_key_bytes b p; ok (Command.set_nx key v)
  command_of Opcode.mget p = do keys ← decode_keys b p; ok (Command.mget keys)
  command_of Opcode.mset p = do entries ← decode_pairs b p; ok (Command.mset entries)
  command_of Opcode.delete p = do keys ← decode_keys b p; ok (Command.delete keys)
  command_of Opcode.expire p = do (key, n) ← decode_key_u64 b p; ok (Command.expire key n)
  command_of Opcode.rename p = do (s, d) ← decode_key_value b p; ok (Command.rename s d)
  command_of Opcode.rename_nx p = do (s, d) ← decode_key_value b p; ok (Command.rename_nx s d)
  command_of Opcode.scan p = do (c, t, n) ← decode_scan b p; ok (Command.scan c t n)
  command_of Opcode.db_size p = do decode_empty p; ok Command.db_size
  command_of Opcode.list p = do decode_empty p; ok Command.list
  command_of Opcode.clear p = do decode_empty p; ok Command.clear
  command_of Opcode.count p = do decode_empty p; ok Command.count
  command_of Opcode.info p = do decode_empty p; ok (Command.administrative AdminCommand.info)
  command_of Opcode.metrics p = do decode_empty p; ok (Command.administrative AdminCommand.metrics)
  command_of Opcode.metrics_prom p = do
    decode_empty p
    ok (Command.administrative AdminCommand.metrics_prom)
  command_of Opcode.save p = do decode_empty p; ok (Command.administrative AdminCommand.save)
  command_of Opcode.snapshot p = do
    decode_empty p
    ok (Command.administrative AdminCommand.snapshot)
  command_of Opcode.backup p = do decode_empty p; ok (Command.administrative AdminCommand.backup)
  command_of Opcode.show_users p = do
    decode_empty p
    ok (Command.administrative AdminCommand.show_users)
  command_of Opcode.show_roles p = do
    decode_empty p
    ok (Command.administrative AdminCommand.show_roles)
  command_of Opcode.show_grants p = do
    decode_empty p
    ok (Command.administrative AdminCommand.show_grants)
  command_of Opcode.who_am_i p = do
    decode_empty p
    ok (Command.administrative AdminCommand.who_am_i)
  command_of Opcode.multi p = do decode_empty p; ok (Command.administrative AdminCommand.multi)
  command_of Opcode.exec p = do decode_empty p; ok (Command.administrative AdminCommand.exec)
  command_of Opcode.discard p = do decode_empty p; ok (Command.administrative AdminCommand.discard)
  command_of Opcode.maintenance_on p = do
    decode_empty p
    ok (Command.administrative AdminCommand.maintenance_on)
  command_of Opcode.maintenance_off p = do
    decode_empty p
    ok (Command.administrative AdminCommand.maintenance_off)
  command_of Opcode.maintenance_status p = do
    decode_empty p
    ok (Command.administrative AdminCommand.maintenance_status)
  command_of Opcode.health p = do decode_empty p; ok (Command.administrative AdminCommand.health)
  command_of Opcode.show_cluster p = do
    decode_empty p
    ok (Command.administrative AdminCommand.show_cluster)
  command_of Opcode.show_replication p = do
    decode_empty p
    ok (Command.administrative AdminCommand.show_replication)
  command_of Opcode.promote_follower p = do
    decode_empty p
    ok (Command.administrative AdminCommand.promote_follower)
  command_of Opcode.pause_replication p = do
    decode_empty p
    ok (Command.administrative AdminCommand.pause_replication)
  command_of Opcode.resume_replication p = do
    decode_empty p
    ok (Command.administrative AdminCommand.resume_replication)
  command_of Opcode.backup_to p = do
    s ← decode_single_key b p
    ok (Command.administrative (AdminCommand.backup_to s))
  command_of Opcode.backup_verify_from p = do
    s ← decode_single_key b p
    ok (Command.administrative (AdminCommand.backup_verify_from s))
  command_of Opcode.restore_from p = do
    s ← decode_single_key b p
    ok (Command.administrative (AdminCommand.restore_from s))
  command_of Opcode.restore_check_from p = do
    s ← decode_single_key b p
    ok (Command.administrative (AdminCommand.restore_check_from s))
  command_of Opcode.drop_user p = do
    s ← decode_single_key b p
    ok (Command.administrative (AdminCommand.drop_user s))
  command_of Opcode.create_role p = do
    s ← decode_single_key b p
    ok (Command.administrative (AdminCommand.create_role s))
  command_of Opcode.drop_role p = do
    s ← decode_single_key b p
    ok (Command.administrative (AdminCommand.drop_role s))
  command_of Opcode.show_grants_for_user p = do
    s ← decode_single_key b p
    ok (Command.administrative (AdminCommand.show_grants_for_user s))
  command_of Opcode.show_grants_for_role p = do
    s ← decode_single_key b p
    ok (Command.administrative (AdminCommand.show_grants_for_role s))
  command_of Opcode.cluster_remove p = do
    s ← decode_single_key b p
    ok (Command.administrative (AdminCommand.cluster_remove s))
  command_of Opcode.backup_verify p = do
    s ← decode_dump b p
    ok (Command.administrative (AdminCommand.backup_verify s))
  command_of Opcode.restore p = do
    s ← decode_dump b p
    ok (Command.administrative (AdminCommand.restore s))
  command_of Opcode.restore_check p = do
    s ← decode_dump b p
    ok (Command.administrative (AdminCommand.restore_check s))
  command_of Opcode.auth p = do
    (s, t) ← decode_key_value b p
    ok (Command.administrative (AdminCommand.auth s t))
  command_of Opcode.alter_user_password p = do
    (s, t) ← decode_key_value b p
    ok (Command.administrative (AdminCommand.alter_user_password s t))
  command_of Opcode.create_user p = do
    (s, t) ← decode_key_value b p
    ok (Command.administrative (AdminCommand.create_user s t))
  command_of Opcode.grant_role p = do
    (s, t) ← decode_key_value b p
    ok (Command.administrative (AdminCommand.grant_role s t))
  command_of Opcode.revoke_role p = do
    (s, t) ← decode_key_value b p
    ok (Command.administrative (AdminCommand.revoke_role s t))
  command_of Opcode.cluster_join p = do
    (s, t) ← decode_key_value b p
    ok (Command.administrative (AdminCommand.cluster_join s t))
  command_of Opcode.grant_permission p = do
    (s, t, u) ← decode_three_strings b p
    ok (Command.administrative (AdminCommand.grant_permission s t u))
  command_of Opcode.revoke_permission p = do
    (s, t, u) ← decode_three_strings b p
    ok (Command.administrative (AdminCommand.revoke_permission s t u))
  command_of Opcode.replication_status p = fail (unsupported_command "replication")
  command_of Opcode.replication_snapshot p = fail (unsupported_command "replication")
  command_of Opcode.replication_fetch p = fail (unsupported_command "replication")
  command_of Opcode.replication_ack p = fail (unsupported_command "replication")
  command_of Opcode.replication_vote p = fail (unsupported_command "replication")
  command_of Opcode.replication_heartbeat p = fail (unsupported_command "replication")
  command_of Opcode.replication_append p = fail (unsupported_command "replication")
  command_of Opcode.replication_install_snapshot p = fail (unsupported_command "replication")

  unfoldable pub into_command : Request → Decoded Command
  into_command request = command_of request.opcode request.payload
