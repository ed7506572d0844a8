-- ===== src/Transport/Opcode.antt =====
-- crates/transport/src/opcode.rs: the operations and their bytes.
use vaylix.Prelude.{
  ℕ, ◌<◌, ◌≡◌, refl, Option, none, some, List, [], ◌∷◌, Result, ok, err, ◌==◌, if◌then◌else◌, arith,
}
use vaylix.Transport.Error.{TransportError, unknown_opcode}

pub data Opcode : Type 0 where
  auth ping get get_del get_ex set set_nx delete exists mget mset incr decr expire : Opcode
  ttl persist rename rename_nx scan db_size info metrics list clear count save : Opcode
  snapshot multi exec discard backup restore create_user drop_user create_role : Opcode
  drop_role grant_role revoke_role grant_permission revoke_permission show_users : Opcode
  show_roles who_am_i backup_to restore_from restore_check restore_check_from : Opcode
  alter_user_password metrics_prom backup_verify backup_verify_from show_grants : Opcode
  show_grants_for_user show_grants_for_role maintenance_on maintenance_off : Opcode
  maintenance_status health show_cluster cluster_join cluster_remove : Opcode
  show_replication promote_follower pause_replication resume_replication : Opcode
  replication_status replication_snapshot replication_fetch replication_ack : Opcode
  replication_vote replication_heartbeat replication_append : Opcode
  replication_install_snapshot : Opcode

-- `u8::from(opcode)`
unfoldable pub opcode_byte : Opcode → ℕ
opcode_byte Opcode.auth = 0x01
opcode_byte Opcode.ping = 0x02
opcode_byte Opcode.get = 0x03
opcode_byte Opcode.get_del = 0x04
opcode_byte Opcode.get_ex = 0x05
opcode_byte Opcode.set = 0x06
opcode_byte Opcode.set_nx = 0x07
opcode_byte Opcode.delete = 0x08
opcode_byte Opcode.exists = 0x09
opcode_byte Opcode.mget = 0x0a
opcode_byte Opcode.mset = 0x0b
opcode_byte Opcode.incr = 0x0c
opcode_byte Opcode.decr = 0x0d
opcode_byte Opcode.expire = 0x0e
opcode_byte Opcode.ttl = 0x0f
opcode_byte Opcode.persist = 0x10
opcode_byte Opcode.rename = 0x11
opcode_byte Opcode.rename_nx = 0x12
opcode_byte Opcode.scan = 0x13
opcode_byte Opcode.db_size = 0x14
opcode_byte Opcode.info = 0x15
opcode_byte Opcode.metrics = 0x16
opcode_byte Opcode.list = 0x17
opcode_byte Opcode.clear = 0x18
opcode_byte Opcode.count = 0x19
opcode_byte Opcode.save = 0x1a
opcode_byte Opcode.snapshot = 0x1b
opcode_byte Opcode.multi = 0x1c
opcode_byte Opcode.exec = 0x1d
opcode_byte Opcode.discard = 0x1e
opcode_byte Opcode.backup = 0x1f
opcode_byte Opcode.restore = 0x20
opcode_byte Opcode.create_user = 0x21
opcode_byte Opcode.drop_user = 0x22
opcode_byte Opcode.create_role = 0x23
opcode_byte Opcode.drop_role = 0x24
opcode_byte Opcode.grant_role = 0x25
opcode_byte Opcode.revoke_role = 0x26
opcode_byte Opcode.grant_permission = 0x27
opcode_byte Opcode.revoke_permission = 0x28
opcode_byte Opcode.show_users = 0x29
opcode_byte Opcode.show_roles = 0x2a
opcode_byte Opcode.who_am_i = 0x2b
opcode_byte Opcode.backup_to = 0x2c
opcode_byte Opcode.restore_from = 0x2d
opcode_byte Opcode.restore_check = 0x2e
opcode_byte Opcode.restore_check_from = 0x2f
opcode_byte Opcode.alter_user_password = 0x30
opcode_byte Opcode.metrics_prom = 0x31
opcode_byte Opcode.backup_verify = 0x32
opcode_byte Opcode.backup_verify_from = 0x33
opcode_byte Opcode.show_grants = 0x34
opcode_byte Opcode.show_grants_for_user = 0x35
opcode_byte Opcode.show_grants_for_role = 0x36
opcode_byte Opcode.maintenance_on = 0x37
opcode_byte Opcode.maintenance_off = 0x38
opcode_byte Opcode.maintenance_status = 0x39
opcode_byte Opcode.health = 0x3a
opcode_byte Opcode.show_cluster = 0x3b
opcode_byte Opcode.cluster_join = 0x3c
opcode_byte Opcode.cluster_remove = 0x3d
opcode_byte Opcode.show_replication = 0x3e
opcode_byte Opcode.promote_follower = 0x3f
opcode_byte Opcode.pause_replication = 0x40
opcode_byte Opcode.resume_replication = 0x41
opcode_byte Opcode.replication_status = 0x42
opcode_byte Opcode.replication_snapshot = 0x43
opcode_byte Opcode.replication_fetch = 0x44
opcode_byte Opcode.replication_ack = 0x45
opcode_byte Opcode.replication_vote = 0x46
opcode_byte Opcode.replication_heartbeat = 0x47
opcode_byte Opcode.replication_append = 0x48
opcode_byte Opcode.replication_install_snapshot = 0x49

-- The arms of `try_from`, in order.
unfoldable pub arms : List (ℕ × Opcode)
arms =
    (0x01, Opcode.auth)
    ∷ (0x02, Opcode.ping)
    ∷ (0x03, Opcode.get)
    ∷ (0x04, Opcode.get_del)
    ∷ (0x05, Opcode.get_ex)
    ∷ (0x06, Opcode.set)
    ∷ (0x07, Opcode.set_nx)
    ∷ (0x08, Opcode.delete)
    ∷ (0x09, Opcode.exists)
    ∷ (0x0a, Opcode.mget)
    ∷ (0x0b, Opcode.mset)
    ∷ (0x0c, Opcode.incr)
    ∷ (0x0d, Opcode.decr)
    ∷ (0x0e, Opcode.expire)
    ∷ (0x0f, Opcode.ttl)
    ∷ (0x10, Opcode.persist)
    ∷ (0x11, Opcode.rename)
    ∷ (0x12, Opcode.rename_nx)
    ∷ (0x13, Opcode.scan)
    ∷ (0x14, Opcode.db_size)
    ∷ (0x15, Opcode.info)
    ∷ (0x16, Opcode.metrics)
    ∷ (0x17, Opcode.list)
    ∷ (0x18, Opcode.clear)
    ∷ (0x19, Opcode.count)
    ∷ (0x1a, Opcode.save)
    ∷ (0x1b, Opcode.snapshot)
    ∷ (0x1c, Opcode.multi)
    ∷ (0x1d, Opcode.exec)
    ∷ (0x1e, Opcode.discard)
    ∷ (0x1f, Opcode.backup)
    ∷ (0x20, Opcode.restore)
    ∷ (0x21, Opcode.create_user)
    ∷ (0x22, Opcode.drop_user)
    ∷ (0x23, Opcode.create_role)
    ∷ (0x24, Opcode.drop_role)
    ∷ (0x25, Opcode.grant_role)
    ∷ (0x26, Opcode.revoke_role)
    ∷ (0x27, Opcode.grant_permission)
    ∷ (0x28, Opcode.revoke_permission)
    ∷ (0x29, Opcode.show_users)
    ∷ (0x2a, Opcode.show_roles)
    ∷ (0x2b, Opcode.who_am_i)
    ∷ (0x2c, Opcode.backup_to)
    ∷ (0x2d, Opcode.restore_from)
    ∷ (0x2e, Opcode.restore_check)
    ∷ (0x2f, Opcode.restore_check_from)
    ∷ (0x30, Opcode.alter_user_password)
    ∷ (0x31, Opcode.metrics_prom)
    ∷ (0x32, Opcode.backup_verify)
    ∷ (0x33, Opcode.backup_verify_from)
    ∷ (0x34, Opcode.show_grants)
    ∷ (0x35, Opcode.show_grants_for_user)
    ∷ (0x36, Opcode.show_grants_for_role)
    ∷ (0x37, Opcode.maintenance_on)
    ∷ (0x38, Opcode.maintenance_off)
    ∷ (0x39, Opcode.maintenance_status)
    ∷ (0x3a, Opcode.health)
    ∷ (0x3b, Opcode.show_cluster)
    ∷ (0x3c, Opcode.cluster_join)
    ∷ (0x3d, Opcode.cluster_remove)
    ∷ (0x3e, Opcode.show_replication)
    ∷ (0x3f, Opcode.promote_follower)
    ∷ (0x40, Opcode.pause_replication)
    ∷ (0x41, Opcode.resume_replication)
    ∷ (0x42, Opcode.replication_status)
    ∷ (0x43, Opcode.replication_snapshot)
    ∷ (0x44, Opcode.replication_fetch)
    ∷ (0x45, Opcode.replication_ack)
    ∷ (0x46, Opcode.replication_vote)
    ∷ (0x47, Opcode.replication_heartbeat)
    ∷ (0x48, Opcode.replication_append)
    ∷ (0x49, Opcode.replication_install_snapshot)
    ∷ []

unfoldable pub first_arm : ℕ → List (ℕ × Opcode) → Option Opcode
first_arm value [] = none
first_arm value ((byte, opcode) ∷ rest) =
    if value == byte then some opcode else first_arm value rest

abbrev pub or_unknown : ℕ → Option Opcode → Result TransportError Opcode
or_unknown value none = err (unknown_opcode value)
or_unknown value (some opcode) = ok opcode

unfoldable pub opcode_from : ℕ → Result TransportError Opcode
unfolding arms first_arm
opcode_from value = or_unknown value (first_arm value arms)

pub opcode_from-opcode_byte : (opcode : Opcode) → opcode_from (opcode_byte opcode) ≡ ok opcode
unfolding opcode_from opcode_byte
opcode_from-opcode_byte Opcode.auth = refl
opcode_from-opcode_byte _ = refl

pub opcode_byte-lt : (opcode : Opcode) → opcode_byte opcode < 256
unfolding opcode_byte
opcode_byte-lt Opcode.auth = omega arith
opcode_byte-lt _ = omega arith
