-- ===== src/Transport/Request/RoundTrip.antt =====
-- `into_command` gives back what `from_command` encoded: crates/transport/src/request/mod.rs.
use vaylix.Prelude.{ℕ, ◌<◌, ◌≡◌, refl, List, [], ok, >>=-eq-ok, ◌>>=◌, length, ◌∙◌}
use vaylix.Engine.Command.{Command, AdminCommand}
use vaylix.Transport.Buf.{u16, u64, range, Buf, Reader}
use vaylix.Transport.Primitives.{ensure_empty}
use vaylix.Transport.Opcode.{Opcode}
use vaylix.Transport.Request.{
  Request, new_request, tagged, payload_of, from_command, command_of, into_command, Encoded,
  encode_key, encode_dump, encode_keys, encode_byte_pairs, whole, decode_set, decode_get_ex,
  decode_single_key, decode_dump, decode_key_value, decode_key_bytes, decode_three_strings,
  decode_key_u64, decode_keys, decode_pairs, decode_optional_string, decode_scan, decode_empty,
}
use vaylix.Transport.Request.Trips.{
  OptionFits, ExpirationFits, Trips, whole-Trips, string_u16_Trips, string_u32_Trips, pair_Trips,
  keys_Trips, pairs_Trips, counted-Trips,
}
use vaylix.Transport.Request.Payloads.{
  key_value_Trips, three_strings_Trips, key_u64_Trips, get_ex_Trips, set_Trips,
  optional_string_Trips, scan_Trips,
}

-- The numbers of the command fit the widths that the payload has for them.
abbrev pub Fits : Command → Type 0
Fits (Command.get_ex key expiration persist) = ExpirationFits expiration
Fits (Command.set key value options) =
    ExpirationFits options.expiration × OptionFits u64 options.if_version
Fits (Command.expire key seconds) = seconds < range u64
Fits (Command.scan cursor pattern count) = (cursor < range u64) × OptionFits u16 count
Fits _ = Unit {0}

module _ (b : Buf) where
  -- A payload that was encoded for an opcode, and the arm of that opcode.
  tagged-eq-ok :
      {A : Type 0} {e : Encoded} {m : Reader A} {a : A} (op : Opcode) (f : A → Command)
      → Trips e m a
      → ((p : List ℕ) → command_of b op p ≡ (whole m p >>= λ x. ok (f x)))
      → {r : Opcode × List ℕ} → tagged op e ≡ ok r
      → command_of b r.0 r.1 ≡ ok (f a)
  tagged-eq-ok {e = e} op f t arm {r} h =
      let (p, hp, k) = >>=-eq-ok e (λ p. ok (op, p)) h in
      let same : r ≡ (op, p) = cc in rw same (arm p ∙ rw (whole-Trips t p hp) refl)

  tagged_empty :
      (op : Opcode) (c : Command)
      → command_of b op [] ≡ ok c
      → {r : Opcode × List ℕ} → tagged op (ok []) ≡ ok r
      → command_of b r.0 r.1 ≡ ok c
  tagged_empty op c arm {r} h = let same : r ≡ (op, []) = cc in rw same arm

  command_of-payload_of :
      (c : Command) {r : Opcode × List ℕ}
      → Fits c
      → payload_of b c ≡ ok r
      → command_of b r.0 r.1 ≡ ok c
  unfolding payload_of command_of encode_key encode_dump encode_keys encode_byte_pairs
      decode_single_key decode_dump decode_set decode_get_ex decode_key_value decode_key_bytes
      decode_three_strings decode_key_u64 decode_keys decode_pairs decode_optional_string
      decode_scan decode_empty ensure_empty
  command_of-payload_of (Command.ping m) fits h =
      tagged-eq-ok Opcode.ping (λ m. Command.ping m) (optional_string_Trips b m) (λ p. refl) h
  command_of-payload_of (Command.get key) fits h =
      tagged-eq-ok Opcode.get (λ s. Command.get s) (string_u16_Trips b key) (λ p. refl) h
  command_of-payload_of (Command.get_del key) fits h =
      tagged-eq-ok Opcode.get_del (λ s. Command.get_del s) (string_u16_Trips b key) (λ p. refl) h
  command_of-payload_of (Command.exists key) fits h =
      tagged-eq-ok Opcode.exists (λ s. Command.exists s) (string_u16_Trips b key) (λ p. refl) h
  command_of-payload_of (Command.incr key) fits h =
      tagged-eq-ok Opcode.incr (λ s. Command.incr s) (string_u16_Trips b key) (λ p. refl) h
  command_of-payload_of (Command.decr key) fits h =
      tagged-eq-ok Opcode.decr (λ s. Command.decr s) (string_u16_Trips b key) (λ p. refl) h
  command_of-payload_of (Command.ttl key) fits h =
      tagged-eq-ok Opcode.ttl (λ s. Command.ttl s) (string_u16_Trips b key) (λ p. refl) h
  command_of-payload_of (Command.persist key) fits h =
      tagged-eq-ok Opcode.persist (λ s. Command.persist s) (string_u16_Trips b key) (λ p. refl) h
  command_of-payload_of (Command.get_ex key e x) fits h =
      tagged-eq-ok Opcode.get_ex (λ (s, t, u). Command.get_ex s t u) (get_ex_Trips b key e x fits)
        (λ p. refl) h
  command_of-payload_of (Command.set key v o) fits h =
      tagged-eq-ok Opcode.set (λ (s, t, u). Command.set s t u) (set_Trips b key v o fits.0 fits.1)
        (λ p. refl) h
  command_of-payload_of (Command.set_nx key v) fits h =
      tagged-eq-ok Opcode.set_nx (λ (s, t). Command.set_nx s t) (pair_Trips b key v) (λ p. refl) h
  command_of-payload_of (Command.mget keys) fits h =
      tagged-eq-ok Opcode.mget (λ ks. Command.mget ks)
        (counted-Trips b _ u16 (length keys) (keys_Trips b keys)) (λ p. refl) h
  command_of-payload_of (Command.mset entries) fits h =
      tagged-eq-ok Opcode.mset (λ es. Command.mset es)
        (counted-Trips b _ u16 (length entries) (pairs_Trips b entries)) (λ p. refl) h
  command_of-payload_of (Command.delete keys) fits h =
      tagged-eq-ok Opcode.delete (λ ks. Command.delete ks)
        (counted-Trips b _ u16 (length keys) (keys_Trips b keys)) (λ p. refl) h
  command_of-payload_of (Command.expire key n) fits h =
      tagged-eq-ok Opcode.expire (λ (s, t). Command.expire s t) (key_u64_Trips b key n fits)
        (λ p. refl) h
  command_of-payload_of (Command.rename from to) fits h =
      tagged-eq-ok Opcode.rename (λ (s, t). Command.rename s t) (key_value_Trips b from to)
        (λ p. refl) h
  command_of-payload_of (Command.rename_nx from to) fits h =
      tagged-eq-ok Opcode.rename_nx (λ (s, t). Command.rename_nx s t) (key_value_Trips b from to)
        (λ p. refl) h
  command_of-payload_of (Command.scan c o n) fits h =
      tagged-eq-ok Opcode.scan (λ (s, t, u). Command.scan s t u) (scan_Trips b c o n fits.0 fits.1)
        (λ p. refl) h
  command_of-payload_of Command.db_size fits h = tagged_empty Opcode.db_size _ refl h
  command_of-payload_of Command.list fits h = tagged_empty Opcode.list _ refl h
  command_of-payload_of Command.clear fits h = tagged_empty Opcode.clear _ refl h
  command_of-payload_of Command.count fits h = tagged_empty Opcode.count _ refl h
  command_of-payload_of (Command.administrative AdminCommand.info) fits h =
      tagged_empty Opcode.info _ refl h
  command_of-payload_of (Command.administrative AdminCommand.metrics) fits h =
      tagged_empty Opcode.metrics _ refl h
  command_of-payload_of (Command.administrative AdminCommand.metrics_prom) fits h =
      tagged_empty Opcode.metrics_prom _ refl h
  command_of-payload_of (Command.administrative AdminCommand.save) fits h =
      tagged_empty Opcode.save _ refl h
  command_of-payload_of (Command.administrative AdminCommand.snapshot) fits h =
      tagged_empty Opcode.snapshot _ refl h
  command_of-payload_of (Command.administrative AdminCommand.backup) fits h =
      tagged_empty Opcode.backup _ refl h
  command_of-payload_of (Command.administrative AdminCommand.show_users) fits h =
      tagged_empty Opcode.show_users _ refl h
  command_of-payload_of (Command.administrative AdminCommand.show_roles) fits h =
      tagged_empty Opcode.show_roles _ refl h
  command_of-payload_of (Command.administrative AdminCommand.show_grants) fits h =
      tagged_empty Opcode.show_grants _ refl h
  command_of-payload_of (Command.administrative AdminCommand.who_am_i) fits h =
      tagged_empty Opcode.who_am_i _ refl h
  command_of-payload_of (Command.administrative AdminCommand.multi) fits h =
      tagged_empty Opcode.multi _ refl h
  command_of-payload_of (Command.administrative AdminCommand.exec) fits h =
      tagged_empty Opcode.exec _ refl h
  command_of-payload_of (Command.administrative AdminCommand.discard) fits h =
      tagged_empty Opcode.discard _ refl h
  command_of-payload_of (Command.administrative AdminCommand.maintenance_on) fits h =
      tagged_empty Opcode.maintenance_on _ refl h
  command_of-payload_of (Command.administrative AdminCommand.maintenance_off) fits h =
      tagged_empty Opcode.maintenance_off _ refl h
  command_of-payload_of (Command.administrative AdminCommand.maintenance_status) fits h =
      tagged_empty Opcode.maintenance_status _ refl h
  command_of-payload_of (Command.administrative AdminCommand.health) fits h =
      tagged_empty Opcode.health _ refl h
  command_of-payload_of (Command.administrative AdminCommand.show_cluster) fits h =
      tagged_empty Opcode.show_cluster _ refl h
  command_of-payload_of (Command.administrative AdminCommand.show_replication) fits h =
      tagged_empty Opcode.show_replication _ refl h
  command_of-payload_of (Command.administrative AdminCommand.promote_follower) fits h =
      tagged_empty Opcode.promote_follower _ refl h
  command_of-payload_of (Command.administrative AdminCommand.pause_replication) fits h =
      tagged_empty Opcode.pause_replication _ refl h
  command_of-payload_of (Command.administrative AdminCommand.resume_replication) fits h =
      tagged_empty Opcode.resume_replication _ refl h
  command_of-payload_of (Command.administrative (AdminCommand.backup_to s)) fits h =
      tagged-eq-ok Opcode.backup_to (λ x. Command.administrative (AdminCommand.backup_to x))
        (string_u16_Trips b s) (λ p. refl) h
  command_of-payload_of (Command.administrative (AdminCommand.backup_verify_from s)) fits h =
      tagged-eq-ok Opcode.backup_verify_from
        (λ x. Command.administrative (AdminCommand.backup_verify_from x)) (string_u16_Trips b s)
        (λ p. refl) h
  command_of-payload_of (Command.administrative (AdminCommand.restore_from s)) fits h =
      tagged-eq-ok Opcode.restore_from (λ x. Command.administrative (AdminCommand.restore_from x))
        (string_u16_Trips b s) (λ p. refl) h
  command_of-payload_of (Command.administrative (AdminCommand.restore_check_from s)) fits h =
      tagged-eq-ok Opcode.restore_check_from
        (λ x. Command.administrative (AdminCommand.restore_check_from x)) (string_u16_Trips b s)
        (λ p. refl) h
  command_of-payload_of (Command.administrative (AdminCommand.drop_user s)) fits h =
      tagged-eq-ok Opcode.drop_user (λ x. Command.administrative (AdminCommand.drop_user x))
        (string_u16_Trips b s) (λ p. refl) h
  command_of-payload_of (Command.administrative (AdminCommand.create_role s)) fits h =
      tagged-eq-ok Opcode.create_role (λ x. Command.administrative (AdminCommand.create_role x))
        (string_u16_Trips b s) (λ p. refl) h
  command_of-payload_of (Command.administrative (AdminCommand.drop_role s)) fits h =
      tagged-eq-ok Opcode.drop_role (λ x. Command.administrative (AdminCommand.drop_role x))
        (string_u16_Trips b s) (λ p. refl) h
  command_of-payload_of (Command.administrative (AdminCommand.show_grants_for_user s)) fits h =
      tagged-eq-ok Opcode.show_grants_for_user
        (λ x. Command.administrative (AdminCommand.show_grants_for_user x)) (string_u16_Trips b s)
        (λ p. refl) h
  command_of-payload_of (Command.administrative (AdminCommand.show_grants_for_role s)) fits h =
      tagged-eq-ok Opcode.show_grants_for_role
        (λ x. Command.administrative (AdminCommand.show_grants_for_role x)) (string_u16_Trips b s)
        (λ p. refl) h
  command_of-payload_of (Command.administrative (AdminCommand.cluster_remove s)) fits h =
      tagged-eq-ok Opcode.cluster_remove
        (λ x. Command.administrative (AdminCommand.cluster_remove x)) (string_u16_Trips b s)
        (λ p. refl) h
  command_of-payload_of (Command.administrative (AdminCommand.backup_verify s)) fits h =
      tagged-eq-ok Opcode.backup_verify (λ x. Command.administrative (AdminCommand.backup_verify x))
        (string_u32_Trips b s) (λ p. refl) h
  command_of-payload_of (Command.administrative (AdminCommand.restore s)) fits h =
      tagged-eq-ok Opcode.restore (λ x. Command.administrative (AdminCommand.restore x))
        (string_u32_Trips b s) (λ p. refl) h
  command_of-payload_of (Command.administrative (AdminCommand.restore_check s)) fits h =
      tagged-eq-ok Opcode.restore_check (λ x. Command.administrative (AdminCommand.restore_check x))
        (string_u32_Trips b s) (λ p. refl) h
  command_of-payload_of (Command.administrative (AdminCommand.auth s t)) fits h =
      tagged-eq-ok Opcode.auth (λ (x, y). Command.administrative (AdminCommand.auth x y))
        (key_value_Trips b s t) (λ p. refl) h
  command_of-payload_of (Command.administrative (AdminCommand.alter_user_password s t)) fits h =
      tagged-eq-ok Opcode.alter_user_password
        (λ (x, y). Command.administrative (AdminCommand.alter_user_password x y))
        (key_value_Trips b s t) (λ p. refl) h
  command_of-payload_of (Command.administrative (AdminCommand.create_user s t)) fits h =
      tagged-eq-ok Opcode.create_user
        (λ (x, y). Command.administrative (AdminCommand.create_user x y)) (key_value_Trips b s t)
        (λ p. refl) h
  command_of-payload_of (Command.administrative (AdminCommand.grant_role s t)) fits h =
      tagged-eq-ok Opcode.grant_role
        (λ (x, y). Command.administrative (AdminCommand.grant_role x y)) (key_value_Trips b s t)
        (λ p. refl) h
  command_of-payload_of (Command.administrative (AdminCommand.revoke_role s t)) fits h =
      tagged-eq-ok Opcode.revoke_role
        (λ (x, y). Command.administrative (AdminCommand.revoke_role x y)) (key_value_Trips b s t)
        (λ p. refl) h
  command_of-payload_of (Command.administrative (AdminCommand.cluster_join s t)) fits h =
      tagged-eq-ok Opcode.cluster_join
        (λ (x, y). Command.administrative (AdminCommand.cluster_join x y)) (key_value_Trips b s t)
        (λ p. refl) h
  command_of-payload_of (Command.administrative (AdminCommand.grant_permission s t u)) fits h =
      tagged-eq-ok Opcode.grant_permission
        (λ (x, y, z). Command.administrative (AdminCommand.grant_permission x y z))
        (three_strings_Trips b s t u) (λ p. refl) h
  command_of-payload_of (Command.administrative (AdminCommand.revoke_permission s t u)) fits h =
      tagged-eq-ok Opcode.revoke_permission
        (λ (x, y, z). Command.administrative (AdminCommand.revoke_permission x y z))
        (three_strings_Trips b s t u) (λ p. refl) h
  command_of-payload_of (Command.administrative AdminCommand.help) fits h = cc
  command_of-payload_of (Command.administrative AdminCommand.exit) fits h = cc

  -- What a command was encoded to is decoded to this command, if its numbers fit their widths. The
  -- commands with no request are refused before.
  pub into_command-from_command :
      (id : List ℕ) (c : Command) {r : Request}
      → Fits c
      → from_command b id c ≡ ok r
      → into_command b r ≡ ok c
  unfolding from_command into_command
  into_command-from_command id c {r} fits h =
      let (sent, e, k) =
        >>=-eq-ok (payload_of b c) (λ (opcode, payload). ok (new_request id opcode payload)) h in
      let same : r ≡ new_request id sent.0 sent.1 = cc in rw same (command_of-payload_of c fits e)
