-- ===== src/Transport/Request/Panics.antt =====
-- Which decoders of crates/transport/src/request can panic on a payload.
use vaylix.Prelude.{
  ℕ, ◌≤◌, ◌<◌, ◌≡◌, ◌≢◌, refl, ◌∙◌, String, Option, some, List, [], ◌++◌, ok, err, >>=-eq-ok,
  append-nil, length-append, length, arith,
}
use vaylix.Text.{as_bytes}
use vaylix.Transport.Error.{panic}
use vaylix.Transport.Buf.{
  u8, u16, u64, range, Buf, Reader, ◌>>=◌, >>=-ok, need, need_ok, get_uint, or_panic,
}
use vaylix.Transport.Primitives.{put_string_u16}
use vaylix.Transport.Primitives.RoundTrip.{put_bytes-ok}
use vaylix.Transport.Request.Trips.{unchecked_Trips}
use vaylix.Transport.Request.Payloads.{pattern_Trips}
use vaylix.Transport.Opcode.{Opcode}
use vaylix.Transport.Request.{
  Request, new_request, command_of, into_command, encode_pattern, whole, unchecked_optional,
  decode_set, decode_get_ex, decode_single_key, decode_dump, decode_key_value, decode_key_bytes,
  decode_three_strings, decode_key_u64, decode_optional_string, decode_keys, decode_pairs,
  read_pattern, scan_reader, decode_scan,
}
use vaylix.Transport.Calm.{
  >>=-IsCalm, read_string_u16-IsCalm, read_string_u32-IsCalm, read_uint-IsCalm,
}
use vaylix.Transport.Request.Calm.{
  decode_empty_lem, get_ex_reader-IsCalm, key_bytes_reader-IsCalm, key_u64_reader-IsCalm,
  key_value_reader-IsCalm, optional_string_of-IsCalm, read_many-IsCalm, set_reader-IsCalm,
  three_strings_reader-IsCalm, whole-IsCalm,
}

module _ (b : Buf) where
  command_of-calm : (op : Opcode) (p : List ℕ) → op ≢ Opcode.scan → command_of b op p ≢ err panic
  unfolding command_of decode_single_key decode_dump decode_set decode_get_ex decode_key_value
      decode_key_bytes decode_three_strings decode_key_u64 decode_keys decode_pairs
      decode_optional_string
  command_of-calm Opcode.get p h = whole-IsCalm _ (read_string_u16-IsCalm b) p
  command_of-calm Opcode.get_del p h = whole-IsCalm _ (read_string_u16-IsCalm b) p
  command_of-calm Opcode.exists p h = whole-IsCalm _ (read_string_u16-IsCalm b) p
  command_of-calm Opcode.incr p h = whole-IsCalm _ (read_string_u16-IsCalm b) p
  command_of-calm Opcode.decr p h = whole-IsCalm _ (read_string_u16-IsCalm b) p
  command_of-calm Opcode.ttl p h = whole-IsCalm _ (read_string_u16-IsCalm b) p
  command_of-calm Opcode.persist p h = whole-IsCalm _ (read_string_u16-IsCalm b) p
  command_of-calm Opcode.backup_to p h = whole-IsCalm _ (read_string_u16-IsCalm b) p
  command_of-calm Opcode.backup_verify_from p h = whole-IsCalm _ (read_string_u16-IsCalm b) p
  command_of-calm Opcode.restore_from p h = whole-IsCalm _ (read_string_u16-IsCalm b) p
  command_of-calm Opcode.restore_check_from p h = whole-IsCalm _ (read_string_u16-IsCalm b) p
  command_of-calm Opcode.drop_user p h = whole-IsCalm _ (read_string_u16-IsCalm b) p
  command_of-calm Opcode.create_role p h = whole-IsCalm _ (read_string_u16-IsCalm b) p
  command_of-calm Opcode.drop_role p h = whole-IsCalm _ (read_string_u16-IsCalm b) p
  command_of-calm Opcode.show_grants_for_user p h = whole-IsCalm _ (read_string_u16-IsCalm b) p
  command_of-calm Opcode.show_grants_for_role p h = whole-IsCalm _ (read_string_u16-IsCalm b) p
  command_of-calm Opcode.cluster_remove p h = whole-IsCalm _ (read_string_u16-IsCalm b) p
  command_of-calm Opcode.backup_verify p h = whole-IsCalm _ (read_string_u32-IsCalm b) p
  command_of-calm Opcode.restore p h = whole-IsCalm _ (read_string_u32-IsCalm b) p
  command_of-calm Opcode.restore_check p h = whole-IsCalm _ (read_string_u32-IsCalm b) p
  command_of-calm Opcode.auth p h = whole-IsCalm _ (key_value_reader-IsCalm b) p
  command_of-calm Opcode.alter_user_password p h = whole-IsCalm _ (key_value_reader-IsCalm b) p
  command_of-calm Opcode.create_user p h = whole-IsCalm _ (key_value_reader-IsCalm b) p
  command_of-calm Opcode.grant_role p h = whole-IsCalm _ (key_value_reader-IsCalm b) p
  command_of-calm Opcode.revoke_role p h = whole-IsCalm _ (key_value_reader-IsCalm b) p
  command_of-calm Opcode.cluster_join p h = whole-IsCalm _ (key_value_reader-IsCalm b) p
  command_of-calm Opcode.rename p h = whole-IsCalm _ (key_value_reader-IsCalm b) p
  command_of-calm Opcode.rename_nx p h = whole-IsCalm _ (key_value_reader-IsCalm b) p
  command_of-calm Opcode.grant_permission p h = whole-IsCalm _ (three_strings_reader-IsCalm b) p
  command_of-calm Opcode.revoke_permission p h = whole-IsCalm _ (three_strings_reader-IsCalm b) p
  command_of-calm Opcode.get_ex p h = whole-IsCalm _ (get_ex_reader-IsCalm b) p
  command_of-calm Opcode.set p h = whole-IsCalm _ (set_reader-IsCalm b) p
  command_of-calm Opcode.set_nx p h = whole-IsCalm _ (key_bytes_reader-IsCalm b) p
  command_of-calm Opcode.expire p h = whole-IsCalm _ (key_u64_reader-IsCalm b) p
  command_of-calm Opcode.ping p h =
      whole-IsCalm _ (>>=-IsCalm _ (read_uint-IsCalm b u8) (optional_string_of-IsCalm b)) p
  command_of-calm Opcode.mget p h =
      whole-IsCalm _
        (>>=-IsCalm _ (read_uint-IsCalm b u16) (read_many-IsCalm (read_string_u16-IsCalm b))) p
  command_of-calm Opcode.delete p h =
      whole-IsCalm _
        (>>=-IsCalm _ (read_uint-IsCalm b u16) (read_many-IsCalm (read_string_u16-IsCalm b))) p
  command_of-calm Opcode.mset p h =
      whole-IsCalm _
        (>>=-IsCalm _ (read_uint-IsCalm b u16) (read_many-IsCalm (key_bytes_reader-IsCalm b))) p
  command_of-calm Opcode.db_size p h = decode_empty_lem _ p
  command_of-calm Opcode.list p h = decode_empty_lem _ p
  command_of-calm Opcode.clear p h = decode_empty_lem _ p
  command_of-calm Opcode.count p h = decode_empty_lem _ p
  command_of-calm Opcode.info p h = decode_empty_lem _ p
  command_of-calm Opcode.metrics p h = decode_empty_lem _ p
  command_of-calm Opcode.metrics_prom p h = decode_empty_lem _ p
  command_of-calm Opcode.save p h = decode_empty_lem _ p
  command_of-calm Opcode.snapshot p h = decode_empty_lem _ p
  command_of-calm Opcode.backup p h = decode_empty_lem _ p
  command_of-calm Opcode.show_users p h = decode_empty_lem _ p
  command_of-calm Opcode.show_roles p h = decode_empty_lem _ p
  command_of-calm Opcode.show_grants p h = decode_empty_lem _ p
  command_of-calm Opcode.who_am_i p h = decode_empty_lem _ p
  command_of-calm Opcode.multi p h = decode_empty_lem _ p
  command_of-calm Opcode.exec p h = decode_empty_lem _ p
  command_of-calm Opcode.discard p h = decode_empty_lem _ p
  command_of-calm Opcode.maintenance_on p h = decode_empty_lem _ p
  command_of-calm Opcode.maintenance_off p h = decode_empty_lem _ p
  command_of-calm Opcode.maintenance_status p h = decode_empty_lem _ p
  command_of-calm Opcode.health p h = decode_empty_lem _ p
  command_of-calm Opcode.show_cluster p h = decode_empty_lem _ p
  command_of-calm Opcode.show_replication p h = decode_empty_lem _ p
  command_of-calm Opcode.promote_follower p h = decode_empty_lem _ p
  command_of-calm Opcode.pause_replication p h = decode_empty_lem _ p
  command_of-calm Opcode.resume_replication p h = decode_empty_lem _ p
  command_of-calm Opcode.scan p h = absurd (h refl)
  command_of-calm Opcode.replication_status p h = λ e. cc
  command_of-calm Opcode.replication_snapshot p h = λ e. cc
  command_of-calm Opcode.replication_fetch p h = λ e. cc
  command_of-calm Opcode.replication_ack p h = λ e. cc
  command_of-calm Opcode.replication_vote p h = λ e. cc
  command_of-calm Opcode.replication_heartbeat p h = λ e. cc
  command_of-calm Opcode.replication_append p h = λ e. cc
  command_of-calm Opcode.replication_install_snapshot p h = λ e. cc

  -- No request but SCAN makes `into_command` panic, whatever its payload.
  pub into_command_calm : (r : Request) → r.opcode ≢ Opcode.scan → into_command b r ≢ err panic
  unfolding into_command
  into_command_calm r h = command_of-calm r.opcode r.payload h

  -- A pattern takes its flag and its length at least.
  encode_pattern-length :
      (pattern : String) {p : List ℕ} → encode_pattern b (some pattern) ≡ ok p → 3 ≤ length p
  unfolding encode_pattern put_string_u16
  encode_pattern-length pattern {p} h =
      let (y, hy, k) = >>=-eq-ok (put_string_u16 b pattern) (λ y. ok (b.put u8 1 ++ y)) h in
      let (fits, text) = put_bytes-ok b u16 (as_bytes pattern) hy in
      let same : p ≡ b.put u8 1 ++ (b.put u16 (length (as_bytes pattern)) ++ as_bytes pattern) =
        cc in
      rw same (
        omega (
          arith,
          b.length-put u8 1,
          b.length-put u16 (length (as_bytes pattern)),
          length-append (b.put u8 1) (b.put u16 (length (as_bytes pattern)) ++ as_bytes pattern),
          length-append (b.put u16 (length (as_bytes pattern))) (as_bytes pattern),
        ))

  no_flag : {A : Type 0} (g : Option ℕ → Reader A) → (unchecked_optional b u16 >>= g) [] ≡ err panic
  unfolding unchecked_optional get_uint
  no_flag g = rw (b.get_short u8 [] (omega arith), or_panic, ◌>>=◌) refl

  scan_reader_panics :
      (cursor : ℕ) (pattern : String) (p : List ℕ)
      → cursor < range u64
      → encode_pattern b (some pattern) ≡ ok p
      → scan_reader b (b.put u64 cursor ++ p) ≡ err panic
  unfolding scan_reader
  scan_reader_panics cursor pattern p fits h =
      let enough : 10 ≤ length (b.put u64 cursor ++ p) = omega (
        arith,
        b.length-put u64 cursor,
        length-append (b.put u64 cursor) p,
        encode_pattern-length pattern h,
      ) in
      let read : read_pattern b p ≡ ok (some pattern, []) =
        rw append-nil at ((pattern_Trips b (some pattern)).trip p [] h) in
      let number : get_uint b u64 (b.put u64 cursor ++ p) ≡ ok (cursor, p) =
        (unchecked_Trips b u64 cursor fits).trip (b.put u64 cursor) p refl in
      >>=-ok (need 10) _ _ (need_ok 10 _ enough)
      ∙ >>=-ok (get_uint b u64) _ _ number
      ∙ >>=-ok (read_pattern b) _ p read
      ∙ no_flag _

  -- A SCAN request whose payload ends after its pattern makes `into_command` panic: the ten bytes that
  -- are asked for are there, and the flag of the count is not.
  pub into_command_panics :
      (id : List ℕ) (cursor : ℕ) (pattern : String) (p : List ℕ)
      → cursor < range u64
      → encode_pattern b (some pattern) ≡ ok p
      → into_command b (new_request id Opcode.scan (b.put u64 cursor ++ p)) ≡ err panic
  unfolding into_command command_of decode_scan whole
  into_command_panics id cursor pattern p fits h =
      rw (scan_reader_panics cursor pattern p fits h, whole) refl
