-- ===== src/Engine/Recovery/Counters.antt =====
-- Where recovery does change what a reader sees, in crates/engine/src/engine/core.rs: a counter in
-- a retained entry is changed again, and a counter that expired is not restarted.
use vaylix.Prelude.{
  false, ℕ, true, ◌≡◌, refl, ap, ◌∙◌, String, Option, none, some, List, [], ◌∷◌, ok, arith,
  str_eq_refl, saturating_add,
}
use vaylix.Table.{lookup, insert}
use vaylix.Table.Laws.{lookup-insert, IsMap, IsMap-insert}
use vaylix.Engine.Integer.{
  ℤ, pos, parse_i64, i64_to_string, checked_add, parse_zero, parse_one, zero_plus_one, one_plus_one,
  print_one, print_two,
}
use vaylix.Engine.Store.{
  StoredValue, EngineStore, expired, get_value, insert_value_with_version, next_value_version,
}
use vaylix.Engine.Store.Purge.{live_at, lookup-purge_expired}
use vaylix.Engine.State.{
  EngineState, WalOperation, WalEntry, run_operation, run_operations, purge_expired, replay_entries,
  parse_integer_value, some_or_zero,
}
use vaylix.Engine.State.Entry.{advanced, replay_entries-cons}
use vaylix.Engine.Command.{Command}
use vaylix.Engine.Transaction.{counted, answered, evaluate, run_command, run_counter}
use vaylix.Engine.Log.{
  StorageEnv, build_wal_entry_identities, collect_identities, wal_entry_identity, lookup_identity,
  insert_identity,
}
use vaylix.Engine.Recovery.{recover, take_snapshot}
use vaylix.Engine.Recovery.Replay.{with_manifest-take_snapshot, purge_expired-store}

-- The logged operation of INCR, and what it leaves of a value.
abbrev pub increment : String → WalOperation
increment k = WalOperation.check_integer k (pos 1)

abbrev pub increment_entry : String → ℕ → ℕ → ℕ → WalEntry
increment_entry k sequence term time = record {
  sequence = sequence;
  term = term;
  created_at_ms = time;
  operations = increment k ∷ [];
}

abbrev counter : List ℕ → ℕ → StoredValue
counter v n = record { value = v; expires_at_ms = none; version = n }

-- One step of a counter, when its value is read, added to and printed.
increment-step :
    (k : String) (s : EngineStore) (old : Option StoredValue) {n m : ℤ} {w : List ℕ}
    → lookup k s ≡ old
    → parse_i64 (some_or_zero old) ≡ some n
    → checked_add n (pos 1) ≡ some m
    → i64_to_string m ≡ w
    → run_operations (increment k ∷ []) s ≡ ok (insert k (counter w (next_value_version old)) s)
unfolding run_operations run_operation parse_integer_value insert_value_with_version
increment-step k s old h p q r = ground arith

increment-none :
    (k : String) (s : EngineStore)
    → lookup k s ≡ none
    → run_operations (increment k ∷ []) s ≡ ok (insert k (counter (b'1' ∷ []) 1) s)
unfolding next_value_version
increment-none k s h = increment-step k s none h parse_zero zero_plus_one print_one

increment-one :
    (k : String) (s : EngineStore)
    → lookup k s ≡ some (counter (b'1' ∷ []) 1)
    → run_operations (increment k ∷ []) s ≡ ok (insert k (counter (b'2' ∷ []) 2) s)
unfolding next_value_version saturating_add
increment-one k s h = increment-step k s _ h parse_one one_plus_one print_two

-- The identities of a single entry.
identities-one :
    (env : StorageEnv) (e : WalEntry) {crc : ℕ}
    → env.checksum e ≡ ok crc
    → build_wal_entry_identities env (e ∷ [])
      ≡ ok (insert_identity e.sequence (record { term = e.term; checksum = crc }) [])
unfolding build_wal_entry_identities collect_identities wal_entry_identity lookup_identity
identities-one env e h = rw (h) refl

-- INCR of a key that is not there makes it 1. After a snapshot, the recovery that finds the entry of
-- this INCR in the retained log, and its checksum, makes it 2, for any state, time and snapshot.
pub recover-counted_twice :
    (env : StorageEnv) (format now_ms size sum : ℕ) (oldest : Option ℕ) (fresh before : EngineState)
    (k : String) (sequence term time : ℕ) {crc : ℕ}
    → env.checksum (increment_entry k sequence term time) ≡ ok crc
    → IsMap before.store
    → lookup k before.store ≡ none
    → (s : EngineState) × (r : EngineState) × (replay_entries
          (increment_entry k sequence term time ∷ [])
          before
        ≡ ok s)
      × (get_value k s.store ≡ some (b'1' ∷ []))
      × (recover format env false fresh
            (some (take_snapshot format now_ms size sum oldest s).0)
            (some (take_snapshot format now_ms size sum oldest s).1)
            (increment_entry k sequence term time ∷ [])
          ≡ ok r)
      × (get_value k r.store ≡ some (b'2' ∷ []))
unfolding get_value recover expired
recover-counted_twice env format now_ms size sum oldest fresh before k sequence term time summed map
      h =
    let e = increment_entry k sequence term time in
    let t = insert k (counter (b'1' ∷ []) 1) before.store in
    let s : EngineState = record { store = t; metadata = advanced e before.metadata } in
    let there : lookup k t ≡ some (counter (b'1' ∷ []) 1) =
      ground (arith, lookup-insert k k (counter (b'1' ∷ []) 1) before.store, str_eq_refl k) in
    let (start, p, store, n) = with_manifest-take_snapshot format now_ms size sum oldest s in
    let same : lookup k start.store ≡ some (counter (b'1' ∷ []) 1) =
      ap (lookup k) (store ∙ purge_expired-store now_ms s)
      ∙ lookup-purge_expired now_ms k t (IsMap-insert k _ before.store map)
      ∙ ap (live_at now_ms) there in
    (
      s,
      record {
        store = insert k (counter (b'2' ∷ []) 2) start.store;
        metadata = advanced e start.metadata;
      },
      replay_entries-cons e [] before t (increment-none k before.store h)
          ∙ unfold replay_entries in refl,
      rw (there, get_value) refl,
      rw (p, identities-one env e summed, recover)
          (replay_entries-cons e [] start _ (increment-one k start.store same)
            ∙ unfold replay_entries in refl),
      ground (arith, lookup-insert k k (counter (b'2' ∷ []) 2) start.store, str_eq_refl k),
    )

-- INCR of a key that is not there.
incr-none :
    (k : String) (state : EngineState)
    → lookup k state.store ≡ none
    → ((run_counter k (λ n. checked_add n (pos 1)) (pos 1) state).operations ≡ increment k ∷ [])
      × (get_value k (run_counter k (λ n. checked_add n (pos 1)) (pos 1) state).state.store
          ≡ some (b'1' ∷ []))
unfolding run_counter counted answered get_value parse_integer_value insert_value_with_version
incr-none k state h = ground (
  arith,
  parse_zero,
  zero_plus_one,
  print_one,
  lookup-insert k k (counter (i64_to_string (pos 1)) (next_value_version (lookup k state.store)))
      state.store,
  str_eq_refl k,
)

-- A key whose value "1" has expired is purged before INCR, which answers 1 and logs the change of the
-- counter only. A replay of that log on the store that was not purged, as recovery and a follower
-- have it, makes the counter 2.
pub incr-expired :
    (now_ms : ℕ) (state : EngineState) (k : String) (e : StoredValue)
    → IsMap state.store
    → lookup k state.store ≡ some e
    → e.value ≡ b'1' ∷ []
    → expired now_ms e ≡ true
    → (get_value k (evaluate (Command.incr k) now_ms state).state.store ≡ some (b'1' ∷ []))
      × (t : EngineStore) × (run_operations
            (evaluate (Command.incr k) now_ms state).operations
            state.store
          ≡ ok t)
      × (get_value k t ≡ some (b'2' ∷ []))
unfolding evaluate run_command get_value
incr-expired now_ms state k e map h v x =
    let gone : lookup k (purge_expired now_ms state).store ≡ none =
      ap (lookup k) (purge_expired-store now_ms state)
      ∙ lookup-purge_expired now_ms k state.store map
      ∙ ground arith in
    let (logged, one) = incr-none k (purge_expired now_ms state) gone in
    let read : parse_i64 (some_or_zero (some e)) ≡ some (pos 1) = rw (v) parse_one in
    let new = counter (b'2' ∷ []) (next_value_version (some e)) in
    (
      one,
      insert k new state.store,
      ap (λ ops. run_operations ops state.store) logged
          ∙ increment-step k state.store (some e) h read one_plus_one print_two,
      ground (arith, lookup-insert k k new state.store, str_eq_refl k),
    )
