-- ===== src/Examples/Logs.antt =====
-- Instances of the theorems on the log, on followers, on recovery and on the readers of keys.
use vaylix.Prelude.{
  ℕ, ◌+◌, ◌≤◌, ◌≡◌, ◌⊎◌, refl, String, Bool, true, false, Option, none, some, List, [], ◌∷◌, ◌++◌,
  Result, ok, err, arith, length, saturating_add, drop,
}
use vaylix.Table.{lookup}
use vaylix.Engine.Store.{EngineStore, get_value, expired}
use vaylix.Engine.Store.Purge.{live_at}
use vaylix.Engine.State.{
  EngineState, WalOperation, WalEntry, purge_expired, run_operations, replay_entries,
}
use vaylix.Engine.Wildcard.{chars, wildcard_matches}
use vaylix.Engine.Wildcard.Glob.{glob, wildcard_matches-glob}
use vaylix.Engine.Transaction.{evaluate}
use vaylix.Engine.Log.{Engine}
use vaylix.Engine.Batch.{start_batch, execute_command_batch}
use vaylix.Engine.Follower.{apply_replication_entries, wal_entries_since_capped}
use vaylix.Engine.Follower.Apply.{IsFrom, apply_replication_entries-ok, follower-mirrors_leader}
use vaylix.Engine.Follower.Since.{IsAscending, IsWithin, wal_entries_since_capped-IsAscending}
use vaylix.Engine.Follower.{replace_replication_suffix}
use vaylix.Engine.Follower.Replace.{IsReplaced, replace_replication_suffix-IsReplaced}
use vaylix.Engine.Recovery.{recover, take_snapshot}
use vaylix.Engine.Recovery.Replay.{last_sequence, recover-take_snapshot}
use vaylix.Engine.Recovery.Counters.{recover-counted_twice, increment_entry}
use vaylix.Examples.{working, text_7, text_1, plain, seeded, fresh, engine_on, mixed, entry_of}

abbrev two_entries : List WalEntry
two_entries =
    entry_of 4 (WalOperation.set "b" text_1 1 ∷ []) ∷ entry_of 5 (WalOperation.delete "a" ∷ []) ∷ []

abbrev replayed : EngineState
replayed = record {
  store = ("b", plain text_1) ∷ [];
  metadata = record seeded.metadata { last_applied_sequence = 5; updated_at_ms = 10 };
}

follower-mirrors_leader_example :
    ((apply_replication_entries working
        (start_batch 10 mixed (engine_on seeded)).entries
        (engine_on (purge_expired 10 seeded))).1.state
      ≡ (execute_command_batch working 10 mixed (engine_on seeded)).1.state)
    × ((execute_command_batch working 10 mixed (engine_on seeded)).1.wal_entries
        ≡ [] ++ (start_batch 10 mixed (engine_on seeded)).entries)
    × ((apply_replication_entries working
          (start_batch 10 mixed (engine_on seeded)).entries
          (engine_on (purge_expired 10 seeded))).1.wal_entries
        ≡ [] ++ (start_batch 10 mixed (engine_on seeded)).entries)
unfolding evaluate execute_command_batch expired get_value lookup purge_expired saturating_add
    vaylix.Engine.Integer.checked_add vaylix.Engine.Integer.parse_i64
    vaylix.Engine.Log.build_wal_entry_identities vaylix.Engine.Log.collect_identities
    vaylix.Engine.Log.insert_identity vaylix.Engine.Log.lookup_identity
    vaylix.Engine.State.parse_integer_value vaylix.Engine.Store.expired_keys
    vaylix.Engine.Store.insert_value_with_version vaylix.Engine.Store.purge_expired
    vaylix.Engine.Store.remove_all vaylix.Engine.Transaction.run_command vaylix.Table.contains_key
    vaylix.Table.insert vaylix.Table.remove
follower-mirrors_leader_example =
    follower-mirrors_leader working working 10 mixed (engine_on seeded)
      (engine_on (purge_expired 10 seeded)) _ (omega arith) refl refl refl refl

apply_replication_entries-ok_example :
    IsFrom (saturating_add 3 1) two_entries
    × (replay_entries two_entries seeded
        ≡ ok (apply_replication_entries working two_entries (engine_on seeded)).1.state)
    × ((apply_replication_entries working two_entries (engine_on seeded)).1.wal_entries
        ≡ [] ++ two_entries)
    × (5 ≡ last_sequence 3 two_entries)
unfolding apply_replication_entries saturating_add vaylix.Engine.Log.build_wal_entry_identities
    vaylix.Engine.Log.collect_identities vaylix.Engine.Log.insert_identity
    vaylix.Engine.Log.lookup_identity vaylix.Engine.State.apply_entry
    vaylix.Engine.State.apply_operations vaylix.Engine.State.run_operation
apply_replication_entries-ok_example =
    apply_replication_entries-ok working two_entries (engine_on seeded) 5 refl

abbrev logged : Engine
logged = record (engine_on seeded) { wal_entries = entry_of 3 [] ∷ two_entries }

wal_entries_since_capped-IsAscending_example :
    IsAscending 3 two_entries
    × IsWithin (some 5) two_entries
    × (◌≡◌ {A = ℕ} 2 0 ⊎ (length two_entries ≤ 2))
unfolding vaylix.Prelude.last? wal_entries_since_capped
wal_entries_since_capped-IsAscending_example =
    wal_entries_since_capped-IsAscending working 3 2 (some 5) logged two_entries refl

recover-take_snapshot_example :
    (r : EngineState) × (recover 1 working false fresh
        (some (take_snapshot 1 10 64 99 none replayed).0)
        (some (take_snapshot 1 10 64 99 none replayed).1)
        two_entries
      ≡ ok r)
    × (live_at 20 (lookup "b" r.store) ≡ live_at 20 (lookup "b" replayed.store))
    × (r.metadata.last_applied_sequence ≡ 5)
unfolding replay_entries vaylix.Engine.Log.build_wal_entry_identities
    vaylix.Engine.Log.collect_identities vaylix.Engine.Log.insert_identity
    vaylix.Engine.Log.lookup_identity vaylix.Engine.State.apply_entry
    vaylix.Engine.State.apply_operations vaylix.Engine.State.run_operation
    vaylix.Engine.Store.insert_value_with_version vaylix.Table.insert vaylix.Table.remove
recover-take_snapshot_example =
    recover-take_snapshot working 1 10 20 64 99 none fresh
      (record { store = ("a", plain text_7) ∷ []; metadata = seeded.metadata }) replayed two_entries
      _ "b" refl ((tt, tt)) ((refl, tt), ((refl, tt), tt)) refl (omega arith)

recover-counted_twice_example :
    (s : EngineState) × (r : EngineState) × (replay_entries (increment_entry "n" 4 2 10 ∷ []) seeded
      ≡ ok s)
    × (get_value "n" s.store ≡ some text_1)
    × (recover 1 working false fresh
          (some (take_snapshot 1 10 64 99 none s).0)
          (some (take_snapshot 1 10 64 99 none s).1)
          (increment_entry "n" 4 2 10 ∷ [])
        ≡ ok r)
    × (get_value "n" r.store ≡ some (b'2' ∷ []))
unfolding lookup
recover-counted_twice_example =
    recover-counted_twice working 1 10 64 99 none fresh seeded "n" 4 2 10 refl
      ((refl, tt), (tt, tt)) refl

wildcard_matches-glob_example :
    wildcard_matches "user:*:?" "user:42:a" ≡ glob (chars "user:*:?") (chars "user:42:a")
wildcard_matches-glob_example = wildcard_matches-glob "user:*:?" "user:42:a"

abbrev changed_entry : WalEntry
changed_entry = entry_of 5 (WalOperation.set "c" text_1 1 ∷ [])

replace_replication_suffix-IsReplaced_example :
    IsReplaced working 4 seeded two_entries
      (changed_entry ∷ [])
      (replace_replication_suffix working
        (λ _. none)
        4
        (changed_entry ∷ [])
        seeded
        (record (engine_on replayed) { wal_entries = two_entries })).1.wal_entries
      (replace_replication_suffix working
        (λ _. none)
        4
        (changed_entry ∷ [])
        seeded
        (record (engine_on replayed) { wal_entries = two_entries })).1.state
    × (5
        ≡ (replace_replication_suffix working
            (λ _. none)
            4
            (changed_entry ∷ [])
            seeded
            (record (engine_on replayed) { wal_entries = two_entries })
              ).1.state.metadata.last_applied_sequence)
unfolding replace_replication_suffix replay_entries saturating_add
    vaylix.Engine.Log.build_wal_entry_identities vaylix.Engine.Log.collect_identities
    vaylix.Engine.Log.insert_identity vaylix.Engine.Log.lookup_identity
    vaylix.Engine.State.apply_entry vaylix.Engine.State.apply_operations
    vaylix.Engine.State.run_operation vaylix.Prelude.last?
replace_replication_suffix-IsReplaced_example =
    replace_replication_suffix-IsReplaced working (λ _. none) 4 (changed_entry ∷ []) seeded
      (record (engine_on replayed) { wal_entries = two_entries }) 5 refl
