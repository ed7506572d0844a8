-- ===== src/Engine/Follower.antt =====
-- Replication on the engine's side, crates/engine/src/engine/core.rs: the entries sent to a
-- follower, the entries that a follower appends, and the replacement of a diverging suffix.
pub mod Apply
pub mod Since
pub mod Merge
pub mod Replace
use vaylix.Prelude.{
  ℕ, ◌+◌, Bool, true, false, ◌&&◌, ◌||◌, not, Option, none, some, List, [], ◌∷◌, ◌++◌, Result, ok,
  err, ◌>>=◌, ◌>>◌, ◌==◌, ltb, leb, length, take, keep, last?, saturating_add, if◌then◌else◌,
}
use vaylix.Engine.Error.{
  EngineError, invalid_storage_operation, sequence_gap, non_monotonic_cache, conflicting_duplicate,
  prefix_before_baseline, retained_gap, baseline_gap, overlap_missing, overlap_mismatch,
  replacement_gap,
}
use vaylix.Engine.State.{EngineState, WalEntry, apply_entry, replay_entries}
use vaylix.Engine.Log.{
  StorageEnv, Engine, WalEntryIdentity, lookup_identity, wal_entry_identity, same_identity,
  build_wal_entry_identities, extend_identities,
}

-- `entry.term != last.term || entry.checksum()? != last.checksum()?`, the checksums only if the
-- terms agree
unfoldable pub differ : StorageEnv → WalEntry → WalEntry → Result EngineError Bool
differ env a b =
    if not (a.term == b.term)
    then ok true
    else (do x ← env.checksum a; y ← env.checksum b; ok (not (x == y)))

unfoldable pub push_unique_wal_entry :
    StorageEnv → List WalEntry → WalEntry → Result EngineError (List WalEntry)
unfolding differ
push_unique_wal_entry env entries entry = elim (last? entries) [
  | none ↦ ok (entries ++ (entry ∷ []))
  | some last ↦
      if ltb entry.sequence last.sequence
      then err (invalid_storage_operation (non_monotonic_cache last.sequence entry.sequence))
      else if entry.sequence == last.sequence
      then differ env entry last >>= (λ d.
        if d
        then err (invalid_storage_operation (conflicting_duplicate entry.sequence))
        else ok entries)
      else ok (entries ++ (entry ∷ []))
]

-- The loop that pushes the entries one by one.
unfoldable pub push_all :
    StorageEnv → List WalEntry → List WalEntry → Result EngineError (List WalEntry)
unfolding push_unique_wal_entry
push_all env out [] = ok out
push_all env out (e ∷ entries) = do
  out' ← push_unique_wal_entry env out e
  push_all env out' entries

abbrev pub within : Option ℕ → ℕ → Bool
within none n = true
within (some max) n = leb n max

unfoldable pub wal_entries_since_capped :
    StorageEnv → ℕ → ℕ → Option ℕ → Engine → Result EngineError (List WalEntry)
unfolding push_all
wal_entries_since_capped env after_sequence limit max_sequence engine =
    push_all env [] (
      keep (λ e. ltb after_sequence e.sequence && within max_sequence e.sequence)
        engine.wal_entries)
    >>= λ entries.
        ok (if ltb 0 limit && ltb limit (length entries) then take limit entries else entries)

-- The loop of `apply_replication_entries` over a staged copy of the state.
unfoldable pub stage_entries :
    List WalEntry → ℕ → EngineState → Result EngineError (ℕ × EngineState)
stage_entries [] last staged = ok (last, staged)
stage_entries (e ∷ entries) last staged =
    let (failure, staged') = apply_entry e staged in
    let rest = stage_entries entries e.sequence staged' in
    if not (e.sequence == saturating_add last 1)
    then err (invalid_storage_operation (sequence_gap (saturating_add last 1) e.sequence))
    else elim failure [ some x ↦ err x | none ↦ rest ]

unfoldable pub apply_replication_entries :
    StorageEnv → List WalEntry → Engine → Result EngineError ℕ × Engine
unfolding stage_entries
apply_replication_entries env entries engine =
    elim (stage_entries entries engine.state.metadata.last_applied_sequence engine.state) [
      | err e ↦ (err e, engine)
      | ok (last, staged) ↦ elim (build_wal_entry_identities env entries) [
        | err e ↦ (err e, engine)
        | ok ids ↦ elim (env.append_batch entries) [
          | some e ↦ (err e, engine)
          | none ↦ (
            ok last,
            record engine {
              state = staged;
              wal_entries = engine.wal_entries ++ entries;
              wal_entry_identities = extend_identities engine.wal_entry_identities ids;
            },
          )
        ]
      ]
    ]

-- The retained entries must end at the prefix, or be none with the prefix at the baseline.
unfoldable pub check_prefix : ℕ → ℕ → List WalEntry → Result EngineError (Unit {0})
check_prefix prefix baseline retained = elim (last? retained) [
  | some last ↦
      if last.sequence == prefix
      then ok tt
      else err (invalid_storage_operation (retained_gap prefix last.sequence))
  | none ↦
      if prefix == baseline
      then ok tt
      else err (invalid_storage_operation (baseline_gap baseline prefix))
]

unfoldable pub find_sequence : ℕ → List WalEntry → Option WalEntry
find_sequence n [] = none
find_sequence n (e ∷ entries) = if e.sequence == n then some e else find_sequence n entries

-- An entry at or below the prefix must be the retained one, unless the snapshot has it.
unfoldable pub check_overlap :
    StorageEnv → ℕ → List WalEntry → WalEntry → Result EngineError (Unit {0})
unfolding differ find_sequence
check_overlap env baseline retained e =
    if leb e.sequence baseline then ok tt else elim (find_sequence e.sequence retained) [
      | none ↦ err (invalid_storage_operation (overlap_missing e.sequence))
      | some local ↦ differ env local e >>= (λ d.
          if d then err (invalid_storage_operation (overlap_mismatch e.sequence)) else ok tt)
    ]

unfoldable pub collect_replacement :
    StorageEnv
    → ℕ
    → ℕ
    → List WalEntry
    → List WalEntry
    → List WalEntry
    → Result EngineError (List WalEntry)
unfolding check_overlap push_unique_wal_entry
collect_replacement env prefix baseline retained out [] = ok out
collect_replacement env prefix baseline retained out (e ∷ entries) =
    (if leb e.sequence prefix
      then (do check_overlap env baseline retained e; ok out)
      else push_unique_wal_entry env out e)
    >>= λ out'. collect_replacement env prefix baseline retained out' entries

-- The replacement entries follow the prefix without a gap.
unfoldable pub check_gaps : ℕ → List WalEntry → Result EngineError (Unit {0})
check_gaps last [] = ok tt
check_gaps last (e ∷ entries) =
    let rest = check_gaps (saturating_add last 1) entries in
    if e.sequence == saturating_add last 1
    then rest
    else err (invalid_storage_operation (replacement_gap (saturating_add last 1) e.sequence))

-- The new log and state, before anything is written; `snapshot` is the state of the last snapshot.
unfoldable pub plan_replacement :
    StorageEnv
    → ℕ
    → List WalEntry
    → EngineState
    → List WalEntry
    → Result EngineError (List WalEntry × EngineState)
unfolding push_all check_prefix collect_replacement check_gaps
plan_replacement env prefix entries snapshot cached =
    let baseline = snapshot.metadata.last_applied_sequence in
    if ltb prefix baseline
    then err (invalid_storage_operation (prefix_before_baseline prefix baseline))
    else (do
      retained ← push_all env [] (keep (λ e. leb e.sequence prefix) cached)
      check_prefix prefix baseline retained
      replacement ← collect_replacement env prefix baseline retained [] entries
      check_gaps prefix replacement
      state ← replay_entries (retained ++ replacement) snapshot
      ok (retained ++ replacement, state))

-- `rewrite` is the outcome of closing, removing and rewriting the log directory. The identities are
-- built last, when the state and the cached log are already replaced.
unfoldable pub replace_replication_suffix :
    StorageEnv
    → (List WalEntry → Option EngineError)
    → ℕ
    → List WalEntry
    → EngineState
    → Engine
    → Result EngineError ℕ × Engine
unfolding plan_replacement
replace_replication_suffix env rewrite prefix entries snapshot engine =
    elim (plan_replacement env prefix entries snapshot engine.wal_entries) [
      | err e ↦ (err e, engine)
      | ok (log, state) ↦ elim (rewrite log) [
        | some e ↦ (err e, engine)
        | none ↦
            let moved = record engine { state = state; wal_entries = log } in
            elim (build_wal_entry_identities env log) [
              | err e ↦ (err e, moved)
              | ok ids ↦ (
                ok state.metadata.last_applied_sequence,
                record moved { wal_entry_identities = ids },
              )
            ]
      ]
    ]

unfoldable pub set_consensus_term : ℕ → Engine → Engine
set_consensus_term term engine = record engine { current_consensus_term = term }

unfoldable pub identity_at : ℕ → Engine → Option WalEntryIdentity
identity_at sequence engine =
    if sequence == 0 then none else lookup_identity sequence engine.wal_entry_identities

unfoldable pub wal_entry_checksum : ℕ → Engine → Option ℕ
wal_entry_checksum sequence engine = elim (identity_at sequence engine) [
  | none ↦ none
  | some identity ↦ some identity.checksum
]

unfoldable pub wal_entry_term : ℕ → Engine → Option ℕ
wal_entry_term sequence engine = elim (identity_at sequence engine) [
  | none ↦ none
  | some identity ↦ some identity.term
]
