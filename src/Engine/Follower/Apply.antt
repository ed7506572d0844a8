-- ===== src/Engine/Follower/Apply.antt =====
-- `apply_replication_entries` of crates/engine/src/engine/core.rs, by itself and against the batch of
-- a leader whose entries it is given.
use vaylix.Prelude.{
  ℕ, ◌<◌, ◌≡◌, refl, ap, ◌∙◌, none, List, [], ◌∷◌, ◌++◌, Result, ok, err, arith, u64_max,
  saturating_add, if◌then◌else◌,
}
use vaylix.Engine.Error.{EngineError}
use vaylix.Engine.State.{
  EngineState, WalOperation, WalEntry, EntryRollback, no_rollback, apply_entry, replay_entries,
  purge_expired,
}
use vaylix.Engine.Command.{Command, TransactionResult}
use vaylix.Engine.Transaction.{evaluate}
use vaylix.Engine.Log.{StorageEnv, Engine, Identities, build_wal_entry_identities}
use vaylix.Engine.Batch.{
  CommandBatchResult, is_empty, push_entry, stamped, remember_command, run_batch, start_batch,
  execute_command_batch,
}
use vaylix.Engine.Batch.Commit.{execute_command_batch-replays}
use vaylix.Engine.Recovery.Replay.{last_sequence}
use vaylix.Engine.Follower.{stage_entries, apply_replication_entries}

-- The sequences count up from a number, as far as a `u64` goes.
abbrev pub IsFrom : ℕ → List WalEntry → Type 0
IsFrom n [] = Unit
IsFrom n (e ∷ entries) = (e.sequence ≡ n) × IsFrom (saturating_add n 1) entries

stage_entries-ok :
    (entries : List WalEntry) (last n : ℕ) (s t : EngineState)
    → stage_entries entries last s ≡ ok (n, t)
    → (replay_entries entries s ≡ ok t)
      × IsFrom (saturating_add last 1) entries
      × (n ≡ last_sequence last entries)
unfolding stage_entries replay_entries
stage_entries-ok [] last n s t h = ground arith
stage_entries-ok (e ∷ entries) last n s t h =
    ground (arith, stage_entries-ok entries e.sequence n (apply_entry e s).1 t)

stage_entries-replay :
    (entries : List WalEntry) (last : ℕ) (s t : EngineState)
    → IsFrom (saturating_add last 1) entries
    → replay_entries entries s ≡ ok t
    → stage_entries entries last s ≡ ok (last_sequence last entries, t)
unfolding stage_entries replay_entries
stage_entries-replay [] last s t f h = ground arith
stage_entries-replay (e ∷ entries) last s t f h =
    ground (arith, stage_entries-replay entries e.sequence (apply_entry e s).1 t)

-- Entries that a follower has accepted followed its last sequence one by one; it is then in the
-- state of their replay, its log has grown by them, and it answers their last sequence.
pub apply_replication_entries-ok :
    (env : StorageEnv) (entries : List WalEntry) (engine : Engine) (n : ℕ)
    → (apply_replication_entries env entries engine).0 ≡ ok n
    → IsFrom (saturating_add engine.state.metadata.last_applied_sequence 1) entries
      × (replay_entries entries engine.state
          ≡ ok (apply_replication_entries env entries engine).1.state)
      × ((apply_replication_entries env entries engine).1.wal_entries
          ≡ engine.wal_entries ++ entries)
      × (n ≡ last_sequence engine.state.metadata.last_applied_sequence entries)
unfolding apply_replication_entries
apply_replication_entries-ok env entries engine n h = ground (
  arith,
  stage_entries-ok entries engine.state.metadata.last_applied_sequence n engine.state
      (apply_replication_entries env entries engine).1.state,
)

-- A refused list of entries, by a gap, by an operation, by the checksums or by the write, leaves the
-- engine as it was.
pub apply_replication_entries-err :
    (env : StorageEnv) (entries : List WalEntry) (engine : Engine) (e : EngineError)
    → (apply_replication_entries env entries engine).0 ≡ err e
    → (apply_replication_entries env entries engine).1 ≡ engine
unfolding apply_replication_entries
apply_replication_entries-err env entries engine e h = ground arith

push_entry-IsFrom :
    (ops : List WalOperation) (e : WalEntry) (entries : List WalEntry) (next : ℕ)
    → e.sequence ≡ next
    → IsFrom (if is_empty ops then next else saturating_add next 1) entries
    → IsFrom next (push_entry ops e entries)
unfolding push_entry is_empty
push_entry-IsFrom [] e entries next h f = f
push_entry-IsFrom (op ∷ ops) e entries next h f = (h, f)

pub run_batch-IsFrom :
    (term now_ms : ℕ) (commands : List Command) (state : EngineState) (plan : EntryRollback)
    (next visible : ℕ)
    → IsFrom next (run_batch term now_ms commands state plan next visible).entries
unfolding run_batch
run_batch-IsFrom term now_ms [] state plan next visible = tt
run_batch-IsFrom term now_ms (c ∷ commands) state plan next visible =
    go (evaluate c now_ms state).answer refl λ n v.
      run_batch-IsFrom term now_ms commands
        (stamped now_ms next (evaluate c now_ms state).operations (evaluate c now_ms state).state)
        (remember_command state.store c plan) n v
  where
    go :
        (r : Result EngineError TransactionResult)
        → (evaluate c now_ms state).answer ≡ r
        → ((n v : ℕ)
            → IsFrom n
                (run_batch term now_ms commands
                  (stamped now_ms next
                    (evaluate c now_ms state).operations
                    (evaluate c now_ms state).state)
                  (remember_command state.store c plan)
                  n
                  v).entries)
        → IsFrom next (run_batch term now_ms (c ∷ commands) state plan next visible).entries
    go (err e) p ih = rw (p, run_batch) tt
    go (ok r) p ih =
        rw (p, run_batch)
          (push_entry-IsFrom (evaluate c now_ms state).operations _ _ next refl (ih _ _))

follower-accepts :
    (env : StorageEnv) (entries : List WalEntry) (follower : Engine) (t : EngineState)
    (ids : Identities)
    → IsFrom (saturating_add follower.state.metadata.last_applied_sequence 1) entries
    → replay_entries entries follower.state ≡ ok t
    → build_wal_entry_identities env entries ≡ ok ids
    → env.append_batch entries ≡ none
    → ((apply_replication_entries env entries follower).1.state ≡ t)
      × ((apply_replication_entries env entries follower).1.wal_entries
          ≡ follower.wal_entries ++ entries)
unfolding apply_replication_entries
follower-accepts env entries follower t ids f r built written = ground (
  arith,
  stage_entries-replay entries follower.state.metadata.last_applied_sequence follower.state t f r,
)

-- A leader answers a batch and sends its entries to a follower that is in the state which the leader
-- had after its purge. If the follower's checksums and write succeed, it reaches the state of the
-- leader, metadata included, and both logs have grown by the same entries.
pub follower-mirrors_leader :
    (env follower_env : StorageEnv) (now_ms : ℕ) (commands : List Command)
    (leader follower : Engine) (ids : Identities) {results : List CommandBatchResult}
    → now_ms < u64_max
    → (execute_command_batch env now_ms commands leader).0 ≡ ok results
    → follower.state ≡ purge_expired now_ms leader.state
    → build_wal_entry_identities follower_env (start_batch now_ms commands leader).entries ≡ ok ids
    → follower_env.append_batch (start_batch now_ms commands leader).entries ≡ none
    → ((apply_replication_entries follower_env
          (start_batch now_ms commands leader).entries
          follower).1.state
        ≡ (execute_command_batch env now_ms commands leader).1.state)
      × ((execute_command_batch env now_ms commands leader).1.wal_entries
          ≡ leader.wal_entries ++ (start_batch now_ms commands leader).entries)
      × ((apply_replication_entries follower_env
            (start_batch now_ms commands leader).entries
            follower).1.wal_entries
          ≡ follower.wal_entries ++ (start_batch now_ms commands leader).entries)
unfolding start_batch
follower-mirrors_leader env fenv now_ms commands leader follower ids {results} small h same built
      w =
    let entries = (start_batch now_ms commands leader).entries in
    let (log, replays) = execute_command_batch-replays env now_ms commands leader small h in
    let purged = purge_expired now_ms leader.state in
    let from : IsFrom (saturating_add follower.state.metadata.last_applied_sequence 1) entries =
      rw (same)
        (run_batch-IsFrom leader.current_consensus_term now_ms commands purged no_rollback _ _) in
    let (state, grown) =
      follower-accepts fenv entries follower _ ids from (ap (replay_entries entries) same ∙ replays)
        built w in
    (state, log, grown)
