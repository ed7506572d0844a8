-- ===== src/Engine/Log.antt =====
-- The engine of crates/engine/src/engine/core.rs with its cached log, the identities of the log
-- entries, and the appending of one entry. The checksum of an entry (binary encoding and CRC-32) and
-- the outcome of the durable append (files, encryption, the I/O thread) are parameters.
use vaylix.Prelude.{
  ℕ, ◌+◌, Bool, false, ◌&&◌, not, Option, none, some, List, [], ◌∷◌, ◌++◌, Result, ok, err, ◌>>=◌,
  ◌==◌, if◌then◌else◌,
}
use vaylix.Engine.Error.{EngineError, invalid_storage_operation, conflicting_identity}
use vaylix.Engine.State.{EngineState, WalOperation, WalEntry, apply_entry}

pub record StorageEnv : Type 0 where
  -- `WalEntry::checksum`
  pub checksum : WalEntry → Result EngineError ℕ
  -- `WalWriterHandle::append_batch`: the error, if the entries were not written
  pub append_batch : List WalEntry → Option EngineError

pub record WalEntryIdentity : Type 0 where
  pub term : ℕ
  pub checksum : ℕ

-- `BTreeMap<u64, WalEntryIdentity>`
abbrev pub Identities : Type 0
Identities = List (ℕ × WalEntryIdentity)

unfoldable pub lookup_identity : ℕ → Identities → Option WalEntryIdentity
lookup_identity n [] = none
lookup_identity n ((m, i) ∷ rest) = if m == n then some i else lookup_identity n rest

unfoldable pub insert_identity : ℕ → WalEntryIdentity → Identities → Identities
insert_identity n i [] = (n, i) ∷ []
insert_identity n i ((m, j) ∷ rest) =
    if m == n then (n, i) ∷ rest else (m, j) ∷ insert_identity n i rest

-- `identities.extend(…)`
unfoldable pub extend_identities : Identities → Identities → Identities
extend_identities old [] = old
extend_identities old ((n, i) ∷ rest) = extend_identities (insert_identity n i old) rest

pub record Engine : Type 0 where
  pub state : EngineState
  pub wal_entries : List WalEntry
  pub wal_entry_identities : Identities
  pub current_consensus_term : ℕ

unfoldable pub wal_entry_identity : StorageEnv → WalEntry → Result EngineError WalEntryIdentity
wal_entry_identity env entry = do
  sum ← env.checksum entry
  ok (record { term = entry.term; checksum = sum })

abbrev pub same_identity : WalEntryIdentity → WalEntryIdentity → Bool
same_identity a b = a.term == b.term && a.checksum == b.checksum

-- A second identity at one sequence must be the first one again.
abbrev conflicts : Option WalEntryIdentity → WalEntryIdentity → Bool
conflicts none i = false
conflicts (some j) i = not (same_identity j i)

unfoldable pub collect_identities :
    StorageEnv → List WalEntry → Identities → Result EngineError Identities
unfolding wal_entry_identity
collect_identities env [] ids = ok ids
collect_identities env (e ∷ entries) ids = wal_entry_identity env e >>= λ i.
    let rest = collect_identities env entries (insert_identity e.sequence i ids) in
    if conflicts (lookup_identity e.sequence ids) i
    then err (invalid_storage_operation (conflicting_identity e.sequence))
    else rest

unfoldable pub build_wal_entry_identities :
    StorageEnv → List WalEntry → Result EngineError Identities
build_wal_entry_identities env entries = collect_identities env entries []

-- `next_entry`: the source adds 1 without saturation.
unfoldable pub next_entry : ℕ → List WalOperation → Engine → WalEntry
next_entry now_ms ops engine = record {
  sequence = engine.state.metadata.last_applied_sequence + 1;
  term = engine.current_consensus_term;
  created_at_ms = now_ms;
  operations = ops;
}

-- The entry is applied only after it was written, and cached only after it was applied.
unfoldable pub commit_entry :
    StorageEnv → WalEntry → Engine → Result EngineError (Unit {0}) × Engine
commit_entry env entry engine = elim (wal_entry_identity env entry) [
  | err e ↦ (err e, engine)
  | ok i ↦ elim (env.append_batch (entry ∷ [])) [
    | some e ↦ (err e, engine)
    | none ↦
        let (failure, state) = apply_entry entry engine.state in
        elim failure [
          | some e ↦ (err e, record engine { state = state })
          | none ↦ (
            ok tt,
            record engine {
              state = state;
              wal_entries = engine.wal_entries ++ (entry ∷ []);
              wal_entry_identities = insert_identity entry.sequence i engine.wal_entry_identities;
            },
          )
        ]
  ]
]

unfoldable pub append_and_apply :
    StorageEnv → ℕ → List WalOperation → Engine → Result EngineError (Unit {0}) × Engine
unfolding next_entry commit_entry
append_and_apply env now_ms ops engine = commit_entry env (next_entry now_ms ops engine) engine
