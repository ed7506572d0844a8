-- ===== src/Engine/Batch/Durable.antt =====
-- Batches of crates/engine/src/engine/core.rs on the segments of crates/engine/src/store/wal.rs: what a
-- restart makes of an answered batch.
use vaylix.Prelude.{
  Result, ok, err, ◌⊎◌, inl, inr, Bool-cases, ℕ, suc, ◌+◌, ◌≤◌, ◌<◌, ◌≡◌, refl, ◌∙◌, Option, none,
  some, List, [], ◌∷◌, ◌++◌, length, true, saturating_add, saturating_add_exact, u64_max, All,
  arith,
}
use vaylix.Engine.Error.{EngineError}
use vaylix.Engine.State.{EngineState, WalEntry, apply_entry, replay_entries, purge_expired}
use vaylix.Engine.Command.{Command}
use vaylix.Engine.Log.{StorageEnv, Engine}
use vaylix.Engine.Batch.{
  CommandBatchResult, start_batch, execute_command_batch, finish_batch, write_batch, is_empty,
}
use vaylix.Engine.Batch.Commit.{execute_command_batch-replays}
use vaylix.Engine.Follower.Apply.{IsFrom, run_batch-IsFrom}
use vaylix.Engine.Wal.{Codec, Keyring, encode_entry}
use vaylix.Engine.Wal.Frames.{IsReadable}
use vaylix.Engine.Wal.Segments.{Segment, replay, replayed}
use vaylix.Engine.Wal.Log.{IsRun, IsLog, replay-IsLog}
use vaylix.Engine.Wal.Append.{IsSound, append_batch-IsWritten}
use vaylix.Engine.Wal.Writer.{
  WalWriter, Written, then_written, write_entry, write_frame, append_batch,
}

replay_entries-append :
    (es more : List WalEntry) (s t : EngineState)
    → replay_entries es s ≡ ok t
    → replay_entries (es ++ more) s ≡ replay_entries more t
unfolding replay_entries
replay_entries-append [] more s t h = let same : s ≡ t = cc in rw (same) refl
replay_entries-append (e ∷ es) more s t h =
    by_failure (apply_entry e s).0 h (λ k. replay_entries-append es more (apply_entry e s).1 t k)
  where
    by_failure :
        (failure : Option EngineError)
        → (elim failure [ some x ↦ err x | none ↦ replay_entries es (apply_entry e s).1 ]) ≡ ok t
        → (replay_entries es (apply_entry e s).1 ≡ ok t
            → replay_entries (es ++ more) (apply_entry e s).1 ≡ replay_entries more t)
        → (elim failure [ some x ↦ err x | none ↦ replay_entries (es ++ more) (apply_entry e s).1 ])
          ≡ replay_entries more t
    by_failure (some x) k ih = absurd (cc k)
    by_failure none k ih = ih k

-- Sequences below the largest `u64` do not saturate.
IsFrom-IsRun :
    (n : ℕ) (es : List WalEntry)
    → IsFrom n es
    → n + length es ≤ u64_max
    → IsRun n es (n + length es)
IsFrom-IsRun n [] f h = omega arith
IsFrom-IsRun n (e ∷ es) f h =
    let after : saturating_add n 1 ≡ suc n =
      saturating_add_exact n 1 (omega (arith, h)) ∙ omega arith in
    let rest : IsRun (suc n) es (suc n + length es) =
      IsFrom-IsRun (suc n) es (rw (after) at f.1) (omega (arith, h)) in
    let end : n + length (e ∷ es) ≡ suc n + length es = omega arith in (f.0, rw (end) rest)

-- The error of a call, if it failed.
abbrev failure_of : Result EngineError (Unit {0}) → Option EngineError
failure_of (ok _) = none
failure_of (err e) = some e

failure_of-none : (r : Result EngineError (Unit {0})) → failure_of r ≡ none → r ≡ ok tt
failure_of-none (ok _) h = refl
failure_of-none (err e) h = absurd (cc h)

-- A batch is answered when it has no entries, or when the write of all of them has succeeded.
execute_command_batch-written :
    (env : StorageEnv) (now_ms : ℕ) (commands : List Command) (engine : Engine)
    {results : List CommandBatchResult}
    → (execute_command_batch env now_ms commands engine).0 ≡ ok results
    → (is_empty (start_batch now_ms commands engine).entries ≡ true)
      ⊎ (env.append_batch (start_batch now_ms commands engine).entries ≡ none)
unfolding execute_command_batch finish_batch write_batch
execute_command_batch-written env now_ms commands engine h = ground arith

then_written-ok :
    (w : Written) (rest : WalWriter → List Segment → Written)
    → (then_written w rest).0 ≡ ok tt
    → (w.0 ≡ ok tt) × ((rest w.1 w.2).0 ≡ ok tt)
then_written-ok (ok _, writer, directory) rest h = (refl, h)
then_written-ok (err e, writer, directory) rest h = absurd (cc h)

module _ (c : Codec) (keyring : Option Keyring) (torn : WalEntry → Option ℕ) where
  -- If the entry can be encoded, its length is one that the reader takes.
  abbrev pub IsShort : WalEntry → Type 0
  IsShort e = (frame : List ℕ) → encode_entry c keyring e ≡ ok frame → IsReadable frame

  -- The engine's appending, on the files of the log.
  abbrev pub on_files : (WalEntry → Result EngineError ℕ) → WalWriter → List Segment → StorageEnv
  on_files checksum writer directory = record {
    checksum = checksum;
    append_batch = λ entries. failure_of (append_batch c keyring torn entries writer directory).0;
  }

  write_entry-IsSound :
      (e : WalEntry) (writer : WalWriter) (directory : List Segment)
      → (write_entry c keyring torn e writer directory).0 ≡ ok tt
      → IsShort e
      → IsSound c keyring torn e
  unfolding write_entry write_frame
  write_entry-IsSound e writer directory h short = elim (Bool-cases writer.opened) [
    | inl open_ ↦ by_frame (encode_entry c keyring e) refl open_
    | inr closed ↦ absurd (ground (arith, closed, h))
  ]
    where
      by_torn :
          (t : Option ℕ) (frame : List ℕ)
          → torn e ≡ t
          → encode_entry c keyring e ≡ ok frame
          → writer.opened ≡ true
          → IsSound c keyring torn e
      by_torn none frame q p open_ = record {
        frame = frame;
        encoded = p;
        readable = short frame p;
        whole = q;
      }
      by_torn (some k) frame q p open_ = absurd (ground (arith, open_, p, q, h))

      by_frame :
          (r : Result EngineError (List ℕ))
          → encode_entry c keyring e ≡ r
          → writer.opened ≡ true
          → IsSound c keyring torn e
      by_frame (err x) p open_ = absurd (ground (arith, open_, p, h))
      by_frame (ok frame) p open_ = by_torn (torn e) frame refl p open_

  -- Entries whose write has succeeded were encoded and written whole.
  append_batch-IsSound :
      (entries : List WalEntry) (writer : WalWriter) (directory : List Segment)
      → (append_batch c keyring torn entries writer directory).0 ≡ ok tt
      → All IsShort entries
      → All (IsSound c keyring torn) entries
  unfolding append_batch
  append_batch-IsSound [] writer directory h short = tt
  append_batch-IsSound (e ∷ entries) writer directory h short =
      let w = write_entry c keyring torn e writer directory in
      let (one, rest) = then_written-ok w (append_batch c keyring torn entries) h in
      (
        write_entry-IsSound e writer directory one short.0,
        append_batch-IsSound entries w.1 w.2 rest short.1,
      )

  -- The write of an answered batch has succeeded.
  answered_written :
      (entries : List WalEntry) (writer : WalWriter) (directory : List Segment)
      → (is_empty entries ≡ true)
        ⊎ (failure_of (append_batch c keyring torn entries writer directory).0 ≡ none)
      → (append_batch c keyring torn entries writer directory).0 ≡ ok tt
  unfolding append_batch is_empty
  answered_written [] writer directory h = refl
  answered_written (e ∷ entries) writer directory (inl none_) = absurd (cc none_)
  answered_written (e ∷ entries) writer directory (inr h) =
      failure_of-none (append_batch c keyring torn (e ∷ entries) writer directory).0 h

  -- A batch that is answered, its appending being that of the writer on the files of the log, survives
  -- a restart: the files that the appending leaves replay to the entries of before and those of the
  -- batch, and these lead to the state in memory, metadata included. The writer is open on a log whose
  -- entries lead from a state to the purged state of the engine; the entries of the batch, as far as
  -- they can be encoded, are not longer than the reader takes, and end below the largest `u64`. That
  -- each was encoded and written whole follows from the answer.
  pub execute_command_batch-durable :
      (checksum : WalEntry → Result EngineError ℕ) (now_ms : ℕ) (commands : List Command)
      (engine : Engine) {results : List CommandBatchResult} {n : ℕ} {es : List WalEntry}
      (base : EngineState) (writer : WalWriter) (directory : List Segment)
      → now_ms < u64_max
      → let env = on_files checksum writer directory in
        let purged = purge_expired now_ms engine.state in
        let next = suc purged.metadata.last_applied_sequence in
        let entries = (start_batch now_ms commands engine).entries in
        (execute_command_batch env now_ms commands engine).0 ≡ ok results
        → IsLog c keyring directory writer.active n es next
        → writer.opened ≡ true
        → replay_entries es base ≡ ok purged
        → All IsShort entries
        → next + length entries ≤ u64_max
        → (count : ℕ) × (replay c keyring (append_batch c keyring torn entries writer directory).2
            ≡ ok (replayed count (es ++ entries)))
          × (replay_entries (es ++ entries) base
              ≡ ok (execute_command_batch env now_ms commands engine).1.state)
  unfolding start_batch
  execute_command_batch-durable checksum now_ms commands engine {results} {n} {es} base writer
        directory small answered v open_ led short fits =
      let env = on_files checksum writer directory in
      let purged = purge_expired now_ms engine.state in
      let last = purged.metadata.last_applied_sequence in
      let entries = (start_batch now_ms commands engine).entries in
      let after : saturating_add last 1 ≡ suc last =
        saturating_add_exact last 1 (omega (arith, fits)) ∙ omega arith in
      let from : IsFrom (suc last) entries =
        rw⁻¹ (after) (run_batch-IsFrom _ now_ms commands purged _ _ _) in
      let written =
        answered_written entries writer directory
          (execute_command_batch-written env now_ms commands engine answered) in
      let sound = append_batch-IsSound entries writer directory written short in
      let w =
        append_batch-IsWritten c keyring torn entries writer directory v open_ sound
          (IsFrom-IsRun (suc last) entries from fits) fits in
      let (count, read) = replay-IsLog c keyring w.log in
      let (_, replays) = execute_command_batch-replays env now_ms commands engine small answered in
      (count, read, replay_entries-append es entries base purged led ∙ replays)
