-- ===== src/Engine/Recovery/Restored.antt =====
-- What a restart finds where `restore_to_point` of crates/engine/src/engine/core.rs has written.
use vaylix.Prelude.{
  false, saturating_add, ℕ, ◌≤◌, ◌≡◌, refl, ap, ◌∙◌, Bool, true, false, Option, none, some, List,
  [], ◌∷◌, Result, ok, err, >>=-eq-ok, arith, All,
}
use vaylix.Engine.Error.{EngineError}
use vaylix.Engine.State.{EngineState, WalEntry, apply_entry, replay_entries}
use vaylix.Engine.Log.{StorageEnv, build_wal_entry_identities, collect_identities}
use vaylix.Engine.Wal.{Codec, Keyring}
use vaylix.Engine.Wal.Log.{replay-IsLog}
use vaylix.Engine.Wal.Rebuilt.{created-IsLog}
use vaylix.Engine.Wal.Segments
use vaylix.Engine.Wal.Segments.{
  Segment, WalReplay, WalReplayTarget, replay, replay_until, last_of, cut_at,
}
use vaylix.Engine.Wal.Until.{IsCut, replay_until-cut_at, cut_at-IsCut}
use vaylix.Engine.Recovery.{
  Manifest, SnapshotFile, mark_snapshot, validate_manifest_snapshot, with_manifest, recover,
  snapshot_or_new,
}
use vaylix.Engine.Recovery.Replay.{last_sequence}
use vaylix.Engine.Recovery.Point.{
  check_baseline, newest_or, check_history, Restored, restored_files, state_at, restore_to_point,
}

-- An entry that is applied sets the sequence.
apply_entry-sequence :
    (e : WalEntry) (s t : EngineState)
    → apply_entry e s ≡ (none, t)
    → t.metadata.last_applied_sequence ≡ e.sequence
unfolding apply_entry
apply_entry-sequence e s t h = ground (arith, h)

replay_entries-sequence :
    (entries : List WalEntry) (s t : EngineState)
    → replay_entries entries s ≡ ok t
    → t.metadata.last_applied_sequence ≡ last_sequence s.metadata.last_applied_sequence entries
unfolding replay_entries
replay_entries-sequence [] s t h = let same : s ≡ t = cc in rw (same) refl
replay_entries-sequence (e ∷ entries) s t h =
    by_entry (apply_entry e s) refl h (λ s' k. replay_entries-sequence entries s' t k)
  where
    by_entry :
        (w : Option EngineError × EngineState)
        → apply_entry e s ≡ w
        → (elim w.0 [ some x ↦ err x | none ↦ replay_entries entries w.1 ]) ≡ ok t
        → ((s' : EngineState)
            → replay_entries entries s' ≡ ok t
            → t.metadata.last_applied_sequence
              ≡ last_sequence s'.metadata.last_applied_sequence entries)
        → t.metadata.last_applied_sequence ≡ last_sequence e.sequence entries
    by_entry (some x, s') applied k ih = cc
    by_entry (none, s') applied k ih =
        ih s' k ∙ ap (λ n. last_sequence n entries) (apply_entry-sequence e s s' applied)

last_sequence-same :
    (e : WalEntry) (cut : List WalEntry)
    → Segments.last_sequence e cut ≡ last_sequence e.sequence cut
last_sequence-same e [] = refl
last_sequence-same e (x ∷ cut) = last_sequence-same x cut

last_sequence-le :
    (m n : ℕ) (cut : List WalEntry)
    → m ≤ n
    → All (λ e. e.sequence ≤ n) cut
    → last_sequence m cut ≤ n
last_sequence-le m n [] h k = h
last_sequence-le m n (e ∷ cut) h k = last_sequence-le e.sequence n cut k.0 k.1

-- The last sequence of entries up to a target, the newest of which is not below it.
last_sequence-target :
    (base n : ℕ) (cut : List WalEntry)
    → All (λ e. e.sequence ≤ n) cut
    → base ≤ n
    → n ≤ newest_or (last_of cut) base
    → last_sequence base cut ≡ n
last_sequence-target base n [] h low high = omega arith
last_sequence-target base n (e ∷ cut) h low high =
    let up = last_sequence-le e.sequence n cut h.0 h.1 in
    let same = last_sequence-same e cut in omega (arith, up, same, high)

module _ (format : ℕ) where
  recover-restored_files :
      (env : StorageEnv) (now_ms size_bytes checksum : ℕ) (state fresh : EngineState)
      → let r = restored_files format now_ms size_bytes checksum state in
        recover format env false fresh (some r.snapshot) (some r.manifest) []
        ≡ ok (mark_snapshot now_ms state.metadata.last_applied_sequence state)
  unfolding restored_files recover with_manifest validate_manifest_snapshot mark_snapshot
      build_wal_entry_identities collect_identities replay_entries
  recover-restored_files env now_ms size_bytes checksum state fresh = ground arith

  -- The directory of the restored files is an empty log.
  replay-restored_files :
      (c : Codec) (keyring : Option Keyring) (now_ms size_bytes checksum : ℕ) (state : EngineState)
      → (count : ℕ) × (replay c keyring
            (restored_files format now_ms size_bytes checksum state).directory
          ≡ ok (Segments.replayed count []))
  unfolding restored_files
  replay-restored_files c keyring now_ms size_bytes checksum state =
      replay-IsLog c keyring
        (created-IsLog c keyring (saturating_add state.metadata.last_applied_sequence 1))

  with_manifest-sequence :
      (snapshot : Option SnapshotFile) (manifest : Manifest) (state base : EngineState)
      → with_manifest format snapshot (some manifest) state ≡ ok base
      → base.metadata.last_applied_sequence ≡ manifest.last_snapshot_sequence
  unfolding with_manifest validate_manifest_snapshot
  with_manifest-sequence none manifest state base h = ground (arith, h)
  with_manifest-sequence (some snapshot) manifest state base h = ground (arith, h)

  module _ (c : Codec) (keyring : Option Keyring) where
    restore_to_point-ok :
        (same legacy : Bool) (now_ms size_bytes checksum : ℕ) (fresh : EngineState)
        (snapshot : Option SnapshotFile) (manifest : Option Manifest) (directory : List Segment)
        (target : WalReplayTarget) (r : Restored)
        → restore_to_point format c keyring same legacy now_ms size_bytes checksum fresh snapshot
            manifest directory target
          ≡ ok r
        → (state : EngineState) × (state_at format c keyring fresh snapshot manifest directory
              target
            ≡ ok state)
          × (restored_files format now_ms size_bytes checksum state ≡ r)
    unfolding restore_to_point
    restore_to_point-ok true legacy now_ms size_bytes checksum fresh snapshot manifest directory
          target r h =
        absurd (cc h)
    restore_to_point-ok false true now_ms size_bytes checksum fresh snapshot manifest directory
          target r h =
        absurd (cc h)
    restore_to_point-ok false false now_ms size_bytes checksum fresh snapshot manifest directory
          target r h =
        let (state, at, k) =
          >>=-eq-ok (state_at format c keyring fresh snapshot manifest directory target) _ h in
        (state, at, cc)

    -- The steps of a state at a sequence.
    record IsAt (n : ℕ) (manifest : Manifest) (merged : Result EngineError EngineState)
        (found : WalReplay) (state : EngineState) : Type 0 where
      base : EngineState
      from : merged ≡ ok base
      low : manifest.last_snapshot_sequence ≤ n
      high : n ≤ newest_or found.newest_sequence manifest.last_snapshot_sequence
      replayed : replay_entries found.entries base ≡ ok state

    check_baseline-le :
        (n sequence time_ms : ℕ)
        → check_baseline (WalReplayTarget.to_sequence n) sequence time_ms ≡ ok tt
        → sequence ≤ n
    unfolding check_baseline
    check_baseline-le n sequence time_ms h = ground (arith, h)

    check_history-le :
        (n sequence : ℕ) (found : WalReplay)
        → check_history (WalReplayTarget.to_sequence n) found sequence ≡ ok tt
        → n ≤ newest_or found.newest_sequence sequence
    unfolding check_history
    check_history-le n sequence found h = ground (arith, h)

    state_at-IsAt :
        (n : ℕ) (fresh : EngineState) (snapshot : Option SnapshotFile) (manifest : Manifest)
        (directory : List Segment) (whole : WalReplay) (state : EngineState)
        → replay c keyring directory ≡ ok whole
        → state_at format c keyring fresh snapshot
            (some manifest)
            directory
            (WalReplayTarget.to_sequence n)
          ≡ ok state
        → IsAt n manifest
            (with_manifest format snapshot (some manifest) (snapshot_or_new format snapshot fresh))
            (cut_at (WalReplayTarget.to_sequence n) whole)
            state
    unfolding state_at
    state_at-IsAt n fresh snapshot manifest directory whole state read h =
        let (base, from, k1) =
          >>=-eq-ok
            (with_manifest format snapshot (some manifest) (snapshot_or_new format snapshot fresh))
            _ h in
        let (_, low, k2) =
          >>=-eq-ok
            (check_baseline (WalReplayTarget.to_sequence n) manifest.last_snapshot_sequence
              manifest.last_snapshot_at_ms)
            _ k1 in
        let (found, until, k3) =
          >>=-eq-ok (replay_until c keyring directory (WalReplayTarget.to_sequence n)) _ k2 in
        let (_, high, k4) =
          >>=-eq-ok
            (check_history (WalReplayTarget.to_sequence n) found manifest.last_snapshot_sequence) _
            k3 in
        let cut =
          replay_until-cut_at c keyring directory (WalReplayTarget.to_sequence n) whole read in
        let same : cut_at (WalReplayTarget.to_sequence n) whole ≡ found = cc in
        rw (same) (record {
          base = base;
          from = from;
          low = check_baseline-le n _ _ low;
          high = check_history-le n _ found high;
          replayed = k4;
        })

    -- If the source has a manifest and its log replays, a directory restored to a sequence is
    -- recovered to the state at that sequence: its own log is read, and the recovery with what was
    -- read gives the snapshot of the source with the entries up to the target, and no other,
    -- applied. The last sequence of that state is the target.
    pub recover-restore_to_point :
        (env : StorageEnv) (same legacy : Bool) (now_ms size_bytes checksum n : ℕ)
        (fresh anew : EngineState) (snapshot : Option SnapshotFile) (manifest : Manifest)
        (directory : List Segment) (whole : WalReplay) (r : Restored)
        → replay c keyring directory ≡ ok whole
        → restore_to_point format c keyring same legacy now_ms size_bytes checksum fresh snapshot
            (some manifest)
            directory
            (WalReplayTarget.to_sequence n)
          ≡ ok r
        → (base : EngineState) × (cut : List WalEntry) × (state : EngineState) × (with_manifest
              format snapshot
              (some manifest)
              (snapshot_or_new format snapshot fresh)
            ≡ ok base)
          × IsCut n whole.entries cut
          × (replay_entries cut base ≡ ok state)
          × (state.metadata.last_applied_sequence ≡ n)
          × (log : WalReplay) × (replay c keyring r.directory ≡ ok log)
          × (recover format env false anew (some r.snapshot) (some r.manifest) log.entries
              ≡ ok (mark_snapshot now_ms n state))
    recover-restore_to_point env same legacy now_ms size_bytes checksum n fresh anew snapshot
          manifest directory whole r read h =
        let (state, at, files) =
          restore_to_point-ok same legacy now_ms size_bytes checksum fresh snapshot (some manifest)
            directory _ r h in
        let v = state_at-IsAt n fresh snapshot manifest directory whole state read at in
        let cut = cut_at-IsCut c keyring directory n whole read in
        let base = with_manifest-sequence snapshot manifest _ v.base v.from in
        let reached : state.metadata.last_applied_sequence ≡ n =
          replay_entries-sequence _ v.base state v.replayed
          ∙ ap (λ m. last_sequence m (cut_at (WalReplayTarget.to_sequence n) whole).entries) base
          ∙ last_sequence-target manifest.last_snapshot_sequence n _ cut.within v.low v.high in
        let (count, logged) : (count : ℕ) × (replay c keyring r.directory
              ≡ ok (Segments.replayed count [])) =
          rw⁻¹ (files) (replay-restored_files c keyring now_ms size_bytes checksum state) in
        let recovered : recover format env false anew (some r.snapshot) (some r.manifest) []
            ≡ ok (mark_snapshot now_ms state.metadata.last_applied_sequence state) =
          rw⁻¹ (files) (recover-restored_files env now_ms size_bytes checksum state anew) in
        (
          v.base,
          (cut_at (WalReplayTarget.to_sequence n) whole).entries,
          state,
          v.from,
          cut,
          v.replayed,
          reached,
          Segments.replayed count [],
          logged,
          recovered ∙ ap (λ m. ok (mark_snapshot now_ms m state)) reached,
        )
