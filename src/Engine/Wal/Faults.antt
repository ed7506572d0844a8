-- ===== src/Engine/Wal/Faults.antt =====
-- Writes of crates/engine/src/store/wal.rs after which its replay refuses the log.
use vaylix.Prelude.{
  ℕ, ◌+◌, ◌≤◌, ◌<◌, ◌^◌, ◌≡◌, refl, ap, ◌∙◌, true, Option, none, some, List, [], ◌∷◌, ◌++◌,
  append_assoc, ok, err, length, take, saturating_add, arith,
}
use vaylix.Engine.Error.{EngineError, WalFault, io, wal_deserialize, invalid_length}
use vaylix.Engine.State.{WalEntry}
use vaylix.Engine.Wal.{
  Codec, Keyring, to_le_bytes, max_wal_entry_size, encode_entry, read_entry, read_entries,
}
use vaylix.Engine.Wal.Frames.{
  IsFrame, IsReadable, encode_entry-IsFrame, length-IsFrame, read_length-long,
}
use vaylix.Engine.Wal.Files.{IsFile, start, next, read_entries-frame}
use vaylix.Engine.Wal.Crash.{>>=-err_lem, read_entries-torn, read_entries_err}
use vaylix.Engine.Wal.Segments.{
  Segment, active_file, replay_loop, replay_segments, replay, list_segments,
}
use vaylix.Engine.Wal.Log.{IsLog, replay_loop-IsChain, count_active-IsChain, list_segments-IsChain}
use vaylix.Engine.Wal.Writer.{
  WalWriter, Written, then_written, append_file, write_frame, write_entry, append_batch,
}
use vaylix.Engine.Wal.Directory.{append_file-active}
use vaylix.Engine.Wal.Append.{IsChain-IsBelow}

module _ (c : Codec) (keyring : Option Keyring) where
  replay_active_err :
      (x : Option ℕ) (n : ℕ) (bytes : List ℕ) (e : EngineError)
      → read_entries c keyring bytes ≡ err e
      → replay_loop c keyring x ((active_file n, bytes) ∷ []) ≡ err e
  unfolding replay_loop
  replay_active_err x n bytes e h = >>=-err_lem _ h

  -- A log whose active file has bytes behind its entries that cannot be read.
  replay_broken :
      {directory : List Segment} {active n : ℕ} {es : List WalEntry} {m : ℕ} (added : List ℕ)
      (e : EngineError) (v : IsLog c keyring directory active n es m)
      → read_entries c keyring (v.bytes ++ added) ≡ err e
      → replay c keyring (append_file (active_file active) added directory) ≡ err e
  unfolding replay replay_segments
  replay_broken {directory} {active} added e v h =
      let below = IsChain-IsBelow c keyring active v.chain (omega arith) in
      let tail = (active_file active, v.bytes ++ added) ∷ [] in
      let listed : list_segments (append_file (active_file active) added directory)
          ≡ v.segments ++ tail =
        rw (v.shape, append_file-active active v.bytes added v.segments below)
          (list_segments-IsChain c keyring (v.bytes ++ added) v.chain) in
      let read : replay_loop c keyring none (v.segments ++ tail) ≡ err e =
        replay_loop-IsChain c keyring none tail (err e) tt v.chain
          (λ y _. replay_active_err y active (v.bytes ++ added) e h) in
      rw (listed, count_active-IsChain c keyring (v.bytes ++ added) v.chain, read) refl

  write_entry-torn :
      (torn : WalEntry → Option ℕ) {k : ℕ} {frame : List ℕ} (e : WalEntry) (writer : WalWriter)
      (directory : List Segment)
      → writer.opened ≡ true
      → encode_entry c keyring e ≡ ok frame
      → torn e ≡ some k
      → write_entry c keyring torn e writer directory
        ≡ (err io, writer, append_file (active_file writer.active) (take k frame) directory)
  unfolding write_entry write_frame
  write_entry-torn torn e writer directory open_ encoded cut = ground (arith, open_, encoded, cut)

  write_entry-whole :
      (torn : WalEntry → Option ℕ) {frame : List ℕ} (e : WalEntry) (writer : WalWriter)
      (directory : List Segment)
      → writer.opened ≡ true
      → writer.max_segment_size_bytes ≡ 0
      → encode_entry c keyring e ≡ ok frame
      → torn e ≡ none
      → write_entry c keyring torn e writer directory ≡ (
        ok tt,
        record writer { file_len = saturating_add writer.file_len (length frame) },
        append_file (active_file writer.active) frame directory,
      )
  unfolding write_entry write_frame
  write_entry-whole torn e writer directory open_ unlimited encoded whole =
      ground (arith, open_, encoded, whole, unlimited)

  append_batch-err :
      (torn : WalEntry → Option ℕ) (e : WalEntry) (entries : List WalEntry) (writer : WalWriter)
      (directory : List Segment) {x : EngineError} {writer' : WalWriter} {directory' : List Segment}
      → write_entry c keyring torn e writer directory ≡ (err x, writer', directory')
      → append_batch c keyring torn (e ∷ entries) writer directory ≡ (err x, writer', directory')
  unfolding append_batch
  append_batch-err torn e entries writer directory h =
      ap (λ w. then_written w (append_batch c keyring torn entries)) h

  append_batch-one :
      (torn : WalEntry → Option ℕ) (e : WalEntry) (writer : WalWriter) (directory : List Segment)
      {writer' : WalWriter} {directory' : List Segment}
      → write_entry c keyring torn e writer directory ≡ (ok tt, writer', directory')
      → append_batch c keyring torn (e ∷ []) writer directory ≡ (ok tt, writer', directory')
  unfolding append_batch
  append_batch-one torn e writer directory h =
      ap (λ w. then_written w (append_batch c keyring torn [])) h

  -- When a writer is open on a log and the write of the first entry of a batch, whose length the
  -- reader takes, stops after a part of its bytes, the batch fails with an I/O error and the replay
  -- of the files is refused: the part stays in the file.
  pub append_batch-torn :
      (torn : WalEntry → Option ℕ) {n m k : ℕ} {es : List WalEntry} {frame : List ℕ} (e : WalEntry)
      (entries : List WalEntry) (writer : WalWriter) (directory : List Segment)
      → IsLog c keyring directory writer.active n es m
      → writer.opened ≡ true
      → encode_entry c keyring e ≡ ok frame
      → IsReadable frame
      → torn e ≡ some k
      → 1 ≤ k
      → k < length frame
      → let w = append_batch c keyring torn (e ∷ entries) writer directory in
        (fault : WalFault) × (w.0 ≡ err io) × (replay c keyring w.2 ≡ err (wal_deserialize fault))
  append_batch-torn torn {k = k} {frame = frame} e entries writer directory v open_ encoded r cut
        some_ h =
      let (fault, read) =
        read_entries-torn c keyring k v.file (encode_entry-IsFrame c keyring e encoded) r some_ h in
      let written =
        append_batch-err torn e entries writer directory
          (write_entry-torn torn e writer directory open_ encoded cut) in
      (
        fault,
        ap (λ w. w.0) written,
        ap (λ (w : Written). replay c keyring w.2) written ∙ replay_broken (take k frame) _ v read,
      )

  read_entry-long :
      (n : ℕ) (rest : List ℕ)
      → n < 2 ^ 32
      → max_wal_entry_size < n
      → read_entry c keyring (to_le_bytes n ++ rest) ≡ err (wal_deserialize (invalid_length n))
  unfolding read_entry
  read_entry-long n rest small long = >>=-err_lem _ (read_length-long n rest small long)

  long_entry :
      {e : WalEntry} {frame : List ℕ} (v : IsFrame c keyring e frame)
      → 8 + max_wal_entry_size < length frame
      → (size : ℕ) × (read_entries c keyring frame ≡ err (wal_deserialize (invalid_length size)))
  long_entry {e} {frame} v h =
      let n = length v.durable in
      let long : max_wal_entry_size < n = omega (arith, length-IsFrame c keyring v) in
      (
        n,
        read_entries_err c keyring frame (omega (arith, h))
            (rw (v.bytes) (read_entry-long n _ v.small long)),
      )

  behind :
      {es : List WalEntry} {bytes : List ℕ} (added : List ℕ) (e : EngineError)
      → IsFile c keyring es bytes
      → read_entries c keyring added ≡ err e
      → read_entries c keyring (bytes ++ added) ≡ err e
  behind added e start h = h
  behind added e (next v r f) h =
      rw (append_assoc, read_entries-frame c keyring _ v r, behind added e f h) refl

  -- An entry that takes more than 4 MiB is written with no error by a writer that is open on a log
  -- and has no limit for segments, and the replay of the files is refused.
  pub append_batch-long :
      (torn : WalEntry → Option ℕ) {n m : ℕ} {es : List WalEntry} {frame : List ℕ} (e : WalEntry)
      (writer : WalWriter) (directory : List Segment)
      → IsLog c keyring directory writer.active n es m
      → writer.opened ≡ true
      → writer.max_segment_size_bytes ≡ 0
      → encode_entry c keyring e ≡ ok frame
      → 8 + max_wal_entry_size < length frame
      → torn e ≡ none
      → let w = append_batch c keyring torn (e ∷ []) writer directory in
        (size : ℕ) × (w.0 ≡ ok tt)
        × (replay c keyring w.2 ≡ err (wal_deserialize (invalid_length size)))
  append_batch-long torn {frame = frame} e writer directory v open_ unlimited encoded h whole =
      let (size, read) = long_entry (encode_entry-IsFrame c keyring e encoded) h in
      let written =
        append_batch-one torn e writer directory
          (write_entry-whole torn e writer directory open_ unlimited encoded whole) in
      (
        size,
        ap (λ w. w.0) written,
        ap (λ (w : Written). replay c keyring w.2) written
            ∙ replay_broken frame _ v (behind frame _ v.file read),
      )
