-- ===== src/Engine/Wal/Append.antt =====
-- `append_batch` of crates/engine/src/store/wal.rs adds its entries to the log, whatever it rotates.
use vaylix.Prelude.{
  ℕ, suc, ◌≤◌, ◌≡◌, refl, ◌∙◌, true, Option, none, List, [], ◌∷◌, ◌++◌, append_assoc, append-nil,
  ok, length, saturating_add, saturating_add_exact, u64_max, All, arith, Bool-cases, inl, inr,
}
use vaylix.Engine.State.{WalEntry}
use vaylix.Engine.Wal.{Codec, Keyring, encode_entry}
use vaylix.Engine.Wal.Frames.{IsFrame, IsReadable, encode_entry-IsFrame}
use vaylix.Engine.Wal.Files.{IsFile, start, next, IsFile-append}
use vaylix.Engine.Wal.Segments.{Segment, sealed_file, active_file, replayed, replay}
use vaylix.Engine.Wal.Log.{
  IsRun, IsRun-le, IsRun-append, IsChain, done, more, IsLog, replay-IsLog, IsChain-le,
}
use vaylix.Engine.Wal.Writer.{
  WalWriter, append_file, create_file, rename_file, Written, then_written, rotate_after, is_full,
  write_frame, write_entry, append_batch,
}
use vaylix.Engine.Wal.Directory.{IsBelow, append_file-active, rotated}

module _ (c : Codec) (keyring : Option Keyring) where
  pub IsChain-IsBelow :
      {n m : ℕ} {segments : List Segment} {es : List WalEntry} (k : ℕ)
      → IsChain c keyring n segments m es
      → m ≤ k
      → All (IsBelow k) segments
  IsChain-IsBelow k done h = tt
  IsChain-IsBelow k (more f le r g) h =
      let up = IsChain-le c keyring g in ((refl, omega arith), IsChain-IsBelow k g h)

  pub IsChain-snoc :
      {n m l : ℕ} {segments : List Segment} {es last : List WalEntry} {bytes : List ℕ}
      → IsChain c keyring n segments m es
      → IsFile c keyring last bytes
      → m ≤ l
      → IsRun m last (suc l)
      → IsChain c keyring n (segments ++ (sealed_file m l, bytes) ∷ []) (suc l) (es ++ last)
  IsChain-snoc {last = last} done f le r = rw⁻¹ (append-nil last) (more f le r done)
  IsChain-snoc (more f le r g) f' le' r' =
      rw (append_assoc) (more f le r (IsChain-snoc g f' le' r'))

  -- A call that succeeded, with an open writer and the entries that its files now hold.
  pub record IsWritten (n : ℕ) (es : List WalEntry) (m : ℕ) (w : Written) : Type 0 where
    pub result : w.0 ≡ ok tt
    pub opened : w.1.opened ≡ true
    pub log : IsLog c keyring w.2 w.1.active n es m

  module _ {n : ℕ} {es : List WalEntry} (writer : WalWriter) (directory : List Segment) where
    longer-IsLog :
        {m : ℕ} {e : WalEntry} {frame : List ℕ}
        → IsLog c keyring directory writer.active n es m
        → IsFrame c keyring e frame
        → IsReadable frame
        → e.sequence ≡ m
        → IsLog c keyring
            (append_file (active_file writer.active) frame directory)
            writer.active
            n
            (es ++ e ∷ [])
            (suc m)
    longer-IsLog {m} {e} {frame} v f r at =
        let one : IsFile c keyring (e ∷ []) frame = rw⁻¹ (append-nil frame) (next f r start) in
        let below = IsChain-IsBelow writer.active v.chain (omega arith) in
        record {
          segments = v.segments;
          bytes = v.bytes ++ frame;
          old = v.old;
          new = v.new ++ e ∷ [];
          chain = v.chain;
          file = IsFile-append c keyring v.file one;
          run = IsRun-append writer.active m (suc m) v.new (e ∷ []) v.run (at, refl);
          shape = rw (v.shape) (append_file-active writer.active v.bytes frame v.segments below);
          entries = rw (v.entries, append_assoc) refl;
        }

    rotated-IsLog :
        (l : ℕ)
        → IsLog c keyring directory writer.active n es (suc l)
        → writer.active ≤ l
        → IsLog c keyring
            (create_file
              (active_file (suc l))
              (rename_file (active_file writer.active) (sealed_file writer.active l) directory))
            (suc l)
            n
            es
            (suc l)
    rotated-IsLog l v h =
        let below = IsChain-IsBelow writer.active v.chain (omega arith) in
        record {
          segments = v.segments ++ (sealed_file writer.active l, v.bytes) ∷ [];
          bytes = [];
          old = v.old ++ v.new;
          new = [];
          chain = IsChain-snoc v.chain v.file h v.run;
          file = start;
          run = refl;
          shape = rw (v.shape) (rotated writer.active v.bytes (suc l) l v.segments below);
          entries = rw (v.entries, append-nil) refl;
        }

  rotate_after-IsWritten :
      {n : ℕ} {es : List WalEntry} (l last : ℕ) (writer : WalWriter) (directory : List Segment)
      → IsLog c keyring directory writer.active n es (suc l)
      → writer.active ≤ l
      → last ≡ l
      → suc l ≤ u64_max
      → IsWritten n es (suc l) (rotate_after last writer directory)
  unfolding rotate_after
  rotate_after-IsWritten l last writer directory v h at fits =
      let after : saturating_add l 1 ≡ suc l =
        saturating_add_exact l 1 (omega arith) ∙ omega arith in
      rw (at, after)
        (record { result = refl; opened = refl; log = rotated-IsLog writer directory l v h })

  write_frame-IsWritten :
      {n m : ℕ} {es : List WalEntry} (e : WalEntry) (frame : List ℕ) (writer : WalWriter)
      (directory : List Segment)
      → IsLog c keyring directory writer.active n es m
      → writer.opened ≡ true
      → IsFrame c keyring e frame
      → IsReadable frame
      → e.sequence ≡ m
      → suc m ≤ u64_max
      → IsWritten n (es ++ e ∷ []) (suc m) (write_frame c keyring none e frame writer directory)
  unfolding write_frame
  write_frame-IsWritten {n} {m} {es} e frame writer directory v open_ f r at fits =
      let longer : WalWriter = record writer {
        file_len = saturating_add writer.file_len (length frame);
      } in
      let appended = append_file (active_file writer.active) frame directory in
      let grown = longer-IsLog writer directory v f r at in
      elim (Bool-cases (is_full longer)) [
        | inl full ↦ rw (full) (
            rotate_after-IsWritten m e.sequence longer appended grown
              (IsRun-le writer.active m v.new v.run) at fits)
        | inr room ↦ rw (room) (record { result = refl; opened = open_; log = grown })
      ]

  module _ (torn : WalEntry → Option ℕ) where
    -- An entry that the writer can write and the reader takes.
    pub record IsSound (e : WalEntry) : Type 0 where
      pub frame : List ℕ
      pub encoded : encode_entry c keyring e ≡ ok frame
      pub readable : IsReadable frame
      pub whole : torn e ≡ none

    write_entry-IsWritten :
        {n m : ℕ} {es : List WalEntry} (e : WalEntry) (writer : WalWriter)
        (directory : List Segment)
        → IsLog c keyring directory writer.active n es m
        → writer.opened ≡ true
        → IsSound e
        → e.sequence ≡ m
        → suc m ≤ u64_max
        → IsWritten n (es ++ e ∷ []) (suc m) (write_entry c keyring torn e writer directory)
    unfolding write_entry
    write_entry-IsWritten e writer directory v open_ s at fits =
        rw (open_, s.encoded, s.whole)
          (write_frame-IsWritten e s.frame writer directory v open_
            (encode_entry-IsFrame c keyring e s.encoded) s.readable at fits)

    append_rest :
        {n m k : ℕ} {es : List WalEntry} (entries : List WalEntry) (w : Written)
        → IsWritten n es m w
        → ((writer : WalWriter) (directory : List Segment)
            → IsLog c keyring directory writer.active n es m
            → writer.opened ≡ true
            → IsWritten n (es ++ entries) k (append_batch c keyring torn entries writer directory))
        → IsWritten n (es ++ entries) k (then_written w (append_batch c keyring torn entries))
    append_rest entries w v k = rw (v.result) (k w.1 w.2 v.log v.opened)

    -- A batch of sound entries with the next sequences is written behind the log, over as many segments
    -- as the size asks for.
    pub append_batch-IsWritten :
        {n m k : ℕ} {es : List WalEntry} (entries : List WalEntry) (writer : WalWriter)
        (directory : List Segment)
        → IsLog c keyring directory writer.active n es m
        → writer.opened ≡ true
        → All IsSound entries
        → IsRun m entries k
        → k ≤ u64_max
        → IsWritten n (es ++ entries) k (append_batch c keyring torn entries writer directory)
    unfolding append_batch
    append_batch-IsWritten {m = m} {es = es} [] writer directory v open_ s r fits =
        rw (append-nil es) (rw⁻¹ (r) (record { result = refl; opened = open_; log = v }))
    append_batch-IsWritten {m = m} {k = k} {es = es} (e ∷ entries) writer directory v open_ s r
          fits =
        let room = IsRun-le (suc m) k entries r.1 in
        rw⁻¹ (append_assoc es (e ∷ []) entries) (
          append_rest entries (write_entry c keyring torn e writer directory)
            (write_entry-IsWritten e writer directory v open_ s.0 r.0 (omega (arith, room, fits)))
            λ writer' directory' v' open'.
              append_batch-IsWritten entries writer' directory' v' open' s.1 r.1 fits)

    -- A batch of sound entries with the next sequences succeeds, and the replay of the files then gives
    -- the entries of before and the batch, wherever the writer has rotated.
    pub append_batch-replay :
        {n m k : ℕ} {es : List WalEntry} (entries : List WalEntry) (writer : WalWriter)
        (directory : List Segment)
        → IsLog c keyring directory writer.active n es m
        → writer.opened ≡ true
        → All IsSound entries
        → IsRun m entries k
        → k ≤ u64_max
        → let w = append_batch c keyring torn entries writer directory in
          (w.0 ≡ ok tt) × (count : ℕ) × (replay c keyring w.2 ≡ ok (replayed count (es ++ entries)))
    append_batch-replay entries writer directory v open_ s r fits =
        let w = append_batch-IsWritten entries writer directory v open_ s r fits in
        let (count, read) = replay-IsLog c keyring w.log in (w.result, count, read)
