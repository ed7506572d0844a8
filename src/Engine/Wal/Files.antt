-- ===== src/Engine/Wal/Files.antt =====
-- The files that `append_encoded_entry` of crates/engine/src/store/wal.rs builds, and what is read of
-- them after a crash.
use vaylix.Prelude.{
  ℕ, zero, suc, ◌+◌, ◌≤◌, ◌≡◌, refl, ap, ◌∙◌, Option, List, [], ◌∷◌, ◌++◌, append_assoc, ok, length,
  take, arith,
}
use vaylix.Engine.State.{WalEntry}
use vaylix.Engine.Wal.{Codec, Keyring, read_entry, with_entry, read_entries_from, read_entries}
use vaylix.Engine.Wal.Frames.{IsFrame, IsReadable, length-IsFrame, read_entry-IsFrame}

pub take_past :
    (n : ℕ) (xs ys : List ℕ) (k : ℕ) → n ≡ length xs + k → take n (xs ++ ys) ≡ xs ++ take k ys
take_past n [] ys k h = let same : n ≡ k = omega arith in rw (same) refl
take_past zero (x ∷ xs) ys k h = absurd (omega arith)
take_past (suc n) (x ∷ xs) ys k h = rw (take_past n xs ys k (omega arith)) refl

pub length-take : (n : ℕ) (xs : List ℕ) → n ≤ length xs → length (take n xs) ≡ n
length-take zero xs h = refl
length-take (suc n) [] h = absurd (omega arith)
length-take (suc n) (x ∷ xs) h = rw (length-take n xs (omega arith)) refl

module _ (c : Codec) (keyring : Option Keyring) where
  read_entries_from-skip :
      (xs rest : List ℕ)
      → read_entries_from c keyring (length xs) (xs ++ rest) ≡ read_entries_from c keyring 0 rest
  unfolding read_entries_from
  read_entries_from-skip [] rest = refl
  read_entries_from-skip (x ∷ xs) rest = read_entries_from-skip xs rest

  -- A file with whole entries, of lengths that the reader takes.
  pub data IsFile : List WalEntry → List ℕ → Type 0 where
    start : IsFile [] []
    next :
        {e : WalEntry} {frame : List ℕ} {es : List WalEntry} {bytes : List ℕ}
        → IsFrame c keyring e frame
        → IsReadable frame
        → IsFile es bytes
        → IsFile (e ∷ es) (frame ++ bytes)

  pub read_entries-frame :
      {e : WalEntry} {frame : List ℕ} (rest : List ℕ)
      → IsFrame c keyring e frame
      → IsReadable frame
      → read_entries c keyring (frame ++ rest) ≡ with_entry e (read_entries c keyring rest)
  unfolding read_entries read_entries_from
  read_entries-frame {e} {frame} rest v r =
      go frame rest r (read_entry-IsFrame c keyring v rest r) (length-IsFrame c keyring v)
    where
      go :
          (frame rest : List ℕ) {n : ℕ}
          → IsReadable frame
          → read_entry c keyring (frame ++ rest) ≡ ok (e, n)
          → length frame ≡ 8 + n
          → read_entries_from c keyring 0 (frame ++ rest)
            ≡ with_entry e (read_entries_from c keyring 0 rest)
      go [] rest r h k = absurd (omega arith)
      go (b ∷ frame) rest {n} r h k =
          let l : length frame ≡ 7 + n = omega arith in
          rw (h, read_entries_from)
            (rw⁻¹ (l) (ap (with_entry e) (read_entries_from-skip frame rest)))

  -- What was written is read back.
  pub read_entries-IsFile :
      {es : List WalEntry} {bytes : List ℕ} → IsFile es bytes → read_entries c keyring bytes ≡ ok es
  unfolding read_entries read_entries_from
  read_entries-IsFile start = refl
  read_entries-IsFile (next v r f) = read_entries-frame _ v r ∙ rw (read_entries-IsFile f) refl

  pub IsFile-append :
      {es more : List WalEntry} {bytes added : List ℕ}
      → IsFile es bytes
      → IsFile more added
      → IsFile (es ++ more) (bytes ++ added)
  IsFile-append start g = g
  IsFile-append (next v r f) g = rw (append_assoc) (next v r (IsFile-append f g))
