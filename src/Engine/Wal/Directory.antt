-- ===== src/Engine/Wal/Directory.antt =====
-- What the calls on files of crates/engine/src/store/wal.rs do to sealed segments with the active one behind.
use vaylix.Prelude.{ℕ, ◌<◌, ◌≡◌, ap, ◌∙◌, false, none, some, List, [], ◌∷◌, ◌++◌, All, arith}
use vaylix.Engine.Wal.Segments.{Segment, sealed_file, active_file, is_active}
use vaylix.Engine.Wal.Writer.{append_file, remove_file, contents, create_file, rename_file}

-- Sealed files that start below a sequence.
abbrev pub IsBelow : ℕ → Segment → Type 0
IsBelow n s = (is_active s.0 ≡ false) × (s.0.start_sequence < n)

module _ (n : ℕ) (bytes : List ℕ) where
  pub append_file-active :
      (added : List ℕ) (segments : List Segment)
      → All (IsBelow n) segments
      → append_file (active_file n) added (segments ++ (active_file n, bytes) ∷ [])
        ≡ segments ++ (active_file n, bytes ++ added) ∷ []
  unfolding append_file
  append_file-active added [] h = ground arith
  append_file-active added (s ∷ segments) h =
      ground (arith, h.0, append_file-active added segments h.1)

  pub contents_active :
      (segments : List Segment)
      → All (IsBelow n) segments
      → contents (active_file n) (segments ++ (active_file n, bytes) ∷ []) ≡ some bytes
  unfolding contents
  contents_active [] h = ground arith
  contents_active (s ∷ segments) h = ground (arith, h.0, contents_active segments h.1)

  remove_file-sealed :
      (l : ℕ) (segments : List Segment)
      → All (IsBelow n) segments
      → remove_file (sealed_file n l) (segments ++ (active_file n, bytes) ∷ [])
        ≡ segments ++ (active_file n, bytes) ∷ []
  unfolding remove_file
  remove_file-sealed l [] h = ground arith
  remove_file-sealed l (s ∷ segments) h = ground (arith, h.0, remove_file-sealed l segments h.1)

  pub remove_file-active :
      (segments : List Segment)
      → All (IsBelow n) segments
      → remove_file (active_file n) (segments ++ (active_file n, bytes) ∷ []) ≡ segments
  unfolding remove_file
  remove_file-active [] h = ground arith
  remove_file-active (s ∷ segments) h = ground (arith, h.0, remove_file-active segments h.1)

  contents_fresh :
      (k l : ℕ) (segments : List Segment)
      → All (IsBelow n) segments
      → contents (active_file k) (segments ++ (sealed_file n l, bytes) ∷ []) ≡ none
  unfolding contents
  contents_fresh k l [] h = ground arith
  contents_fresh k l (s ∷ segments) h = ground (arith, h.0, contents_fresh k l segments h.1)

  pub renamed :
      (l : ℕ) (segments : List Segment)
      → All (IsBelow n) segments
      → rename_file (active_file n) (sealed_file n l) (segments ++ (active_file n, bytes) ∷ [])
        ≡ segments ++ (sealed_file n l, bytes) ∷ []
  unfolding rename_file
  renamed l segments h =
      let removed : remove_file (active_file n)
            (remove_file (sealed_file n l) (segments ++ (active_file n, bytes) ∷ []))
          ≡ segments =
        rw (remove_file-sealed l segments h) (remove_file-active segments h) in
      ground (arith, contents_active segments h, removed)

  created :
      (k : ℕ) (directory : List Segment)
      → contents (active_file k) directory ≡ none
      → create_file (active_file k) directory ≡ directory ++ (active_file k, []) ∷ []
  unfolding create_file
  created k directory h = ground (arith, h)

  -- The active file becomes a sealed one, and a new active file stands behind it.
  pub rotated :
      (k l : ℕ) (segments : List Segment)
      → All (IsBelow n) segments
      → create_file
          (active_file k)
          (rename_file (active_file n) (sealed_file n l) (segments ++ (active_file n, bytes) ∷ []))
        ≡ (segments ++ (sealed_file n l, bytes) ∷ []) ++ (active_file k, []) ∷ []
  rotated k l segments h =
      ap (create_file (active_file k)) (renamed l segments h)
      ∙ created k _ (contents_fresh k l segments h)
