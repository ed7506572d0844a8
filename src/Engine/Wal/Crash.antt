-- ===== src/Engine/Wal/Crash.antt =====
-- What recovery reads of a log that a crash or a failed write cut off: crates/engine/src/store/wal.rs.
use vaylix.Prelude.{
  ℕ, zero, suc, ◌-◌, ◌^◌, ◌≤◌, ◌<◌, ◌≡◌, refl, sym, ap, ◌∙◌, Option, List, [], ◌∷◌, ◌++◌,
  append_assoc, append-nil, Result, ok, err, ◌>>=◌, length, length-append, take, ltb, arith,
  Bool-cases, inl, inr, ltb→lt,
}
use vaylix.Engine.Error.{
  EngineError, WalFault, wal_deserialize, truncated_length, truncated_checksum, truncated_payload,
}
use vaylix.Engine.State.{WalEntry}
use vaylix.Engine.Wal.{
  Codec, Keyring, to_le_bytes, read_length, read_entry, with_entry, read_entries_from, read_entries,
  max_wal_entry_size,
}
use vaylix.Engine.Wal.Frames.{
  >>=-ok_lem, read_exact_short, read_exact-append, read_length-append, length-to_le_bytes, IsFrame,
  IsReadable, length-IsFrame,
}
use vaylix.Engine.Wal.Files.{take_past, length-take, IsFile, start, next, read_entries-frame}

pub >>=-err_lem :
    {A B : Type 0} {m : Result EngineError A} {e : EngineError} (f : A → Result EngineError B)
    → m ≡ err e
    → (m >>= f) ≡ err e
>>=-err_lem f h = rw (h) refl

module _ (c : Codec) (keyring : Option Keyring) where
  cut_length :
      (n : ℕ) (frame : List ℕ)
      → n < 4
      → n < length frame
      → read_entry c keyring (take n frame) ≡ err (wal_deserialize truncated_length)
  unfolding read_entry read_length
  cut_length n frame h k = >>=-err_lem _ (
      >>=-err_lem _ (
        read_exact_short 4 truncated_length (take n frame)
          (rw (length-take n frame (omega (arith, k))) h)))

  -- Cut off in the checksum, the length is read and the checksum is short.
  cut_checksum :
      (durable : List ℕ) (k : ℕ)
      → length durable < 2 ^ 32
      → 1 ≤ length durable
      → length durable ≤ max_wal_entry_size
      → k < 4
      → read_entry c keyring
          (to_le_bytes (length durable) ++ take k (to_le_bytes (c.hash durable) ++ durable))
        ≡ err (wal_deserialize truncated_checksum)
  unfolding read_entry
  cut_checksum durable k small few many h =
      let tail = to_le_bytes (c.hash durable) ++ durable in
      let l : k ≤ length tail = omega (
        arith,
        h,
        length-append (to_le_bytes (c.hash durable)) durable,
        length-to_le_bytes (c.hash durable),
      ) in
      >>=-ok_lem _ (read_length-append (length durable) (take k tail) small few many)
      ∙ >>=-err_lem _
          (read_exact_short 4 truncated_checksum (take k tail) (rw (length-take k tail l) h))

  cut_payload :
      (durable : List ℕ) (k : ℕ)
      → length durable < 2 ^ 32
      → 1 ≤ length durable
      → length durable ≤ max_wal_entry_size
      → k < length durable
      → read_entry c keyring
          (to_le_bytes (length durable) ++ (to_le_bytes (c.hash durable) ++ take k durable))
        ≡ err (wal_deserialize truncated_payload)
  unfolding read_entry
  cut_payload durable k small few many h =
      let sum = to_le_bytes (c.hash durable) in
      >>=-ok_lem _ (read_length-append (length durable) (sum ++ take k durable) small few many)
      ∙ >>=-ok_lem _
          (read_exact-append truncated_checksum sum (take k durable) (length-to_le_bytes _))
      ∙ >>=-err_lem _ (
          read_exact_short (length durable) truncated_payload (take k durable)
            (rw (length-take k durable (omega (arith, h))) h))

  -- The reader stops at an entry of which only some bytes are there.
  pub read_entry-take :
      {e : WalEntry} {frame : List ℕ} (v : IsFrame c keyring e frame) (n : ℕ)
      → IsReadable frame
      → n < length frame
      → (fault : WalFault) × (read_entry c keyring (take n frame) ≡ err (wal_deserialize fault))
  read_entry-take {e} {frame} v n r h =
      let l = length-IsFrame c keyring v in
      let head = to_le_bytes (length v.durable) in
      let sum = to_le_bytes (c.hash v.durable) in
      elim (Bool-cases (ltb n 4)) [
        | inl a ↦ (truncated_length, cut_length n frame (ltb→lt n 4 a) h)
        | inr a ↦ elim (Bool-cases (ltb n 8)) [
          | inl b ↦
              let shape : take n frame ≡ head ++ take (n - 4) (sum ++ v.durable) = rw (v.bytes) (
                take_past n head (sum ++ v.durable) (n - 4)
                  (ground (arith, a, b, length-to_le_bytes (length v.durable)))) in
              (
                truncated_checksum,
                rw (shape) (
                    cut_checksum v.durable (n - 4) v.small (omega (arith, r.0)) (omega (arith, r.1))
                      (ground (arith, a, b))),
              )
          | inr b ↦
              let shape : take n frame ≡ head ++ (sum ++ take (n - 8) v.durable) = rw (v.bytes) (
                take_past n head (sum ++ v.durable) (n - 4)
                  (ground (arith, b, length-to_le_bytes (length v.durable)))
                ∙ ap (λ t. head ++ t)
                    (take_past (n - 4) sum v.durable (n - 8)
                      (ground (arith, b, length-to_le_bytes (c.hash v.durable))))) in
              (
                truncated_payload,
                rw (shape) (
                    cut_payload v.durable (n - 8) v.small (omega (arith, r.0)) (omega (arith, r.1))
                      (ground (arith, b, h, l))),
              )
        ]
      ]

  take_before : (n : ℕ) (xs ys : List ℕ) → n ≤ length xs → take n (xs ++ ys) ≡ take n xs
  take_before zero xs ys h = refl
  take_before (suc n) [] ys h = absurd (omega arith)
  take_before (suc n) (x ∷ xs) ys h = rw (take_before n xs ys (omega arith)) refl

  pub read_entries_err :
      (bytes : List ℕ) {e : EngineError}
      → 1 ≤ length bytes
      → read_entry c keyring bytes ≡ err e
      → read_entries c keyring bytes ≡ err e
  unfolding read_entries read_entries_from
  read_entries_err [] h k = absurd (omega arith)
  read_entries_err (b ∷ bytes) h k = rw (k, read_entries_from) refl

  torn :
      {e : WalEntry} {frame : List ℕ} (n : ℕ)
      → IsFrame c keyring e frame
      → IsReadable frame
      → 1 ≤ n
      → n < length frame
      → (fault : WalFault) × (read_entries c keyring (take n frame) ≡ err (wal_deserialize fault))
  torn {frame = frame} n v r some_ h =
      let (fault, k) = read_entry-take v n r h in
      (fault, read_entries_err (take n frame) (rw (length-take n frame (omega (arith, h))) some_) k)

  -- A log whose last write left some bytes of an entry, and not all, is refused.
  pub read_entries-torn :
      {es : List WalEntry} {bytes : List ℕ} {e : WalEntry} {frame : List ℕ} (n : ℕ)
      → IsFile c keyring es bytes
      → IsFrame c keyring e frame
      → IsReadable frame
      → 1 ≤ n
      → n < length frame
      → (fault : WalFault) × (read_entries c keyring (bytes ++ take n frame)
          ≡ err (wal_deserialize fault))
  read_entries-torn n start v r some_ h = torn n v r some_ h
  read_entries-torn {frame = frame} n (next w q f) v r some_ h =
      let (fault, k) = read_entries-torn n f v r some_ h in
      (fault, rw (append_assoc, read_entries-frame c keyring _ w q, k) refl)

  with_entry-ok :
      (e : WalEntry) (r : Result EngineError (List WalEntry)) {found es : List WalEntry}
      → with_entry e r ≡ ok found
      → ((rest : List WalEntry) → r ≡ ok rest → (lost : List WalEntry) × (rest ++ lost ≡ es))
      → (lost : List WalEntry) × (found ++ lost ≡ e ∷ es)
  with_entry-ok e (err x) h k = cc
  with_entry-ok e (ok rest) h k = let (lost, l) = k rest refl in (lost, cc)

  nothing :
      (n : ℕ) (found : List WalEntry) → read_entries c keyring (take n []) ≡ ok found → found ≡ []
  unfolding read_entries read_entries_from
  nothing zero found h = cc
  nothing (suc n) found h = cc

  nothing_taken :
      (n : ℕ) (bytes : List ℕ) (found : List WalEntry)
      → n ≡ 0
      → read_entries c keyring (take n bytes) ≡ ok found
      → found ≡ []
  unfolding read_entries read_entries_from
  nothing_taken zero bytes found z h = cc
  nothing_taken (suc n) bytes found z h = absurd (omega arith)

  -- Wherever the bytes of written entries, each of a length that the reader takes, are cut off, the
  -- reading of the file fails or gives the first of these entries, as they were written.
  pub read_entries-take :
      {es : List WalEntry} {bytes : List ℕ} (n : ℕ) (found : List WalEntry)
      → IsFile c keyring es bytes
      → read_entries c keyring (take n bytes) ≡ ok found
      → (lost : List WalEntry) × (found ++ lost ≡ es)
  read_entries-take n found start h = ([], rw (append-nil found) (nothing n found h))
  read_entries-take n found (next {e} {frame} {es} {bytes} v r f) h =
      elim (Bool-cases (ltb n (length frame))) [
        | inl a ↦ elim (Bool-cases (ltb 0 n)) [
          | inl b ↦
              let (fault, k) = torn n v r (ltb→lt 0 n b) (ltb→lt n (length frame) a) in
              let cut = take_before n frame bytes (ground (arith, a)) in
              let read : err (wal_deserialize fault) ≡ ok found =
                sym k ∙ ap (read_entries c keyring) (sym cut) ∙ h in
              absurd (cc read)
          | inr b ↦ (e ∷ es, rw (nothing_taken n (frame ++ bytes) found (ground (arith, b)) h) refl)
        ]
        | inr a ↦
            with_entry-ok e (read_entries c keyring (take (n - length frame) bytes))
              (sym (read_entries-frame c keyring _ v r)
                ∙ ap (read_entries c keyring)
                    (sym (take_past n frame bytes (n - length frame) (ground (arith, a))))
                ∙ h)
              (λ rest k. read_entries-take (n - length frame) rest f k)
      ]
