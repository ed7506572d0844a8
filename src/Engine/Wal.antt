-- ===== src/Engine/Wal.antt =====
-- crates/engine/src/store/wal.rs: the entries of the log as framed bytes, and what is read back.
pub mod Frames
pub mod Files
pub mod Crash
pub mod Segments
pub mod Writer
pub mod Log
pub mod Directory
pub mod Append
pub mod Faults
pub mod Contiguous
pub mod Until
pub mod Retain
pub mod Renew
pub mod Worker
pub mod Served
pub mod Fresh
pub mod Rebuilt
use vaylix.Prelude.{
  ℕ, zero, suc, ◌+◌, ◌*◌, ◌/◌, ◌%◌, ◌^◌, ◌<◌, ◌≡◌, Bool, true, false, ◌||◌, not, Option, none, some,
  List, [], ◌∷◌, ◌++◌, Result, ok, err, ◌>>=◌, length, take, drop, ltb, ◌==◌, if◌then◌else◌,
}
use vaylix.Engine.Error.{
  EngineError, WalFault, io, wal_serialize, wal_deserialize, checksum_mismatch, truncated_length,
  truncated_checksum, truncated_payload, undecodable, invalid_length,
}
use vaylix.Engine.State.{WalEntry}

-- Libraries: rmp_serde on entries and crc32fast. What was encoded is decoded to the same entry.
pub record Codec : Type 0 where
  pub encode : WalEntry → Option (List ℕ)
  pub decode : List ℕ → Option WalEntry
  pub hash : List ℕ → ℕ
  pub decode-encode :
      (e : WalEntry) {bytes : List ℕ} → encode e ≡ some bytes → decode bytes ≡ some e
  pub hash-lt : (bytes : List ℕ) → hash bytes < 2 ^ 32

-- The encryption of crates/engine/src/store/crypto.rs under a keyring: what was encrypted with the
-- active key is decrypted.
pub record Keyring : Type 0 where
  pub encrypt : List ℕ → Result EngineError (List ℕ)
  pub decrypt : List ℕ → Result EngineError (List ℕ)
  pub decrypt-encrypt :
      (plain : List ℕ) {sealed : List ℕ} → encrypt plain ≡ ok sealed → decrypt sealed ≡ ok plain

abbrev pub max_wal_entry_size : ℕ
max_wal_entry_size = 4 * 1_024 * 1_024

-- `u32::to_le_bytes`
unfoldable pub to_le_bytes : ℕ → List ℕ
to_le_bytes n = (n % 256) ∷ (n / 2 ^ 8 % 256) ∷ (n / 2 ^ 16 % 256) ∷ (n / 2 ^ 24 % 256) ∷ []

-- `u32::from_le_bytes`
unfoldable pub from_le_bytes : List ℕ → ℕ
from_le_bytes [] = 0
from_le_bytes (x ∷ xs) = x + 256 * from_le_bytes xs

abbrev pub sealed_with : Option Keyring → List ℕ → Result EngineError (List ℕ)
sealed_with none plain = ok plain
sealed_with (some keyring) plain = keyring.encrypt plain

abbrev pub opened_with : Option Keyring → List ℕ → Result EngineError (List ℕ)
opened_with none bytes = ok bytes
opened_with (some keyring) bytes = keyring.decrypt bytes

abbrev pub or_serialize : Option (List ℕ) → Result EngineError (List ℕ)
or_serialize none = err wal_serialize
or_serialize (some bytes) = ok bytes

abbrev pub or_undecodable : Option WalEntry → Result EngineError WalEntry
or_undecodable none = err (wal_deserialize undecodable)
or_undecodable (some e) = ok e

unfoldable pub read_exact : ℕ → WalFault → List ℕ → Result EngineError (List ℕ × List ℕ)
read_exact n fault bytes =
    if ltb (length bytes) n then err (wal_deserialize fault) else ok (take n bytes, drop n bytes)

-- The length of an entry: its first byte is there.
unfoldable pub read_length : List ℕ → Result EngineError (ℕ × List ℕ)
unfolding read_exact
read_length bytes = read_exact 4 truncated_length bytes >>= λ (head, rest).
    let n = from_le_bytes head in
    if n == 0 || ltb max_wal_entry_size n
    then err (wal_deserialize (invalid_length n))
    else ok (n, rest)

abbrev pub with_entry :
    WalEntry → Result EngineError (List WalEntry) → Result EngineError (List WalEntry)
with_entry entry (err e) = err e
with_entry entry (ok entries) = ok (entry ∷ entries)

module _ (c : Codec) (keyring : Option Keyring) where
  -- The length and the checksum of the durable bytes, and these bytes.
  unfoldable pub framed : List ℕ → Result EngineError (List ℕ)
  framed durable =
      if ltb (length durable) (2 ^ 32)
      then ok (to_le_bytes (length durable) ++ (to_le_bytes (c.hash durable) ++ durable))
      else err io

  -- The bytes that `append_encoded_entry` writes.
  unfoldable pub encode_entry : WalEntry → Result EngineError (List ℕ)
  encode_entry entry = do
    bytes ← or_serialize (c.encode entry)
    durable ← sealed_with keyring bytes
    framed durable

  unfoldable pub open_payload : ℕ → List ℕ → Result EngineError WalEntry
  open_payload sum payload =
      if not (c.hash payload == sum)
      then err checksum_mismatch
      else do plain ← opened_with keyring payload; or_undecodable (c.decode plain)

  -- One round of `read_entries_from_reader`: the entry, and how long its payload was.
  unfoldable pub read_entry : List ℕ → Result EngineError (WalEntry × ℕ)
  unfolding read_length read_exact
  read_entry bytes = do
    (n, rest) ← read_length bytes
    (sum, rest) ← read_exact 4 truncated_checksum rest
    (payload, rest) ← read_exact n truncated_payload rest
    entry ← open_payload (from_le_bytes sum) payload
    ok (entry, n)

  -- The loop: `left` bytes of the entry that was read last are in front.
  unfoldable pub read_entries_from : ℕ → List ℕ → Result EngineError (List WalEntry)
  read_entries_from left [] = ok []
  read_entries_from (suc left) (b ∷ bytes) = read_entries_from left bytes
  read_entries_from zero (b ∷ bytes) = elim (read_entry (b ∷ bytes)) [
    | err e ↦ err e
    | ok (entry, n) ↦ with_entry entry (read_entries_from (7 + n) bytes)
  ]

  unfoldable pub read_entries : List ℕ → Result EngineError (List WalEntry)
  read_entries bytes = read_entries_from 0 bytes
