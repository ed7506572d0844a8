-- ===== src/Engine/Wal/Frames.antt =====
-- Reading back what `append_encoded_entry` of crates/engine/src/store/wal.rs wrote, whole or cut off.
use vaylix.Prelude.{
  ℕ, ◌+◌, ◌^◌, ◌≤◌, ◌<◌, ◌≡◌, refl, ◌∙◌, Option, none, some, List, ◌++◌, append_assoc, Result, ok,
  err, ◌>>=◌, >>=-eq-ok, length, length-append, arith,
}
use vaylix.Transport.Primitives.RoundTrip.{take-append, drop-append}
use vaylix.Engine.Error.{
  EngineError, WalFault, wal_deserialize, truncated_length, truncated_checksum, truncated_payload,
  invalid_length,
}
use vaylix.Engine.State.{WalEntry}
use vaylix.Engine.Wal.{
  Codec, Keyring, max_wal_entry_size, to_le_bytes, from_le_bytes, sealed_with, opened_with,
  or_serialize, read_exact, read_length, framed, encode_entry, open_payload, read_entry,
}

from_le_bytes-to_le_bytes : (n : ℕ) → n < 2 ^ 32 → from_le_bytes (to_le_bytes n) ≡ n
unfolding from_le_bytes to_le_bytes
from_le_bytes-to_le_bytes n h = omega arith

pub length-to_le_bytes : (n : ℕ) → length (to_le_bytes n) ≡ 4
unfolding to_le_bytes
length-to_le_bytes n = refl

pub read_exact-append :
    {n : ℕ} (fault : WalFault) (xs rest : List ℕ)
    → length xs ≡ n
    → read_exact n fault (xs ++ rest) ≡ ok (xs, rest)
unfolding read_exact
read_exact-append {n} fault xs rest h =
    rw⁻¹ (h) (ground (arith, length-append xs rest, take-append xs rest, drop-append xs rest))

pub read_exact_short :
    (n : ℕ) (fault : WalFault) (bytes : List ℕ)
    → length bytes < n
    → read_exact n fault bytes ≡ err (wal_deserialize fault)
unfolding read_exact
read_exact_short n fault bytes h = ground arith

pub >>=-ok_lem :
    {A B : Type 0} {m : Result EngineError A} {a : A} (f : A → Result EngineError B)
    → m ≡ ok a
    → (m >>= f) ≡ f a
>>=-ok_lem f h = rw (h) refl

pub read_length-append :
    (n : ℕ) (rest : List ℕ)
    → n < 2 ^ 32
    → 1 ≤ n
    → n ≤ max_wal_entry_size
    → read_length (to_le_bytes n ++ rest) ≡ ok (n, rest)
unfolding read_length
read_length-append n rest small some_ few =
    >>=-ok_lem _ (read_exact-append truncated_length (to_le_bytes n) rest (length-to_le_bytes n))
    ∙ rw (from_le_bytes-to_le_bytes n small) (ground (arith, some_, few))

-- A length above the limit is refused.
pub read_length-long :
    (n : ℕ) (rest : List ℕ)
    → n < 2 ^ 32
    → max_wal_entry_size < n
    → read_length (to_le_bytes n ++ rest) ≡ err (wal_deserialize (invalid_length n))
unfolding read_length
read_length-long n rest small long =
    >>=-ok_lem _ (read_exact-append truncated_length (to_le_bytes n) rest (length-to_le_bytes n))
    ∙ rw (from_le_bytes-to_le_bytes n small) (ground (arith, long))

-- The lengths that the reader takes.
abbrev pub IsReadable : List ℕ → Type 0
IsReadable frame = (9 ≤ length frame) × (length frame ≤ 8 + max_wal_entry_size)

module _ (c : Codec) (keyring : Option Keyring) where
  abbrev pub frame_of : List ℕ → List ℕ
  frame_of durable = to_le_bytes (length durable) ++ (to_le_bytes (c.hash durable) ++ durable)

  -- What the bytes of an entry are made of.
  pub record IsFrame (e : WalEntry) (frame : List ℕ) : Type 0 where
    pub durable : List ℕ
    pub bytes : frame ≡ frame_of durable
    pub small : length durable < 2 ^ 32
    pub opens : open_payload c keyring (c.hash durable) durable ≡ ok e

  opened-sealed :
      (k : Option Keyring) (plain : List ℕ) {durable : List ℕ}
      → sealed_with k plain ≡ ok durable
      → opened_with k durable ≡ ok plain
  opened-sealed none plain {durable} h = let same : durable ≡ plain = cc in rw (same) refl
  opened-sealed (some k) plain h = k.decrypt-encrypt plain h

  encoded : (o : Option (List ℕ)) {bytes : List ℕ} → or_serialize o ≡ ok bytes → o ≡ some bytes
  encoded none h = cc
  encoded (some b) h = cc

  open_payload-sealed :
      (e : WalEntry) {bytes durable : List ℕ}
      → c.encode e ≡ some bytes
      → sealed_with keyring bytes ≡ ok durable
      → open_payload c keyring (c.hash durable) durable ≡ ok e
  unfolding open_payload
  open_payload-sealed e {bytes} {durable} h s =
      rw (opened-sealed keyring bytes s, c.decode-encode e h) (ground arith)

  pub encode_entry-IsFrame :
      (e : WalEntry) {frame : List ℕ} → encode_entry c keyring e ≡ ok frame → IsFrame e frame
  unfolding encode_entry framed
  encode_entry-IsFrame e {frame} h =
      let (bytes, h1, k1) = >>=-eq-ok (or_serialize (c.encode e)) _ h in
      let (durable, h2, k2) = >>=-eq-ok (sealed_with keyring bytes) (framed c keyring) k1 in
      record {
        durable = durable;
        bytes = ground (arith, k2);
        small = ground (arith, k2);
        opens = open_payload-sealed e (encoded (c.encode e) h1) h2;
      }

  pub length-IsFrame :
      {e : WalEntry} {frame : List ℕ} (v : IsFrame e frame) → length frame ≡ 8 + length v.durable
  unfolding to_le_bytes
  length-IsFrame v = rw (v.bytes) (omega arith)

  pub read_entry-IsFrame :
      {e : WalEntry} {frame : List ℕ} (v : IsFrame e frame) (rest : List ℕ)
      → IsReadable frame
      → read_entry c keyring (frame ++ rest) ≡ ok (e, length v.durable)
  unfolding read_entry
  read_entry-IsFrame {e} {frame} v rest r =
      let n = length v.durable in
      let sum = to_le_bytes (c.hash v.durable) in
      let shape : frame ++ rest ≡ to_le_bytes n ++ (sum ++ (v.durable ++ rest)) =
        rw (v.bytes, append_assoc) (rw (append_assoc) refl) in
      rw (shape) (
        >>=-ok_lem _ (
          read_length-append n _ v.small (omega (arith, r.0, length-IsFrame v))
            (omega (arith, r.1, length-IsFrame v)))
        ∙ >>=-ok_lem _ (read_exact-append truncated_checksum sum _ (length-to_le_bytes _))
        ∙ >>=-ok_lem _ (read_exact-append truncated_payload v.durable rest refl)
        ∙ rw (from_le_bytes-to_le_bytes (c.hash v.durable) (c.hash-lt v.durable), v.opens) refl)
