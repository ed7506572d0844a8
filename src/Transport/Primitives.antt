-- ===== src/Transport/Primitives.antt =====
-- crates/transport/src/request/primitives.rs, which response/primitives.rs repeats: texts and bytes
-- behind their lengths, and Boolean bytes.
pub mod RoundTrip
use vaylix.Prelude.{
  ℕ, zero, suc, ◌+◌, ◌^◌, String, Bool, true, false, Option, none, some, List, [], ◌∷◌, ◌++◌,
  Result, ok, err, length, take, drop, ltb, ◌==◌, if◌then◌else◌,
}
use vaylix.Text.{as_bytes, from_utf8}
use vaylix.Transport.Error.{
  TransportError, corrupted_payload, unexpected_eof, invalid_utf8, Decoded, fail,
}
use vaylix.Transport.Buf.{
  Width, u8, u16, u32, range, Buf, Reader, pure, ◌>>=◌, ◌>>◌, failed, need, read_uint, get_uint,
}

abbrev pub or_invalid : Option String → Decoded String
or_invalid none = fail invalid_utf8
or_invalid (some s) = ok s

-- `copy_to_bytes(length)` after the check for as many bytes.
unfoldable pub take_bytes : ℕ → Reader (List ℕ)
take_bytes n = need n >> λ s. ok (take n s, drop n s)

abbrev pub utf8_text : List ℕ → Reader String
utf8_text bytes rest = elim (or_invalid (from_utf8 bytes)) [ ok s ↦ ok (s, rest) | err e ↦ err e ]

unfoldable pub read_string : ℕ → Reader String
read_string n = take_bytes n >>= utf8_text

unfoldable pub ensure_empty : List ℕ → Decoded (Unit {0})
ensure_empty [] = ok tt
ensure_empty (_ ∷ _) = fail corrupted_payload

abbrev pub byte_of : Bool → ℕ
byte_of true = 1
byte_of false = 0

abbrev pub bool_of : ℕ → Reader Bool
bool_of n = if n == 0 then pure false else if n == 1 then pure true else failed corrupted_payload

module _ (b : Buf) where
  -- Bytes behind their length, if it fits the width.
  unfoldable pub put_bytes : Width → List ℕ → Result TransportError (List ℕ)
  put_bytes w value =
      if ltb (length value) (range w)
      then ok (b.put w (length value) ++ value)
      else err corrupted_payload

  unfoldable pub put_string_u16 : String → Result TransportError (List ℕ)
  put_string_u16 value = put_bytes u16 (as_bytes value)

  unfoldable pub put_bytes_u32 : List ℕ → Result TransportError (List ℕ)
  put_bytes_u32 value = put_bytes u32 value

  unfoldable pub put_string_u32 : String → Result TransportError (List ℕ)
  put_string_u32 value = put_bytes_u32 (as_bytes value)

  unfoldable pub read_string_u16 : Reader String
  read_string_u16 = read_uint b u16 >>= λ n. read_string n

  unfoldable pub read_string_u32 : Reader String
  read_string_u32 = read_uint b u32 >>= λ n. read_string n

  unfoldable pub read_bytes_u32 : Reader (List ℕ)
  read_bytes_u32 = read_uint b u32 >>= λ n. take_bytes n

  unfoldable pub read_bool : Reader Bool
  read_bool = read_uint b u8 >>= λ n. bool_of n
