-- ===== src/Transport/Request/Encode.antt =====
-- The payloads of requests: the `encode_` functions of crates/transport/src/request/mod.rs.
use vaylix.Prelude.{
  ℕ, String, Bool, Option, none, some, List, [], ◌∷◌, ◌++◌, Result, ok, err, ◌>>=◌, length, ltb,
  if◌then◌else◌,
}
use vaylix.Engine.Command.{SetCondition, Expiration, SetOptions}
use vaylix.Transport.Error.{TransportError, corrupted_payload}
use vaylix.Transport.Buf.{Width, u8, u16, u64, range, Buf}
use vaylix.Transport.Primitives.{byte_of, put_string_u16, put_bytes_u32, put_string_u32}

abbrev pub Encoded : Type 0
Encoded = Result TransportError (List ℕ)

-- One part of a payload, and then the next.
infixr 20 ◌&◌
abbrev pub ◌&◌ : Encoded → Encoded → Encoded
e & f = e >>= λ x. f >>= λ y. ok (x ++ y)

unfoldable pub encode_condition : Option SetCondition → ℕ
encode_condition none = 0
encode_condition (some SetCondition.nx) = 1
encode_condition (some SetCondition.xx) = 2

module _ (b : Buf) where
  unfoldable pub encode_expiration : Option Expiration → List ℕ
  encode_expiration none = b.put u8 0
  encode_expiration (some (Expiration.ex n)) = b.put u8 1 ++ b.put u64 n
  encode_expiration (some (Expiration.px n)) = b.put u8 2 ++ b.put u64 n

  unfoldable pub encode_key : String → Encoded
  encode_key key = put_string_u16 b key

  unfoldable pub encode_dump : String → Encoded
  encode_dump dump = put_string_u32 b dump

  -- The flag of an optional number of that width, and the number.
  unfoldable pub encode_optional : Width → Option ℕ → List ℕ
  encode_optional w none = b.put u8 0
  encode_optional w (some n) = b.put u8 1 ++ b.put w n

  unfoldable pub encode_set : String → List ℕ → SetOptions → Encoded
  encode_set key value options =
      put_string_u16 b key
      & put_bytes_u32 b value
      & ok (b.put u8 (encode_condition options.condition))
      & ok (encode_expiration options.expiration)
      & ok (b.put u8 (byte_of options.keep_ttl))
      & ok (b.put u8 (byte_of options.return_previous))
      & ok (encode_optional u64 options.if_version)

  unfoldable pub encode_get_ex : String → Option Expiration → Bool → Encoded
  encode_get_ex key expiration persist =
      put_string_u16 b key & ok (encode_expiration expiration) & ok (b.put u8 (byte_of persist))

  unfoldable pub encode_key_value : String → String → Encoded
  encode_key_value key value = put_string_u16 b key & put_string_u32 b value

  unfoldable pub encode_key_bytes : String → List ℕ → Encoded
  encode_key_bytes key value = put_string_u16 b key & put_bytes_u32 b value

  unfoldable pub encode_three_strings : String → String → String → Encoded
  encode_three_strings first second third =
      put_string_u16 b first & put_string_u16 b second & put_string_u16 b third

  unfoldable pub encode_key_u64 : String → ℕ → Encoded
  encode_key_u64 key value = put_string_u16 b key & ok (b.put u64 value)

  unfoldable pub put_keys : List String → Encoded
  put_keys [] = ok []
  put_keys (key ∷ keys) = put_string_u16 b key & put_keys keys

  unfoldable pub put_pairs : List (String × List ℕ) → Encoded
  put_pairs [] = ok []
  put_pairs ((key, value) ∷ entries) = encode_key_bytes key value & put_pairs entries

  -- A sequence behind the number of its elements, if that fits the width.
  unfoldable pub counted : Width → ℕ → Encoded → Encoded
  counted w n encoded = if ltb n (range w) then ok (b.put w n) & encoded else err corrupted_payload

  unfoldable pub encode_keys : List String → Encoded
  encode_keys keys = counted u16 (length keys) (put_keys keys)

  unfoldable pub encode_byte_pairs : List (String × List ℕ) → Encoded
  encode_byte_pairs entries = counted u16 (length entries) (put_pairs entries)

  unfoldable pub encode_optional_string : Option String → Encoded
  encode_optional_string none = ok (b.put u8 0)
  encode_optional_string (some value) = ok (b.put u8 1) & put_string_u32 b value

  -- An optional text behind its flag.
  unfoldable pub encode_pattern : Option String → Encoded
  encode_pattern none = ok (b.put u8 0)
  encode_pattern (some pattern) = ok (b.put u8 1) & put_string_u16 b pattern

  unfoldable pub encode_scan : ℕ → Option String → Option ℕ → Encoded
  encode_scan cursor pattern count =
      ok (b.put u64 cursor) & encode_pattern pattern & ok (encode_optional u16 count)
