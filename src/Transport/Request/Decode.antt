-- ===== src/Transport/Request/Decode.antt =====
-- The payloads of requests: the `decode_` functions of crates/transport/src/request/mod.rs.
use vaylix.Prelude.{
  ℕ, zero, suc, String, Bool, Option, none, some, List, [], ◌∷◌, ok, err, ◌==◌, if◌then◌else◌,
}
use vaylix.Engine.Command.{SetCondition, Expiration, SetOptions}
use vaylix.Transport.Error.{corrupted_payload, Decoded}
use vaylix.Transport.Buf.{
  Width, u8, u16, u64, Buf, Reader, pure, ◌>>=◌, ◌>>◌, failed, need, get_uint, read_uint,
}
use vaylix.Transport.Primitives.{
  ensure_empty, read_string_u16, read_string_u32, read_bytes_u32, read_bool,
}

abbrev pub finished {ℓ} : {A : Type ℓ} → A → Decoded (Unit {0}) → Decoded A
finished a (ok _) = ok a
finished a (err e) = err e

-- A reader, and `ensure_empty` on what it leaves.
unfoldable pub whole {ℓ} : {A : Type ℓ} → Reader A → List ℕ → Decoded A
whole m payload = elim (m payload) [ ok (a, rest) ↦ finished a (ensure_empty rest) | err e ↦ err e ]

abbrev pub condition_of : ℕ → Reader (Option SetCondition)
condition_of n =
    if n == 0
    then pure none
    else if n == 1
    then pure (some SetCondition.nx)
    else if n == 2
    then pure (some SetCondition.xx)
    else failed corrupted_payload

module _ (b : Buf) where
  unfoldable pub decode_condition : Reader (Option SetCondition)
  decode_condition = read_uint b u8 >>= condition_of

  abbrev pub expiration_of : ℕ → Reader (Option Expiration)
  expiration_of n =
      if n == 0
      then pure none
      else if n == 1
      then (read_uint b u64 >>= λ t. pure (some (Expiration.ex t)))
      else if n == 2
      then (read_uint b u64 >>= λ t. pure (some (Expiration.px t)))
      else failed corrupted_payload

  unfoldable pub decode_expiration : Reader (Option Expiration)
  decode_expiration = read_uint b u8 >>= λ n. expiration_of n

  -- What follows the flag of an optional number.
  abbrev pub optional_of : Width → ℕ → Reader (Option ℕ)
  optional_of w n =
      if n == 0
      then pure none
      else if n == 1
      then (read_uint b w >>= λ v. pure (some v))
      else failed corrupted_payload

  -- The flag is read with no check for a byte that is left.
  unfoldable pub unchecked_optional : Width → Reader (Option ℕ)
  unchecked_optional w = get_uint b u8 >>= λ n. optional_of w n

  -- A payload that ends before the version has none.
  unfoldable pub decode_version : Reader (Option ℕ)
  decode_version [] = ok (none, [])
  decode_version (x ∷ s) = unchecked_optional u64 (x ∷ s)

  unfoldable pub set_reader : Reader (String × List ℕ × SetOptions)
  set_reader = do
    key ← read_string_u16 b
    value ← read_bytes_u32 b
    c ← decode_condition
    e ← decode_expiration
    k ← read_bool b
    r ← read_bool b
    v ← decode_version
    pure (
      key,
      value,
      record { condition = c; if_version = v; expiration = e; keep_ttl = k; return_previous = r },
    )

  unfoldable pub decode_set : List ℕ → Decoded (String × List ℕ × SetOptions)
  decode_set = whole set_reader

  unfoldable pub get_ex_reader : Reader (String × Option Expiration × Bool)
  get_ex_reader = do
    key ← read_string_u16 b
    e ← decode_expiration
    p ← read_bool b
    pure (key, e, p)

  unfoldable pub decode_get_ex : List ℕ → Decoded (String × Option Expiration × Bool)
  decode_get_ex = whole get_ex_reader

  unfoldable pub decode_single_key : List ℕ → Decoded String
  decode_single_key = whole (read_string_u16 b)

  unfoldable pub decode_dump : List ℕ → Decoded String
  decode_dump = whole (read_string_u32 b)

  unfoldable pub key_value_reader : Reader (String × String)
  key_value_reader = do key ← read_string_u16 b; value ← read_string_u32 b; pure (key, value)

  unfoldable pub decode_key_value : List ℕ → Decoded (String × String)
  decode_key_value = whole key_value_reader

  -- One entry of MSET, and the payload of SETNX.
  unfoldable pub key_bytes_reader : Reader (String × List ℕ)
  key_bytes_reader = do key ← read_string_u16 b; value ← read_bytes_u32 b; pure (key, value)

  unfoldable pub decode_key_bytes : List ℕ → Decoded (String × List ℕ)
  decode_key_bytes = whole key_bytes_reader

  unfoldable pub three_strings_reader : Reader (String × String × String)
  three_strings_reader = do
    first ← read_string_u16 b
    second ← read_string_u16 b
    third ← read_string_u16 b
    pure (first, second, third)

  unfoldable pub decode_three_strings : List ℕ → Decoded (String × String × String)
  decode_three_strings = whole three_strings_reader

  unfoldable pub key_u64_reader : Reader (String × ℕ)
  key_u64_reader = do key ← read_string_u16 b; value ← read_uint b u64; pure (key, value)

  unfoldable pub decode_key_u64 : List ℕ → Decoded (String × ℕ)
  decode_key_u64 = whole key_u64_reader

  unfoldable pub optional_string_of : ℕ → Reader (Option String)
  optional_string_of n =
      if n == 0
      then pure none
      else if n == 1
      then (read_string_u32 b >>= λ s. pure (some s))
      else failed corrupted_payload

  unfoldable pub decode_optional_string : List ℕ → Decoded (Option String)
  decode_optional_string = whole (read_uint b u8 >>= λ n. optional_string_of n)

  abbrev pub pattern_of : ℕ → Reader (Option String)
  pattern_of n =
      if n == 0
      then pure none
      else if n == 1
      then (read_string_u16 b >>= λ s. pure (some s))
      else failed corrupted_payload

  unfoldable pub read_pattern : Reader (Option String)
  read_pattern = get_uint b u8 >>= λ n. pattern_of n

  unfoldable pub scan_reader : Reader (ℕ × Option String × Option ℕ)
  scan_reader = do
    need 10
    cursor ← get_uint b u64
    pattern ← read_pattern
    count ← unchecked_optional u16
    pure (cursor, pattern, count)

  unfoldable pub decode_scan : List ℕ → Decoded (ℕ × Option String × Option ℕ)
  decode_scan = whole scan_reader

-- As many elements as were counted.
module _ {ℓ} {A : Type ℓ} (element : Reader A) where
  unfoldable pub read_many : ℕ → Reader (List A)
  read_many zero = pure []
  read_many (suc n) = do a ← element; rest ← read_many n; pure (a ∷ rest)

module _ (b : Buf) where
  unfoldable pub decode_keys : List ℕ → Decoded (List String)
  decode_keys = whole (read_uint b u16 >>= λ n. read_many (read_string_u16 b) n)

  unfoldable pub decode_pairs : List ℕ → Decoded (List (String × List ℕ))
  decode_pairs = whole (read_uint b u16 >>= λ n. read_many (key_bytes_reader b) n)

unfoldable pub decode_empty : List ℕ → Decoded (Unit {0})
decode_empty payload = ensure_empty payload
