-- ===== src/Transport/Response.antt =====
-- crates/transport/src/response/mod.rs: the payloads of responses, and their body in codec/mod.rs.
pub mod RoundTrip
use vaylix.Prelude.{
  ℕ, ◌-◌, ◌*◌, ◌^◌, ◌+◌, String, Bool, true, false, Option, none, some, List, [], ◌∷◌, ◌++◌, Result,
  ◌>>=◌, length, take, drop, ltb, ◌==◌, if◌then◌else◌,
}
use vaylix.Text.{as_bytes, from_utf8}
use vaylix.Engine.Integer.{ℤ}
use vaylix.Transport.Error.{
  TransportError, Decoded, fail, or_fail, unknown_status, corrupted_payload, unexpected_eof,
}
use vaylix.Transport.Buf.{
  u8, u16, u32, u64, Buf, Reader, pure, ◌>>=◌ as then_read, failed, need, get_uint, read_uint,
}
use vaylix.Transport.Primitives.{
  or_invalid, byte_of, put_string_u16, put_bytes_u32, put_string_u32, read_string_u16,
  read_string_u32, read_bytes_u32, read_bool,
}
use vaylix.Transport.Codec.{
  CodecOptions, Library, default_options, encode_frame, decode_frame, byte_at,
}
use vaylix.Transport.Request.{
  Encoded, ◌&◌, put_keys, put_pairs, counted, whole, read_many, key_bytes_reader,
}

pub data Status : Type 0 where
  ok error not_found : Status

unfoldable pub status_byte : Status → ℕ
status_byte Status.ok = 0
status_byte Status.error = 1
status_byte Status.not_found = 2

unfoldable pub status_from : ℕ → Result TransportError Status
status_from n =
    if n == 0
    then Result.ok Status.ok
    else if n == 1
    then Result.ok Status.error
    else if n == 2
    then Result.ok Status.not_found
    else Result.err (unknown_status n)

pub record ErrorPayload : Type 0 where
  pub code : String
  pub name : String
  pub message : String

pub record ScanPayload : Type 0 where
  pub next_cursor : ℕ
  pub keys : List String

pub data ExecResultPayload : Type 0 where
  ok not_found : ExecResultPayload
  value : List ℕ → ExecResultPayload
  boolean : Bool → ExecResultPayload
  count : ℕ → ExecResultPayload
  integer : ℤ → ExecResultPayload
  entries : List (String × List ℕ) → ExecResultPayload
  strings : List (Option (List ℕ)) → ExecResultPayload
  scan : ScanPayload → ExecResultPayload

pub record Response : Type 0 where
  pub request_id : List ℕ
  pub status : Status
  pub payload : List ℕ

-- The 64 bits of an `i64`, as a number, and back.
unfoldable pub i64_bits : ℤ → ℕ
i64_bits (ℤ.pos n) = n
i64_bits (ℤ.negsuc n) = 2 ^ 64 - 1 - n

unfoldable pub i64_of_bits : ℕ → ℤ
i64_of_bits n = if ltb n (2 ^ 63) then ℤ.pos n else ℤ.negsuc (2 ^ 64 - 1 - n)

module _ (b : Buf) where
  unfoldable pub put_value : Option (List ℕ) → Encoded
  put_value none = Result.ok (b.put u8 0)
  put_value (some v) = Result.ok (b.put u8 1) & put_bytes_u32 b v

  unfoldable pub put_values : List (Option (List ℕ)) → Encoded
  put_values [] = Result.ok []
  put_values (v ∷ values) = put_value v & put_values values

  unfoldable pub encode_entries : List (String × List ℕ) → Encoded
  encode_entries es = counted b u32 (length es) (put_pairs b es)

  unfoldable pub encode_values : List (Option (List ℕ)) → Encoded
  encode_values values = counted b u32 (length values) (put_values values)

  unfoldable pub encode_scan_page : ScanPayload → Encoded
  encode_scan_page page =
      Result.ok (b.put u64 page.next_cursor)
      & counted b u32 (length page.keys) (put_keys b page.keys)

  unfoldable pub encode_exec_result : ExecResultPayload → Encoded
  encode_exec_result ExecResultPayload.ok = Result.ok (b.put u8 0)
  encode_exec_result ExecResultPayload.not_found = Result.ok (b.put u8 1)
  encode_exec_result (ExecResultPayload.value v) = Result.ok (b.put u8 2) & put_bytes_u32 b v
  encode_exec_result (ExecResultPayload.boolean x) =
      Result.ok (b.put u8 3) & Result.ok (b.put u8 (byte_of x))
  encode_exec_result (ExecResultPayload.count n) = Result.ok (b.put u8 4) & Result.ok (b.put u64 n)
  encode_exec_result (ExecResultPayload.integer z) =
      Result.ok (b.put u8 5) & Result.ok (b.put u64 (i64_bits z))
  encode_exec_result (ExecResultPayload.entries es) = Result.ok (b.put u8 6) & encode_entries es
  encode_exec_result (ExecResultPayload.strings vs) = Result.ok (b.put u8 7) & encode_values vs
  encode_exec_result (ExecResultPayload.scan page) = Result.ok (b.put u8 8) & encode_scan_page page

  unfoldable pub put_results : List ExecResultPayload → Encoded
  put_results [] = Result.ok []
  put_results (r ∷ results) = encode_exec_result r & put_results results

  unfoldable pub encode_exec_results : List ExecResultPayload → Encoded
  encode_exec_results results = counted b u32 (length results) (put_results results)

  unfoldable pub encode_error_payload : ErrorPayload → Encoded
  encode_error_payload e =
      put_string_u16 b e.code & put_string_u16 b e.name & put_string_u32 b e.message

  abbrev pub value_of : ℕ → Reader (Option (List ℕ))
  value_of n =
      if n == 0
      then pure none
      else if n == 1
      then then_read (read_bytes_u32 b) (λ v. pure (some v))
      else failed corrupted_payload

  unfoldable pub value_reader : Reader (Option (List ℕ))
  value_reader = then_read (read_uint b u8) λ n. value_of n

  unfoldable pub entries_reader : Reader (List (String × List ℕ))
  entries_reader = then_read (read_uint b u32) λ n. read_many (key_bytes_reader b) n

  unfoldable pub values_reader : Reader (List (Option (List ℕ)))
  values_reader = then_read (read_uint b u32) λ n. read_many value_reader n

  unfoldable pub scan_page_reader : Reader ScanPayload
  scan_page_reader = then_read (need 12) λ _. then_read (get_uint b u64) λ c.
      then_read (then_read (get_uint b u32) λ n. read_many (read_string_u16 b) n)
        λ ks. pure (record { next_cursor = c; keys = ks })

  -- What follows the tag of a result.
  unfoldable pub result_of : ℕ → Reader ExecResultPayload
  result_of n =
      if n == 0
      then pure ExecResultPayload.ok
      else if n == 1
      then pure ExecResultPayload.not_found
      else if n == 2
      then then_read (read_bytes_u32 b) (λ v. pure (ExecResultPayload.value v))
      else if n == 3
      then then_read (read_bool b) (λ x. pure (ExecResultPayload.boolean x))
      else if n == 4
      then then_read (read_uint b u64) (λ c. pure (ExecResultPayload.count c))
      else if n == 5
      then then_read (read_uint b u64) (λ c. pure (ExecResultPayload.integer (i64_of_bits c)))
      else if n == 6
      then then_read entries_reader (λ es. pure (ExecResultPayload.entries es))
      else if n == 7
      then then_read values_reader (λ vs. pure (ExecResultPayload.strings vs))
      else if n == 8
      then then_read scan_page_reader (λ page. pure (ExecResultPayload.scan page))
      else failed corrupted_payload

  unfoldable pub result_reader : Reader ExecResultPayload
  result_reader = then_read (read_uint b u8) λ n. result_of n

  unfoldable pub results_reader : Reader (List ExecResultPayload)
  results_reader = then_read (read_uint b u32) λ n. read_many result_reader n

  unfoldable pub error_reader : Reader ErrorPayload
  error_reader = then_read (read_string_u16 b) λ c.
      then_read (read_string_u16 b)
        λ n. then_read (read_string_u32 b) λ m. pure (record { code = c; name = n; message = m })

abbrev pub answer : List ℕ → Status → Encoded → Result TransportError Response
answer id status (Result.ok p) =
    Result.ok (record { request_id = id; status = status; payload = p })
answer id status (Result.err e) = Result.err e

module _ (b : Buf) (id : List ℕ) where
  -- The builders of `Response`, by the names that it has for them.
  unfoldable pub error_response : ErrorPayload → Result TransportError Response
  error_response e = answer id Status.error (encode_error_payload b e)

  unfoldable pub value_bytes : List ℕ → Result TransportError Response
  value_bytes bytes = answer id Status.ok (put_bytes_u32 b bytes)

  unfoldable pub byte_entries : List (String × List ℕ) → Result TransportError Response
  byte_entries es = answer id Status.ok (encode_entries b es)

  unfoldable pub byte_strings : List (Option (List ℕ)) → Result TransportError Response
  byte_strings values = answer id Status.ok (encode_values b values)

  unfoldable pub scan_response : ScanPayload → Result TransportError Response
  scan_response page = answer id Status.ok (encode_scan_page b page)

  unfoldable pub exec_results : List ExecResultPayload → Result TransportError Response
  exec_results results = answer id Status.ok (encode_exec_results b results)

module _ (b : Buf) (r : Response) where
  unfoldable pub decode_error : Decoded ErrorPayload
  decode_error = whole (error_reader b) r.payload

  unfoldable pub decode_value_bytes : Decoded (List ℕ)
  decode_value_bytes = whole (read_bytes_u32 b) r.payload

  unfoldable pub decode_value : Decoded String
  decode_value = decode_value_bytes >>= λ bytes. or_invalid (from_utf8 bytes)

  unfoldable pub decode_byte_entries : Decoded (List (String × List ℕ))
  decode_byte_entries = whole (entries_reader b) r.payload

  unfoldable pub decode_byte_strings : Decoded (List (Option (List ℕ)))
  decode_byte_strings = whole (values_reader b) r.payload

  unfoldable pub decode_scan_page : Decoded ScanPayload
  decode_scan_page = whole (scan_page_reader b) r.payload

  unfoldable pub decode_exec_results : Decoded (List ExecResultPayload)
  decode_exec_results = whole (results_reader b) r.payload

module _ (b : Buf) where
  unfoldable pub encode_response_body : Response → List ℕ
  encode_response_body r = r.request_id ++ (b.put u8 (status_byte r.status) ++ r.payload)

unfoldable pub decode_response_body : List ℕ → Decoded Response
decode_response_body body =
    if ltb (length body) 17
    then fail unexpected_eof
    else (or_fail (status_from (byte_at 16 body)) >>= λ status.
        Result.ok (record { request_id = take 16 body; status = status; payload = drop 17 body }))

module _ (b : Buf) (lib : Library) where
  unfoldable pub encode_response : Response → CodecOptions → Result TransportError (List ℕ)
  encode_response r options = encode_frame b lib (encode_response_body b r) options

  unfoldable pub decode_response : List ℕ → Decoded Response
  decode_response bytes = decode_frame b lib bytes default_options >>= decode_response_body
