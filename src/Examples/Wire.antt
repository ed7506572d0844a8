-- ===== src/Examples/Wire.antt =====
-- Instances of the theorems on the transport: big-endian integers, and a compression that stores.
use vaylix.Prelude.{
  ℕ, zero, suc, ◌+◌, ◌/◌, ◌%◌, ◌^◌, ◌≤◌, ◌<◌, ◌≡◌, refl, ◌∙◌, true, false, Option, none, some, List,
  [], ◌∷◌, ◌++◌, ok, err, length, length-append, take, drop, ltb, if◌then◌else◌, arith,
}
use vaylix.Transport.Buf.{Width, u8, u16, u32, u64, size, range, Buf, from_be_bytes}
use vaylix.Transport.Primitives.RoundTrip.{take-append, drop-append}
use vaylix.Transport.Error.{panic}
use vaylix.Transport.Opcode.{Opcode}
use vaylix.Transport.Request.{Request, new_request, from_command, into_command, encode_pattern}
use vaylix.Transport.Request.RoundTrip.{into_command-from_command}
use vaylix.Transport.Request.Panics.{into_command_panics}
use vaylix.Engine.Command.{Command, Expiration}
use vaylix.Engine.Integer.{ℤ, in_i64}
use vaylix.Transport.Request.{RequestMetadata, with_metadata}
use vaylix.Transport.Codec.{CompressionMode, CodecOptions, Library, default_options}
use vaylix.Transport.Codec.Frames.{IsWithin}
use vaylix.Transport.Codec.Bodies.{IsRequest}
use vaylix.Transport.Response.{
  ExecResultPayload, Status, Response, exec_results, decode_exec_results,
}
use vaylix.Transport.Response.RoundTrip.{decode_exec_results-exec_results}

-- The bytes of a number, highest first.
unfoldable pub to_be_bytes : Width → ℕ → List ℕ
to_be_bytes u8 n = (n % 256) ∷ []
to_be_bytes u16 n = (n / 2 ^ 8 % 256) ∷ (n % 256) ∷ []
to_be_bytes u32 n = (n / 2 ^ 24 % 256) ∷ (n / 2 ^ 16 % 256) ∷ (n / 2 ^ 8 % 256) ∷ (n % 256) ∷ []
to_be_bytes u64 n =
    (n / 2 ^ 56 % 256)
    ∷ (n / 2 ^ 48 % 256)
    ∷ (n / 2 ^ 40 % 256)
    ∷ (n / 2 ^ 32 % 256)
    ∷ (n / 2 ^ 24 % 256)
    ∷ (n / 2 ^ 16 % 256)
    ∷ (n / 2 ^ 8 % 256)
    ∷ (n % 256)
    ∷ []

unfoldable pub take_be : Width → List ℕ → Option (ℕ × List ℕ)
unfolding from_be_bytes
take_be w s =
    if ltb (length s) (size w)
    then none
    else some (from_be_bytes 0 (take (size w) s), drop (size w) s)

pub length-to_be_bytes : (w : Width) (n : ℕ) → length (to_be_bytes w n) ≡ size w
unfolding to_be_bytes
length-to_be_bytes u8 n = refl
length-to_be_bytes u16 n = refl
length-to_be_bytes u32 n = refl
length-to_be_bytes u64 n = refl

pub from_be-to_be_bytes : (w : Width) (n : ℕ) → n < range w → from_be_bytes 0 (to_be_bytes w n) ≡ n
unfolding to_be_bytes from_be_bytes
from_be-to_be_bytes u8 n h = omega arith
from_be-to_be_bytes u16 n h = omega arith
from_be-to_be_bytes u32 n h = omega arith
from_be-to_be_bytes u64 n h = omega arith

pub take_be-enough :
    (w : Width) (s : List ℕ)
    → size w ≤ length s
    → take_be w s ≡ some (from_be_bytes 0 (take (size w) s), drop (size w) s)
unfolding take_be
take_be-enough w s h = ground arith

pub take_be-short : (w : Width) (s : List ℕ) → length s < size w → take_be w s ≡ none
unfolding take_be
take_be-short w s h = ground arith

pub length-drop : (n : ℕ) (s : List ℕ) → n ≤ length s → length (drop n s) + n ≡ length s
length-drop zero s h = omega arith
length-drop (suc n) [] h = absurd (omega arith)
length-drop (suc n) (x ∷ s) h = omega (arith, length-drop n s (omega arith))

pub take_be-to_be_bytes :
    (w : Width) (n : ℕ) (rest : List ℕ)
    → n < range w
    → take_be w (to_be_bytes w n ++ rest) ≡ some (n, rest)
take_be-to_be_bytes w n rest h =
    let bytes = to_be_bytes w n in
    let front : take (size w) (bytes ++ rest) ≡ bytes =
      rw (length-to_be_bytes w n) at (take-append bytes rest) in
    let back : drop (size w) (bytes ++ rest) ≡ rest =
      rw (length-to_be_bytes w n) at (drop-append bytes rest) in
    take_be-enough w (bytes ++ rest)
      (omega (arith, length-append bytes rest, length-to_be_bytes w n))
    ∙ rw (front, back) (rw (from_be-to_be_bytes w n h) refl)

abbrev pub big_endian : Buf
big_endian = record {
  put = to_be_bytes;
  get = take_be;
  get-put = take_be-to_be_bytes;
  length-put = length-to_be_bytes;
  from_be-put = from_be-to_be_bytes;
  get_enough = λ w s h. (
    from_be_bytes 0 (take (size w) s),
    drop (size w) s,
    take_be-enough w s h,
    length-drop (size w) s h,
  );
  get_short = take_be-short;
}

pub stored_lem :
    (limit : ℕ) (bytes : List ℕ) {z : List ℕ}
    → some bytes ≡ some z
    → some (take limit z) ≡ some (take limit bytes)
stored_lem limit bytes h = cc

pub stored_hash_lt : (bytes : List ℕ) → length bytes % 2 ^ 32 < 2 ^ 32
stored_hash_lt bytes = omega arith

-- Bytes that are stored as they are, and a checksum that is the number of bytes.
abbrev pub stored : Library
stored = record {
  hash = λ bytes. length bytes % 2 ^ 32;
  compress = λ bytes. some bytes;
  decompress = λ limit z. some (take limit z);
  hash-lt = stored_hash_lt;
  decompress-compress = λ limit bytes h. stored_lem limit bytes h;
}

abbrev pub id_1 : List ℕ
id_1 = 1 ∷ 2 ∷ 3 ∷ 4 ∷ 5 ∷ 6 ∷ 7 ∷ 8 ∷ 9 ∷ 10 ∷ 11 ∷ 12 ∷ 13 ∷ 14 ∷ 15 ∷ 16 ∷ []

-- SET é 7 with an expiration of 90 seconds, for version 4.
abbrev set_key : Command
set_key = Command.set "é" (b'7' ∷ []) (record {
  condition = none;
  if_version = some 4;
  expiration = some (Expiration.ex 90);
  keep_ttl = false;
  return_previous = true;
})

abbrev set_payload : List ℕ
set_payload =
    0 ∷ 2 ∷ 195 ∷ 169 ∷ 0 ∷ 0 ∷ 0 ∷ 1 ∷ b'7' ∷ 0 ∷ 1 ∷ 0 ∷ 0 ∷ 0 ∷ 0 ∷ 0 ∷ 0 ∷ 0 ∷ 90 ∷ 0 ∷ 1 ∷ 1
    ∷ 0 ∷ 0 ∷ 0 ∷ 0 ∷ 0 ∷ 0 ∷ 0 ∷ 4 ∷ []

into_command-from_command_example :
    into_command big_endian (new_request id_1 Opcode.set set_payload) ≡ ok set_key
unfolding from_command to_be_bytes vaylix.Text.as_bytes vaylix.Text.utf8_char
    vaylix.Transport.Primitives.put_bytes vaylix.Transport.Primitives.put_bytes_u32
    vaylix.Transport.Primitives.put_string_u16 vaylix.Transport.Request.encode_condition
    vaylix.Transport.Request.encode_expiration vaylix.Transport.Request.encode_optional
    vaylix.Transport.Request.encode_set vaylix.Transport.Request.payload_of
into_command-from_command_example =
    into_command-from_command big_endian id_1 set_key ((omega arith), (omega arith)) refl

into_command_panics_example :
    into_command big_endian
      (new_request id_1 Opcode.scan (to_be_bytes u64 3 ++ 1 ∷ 0 ∷ 1 ∷ b'*' ∷ []))
    ≡ err panic
unfolding encode_pattern to_be_bytes vaylix.Text.as_bytes vaylix.Text.utf8_char
    vaylix.Transport.Primitives.put_bytes vaylix.Transport.Primitives.put_string_u16
into_command_panics_example =
    into_command_panics big_endian id_1 3 "*" (1 ∷ 0 ∷ 1 ∷ b'*' ∷ []) (omega arith) refl

-- GET k, with a deadline and a sequence, with no compression.
abbrev pub get_k : Command
get_k = Command.get "k"

abbrev pub sent_metadata : RequestMetadata
sent_metadata = record { deadline_ms = some 500; trace_id = none; sequence = some 7 }

abbrev pub get_request : Request
get_request = new_request id_1 Opcode.get (0 ∷ 1 ∷ b'k' ∷ [])

abbrev pub plain_options : CodecOptions
plain_options = record {
  compression = CompressionMode.uncompressed;
  compression_threshold_bytes = 1024;
  max_frame = 1_000;
  max_decompressed_frame = 1_000;
}

abbrev get_body : List ℕ
get_body =
    5
    ∷ (id_1
        ++ (3 ∷ 0 ∷ 0 ∷ 0 ∷ 0 ∷ 0 ∷ 0 ∷ 1 ∷ 244 ∷ 0 ∷ 0 ∷ 0 ∷ 0 ∷ 0 ∷ 0 ∷ 0 ∷ 7 ∷ 0 ∷ 1 ∷ b'k'
            ∷ []))

abbrev pub get_frame : List ℕ
get_frame = b'V' ∷ b'T' ∷ b'P' ∷ b'2' ∷ 2 ∷ 0 ∷ 0 ∷ 0 ∷ 0 ∷ 37 ∷ 0 ∷ 0 ∷ 0 ∷ 37 ∷ get_body

pub plain_options-IsWithin : IsWithin plain_options default_options
plain_options-IsWithin = record {
  frame_u32 = omega arith;
  frame = omega arith;
  body = omega arith;
  body_u64 = omega arith;
}

pub get_request-IsRequest : IsRequest (with_metadata sent_metadata get_request)
get_request-IsRequest = record {
  id = refl;
  deadline = omega arith;
  trace = tt;
  sequence = omega arith;
}

-- A value, a missing key and a negative counter.
abbrev some_results : List ExecResultPayload
some_results =
    ExecResultPayload.value (b'7' ∷ [])
    ∷ ExecResultPayload.not_found
    ∷ ExecResultPayload.integer (ℤ.negsuc 1)
    ∷ []

abbrev results_payload : List ℕ
results_payload =
    0 ∷ 0 ∷ 0 ∷ 3 ∷ 2 ∷ 0 ∷ 0 ∷ 0 ∷ 1 ∷ b'7' ∷ 1 ∷ 5 ∷ 255 ∷ 255 ∷ 255 ∷ 255 ∷ 255 ∷ 255 ∷ 255 ∷ 254
    ∷ []

abbrev results_response : Response
results_response = record { request_id = id_1; status = Status.ok; payload = results_payload }

decode_exec_results-exec_results_example :
    decode_exec_results big_endian results_response ≡ ok some_results
unfolding exec_results in_i64 to_be_bytes vaylix.Transport.Primitives.put_bytes
    vaylix.Transport.Primitives.put_bytes_u32 vaylix.Transport.Request.counted
    vaylix.Transport.Response.encode_exec_result vaylix.Transport.Response.encode_exec_results
    vaylix.Transport.Response.i64_bits vaylix.Transport.Response.put_results
decode_exec_results-exec_results_example =
    decode_exec_results-exec_results big_endian id_1 some_results results_response
      (tt, (tt, (refl, tt))) refl
