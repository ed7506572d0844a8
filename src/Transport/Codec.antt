-- ===== src/Transport/Codec.antt =====
-- crates/transport/src/codec/mod.rs with codec/compression.rs and options.rs: frames, and the bodies
-- of requests and responses in them.
pub mod Frames
pub mod Bodies
use vaylix.Prelude.{
  ℕ, zero, suc, ◌+◌, ◌*◌, ◌/◌, ◌%◌, ◌^◌, ◌<◌, ◌≡◌, Bool, true, false, not, ◌&&◌, Option, none, some,
  List, [], ◌∷◌, ◌++◌, Result, ok, err, ◌>>=◌, length, take, drop, ltb, leb, ◌==◌, saturating_add,
  if◌then◌else◌,
}
use vaylix.Transport.Error.{
  TransportError, Failure, Decoded, fail, or_fail, invalid_frame, unexpected_eof, corrupted_payload,
  compression_failure, frame_too_large, decompressed_frame_too_large, checksum_mismatch,
  unsupported_flags,
}
use vaylix.Transport.Buf.{u8, u64, Buf, Reader, pure, ◌>>=◌ as read_then, from_be_bytes}
use vaylix.Transport.Frame.{
  FrameHeader, new_header, encode_header, decode_header, header_len, max_frame_len, flags_none,
  flag_compressed_zstd,
}
use vaylix.Transport.Primitives.{take_bytes}
use vaylix.Transport.Opcode.{opcode_byte, opcode_from}
use vaylix.Transport.Request.{Request, RequestMetadata}

pub data CompressionMode : Type 0 where
  uncompressed zstd : CompressionMode

pub record CodecOptions : Type 0 where
  pub compression : CompressionMode
  pub compression_threshold_bytes : ℕ
  pub max_frame : ℕ
  pub max_decompressed_frame : ℕ

abbrev pub default_options : CodecOptions
default_options = record {
  compression = CompressionMode.zstd;
  compression_threshold_bytes = 1024;
  max_frame = max_frame_len;
  max_decompressed_frame = max_frame_len;
}

-- The checksum of the `crc32fast` crate, and the compression of the `zstd` crate: `decompress` gives
-- the first bytes of what was compressed, as many as are asked for.
pub record Library : Type 0 where
  pub hash : List ℕ → ℕ
  pub compress : List ℕ → Option (List ℕ)
  pub decompress : ℕ → List ℕ → Option (List ℕ)
  pub hash-lt : (bytes : List ℕ) → hash bytes < 2 ^ 32
  pub decompress-compress :
      (limit : ℕ) (bytes : List ℕ) {z : List ℕ}
      → compress bytes ≡ some z
      → decompress limit z ≡ some (take limit bytes)

abbrev is_zstd : CompressionMode → Bool
is_zstd CompressionMode.uncompressed = false
is_zstd CompressionMode.zstd = true

unfoldable pub should_compress : ℕ → CodecOptions → Bool
should_compress n options = is_zstd options.compression && leb options.compression_threshold_bytes n

abbrev pub compressed {ℓ} : {E : Type 0} {A : Type ℓ} → E → Option A → Result E A
compressed e none = err e
compressed e (some a) = ok a

abbrev pub limited : CodecOptions → List ℕ → Decoded (List ℕ)
limited options decoded =
    if ltb options.max_decompressed_frame (length decoded)
    then fail (decompressed_frame_too_large (length decoded) options.max_decompressed_frame)
    else ok decoded

module _ (lib : Library) where
  unfoldable pub maybe_compress : List ℕ → CodecOptions → Result TransportError (ℕ × List ℕ)
  maybe_compress body options =
      if should_compress (length body) options
      then (compressed compression_failure (lib.compress body) >>= λ z.
          ok (flag_compressed_zstd, z))
      else ok (flags_none, body)

  unfoldable pub maybe_decompress : FrameHeader → List ℕ → CodecOptions → Decoded (List ℕ)
  maybe_decompress header payload options =
      if header.flags == flags_none
      then ok payload
      else if header.flags == flag_compressed_zstd
      then (compressed (Failure.error compression_failure)
            (lib.decompress (saturating_add options.max_decompressed_frame 1) payload)
          >>= limited options)
      else fail (unsupported_flags header.flags)

module _ (b : Buf) (lib : Library) where
  -- The payload behind its header. Its length goes through `as u32`.
  unfoldable pub framed : CodecOptions → ℕ → List ℕ → Result TransportError (List ℕ)
  framed options flags payload =
      if ltb options.max_frame (length payload)
      then err (frame_too_large (length payload) options.max_frame)
      else (new_header (length payload % 2 ^ 32) (lib.hash payload) >>= λ header.
          ok (encode_header b (record header { flags = flags }) ++ payload))

  unfoldable pub encode_frame : List ℕ → CodecOptions → Result TransportError (List ℕ)
  encode_frame body options =
      if ltb options.max_decompressed_frame (length body)
      then err (frame_too_large (length body) options.max_decompressed_frame)
      else (maybe_compress lib body options >>= λ (flags, payload). framed options flags payload)

  abbrev pub checked : FrameHeader → List ℕ → CodecOptions → Decoded (List ℕ)
  checked header payload options =
      if lib.hash payload == header.checksum
      then maybe_decompress lib header payload options
      else fail (checksum_mismatch header.checksum (lib.hash payload))

  -- `decode_frame_borrowing`: the frame is all there is. A payload that is borrowed has no flags, for
  -- which `maybe_decompress` gives it back.
  unfoldable pub decode_frame : List ℕ → CodecOptions → Decoded (List ℕ)
  decode_frame frame options =
      if ltb (length frame) header_len
      then fail unexpected_eof
      else (decode_header b frame >>= λ (header, rest).
          if ltb options.max_frame header.length
          then fail (frame_too_large header.length options.max_frame)
          else if ltb (length rest) header.length
          then fail unexpected_eof
          else if ltb header.length (length rest)
          then fail invalid_frame
          else checked header rest options)

  -- `read_frame_from_with_options`: the next frame of a stream, and what follows it.
  unfoldable pub read_frame : CodecOptions → Reader (List ℕ)
  read_frame options stream = take_bytes header_len stream >>= λ (bytes, rest).
      decode_header b bytes >>= λ (header, _).
      if ltb options.max_frame header.length
      then fail (frame_too_large header.length options.max_frame)
      else (take_bytes header.length rest >>= λ (payload, after).
          checked header payload options >>= λ body. ok (body, after))

-- Which fields of the metadata are there.
abbrev flag_of {ℓ} : {A : Type ℓ} → ℕ → Option A → ℕ
flag_of bit none = 0
flag_of bit (some _) = bit

-- The bits are distinct, so that their union is their sum.
unfoldable pub metadata_flags : RequestMetadata → ℕ
metadata_flags m = flag_of 1 m.deadline_ms + flag_of 2 m.trace_id + flag_of 4 m.sequence

-- An index that the length was checked for.
abbrev pub byte_at : ℕ → List ℕ → ℕ
byte_at n [] = 0
byte_at zero (x ∷ s) = x
byte_at (suc n) (x ∷ s) = byte_at n s

-- A field that a bit of the flags announces.
abbrev pub field_u64 : Bool → Reader (Option ℕ)
field_u64 false = pure none
field_u64 true = read_then (take_bytes 8) λ bytes. pure (some (from_be_bytes 0 bytes))

abbrev pub field_uuid : Bool → Reader (Option (List ℕ))
field_uuid false = pure none
field_uuid true = read_then (take_bytes 16) λ bytes. pure (some bytes)

-- The fields behind the opcode, in their order.
unfoldable pub read_metadata : ℕ → Reader RequestMetadata
read_metadata flags = read_then (field_u64 (flags % 2 == 1)) λ d.
    read_then (field_uuid (flags / 2 % 2 == 1)) λ t.
      read_then (field_u64 (flags / 4 % 2 == 1))
        λ s. pure (record { deadline_ms = d; trace_id = t; sequence = s })

unfoldable pub decode_request_body : List ℕ → Decoded Request
decode_request_body body =
    if ltb (length body) 18
    then fail unexpected_eof
    else if not (byte_at 0 body / 8 == 0)
    then fail corrupted_payload
    else (or_fail (opcode_from (byte_at 17 body)) >>= λ opcode.
        read_metadata (byte_at 0 body) (drop 18 body) >>= λ (metadata, payload). ok (record {
          request_id = take 16 (drop 1 body);
          opcode = opcode;
          payload = payload;
          metadata = metadata;
        }))

module _ (b : Buf) where
  abbrev pub put_field_u64 : Option ℕ → List ℕ
  put_field_u64 none = []
  put_field_u64 (some n) = b.put u64 n

  abbrev pub put_field_uuid : Option (List ℕ) → List ℕ
  put_field_uuid none = []
  put_field_uuid (some bytes) = bytes

  unfoldable pub encode_request_body : Request → List ℕ
  encode_request_body r =
      b.put u8 (metadata_flags r.metadata)
      ++ (r.request_id
          ++ (b.put u8 (opcode_byte r.opcode)
              ++ (put_field_u64 r.metadata.deadline_ms
                  ++ (put_field_uuid r.metadata.trace_id
                      ++ (put_field_u64 r.metadata.sequence ++ r.payload)))))

module _ (b : Buf) (lib : Library) where
  unfoldable pub encode_request : Request → CodecOptions → Result TransportError (List ℕ)
  encode_request r options = encode_frame b lib (encode_request_body b r) options

  unfoldable pub decode_request : List ℕ → Decoded Request
  decode_request bytes = decode_frame b lib bytes default_options >>= decode_request_body

  -- `read_request_from_with_options`
  unfoldable pub read_request : CodecOptions → Reader Request
  read_request options stream = read_frame b lib options stream >>= λ (body, rest).
      decode_request_body body >>= λ r. ok (r, rest)
