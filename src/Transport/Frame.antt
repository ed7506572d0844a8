-- ===== src/Transport/Frame.antt =====
-- crates/transport/src/frame.rs and constants.rs: the header of a frame.
use vaylix.Prelude.{ℕ, ◌*◌, ◌/◌, List, ◌++◌, Result, ok, err, not, ltb, ◌==◌, if◌then◌else◌}
use vaylix.Transport.Error.{
  TransportError, invalid_frame, version_mismatch, frame_too_large, unsupported_flags,
}
use vaylix.Transport.Buf.{u8, u32, Buf, Reader, pure, ◌>>=◌, ◌>>◌, failed, need, get_uint}

-- `u32::from_be_bytes(*b"VTP2")`
abbrev pub magic_number : ℕ
magic_number = 0x56545032

abbrev pub protocol_version : ℕ
protocol_version = 2

abbrev pub flags_none : ℕ
flags_none = 0

abbrev pub flag_compressed_zstd : ℕ
flag_compressed_zstd = 1

abbrev pub header_len : ℕ
header_len = 14

abbrev pub max_frame_len : ℕ
max_frame_len = 8 * 1024 * 1024

pub record FrameHeader : Type 0 where
  pub magic : ℕ
  pub version : ℕ
  pub flags : ℕ
  pub length : ℕ
  pub checksum : ℕ

unfoldable pub new_header : ℕ → ℕ → Result TransportError FrameHeader
new_header length checksum =
    if ltb max_frame_len length
    then err (frame_too_large length max_frame_len)
    else ok (record {
      magic = magic_number;
      version = protocol_version;
      flags = flags_none;
      length = length;
      checksum = checksum;
    })

-- The tests on the fields, in order; a flag other than the one for compression is a bit above it.
unfoldable pub accept_header : FrameHeader → Reader FrameHeader
accept_header h =
    if not (h.magic == magic_number)
    then failed invalid_frame
    else if not (h.version == protocol_version)
    then failed (version_mismatch protocol_version h.version)
    else if ltb max_frame_len h.length
    then failed (frame_too_large h.length max_frame_len)
    else if not (h.flags / 2 == 0)
    then failed (unsupported_flags h.flags)
    else pure h

module _ (b : Buf) where
  unfoldable pub encode_header : FrameHeader → List ℕ
  encode_header h =
      b.put u32 h.magic
      ++ (b.put u8 h.version ++ (b.put u8 h.flags ++ (b.put u32 h.length ++ b.put u32 h.checksum)))

  unfoldable pub decode_header : Reader FrameHeader
  decode_header = do
    need header_len
    m ← get_uint b u32
    v ← get_uint b u8
    f ← get_uint b u8
    l ← get_uint b u32
    c ← get_uint b u32
    accept_header (record { magic = m; version = v; flags = f; length = l; checksum = c })
