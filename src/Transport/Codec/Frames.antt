-- ===== src/Transport/Codec/Frames.antt =====
-- Frames of crates/transport/src/codec/mod.rs that were encoded are read back.
use vaylix.Prelude.{
  ℕ, zero, suc, ◌^◌, ◌≤◌, ◌<◌, ◌≡◌, refl, ap, ◌∙◌, true, false, Option, none, some, List, [], ◌∷◌,
  ◌++◌, append-nil, append_assoc, ok, err, ◌>>=◌, >>=-eq-ok, Bool-cases, inl, inr, length,
  length-append, take, ltb, u64_max, saturating_add, arith,
}
use vaylix.Transport.Error.{frame_too_large}
use vaylix.Transport.Buf.{Width, u8, u32, range, Buf, >>=-ok, need, need_ok, get_uint, or_panic}
use vaylix.Transport.Primitives.{take_bytes}
use vaylix.Transport.Primitives.RoundTrip.{take_bytes-append}
use vaylix.Transport.Frame.{
  FrameHeader, magic_number, protocol_version, header_len, max_frame_len, new_header, encode_header,
  accept_header, decode_header,
}
use vaylix.Transport.Codec.{
  CodecOptions, Library, maybe_compress, maybe_decompress, should_compress, framed, encode_frame,
  checked, decode_frame, read_frame,
}

-- The fields of a header fit their widths.
record IsHeader (h : FrameHeader) : Type 0 where
  magic : h.magic ≡ magic_number
  version : h.version ≡ protocol_version
  flags : h.flags < 2
  length : h.length ≤ max_frame_len
  checksum : h.checksum < 2 ^ 32

accept_header-ok :
    (h : FrameHeader) (rest : List ℕ) → IsHeader h → accept_header h rest ≡ ok (h, rest)
unfolding accept_header
accept_header-ok h rest v = ground arith

module _ (b : Buf) where
  get_uint-put :
      (w : Width) (n : ℕ) (rest : List ℕ)
      → n < range w
      → get_uint b w (b.put w n ++ rest) ≡ ok (n, rest)
  unfolding get_uint
  get_uint-put w n rest h = rw (b.get-put w n rest h, or_panic) refl

  length-encode_header : (h : FrameHeader) → length (encode_header b h) ≡ header_len
  unfolding encode_header
  length-encode_header h =
      let p4 = b.put u32 h.length ++ b.put u32 h.checksum in
      let p3 = b.put u8 h.flags ++ p4 in
      let p2 = b.put u8 h.version ++ p3 in
      omega (
        arith,
        length-append (b.put u32 h.magic) p2,
        length-append (b.put u8 h.version) p3,
        length-append (b.put u8 h.flags) p4,
        length-append (b.put u32 h.length) (b.put u32 h.checksum),
        b.length-put u32 h.magic,
        b.length-put u8 h.version,
        b.length-put u8 h.flags,
        b.length-put u32 h.length,
        b.length-put u32 h.checksum,
      )

  decode_header-encode_header :
      (h : FrameHeader) (rest : List ℕ)
      → IsHeader h
      → decode_header b (encode_header b h ++ rest) ≡ ok (h, rest)
  decode_header-encode_header h rest v =
      let long : header_len ≤ length (encode_header b h ++ rest) =
        omega (arith, length-append (encode_header b h) rest, length-encode_header h) in
      unfold decode_header in
      >>=-ok (need header_len) _ (encode_header b h ++ rest) (need_ok header_len _ long)
      ∙ unfold encode_header in
        rw (append_assoc, append_assoc, append_assoc, append_assoc)
          (>>=-ok (get_uint b u32) _ _ (get_uint-put u32 h.magic _ (omega arith))
            ∙ >>=-ok (get_uint b u8) _ _ (get_uint-put u8 h.version _ (omega arith))
            ∙ >>=-ok (get_uint b u8) _ _ (get_uint-put u8 h.flags _ (omega arith))
            ∙ >>=-ok (get_uint b u32) _ _ (get_uint-put u32 h.length _ (omega arith))
            ∙ >>=-ok (get_uint b u32) _ _ (get_uint-put u32 h.checksum _ (omega arith))
            ∙ accept_header-ok h rest v)

take_enough : (n : ℕ) (xs : List ℕ) → length xs ≤ n → take n xs ≡ xs
take_enough zero [] h = refl
take_enough zero (x ∷ xs) h = absurd (omega arith)
take_enough (suc n) [] h = refl
take_enough (suc n) (x ∷ xs) h = cc (take_enough n xs (omega arith))

not_above : (a b : ℕ) → b ≤ a → ltb a b ≡ false
not_above a b h = ground arith

-- The writer's limits are within the reader's, and a frame has a `u32` for its length.
pub record IsWithin (writer reader : CodecOptions) : Type 0 where
  pub frame_u32 : writer.max_frame < 2 ^ 32
  pub frame : writer.max_frame ≤ reader.max_frame
  pub body : writer.max_decompressed_frame ≤ reader.max_decompressed_frame
  pub body_u64 : reader.max_decompressed_frame < u64_max

-- The header that a payload gets.
abbrev sent : Library → ℕ → List ℕ → FrameHeader
sent lib flags payload = record {
  magic = magic_number;
  version = protocol_version;
  flags = flags;
  length = length payload;
  checksum = lib.hash payload;
}

module _ (lib : Library) {writer reader : CodecOptions} (within : IsWithin writer reader) where
  -- What the decompression of a whole body gives.
  decompress_all :
      (body : List ℕ) {z : List ℕ}
      → lib.compress body ≡ some z
      → length body ≤ writer.max_decompressed_frame
      → lib.decompress (saturating_add reader.max_decompressed_frame 1) z ≡ some body
  unfolding saturating_add
  decompress_all body {z} e small =
      lib.decompress-compress _ body e ∙ ap some (take_enough _ body (ground arith))

  -- What was compressed, or left as it was, by the flags.
  maybe_decompress-maybe_compress :
      (body payload : List ℕ) (flags : ℕ)
      → maybe_compress lib body writer ≡ ok (flags, payload)
      → length body ≤ writer.max_decompressed_frame
      → (flags < 2) × (maybe_decompress lib (sent lib flags payload) payload reader ≡ ok body)
  unfolding maybe_compress maybe_decompress
  maybe_decompress-maybe_compress body payload flags e small =
      elim (Bool-cases (should_compress (length body) writer)) [
        | inr plain ↦ ground (arith, plain)
        | inl zstd ↦ by_compress zstd (lib.compress body) refl
      ]
    where
      by_compress :
          should_compress (length body) writer ≡ true
          → (o : Option (List ℕ)) → lib.compress body ≡ o
          → (flags < 2) × (maybe_decompress lib (sent lib flags payload) payload reader ≡ ok body)
      by_compress zstd none k = ground (arith, zstd, k, e)
      by_compress zstd (some z) k =
          let all = decompress_all body k small in ground (arith, all, k, zstd, e)

module _ (b : Buf) (lib : Library) {writer reader : CodecOptions}
    (within : IsWithin writer reader) where
  -- A frame that was encoded: the header and the payload behind it.
  framed-ok :
      (flags : ℕ) (payload frame : List ℕ)
      → framed b lib writer flags payload ≡ ok frame
      → (frame ≡ encode_header b (sent lib flags payload) ++ payload)
        × (length payload ≤ writer.max_frame)
        × (length payload ≤ max_frame_len)
  unfolding framed new_header
  framed-ok flags payload frame e = ground arith

  -- The parts of an encoded frame.
  encode_frame-ok :
      (body frame : List ℕ)
      → encode_frame b lib body writer ≡ ok frame
      → (flags : ℕ) × (payload : List ℕ) × (frame
          ≡ encode_header b (sent lib flags payload) ++ payload)
        × (length payload ≤ writer.max_frame)
        × IsHeader (sent lib flags payload)
        × (checked b lib (sent lib flags payload) payload reader ≡ ok body)
  unfolding encode_frame
  encode_frame-ok body frame e =
      elim (Bool-cases (ltb writer.max_decompressed_frame (length body))) [
        | inl large ↦ absurd (too_large (rw large at e))
        | inr small ↦ parts (ground arith) (rw small at e)
      ]
    where
      too_large : err (frame_too_large (length body) writer.max_decompressed_frame) ≡ ok frame → ⊥
      too_large h = cc

      parts :
          length body ≤ writer.max_decompressed_frame
          → (maybe_compress lib body writer >>= λ r. framed b lib writer r.0 r.1) ≡ ok frame
          → (flags : ℕ) × (payload : List ℕ) × (frame
              ≡ encode_header b (sent lib flags payload) ++ payload)
            × (length payload ≤ writer.max_frame)
            × IsHeader (sent lib flags payload)
            × (checked b lib (sent lib flags payload) payload reader ≡ ok body)
      parts small h =
          let ((flags, payload), em, ef) =
            >>=-eq-ok (maybe_compress lib body writer) (λ r. framed b lib writer r.0 r.1) h in
          let (bit, back) =
            maybe_decompress-maybe_compress lib within body payload flags em small in
          let (same, fits, short) = framed-ok flags payload frame ef in
          (
            flags,
            payload,
            same,
            fits,
            record {
              magic = refl;
              version = refl;
              flags = bit;
              length = short;
              checksum = lib.hash-lt payload;
            },
            rw back (ground (arith, back)),
          )

  -- A frame that was encoded is read off the front of any stream, and decoded where it stands alone.
  pub read_frame-encode_frame :
      (body frame rest : List ℕ)
      → encode_frame b lib body writer ≡ ok frame
      → read_frame b lib reader (frame ++ rest) ≡ ok (body, rest)
  unfolding read_frame
  read_frame-encode_frame body frame rest e =
      let (flags, payload, same, fits, v, back) = encode_frame-ok body frame e in
      let h = sent lib flags payload in
      let header : take_bytes header_len (encode_header b h ++ (payload ++ rest))
          ≡ ok (encode_header b h, payload ++ rest) =
        rw (length-encode_header b h) at
          (take_bytes-append (encode_header b h) (payload ++ rest)) in
      let decoded : decode_header b (encode_header b h) ≡ ok (h, []) =
        rw append-nil at (decode_header-encode_header b h [] v) in
      rw (same, append_assoc)
        (rw header (
          rw decoded (
            rw (not_above reader.max_frame (length payload) (omega arith))
              (rw (take_bytes-append payload rest) (rw back refl)))))

  pub decode_frame-encode_frame :
      (body frame : List ℕ)
      → encode_frame b lib body writer ≡ ok frame
      → decode_frame b lib frame reader ≡ ok body
  unfolding decode_frame
  decode_frame-encode_frame body frame e =
      let (flags, payload, same, fits, v, back) = encode_frame-ok body frame e in
      let h = sent lib flags payload in
      let long : header_len ≤ length (encode_header b h ++ payload) =
        omega (arith, length-append (encode_header b h) payload, length-encode_header b h) in
      rw same (
        rw (not_above (length (encode_header b h ++ payload)) header_len long) (
          rw (decode_header-encode_header b h payload v) (
            rw (not_above reader.max_frame (length payload) (omega arith))
              (rw (not_above (length payload) (length payload) (omega arith)) back))))
