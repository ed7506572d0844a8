-- ===== src/Transport/Codec/Bodies.antt =====
-- The body of a request in crates/transport/src/codec/mod.rs, and the frame around it.
use vaylix.Prelude.{
  ℕ, suc, ◌/◌, ◌%◌, ◌<◌, ◌≡◌, refl, ◌∙◌, Bool, true, false, Option, none, some, List, [], ◌∷◌, ◌++◌,
  ok, ◌>>=◌, length, length-append, take, drop, ltb, ◌==◌, arith,
}
use vaylix.Engine.Command.{Command}
use vaylix.Transport.Error.{Decoded}
use vaylix.Transport.Buf.{u8, u64, range, Buf, >>=-ok, from_be_bytes}
use vaylix.Transport.Primitives.{take_bytes}
use vaylix.Transport.Primitives.RoundTrip.{take_bytes-append, take-append}
use vaylix.Transport.Opcode.{opcode_byte, opcode_from-opcode_byte, opcode_byte-lt}
use vaylix.Transport.Request.{Request, RequestMetadata, with_metadata, from_command, into_command}
use vaylix.Transport.Request.RoundTrip.{Fits, into_command-from_command}
use vaylix.Transport.Codec.{
  CodecOptions, Library, default_options, metadata_flags, byte_at, field_u64, field_uuid,
  read_metadata, decode_request_body, put_field_u64, put_field_uuid, encode_request_body,
  encode_request, decode_request, read_request,
}
use vaylix.Transport.Codec.Frames.{IsWithin, read_frame-encode_frame, decode_frame-encode_frame}

single : (n : ℕ) (xs : List ℕ) → length xs ≡ 1 → from_be_bytes 0 xs ≡ n → xs ≡ n ∷ []
unfolding from_be_bytes
single n [] h e = absurd (omega arith)
single n (x ∷ []) h e = ground arith
single n (x ∷ y ∷ xs) h e = absurd (omega arith)

put_u8_lem : (b : Buf) (n : ℕ) → n < 256 → b.put u8 n ≡ n ∷ []
put_u8_lem b n h = single n (b.put u8 n) (b.length-put u8 n) (b.from_be-put u8 n h)

byte_at-append : (xs rest : List ℕ) (x : ℕ) → byte_at (length xs) (xs ++ x ∷ rest) ≡ x
byte_at-append [] rest x = refl
byte_at-append (y ∷ xs) rest x = byte_at-append xs rest x

drop_past-append : (xs rest : List ℕ) (x : ℕ) → drop (suc (length xs)) (xs ++ x ∷ rest) ≡ rest
drop_past-append [] rest x = refl
drop_past-append (y ∷ xs) rest x = drop_past-append xs rest x

abbrev is_some {ℓ} : {A : Type ℓ} → Option A → Bool
is_some none = false
is_some (some _) = true

abbrev pub U64Fits : Option ℕ → Type 0
U64Fits none = Unit {0}
U64Fits (some n) = n < range u64

abbrev pub UuidFits : Option (List ℕ) → Type 0
UuidFits none = Unit {0}
UuidFits (some id) = length id ≡ 16

-- Identifiers have 16 bytes, and numbers fit a `u64`.
pub record IsRequest (r : Request) : Type 0 where
  pub id : length r.request_id ≡ 16
  pub deadline : U64Fits r.metadata.deadline_ms
  pub trace : UuidFits r.metadata.trace_id
  pub sequence : U64Fits r.metadata.sequence

-- The bits of the flags say which fields are there, and there is no other bit.
metadata_flags_lem :
    (d : Option ℕ) (t : Option (List ℕ)) (s : Option ℕ)
    → let flags = metadata_flags (record { deadline_ms = d; trace_id = t; sequence = s }) in
      ((flags % 2 == 1) ≡ is_some d)
      × ((flags / 2 % 2 == 1) ≡ is_some t)
      × ((flags / 4 % 2 == 1) ≡ is_some s)
      × (flags < 8)
unfolding metadata_flags
metadata_flags_lem none none none = (refl, refl, refl, omega arith)
metadata_flags_lem none none (some s) = (refl, refl, refl, omega arith)
metadata_flags_lem none (some t) none = (refl, refl, refl, omega arith)
metadata_flags_lem none (some t) (some s) = (refl, refl, refl, omega arith)
metadata_flags_lem (some d) none none = (refl, refl, refl, omega arith)
metadata_flags_lem (some d) none (some s) = (refl, refl, refl, omega arith)
metadata_flags_lem (some d) (some t) none = (refl, refl, refl, omega arith)
metadata_flags_lem (some d) (some t) (some s) = (refl, refl, refl, omega arith)

module _ (b : Buf) where
  field_u64-put :
      (o : Option ℕ) (rest : List ℕ)
      → U64Fits o
      → field_u64 (is_some o) (put_field_u64 b o ++ rest) ≡ ok (o, rest)
  field_u64-put none rest h = refl
  field_u64-put (some n) rest h =
      let taken : take_bytes 8 (b.put u64 n ++ rest) ≡ ok (b.put u64 n, rest) =
        rw (b.length-put u64 n) at (take_bytes-append (b.put u64 n) rest) in
      >>=-ok (take_bytes 8) _ _ taken ∙ rw (b.from_be-put u64 n h) refl

  field_uuid-put :
      (o : Option (List ℕ)) (rest : List ℕ)
      → UuidFits o
      → field_uuid (is_some o) (put_field_uuid b o ++ rest) ≡ ok (o, rest)
  field_uuid-put none rest h = refl
  field_uuid-put (some id) rest h =
      let taken : take_bytes 16 (id ++ rest) ≡ ok (id, rest) =
        rw h at (take_bytes-append id rest) in
      >>=-ok (take_bytes 16) _ _ taken

  read_metadata-put :
      (d : Option ℕ) (t : Option (List ℕ)) (s : Option ℕ) (rest : List ℕ)
      → U64Fits d
      → UuidFits t
      → U64Fits s
      → let m : RequestMetadata = record { deadline_ms = d; trace_id = t; sequence = s } in
        read_metadata
          (metadata_flags m)
          (put_field_u64 b d ++ (put_field_uuid b t ++ (put_field_u64 b s ++ rest)))
        ≡ ok (m, rest)
  unfolding read_metadata
  read_metadata-put d t s rest hd ht hs =
      let (fd, ft, fs, _) = metadata_flags_lem d t s in
      rw (fd, ft, fs)
        (>>=-ok (field_u64 (is_some d)) _ _ (field_u64-put d _ hd)
          ∙ >>=-ok (field_uuid (is_some t)) _ _ (field_uuid-put t _ ht)
          ∙ >>=-ok (field_u64 (is_some s)) _ _ (field_u64-put s rest hs))

  -- The fields behind the opcode, and the payload.
  abbrev tail_of : Request → List ℕ
  tail_of r =
      put_field_u64 b r.metadata.deadline_ms
      ++ (put_field_uuid b r.metadata.trace_id
          ++ (put_field_u64 b r.metadata.sequence ++ r.payload))

  encode_request_body_lem :
      (r : Request)
      → encode_request_body b r
        ≡ metadata_flags r.metadata ∷ (r.request_id ++ (opcode_byte r.opcode ∷ tail_of r))
  unfolding encode_request_body
  encode_request_body_lem r =
      let (_, _, _, small) =
        metadata_flags_lem r.metadata.deadline_ms r.metadata.trace_id r.metadata.sequence in
      rw
        (
          put_u8_lem b (metadata_flags r.metadata) (omega arith),
          put_u8_lem b (opcode_byte r.opcode) (opcode_byte-lt r.opcode),
        )
        refl

  decode_request_body_lem :
      (r : Request) (flags : ℕ)
      → length r.request_id ≡ 16
      → flags < 8
      → read_metadata flags (tail_of r) ≡ ok (r.metadata, r.payload)
      → decode_request_body (flags ∷ (r.request_id ++ (opcode_byte r.opcode ∷ tail_of r))) ≡ ok r
  unfolding decode_request_body
  decode_request_body_lem r flags sixteen small fields =
      let rest = opcode_byte r.opcode ∷ tail_of r in
      let op : byte_at 16 (r.request_id ++ rest) ≡ opcode_byte r.opcode =
        rw sixteen at (byte_at-append r.request_id (tail_of r) (opcode_byte r.opcode)) in
      let left : drop 17 (r.request_id ++ rest) ≡ tail_of r =
        rw sixteen at (drop_past-append r.request_id (tail_of r) (opcode_byte r.opcode)) in
      let id : take 16 (r.request_id ++ rest) ≡ r.request_id =
        rw sixteen at (take-append r.request_id rest) in
      let long : ltb (suc (length (r.request_id ++ rest))) 18 ≡ false =
        ground (arith, length-append r.request_id rest) in
      rw (long, op, left, id, opcode_from-opcode_byte r.opcode, fields) (ground arith)

  pub decode_request_body-encode_request_body :
      (r : Request) → IsRequest r → decode_request_body (encode_request_body b r) ≡ ok r
  decode_request_body-encode_request_body r v =
      let m = r.metadata in
      let (_, _, _, small) = metadata_flags_lem m.deadline_ms m.trace_id m.sequence in
      rw (encode_request_body_lem r) (
        decode_request_body_lem r (metadata_flags m) v.id small (
          read_metadata-put m.deadline_ms m.trace_id m.sequence r.payload v.deadline v.trace
            v.sequence))

-- A command off the stream of a connection.
unfoldable pub receive : Buf → Library → CodecOptions → List ℕ → Decoded (Command × List ℕ)
receive b lib options stream =
    read_request b lib options stream >>= λ (r, rest). into_command b r >>= λ c. ok (c, rest)

module _ (b : Buf) (lib : Library) where
  -- A request that was encoded within the limits of the reader, compressed or not, is read off the
  -- front of any stream, metadata included.
  pub read_request-encode_request :
      (writer reader : CodecOptions) (r : Request) (bytes rest : List ℕ)
      → IsWithin writer reader
      → IsRequest r
      → encode_request b lib r writer ≡ ok bytes
      → read_request b lib reader (bytes ++ rest) ≡ ok (r, rest)
  unfolding encode_request read_request
  read_request-encode_request writer reader r bytes rest within v e =
      rw (read_frame-encode_frame b lib within (encode_request_body b r) bytes rest e)
        (rw (decode_request_body-encode_request_body b r v) refl)

  pub decode_request-encode_request :
      (writer : CodecOptions) (r : Request) (bytes : List ℕ)
      → IsWithin writer default_options
      → IsRequest r
      → encode_request b lib r writer ≡ ok bytes
      → decode_request b lib bytes ≡ ok r
  unfolding encode_request decode_request
  decode_request-encode_request writer r bytes within v e =
      rw (decode_frame-encode_frame b lib within (encode_request_body b r) bytes e)
        (decode_request_body-encode_request_body b r v)

  -- The command that a client sends, with metadata that fit their fields and within the limits of the
  -- reader, is the command that the server receives, if the numbers of the command fit its payload.
  pub receive-from_command :
      (writer reader : CodecOptions) (id : List ℕ) (c : Command) (m : RequestMetadata) (r : Request)
      (bytes rest : List ℕ)
      → IsWithin writer reader
      → Fits c
      → from_command b id c ≡ ok r
      → IsRequest (with_metadata m r)
      → encode_request b lib (with_metadata m r) writer ≡ ok bytes
      → receive b lib reader (bytes ++ rest) ≡ ok (c, rest)
  unfolding receive
  receive-from_command writer reader id c m r bytes rest within fits sent v e =
      let read =
        read_request-encode_request writer reader (with_metadata m r) bytes rest within v e in
      let decoded : into_command b (with_metadata m r) ≡ ok c =
        unfold into_command in into_command-from_command b id c fits sent in
      rw read (rw decoded refl)
