-- ===== src/Transport/Request/Payloads.antt =====
-- The payloads of crates/transport/src/request/mod.rs that have several parts, and their readers.
use vaylix.Prelude.{
  ℕ, ◌≤◌, ◌<◌, ◌≡◌, refl, String, Bool, Option, none, some, List, [], ◌∷◌, ok, >>=-eq-ok, ◌>>=◌,
  ◌++◌, length, length-append, arith, ◌∙◌,
}
use vaylix.Engine.Command.{Expiration, SetOptions}
use vaylix.Transport.Buf.{
  u8, u16, u64, Width, range, Buf, ◌>>=◌ as read_then, need, need_ok, >>=-ok, read_uint,
}
use vaylix.Transport.Primitives.{put_string_u16}
use vaylix.Transport.Request.{
  encode_set, encode_get_ex, encode_key_value, encode_three_strings, encode_key_u64,
  encode_optional_string, encode_pattern, encode_scan, set_reader, get_ex_reader, key_value_reader,
  three_strings_reader, key_u64_reader, optional_string_of, pattern_of, scan_reader, read_pattern,
  decode_version, encode_optional, unchecked_optional,
}
use vaylix.Transport.Request.Trips.{
  OptionFits, ExpirationFits, Trips, Trips-&, Trips-last, uint_Trips, unchecked_Trips, bool_Trips,
  string_u16_Trips, string_u32_Trips, bytes_u32_Trips, condition_Trips, expiration_Trips,
  optional_Trips,
}

module _ (b : Buf) where
  pub key_value_Trips : (s t : String) → Trips (encode_key_value b s t) (key_value_reader b) (s, t)
  unfolding encode_key_value key_value_reader
  key_value_Trips s t =
      Trips-& _ (string_u16_Trips b s) (Trips-last _ (string_u32_Trips b t) (λ r. refl))

  pub three_strings_Trips :
      (s t u : String) → Trips (encode_three_strings b s t u) (three_strings_reader b) (s, t, u)
  unfolding encode_three_strings three_strings_reader
  three_strings_Trips s t u =
      Trips-& _ (string_u16_Trips b s)
        (Trips-& _ (string_u16_Trips b t) (Trips-last _ (string_u16_Trips b u) (λ r. refl)))

  pub key_u64_Trips :
      (s : String) (n : ℕ) → n < range u64 → Trips (encode_key_u64 b s n) (key_u64_reader b) (s, n)
  unfolding encode_key_u64 key_u64_reader
  key_u64_Trips s n h =
      Trips-& _ (string_u16_Trips b s) (Trips-last _ (uint_Trips b u64 n h) (λ r. refl))

  pub get_ex_Trips :
      (s : String) (e : Option Expiration) (p : Bool)
      → ExpirationFits e
      → Trips (encode_get_ex b s e p) (get_ex_reader b) (s, e, p)
  unfolding encode_get_ex get_ex_reader
  get_ex_Trips s e p h =
      Trips-& _ (string_u16_Trips b s)
        (Trips-& _ (expiration_Trips b e h) (Trips-last _ (bool_Trips b p) (λ r. refl)))

  -- What an optional number takes, and an optional pattern.
  encode_optional-pos : (w : Width) (o : Option ℕ) → 0 < length (encode_optional b w o)
  unfolding encode_optional
  encode_optional-pos w none = omega (arith, b.length-put u8 0)
  encode_optional-pos w (some n) =
      omega (arith, b.length-put u8 1, length-append (b.put u8 1) (b.put w n))

  encode_pattern-pos : (o : Option String) {p : List ℕ} → encode_pattern b o ≡ ok p → 0 < length p
  unfolding encode_pattern
  encode_pattern-pos none {p} h =
      let same : p ≡ b.put u8 0 = cc in rw same (omega (arith, b.length-put u8 0))
  encode_pattern-pos (some s) {p} h =
      let (y, hy, k) = >>=-eq-ok (put_string_u16 b s) (λ y. ok (b.put u8 1 ++ y)) h in
      let same : p ≡ b.put u8 1 ++ y = cc in
      rw same (omega (arith, b.length-put u8 1, length-append (b.put u8 1) y))

  decode_version_lem : (s : List ℕ) → 0 < length s → decode_version b s ≡ unchecked_optional b u64 s
  unfolding decode_version
  decode_version_lem [] h = absurd (omega arith)
  decode_version_lem (x ∷ s) h = refl

  version_Trips :
      (o : Option ℕ) → OptionFits u64 o → Trips (ok (encode_optional b u64 o)) (decode_version b) o
  version_Trips o h = record {
    trip = λ p rest e.
        let same : p ≡ encode_optional b u64 o = cc in
        let pos : 0 < length (p ++ rest) = rw same (
          omega (arith, encode_optional-pos u64 o, length-append (encode_optional b u64 o) rest)) in
        decode_version_lem (p ++ rest) pos ∙ (optional_Trips b u64 o h).trip p rest e;
  }

  pub set_Trips :
      (key : String) (value : List ℕ) (o : SetOptions)
      → ExpirationFits o.expiration
      → OptionFits u64 o.if_version
      → Trips (encode_set b key value o) (set_reader b) (key, value, o)
  unfolding encode_set set_reader
  set_Trips key value o h k = Trips-& _ (string_u16_Trips b key) (
      Trips-& _ (bytes_u32_Trips b value) (
        Trips-& _ (condition_Trips b o.condition) (
          Trips-& _ (expiration_Trips b o.expiration h) (
            Trips-& _ (bool_Trips b o.keep_ttl) (
              Trips-& _ (bool_Trips b o.return_previous)
                (Trips-last _ (version_Trips o.if_version k) (λ r. refl)))))))

  pub optional_string_Trips :
      (o : Option String)
      → Trips (encode_optional_string b o) (read_then (read_uint b u8) (optional_string_of b)) o
  unfolding encode_optional_string optional_string_of
  optional_string_Trips none =
      Trips-last (optional_string_of b) (uint_Trips b u8 0 (omega arith)) (λ r. refl)
  optional_string_Trips (some s) =
      Trips-& (optional_string_of b) (uint_Trips b u8 1 (omega arith))
        (Trips-last _ (string_u32_Trips b s) (λ r. refl))

  pub pattern_Trips : (o : Option String) → Trips (encode_pattern b o) (read_pattern b) o
  unfolding encode_pattern read_pattern
  pattern_Trips none = Trips-last (pattern_of b) (unchecked_Trips b u8 0 (omega arith)) (λ r. refl)
  pattern_Trips (some s) =
      Trips-& (pattern_of b) (unchecked_Trips b u8 1 (omega arith))
        (Trips-last _ (string_u16_Trips b s) (λ r. refl))

  -- The check for ten bytes passes on every payload that was encoded.
  encode_scan-ten :
      (cursor : ℕ) (o : Option String) (n : Option ℕ) {p : List ℕ}
      → encode_scan b cursor o n ≡ ok p
      → 10 ≤ length p
  unfolding encode_scan
  encode_scan-ten cursor o n {p} h =
      let last = encode_optional b u16 n in
      let (y, hy, k) =
        >>=-eq-ok (encode_pattern b o >>= λ x. ok (x ++ last)) (λ y. ok (b.put u64 cursor ++ y))
          h in
      let (x, hx, l) = >>=-eq-ok (encode_pattern b o) (λ x. ok (x ++ last)) hy in
      let same : p ≡ b.put u64 cursor ++ (x ++ last) = cc in
      rw same (
        omega (
          arith,
          encode_pattern-pos o hx,
          encode_optional-pos u16 n,
          b.length-put u64 cursor,
          length-append (b.put u64 cursor) (x ++ last),
          length-append x last,
        ))

  pub scan_Trips :
      (cursor : ℕ) (o : Option String) (n : Option ℕ)
      → cursor < range u64
      → OptionFits u16 n
      → Trips (encode_scan b cursor o n) (scan_reader b) (cursor, o, n)
  unfolding encode_scan scan_reader
  scan_Trips cursor o n h k = record {
    trip = λ p rest e.
        >>=-ok (need 10) _ (p ++ rest) (
          need_ok 10 (p ++ rest)
            (omega (arith, encode_scan-ten cursor o n e, length-append p rest)))
        ∙ (Trips-& _ (unchecked_Trips b u64 cursor h) (
              Trips-& _ (pattern_Trips o)
                (Trips-last _ (optional_Trips b u16 n k) (λ r. refl)))).trip
            p rest e;
  }
