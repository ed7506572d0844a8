-- ===== src/Transport/Response/RoundTrip.antt =====
-- The responses of crates/transport/src/response/mod.rs are decoded to what they were built from.
use vaylix.Prelude.{
  ℕ, ◌≤◌, ◌<◌, ◌≡◌, refl, ◌∙◌, String, true, Bool-cases, inl, inr, Option, none, some, List, [],
  ◌∷◌, ◌++◌, Result, ◌>>=◌, >>=-eq-ok, length, length-append, All, ltb, ltb→lt, arith,
}
use vaylix.Engine.Integer.{ℤ, in_i64}
use vaylix.Transport.Error.{corrupted_payload}
use vaylix.Transport.Buf.{
  u8, u32, u64, range, Buf, ◌>>=◌ as then_read, >>=-ok, need, need_ok, get_uint,
}
use vaylix.Transport.Primitives.{read_string_u16}
use vaylix.Transport.Request.{Encoded, put_keys, counted, read_many}
use vaylix.Transport.Request.Trips.{
  Trips, Trips-&, Trips-last, nil_Trips, whole-Trips, uint_Trips, unchecked_Trips, bool_Trips,
  string_u16_Trips, string_u32_Trips, bytes_u32_Trips, keys_Trips, pairs_Trips, counted-Trips,
}
use vaylix.Transport.Response.{
  Status, answer, ErrorPayload, ScanPayload, ExecResultPayload, Response, i64_bits, i64_of_bits,
  put_value, put_values, encode_entries, encode_values, encode_scan_page, encode_exec_result,
  put_results, encode_exec_results, encode_error_payload, value_of, value_reader, entries_reader,
  values_reader, scan_page_reader, result_of, result_reader, results_reader, error_reader,
  error_response, exec_results, decode_error, decode_exec_results,
}

i64_bits-lt : (z : ℤ) → in_i64 z ≡ true → i64_bits z < range u64
unfolding i64_bits in_i64
i64_bits-lt (ℤ.pos n) h = ground arith
i64_bits-lt (ℤ.negsuc n) h = ground arith

i64_of_bits-i64_bits : (z : ℤ) → in_i64 z ≡ true → i64_of_bits (i64_bits z) ≡ z
unfolding i64_bits i64_of_bits in_i64
i64_of_bits-i64_bits (ℤ.pos n) h = ground arith
i64_of_bits-i64_bits (ℤ.negsuc n) h = ground arith

-- Numbers that fit their widths.
abbrev pub ResultFits : ExecResultPayload → Type 0
ResultFits (ExecResultPayload.count n) = n < range u64
ResultFits (ExecResultPayload.integer z) = in_i64 z ≡ true
ResultFits (ExecResultPayload.scan page) = page.next_cursor < range u64
ResultFits _ = Unit {0}

module _ (b : Buf) where
  value_Trips : (v : Option (List ℕ)) → Trips (put_value b v) (value_reader b) v
  unfolding put_value value_reader
  value_Trips none = Trips-last (value_of b) (uint_Trips b u8 0 (omega arith)) (λ s. refl)
  value_Trips (some v) =
      Trips-& (value_of b) (uint_Trips b u8 1 (omega arith))
        (Trips-last _ (bytes_u32_Trips b v) (λ s. refl))

  value_list_Trips :
      (vs : List (Option (List ℕ)))
      → Trips (put_values b vs) (read_many (value_reader b) (length vs)) vs
  unfolding put_values read_many
  value_list_Trips [] = nil_Trips []
  value_list_Trips (v ∷ vs) =
      Trips-& _ (value_Trips v) (Trips-last _ (value_list_Trips vs) (λ s. refl))

  values_Trips : (vs : List (Option (List ℕ))) → Trips (encode_values b vs) (values_reader b) vs
  unfolding encode_values values_reader
  values_Trips vs = counted-Trips b _ u32 (length vs) (value_list_Trips vs)

  entries_Trips : (es : List (String × List ℕ)) → Trips (encode_entries b es) (entries_reader b) es
  unfolding encode_entries entries_reader
  entries_Trips es = counted-Trips b _ u32 (length es) (pairs_Trips b es)

  error_Trips : (e : ErrorPayload) → Trips (encode_error_payload b e) (error_reader b) e
  unfolding encode_error_payload error_reader
  error_Trips e = Trips-& _ (string_u16_Trips b e.code) (
      Trips-& _ (string_u16_Trips b e.name)
        (Trips-last _ (string_u32_Trips b e.message) (λ s. refl)))

  -- A page is the cursor and the counted keys, and has the twelve bytes that are asked for.
  encode_scan_page-twelve :
      (page : ScanPayload) {p : List ℕ} → encode_scan_page b page ≡ Result.ok p → 12 ≤ length p
  unfolding encode_scan_page counted
  encode_scan_page-twelve page {p} h = elim (Bool-cases (ltb (length page.keys) (range u32))) [
    | inr long ↦ absurd (refused (rw long at h))
    | inl short ↦ counted_twelve (rw short at h)
  ]
    where
      refused :
          (Result.err corrupted_payload >>= λ y. Result.ok (b.put u64 page.next_cursor ++ y))
            ≡ Result.ok p
          → ⊥
      refused e = cc

      counted_twelve :
          ((put_keys b page.keys >>= λ y. Result.ok (b.put u32 (length page.keys) ++ y)) >>= λ y.
          Result.ok (b.put u64 page.next_cursor ++ y))
            ≡ Result.ok p
          → 12 ≤ length p
      counted_twelve e =
          let (y, hy, k) =
            >>=-eq-ok (put_keys b page.keys >>= λ y. Result.ok (b.put u32 (length page.keys) ++ y))
              (λ y. Result.ok (b.put u64 page.next_cursor ++ y)) e in
          let (x, hx, l) =
            >>=-eq-ok (put_keys b page.keys) (λ y. Result.ok (b.put u32 (length page.keys) ++ y))
              hy in
          let same : p ≡ b.put u64 page.next_cursor ++ (b.put u32 (length page.keys) ++ x) = cc in
          rw same (
            omega (
              arith,
              b.length-put u64 page.next_cursor,
              b.length-put u32 (length page.keys),
              length-append (b.put u64 page.next_cursor) (b.put u32 (length page.keys) ++ x),
              length-append (b.put u32 (length page.keys)) x,
            ))

  -- The same counted keys, read with no check before their number.
  unchecked_keys_Trips :
      (keys : List String)
      → Trips
          (counted b u32 (length keys) (put_keys b keys))
          (then_read (get_uint b u32) λ n. read_many (read_string_u16 b) n)
          keys
  unfolding counted
  unchecked_keys_Trips keys = elim (Bool-cases (ltb (length keys) (range u32))) [
    | inl fits ↦
        rw fits
          (Trips-& _ (unchecked_Trips b u32 (length keys) (ltb→lt _ _ fits)) (keys_Trips b keys))
    | inr long ↦ rw long (record { trip = λ p rest h. cc })
  ]

  scan_page_Trips :
      (page : ScanPayload)
      → page.next_cursor < range u64
      → Trips (encode_scan_page b page) (scan_page_reader b) page
  unfolding encode_scan_page scan_page_reader
  scan_page_Trips page fits = record {
    trip = λ p rest e.
        >>=-ok (need 12) _ (p ++ rest) (
          need_ok 12 (p ++ rest)
            (omega (arith, encode_scan_page-twelve page e, length-append p rest)))
        ∙ (Trips-& _ (unchecked_Trips b u64 page.next_cursor fits)
              (Trips-last _ (unchecked_keys_Trips page.keys) (λ s. refl))).trip
            p rest e;
  }

  result_Trips :
      (r : ExecResultPayload) → ResultFits r → Trips (encode_exec_result b r) (result_reader b) r
  unfolding encode_exec_result result_reader result_of
  result_Trips ExecResultPayload.ok h =
      Trips-last (result_of b) (uint_Trips b u8 0 (omega arith)) (λ s. refl)
  result_Trips ExecResultPayload.not_found h =
      Trips-last (result_of b) (uint_Trips b u8 1 (omega arith)) (λ s. refl)
  result_Trips (ExecResultPayload.value v) h =
      Trips-& (result_of b) (uint_Trips b u8 2 (omega arith))
        (Trips-last _ (bytes_u32_Trips b v) (λ s. refl))
  result_Trips (ExecResultPayload.boolean x) h =
      Trips-& (result_of b) (uint_Trips b u8 3 (omega arith))
        (Trips-last _ (bool_Trips b x) (λ s. refl))
  result_Trips (ExecResultPayload.count n) h =
      Trips-& (result_of b) (uint_Trips b u8 4 (omega arith))
        (Trips-last _ (uint_Trips b u64 n h) (λ s. refl))
  result_Trips (ExecResultPayload.integer z) h =
      Trips-& (result_of b) (uint_Trips b u8 5 (omega arith)) (
        Trips-last _ (uint_Trips b u64 (i64_bits z) (i64_bits-lt z h))
          (λ s. rw (i64_of_bits-i64_bits z h) refl))
  result_Trips (ExecResultPayload.entries es) h =
      Trips-& (result_of b) (uint_Trips b u8 6 (omega arith))
        (Trips-last _ (entries_Trips es) (λ s. refl))
  result_Trips (ExecResultPayload.strings vs) h =
      Trips-& (result_of b) (uint_Trips b u8 7 (omega arith))
        (Trips-last _ (values_Trips vs) (λ s. refl))
  result_Trips (ExecResultPayload.scan page) h =
      Trips-& (result_of b) (uint_Trips b u8 8 (omega arith))
        (Trips-last _ (scan_page_Trips page h) (λ s. refl))

  results_Trips :
      (rs : List ExecResultPayload)
      → All ResultFits rs
      → Trips (put_results b rs) (read_many (result_reader b) (length rs)) rs
  unfolding put_results read_many
  results_Trips [] h = nil_Trips []
  results_Trips (r ∷ rs) h =
      Trips-& _ (result_Trips r h.0) (Trips-last _ (results_Trips rs h.1) (λ s. refl))

  -- What a payload was encoded to stands in the response.
  answer-ok :
      (id : List ℕ) (status : Status) (e : Encoded) {r : Response}
      → answer id status e ≡ Result.ok r
      → e ≡ Result.ok r.payload
  answer-ok id status (Result.ok p) h = cc
  answer-ok id status (Result.err x) h = cc

  -- The results of an EXEC, of every type, come back in their order, if their numbers fit their widths.
  pub decode_exec_results-exec_results :
      (id : List ℕ) (rs : List ExecResultPayload) (r : Response)
      → All ResultFits rs
      → exec_results b id rs ≡ Result.ok r
      → decode_exec_results b r ≡ Result.ok rs
  unfolding exec_results encode_exec_results decode_exec_results results_reader
  decode_exec_results-exec_results id rs r fits h =
      whole-Trips (counted-Trips b _ u32 (length rs) (results_Trips rs fits)) r.payload
        (answer-ok id Status.ok _ h)

  pub decode_error-error_response :
      (id : List ℕ) (e : ErrorPayload) (r : Response)
      → error_response b id e ≡ Result.ok r
      → decode_error b r ≡ Result.ok e
  unfolding error_response decode_error
  decode_error-error_response id e r h =
      whole-Trips (error_Trips e) r.payload (answer-ok id Status.error _ h)
