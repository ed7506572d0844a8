-- ===== src/Transport/Primitives/RoundTrip.antt =====
-- What the primitives of crates/transport/src/request/primitives.rs wrote is read back.
use vaylix.Prelude.{
  ℕ, ◌<◌, ◌≡◌, refl, ◌∙◌, String, Bool, true, false, List, [], ◌∷◌, ◌++◌, ok, length, length-append,
  take, drop, append_assoc, arith,
}
use vaylix.Text.{as_bytes}
use vaylix.Text.RoundTrip.{from_utf8-as_bytes}
use vaylix.Transport.Buf.{
  Width, u8, u16, u32, size, range, Buf, >>=-ok, need_ok, need, read_uint, get_uint,
}
use vaylix.Transport.Primitives.{
  take_bytes, utf8_text, read_string, byte_of, put_bytes, put_string_u16, put_bytes_u32,
  put_string_u32, read_string_u16, read_string_u32, read_bytes_u32, read_bool,
}

pub take-append : (xs rest : List ℕ) → take (length xs) (xs ++ rest) ≡ xs
take-append [] rest = refl
take-append (x ∷ xs) rest = cc (take-append xs rest)

pub drop-append : (xs rest : List ℕ) → drop (length xs) (xs ++ rest) ≡ rest
drop-append [] rest = refl
drop-append (x ∷ xs) rest = drop-append xs rest

pub take_bytes-append : (xs rest : List ℕ) → take_bytes (length xs) (xs ++ rest) ≡ ok (xs, rest)
unfolding take_bytes
take_bytes-append xs rest =
    >>=-ok (need (length xs)) _ _ (need_ok _ _ (omega (arith, length-append xs rest)))
    ∙ cc (take-append xs rest, drop-append xs rest)

pub read_string-as_bytes :
    (s : String) (rest : List ℕ)
    → read_string (length (as_bytes s)) (as_bytes s ++ rest) ≡ ok (s, rest)
unfolding read_string
read_string-as_bytes s rest =
    >>=-ok (take_bytes (length (as_bytes s))) _ _ (take_bytes-append (as_bytes s) rest)
    ∙ rw (from_utf8-as_bytes s, utf8_text) refl

module _ (b : Buf) where
  pub read_uint-put :
      (w : Width) (n : ℕ) (rest : List ℕ)
      → n < range w
      → read_uint b w (b.put w n ++ rest) ≡ ok (n, rest)
  unfolding read_uint get_uint
  read_uint-put w n rest h =
      >>=-ok (need (size w)) _ _
        (need_ok _ _ (omega (arith, length-append (b.put w n) rest, b.length-put w n)))
      ∙ rw (b.get-put w n rest h) refl

  -- The length that was written, and the bytes behind it.
  pub put_bytes-ok :
      (w : Width) (value : List ℕ) {p : List ℕ}
      → put_bytes b w value ≡ ok p
      → (length value < range w) × (p ≡ b.put w (length value) ++ value)
  unfolding put_bytes
  put_bytes-ok w value h = ground arith

  read_uint-put_bytes :
      (w : Width) (value rest : List ℕ) {p : List ℕ}
      → put_bytes b w value ≡ ok p
      → read_uint b w (p ++ rest) ≡ ok (length value, value ++ rest)
  read_uint-put_bytes w value rest h =
      let (fits, e) = put_bytes-ok w value h in
      rw (e, append_assoc) (read_uint-put w (length value) (value ++ rest) fits)

  module _ (rest : List ℕ) {p : List ℕ} where
    pub read_string_u16-put :
        (s : String) → put_string_u16 b s ≡ ok p → read_string_u16 b (p ++ rest) ≡ ok (s, rest)
    unfolding put_string_u16 read_string_u16
    read_string_u16-put s h =
        >>=-ok (read_uint b u16) _ _ (read_uint-put_bytes u16 (as_bytes s) rest h)
        ∙ read_string-as_bytes s rest

    pub read_string_u32-put :
        (s : String) → put_string_u32 b s ≡ ok p → read_string_u32 b (p ++ rest) ≡ ok (s, rest)
    unfolding put_string_u32 put_bytes_u32 read_string_u32
    read_string_u32-put s h =
        >>=-ok (read_uint b u32) _ _ (read_uint-put_bytes u32 (as_bytes s) rest h)
        ∙ read_string-as_bytes s rest

    pub read_bytes_u32-put :
        (value : List ℕ)
        → put_bytes_u32 b value ≡ ok p
        → read_bytes_u32 b (p ++ rest) ≡ ok (value, rest)
    unfolding put_bytes_u32 read_bytes_u32
    read_bytes_u32-put value h =
        >>=-ok (read_uint b u32) _ _ (read_uint-put_bytes u32 value rest h)
        ∙ take_bytes-append value rest

  pub read_bool-put :
      (x : Bool) (rest : List ℕ) → read_bool b (b.put u8 (byte_of x) ++ rest) ≡ ok (x, rest)
  unfolding read_bool
  read_bool-put true rest = >>=-ok (read_uint b u8) _ _ (read_uint-put u8 1 rest (omega arith))
  read_bool-put false rest = >>=-ok (read_uint b u8) _ _ (read_uint-put u8 0 rest (omega arith))
