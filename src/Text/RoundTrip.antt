-- ===== src/Text/RoundTrip.antt =====
-- The text of the UTF-8 of a text, for crates/transport and crates/command.
use Prim.Native.Nat.{compare, Ordering}
use Prim.Native.Char.{Char, char, code}
use vaylix.Prelude.{
  ℕ, suc, ◌+◌, ◌-◌, ◌*◌, ◌/◌, ◌%◌, ◌≤◌, ◌<◌, ◌≡◌, ◌∙◌, refl, ap, String, Option, some, List, ◌∷◌,
  ◌++◌, leb, ◌&&◌, if◌then◌else◌, arith,
}
use vaylix.Text.{
  Scalar, as_scalar, with_proof, from_u32, utf8_char, as_bytes, emit, by_lead, is_continuation,
  decode, from_utf8,
}

as_scalar_lem : (a b c : Ordering) (p : Scalar a b c) → as_scalar a b c ≡ some p
unfolding as_scalar
as_scalar_lem Ordering.lt b c p = refl
as_scalar_lem Ordering.eq Ordering.lt Ordering.lt p = refl
as_scalar_lem Ordering.gt Ordering.lt Ordering.lt p = refl
as_scalar_lem Ordering.eq Ordering.lt Ordering.eq p = absurd p
as_scalar_lem Ordering.eq Ordering.lt Ordering.gt p = absurd p
as_scalar_lem Ordering.eq Ordering.eq c p = absurd p
as_scalar_lem Ordering.eq Ordering.gt c p = absurd p
as_scalar_lem Ordering.gt Ordering.lt Ordering.eq p = absurd p
as_scalar_lem Ordering.gt Ordering.lt Ordering.gt p = absurd p
as_scalar_lem Ordering.gt Ordering.eq c p = absurd p
as_scalar_lem Ordering.gt Ordering.gt c p = absurd p

from_u32-code : (c : Char) → from_u32 (code c) ≡ some c
unfolding from_u32
from_u32-code (char n p) =
    ap (with_proof n) (as_scalar_lem (compare n 55296) (compare 57343 n) (compare n 1114112) p)

below_of :
    (n : ℕ) (a b c : Ordering)
    → compare n 55296 ≡ a
    → compare n 1114112 ≡ c
    → Scalar a b c
    → n < 1114112
below_of n Ordering.lt b c h k p = ground arith
below_of n Ordering.eq Ordering.lt Ordering.lt h k p = ground arith
below_of n Ordering.gt Ordering.lt Ordering.lt h k p = ground arith
below_of n Ordering.eq Ordering.lt Ordering.eq h k p = absurd p
below_of n Ordering.eq Ordering.lt Ordering.gt h k p = absurd p
below_of n Ordering.eq Ordering.eq c h k p = absurd p
below_of n Ordering.eq Ordering.gt c h k p = absurd p
below_of n Ordering.gt Ordering.lt Ordering.eq h k p = absurd p
below_of n Ordering.gt Ordering.lt Ordering.gt h k p = absurd p
below_of n Ordering.gt Ordering.eq c h k p = absurd p
below_of n Ordering.gt Ordering.gt c h k p = absurd p

code-lt : (c : Char) → code c < 1114112
code-lt (char n p) = below_of n _ (compare 57343 n) _ refl refl p

-- The tests on a byte, at any outcomes.
module _ (x : ℕ) where
  by_lead2 : x < 32 → (b o t h f : Option String) → by_lead (192 + x) b o t h f ≡ t
  unfolding by_lead
  by_lead2 k b o t h f = ground arith

  by_lead3 : x < 16 → (b o t h f : Option String) → by_lead (224 + x) b o t h f ≡ h
  unfolding by_lead
  by_lead3 k b o t h f = ground arith

  by_lead4 : x < 8 → (b o t h f : Option String) → by_lead (240 + x) b o t h f ≡ f
  unfolding by_lead
  by_lead4 k b o t h f = ground arith

  taken :
      x < 64 → (next bad : Option String) → (if is_continuation (128 + x) then next else bad) ≡ next
  taken h next bad = ground arith

  taken_last :
      (acc least : ℕ)
      → x < 64
      → least ≤ acc * 64 + x
      → (last bad : Option String)
      → (if is_continuation (128 + x) && leb least (acc * 64 + (128 + x - 128)) then last else bad)
        ≡ last
  taken_last acc least h k last bad = ground arith

-- The steps of the decoder: the first byte of a character, a byte of its middle and the last one.
module _ (x : ℕ) (rest : List ℕ) where
  decode_lead2 : x < 32 → decode 0 0 0 ((192 + x) ∷ rest) ≡ decode 1 x 128 rest
  unfolding decode
  decode_lead2 h = by_lead2 _ h _ _ _ _ _ ∙ ap (λ (t : ℕ). decode 1 t 128 rest) (omega arith)

  decode_lead3 : x < 16 → decode 0 0 0 ((224 + x) ∷ rest) ≡ decode 2 x 2048 rest
  unfolding decode
  decode_lead3 h = by_lead3 _ h _ _ _ _ _ ∙ ap (λ (t : ℕ). decode 2 t 2048 rest) (omega arith)

  decode_lead4 : x < 8 → decode 0 0 0 ((240 + x) ∷ rest) ≡ decode 3 x 65536 rest
  unfolding decode
  decode_lead4 h = by_lead4 _ h _ _ _ _ _ ∙ ap (λ (t : ℕ). decode 3 t 65536 rest) (omega arith)

  decode_middle :
      (more acc least : ℕ)
      → x < 64
      → decode (suc (suc more)) acc least ((128 + x) ∷ rest)
        ≡ decode (suc more) (acc * 64 + x) least rest
  unfolding decode
  decode_middle more acc least h =
      taken x h _ _ ∙ ap (λ (t : ℕ). decode (suc more) (acc * 64 + t) least rest) (omega arith)

  decode_last :
      (acc least n : ℕ)
      → x < 64
      → acc * 64 + x ≡ n
      → least ≤ n
      → decode 1 acc least ((128 + x) ∷ rest) ≡ emit (from_u32 n) (decode 0 0 0 rest)
  unfolding decode
  decode_last acc least n h e k =
      taken_last x acc least h (omega arith) _ _
      ∙ ap (λ (t : ℕ). emit (from_u32 t) (decode 0 0 0 rest)) (omega arith)

-- One character in front of any bytes.
module _ (n : ℕ) (rest : List ℕ) where
  decode_four :
      2048 ≤ n
      → 65536 ≤ n
      → n < 1114112
      → decode 0 0 0
          ((240 + n / 262144) ∷ (128 + n / 4096 % 64) ∷ (128 + n / 64 % 64) ∷ (128 + n % 64) ∷ rest)
        ≡ emit (from_u32 n) (decode 0 0 0 rest)
  decode_four h k l =
      decode_lead4 _ _ (omega arith)
      ∙ decode_middle _ _ 1 _ _ (omega arith)
      ∙ decode_middle _ _ 0 _ _ (omega arith)
      ∙ decode_last _ rest _ _ n (omega arith) (omega arith) (omega arith)

  decode_three :
      2048 ≤ n
      → n < 65536
      → decode 0 0 0 ((224 + n / 4096) ∷ (128 + n / 64 % 64) ∷ (128 + n % 64) ∷ rest)
        ≡ emit (from_u32 n) (decode 0 0 0 rest)
  decode_three h k =
      decode_lead3 _ _ (omega arith)
      ∙ decode_middle _ _ 0 _ _ (omega arith)
      ∙ decode_last _ rest _ _ n (omega arith) (omega arith) (omega arith)

  decode_two :
      128 ≤ n
      → n < 2048
      → decode 0 0 0 ((192 + n / 64) ∷ (128 + n % 64) ∷ rest)
        ≡ emit (from_u32 n) (decode 0 0 0 rest)
  decode_two h k =
      decode_lead2 _ _ (omega arith)
      ∙ decode_last _ rest _ _ n (omega arith) (omega arith) (omega arith)

  decode_one : n < 128 → decode 0 0 0 (n ∷ rest) ≡ emit (from_u32 n) (decode 0 0 0 rest)
  unfolding decode
  decode_one h = ground arith

  decode-utf8_char :
      n < 1114112 → decode 0 0 0 (utf8_char n ++ rest) ≡ emit (from_u32 n) (decode 0 0 0 rest)
  unfolding utf8_char
  decode-utf8_char h = ground (arith, decode_one, decode_two, decode_three, decode_four)

as_bytes-decode : (s : String) → decode 0 0 0 (as_bytes s) ≡ some s
unfolding as_bytes
as_bytes-decode String.[] = unfold decode in refl
as_bytes-decode (String.◌∷◌ c s) =
    decode-utf8_char (code c) (as_bytes s) (code-lt c) ∙ rw (from_u32-code c, as_bytes-decode s)

-- The text of the bytes of a text is that text.
pub from_utf8-as_bytes : (s : String) → from_utf8 (as_bytes s) ≡ some s
unfolding from_utf8
from_utf8-as_bytes s = as_bytes-decode s
