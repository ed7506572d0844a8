-- ===== src/Text.antt =====
-- `str::as_bytes` and `String::from_utf8` of Rust's standard library, which the transport and the
-- command language use: the UTF-8 of a text and the text of a run of bytes.
pub mod RoundTrip
use Prim.Native.Nat.{compare, Ordering}
use Prim.Native.Char.{Char, char, code, IsLt, IsScalar}
use vaylix.Prelude.{
  ℕ, zero, suc, ◌+◌, ◌-◌, ◌*◌, ◌/◌, ◌%◌, String, Bool, ◌&&◌, Option, none, some, List, [], ◌∷◌,
  ◌++◌, ltb, leb, if◌then◌else◌,
}

-- `IsScalar` by its comparisons with the ends of the surrogates and the largest value.
abbrev BothBelow : Ordering → Ordering → Type 0
BothBelow Ordering.lt o = IsLt o
BothBelow Ordering.eq _ = ⊥
BothBelow Ordering.gt _ = ⊥

abbrev pub Scalar : Ordering → Ordering → Ordering → Type 0
Scalar Ordering.lt _ _ = Unit
Scalar Ordering.eq o p = BothBelow o p
Scalar Ordering.gt o p = BothBelow o p

unfoldable pub as_scalar : (a b c : Ordering) → Option (Scalar a b c)
as_scalar Ordering.lt b c = some tt
as_scalar Ordering.eq Ordering.lt Ordering.lt = some tt
as_scalar Ordering.gt Ordering.lt Ordering.lt = some tt
as_scalar a b c = none

abbrev pub with_proof : (n : ℕ) → Option (IsScalar n) → Option Char
with_proof n none = none
with_proof n (some p) = some (char n p)

-- `char::from_u32`
unfoldable pub from_u32 : ℕ → Option Char
unfolding as_scalar
from_u32 n = with_proof n (as_scalar (compare n 55296) (compare 57343 n) (compare n 1114112))

-- The UTF-8 of one character: one to four bytes.
unfoldable pub utf8_char : ℕ → List ℕ
utf8_char n =
    if ltb n 128
    then n ∷ []
    else if ltb n 2048
    then (192 + n / 64) ∷ (128 + n % 64) ∷ []
    else if ltb n 65536
    then (224 + n / 4096) ∷ (128 + n / 64 % 64) ∷ (128 + n % 64) ∷ []
    else (240 + n / 262144) ∷ (128 + n / 4096 % 64) ∷ (128 + n / 64 % 64) ∷ (128 + n % 64) ∷ []

unfoldable pub as_bytes : String → List ℕ
as_bytes String.[] = []
as_bytes (String.◌∷◌ c s) = utf8_char (code c) ++ as_bytes s

-- A character in front of the text that follows, if it is one.
abbrev pub emit : Option Char → Option String → Option String
emit none text = none
emit (some c) none = none
emit (some c) (some s) = some (String.◌∷◌ c s)

-- What the first byte of a character says of its length.
unfoldable pub by_lead {ℓ} : {A : Type ℓ} → ℕ → A → A → A → A → A → A
by_lead b bad one two three four =
    if ltb b 128
    then one
    else if leb 192 b && ltb b 224
    then two
    else if leb 224 b && ltb b 240
    then three
    else if leb 240 b && ltb b 248
    then four
    else bad

abbrev pub is_continuation : ℕ → Bool
is_continuation b = leb 128 b && ltb b 192

-- `more` bytes of a character are missing; `acc` holds its bits read before, and the character is at
-- least `least`.
unfoldable pub decode : ℕ → ℕ → ℕ → List ℕ → Option String
unfolding by_lead
decode zero acc least [] = some String.[]
decode (suc more) acc least [] = none
decode zero acc least (b ∷ bytes) =
    let one = emit (from_u32 b) (decode 0 0 0 bytes) in
    let two = decode 1 (b - 192) 128 bytes in
    let three = decode 2 (b - 224) 2048 bytes in
    let four = decode 3 (b - 240) 65536 bytes in by_lead b none one two three four
decode (suc zero) acc least (b ∷ bytes) =
    let value = acc * 64 + (b - 128) in
    let last = emit (from_u32 value) (decode 0 0 0 bytes) in
    if is_continuation b && leb least value then last else none
decode (suc (suc more)) acc least (b ∷ bytes) =
    let next = decode (suc more) (acc * 64 + (b - 128)) least bytes in
    if is_continuation b then next else none

unfoldable pub from_utf8 : List ℕ → Option String
unfolding decode
from_utf8 bytes = decode 0 0 0 bytes
