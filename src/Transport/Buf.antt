-- ===== src/Transport/Buf.antt =====
-- The integers of the `bytes` crate, which crates/transport/src reads and writes through `Buf` and
-- `BufMut`, with what the code relies on; and the readers, which pass on the bytes that are left.
use vaylix.Prelude.{
  ℕ, ◌+◌, ◌*◌, ◌^◌, ◌≤◌, ◌<◌, ◌≡◌, refl, Option, none, some, List, [], ◌∷◌, ◌++◌, ok, err, length,
  ltb, if◌then◌else◌, arith,
}
use vaylix.Transport.Error.{TransportError, unexpected_eof, panic, Decoded, fail}

pub data Width : Type 0 where
  u8 u16 u32 u64 : Width

abbrev pub size : Width → ℕ
size u8 = 1
size u16 = 2
size u32 = 4
size u64 = 8

-- The number of values of that width.
abbrev pub range : Width → ℕ
range u8 = 256
range u16 = 2 ^ 16
range u32 = 2 ^ 32
range u64 = 2 ^ 64

-- `u64::from_be_bytes` and its like: the number of a run of bytes, highest first.
unfoldable pub from_be_bytes : ℕ → List ℕ → ℕ
from_be_bytes acc [] = acc
from_be_bytes acc (x ∷ bytes) = from_be_bytes (acc * 256 + x) bytes

-- `put_u8` to `put_u64` and `get_u8` to `get_u64`; a `get` from too few bytes panics, which is `none`.
pub record Buf : Type 0 where
  pub put : Width → ℕ → List ℕ
  pub get : Width → List ℕ → Option (ℕ × List ℕ)
  pub get-put :
      (w : Width) (n : ℕ) (rest : List ℕ) → n < range w → get w (put w n ++ rest) ≡ some (n, rest)
  pub length-put : (w : Width) (n : ℕ) → length (put w n) ≡ size w
  pub from_be-put : (w : Width) (n : ℕ) → n < range w → from_be_bytes 0 (put w n) ≡ n
  pub get_enough :
      (w : Width) (s : List ℕ)
      → size w ≤ length s
      → (n : ℕ) × (rest : List ℕ) × (get w s ≡ some (n, rest)) × (length rest + size w ≡ length s)
  pub get_short : (w : Width) (s : List ℕ) → length s < size w → get w s ≡ none

abbrev pub Reader {ℓ} : Type ℓ → Type ℓ
Reader A = List ℕ → Decoded (A × List ℕ)

abbrev pub pure {ℓ} : {A : Type ℓ} → A → Reader A
pure a s = ok (a, s)

infixl 10 ◌>>=◌ ◌>>◌
abbrev pub ◌>>=◌ {ℓ κ} : {A : Type ℓ} {B : Type κ} → Reader A → (A → Reader B) → Reader B
◌>>=◌ m f s = elim (m s) [ ok (a, rest) ↦ f a rest | err e ↦ err e ]

abbrev pub ◌>>◌ {ℓ κ} : {A : Type ℓ} {B : Type κ} → Reader A → Reader B → Reader B
m >> k = m >>= λ _. k

abbrev pub failed {ℓ} : {A : Type ℓ} → TransportError → Reader A
failed e s = fail e

-- A chain goes on from what its first reader has read.
pub >>=-ok {ℓ κ} :
    {A : Type ℓ} {B : Type κ} (m : Reader A) (f : A → Reader B) (s : List ℕ) {a : A} {rest : List ℕ}
    → m s ≡ ok (a, rest)
    → (m >>= f) s ≡ f a rest
>>=-ok m f s e = rw (e, ◌>>=◌) refl

-- `if buf.remaining() < n { return Err(UnexpectedEof) }`
unfoldable pub need : ℕ → Reader (Unit {0})
need n s = if ltb (length s) n then fail unexpected_eof else ok (tt, s)

pub need_ok : (n : ℕ) (s : List ℕ) → n ≤ length s → need n s ≡ ok (tt, s)
unfolding need
need_ok n s h = ground arith

abbrev pub or_panic {ℓ} : {A : Type ℓ} → Option A → Decoded A
or_panic none = err panic
or_panic (some a) = ok a

module _ (b : Buf) where
  -- `buf.get_u8()` and the others, with no check before them.
  unfoldable pub get_uint : Width → Reader ℕ
  get_uint w s = or_panic (b.get w s)

  -- The read of an integer after the check.
  unfoldable pub read_uint : Width → Reader ℕ
  read_uint w = need (size w) >> get_uint w
