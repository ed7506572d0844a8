-- ===== src/Engine/Integer.antt =====
-- Rust's `i64` as the engine uses it: `str::parse::<i64>`, `to_string`, `checked_add` and
-- `checked_sub`, on values that are bytes. A text that is no UTF-8 is no integer either.
use mathlib.Core.Logic.{dite}
use mathlib.Core.WellFounded.{Acc}
use native.Mathlib.Decide.{dec_lt}
use vaylix.Prelude.{
  ℕ, zero, suc, ◌+◌, ◌-◌, ◌*◌, ◌/◌, ◌%◌, ◌^◌, ◌<◌, ◌≡◌, refl, Bool, ◌&&◌, Option, none, some, List,
  [], ◌∷◌, arith, ltb, leb, ◌==◌, if◌then◌else◌,
}
use vaylix.Prelude.Order.{lt_wf}

-- `negsuc n` is -(n + 1).
pub data ℤ : Type 0 where
  pos : ℕ → ℤ
  negsuc : ℕ → ℤ

-- The integers that an `i64` holds: -2^63 to 2^63 - 1.
unfoldable pub in_i64 : ℤ → Bool
in_i64 (pos n) = ltb n (2 ^ 63)
in_i64 (negsuc n) = ltb n (2 ^ 63)

abbrev checked : ℤ → Option ℤ
checked z = if in_i64 z then some z else none

-- n + 1 and n - 1, as integers.
abbrev succ : ℤ → ℤ
succ (pos n) = pos (n + 1)
succ (negsuc zero) = pos 0
succ (negsuc (suc n)) = negsuc n

abbrev prev : ℤ → ℤ
prev (pos zero) = negsuc 0
prev (pos (suc n)) = pos n
prev (negsuc n) = negsuc (n + 1)

-- a - b of two numbers, as an integer.
abbrev sub_ℕ : ℕ → ℕ → ℤ
sub_ℕ a b = if leb b a then pos (a - b) else negsuc (b - a - 1)

abbrev pos_part : ℤ → ℕ
pos_part (pos n) = n
pos_part (negsuc n) = 0

abbrev neg_part : ℤ → ℕ
neg_part (pos n) = 0
neg_part (negsuc n) = suc n

unfoldable pub checked_add : ℤ → ℤ → Option ℤ
unfolding in_i64
checked_add a b = checked (sub_ℕ (pos_part a + pos_part b) (neg_part a + neg_part b))

unfoldable pub checked_sub : ℤ → ℤ → Option ℤ
unfolding in_i64
checked_sub a b = checked (sub_ℕ (pos_part a + neg_part b) (neg_part a + pos_part b))

-- The digits of a decimal numeral, highest first. With no digit there is no number.
digits : ℕ → List ℕ → Option ℕ
digits n [] = some n
digits n (c ∷ rest) =
    let more = digits (n * 10 + (c - b'0')) rest in if leb b'0' c && leb c b'9' then more else none

unfoldable pub numeral : List ℕ → Option ℕ
unfolding digits
numeral [] = none
numeral (c ∷ rest) = digits 0 (c ∷ rest)

-- -n, as an integer.
abbrev negated : ℕ → ℤ
negated zero = pos 0
negated (suc n) = negsuc n

abbrev signed : (ℕ → ℤ) → Option ℕ → Option ℤ
signed sign none = none
signed sign (some n) = checked (sign n)

-- `text.parse::<i64>()`: an optional sign, then digits; `none` stands for any `ParseIntError`.
unfoldable pub parse_i64 : List ℕ → Option ℤ
unfolding numeral in_i64
parse_i64 [] = none
parse_i64 (c ∷ rest) =
    if c == b'-'
    then signed negated (numeral rest)
    else if c == b'+'
    then signed pos (numeral rest)
    else signed pos (numeral (c ∷ rest))

abbrev tenth_below : {n : ℕ} → 0 < n → n / 10 < n
tenth_below some_left = omega arith

-- The digits in front of a text, the last one first, until nothing is left of the number.
write_digits : (n : ℕ) → Acc ◌<◌ n → List ℕ → List ℕ
write_digits n (Acc.intro _ below) text =
    let rest = n / 10 in
    dite (dec_lt 0 n)
      (λ some_left. write_digits rest (below rest (tenth_below some_left)) ((b'0' + n % 10) ∷ text))
      λ _. text

decimal : ℕ → List ℕ
unfolding write_digits lt_wf dec_lt
decimal n = if n == 0 then b'0' ∷ [] else write_digits n (lt_wf.apply n) []

-- `next.to_string().into_bytes()`
unfoldable pub i64_to_string : ℤ → List ℕ
unfolding decimal
i64_to_string (pos n) = decimal n
i64_to_string (negsuc n) = b'-' ∷ decimal (suc n)

-- Adding -1 is subtracting 1: `CheckInteger` replays a decrement with the delta -1.
pub checked_add-neg_one : (a : ℤ) → checked_add a (negsuc 0) ≡ checked_sub a (pos 1)
unfolding checked_add checked_sub
checked_add-neg_one (pos n) = ground arith
checked_add-neg_one (negsuc n) = ground arith

-- The first two steps of a counter.
pub parse_zero : parse_i64 (b'0' ∷ []) ≡ some (pos 0)
unfolding parse_i64
parse_zero = refl

pub parse_one : parse_i64 (b'1' ∷ []) ≡ some (pos 1)
unfolding parse_i64
parse_one = refl

pub zero_plus_one : checked_add (pos 0) (pos 1) ≡ some (pos 1)
unfolding checked_add
zero_plus_one = refl

pub one_plus_one : checked_add (pos 1) (pos 1) ≡ some (pos 2)
unfolding checked_add
one_plus_one = refl

pub print_one : i64_to_string (pos 1) ≡ b'1' ∷ []
unfolding i64_to_string
print_one = refl

pub print_two : i64_to_string (pos 2) ≡ b'2' ∷ []
unfolding i64_to_string
print_two = refl
