-- ===== src/Language/Words.antt =====
-- The texts of tokens in crates/command/src/parser.rs: keywords in any case, and unsigned numbers.
use Prim.Native.Char.{Char, code}
use vaylix.Prelude.{
  ℕ, ◌+◌, ◌^◌, String, Bool, ◌&&◌, Option, none, some, List, [], ◌∷◌, Result, ok, err, leb, ltb,
  ◌==◌, str_eq, if◌then◌else◌,
}
use vaylix.Text.{as_bytes, from_u32}
use vaylix.Engine.Integer.{numeral}
use vaylix.Language.Error.{CommandError, invalid_arity, invalid_integer}
use vaylix.Language.Lexer.{Token}

abbrev or_same : Char → Option Char → Char
or_same c none = c
or_same c (some d) = d

unfoldable pub lower : Char → Char
unfolding from_u32
lower c = if leb 65 (code c) && leb (code c) 90 then or_same c (from_u32 (code c + 32)) else c

unfoldable pub to_ascii_lowercase : String → String
unfolding lower
to_ascii_lowercase String.[] = String.[]
to_ascii_lowercase (String.◌∷◌ c s) = String.◌∷◌ (lower c) (to_ascii_lowercase s)

unfoldable pub eq_ignore_ascii_case : String → String → Bool
unfolding to_ascii_lowercase
eq_ignore_ascii_case a b = str_eq (to_ascii_lowercase a) (to_ascii_lowercase b)

abbrev pub token_text : Token → String
token_text (Token.word s) = s
token_text (Token.quoted_string s) = s

-- The keyword that a token is.
unfoldable pub keyword : Token → String
unfolding to_ascii_lowercase
keyword t = to_ascii_lowercase (token_text t)

unfoldable pub is_word : String → Token → Bool
unfolding eq_ignore_ascii_case
is_word w t = eq_ignore_ascii_case (token_text t) w

abbrev within : ℕ → Option ℕ → Option ℕ
within limit none = none
within limit (some n) = if ltb n limit then some n else none

-- `str::parse` for an unsigned type with `limit` values: a `+` and digits.
unfoldable pub parse_unsigned : ℕ → List ℕ → Option ℕ
unfolding numeral
parse_unsigned limit [] = none
parse_unsigned limit (c ∷ rest) =
    within limit (if c == b'+' then numeral rest else numeral (c ∷ rest))

abbrev pub or_invalid_integer : String → Token → Option ℕ → Result CommandError ℕ
or_invalid_integer field t none = err (invalid_integer field (token_text t))
or_invalid_integer field t (some n) = ok n

unfoldable pub parse_u64 : String → Token → Result CommandError ℕ
unfolding parse_unsigned
parse_u64 field t = or_invalid_integer field t (parse_unsigned (2 ^ 64) (as_bytes (token_text t)))

unfoldable pub parse_u16 : String → Token → Result CommandError ℕ
unfolding parse_unsigned
parse_u16 field t = or_invalid_integer field t (parse_unsigned (2 ^ 16) (as_bytes (token_text t)))

-- `tokens.get(index + 1)`, and the number there.
unfoldable pub parse_following_u64 : List Token → String → String → Result CommandError ℕ
parse_following_u64 [] field usage = err (invalid_arity usage)
parse_following_u64 (t ∷ rest) field usage = parse_u64 field t

unfoldable pub parse_following_u16 : List Token → String → String → Result CommandError ℕ
parse_following_u16 [] field usage = err (invalid_arity usage)
parse_following_u16 (t ∷ rest) field usage = parse_u16 field t
