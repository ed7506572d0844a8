-- ===== src/Language/Lexer.antt =====
-- crates/command/src/lexer.rs: words and quoted texts.
pub mod Total
pub mod RoundTrip
use Prim.Native.Char.{Char, code, len_utf8}
use vaylix.Prelude.{
  ℕ, zero, suc, ◌+◌, ◌-◌, String, Bool, true, false, ◌||◌, Option, none, some, List, [], ◌∷◌,
  Result, ok, err, length, ◌==◌, if◌then◌else◌,
}
use vaylix.Language.Error.{CommandError, expected_opening_quote, unterminated_quoted_string}

pub data Token : Type 0 where
  word quoted_string : String → Token

abbrev pub quote : ℕ
quote = b'"'

abbrev pub backslash : ℕ
backslash = 92

abbrev pub is_space : ℕ → Bool
is_space c = c == 32 || c == 9 || c == 10 || c == 13

abbrev pub newline_char : Char
newline_char = "\n"

abbrev pub tab_char : Char
tab_char = "\t"

abbrev pub with_char : Char → String × List Char → String × List Char
with_char c (s, rest) = (String.◌∷◌ c s, rest)

-- The characters up to a space, a quote or the end.
unfoldable pub read_word : List Char → String × List Char
read_word [] = (String.[], [])
read_word (c ∷ chars) =
    if is_space (code c) || code c == quote
    then (String.[], c ∷ chars)
    else with_char c (read_word chars)

-- What an escaped character stands for.
unfoldable pub unescape : Char → Char
unescape c = if code c == b'n' then newline_char else if code c == b't' then tab_char else c

abbrev pub with_quoted : Char → Option (String × List Char) → Option (String × List Char)
with_quoted c none = none
with_quoted c (some r) = some (with_char c r)

-- The text up to the closing quote; `none` where there is none.
unfoldable pub read_quoted : Bool → List Char → Option (String × List Char)
unfolding unescape
read_quoted escaped [] = none
read_quoted true (c ∷ chars) = with_quoted (unescape c) (read_quoted false chars)
read_quoted false (c ∷ chars) =
    let escape = read_quoted true chars in
    let more = with_quoted c (read_quoted false chars) in
    if code c == backslash
    then escape
    else if code c == quote
    then some (String.[], chars)
    else more

abbrev pub or_unterminated :
    ℕ → Option (String × List Char) → Result CommandError (String × List Char)
or_unterminated start none = err (unterminated_quoted_string start)
or_unterminated start (some r) = ok r

-- `start` is the byte at which the quote stands.
unfoldable pub read_quoted_string : ℕ → List Char → Result CommandError (String × List Char)
read_quoted_string start [] = err expected_opening_quote
read_quoted_string start (c ∷ chars) =
    if code c == quote
    then or_unterminated start (read_quoted false chars)
    else err expected_opening_quote

unfoldable pub bytes_len : List Char → ℕ
bytes_len [] = 0
bytes_len (c ∷ chars) = len_utf8 c + bytes_len chars

-- `none` is an end of the fuel.
abbrev pub Tokens : Type 0
Tokens = Option (Result CommandError (List Token))

abbrev pub with_token : Token → Tokens → Tokens
with_token t none = none
with_token t (some (ok tokens)) = some (ok (t ∷ tokens))
with_token t (some (err e)) = some (err e)

abbrev pub after_quoted : (List Char → Tokens) → Result CommandError (String × List Char) → Tokens
after_quoted continue (ok (s, rest)) = with_token (Token.quoted_string s) (continue rest)
after_quoted continue (err e) = some (err e)

-- The loop, with the bytes of the whole input to know where a quote stands. Its rounds take a
-- character at least.
unfoldable pub tokenize_loop : ℕ → ℕ → List Char → Tokens
tokenize_loop fuel total [] = some (ok [])
tokenize_loop zero total (c ∷ chars) = none
tokenize_loop (suc fuel) total (c ∷ chars) =
    let space : Tokens = tokenize_loop fuel total chars in
    let start = total - bytes_len (c ∷ chars) in
    let quoted : Tokens =
      after_quoted (tokenize_loop fuel total) (read_quoted_string start (c ∷ chars)) in
    let plain : Tokens =
      (let (s, rest) = read_word (c ∷ chars) in
        with_token (Token.word s) (tokenize_loop fuel total rest)) in
    if is_space (code c) then space else if code c == quote then quoted else plain

unfoldable pub tokenize : List Char → Tokens
tokenize input = tokenize_loop (length input) (bytes_len input) input
