-- ===== src/Language/Lexer/Total.antt =====
-- The loops of crates/command/src/lexer.rs end.
use Prim.Native.Char.{Char, code}
use vaylix.Prelude.{
  ℕ, zero, suc, ◌-◌, ◌≤◌, ◌≡◌, ◌≢◌, String, Bool, true, false, Option, none, some, List, [], ◌∷◌,
  ok, err, Bool-cases, inl, inr, length, ◌==◌, arith,
}
use vaylix.Language.Lexer.{
  Token, Tokens, quote, backslash, is_space, with_quoted, with_token, after_quoted, or_unterminated,
  read_word, read_quoted, read_quoted_string, bytes_len, tokenize_loop, tokenize, unescape,
}

read_word-le : (cs : List Char) → length (read_word cs).1 ≤ length cs
unfolding read_word
read_word-le [] = omega arith
read_word-le (c ∷ cs) = ground (arith, read_word-le cs)

-- A word that starts takes a character.
read_word-lt :
    (c : Char) (cs : List Char)
    → is_space (code c) ≡ false
    → (code c == quote) ≡ false
    → length (read_word (c ∷ cs)).1 ≤ length cs
unfolding read_word
read_word-lt c cs h k = ground (arith, read_word-le cs)

-- Some text and its rest, which is shorter.
data Shorter (n : ℕ) : Option (String × List Char) → Type 0 where
  unclosed : Shorter n none
  closed : (s : String) (rest : List Char) → length rest ≤ n → Shorter n (some (s, rest))

with_quoted-Shorter :
    (n : ℕ) (c : Char) (o : Option (String × List Char))
    → Shorter n o
    → Shorter (suc n) (with_quoted c o)
with_quoted-Shorter n c none (unclosed) = unclosed
with_quoted-Shorter n c (some r) (closed s rest h) = closed (String.◌∷◌ c s) rest (omega arith)

weaken : (n : ℕ) (o : Option (String × List Char)) → Shorter n o → Shorter (suc n) o
weaken n none unclosed = unclosed
weaken n (some r) (closed s rest h) = closed s rest (omega arith)

read_quoted-Shorter :
    (escaped : Bool) (cs : List Char) → Shorter (length cs) (read_quoted escaped cs)
unfolding read_quoted
read_quoted-Shorter true [] = unclosed
read_quoted-Shorter false [] = unclosed
read_quoted-Shorter true (c ∷ cs) =
    with_quoted-Shorter (length cs) (unescape c) _ (read_quoted-Shorter false cs)
read_quoted-Shorter false (c ∷ cs) = elim (Bool-cases (code c == backslash)) [
  | inl e ↦ rw e (weaken (length cs) _ (read_quoted-Shorter true cs))
  | inr e ↦ rw e (elim (Bool-cases (code c == quote)) [
    | inl f ↦ rw f (closed String.[] cs (omega arith))
    | inr f ↦ rw f (with_quoted-Shorter (length cs) c _ (read_quoted-Shorter false cs))
  ])
]

with_token-ne-none : (t : Token) (ts : Tokens) → ts ≢ none → with_token t ts ≢ none
with_token-ne-none t none h = h
with_token-ne-none t (some (ok ts)) h = λ e. cc
with_token-ne-none t (some (err x)) h = λ e. cc

tokenize_loop-ne-none :
    (fuel total : ℕ) (cs : List Char) → length cs ≤ fuel → tokenize_loop fuel total cs ≢ none
unfolding tokenize_loop read_quoted_string
tokenize_loop-ne-none zero total [] h = λ e. cc
tokenize_loop-ne-none (suc fuel) total [] h = λ e. cc
tokenize_loop-ne-none zero total (c ∷ cs) h = absurd (omega arith)
tokenize_loop-ne-none (suc fuel) total (c ∷ cs) h = elim (Bool-cases (is_space (code c))) [
  | inl e ↦ rw e (tokenize_loop-ne-none fuel total cs (omega arith))
  | inr e ↦ rw e (elim (Bool-cases (code c == quote)) [
    | inl f ↦ rw f (
        by_quoted (λ rest k. tokenize_loop-ne-none fuel total rest k) (read_quoted false cs)
          (read_quoted-Shorter false cs))
    | inr f ↦ rw f (
        with_token-ne-none _ _ (
          tokenize_loop-ne-none fuel total (read_word (c ∷ cs)).1
            (omega (arith, read_word-lt c cs e f))))
  ])
]
  where
    by_quoted :
        ((rest : List Char) → length rest ≤ fuel → tokenize_loop fuel total rest ≢ none)
        → (o : Option (String × List Char)) → Shorter (length cs) o
        → after_quoted (tokenize_loop fuel total) (or_unterminated (total - bytes_len (c ∷ cs)) o)
          ≢ none
    by_quoted go none unclosed = λ e. cc
    by_quoted go (some r) (closed s rest k) =
        with_token-ne-none (Token.quoted_string s) (tokenize_loop fuel total rest)
          (go rest (omega arith))

-- `tokenize` ends on every input: as many rounds as the input has characters are enough.
pub tokenize-ne-none : (input : List Char) → tokenize input ≢ none
unfolding tokenize
tokenize-ne-none input = tokenize_loop-ne-none (length input) (bytes_len input) input (omega arith)
