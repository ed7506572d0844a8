-- ===== src/Language/Lexer/RoundTrip.antt =====
-- What was written as words and quoted texts is read back by crates/command/src/lexer.rs.
use Prim.Native.Char.{Char, code}
use vaylix.Prelude.{
  ℕ, zero, suc, ◌≤◌, ◌≡◌, refl, String, false, ◌||◌, some, List, [], ◌∷◌, ◌++◌, ok, Bool-cases, inl,
  inr, length, length-append, All, ◌==◌, if◌then◌else◌, arith,
}
use vaylix.Language.Lexer.{
  Token, Tokens, quote, backslash, is_space, read_word, read_quoted, read_quoted_string, bytes_len,
  tokenize_loop, tokenize,
}

abbrev pub characters : String → List Char
characters String.[] = []
characters (String.◌∷◌ c s) = c ∷ characters s

abbrev quote_char : Char
quote_char = "\""

abbrev backslash_char : Char
backslash_char = "\\"

abbrev space_char : Char
space_char = " "

-- A quoted text has a backslash in front of each quote and each backslash.
unfoldable pub escape : List Char → List Char
escape [] = []
escape (c ∷ cs) =
    if code c == quote || code c == backslash then backslash_char ∷ c ∷ escape cs else c ∷ escape cs

-- The tokens as a line, with a space behind each.
unfoldable pub render : List Token → List Char
render [] = []
render (Token.word s ∷ tokens) = characters s ++ (space_char ∷ render tokens)
render (Token.quoted_string s ∷ tokens) =
    quote_char ∷ (escape (characters s) ++ (quote_char ∷ space_char ∷ render tokens))

-- A character that a word may have.
abbrev pub IsPlain : Char → Type 0
IsPlain c = (is_space (code c) ≡ false) × ((code c == quote) ≡ false)

abbrev pub IsWord : List Char → Type 0
IsWord [] = ⊥
IsWord (c ∷ cs) = IsPlain c × All IsPlain cs

-- A word is not empty, and has no space and no quote. A quoted text may be any.
abbrev pub IsToken : Token → Type 0
IsToken (Token.word s) = IsWord (characters s)
IsToken (Token.quoted_string s) = Unit {0}

read_word-append :
    (s : String) (rest : List Char)
    → All IsPlain (characters s)
    → read_word (characters s ++ (space_char ∷ rest)) ≡ (s, space_char ∷ rest)
unfolding read_word
read_word-append String.[] rest h = refl
read_word-append (String.◌∷◌ c s) rest h = rw (h.0.0, h.0.1) (rw (read_word-append s rest h.1) refl)

read_quoted-escape :
    (s : String) (rest : List Char)
    → read_quoted false (escape (characters s) ++ (quote_char ∷ rest)) ≡ some (s, rest)
unfolding read_quoted escape
read_quoted-escape String.[] rest = refl
read_quoted-escape (String.◌∷◌ c s) rest = elim (Bool-cases (code c == quote)) [
  | inl q ↦ ground (arith, q, read_quoted-escape s rest)
  | inr p ↦ elim (Bool-cases (code c == backslash)) [
    | inl q ↦ ground (arith, p, q, read_quoted-escape s rest)
    | inr q ↦ ground (arith, p, q, read_quoted-escape s rest)
  ]
]

module _ (total : ℕ) where
  -- A space is a round of its own.
  tokenize_loop_space :
      (fuel : ℕ) (r : List Char) (ts : Tokens)
      → ((f : ℕ) → length r ≤ f → tokenize_loop f total r ≡ ts)
      → length (space_char ∷ r) ≤ fuel
      → tokenize_loop fuel total (space_char ∷ r) ≡ ts
  unfolding tokenize_loop
  tokenize_loop_space zero r ts go h = absurd (omega arith)
  tokenize_loop_space (suc f) r ts go h = go f (omega arith)

  tokenize_loop_word :
      (fuel : ℕ) (s : String) (r : List Char) (ts : List Token)
      → IsWord (characters s)
      → ((f : ℕ) → length r ≤ f → tokenize_loop f total r ≡ some (ok ts))
      → length (characters s ++ (space_char ∷ r)) ≤ fuel
      → tokenize_loop fuel total (characters s ++ (space_char ∷ r)) ≡ some (ok (Token.word s ∷ ts))
  unfolding tokenize_loop
  tokenize_loop_word fuel String.[] r ts w go h = absurd w
  tokenize_loop_word zero (String.◌∷◌ c s) r ts w go h = absurd (omega arith)
  tokenize_loop_word (suc f) (String.◌∷◌ c s) r ts w go h =
      let read = read_word-append (String.◌∷◌ c s) r w in
      let more =
        tokenize_loop_space f r (some (ok ts)) go
          (omega (arith, length-append (characters s) (space_char ∷ r))) in
      rw (w.0.0, w.0.1) (rw read (rw more refl))

  tokenize_loop_quoted :
      (fuel : ℕ) (s : String) (r : List Char) (ts : List Token)
      → ((f : ℕ) → length r ≤ f → tokenize_loop f total r ≡ some (ok ts))
      → length (quote_char ∷ (escape (characters s) ++ (quote_char ∷ space_char ∷ r))) ≤ fuel
      → tokenize_loop fuel total
          (quote_char ∷ (escape (characters s) ++ (quote_char ∷ space_char ∷ r)))
        ≡ some (ok (Token.quoted_string s ∷ ts))
  unfolding tokenize_loop read_quoted_string
  tokenize_loop_quoted zero s r ts go h = absurd (omega arith)
  tokenize_loop_quoted (suc f) s r ts go h =
      let more =
        tokenize_loop_space f r (some (ok ts)) go
          (omega (arith, length-append (escape (characters s)) (quote_char ∷ space_char ∷ r))) in
      rw (read_quoted-escape s (space_char ∷ r)) (rw more refl)

  tokenize_loop-render :
      (ts : List Token) (fuel : ℕ)
      → All IsToken ts
      → length (render ts) ≤ fuel
      → tokenize_loop fuel total (render ts) ≡ some (ok ts)
  unfolding render
  tokenize_loop-render [] zero h k = unfold tokenize_loop in refl
  tokenize_loop-render [] (suc f) h k = unfold tokenize_loop in refl
  tokenize_loop-render (Token.word s ∷ ts) fuel h k =
      tokenize_loop_word fuel s (render ts) ts h.0 (λ f e. tokenize_loop-render ts f h.1 e) k
  tokenize_loop-render (Token.quoted_string s ∷ ts) fuel h k =
      tokenize_loop_quoted fuel s (render ts) ts (λ f e. tokenize_loop-render ts f h.1 e) k

-- The tokens of a line that was written from tokens are these tokens, quoted texts with quotes and
-- backslashes included.
pub tokenize-render : (ts : List Token) → All IsToken ts → tokenize (render ts) ≡ some (ok ts)
unfolding tokenize
tokenize-render ts h =
    tokenize_loop-render (bytes_len (render ts)) ts (length (render ts)) h (omega arith)
