-- ===== src/Engine/Wildcard.antt =====
-- `wildcard_matches` of crates/engine/src/engine/core.rs: the table is filled row by row, one row
-- for each character of the pattern. A row is a list with one entry for each prefix of the text.
pub mod Glob
use Prim.Native.Char.{code}
use Prim.Native.String
use vaylix.Prelude.{
  ℕ, String, ◌≡◌, refl, Bool, true, false, ◌&&◌, ◌||◌, List, [], ◌∷◌, ◌==◌, if◌then◌else◌,
}

-- `pattern.chars().collect()`
unfoldable pub chars : String → List ℕ
chars String.[] = []
chars (String.◌∷◌ c s) = code c ∷ chars s

-- dp[row][col] from dp[row - 1][col - 1], dp[row - 1][col] and dp[row][col - 1]
unfoldable pub cell : ℕ → ℕ → Bool → Bool → Bool → Bool
cell p t diagonal above left =
    if p == b'*' then above || left else if p == b'?' then diagonal else diagonal && p == t

-- The columns from 1 on; the first `Bool` is dp[row - 1][col - 1], the second dp[row][col - 1].
unfoldable pub fill_row : ℕ → Bool → Bool → List Bool → List ℕ → List Bool
fill_row p diagonal left (above ∷ previous) (t ∷ text) =
    let here = cell p t diagonal above left in here ∷ fill_row p above here previous text
fill_row p diagonal left _ _ = []

-- Column 0: dp[row][0] is dp[row - 1][0] under a star.
unfoldable pub next_row : ℕ → List Bool → List ℕ → List Bool
next_row p [] text = []
next_row p (first ∷ previous) text =
    let start = if p == b'*' then first else false in start ∷ fill_row p first start previous text

unfoldable pub all_false : List ℕ → List Bool
all_false [] = []
all_false (t ∷ text) = false ∷ all_false text

unfoldable pub fill_table : List ℕ → List Bool → List ℕ → List Bool
fill_table [] row text = row
fill_table (p ∷ pattern) row text = fill_table pattern (next_row p row text) text

unfoldable pub last_cell : List Bool → Bool
last_cell [] = false
last_cell (b ∷ []) = b
last_cell (b ∷ c ∷ row) = last_cell (c ∷ row)

unfoldable pub wildcard_matches_chars : List ℕ → List ℕ → Bool
unfolding cell fill_row next_row all_false fill_table last_cell
wildcard_matches_chars pattern text = last_cell (fill_table pattern (true ∷ all_false text) text)

unfoldable pub wildcard_matches : String → String → Bool
unfolding chars wildcard_matches_chars
wildcard_matches pattern text = wildcard_matches_chars (chars pattern) (chars text)
