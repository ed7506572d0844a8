-- ===== src/Engine/Wildcard/Glob.antt =====
-- The table of `wildcard_matches` in crates/engine/src/engine/core.rs against a definition by
-- recursion: `*` stands for any run of characters, `?` for one, and another character for itself.
use vaylix.Prelude.{
  ℕ, suc, String, ◌≡◌, refl, ap, ◌∙◌, sym, Bool, true, false, ◌&&◌, ◌||◌, List, [], ◌∷◌, ◌==◌,
  arith, length, if◌then◌else◌,
}
use vaylix.Engine.Wildcard.{
  chars, cell, fill_row, next_row, all_false, fill_table, last_cell, wildcard_matches_chars,
  wildcard_matches,
}

-- Some suffix of the text passes.
abbrev pub any_suffix : (List ℕ → Bool) → List ℕ → Bool
any_suffix f [] = f []
any_suffix f (t ∷ text) = f (t ∷ text) || any_suffix f text

-- The text begins with a character that `p` stands for, and the rest passes.
abbrev pub one_then : ℕ → (List ℕ → Bool) → List ℕ → Bool
one_then p f [] = false
one_then p f (t ∷ text) = (p == b'?' || p == t) && f text

unfoldable pub glob : List ℕ → List ℕ → Bool
glob [] [] = true
glob [] (t ∷ text) = false
glob (p ∷ pattern) text =
    let rest = glob pattern in if p == b'*' then any_suffix rest text else one_then p rest text

-- Some column of the row is set whose remaining text matches the remaining pattern.
reach : List ℕ → List Bool → List ℕ → Bool
unfolding glob
reach pattern [] text = false
reach pattern (b ∷ row) [] = b && glob pattern []
reach pattern (b ∷ row) (t ∷ text) = (b && glob pattern (t ∷ text)) || reach pattern row text

-- The columns after the first.
abbrev reach_later : List ℕ → List Bool → List ℕ → Bool
reach_later pattern row [] = false
reach_later pattern row (t ∷ text) = reach pattern row text

reach-cons :
    (pattern : List ℕ) (b : Bool) (row : List Bool) (text : List ℕ)
    → reach pattern (b ∷ row) text ≡ ((b && glob pattern text) || reach_later pattern row text)
unfolding reach
reach-cons pattern true row [] = ground arith
reach-cons pattern false row [] = refl
reach-cons pattern b row (t ∷ text) = refl

glob-star :
    (p : ℕ) (pattern text : List ℕ)
    → (p == b'*') ≡ true
    → glob (p ∷ pattern) text ≡ any_suffix (glob pattern) text
unfolding glob
glob-star p pattern text h = rw (h) refl

glob-one :
    (p : ℕ) (pattern text : List ℕ)
    → (p == b'*') ≡ false
    → glob (p ∷ pattern) text ≡ one_then p (glob pattern) text
unfolding glob
glob-one p pattern text h = rw (h) refl

length-fill_row :
    (p : ℕ) (diagonal left : Bool) (previous : List Bool) (text : List ℕ)
    → length previous ≡ length text
    → length (fill_row p diagonal left previous text) ≡ length text
unfolding fill_row
length-fill_row p d l [] [] h = refl
length-fill_row p d l [] (t ∷ text) h = absurd (omega (arith, h))
length-fill_row p d l (a ∷ previous) [] h = absurd (omega (arith, h))
length-fill_row p d l (a ∷ previous) (t ∷ text) h =
    omega (arith, length-fill_row p a (cell p t d a l) previous text (omega (arith, h)))

or_false : (b : Bool) → (b || false) ≡ b
or_false true = refl
or_false false = refl

and_assoc : (a b c : Bool) → ((a && b) && c) ≡ (a && (b && c))
and_assoc true b c = refl
and_assoc false b c = refl

cell-one :
    (p t : ℕ) (diagonal above left : Bool)
    → (p == b'*') ≡ false
    → cell p t diagonal above left ≡ (diagonal && (p == b'?' || p == t))
unfolding cell
cell-one p t true a l s = rw (s, cell) (go (p == b'?') refl)
  where
    go :
        (q : Bool)
        → (p == b'?') ≡ q
        → (if p == b'?' then true else true && p == t) ≡ (p == b'?' || p == t)
    go true e = rw (e) refl
    go false e = rw (e) refl
cell-one p t false a l s = rw (s, cell) (go (p == b'?') refl)
  where
    go : (q : Bool) → (p == b'?') ≡ q → (if p == b'?' then false else false) ≡ false
    go true e = rw (e) refl
    go false e = rw (e) refl

module _ (p : ℕ) (pattern : List ℕ) where
  fill_row-star :
      (diagonal left : Bool) (previous : List Bool) (text : List ℕ)
      → (p == b'*') ≡ true
      → length previous ≡ length text
      → reach pattern (left ∷ fill_row p diagonal left previous text) text
        ≡ ((left && any_suffix (glob pattern) text) || reach_later (p ∷ pattern) previous text)
  unfolding fill_row reach cell
  fill_row-star d l [] [] s h = ground arith
  fill_row-star d l [] (t ∷ text) s h = absurd (omega (arith, h))
  fill_row-star d l (a ∷ previous) [] s h = absurd (omega (arith, h))
  fill_row-star d l (a ∷ previous) (t ∷ text) s h = ground (
    arith,
    fill_row-star a (cell p t d a l) previous text s (omega (arith, h)),
    reach-cons (p ∷ pattern) a previous text,
    glob-star p pattern text s,
  )

  fill_row-one :
      (diagonal left : Bool) (previous : List Bool) (text : List ℕ)
      → (p == b'*') ≡ false
      → length previous ≡ length text
      → reach pattern (left ∷ fill_row p diagonal left previous text) text ≡ (
          (left && glob pattern text)
          || ((diagonal && glob (p ∷ pattern) text) || reach_later (p ∷ pattern) previous text))
  unfolding fill_row reach cell
  fill_row-one d l [] [] s h = ground (arith, glob-one p pattern [] s)
  fill_row-one d l [] (t ∷ text) s h = absurd (omega (arith, h))
  fill_row-one d l (a ∷ previous) [] s h = absurd (omega (arith, h))
  fill_row-one d l (a ∷ previous) (t ∷ text) s h =
      let rest = glob pattern text in
      let later = glob (p ∷ pattern) (t ∷ text) in
      let here : (cell p t d a l && rest) ≡ (d && later) =
        ap (λ x. x && rest) (cell-one p t d a l s)
        ∙ and_assoc d (p == b'?' || p == t) rest
        ∙ ap (λ x. d && x) (sym (glob-one p pattern (t ∷ text) s)) in
      ap (λ x. (l && glob pattern (t ∷ text)) || x)
        (fill_row-one a (cell p t d a l) previous text s (omega (arith, h))
          ∙ ap
              (λ x.
                x || ((a && glob (p ∷ pattern) text) || reach_later (p ∷ pattern) previous text))
              here
          ∙ ap (λ x. (d && later) || x) (sym (reach-cons (p ∷ pattern) a previous text)))

  next_row-reach :
      (row : List Bool) (text : List ℕ)
      → length row ≡ suc (length text)
      → (reach pattern (next_row p row text) text ≡ reach (p ∷ pattern) row text)
        × (length (next_row p row text) ≡ suc (length text))
  unfolding next_row
  next_row-reach [] text h = absurd (omega (arith, h))
  next_row-reach (b ∷ row) text h =
      let same : length row ≡ length text = omega (arith, h) in
      let start = if p == b'*' then b else false in
      (
        ground (
          arith,
          fill_row-star b start row text,
          fill_row-one b start row text,
          reach-cons (p ∷ pattern) b row text,
          glob-star p pattern text,
        ),
        omega (arith, length-fill_row p b start row text same),
      )

last_cell-reach :
    (row : List Bool) (text : List ℕ)
    → length row ≡ suc (length text)
    → last_cell row ≡ reach [] row text
unfolding last_cell reach glob
last_cell-reach [] text h = absurd (omega (arith, h))
last_cell-reach (b ∷ []) [] h = ground arith
last_cell-reach (b ∷ []) (t ∷ text) h = absurd (omega (arith, h))
last_cell-reach (b ∷ c ∷ row) [] h = absurd (omega (arith, h))
last_cell-reach (b ∷ c ∷ row) (t ∷ text) h =
    ground (arith, last_cell-reach (c ∷ row) text (omega (arith, h)))

fill_table-reach :
    (pattern : List ℕ) (row : List Bool) (text : List ℕ)
    → length row ≡ suc (length text)
    → last_cell (fill_table pattern row text) ≡ reach pattern row text
unfolding fill_table
fill_table-reach [] row text h = last_cell-reach row text h
fill_table-reach (p ∷ pattern) row text h =
    let (same, long) = next_row-reach p pattern row text h in
    fill_table-reach pattern (next_row p row text) text long ∙ same

length-all_false : (text : List ℕ) → length (all_false text) ≡ length text
unfolding all_false
length-all_false [] = refl
length-all_false (t ∷ text) = omega (arith, length-all_false text)

reach-all_false : (pattern text later : List ℕ) → reach pattern (all_false text) later ≡ false
unfolding all_false reach
reach-all_false pattern [] later = refl
reach-all_false pattern (t ∷ text) [] = refl
reach-all_false pattern (t ∷ text) (u ∷ later) = reach-all_false pattern text later

-- The table decides the recursive matching, for every pattern and every text.
pub wildcard_matches_chars-glob :
    (pattern text : List ℕ) → wildcard_matches_chars pattern text ≡ glob pattern text
unfolding wildcard_matches_chars
wildcard_matches_chars-glob pattern text =
    fill_table-reach pattern (true ∷ all_false text) text (omega (arith, length-all_false text))
    ∙ start text
  where
    start : (text : List ℕ) → reach pattern (true ∷ all_false text) text ≡ glob pattern text
    start [] = ground (arith, reach-cons pattern true [] [])
    start (t ∷ text) =
        reach-cons pattern true (all_false (t ∷ text)) (t ∷ text)
        ∙ rw (reach-all_false pattern (t ∷ text) text) (or_false (glob pattern (t ∷ text)))

-- `wildcard_matches` is the recursive matching of the characters, for every pattern and text.
pub wildcard_matches-glob :
    (pattern text : String) → wildcard_matches pattern text ≡ glob (chars pattern) (chars text)
unfolding wildcard_matches
wildcard_matches-glob pattern text = wildcard_matches_chars-glob (chars pattern) (chars text)
