-- ===== src/Auth/Pattern.antt =====
-- crates/server/src/auth/pattern.rs, on the characters of the patterns. The star is one byte, so that
-- the source's byte indices fall between characters.
pub mod Cover
pub mod Globs
use vaylix.Prelude.{
  ℕ, Bool, true, false, ◌&&◌, ◌||◌, not, Option, none, some, List, [], ◌∷◌, ◌==◌, if◌then◌else◌,
}

abbrev pub star : ℕ
star = b'*'

-- `==` on strings
unfoldable pub same_text : List ℕ → List ℕ → Bool
same_text [] [] = true
same_text (c ∷ cs) (d ∷ ds) = c == d && same_text cs ds
same_text _ _ = false

unfoldable pub starts_with : List ℕ → List ℕ → Bool
starts_with text [] = true
starts_with [] (p ∷ prefix) = false
starts_with (c ∷ text) (p ∷ prefix) = c == p && starts_with text prefix

unfoldable pub ends_with : List ℕ → List ℕ → Bool
unfolding same_text
ends_with [] suffix = same_text [] suffix
ends_with (c ∷ text) suffix = same_text (c ∷ text) suffix || ends_with text suffix

-- What is in front of a character, and what is behind it.
abbrev behind : ℕ → Option (List ℕ × List ℕ) → Option (List ℕ × List ℕ)
behind c none = none
behind c (some (prefix, suffix)) = some (c ∷ prefix, suffix)

-- `find('*')` with `split_at` and the text after the star
unfoldable pub split_star : List ℕ → Option (List ℕ × List ℕ)
split_star [] = none
split_star (c ∷ text) =
    let rest = split_star text in if c == star then some ([], text) else behind c rest

unfoldable pub wildcard_matches : List ℕ → List ℕ → Bool
unfolding same_text starts_with ends_with split_star
wildcard_matches pattern value =
    if same_text pattern (star ∷ []) then true else elim (split_star pattern) [
      | none ↦ same_text pattern value
      | some (prefix, suffix) ↦ starts_with value prefix && ends_with value suffix
    ]

abbrev star_before : ℕ → List ℕ → List ℕ
star_before c [] = if c == star then [] else c ∷ []
star_before c (d ∷ text) = c ∷ d ∷ text

-- `trim_end_matches('*')`
unfoldable pub trim_stars : List ℕ → List ℕ
trim_stars [] = []
trim_stars (c ∷ text) = star_before c (trim_stars text)

unfoldable pub pattern_covers : List ℕ → List ℕ → Bool
unfolding same_text starts_with ends_with trim_stars
pattern_covers grant requested =
    same_text grant (star ∷ [])
    || same_text grant requested
    || (not (same_text requested (star ∷ []))
        && ends_with grant (star ∷ [])
        && starts_with requested (trim_stars grant))
