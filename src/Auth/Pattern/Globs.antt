-- ===== src/Auth/Pattern/Globs.antt =====
-- The patterns of grants in crates/server/src/auth/pattern.rs beside the patterns of SCAN in
-- crates/engine/src/engine/core.rs.
use vaylix.Prelude.{
  ℕ, Bool-cases, inl, inr, ◌≡◌, refl, Bool, true, false, ◌&&◌, not, none, List, [], ◌∷◌, ◌++◌, ◌==◌,
  arith,
}
use vaylix.Engine.Wildcard.Glob.{glob}
use vaylix.Auth.Pattern.{
  star, same_text, starts_with, ends_with, split_star, wildcard_matches, pattern_covers,
}
use vaylix.Auth.Pattern.Cover.{
  star_free, same_text-≡, trim_stars-append, grant-matches, star_matches,
}

-- A text with no character that SCAN reads as a wildcard.
abbrev pub is_literal : List ℕ → Bool
is_literal [] = true
is_literal (c ∷ text) = (not (c == star) && not (c == b'?')) && is_literal text

-- A key, or the keys with a beginning: a text without star and question mark, with or without one
-- star behind it.
pub data IsSimple : List ℕ → Type 0 where
  exact : (p : List ℕ) → is_literal p ≡ true → IsSimple p
  prefix : (p : List ℕ) → is_literal p ≡ true → IsSimple (p ++ (star ∷ []))

star_free-is_literal : (p : List ℕ) → is_literal p ≡ true → star_free p ≡ true
star_free-is_literal [] h = refl
star_free-is_literal (c ∷ p) h = ground (arith, star_free-is_literal p)

glob-literal : (p key : List ℕ) → is_literal p ≡ true → glob p key ≡ true → same_text p key ≡ true
unfolding glob same_text
glob-literal [] [] h g = refl
glob-literal [] (t ∷ key) h g = cc
glob-literal (c ∷ p) [] h g = ground arith
glob-literal (c ∷ p) (t ∷ key) h g = ground (arith, glob-literal p key)

-- What SCAN matches begins with every literal beginning of its pattern.
glob-starts_with :
    (p requested key : List ℕ)
    → is_literal p ≡ true
    → starts_with requested p ≡ true
    → glob requested key ≡ true
    → starts_with key p ≡ true
unfolding glob starts_with
glob-starts_with [] requested key h s g = refl
glob-starts_with (c ∷ p) [] key h s g = cc
glob-starts_with (c ∷ p) (d ∷ requested) [] h s g = ground arith
glob-starts_with (c ∷ p) (d ∷ requested) (t ∷ key) h s g =
    ground (arith, glob-starts_with p requested key)

split_star_literal : (p : List ℕ) → is_literal p ≡ true → split_star p ≡ none
unfolding split_star
split_star_literal [] h = refl
split_star_literal (c ∷ p) h = ground (arith, split_star_literal p)

exact-matches :
    (p key : List ℕ) → is_literal p ≡ true → same_text p key ≡ true → wildcard_matches p key ≡ true
unfolding wildcard_matches
exact-matches p key h s = ground (arith, split_star_literal p h)

ends_with_literal : (p : List ℕ) → is_literal p ≡ true → ends_with p (star ∷ []) ≡ false
unfolding ends_with same_text
ends_with_literal [] h = refl
ends_with_literal (c ∷ p) h = ground (arith, ends_with_literal p)

starts_with-append : (p text : List ℕ) → starts_with (p ++ text) p ≡ true
unfolding starts_with
starts_with-append [] text = refl
starts_with-append (c ∷ p) text = ground (arith, starts_with-append p text)

exact_covers :
    (p requested key : List ℕ)
    → is_literal p ≡ true
    → pattern_covers p requested ≡ true
    → glob requested key ≡ true
    → wildcard_matches p key ≡ true
unfolding pattern_covers
exact_covers p requested key h c g = elim (Bool-cases (same_text p (star ∷ []))) [
  | inl all ↦ star_matches p key all
  | inr one ↦
      let same : p ≡ requested =
        same_text-≡ p requested (ground (arith, one, ends_with_literal p h)) in
      exact-matches p key h (glob-literal p key h (rw (same) g))
]

prefix_covers :
    (p requested key : List ℕ)
    → is_literal p ≡ true
    → pattern_covers (p ++ (star ∷ [])) requested ≡ true
    → glob requested key ≡ true
    → wildcard_matches (p ++ (star ∷ [])) key ≡ true
unfolding pattern_covers
prefix_covers p requested key h c g =
    let grant = p ++ (star ∷ []) in
    let f = star_free-is_literal p h in
    elim (Bool-cases (same_text grant (star ∷ []))) [
      | inl all ↦ star_matches grant key all
      | inr one ↦ elim (Bool-cases (same_text grant requested)) [
        | inl e ↦
            let same : grant ≡ requested = same_text-≡ grant requested e in
            grant-matches p key f
              (glob-starts_with p grant key h (starts_with-append p (star ∷ [])) (rw (same) g))
        | inr other ↦ grant-matches p key f (
            glob-starts_with p requested key h (ground (arith, one, other, trim_stars-append p f))
              g)
      ]
    ]

-- When such a grant covers the pattern of a SCAN, it matches every key that the SCAN matches.
pub pattern_covers-glob :
    {grant : List ℕ} (requested key : List ℕ)
    → IsSimple grant
    → pattern_covers grant requested ≡ true
    → glob requested key ≡ true
    → wildcard_matches grant key ≡ true
pattern_covers-glob requested key (IsSimple.exact p h) c g = exact_covers p requested key h c g
pattern_covers-glob requested key (IsSimple.prefix p h) c g = prefix_covers p requested key h c g
