-- ===== src/Auth/Pattern/Cover.antt =====
-- What `pattern_covers` of crates/server/src/auth/pattern.rs means for `wildcard_matches`.
use vaylix.Prelude.{
  ℕ, Bool-cases, inl, inr, ◌≡◌, refl, Bool, true, false, ◌&&◌, not, Option, none, some, List, [],
  ◌∷◌, ◌++◌, ◌==◌, arith,
}
use vaylix.Auth.Pattern.{
  star, same_text, starts_with, ends_with, split_star, wildcard_matches, trim_stars, pattern_covers,
}

-- A text with no star.
abbrev pub star_free : List ℕ → Bool
star_free [] = true
star_free (c ∷ text) = not (c == star) && star_free text

pub same_text-≡ : (s t : List ℕ) → same_text s t ≡ true → s ≡ t
unfolding same_text
same_text-≡ [] [] h = refl
same_text-≡ [] (d ∷ t) h = cc
same_text-≡ (c ∷ s) [] h = cc
same_text-≡ (c ∷ s) (d ∷ t) h = ground (arith, same_text-≡ s t)

ends_with_nil : (text : List ℕ) → ends_with text [] ≡ true
unfolding ends_with same_text
ends_with_nil [] = refl
ends_with_nil (c ∷ text) = ends_with_nil text

starts_with_trans :
    (text p q : List ℕ)
    → starts_with text p ≡ true
    → starts_with p q ≡ true
    → starts_with text q ≡ true
unfolding starts_with
starts_with_trans text p [] h g = refl
starts_with_trans text [] (x ∷ q) h g = cc
starts_with_trans [] (y ∷ p) (x ∷ q) h g = cc
starts_with_trans (c ∷ text) (y ∷ p) (x ∷ q) h g = ground (arith, starts_with_trans text p q)

split_star-append : (p : List ℕ) → star_free p ≡ true → split_star (p ++ (star ∷ [])) ≡ some (p, [])
unfolding split_star
split_star-append [] h = refl
split_star-append (c ∷ p) h =
    let ih = split_star-append p (ground arith) in rw (ih, split_star) (ground arith)

pub trim_stars-append : (p : List ℕ) → star_free p ≡ true → trim_stars (p ++ (star ∷ [])) ≡ p
unfolding trim_stars
trim_stars-append [] h = refl
trim_stars-append (c ∷ []) h = ground arith
trim_stars-append (c ∷ d ∷ p) h =
    let ih = trim_stars-append (d ∷ p) (ground arith) in rw (ih, trim_stars) refl

-- What is in front of the first star begins with every star-free beginning.
split_star-starts_with :
    (text p prefix suffix : List ℕ)
    → split_star text ≡ some (prefix, suffix)
    → star_free p ≡ true
    → starts_with text p ≡ true
    → starts_with prefix p ≡ true
unfolding split_star starts_with
split_star-starts_with text [] prefix suffix s f h = refl
split_star-starts_with [] (x ∷ p) prefix suffix s f h = cc
split_star-starts_with (c ∷ text) (x ∷ p) prefix suffix s f h =
    go (split_star text) refl
      λ a b q. split_star-starts_with text p a b q (ground arith) (ground arith)
  where
    go :
        (o : Option (List ℕ × List ℕ))
        → split_star text ≡ o
        → ((a b : List ℕ) → split_star text ≡ some (a, b) → starts_with a p ≡ true)
        → starts_with prefix (x ∷ p) ≡ true
    go none q ih = absurd (ground (arith, q))
    go (some (a, b)) q ih =
        let e : prefix ≡ c ∷ a = ground (arith, q) in rw (e, starts_with) (ground (arith, ih a b q))

-- A pattern with its one star at the end, as a matcher.
pub grant-matches :
    (p value : List ℕ)
    → star_free p ≡ true
    → starts_with value p ≡ true
    → wildcard_matches (p ++ (star ∷ [])) value ≡ true
unfolding wildcard_matches
grant-matches p value f h = ground (arith, split_star-append p f, ends_with_nil value)

-- A value that a pattern matches begins with every star-free beginning of the pattern.
matches-starts_with :
    (p requested value : List ℕ)
    → star_free p ≡ true
    → same_text requested (star ∷ []) ≡ false
    → starts_with requested p ≡ true
    → wildcard_matches requested value ≡ true
    → starts_with value p ≡ true
unfolding wildcard_matches
matches-starts_with p requested value f n h m = go (split_star requested) refl
  where
    go : (o : Option (List ℕ × List ℕ)) → split_star requested ≡ o → starts_with value p ≡ true
    go none q =
        let e : requested ≡ value = same_text-≡ requested value (ground (arith, q, m)) in rw⁻¹ (e) h
    go (some (a, b)) q =
        starts_with_trans value a p (ground (arith, q, m))
          (split_star-starts_with requested p a b q f h)

pub star_matches :
    (pattern value : List ℕ)
    → same_text pattern (star ∷ []) ≡ true
    → wildcard_matches pattern value ≡ true
unfolding wildcard_matches
star_matches pattern value h = rw (h, wildcard_matches) refl

-- When a grant with its one star at the end covers a requested pattern, it matches every value that
-- the requested pattern matches.
pub pattern_covers-wildcard_matches :
    (p requested value : List ℕ)
    → star_free p ≡ true
    → pattern_covers (p ++ (star ∷ [])) requested ≡ true
    → wildcard_matches requested value ≡ true
    → wildcard_matches (p ++ (star ∷ [])) value ≡ true
unfolding pattern_covers
pattern_covers-wildcard_matches p requested value f c m =
    let grant = p ++ (star ∷ []) in
    elim (Bool-cases (same_text grant (star ∷ []))) [
      | inl all ↦ star_matches grant value all
      | inr one ↦ elim (Bool-cases (same_text grant requested)) [
        | inl e ↦ let same : grant ≡ requested = same_text-≡ grant requested e in rw (same) m
        | inr other ↦ grant-matches p value f (
            matches-starts_with p requested value f (ground (arith, one, other))
              (ground (arith, one, other, trim_stars-append p f)) m)
      ]
    ]

-- For every character x but the star, the pattern `x*x` matches the text of a single x: the parts
-- around the star may overlap in the value.
pub wildcard_matches_overlap :
    (x : ℕ) → (x == star) ≡ false → wildcard_matches (x ∷ star ∷ x ∷ []) (x ∷ []) ≡ true
unfolding wildcard_matches split_star starts_with ends_with same_text
wildcard_matches_overlap x h = ground arith
