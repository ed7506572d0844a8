-- ===== src/Examples/Texts.antt =====
-- Tests of the functions on texts, numbers and wildcards, and instances of the theorems on patterns.
use vaylix.Prelude.{◌≡◌, refl, true, false, some, [], ◌∷◌}
use vaylix.Engine.Integer.{negsuc, parse_i64, i64_to_string}
use vaylix.Engine.Wildcard.{wildcard_matches}

parse_negative : parse_i64 (b'-' ∷ b'4' ∷ b'2' ∷ []) ≡ some (negsuc 41)
unfolding parse_i64
parse_negative = refl

print_negative : i64_to_string (negsuc 41) ≡ b'-' ∷ b'4' ∷ b'2' ∷ []
unfolding i64_to_string
print_negative = refl

star_prefix : wildcard_matches "user:*" "user:42" ≡ true
unfolding wildcard_matches
star_prefix = refl

question_mark : wildcard_matches "a?c" "ac" ≡ false
unfolding wildcard_matches
question_mark = refl
