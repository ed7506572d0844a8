-- ===== src/Auth/Authorize/Scans.antt =====
-- What a SCAN that crates/server/src/server/authorization.rs lets through reads of the engine.
use vaylix.Prelude.{
  ℕ, zero, suc, ◌+◌, ◌-◌, ◌≡◌, refl, ◌∙◌, sym, String, Bool, true, false, Option, none, some, List,
  [], ◌∷◌, ok, All, keep, take, drop, min, length, leb, arith, Bool-cases, inl, inr,
}
use vaylix.Engine.Command.{Command}
use vaylix.Engine.Wildcard.{chars, wildcard_matches}
use vaylix.Engine.Wildcard.Glob.{glob, wildcard_matches-glob}
use vaylix.Engine.Scan.{matching, scan_limit, scan_page}
use vaylix.Auth.Pattern.Globs.{IsSimple, pattern_covers-glob}
use vaylix.Auth.Grants.{
  Permission, PermissionGrant, Identity, allows_key, allows_pattern, any_matches, any_covers,
}
use vaylix.Auth.Authorize.{
  authorize_command, command_permission, command_pattern, command_keys, permitted, keyless_allowed,
  or_star,
}

abbrev pub IsSimpleGrant : PermissionGrant → Type 0
IsSimpleGrant g = IsSimple (chars g.pattern)

any_covers-matches :
    (permission : Permission) (requested key : List ℕ) (grants : List PermissionGrant)
    → All IsSimpleGrant grants
    → glob requested key ≡ true
    → any_covers permission requested grants ≡ true
    → any_matches permission key grants ≡ true
unfolding any_covers any_matches
any_covers-matches permission requested key [] simple g h = cc
any_covers-matches permission requested key (grant ∷ grants) simple g h = ground (
  arith,
  pattern_covers-glob requested key simple.0,
  any_covers-matches permission requested key grants simple.1 g,
)

allows_pattern-key :
    (identity : Identity) (permission : Permission) (pattern key : String)
    → All IsSimpleGrant identity.grants
    → allows_pattern identity permission pattern ≡ true
    → wildcard_matches pattern key ≡ true
    → allows_key identity permission key ≡ true
unfolding allows_pattern allows_key
allows_pattern-key identity permission pattern key simple h m =
    let g : glob (chars pattern) (chars key) ≡ true = sym (wildcard_matches-glob pattern key) ∙ m in
    ground
      (arith, h, any_covers-matches permission (chars pattern) (chars key) identity.grants simple g)

abbrev Readable : Identity → String → Type 0
Readable identity key = allows_key identity Permission.read key ≡ true

module _ {A : Type 0} (P : A → Type 0) where
  kept :
      (t : Bool) (x : A) (rest : List A)
      → (t ≡ true → P x)
      → All P rest
      → All P (elim t [ true ↦ x ∷ rest | false ↦ rest ])
  kept true x rest h r = (h refl, r)
  kept false x rest h r = r

  All-keep :
      (test : A → Bool) (xs : List A) → ((x : A) → test x ≡ true → P x) → All P (keep test xs)
  All-keep test [] h = tt
  All-keep test (x ∷ xs) h = kept (test x) x (keep test xs) (h x) (All-keep test xs h)

  All-take : (n : ℕ) (xs : List A) → All P xs → All P (take n xs)
  All-take zero xs h = tt
  All-take (suc n) [] h = tt
  All-take (suc n) (x ∷ xs) h = (h.0, All-take n xs h.1)

  All-drop : (n : ℕ) (xs : List A) → All P xs → All P (drop n xs)
  All-drop zero xs h = h
  All-drop (suc n) [] h = tt
  All-drop (suc n) (x ∷ xs) h = All-drop n xs h.1

scan_page-All :
    (P : String → Type 0) (cursor : ℕ) (count : Option ℕ) (keys : List String)
    → All P keys
    → All P (scan_page cursor count keys).keys
unfolding scan_page
scan_page-All P cursor count keys h =
    let next = min (cursor + scan_limit count) (length keys) in
    let page = All-take P (next - cursor) (drop cursor keys) (All-drop P cursor keys h) in
    elim (Bool-cases (leb (length keys) cursor)) [ inl e ↦ rw (e) tt | inr n ↦ rw (n) page ]

star_matches_all : (key : List ℕ) → glob (chars "*") key ≡ true
unfolding glob chars
star_matches_all [] = refl
star_matches_all (t ∷ key) = ground (arith, star_matches_all key)

-- A SCAN with no pattern is one with the pattern `*`.
matching-Readable :
    (identity : Identity) (pattern : Option String) (keys : List String)
    → All IsSimpleGrant identity.grants
    → allows_pattern identity Permission.read (or_star pattern) ≡ true
    → All (Readable identity) (matching pattern keys)
unfolding matching
matching-Readable identity (some pattern) keys simple h =
    All-keep (Readable identity) (wildcard_matches pattern) keys
      λ key. allows_pattern-key identity Permission.read pattern key simple h
matching-Readable identity none keys simple h = all keys
  where
    all : (keys : List String) → All (Readable identity) keys
    all [] = tt
    all (key ∷ keys) = (
      allows_pattern-key identity Permission.read "*" key simple h
          (wildcard_matches-glob "*" key ∙ star_matches_all (chars key)),
      all keys,
    )

authorized-allows_pattern :
    (identity : Identity) (cursor : ℕ) (pattern : Option String) (count : Option ℕ)
    → authorize_command (Command.scan cursor pattern count) (some identity) ≡ ok tt
    → allows_pattern identity Permission.read (or_star pattern) ≡ true
unfolding authorize_command command_permission command_pattern command_keys permitted
    keyless_allowed
authorized-allows_pattern identity cursor pattern count h = ground (arith, h)

-- Every key of the page that an authorized SCAN answers is a key that the identity may read, if each
-- of its grants is a key without star and question mark, or such a text with one star behind it. A
-- grant with a question mark is left out: for it this does not hold, since SCAN takes the mark for any
-- character and the check of a key does not.
pub authorize_command-scan_page :
    (identity : Identity) (cursor : ℕ) (pattern : Option String) (count : Option ℕ)
    (keys : List String)
    → All IsSimpleGrant identity.grants
    → authorize_command (Command.scan cursor pattern count) (some identity) ≡ ok tt
    → All
        (λ key. allows_key identity Permission.read key ≡ true)
        (scan_page cursor count (matching pattern keys)).keys
authorize_command-scan_page identity cursor pattern count keys simple h =
    scan_page-All (Readable identity) cursor count (matching pattern keys) (
      matching-Readable identity pattern keys simple
        (authorized-allows_pattern identity cursor pattern count h))
