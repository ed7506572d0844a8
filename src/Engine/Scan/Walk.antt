-- ===== src/Engine/Scan/Walk.antt =====
-- A client that follows the cursors of `SCAN` (crates/engine/src/engine/core.rs) while the keys stay
-- the same.
use vaylix.Prelude.{
  ℕ, zero, suc, ◌⊎◌, ◌+◌, ◌-◌, ◌≤◌, ◌<◌, ◌≡◌, refl, ap, sym, min, String, Option, none, some, List,
  [], ◌∷◌, ◌++◌, append-nil, arith, ◌==◌, length, take, drop, if◌then◌else◌,
}
use vaylix.Engine.Scan.{scan_limit, scan_page}

-- The keys of the pages, from a cursor to the page whose next cursor is 0.
pub walk : ℕ → ℕ → Option ℕ → List String → List String
unfolding scan_page
walk zero start count keys = []
walk (suc fuel) start count keys =
    let page = scan_page start count keys in
    let rest = walk fuel page.next_cursor count keys in
    if page.next_cursor == 0 then page.keys else page.keys ++ rest

module _ {ℓ} {A : Type ℓ} where
  drop_all : (n : ℕ) (xs : List A) → length xs ≤ n → drop n xs ≡ []
  drop_all zero [] h = refl
  drop_all zero (x ∷ xs) h = absurd (omega (arith, h))
  drop_all (suc n) [] h = refl
  drop_all (suc n) (x ∷ xs) h = drop_all n xs (omega (arith, h))

  take_nil : (n : ℕ) → ◌≡◌ {A = List A} (take n []) []
  take_nil zero = refl
  take_nil (suc n) = refl

  take-drop_0 : (n : ℕ) (xs : List A) → take n xs ++ drop n xs ≡ xs
  take-drop_0 zero xs = refl
  take-drop_0 (suc n) [] = refl
  take-drop_0 (suc n) (x ∷ xs) = ap (λ t. x ∷ t) (take-drop_0 n xs)

  take-drop : (m e d : ℕ) (xs : List A) → e ≡ m + d → take d (drop m xs) ++ drop e xs ≡ drop m xs
  take-drop zero e d xs h = let same : e ≡ d = omega (arith, h) in rw (same) (take-drop_0 d xs)
  take-drop (suc m) zero d xs h = absurd (omega (arith, h))
  take-drop (suc m) (suc e) d [] h = rw (take_nil d) refl
  take-drop (suc m) (suc e) d (x ∷ xs) h = take-drop m e d xs (omega (arith, h))

limit_positive : (count : Option ℕ) → 0 < scan_limit count
unfolding scan_limit
limit_positive none = omega arith
limit_positive (some n) = ground arith

-- A page at a cursor inside the keys: its keys, and those from the next cursor on.
scan_page-inside :
    (start : ℕ) (count : Option ℕ) (keys : List String)
    → start < length keys
    → ((scan_page start count keys).next_cursor ≡ 0)
        × ((scan_page start count keys).keys ≡ drop start keys)
      ⊎ (start < (scan_page start count keys).next_cursor)
        × ((scan_page start count keys).keys ++ drop (scan_page start count keys).next_cursor keys
            ≡ drop start keys)
unfolding scan_page
scan_page-inside start count keys h =
    let end = min (start + scan_limit count) (length keys) in
    let d = end - start in
    let all : take d (drop start keys) ++ drop end keys ≡ drop start keys =
      take-drop start end d keys (omega (arith, limit_positive count)) in
    let later : start < end = omega (arith, limit_positive count) in
    ground (arith, drop_all end keys, append-nil (take d (drop start keys)))

scan_page-outside :
    (start : ℕ) (count : Option ℕ) (keys : List String)
    → length keys ≤ start
    → ((scan_page start count keys).next_cursor ≡ 0) × ((scan_page start count keys).keys ≡ [])
unfolding scan_page
scan_page-outside start count keys h = ground arith

-- Following the cursors gives every key once, in order: from a cursor on, the pages
-- together are the keys from there on. As many pages as there are keys are enough.
pub walk-drop :
    (fuel start : ℕ) (count : Option ℕ) (keys : List String)
    → length keys ≤ start + fuel
    → walk fuel start count keys ≡ drop start keys
unfolding walk
walk-drop zero start count keys h = sym (drop_all start keys (omega (arith, h)))
walk-drop (suc fuel) start count keys h = ground (
  arith,
  walk-drop fuel (scan_page start count keys).next_cursor count keys,
  scan_page-inside start count keys,
  scan_page-outside start count keys,
  drop_all start keys,
)
