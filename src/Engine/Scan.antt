-- ===== src/Engine/Scan.antt =====
-- The sorted keys of crates/engine/src/engine/store.rs and the paging of `SCAN` in core.rs.
pub mod Walk
use Prim.Native.String.{compare}
use text.Mathlib.Text.{is_le}
use vaylix.Prelude.{
  ℕ, ◌+◌, ◌-◌, min, max, String, Bool, true, Option, none, some, List, [], ◌∷◌, leb, length, take,
  drop, keep, if◌then◌else◌,
}
use vaylix.Engine.Store.{EngineStore, StoredValue}
use vaylix.Engine.Command.{ScanPage}
use vaylix.Engine.Wildcard.{wildcard_matches}

-- `keys.sort()`
unfoldable pub insert_key : String → List String → List String
insert_key k [] = k ∷ []
insert_key k (j ∷ keys) = if is_le (compare k j) then k ∷ j ∷ keys else j ∷ insert_key k keys

unfoldable pub keys_sorted : EngineStore → List String
unfolding insert_key
keys_sorted [] = []
keys_sorted ((k, e) ∷ s) = insert_key k (keys_sorted s)

-- `entries.sort_by(|left, right| left.0.cmp(&right.0))`, which is stable
unfoldable pub insert_pair : String × List ℕ → List (String × List ℕ) → List (String × List ℕ)
insert_pair p [] = p ∷ []
insert_pair p (q ∷ pairs) =
    if is_le (compare p.0 q.0) then p ∷ q ∷ pairs else q ∷ insert_pair p pairs

unfoldable pub entries_sorted : EngineStore → List (String × List ℕ)
unfolding insert_pair
entries_sorted [] = []
entries_sorted ((k, e) ∷ s) = insert_pair (k, e.value) (entries_sorted s)

-- `keys.retain(…)`, when a pattern is given
unfoldable pub matching : Option String → List String → List String
unfolding wildcard_matches
matching none keys = keys
matching (some pattern) keys = keep (wildcard_matches pattern) keys

abbrev default_scan_count : ℕ
default_scan_count = 10

unfoldable pub scan_limit : Option ℕ → ℕ
scan_limit none = default_scan_count
scan_limit (some n) = max n 1

-- The page at a cursor. A cursor is a `u64`, and `usize` has 64 bits too. The source's separate
-- answer for no keys is the one for a cursor at or past the end.
unfoldable pub scan_page : ℕ → Option ℕ → List String → ScanPage
unfolding scan_limit
scan_page start count keys =
    let end = min (start + scan_limit count) (length keys) in
    if leb (length keys) start then record { next_cursor = 0; keys = [] } else record {
      next_cursor = if leb (length keys) end then 0 else end;
      keys = take (end - start) (drop start keys);
    }
