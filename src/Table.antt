-- ===== src/Table.antt =====
-- A map with text keys: the `DashMap` of the engine's store and the `BTreeMap`s of rollback plans
-- and of the replication state. A table is a list of pairs with distinct keys; what the program
-- reads of a map does not depend on the order of the list, or is sorted first.
pub mod Laws
use vaylix.Prelude.{
  String, Option, none, some, Bool, true, false, List, [], ◌∷◌, str_eq, if◌then◌else◌, not, keep,
}

abbrev pub Table {ℓ} : Type ℓ → Type ℓ
Table V = List (String × V)

module _ {ℓ} {V : Type ℓ} where
  -- m.get(k)
  unfoldable pub lookup : String → Table V → Option V
  lookup key [] = none
  lookup key ((other, value) ∷ table) = if str_eq other key then some value else lookup key table

  -- m.contains_key(k)
  unfoldable pub contains_key : String → Table V → Bool
  contains_key k m = elim (lookup k m) [ none ↦ false | some _ ↦ true ]

  -- m.insert(k, v)
  unfoldable pub insert : String → V → Table V → Table V
  insert key value [] = (key, value) ∷ []
  insert key value (pair ∷ table) =
      if str_eq pair.0 key then (key, value) ∷ table else pair ∷ insert key value table

  -- m.remove(k)
  unfoldable pub remove : String → Table V → Table V
  remove k [] = []
  remove k ((j, v) ∷ m) = let rest = remove k m in if str_eq j k then rest else (j, v) ∷ rest
