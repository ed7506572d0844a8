-- ===== src/Table/Laws.antt =====
-- What an insertion, a removal and a filter change, key by key.
use vaylix.Prelude.{
  String, ◌≡◌, refl, none, some, false, [], ◌∷◌, arith, eq_iff, str_eq, if◌then◌else◌,
}
use vaylix.Table.{Table, lookup, insert, remove}

module _ {ℓ} {V : Type ℓ} where
  pub lookup-insert :
      (k j : String) (new : V) (table : Table V)
      → lookup j (insert k new table) ≡ (if str_eq k j then some new else lookup j table)
  unfolding insert lookup
  lookup-insert k j new ((other, old) ∷ table) =
      ground (arith, lookup-insert k j new table, eq_iff other k, eq_iff other j, eq_iff k j)
  lookup-insert k j new [] = refl

  pub lookup-remove :
      (k j : String) (m : Table V)
      → lookup j (remove k m) ≡ (if str_eq k j then none else lookup j m)
  unfolding lookup remove
  lookup-remove k j [] = ground arith
  lookup-remove k j ((i, w) ∷ m) =
      ground (arith, eq_iff k j, eq_iff i k, eq_iff i j, lookup-remove k j m)

  -- No pair has the key.
  abbrev pub IsFresh : String → Table V → Type 0
  IsFresh k [] = Unit
  IsFresh k ((j, v) ∷ m) = (str_eq j k ≡ false) × IsFresh k m

  -- The keys are distinct, as in every `DashMap` and `BTreeMap`.
  abbrev pub IsMap : Table V → Type 0
  IsMap [] = Unit
  IsMap ((k, v) ∷ m) = IsFresh k m × IsMap m

  pub lookup-IsFresh : (k : String) (m : Table V) → IsFresh k m → lookup k m ≡ none
  unfolding lookup
  lookup-IsFresh k [] h = refl
  lookup-IsFresh k ((j, v) ∷ m) h = ground (arith, lookup-IsFresh k m)

module _ {ℓ} {V : Type ℓ} where
  IsFresh-insert :
      (j k : String) (v : V) (m : Table V)
      → str_eq k j ≡ false
      → IsFresh j m
      → IsFresh j (insert k v m)
  unfolding insert
  IsFresh-insert j k v [] h f = (h, tt)
  IsFresh-insert j k v ((i, w) ∷ m) h f = ground (arith, IsFresh-insert j k v m h)

  IsFresh-remove : (j k : String) (m : Table V) → IsFresh j m → IsFresh j (remove k m)
  unfolding remove
  IsFresh-remove j k [] f = tt
  IsFresh-remove j k ((i, w) ∷ m) f = ground (arith, IsFresh-remove j k m)

  pub IsMap-insert : (k : String) (v : V) (m : Table V) → IsMap m → IsMap (insert k v m)
  unfolding insert
  IsMap-insert k v [] h = (tt, tt)
  IsMap-insert k v ((i, w) ∷ m) h =
      ground (arith, IsMap-insert k v m, IsFresh-insert i k v m, eq_iff i k, eq_iff k i)

  pub IsMap-remove : (k : String) (m : Table V) → IsMap m → IsMap (remove k m)
  unfolding remove
  IsMap-remove k [] h = tt
  IsMap-remove k ((i, w) ∷ m) h = ground (arith, IsMap-remove k m, IsFresh-remove i k m)

  -- Writing back what is there, or removing what is not, changes nothing.
  pub insert-lookup : (k : String) (v : V) (m : Table V) → lookup k m ≡ some v → insert k v m ≡ m
  unfolding lookup insert
  insert-lookup k v [] h = cc
  insert-lookup k v ((i, w) ∷ m) h = ground (arith, insert-lookup k v m, eq_iff i k)

  pub remove_absent : (k : String) (m : Table V) → lookup k m ≡ none → remove k m ≡ m
  unfolding lookup remove
  remove_absent k [] h = refl
  remove_absent k ((i, w) ∷ m) h = ground (arith, remove_absent k m)

pub ruleset table_laws = (lookup-insert, lookup-remove)
