-- ===== src/Engine/Store.antt =====
-- crates/engine/src/engine/store.rs: values with their expiration and version, and the operations
-- of the live keyspace. A method that changes the map returns it beside its result.
pub mod Purge
use vaylix.Prelude.{
  ℕ, ◌+◌, String, Bool, true, false, Option, none, some, List, [], ◌∷◌, map, leb, length, keep,
  saturating_add, if◌then◌else◌,
}
use vaylix.Table.{Table, lookup, contains_key, insert, remove}

pub record StoredValue : Type 0 where
  pub value : List ℕ
  pub expires_at_ms : Option ℕ
  pub version : ℕ

abbrev pub EngineStore : Type 0
EngineStore = Table StoredValue

-- `self.entries.get(key).map(|entry| entry.value().value.clone())`
unfoldable pub get_value : String → EngineStore → Option (List ℕ)
get_value k s = elim (lookup k s) [ none ↦ none | some e ↦ some e.value ]

unfoldable pub expiration : String → EngineStore → Option ℕ
expiration k s = elim (lookup k s) [ none ↦ none | some e ↦ e.expires_at_ms ]

unfoldable pub insert_value_with_version : String → List ℕ → ℕ → EngineStore → EngineStore
insert_value_with_version k v n s =
    insert k (record { value = v; expires_at_ms = none; version = n }) s

unfoldable pub set_expiration_if_present : String → ℕ → EngineStore → EngineStore × Bool
set_expiration_if_present k t s = elim (lookup k s) [
  | none ↦ (s, false)
  | some e ↦ (insert k (record e { expires_at_ms = some t }) s, true)
]

abbrev is_some {ℓ} : {A : Type ℓ} → Option A → Bool
is_some none = false
is_some (some _) = true

-- `entry.expires_at_ms.take().is_some()`
unfoldable pub clear_expiration : String → EngineStore → EngineStore × Bool
clear_expiration k s = elim (lookup k s) [
  | none ↦ (s, false)
  | some e ↦ (insert k (record e { expires_at_ms = none }) s, is_some e.expires_at_ms)
]

-- `expires_at_ms.is_some_and(|expires_at_ms| expires_at_ms <= now_ms)`
unfoldable pub expired : ℕ → StoredValue → Bool
expired now_ms e = elim e.expires_at_ms [ none ↦ false | some t ↦ leb t now_ms ]

unfoldable pub expired_keys : ℕ → EngineStore → List String
expired_keys now_ms [] = []
expired_keys now_ms ((k, e) ∷ s) =
    let rest = expired_keys now_ms s in if expired now_ms e then k ∷ rest else rest

-- The loop that removes the collected keys and counts those that were there.
unfoldable pub remove_all : List String → EngineStore → ℕ → EngineStore × ℕ
remove_all [] s removed = (s, removed)
remove_all (k ∷ ks) s removed =
    remove_all ks (remove k s) (if contains_key k s then removed + 1 else removed)

unfoldable pub purge_expired : ℕ → EngineStore → EngineStore × ℕ
purge_expired now_ms s = remove_all (expired_keys now_ms s) s 0

-- `next_value_version` of crates/engine/src/engine/core.rs
unfoldable pub next_value_version : Option StoredValue → ℕ
next_value_version none = 1
next_value_version (some e) = saturating_add e.version 1
