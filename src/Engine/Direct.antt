-- ===== src/Engine/Direct.antt =====
-- The operations of `StorageEngine` outside a batch, crates/engine/src/engine/core.rs: each one purges,
-- chooses what to log, and appends it. `entry_ms` is the clock when the entry is built.
pub mod Agree
use vaylix.Prelude.{
  ℕ, ◌+◌, ◌*◌, String, Bool, true, false, ◌&&◌, ◌||◌, not, Option, none, some, List, [], ◌∷◌, ◌++◌,
  Result, ok, err, ◌>>=◌, ◌>>◌, ltb, leb, ◌==◌, length, saturating_add, saturating_mul,
  if◌then◌else◌,
}
use vaylix.Table.{Table, lookup, contains_key, insert}
use vaylix.Engine.Integer.{ℤ, pos, negsuc, checked_add, checked_sub}
use vaylix.Engine.Error.{EngineError}
use vaylix.Engine.Store
use vaylix.Engine.Store.{StoredValue, EngineStore, get_value, next_value_version}
use vaylix.Engine.State.{
  EngineState, WalOperation, purge_expired, parse_integer_value, or_overflow, ttl_for,
}
use vaylix.Engine.Command.{SetOptions, Expiration, ScanPage}
use vaylix.Engine.Scan.{keys_sorted, entries_sorted, matching, scan_page}
use vaylix.Engine.Transaction.{
  resolve_expiration, set_allowed, previous_value, previous_expiration, value_or_zero, values_of,
}
use vaylix.Engine.Log.{StorageEnv, Engine, append_and_apply}
use vaylix.Engine.Batch.{with_results, is_empty}

unfoldable pub purged : ℕ → Engine → Engine
purged now_ms engine = record engine { state = purge_expired now_ms engine.state }

-- `self.append_and_apply(operations)?; Ok(answer)`
unfoldable pub committed {ℓ} :
    {A : Type ℓ} → StorageEnv → ℕ → List WalOperation → A → Engine → Result EngineError A × Engine
committed env entry_ms ops answer engine =
    with_results answer (append_and_apply env entry_ms ops engine)

pub record SetOutcome : Type 0 where
  pub applied : Bool
  pub previous : Option (List ℕ)
  pub version : Option ℕ

abbrev previous_version : Option StoredValue → Option ℕ
previous_version none = none
previous_version (some e) = some e.version

-- A new expiration, or the deletion of a key whose time has passed.
unfoldable pub expiration_operation : String → ℕ → Expiration → WalOperation
expiration_operation k now_ms x =
    let t = resolve_expiration now_ms x in
    if leb t now_ms then WalOperation.delete k else WalOperation.expire k t

-- What follows the `Set` of a SET.
unfoldable pub set_tail : String → Option Expiration → Bool → Option ℕ → ℕ → List WalOperation
unfolding expiration_operation
set_tail k (some x) keep_ttl kept now_ms = expiration_operation k now_ms x ∷ []
set_tail k none true (some t) now_ms = WalOperation.expire k t ∷ []
set_tail k none true none now_ms = []
set_tail k none false kept now_ms = []

-- The option to answer the previous value is not read here.
unfoldable pub set_with_options :
    StorageEnv
    → ℕ
    → ℕ
    → String
    → List ℕ
    → SetOptions
    → Engine
    → Result EngineError SetOutcome × Engine
unfolding set_tail committed purged
set_with_options env now_ms entry_ms k v options engine =
    let live = purged now_ms engine in
    let old = lookup k live.state.store in
    let version = next_value_version old in
    let tail = set_tail k options.expiration options.keep_ttl (previous_expiration old) now_ms in
    let refused : SetOutcome = record {
      applied = false;
      previous = previous_value old;
      version = previous_version old;
    } in
    let done : SetOutcome = record {
      applied = true;
      previous = previous_value old;
      version = some version;
    } in
    if set_allowed options old
    then committed env entry_ms (WalOperation.set k v version ∷ tail) done live
    else (ok refused, live)

unfoldable pub get : ℕ → String → Engine → Option (List ℕ) × Engine
get now_ms k engine = let live = purged now_ms engine in (get_value k live.state.store, live)

unfoldable pub get_del :
    StorageEnv → ℕ → ℕ → String → Engine → Result EngineError (Option (List ℕ)) × Engine
unfolding committed purged
get_del env now_ms entry_ms k engine =
    let live = purged now_ms engine in
    elim (lookup k live.state.store) [
      | none ↦ (ok none, live)
      | some e ↦ committed env entry_ms (WalOperation.delete k ∷ []) (some e.value) live
    ]

abbrev is_some {ℓ} : {A : Type ℓ} → Option A → Bool
is_some none = false
is_some (some _) = true

unfoldable pub get_ex_operations :
    String → Option Expiration → Bool → Option ℕ → ℕ → List WalOperation
unfolding expiration_operation
get_ex_operations k (some x) persist kept now_ms = expiration_operation k now_ms x ∷ []
get_ex_operations k none persist kept now_ms =
    if persist && is_some kept then WalOperation.persist k ∷ [] else []

-- Nothing is appended when there is no operation.
unfoldable pub committed_some {ℓ} :
    {A : Type ℓ} → StorageEnv → ℕ → List WalOperation → A → Engine → Result EngineError A × Engine
unfolding committed
committed_some env entry_ms [] answer engine = (ok answer, engine)
committed_some env entry_ms (op ∷ ops) answer engine =
    committed env entry_ms (op ∷ ops) answer engine

unfoldable pub get_ex :
    StorageEnv
    → ℕ
    → ℕ
    → String
    → Option Expiration
    → Bool
    → Engine
    → Result EngineError (Option (List ℕ)) × Engine
unfolding get_ex_operations committed_some purged
get_ex env now_ms entry_ms k expiration persist engine =
    let live = purged now_ms engine in
    elim (lookup k live.state.store) [
      | none ↦ (ok none, live)
      | some e ↦
          committed_some env entry_ms
            (get_ex_operations k expiration persist e.expires_at_ms now_ms) (some e.value) live
    ]

unfoldable pub mget : ℕ → List String → Engine → List (Option (List ℕ)) × Engine
mget now_ms keys engine = let live = purged now_ms engine in (values_of keys live.state.store, live)

abbrev pub version_or_next : Option ℕ → Option StoredValue → ℕ
version_or_next (some n) old = n
version_or_next none old = next_value_version old

-- `next_versions` holds the version after those given out to a key.
unfoldable pub mset_operations : EngineStore → Table ℕ → List (String × List ℕ) → List WalOperation
mset_operations store next_versions [] = []
mset_operations store next_versions ((k, v) ∷ entries) =
    let version = version_or_next (lookup k next_versions) (lookup k store) in
    WalOperation.set k v version
    ∷ mset_operations store (insert k (saturating_add version 1) next_versions) entries

-- MSET does not purge first.
unfoldable pub mset :
    StorageEnv → ℕ → List (String × List ℕ) → Engine → Result EngineError (Unit {0}) × Engine
unfolding mset_operations
mset env entry_ms entries engine =
    append_and_apply env entry_ms (mset_operations engine.state.store [] entries) engine

unfoldable pub count_present : List String → EngineStore → ℕ
count_present [] store = 0
count_present (k ∷ keys) store =
    let rest = count_present keys store in if contains_key k store then rest + 1 else rest

unfoldable pub delete_all : List String → List WalOperation
delete_all [] = []
delete_all (k ∷ keys) = WalOperation.delete k ∷ delete_all keys

-- The keys are counted before any is deleted, and all are logged.
unfoldable pub delete_many :
    StorageEnv → ℕ → ℕ → List String → Engine → Result EngineError ℕ × Engine
unfolding count_present delete_all committed purged
delete_many env now_ms entry_ms keys engine =
    let live = purged now_ms engine in
    let removed = count_present keys live.state.store in
    if removed == 0 then (ok 0, live) else committed env entry_ms (delete_all keys) removed live

-- INCR and DECR: the new number is computed first, and what is logged is the change.
unfoldable pub change_counter :
    (ℤ → Option ℤ) → ℤ → StorageEnv → ℕ → ℕ → String → Engine → Result EngineError ℤ × Engine
unfolding committed purged
change_counter step delta env now_ms entry_ms k engine =
    let live = purged now_ms engine in
    let next : Result EngineError ℤ =
      parse_integer_value k (value_or_zero (get_value k live.state.store)) >>= λ n.
      or_overflow k (step n) in
    elim next [
      | err e ↦ (err e, live)
      | ok n ↦ committed env entry_ms (WalOperation.check_integer k delta ∷ []) n live
    ]

unfoldable pub incr : StorageEnv → ℕ → ℕ → String → Engine → Result EngineError ℤ × Engine
unfolding change_counter
incr = change_counter (λ n. checked_add n (pos 1)) (pos 1)

unfoldable pub decr : StorageEnv → ℕ → ℕ → String → Engine → Result EngineError ℤ × Engine
unfolding change_counter
decr = change_counter (λ n. checked_sub n (pos 1)) (negsuc 0)

unfoldable pub expire : StorageEnv → ℕ → ℕ → String → ℕ → Engine → Result EngineError Bool × Engine
unfolding committed purged
expire env now_ms entry_ms k seconds engine =
    let live = purged now_ms engine in
    let t = saturating_add now_ms (saturating_mul seconds 1_000) in
    if not (contains_key k live.state.store)
    then (ok false, live)
    else if seconds == 0
    then committed env entry_ms (WalOperation.delete k ∷ []) true live
    else committed env entry_ms (WalOperation.expire k t ∷ []) true live

unfoldable pub persist : StorageEnv → ℕ → ℕ → String → Engine → Result EngineError Bool × Engine
unfolding committed purged
persist env now_ms entry_ms k engine =
    let live = purged now_ms engine in
    if not (contains_key k live.state.store) || not (is_some (Store.expiration k live.state.store))
    then (ok false, live)
    else committed env entry_ms (WalOperation.persist k ∷ []) true live

unfoldable pub rename_operations : String → String → StoredValue → EngineStore → List WalOperation
rename_operations source destination e store =
    let moved =
      WalOperation.delete source
      ∷ WalOperation.set destination e.value (next_value_version (lookup destination store))
      ∷ [] in
    elim e.expires_at_ms [
      | none ↦ moved
      | some t ↦ moved ++ (WalOperation.expire destination t ∷ [])
    ]

unfoldable pub rename :
    StorageEnv → ℕ → ℕ → String → String → Engine → Result EngineError Bool × Engine
unfolding rename_operations committed purged
rename env now_ms entry_ms source destination engine =
    let live = purged now_ms engine in
    elim (lookup source live.state.store) [
      | none ↦ (ok false, live)
      | some e ↦
          committed env entry_ms (rename_operations source destination e live.state.store) true live
    ]

-- The clock is read again by the inner RENAME.
unfoldable pub rename_nx :
    StorageEnv → ℕ → ℕ → ℕ → String → String → Engine → Result EngineError Bool × Engine
unfolding rename
rename_nx env now_ms later_ms entry_ms source destination engine =
    let live = purged now_ms engine in
    if contains_key destination live.state.store
    then (ok false, live)
    else rename env later_ms entry_ms source destination live

-- CLEAR does not purge first, and logs nothing on an empty store.
unfoldable pub clear : StorageEnv → ℕ → Engine → Result EngineError (Unit {0}) × Engine
unfolding is_empty
clear env entry_ms engine =
    if is_empty engine.state.store
    then (ok tt, engine)
    else append_and_apply env entry_ms (WalOperation.clear ∷ []) engine
