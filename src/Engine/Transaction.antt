-- ===== src/Engine/Transaction.antt =====
-- `evaluate_transaction_command` of crates/engine/src/engine/core.rs: one data command on the state,
-- with the log operations that it pushes. An error leaves the state as the purge left it.
pub mod Replay
pub mod Steady
pub mod Frame
use vaylix.Prelude.{
  ℕ, ◌+◌, String, Bool, true, false, ◌&&◌, ◌||◌, not, Option, none, some, List, [], ◌∷◌, ◌++◌,
  Result, ok, err, ◌>>=◌, leb, ltb, ◌==◌, length, saturating_add, saturating_mul, if◌then◌else◌,
}
use vaylix.Text.{as_bytes}
use vaylix.Table.{lookup, contains_key, insert, remove}
use vaylix.Engine.Integer.{ℤ, pos, negsuc, i64_to_string, checked_add, checked_sub}
use vaylix.Engine.Error.{EngineError, unsupported_command}
use vaylix.Engine.Store
use vaylix.Engine.Store.{
  StoredValue, EngineStore, get_value, insert_value_with_version, set_expiration_if_present,
  next_value_version,
}
use vaylix.Engine.State.{
  EngineState, WalOperation, purge_expired, parse_integer_value, or_overflow, ttl_for,
}
use vaylix.Engine.Command.{
  Command, AdminCommand, SetOptions, SetCondition, Expiration, TransactionResult, nx, xx, ex, px,
}
use vaylix.Engine.Scan.{keys_sorted, entries_sorted, matching, scan_page}

pub record Evaluation : Type 0 where
  pub answer : Result EngineError TransactionResult
  pub state : EngineState
  pub operations : List WalOperation

unfoldable pub answered :
    TransactionResult → EngineState → EngineStore → List WalOperation → Evaluation
answered result state store ops = record {
  answer = ok result;
  state = record state { store = store };
  operations = ops;
}

-- An answer that changes nothing.
abbrev pub replied : TransactionResult → EngineState → Evaluation
replied result state = record { answer = ok result; state = state; operations = [] }

unfoldable pub resolve_expiration : ℕ → Expiration → ℕ
resolve_expiration now_ms (ex seconds) = saturating_add now_ms (saturating_mul seconds 1_000)
resolve_expiration now_ms (px millis) = saturating_add now_ms millis

abbrev value_or_not_found : Option (List ℕ) → TransactionResult
value_or_not_found none = TransactionResult.not_found
value_or_not_found (some v) = TransactionResult.value v

-- A new expiration: a key whose time has already passed is deleted instead.
unfoldable pub expire_or_delete : String → ℕ → ℕ → EngineStore → EngineStore × List WalOperation
expire_or_delete k now_ms t store =
    if leb t now_ms
    then (remove k store, WalOperation.delete k ∷ [])
    else ((set_expiration_if_present k t store).0, WalOperation.expire k t ∷ [])

unfoldable pub run_get_del : String → EngineState → Evaluation
unfolding answered
run_get_del k state = elim (lookup k state.store) [
  | none ↦ replied TransactionResult.not_found state
  | some e ↦
      answered (TransactionResult.value e.value) state (remove k state.store)
        (WalOperation.delete k ∷ [])
]

-- `*persist && state.clear_expiration(key)`
unfoldable pub persist_if : Bool → String → EngineStore → EngineStore × List WalOperation
persist_if false k store = (store, [])
persist_if true k store =
    let (store', cleared) = Store.clear_expiration k store in
    (store', if cleared then WalOperation.persist k ∷ [] else [])

unfoldable pub get_ex_store :
    String → Option Expiration → Bool → ℕ → EngineStore → EngineStore × List WalOperation
unfolding expire_or_delete persist_if
get_ex_store k none persist now_ms store = persist_if persist k store
get_ex_store k (some x) persist now_ms store =
    expire_or_delete k now_ms (resolve_expiration now_ms x) store

unfoldable pub run_get_ex : String → Option Expiration → Bool → ℕ → EngineState → Evaluation
unfolding answered get_ex_store
run_get_ex k expiration persist now_ms state = elim (lookup k state.store) [
  | none ↦ replied TransactionResult.not_found state
  | some e ↦
      let (store, ops) = get_ex_store k expiration persist now_ms state.store in
      answered (TransactionResult.value e.value) state store ops
]

-- The condition on the presence of the key, and on its version.
abbrev condition_holds : Option SetCondition → Option StoredValue → Bool
condition_holds none previous = true
condition_holds (some nx) none = true
condition_holds (some nx) (some e) = false
condition_holds (some xx) none = false
condition_holds (some xx) (some e) = true

abbrev version_holds : Option ℕ → Option StoredValue → Bool
version_holds none previous = true
version_holds (some n) none = false
version_holds (some n) (some e) = e.version == n

unfoldable pub set_allowed : SetOptions → Option StoredValue → Bool
set_allowed options previous =
    condition_holds options.condition previous && version_holds options.if_version previous

abbrev is_some {ℓ} : {A : Type ℓ} → Option A → Bool
is_some none = false
is_some (some _) = true

abbrev pub previous_value : Option StoredValue → Option (List ℕ)
previous_value none = none
previous_value (some e) = some e.value

abbrev pub previous_expiration : Option StoredValue → Option ℕ
previous_expiration none = none
previous_expiration (some e) = e.expires_at_ms

-- What SET answers, when it was applied or when it was not.
unfoldable pub set_answer : SetOptions → Option StoredValue → Bool → TransactionResult
set_answer options previous applied =
    if options.return_previous
    then value_or_not_found (previous_value previous)
    else if is_some options.condition || is_some options.if_version
    then TransactionResult.boolean applied
    else TransactionResult.ok

-- The second part of SET: a new expiration, or the old one under KEEPTTL.
unfoldable pub set_ttl :
    String → Option Expiration → Bool → Option ℕ → ℕ → EngineStore → EngineStore × List WalOperation
unfolding expire_or_delete
set_ttl k (some x) keep_ttl kept now_ms store =
    expire_or_delete k now_ms (resolve_expiration now_ms x) store
set_ttl k none true (some t) now_ms store =
    ((set_expiration_if_present k t store).0, WalOperation.expire k t ∷ [])
set_ttl k none true none now_ms store = (store, [])
set_ttl k none false kept now_ms store = (store, [])

unfoldable pub run_set : String → List ℕ → SetOptions → ℕ → EngineState → Evaluation
unfolding answered set_allowed set_answer set_ttl
run_set k v options now_ms state =
    let previous = lookup k state.store in
    let version = next_value_version previous in
    let written = insert_value_with_version k v version state.store in
    let (store, ops) =
      set_ttl k options.expiration options.keep_ttl (previous_expiration previous) now_ms written in
    if set_allowed options previous
    then answered (set_answer options previous true) state store
        (WalOperation.set k v version ∷ ops)
    else replied (set_answer options previous false) state

unfoldable pub run_set_nx : String → List ℕ → EngineState → Evaluation
unfolding answered
run_set_nx k v state =
    let version = next_value_version none in
    if contains_key k state.store
    then replied (TransactionResult.boolean false) state
    else answered (TransactionResult.boolean true) state
        (insert_value_with_version k v version state.store) (WalOperation.set k v version ∷ [])

unfoldable pub values_of : List String → EngineStore → List (Option (List ℕ))
values_of [] store = []
values_of (k ∷ keys) store = get_value k store ∷ values_of keys store

unfoldable pub mset_store : List (String × List ℕ) → EngineStore → EngineStore × List WalOperation
mset_store [] store = (store, [])
mset_store ((k, v) ∷ entries) store =
    let version = next_value_version (lookup k store) in
    let (store', ops) = mset_store entries (insert_value_with_version k v version store) in
    (store', WalOperation.set k v version ∷ ops)

unfoldable pub delete_store :
    List String → EngineStore → record { store : EngineStore; removed : ℕ; ops : List WalOperation }
delete_store [] store = record { store = store; removed = 0; ops = [] }
delete_store (k ∷ keys) store =
    let there = contains_key k store in
    let rest = delete_store keys (remove k store) in
    record {
      store = rest.store;
      removed = if there then rest.removed + 1 else rest.removed;
      ops = if there then WalOperation.delete k ∷ rest.ops else rest.ops;
    }

abbrev pub value_or_zero : Option (List ℕ) → List ℕ
value_or_zero none = b'0' ∷ []
value_or_zero (some v) = v

-- The end of INCR and DECR, once the new number is computed.
unfoldable pub counted : String → ℤ → EngineState → Result EngineError ℤ → Evaluation
unfolding answered
counted k delta state (err e) = record { answer = err e; state = state; operations = [] }
counted k delta state (ok n) =
    answered (TransactionResult.integer n) state
      (insert_value_with_version k (i64_to_string n) (next_value_version (lookup k state.store))
        state.store)
      (WalOperation.check_integer k delta ∷ [])

-- INCR and DECR: `step` is the checked addition or subtraction of 1, `delta` what is logged.
unfoldable pub run_counter : String → (ℤ → Option ℤ) → ℤ → EngineState → Evaluation
unfolding counted
run_counter k step delta state =
    counted k delta state (do
      n ← parse_integer_value k (value_or_zero (get_value k state.store))
      or_overflow k (step n))

unfoldable pub run_expire : String → ℕ → ℕ → EngineState → Evaluation
unfolding answered
run_expire k seconds now_ms state =
    let t = saturating_add now_ms (saturating_mul seconds 1_000) in
    if contains_key k state.store
    then (if seconds == 0
        then answered (TransactionResult.boolean true) state (remove k state.store)
            (WalOperation.delete k ∷ [])
        else answered (TransactionResult.boolean true) state
            (set_expiration_if_present k t state.store).0 (WalOperation.expire k t ∷ []))
    else replied (TransactionResult.boolean false) state

unfoldable pub run_persist : String → EngineState → Evaluation
unfolding answered persist_if
run_persist k state =
    let (store, cleared) = Store.clear_expiration k state.store in
    if contains_key k state.store
    then answered (TransactionResult.boolean cleared) state store
        (if cleared then WalOperation.persist k ∷ [] else [])
    else replied (TransactionResult.boolean false) state

-- The renamed entry keeps its expiration; its version follows that of the destination.
unfoldable pub rename_store :
    String → String → StoredValue → EngineStore → EngineStore × List WalOperation
rename_store source destination e store =
    let removed = remove source store in
    let version = next_value_version (lookup destination removed) in
    let written = insert_value_with_version destination e.value version removed in
    let ops = WalOperation.delete source ∷ WalOperation.set destination e.value version ∷ [] in
    elim e.expires_at_ms [
      | none ↦ (written, ops)
      | some t ↦ (
        (set_expiration_if_present destination t written).0,
        ops ++ (WalOperation.expire destination t ∷ []),
      )
    ]

unfoldable pub run_rename : String → String → EngineState → Evaluation
unfolding answered rename_store
run_rename source destination state = elim (lookup source state.store) [
  | none ↦ replied (TransactionResult.boolean false) state
  | some e ↦
      let (store, ops) = rename_store source destination e state.store in
      answered (TransactionResult.boolean true) state store ops
]

unfoldable pub run_clear : EngineState → Evaluation
unfolding answered
run_clear state = elim state.store [
  | [] ↦ replied TransactionResult.ok state
  | _ ∷ _ ↦ answered TransactionResult.ok state [] (WalOperation.clear ∷ [])
]

abbrev pong : List ℕ
pong = b'P' ∷ b'O' ∷ b'N' ∷ b'G' ∷ []

-- The `match` on the command, on a state that has been purged. SCAN and LIST purge the store once
-- more, TTL and the RENAME inside RENAMENX the state.
unfoldable pub run_command : Command → ℕ → EngineState → Evaluation
unfolding run_get_del run_get_ex run_set run_set_nx values_of mset_store delete_store run_counter
    run_expire run_persist run_rename run_clear
run_command (Command.ping none) now_ms state = replied (TransactionResult.value pong) state
run_command (Command.ping (some m)) now_ms state =
    replied (TransactionResult.value (as_bytes m)) state
run_command (Command.get k) now_ms state =
    replied (value_or_not_found (get_value k state.store)) state
run_command (Command.get_del k) now_ms state = run_get_del k state
run_command (Command.get_ex k x p) now_ms state = run_get_ex k x p now_ms state
run_command (Command.set k v options) now_ms state = run_set k v options now_ms state
run_command (Command.set_nx k v) now_ms state = run_set_nx k v state
run_command (Command.mget keys) now_ms state =
    replied (TransactionResult.strings (values_of keys state.store)) state
run_command (Command.mset entries) now_ms state =
    let (store, ops) = mset_store entries state.store in
    answered TransactionResult.ok state store ops
run_command (Command.delete keys) now_ms state =
    let run = delete_store keys state.store in
    answered (TransactionResult.count run.removed) state run.store run.ops
run_command (Command.exists k) now_ms state =
    replied (TransactionResult.boolean (contains_key k state.store)) state
run_command (Command.incr k) now_ms state = run_counter k (λ n. checked_add n (pos 1)) (pos 1) state
run_command (Command.decr k) now_ms state =
    run_counter k (λ n. checked_sub n (pos 1)) (negsuc 0) state
run_command (Command.expire k seconds) now_ms state = run_expire k seconds now_ms state
run_command (Command.ttl k) now_ms state =
    let (state', n) = ttl_for k now_ms state in replied (TransactionResult.integer n) state'
run_command (Command.persist k) now_ms state = run_persist k state
run_command (Command.rename source destination) now_ms state = run_rename source destination state
run_command (Command.rename_nx source destination) now_ms state =
    if contains_key destination state.store
    then replied (TransactionResult.boolean false) state
    else run_rename source destination (purge_expired now_ms state)
run_command (Command.scan cursor pattern count) now_ms state =
    let store = (Store.purge_expired now_ms state.store).0 in
    answered
      (TransactionResult.scan (scan_page cursor count (matching pattern (keys_sorted store)))) state
      store []
run_command Command.db_size now_ms state =
    replied (TransactionResult.count (length state.store)) state
run_command Command.count now_ms state =
    replied (TransactionResult.count (length state.store)) state
run_command Command.list now_ms state =
    let store = (Store.purge_expired now_ms state.store).0 in
    answered (TransactionResult.entries (entries_sorted store)) state store []
run_command Command.clear now_ms state = run_clear state
run_command (Command.administrative c) now_ms state = record {
  answer = err unsupported_command;
  state = state;
  operations = [];
}

unfoldable pub evaluate : Command → ℕ → EngineState → Evaluation
evaluate command now_ms state = run_command command now_ms (purge_expired now_ms state)
