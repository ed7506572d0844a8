-- ===== src/Engine/Transaction/Replay.antt =====
-- The operations that a command logs, run on the store that it started from, give the store that it
-- left: what is written to the log is what happened in memory.
use mathlib.Core.Path.{fun_ext, subst}
use vaylix.Prelude.{
  ℕ, ◌≡◌, refl, String, Bool, true, false, Option, none, some, List, [], ◌∷◌, ok, arith,
  if◌then◌else◌,
}
use vaylix.Table.{lookup, contains_key, remove}
use vaylix.Table.Laws.{insert-lookup, remove_absent}
use vaylix.Engine.Integer.{ℤ, pos, negsuc, checked_add, checked_add-neg_one}
use vaylix.Engine.Store
use vaylix.Engine.Store.{
  StoredValue, EngineStore, get_value, insert_value_with_version, set_expiration_if_present,
  next_value_version,
}
use vaylix.Engine.Store.Purge.{IsLive, purge_expired-live}
use vaylix.Engine.State.{EngineState, WalOperation, purge_expired, run_operation, run_operations}
use vaylix.Engine.State.Live.{purge_expired-state_live, purge_expired-state_IsLive, ttl_for-live}
use vaylix.Engine.Command.{Command, SetOptions, Expiration, TransactionResult}
use vaylix.Engine.Transaction.{
  Evaluation, answered, replied, expire_or_delete, run_get_del, persist_if, get_ex_store,
  run_get_ex, set_ttl, run_set, run_set_nx, mset_store, delete_store, run_counter, run_expire,
  run_persist, rename_store, run_rename, run_clear, run_command, evaluate,
}

-- A pair of a new store and the operations that lead to it from `s`.
abbrev pub Logs : EngineStore → EngineStore × List WalOperation → Type 0
Logs s r = run_operations r.1 s ≡ ok r.0

-- The same for an evaluated command.
abbrev Replays : EngineState → Evaluation → Type 0
Replays state r = run_operations r.operations state.store ≡ ok r.state.store

expire_or_delete-Logs :
    (k : String) (now_ms t : ℕ) (s : EngineStore) → Logs s (expire_or_delete k now_ms t s)
unfolding expire_or_delete run_operations run_operation
expire_or_delete-Logs k now_ms t s = ground arith

-- A cleared expiration is logged, and where none was there the store is unchanged.
clear_expiration-same :
    (k : String) (s : EngineStore)
    → (Store.clear_expiration k s).1 ≡ false
    → (Store.clear_expiration k s).0 ≡ s
unfolding Store.clear_expiration
clear_expiration-same k s h = go (lookup k s) refl h
  where
    go :
        (o : Option StoredValue)
        → lookup k s ≡ o
        → (Store.clear_expiration k s).1 ≡ false
        → (Store.clear_expiration k s).0 ≡ s
    go none p q = rw (p, Store.clear_expiration)
    go (some e) p q = ground (arith, insert-lookup k e s)

persist_if-Logs : (b : Bool) (k : String) (s : EngineStore) → Logs s (persist_if b k s)
unfolding persist_if run_operations run_operation
persist_if-Logs false k s = refl
persist_if-Logs true k s = ground (arith, clear_expiration-same k s)

get_ex_store-Logs :
    (k : String) (x : Option Expiration) (b : Bool) (now_ms : ℕ) (s : EngineStore)
    → Logs s (get_ex_store k x b now_ms s)
unfolding get_ex_store
get_ex_store-Logs k none b now_ms s = persist_if-Logs b k s
get_ex_store-Logs k (some x) b now_ms s = expire_or_delete-Logs k now_ms _ s

set_ttl-Logs :
    (k : String) (x : Option Expiration) (b : Bool) (kept : Option ℕ) (now_ms : ℕ) (s : EngineStore)
    → Logs s (set_ttl k x b kept now_ms s)
unfolding set_ttl run_operations run_operation
set_ttl-Logs k (some x) b kept now_ms s = expire_or_delete-Logs k now_ms _ s
set_ttl-Logs k none true (some t) now_ms s = refl
set_ttl-Logs k none true none now_ms s = refl
set_ttl-Logs k none false kept now_ms s = refl

pub mset_store-Logs :
    (entries : List (String × List ℕ)) (s : EngineStore) → Logs s (mset_store entries s)
unfolding mset_store run_operations run_operation
mset_store-Logs [] s = refl
mset_store-Logs ((k, v) ∷ entries) s =
    mset_store-Logs entries (insert_value_with_version k v (next_value_version (lookup k s)) s)

delete_store-Logs :
    (keys : List String) (s : EngineStore)
    → run_operations (delete_store keys s).ops s ≡ ok (delete_store keys s).store
unfolding delete_store run_operations run_operation contains_key
delete_store-Logs [] s = refl
delete_store-Logs (k ∷ keys) s =
    ground (arith, delete_store-Logs keys (remove k s), remove_absent k s)

rename_store-Logs :
    (source destination : String) (e : StoredValue) (s : EngineStore)
    → Logs s (rename_store source destination e s)
unfolding rename_store run_operations run_operation
rename_store-Logs source destination e s = ground arith

module _ (state : EngineState) where
  run_get_del-Replays : (k : String) → Replays state (run_get_del k state)
  unfolding run_get_del answered run_operations run_operation
  run_get_del-Replays k = ground arith

  run_get_ex-Replays :
      (k : String) (x : Option Expiration) (b : Bool) (now_ms : ℕ)
      → Replays state (run_get_ex k x b now_ms state)
  unfolding run_get_ex answered run_operations
  run_get_ex-Replays k x b now_ms = ground (arith, get_ex_store-Logs k x b now_ms state.store)

  run_set-Replays :
      (k : String) (v : List ℕ) (options : SetOptions) (now_ms : ℕ)
      → Replays state (run_set k v options now_ms state)
  unfolding run_set answered run_operations run_operation
  run_set-Replays k v options now_ms =
      ground (arith, set_ttl-Logs k options.expiration options.keep_ttl _ now_ms _)

  run_set_nx-Replays : (k : String) (v : List ℕ) → Replays state (run_set_nx k v state)
  unfolding run_set_nx answered run_operations run_operation
  run_set_nx-Replays k v = ground arith

  run_expire-Replays : (k : String) (n now_ms : ℕ) → Replays state (run_expire k n now_ms state)
  unfolding run_expire answered run_operations run_operation
  run_expire-Replays k n now_ms = ground arith

  run_persist-Replays : (k : String) → Replays state (run_persist k state)
  unfolding run_persist answered run_operations run_operation
  run_persist-Replays k = ground (arith, clear_expiration-same k state.store)

  run_rename-Replays :
      (source destination : String) → Replays state (run_rename source destination state)
  unfolding run_rename answered run_operations
  run_rename-Replays source destination = go (lookup source state.store) refl
    where
      go :
          (o : Option StoredValue)
          → lookup source state.store ≡ o
          → Replays state (run_rename source destination state)
      go none p = rw (p, run_rename)
      go (some e) p = rw (p, run_rename) (rename_store-Logs source destination e state.store)

  run_clear-Replays : Replays state (run_clear state)
  unfolding run_clear answered run_operations run_operation
  run_clear-Replays = ground arith

  run_counter-Replays :
      (k : String) (delta : ℤ)
      → Replays state (run_counter k (λ n. checked_add n delta) delta state)
  unfolding run_counter answered run_operations run_operation get_value
  run_counter-Replays k delta = ground arith

  if-Replays :
      (r : Evaluation) (b : Bool)
      → Replays state r
      → Replays state (if b then replied (TransactionResult.boolean false) state else r)
  unfolding run_operations
  if-Replays r true h = refl
  if-Replays r false h = h

  run_command-Replays :
      (c : Command) (now_ms : ℕ)
      → IsLive now_ms state.store
      → Replays state (run_command c now_ms state)
  unfolding run_command run_operations
  run_command-Replays (Command.ping none) now_ms h = refl
  run_command-Replays (Command.ping (some m)) now_ms h = refl
  run_command-Replays (Command.get k) now_ms h = refl
  run_command-Replays (Command.get_del k) now_ms h = run_get_del-Replays k
  run_command-Replays (Command.get_ex k x p) now_ms h = run_get_ex-Replays k x p now_ms
  run_command-Replays (Command.set k v options) now_ms h = run_set-Replays k v options now_ms
  run_command-Replays (Command.set_nx k v) now_ms h = run_set_nx-Replays k v
  run_command-Replays (Command.mget keys) now_ms h = refl
  run_command-Replays (Command.mset entries) now_ms h = mset_store-Logs entries state.store
  run_command-Replays (Command.delete keys) now_ms h = delete_store-Logs keys state.store
  run_command-Replays (Command.exists k) now_ms h = refl
  run_command-Replays (Command.incr k) now_ms h = run_counter-Replays k (pos 1)
  run_command-Replays (Command.decr k) now_ms h =
      subst (λ step. Replays state (run_counter k step (negsuc 0) state))
        (fun_ext checked_add-neg_one) (run_counter-Replays k (negsuc 0))
  run_command-Replays (Command.expire k n) now_ms h = run_expire-Replays k n now_ms
  run_command-Replays (Command.ttl k) now_ms h = rw (ttl_for-live k now_ms state h)
  run_command-Replays (Command.persist k) now_ms h = run_persist-Replays k
  run_command-Replays (Command.rename source destination) now_ms h =
      run_rename-Replays source destination
  run_command-Replays (Command.rename_nx source destination) now_ms h =
      rw (purge_expired-state_live now_ms state h, run_command)
        (if-Replays _ (contains_key destination state.store)
          (run_rename-Replays source destination))
  run_command-Replays (Command.scan cursor pattern count) now_ms h =
      rw (purge_expired-live now_ms state.store h)
  run_command-Replays Command.db_size now_ms h = refl
  run_command-Replays Command.count now_ms h = refl
  run_command-Replays Command.list now_ms h = rw (purge_expired-live now_ms state.store h)
  run_command-Replays Command.clear now_ms h = run_clear-Replays
  run_command-Replays (Command.administrative c) now_ms h = refl

-- Whatever a command answers, running what it logged on the purged store gives the store that it
-- left in memory.
pub evaluate-Replays :
    (c : Command) (now_ms : ℕ) (state : EngineState)
    → run_operations (evaluate c now_ms state).operations (purge_expired now_ms state).store
      ≡ ok (evaluate c now_ms state).state.store
unfolding evaluate
evaluate-Replays c now_ms state =
    run_command-Replays (purge_expired now_ms state) c now_ms
      (purge_expired-state_IsLive now_ms state)
