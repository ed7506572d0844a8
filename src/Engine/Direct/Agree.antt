-- ===== src/Engine/Direct/Agree.antt =====
-- The direct operations of crates/engine/src/engine/core.rs against the commands of a transaction: what
-- they log, and the store that they leave.
use vaylix.Prelude.{
  ℕ, ◌≡◌, refl, ap, ◌∙◌, sym, String, Bool, true, false, Option, none, some, List, [], ◌∷◌, Result,
  ok, err, ◌>>=◌, arith, eq_iff, str_eq_refl, ◌==◌, saturating_add, saturating_mul, if◌then◌else◌,
}
use vaylix.Table.{Table, lookup, contains_key, insert, remove}
use vaylix.Table.Laws.{lookup-insert, lookup-remove, remove_absent}
use vaylix.Engine.Integer.{ℤ, pos, checked_add}
use vaylix.Engine.Error.{EngineError}
use vaylix.Engine.Store.{
  StoredValue, EngineStore, get_value, next_value_version, insert_value_with_version,
}
use vaylix.Engine.State.{
  EngineState, WalOperation, purge_expired, run_operation, run_operations, parse_integer_value,
  or_overflow,
}
use vaylix.Engine.State.Entry.{apply_entry-ok}
use vaylix.Engine.Command.{Command, SetOptions, Expiration}
use vaylix.Engine.Transaction.{
  evaluate, run_command, answered, expire_or_delete, set_allowed, set_ttl, run_set, run_counter,
  counted, run_expire, mset_store, delete_store, value_or_zero, previous_expiration,
}
use vaylix.Engine.Transaction.Replay.{evaluate-Replays, mset_store-Logs}
use vaylix.Engine.Log.{StorageEnv, Engine, append_and_apply, commit_entry, next_entry}
use vaylix.Engine.Direct.{
  incr, change_counter, purged, committed, SetOutcome, expiration_operation, set_tail,
  set_with_options, version_or_next, mset_operations, mset, expire, count_present, delete_all,
  delete_many,
}

commit_entry-store :
    (env : StorageEnv) (entry_ms : ℕ) (ops : List WalOperation) (engine : Engine) (s : EngineStore)
    → run_operations ops engine.state.store ≡ ok s
    → (append_and_apply env entry_ms ops engine).0 ≡ ok tt
    → (append_and_apply env entry_ms ops engine).1.state.store ≡ s
unfolding append_and_apply commit_entry next_entry
commit_entry-store env entry_ms ops engine s h done =
    ground (arith, apply_entry-ok (next_entry entry_ms ops engine) engine.state s h)

committed-store {ℓ} :
    {A : Type ℓ} (env : StorageEnv) (entry_ms : ℕ) (ops : List WalOperation) (answer : A)
    (engine : Engine) (s : EngineStore) {r : A}
    → run_operations ops engine.state.store ≡ ok s
    → (committed env entry_ms ops answer engine).0 ≡ ok r
    → (committed env entry_ms ops answer engine).1.state.store ≡ s
unfolding committed
committed-store env entry_ms ops answer engine s {r} h done =
    ground (arith, commit_entry-store env entry_ms ops engine s h)

-- What a SET in a transaction logs.
set_ttl-tail :
    (k : String) (x : Option Expiration) (keep : Bool) (kept : Option ℕ) (now_ms : ℕ)
    (s : EngineStore)
    → (set_ttl k x keep kept now_ms s).1 ≡ set_tail k x keep kept now_ms
unfolding set_ttl set_tail expire_or_delete expiration_operation
set_ttl-tail k none false kept now_ms s = refl
set_ttl-tail k none true none now_ms s = refl
set_ttl-tail k none true (some t) now_ms s = refl
set_ttl-tail k (some x) keep kept now_ms s = ground arith

-- An operation that logs what the command logs leaves the store of the command.
committed-agrees {ℓ} :
    {A : Type ℓ} (env : StorageEnv) (now_ms entry_ms : ℕ) (c : Command) (ops : List WalOperation)
    (answer : A) (engine : Engine) {r : A}
    → ops ≡ (evaluate c now_ms engine.state).operations
    → (committed env entry_ms ops answer (purged now_ms engine)).0 ≡ ok r
    → (committed env entry_ms ops answer (purged now_ms engine)).1.state.store
      ≡ (evaluate c now_ms engine.state).state.store
unfolding purged
committed-agrees env now_ms entry_ms c ops answer engine {r} same done =
    committed-store env entry_ms ops answer (purged now_ms engine) _ {r = r}
      (ap (λ o. run_operations o (purge_expired now_ms engine.state).store) same
        ∙ evaluate-Replays c now_ms engine.state)
      done

module _ (now_ms : ℕ) (k : String) (state : EngineState) where
  set-logged :
      (v : List ℕ) (options : SetOptions)
      → set_allowed options (lookup k (purge_expired now_ms state).store) ≡ true
      → WalOperation.set k v (next_value_version (lookup k (purge_expired now_ms state).store))
          ∷ set_tail k options.expiration options.keep_ttl
              (previous_expiration (lookup k (purge_expired now_ms state).store))
              now_ms
        ≡ (evaluate (Command.set k v options) now_ms state).operations
  unfolding evaluate run_command run_set answered
  set-logged v options p =
      let old = lookup k (purge_expired now_ms state).store in
      rw (p, run_set)
        (ap (λ t. WalOperation.set k v (next_value_version old) ∷ t)
          (sym (
            set_ttl-tail k options.expiration options.keep_ttl (previous_expiration old) now_ms (
              insert_value_with_version k v (next_value_version old)
                (purge_expired now_ms state).store))))

  set_refused :
      (v : List ℕ) (options : SetOptions)
      → set_allowed options (lookup k (purge_expired now_ms state).store) ≡ false
      → (purge_expired now_ms state).store
        ≡ (evaluate (Command.set k v options) now_ms state).state.store
  unfolding evaluate run_command run_set answered
  set_refused v options p = rw (p, run_set) refl

  expire-logged :
      (seconds : ℕ)
      → contains_key k (purge_expired now_ms state).store ≡ true
      → (if seconds == 0
          then WalOperation.delete k ∷ []
          else WalOperation.expire k (saturating_add now_ms (saturating_mul seconds 1_000)) ∷ [])
        ≡ (evaluate (Command.expire k seconds) now_ms state).operations
  unfolding evaluate run_command run_expire answered
  expire-logged seconds p = ground arith

  expire_refused :
      (seconds : ℕ)
      → contains_key k (purge_expired now_ms state).store ≡ false
      → (purge_expired now_ms state).store
        ≡ (evaluate (Command.expire k seconds) now_ms state).state.store
  unfolding evaluate run_command run_expire answered
  expire_refused seconds p = rw (p, run_expire) refl

module _ (env : StorageEnv) (now_ms entry_ms : ℕ) (k : String) (engine : Engine) where
  -- When SET, outside a batch, is answered, the store is the one that the SET of a transaction
  -- leaves.
  pub set_with_options-agrees :
      (v : List ℕ) (options : SetOptions) {outcome : SetOutcome}
      → (set_with_options env now_ms entry_ms k v options engine).0 ≡ ok outcome
      → (set_with_options env now_ms entry_ms k v options engine).1.state.store
        ≡ (evaluate (Command.set k v options) now_ms engine.state).state.store
  unfolding set_with_options purged
  set_with_options-agrees v options {outcome} h =
      go (set_allowed options (lookup k (purge_expired now_ms engine.state).store)) refl
    where
      go :
          (b : Bool)
          → set_allowed options (lookup k (purge_expired now_ms engine.state).store) ≡ b
          → (set_with_options env now_ms entry_ms k v options engine).1.state.store
            ≡ (evaluate (Command.set k v options) now_ms engine.state).state.store
      go true p =
          rw (p, set_with_options)
            (committed-agrees env now_ms entry_ms (Command.set k v options) _ _ engine
              (set-logged now_ms k engine.state v options p) (rw (p, set_with_options) at h))
      go false p = rw (p, set_with_options) (set_refused now_ms k engine.state v options p)

  expire-store :
      (seconds : ℕ) (t : EngineStore) {answer : Bool}
      → (contains_key k (purged now_ms engine).state.store ≡ true
          → run_operations
              (if seconds == 0
                then WalOperation.delete k ∷ []
                else WalOperation.expire k (saturating_add now_ms (saturating_mul seconds 1_000))
                  ∷ [])
              (purged now_ms engine).state.store
            ≡ ok t)
      → (contains_key k (purged now_ms engine).state.store ≡ false
          → (purged now_ms engine).state.store ≡ t)
      → (expire env now_ms entry_ms k seconds engine).0 ≡ ok answer
      → (expire env now_ms entry_ms k seconds engine).1.state.store ≡ t
  unfolding expire
  expire-store seconds t {answer} logged refused h =
      let u = saturating_add now_ms (saturating_mul seconds 1_000) in
      ground (
        arith,
        committed-store env entry_ms (WalOperation.delete k ∷ []) true (purged now_ms engine) t
            {r = answer},
        committed-store env entry_ms (WalOperation.expire k u ∷ []) true (purged now_ms engine) t
            {r = answer},
      )

  -- When EXPIRE, outside a batch, is answered, the store is the one that the EXPIRE of a transaction
  -- leaves.
  pub expire-agrees :
      (seconds : ℕ) {answer : Bool}
      → (expire env now_ms entry_ms k seconds engine).0 ≡ ok answer
      → (expire env now_ms entry_ms k seconds engine).1.state.store
        ≡ (evaluate (Command.expire k seconds) now_ms engine.state).state.store
  unfolding purged
  expire-agrees seconds {answer} h =
      expire-store seconds (evaluate (Command.expire k seconds) now_ms engine.state).state.store
        {answer = answer}
        (λ p.
          ap (λ o. run_operations o (purge_expired now_ms engine.state).store)
            (expire-logged now_ms k engine.state seconds p)
          ∙ evaluate-Replays (Command.expire k seconds) now_ms engine.state)
        (expire_refused now_ms k engine.state seconds) h

module _ (s₀ : EngineStore) where
  mset_store-operations :
      (entries : List (String × List ℕ)) (next : Table ℕ) (s : EngineStore)
      → ((j : String)
          → version_or_next (lookup j next) (lookup j s₀) ≡ next_value_version (lookup j s))
      → mset_operations s₀ next entries ≡ (mset_store entries s).1
  unfolding mset_operations mset_store insert_value_with_version
  mset_store-operations [] next s h = refl
  mset_store-operations ((k, v) ∷ entries) next s h =
      let old = next_value_version (lookup k s) in
      let new : StoredValue = record { value = v; expires_at_ms = none; version = old } in
      let later = insert k (saturating_add old 1) next in
      let step : (j : String)
          → version_or_next (lookup j later) (lookup j s₀)
            ≡ next_value_version (lookup j (insert k new s)) =
        λ j.
          unfold next_value_version in
          ground (
            arith,
            h j,
            lookup-insert k j (saturating_add old 1) next,
            lookup-insert k j new s,
            eq_iff k j,
          ) in
      ap
        (λ n.
          WalOperation.set k v n ∷ mset_operations s₀ (insert k (saturating_add n 1) next) entries)
        (h k)
      ∙ ap (λ o. WalOperation.set k v old ∷ o)
          (mset_store-operations entries later (insert k new s) step)

-- The versions that MSET gives out are those of its entries set one after the other, a key that is
-- given twice included: when it is answered, outside a batch, its store is that of the MSET of a
-- transaction on the same, unpurged store.
pub mset-agrees :
    (env : StorageEnv) (entry_ms : ℕ) (entries : List (String × List ℕ)) (engine : Engine)
    → (mset env entry_ms entries engine).0 ≡ ok tt
    → (mset env entry_ms entries engine).1.state.store ≡ (mset_store entries engine.state.store).0
unfolding mset
mset-agrees env entry_ms entries engine h =
    commit_entry-store env entry_ms (mset_operations engine.state.store [] entries) engine _
      (ap (λ o. run_operations o engine.state.store)
          (mset_store-operations engine.state.store entries [] engine.state.store
            λ j. unfold lookup in refl)
        ∙ mset_store-Logs entries engine.state.store)
      h

delete_all-runs :
    (keys : List String) (s : EngineStore)
    → run_operations (delete_all keys) s ≡ ok (delete_store keys s).store
unfolding delete_all delete_store run_operations run_operation
delete_all-runs [] s = refl
delete_all-runs (k ∷ keys) s = delete_all-runs keys (remove k s)

delete_store_absent :
    (keys : List String) (s : EngineStore)
    → count_present keys s ≡ 0
    → (delete_store keys s).store ≡ s
unfolding count_present delete_store contains_key
delete_store_absent [] s h = refl
delete_store_absent (k ∷ keys) s h =
    let gone : lookup k s ≡ none = ground arith in
    ap (λ t. (delete_store keys t).store) (remove_absent k s gone)
    ∙ delete_store_absent keys s (ground arith)

evaluate-delete_store :
    (now_ms : ℕ) (keys : List String) (state : EngineState)
    → (evaluate (Command.delete keys) now_ms state).state.store
      ≡ (delete_store keys (purge_expired now_ms state).store).store
unfolding evaluate run_command answered
evaluate-delete_store now_ms keys state = refl

-- When DELETE, outside a batch, is answered, the store is the one that the DELETE of a transaction
-- leaves, although it logs the deletion of keys that are not there too.
pub delete_many-agrees :
    (env : StorageEnv) (now_ms entry_ms : ℕ) (keys : List String) (engine : Engine) {removed : ℕ}
    → (delete_many env now_ms entry_ms keys engine).0 ≡ ok removed
    → (delete_many env now_ms entry_ms keys engine).1.state.store
      ≡ (evaluate (Command.delete keys) now_ms engine.state).state.store
unfolding delete_many purged
delete_many-agrees env now_ms entry_ms keys engine {removed} h =
    let live = purged now_ms engine in
    let t = (delete_store keys live.state.store).store in
    let n = count_present keys live.state.store in
    let there : (delete_many env now_ms entry_ms keys engine).1.state.store ≡ t = ground (
      arith,
      committed-store env entry_ms (delete_all keys) n live t {r = removed}
          (delete_all-runs keys live.state.store),
      delete_store_absent keys live.state.store,
    ) in
    there ∙ sym (evaluate-delete_store now_ms keys engine.state)

-- A key that is given twice to DELETE and is there counts twice outside a batch, and once in a
-- transaction.
pub delete_twice :
    (k : String) (s : EngineStore) {e : StoredValue}
    → lookup k s ≡ some e
    → (count_present (k ∷ k ∷ []) s ≡ 2) × ((delete_store (k ∷ k ∷ []) s).removed ≡ 1)
unfolding count_present delete_store contains_key
delete_twice k s h = ground (arith, lookup-remove k k s, str_eq_refl k)

incr-logged :
    (now_ms : ℕ) (k : String) (state : EngineState) (n : ℤ)
    → (parse_integer_value k (value_or_zero (get_value k (purge_expired now_ms state).store))
        >>= λ m. or_overflow k (checked_add m (pos 1)))
      ≡ ok n
    → WalOperation.check_integer k (pos 1) ∷ []
      ≡ (evaluate (Command.incr k) now_ms state).operations
unfolding evaluate run_command run_counter counted answered
incr-logged now_ms k state n h = rw (h, run_counter) refl

-- When INCR, outside a batch, is answered, the store is the one that the INCR of a transaction leaves.
pub incr-agrees :
    (env : StorageEnv) (now_ms entry_ms : ℕ) (k : String) (engine : Engine) {n : ℤ}
    → (incr env now_ms entry_ms k engine).0 ≡ ok n
    → (incr env now_ms entry_ms k engine).1.state.store
      ≡ (evaluate (Command.incr k) now_ms engine.state).state.store
unfolding incr change_counter purged
incr-agrees env now_ms entry_ms k engine {n} h =
    go
      (parse_integer_value k (value_or_zero (get_value k (purge_expired now_ms engine.state).store))
        >>= λ m. or_overflow k (checked_add m (pos 1)))
      refl
  where
    go :
        (r : Result EngineError ℤ)
        → (parse_integer_value k
              (value_or_zero (get_value k (purge_expired now_ms engine.state).store))
            >>= λ m. or_overflow k (checked_add m (pos 1)))
          ≡ r
        → (incr env now_ms entry_ms k engine).1.state.store
          ≡ (evaluate (Command.incr k) now_ms engine.state).state.store
    go (err e) p = absurd (let bad = rw (p, change_counter) at h in cc)
    go (ok m) p =
        rw (p, change_counter)
          (committed-agrees env now_ms entry_ms (Command.incr k) _ m engine
            (incr-logged now_ms k engine.state m p) (rw (p, change_counter) at h))
