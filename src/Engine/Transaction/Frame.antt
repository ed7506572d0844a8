-- ===== src/Engine/Transaction/Frame.antt =====
-- A command changes no key but those that it names.
use vaylix.Prelude.{
  ℕ, ◌≡◌, refl, ◌∙◌, String, Bool, true, false, ◌||◌, Option, none, some, List, [], ◌∷◌, Result, ok,
  err, arith, str_eq, if◌then◌else◌,
}
use vaylix.Table.{lookup, contains_key, remove}
use vaylix.Table.Laws.{lookup-insert, lookup-remove}
use vaylix.Engine.Integer.{ℤ}
use vaylix.Engine.Error.{EngineError}
use vaylix.Engine.Store
use vaylix.Engine.Store.{
  StoredValue, EngineStore, insert_value_with_version, set_expiration_if_present,
  next_value_version,
}
use vaylix.Engine.Store.Purge.{IsLive, purge_expired-live}
use vaylix.Engine.State.{EngineState}
use vaylix.Engine.State.Live.{purge_expired-state_live, ttl_for-live}
use vaylix.Engine.Command.{Command, SetOptions, Expiration}
use vaylix.Engine.Transaction.{
  Evaluation, answered, counted, expire_or_delete, run_get_del, persist_if, get_ex_store,
  run_get_ex, set_ttl, run_set, run_set_nx, set_allowed, mset_store, delete_store, run_counter,
  run_expire, run_persist, rename_store, run_rename, run_command, evaluate,
}

abbrev pub member : String → List String → Bool
member j [] = false
member j (k ∷ keys) = str_eq k j || member j keys

abbrev pub entry_keys : List (String × List ℕ) → List String
entry_keys [] = []
entry_keys ((k, v) ∷ entries) = k ∷ entry_keys entries

-- The keys that a command may write. CLEAR, which names none, writes all.
abbrev pub written_keys : Command → List String
written_keys (Command.set k v options) = k ∷ []
written_keys (Command.set_nx k v) = k ∷ []
written_keys (Command.get_del k) = k ∷ []
written_keys (Command.get_ex k x p) = k ∷ []
written_keys (Command.expire k n) = k ∷ []
written_keys (Command.persist k) = k ∷ []
written_keys (Command.incr k) = k ∷ []
written_keys (Command.decr k) = k ∷ []
written_keys (Command.mset entries) = entry_keys entries
written_keys (Command.delete keys) = keys
written_keys (Command.mget keys) = keys
written_keys (Command.rename source destination) = source ∷ destination ∷ []
written_keys (Command.rename_nx source destination) = source ∷ destination ∷ []
written_keys _ = []

abbrev pub is_clear : Command → Bool
is_clear Command.clear = true
is_clear _ = false

module _ (j : String) where
  module _ (k : String) (ne : str_eq k j ≡ false) (s : EngineStore) where
    write-frame : (v : List ℕ) (n : ℕ) → lookup j (insert_value_with_version k v n s) ≡ lookup j s
    unfolding insert_value_with_version
    write-frame v n =
        ground
          (arith, lookup-insert k j (record { value = v; expires_at_ms = none; version = n }) s)

    remove-frame : lookup j (remove k s) ≡ lookup j s
    remove-frame = ground (arith, lookup-remove k j s)

    set_expiration-frame : (t : ℕ) → lookup j (set_expiration_if_present k t s).0 ≡ lookup j s
    unfolding set_expiration_if_present
    set_expiration-frame t = go (lookup k s) refl
      where
        go :
            (o : Option StoredValue)
            → lookup k s ≡ o
            → lookup j (set_expiration_if_present k t s).0 ≡ lookup j s
        go none p = ground arith
        go (some e) p = ground (arith, lookup-insert k j (record e { expires_at_ms = some t }) s)

    clear_expiration-frame : lookup j (Store.clear_expiration k s).0 ≡ lookup j s
    unfolding Store.clear_expiration
    clear_expiration-frame = go (lookup k s) refl
      where
        go :
            (o : Option StoredValue)
            → lookup k s ≡ o
            → lookup j (Store.clear_expiration k s).0 ≡ lookup j s
        go none p = ground arith
        go (some e) p = ground (arith, lookup-insert k j (record e { expires_at_ms = none }) s)

  module _ (k : String) (ne : str_eq k j ≡ false) (s : EngineStore) where
    expire_or_delete-frame :
        (now_ms t : ℕ) → lookup j (expire_or_delete k now_ms t s).0 ≡ lookup j s
    unfolding expire_or_delete
    expire_or_delete-frame now_ms t =
        ground (arith, remove-frame k ne s, set_expiration-frame k ne s t)

    persist_if-frame : (b : Bool) → lookup j (persist_if b k s).0 ≡ lookup j s
    unfolding persist_if
    persist_if-frame true = clear_expiration-frame k ne s
    persist_if-frame false = refl

    get_ex_store-frame :
        (x : Option Expiration) (b : Bool) (now_ms : ℕ)
        → lookup j (get_ex_store k x b now_ms s).0 ≡ lookup j s
    unfolding get_ex_store
    get_ex_store-frame none b now_ms = persist_if-frame b
    get_ex_store-frame (some x) b now_ms = expire_or_delete-frame now_ms _

    set_ttl-frame :
        (x : Option Expiration) (b : Bool) (kept : Option ℕ) (now_ms : ℕ)
        → lookup j (set_ttl k x b kept now_ms s).0 ≡ lookup j s
    unfolding set_ttl
    set_ttl-frame (some x) b kept now_ms = expire_or_delete-frame now_ms _
    set_ttl-frame none true (some t) now_ms = set_expiration-frame k ne s t
    set_ttl-frame none true none now_ms = refl
    set_ttl-frame none false kept now_ms = refl

  mset_store-frame :
      (entries : List (String × List ℕ)) (s : EngineStore)
      → member j (entry_keys entries) ≡ false
      → lookup j (mset_store entries s).0 ≡ lookup j s
  unfolding mset_store
  mset_store-frame [] s h = refl
  mset_store-frame ((k, v) ∷ entries) s h =
      mset_store-frame entries _ (ground arith)
      ∙ write-frame k (ground arith) s v (next_value_version (lookup k s))

  delete_store-frame :
      (keys : List String) (s : EngineStore)
      → member j keys ≡ false
      → lookup j (delete_store keys s).store ≡ lookup j s
  unfolding delete_store
  delete_store-frame [] s h = refl
  delete_store-frame (k ∷ keys) s h =
      delete_store-frame keys (remove k s) (ground arith) ∙ remove-frame k (ground arith) s

  rename_store-frame :
      (source destination : String) (e : StoredValue) (s : EngineStore)
      → str_eq source j ≡ false
      → str_eq destination j ≡ false
      → lookup j (rename_store source destination e s).0 ≡ lookup j s
  unfolding rename_store
  rename_store-frame source destination e s hs hd = go e.expires_at_ms refl
    where
      version : ℕ
      version = next_value_version (lookup destination (remove source s))

      written :
          lookup j (insert_value_with_version destination e.value version (remove source s))
          ≡ lookup j s
      written =
          write-frame destination hd (remove source s) e.value version ∙ remove-frame source hs s

      go :
          (o : Option ℕ)
          → e.expires_at_ms ≡ o
          → lookup j (rename_store source destination e s).0 ≡ lookup j s
      go none p = rw (p, rename_store) written
      go (some t) p = rw (p, rename_store) (set_expiration-frame destination hd _ t ∙ written)

-- The key reads the same before and after.
abbrev Untouched : String → EngineState → Evaluation → Type 0
Untouched j state r = lookup j r.state.store ≡ lookup j state.store

if-Untouched :
    (j : String) (state : EngineState) (b : Bool) (r q : Evaluation)
    → Untouched j state r
    → Untouched j state q
    → Untouched j state (if b then r else q)
if-Untouched j state true r q hr hq = hr
if-Untouched j state false r q hr hq = hq

module _ (j : String) (state : EngineState) where
  module _ (k : String) (ne : str_eq k j ≡ false) where
    run_get_del-frame : Untouched j state (run_get_del k state)
    unfolding run_get_del answered
    run_get_del-frame = ground (arith, remove-frame j k ne state.store)

    run_get_ex-frame :
        (x : Option Expiration) (b : Bool) (now_ms : ℕ)
        → Untouched j state (run_get_ex k x b now_ms state)
    unfolding run_get_ex answered
    run_get_ex-frame x b now_ms = ground (arith, get_ex_store-frame j k ne state.store x b now_ms)

    run_set-frame :
        (v : List ℕ) (options : SetOptions) (now_ms : ℕ)
        → Untouched j state (run_set k v options now_ms state)
    unfolding run_set answered
    run_set-frame v options now_ms =
        if-Untouched j state (set_allowed options (lookup k state.store)) _ _
          (set_ttl-frame j k ne _ options.expiration options.keep_ttl _ now_ms
            ∙ write-frame j k ne state.store v _)
          refl

    run_set_nx-frame : (v : List ℕ) → Untouched j state (run_set_nx k v state)
    unfolding run_set_nx answered
    run_set_nx-frame v = ground (arith, write-frame j k ne state.store v (next_value_version none))

    run_expire-frame : (n now_ms : ℕ) → Untouched j state (run_expire k n now_ms state)
    unfolding run_expire answered
    run_expire-frame n now_ms =
        if-Untouched j state (contains_key k state.store) _ _
          (if-Untouched j state _ _ _ (remove-frame j k ne state.store)
            (set_expiration-frame j k ne state.store _))
          refl

    run_persist-frame : Untouched j state (run_persist k state)
    unfolding run_persist answered
    run_persist-frame = ground (arith, clear_expiration-frame j k ne state.store)

    counted-frame :
        (delta : ℤ) (r : Result EngineError ℤ) → Untouched j state (counted k delta state r)
    unfolding counted answered
    counted-frame delta (err e) = refl
    counted-frame delta (ok n) = write-frame j k ne state.store _ _

  run_rename-frame :
      (source destination : String)
      → str_eq source j ≡ false
      → str_eq destination j ≡ false
      → Untouched j state (run_rename source destination state)
  unfolding run_rename answered
  run_rename-frame source destination hs hd = go (lookup source state.store) refl
    where
      go :
          (o : Option StoredValue)
          → lookup source state.store ≡ o
          → Untouched j state (run_rename source destination state)
      go none p = rw (p, run_rename)
      go (some e) p =
          rw (p, run_rename) (rename_store-frame j source destination e state.store hs hd)

  run_command-frame :
      (c : Command) (now_ms : ℕ)
      → IsLive now_ms state.store
      → is_clear c ≡ false
      → member j (written_keys c) ≡ false
      → Untouched j state (run_command c now_ms state)
  unfolding run_command run_counter answered
  run_command-frame (Command.ping none) now_ms h n m = refl
  run_command-frame (Command.ping (some x)) now_ms h n m = refl
  run_command-frame (Command.get_del k) now_ms h n m = run_get_del-frame k (ground arith)
  run_command-frame (Command.get_ex k x p) now_ms h n m =
      run_get_ex-frame k (ground arith) x p now_ms
  run_command-frame (Command.set k v options) now_ms h n m =
      run_set-frame k (ground arith) v options now_ms
  run_command-frame (Command.set_nx k v) now_ms h n m = run_set_nx-frame k (ground arith) v
  run_command-frame (Command.mset entries) now_ms h n m = mset_store-frame j entries state.store m
  run_command-frame (Command.delete keys) now_ms h n m = delete_store-frame j keys state.store m
  run_command-frame (Command.incr k) now_ms h n m = counted-frame k (ground arith) _ _
  run_command-frame (Command.decr k) now_ms h n m = counted-frame k (ground arith) _ _
  run_command-frame (Command.expire k x) now_ms h n m = run_expire-frame k (ground arith) x now_ms
  run_command-frame (Command.ttl k) now_ms h n m = rw (ttl_for-live k now_ms state h)
  run_command-frame (Command.persist k) now_ms h n m = run_persist-frame k (ground arith)
  run_command-frame (Command.rename source destination) now_ms h n m =
      run_rename-frame source destination (ground arith) (ground arith)
  run_command-frame (Command.rename_nx source destination) now_ms h n m =
      if-Untouched j state (contains_key destination state.store) _ _ refl (
        rw (purge_expired-state_live now_ms state h)
          (run_rename-frame source destination (ground arith) (ground arith)))
  run_command-frame (Command.scan cursor pattern count) now_ms h n m =
      rw (purge_expired-live now_ms state.store h)
  run_command-frame Command.list now_ms h n m = rw (purge_expired-live now_ms state.store h)
  run_command-frame Command.clear now_ms h n m = cc
  run_command-frame _ now_ms h n m = refl

-- On a state with nothing expired, a command other than CLEAR leaves every key that is not among the
-- keys it writes as it was.
pub evaluate-frame :
    (c : Command) (now_ms : ℕ) (state : EngineState) (j : String)
    → IsLive now_ms state.store
    → is_clear c ≡ false
    → member j (written_keys c) ≡ false
    → lookup j (evaluate c now_ms state).state.store ≡ lookup j state.store
unfolding evaluate
evaluate-frame c now_ms state j h n m =
    rw (purge_expired-state_live now_ms state h) (run_command-frame j state c now_ms h n m)
