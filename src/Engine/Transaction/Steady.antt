-- ===== src/Engine/Transaction/Steady.antt =====
-- A command leaves nothing expired behind and does not touch the metadata: the purge before the
-- next command of a batch finds nothing to do.
use vaylix.Prelude.{
  ℕ, ◌<◌, ◌≡◌, ◌≢◌, refl, String, Bool, true, false, Option, none, some, List, [], ◌∷◌, Result, ok,
  err, arith, leb, u64_max, saturating_add, saturating_mul, if◌then◌else◌,
}
use vaylix.Table.{lookup, contains_key, remove}
use vaylix.Engine.Integer.{ℤ}
use vaylix.Engine.Error.{EngineError}
use vaylix.Engine.Store
use vaylix.Engine.Store.{
  StoredValue, EngineStore, expired, get_value, insert_value_with_version,
  set_expiration_if_present, next_value_version,
}
use vaylix.Engine.Store.Purge.{
  IsLive, IsLive-insert, IsLive-remove, IsLive-lookup, purge_expired-live,
}
use vaylix.Engine.State.{EngineState}
use vaylix.Engine.State.Live.{purge_expired-state_live, ttl_for-live}
use vaylix.Engine.Command.{Command, SetOptions, Expiration}
use vaylix.Engine.Transaction.{
  Evaluation, answered, counted, set_allowed, previous_expiration, expire_or_delete, run_get_del,
  persist_if, get_ex_store, run_get_ex, set_ttl, run_set, run_set_nx, mset_store, delete_store,
  run_counter, run_expire, run_persist, rename_store, run_rename, run_clear, run_command, evaluate,
}

-- Live, and with the metadata that the command found.
abbrev pub Steady : ℕ → EngineState → Evaluation → Type 0
Steady now_ms state r = IsLive now_ms r.state.store × (r.state.metadata ≡ state.metadata)

module _ (now_ms : ℕ) where
  write-IsLive :
      (k : String) (v : List ℕ) (n : ℕ) (s : EngineStore)
      → IsLive now_ms s
      → IsLive now_ms (insert_value_with_version k v n s)
  unfolding insert_value_with_version expired
  write-IsLive k v n s h = IsLive-insert now_ms k _ s refl h

  set_expiration-IsLive :
      (k : String) (t : ℕ) (s : EngineStore)
      → leb t now_ms ≡ false
      → IsLive now_ms s
      → IsLive now_ms (set_expiration_if_present k t s).0
  unfolding set_expiration_if_present expired
  set_expiration-IsLive k t s ht h = go (lookup k s) refl
    where
      go :
          (o : Option StoredValue)
          → lookup k s ≡ o
          → IsLive now_ms (set_expiration_if_present k t s).0
      go none p = rw (p, set_expiration_if_present) h
      go (some e) p = rw (p, set_expiration_if_present) (IsLive-insert now_ms k _ s ht h)

  clear_expiration-IsLive :
      (k : String) (s : EngineStore)
      → IsLive now_ms s
      → IsLive now_ms (Store.clear_expiration k s).0
  unfolding Store.clear_expiration expired
  clear_expiration-IsLive k s h = go (lookup k s) refl
    where
      go : (o : Option StoredValue) → lookup k s ≡ o → IsLive now_ms (Store.clear_expiration k s).0
      go none p = rw (p, Store.clear_expiration) h
      go (some e) p = rw (p, Store.clear_expiration) (IsLive-insert now_ms k _ s refl h)

  if-IsLive :
      (b : Bool) (s t : EngineStore)
      → (b ≡ true → IsLive now_ms s)
      → (b ≡ false → IsLive now_ms t)
      → IsLive now_ms (if b then s else t)
  if-IsLive true s t hs ht = hs refl
  if-IsLive false s t hs ht = ht refl

  expire_or_delete-IsLive :
      (k : String) (t : ℕ) (s : EngineStore)
      → IsLive now_ms s
      → IsLive now_ms (expire_or_delete k now_ms t s).0
  unfolding expire_or_delete
  expire_or_delete-IsLive k t s h =
      ground (arith, IsLive-remove now_ms k s h, set_expiration-IsLive k t s)

  persist_if-IsLive :
      (b : Bool) (k : String) (s : EngineStore)
      → IsLive now_ms s
      → IsLive now_ms (persist_if b k s).0
  unfolding persist_if
  persist_if-IsLive true k s h = clear_expiration-IsLive k s h
  persist_if-IsLive false k s h = h

  get_ex_store-IsLive :
      (k : String) (x : Option Expiration) (b : Bool) (s : EngineStore)
      → IsLive now_ms s
      → IsLive now_ms (get_ex_store k x b now_ms s).0
  unfolding get_ex_store
  get_ex_store-IsLive k none b s h = persist_if-IsLive b k s h
  get_ex_store-IsLive k (some x) b s h = expire_or_delete-IsLive k _ s h

  -- An expiration that a live value had is still ahead.
  kept_ahead :
      (k : String) (s : EngineStore) {e : StoredValue} (t : ℕ)
      → IsLive now_ms s
      → lookup k s ≡ some e
      → e.expires_at_ms ≡ some t
      → leb t now_ms ≡ false
  unfolding expired
  kept_ahead k s {e} t h p q = ground (arith, IsLive-lookup now_ms k s {e = e} h p)

  set_ttl-IsLive :
      (k : String) (x : Option Expiration) (b : Bool) (kept : Option ℕ) (s : EngineStore)
      → ((t : ℕ) → kept ≡ some t → leb t now_ms ≡ false)
      → IsLive now_ms s
      → IsLive now_ms (set_ttl k x b kept now_ms s).0
  unfolding set_ttl
  set_ttl-IsLive k (some x) b kept s ahead h = expire_or_delete-IsLive k _ s h
  set_ttl-IsLive k none true (some t) s ahead h = set_expiration-IsLive k t s (ahead t refl) h
  set_ttl-IsLive k none true none s ahead h = h
  set_ttl-IsLive k none false kept s ahead h = h

  mset_store-IsLive :
      (entries : List (String × List ℕ)) (s : EngineStore)
      → IsLive now_ms s
      → IsLive now_ms (mset_store entries s).0
  unfolding mset_store
  mset_store-IsLive [] s h = h
  mset_store-IsLive ((k, v) ∷ entries) s h =
      mset_store-IsLive entries _ (write-IsLive k v (next_value_version (lookup k s)) s h)

  delete_store-IsLive :
      (keys : List String) (s : EngineStore)
      → IsLive now_ms s
      → IsLive now_ms (delete_store keys s).store
  unfolding delete_store
  delete_store-IsLive [] s h = h
  delete_store-IsLive (k ∷ keys) s h = delete_store-IsLive keys _ (IsLive-remove now_ms k s h)

  rename_store-IsLive :
      (source destination : String) (e : StoredValue) (s : EngineStore)
      → expired now_ms e ≡ false
      → IsLive now_ms s
      → IsLive now_ms (rename_store source destination e s).0
  unfolding rename_store expired
  rename_store-IsLive source destination e s he h = go e.expires_at_ms refl
    where
      written : EngineStore
      written =
          insert_value_with_version destination e.value
            (next_value_version (lookup destination (remove source s))) (remove source s)

      live : IsLive now_ms written
      live = write-IsLive destination e.value _ _ (IsLive-remove now_ms source s h)

      go :
          (o : Option ℕ)
          → e.expires_at_ms ≡ o
          → IsLive now_ms (rename_store source destination e s).0
      go none p = rw (p, rename_store) live
      go (some t) p =
          rw (p, rename_store) (set_expiration-IsLive destination t written (ground arith) live)

  run_expire_ahead :
      (n : ℕ)
      → now_ms < u64_max
      → n ≢ 0
      → leb (saturating_add now_ms (saturating_mul n 1_000)) now_ms ≡ false
  unfolding saturating_add saturating_mul
  run_expire_ahead n hn hz = ground arith

module _ (now_ms : ℕ) (state : EngineState) (h : IsLive now_ms state.store) where
  run_get_del-Steady : (k : String) → Steady now_ms state (run_get_del k state)
  unfolding run_get_del answered
  run_get_del-Steady k = ground (arith, IsLive-remove now_ms k state.store h)

  run_get_ex-Steady :
      (k : String) (x : Option Expiration) (b : Bool)
      → Steady now_ms state (run_get_ex k x b now_ms state)
  unfolding run_get_ex answered
  run_get_ex-Steady k x b = ground (arith, get_ex_store-IsLive now_ms k x b state.store h)

  if-Steady :
      (b : Bool) (r q : Evaluation)
      → Steady now_ms state r
      → Steady now_ms state q
      → Steady now_ms state (if b then r else q)
  if-Steady true r q hr hq = hr
  if-Steady false r q hr hq = hq

  previous_ahead :
      (k : String) (t : ℕ)
      → previous_expiration (lookup k state.store) ≡ some t
      → leb t now_ms ≡ false
  previous_ahead k t = go (lookup k state.store) refl
    where
      go :
          (o : Option StoredValue)
          → lookup k state.store ≡ o
          → previous_expiration o ≡ some t
          → leb t now_ms ≡ false
      go none p q = cc
      go (some e) p q = kept_ahead now_ms k state.store {e = e} t h p q

  run_set-Steady :
      (k : String) (v : List ℕ) (options : SetOptions)
      → Steady now_ms state (run_set k v options now_ms state)
  unfolding run_set answered
  run_set-Steady k v options =
      if-Steady (set_allowed options (lookup k state.store)) _ _
        (
          set_ttl-IsLive now_ms k options.expiration options.keep_ttl _ _ (previous_ahead k)
              (write-IsLive now_ms k v _ state.store h),
          refl,
        )
        (h, refl)

  run_set_nx-Steady : (k : String) (v : List ℕ) → Steady now_ms state (run_set_nx k v state)
  unfolding run_set_nx answered
  run_set_nx-Steady k v =
      ground (arith, write-IsLive now_ms k v (next_value_version none) state.store h)

  run_expire-Steady :
      (k : String) (n : ℕ) → now_ms < u64_max → Steady now_ms state (run_expire k n now_ms state)
  unfolding run_expire answered
  run_expire-Steady k n hn = ground (
    arith,
    run_expire_ahead now_ms n hn,
    IsLive-remove now_ms k state.store h,
    set_expiration-IsLive now_ms k (saturating_add now_ms (saturating_mul n 1_000)) state.store,
  )

  run_persist-Steady : (k : String) → Steady now_ms state (run_persist k state)
  unfolding run_persist answered
  run_persist-Steady k = ground (arith, clear_expiration-IsLive now_ms k state.store h)

  run_rename-Steady :
      (source destination : String) → Steady now_ms state (run_rename source destination state)
  unfolding run_rename answered
  run_rename-Steady source destination = go (lookup source state.store) refl
    where
      go :
          (o : Option StoredValue)
          → lookup source state.store ≡ o
          → Steady now_ms state (run_rename source destination state)
      go none p = rw (p, run_rename) (h, refl)
      go (some e) p =
          rw (p, run_rename)
            (
              rename_store-IsLive now_ms source destination e state.store
                  (IsLive-lookup now_ms source state.store {e = e} h p) h,
              refl,
            )

  run_clear-Steady : Steady now_ms state (run_clear state)
  unfolding run_clear answered
  run_clear-Steady = ground arith

  counted-Steady :
      (k : String) (delta : ℤ) (r : Result EngineError ℤ)
      → Steady now_ms state (counted k delta state r)
  unfolding counted answered
  counted-Steady k delta (err e) = (h, refl)
  counted-Steady k delta (ok n) = (write-IsLive now_ms k _ _ state.store h, refl)

  run_counter-Steady :
      (k : String) (step : ℤ → Option ℤ) (delta : ℤ)
      → Steady now_ms state (run_counter k step delta state)
  unfolding run_counter
  run_counter-Steady k step delta = counted-Steady k delta _

  run_command-Steady :
      (c : Command) → now_ms < u64_max → Steady now_ms state (run_command c now_ms state)
  unfolding run_command answered
  run_command-Steady (Command.ping none) hn = (h, refl)
  run_command-Steady (Command.ping (some m)) hn = (h, refl)
  run_command-Steady (Command.get_del k) hn = run_get_del-Steady k
  run_command-Steady (Command.get_ex k x p) hn = run_get_ex-Steady k x p
  run_command-Steady (Command.set k v options) hn = run_set-Steady k v options
  run_command-Steady (Command.set_nx k v) hn = run_set_nx-Steady k v
  run_command-Steady (Command.mset entries) hn =
      (mset_store-IsLive now_ms entries state.store h, refl)
  run_command-Steady (Command.delete keys) hn =
      (delete_store-IsLive now_ms keys state.store h, refl)
  run_command-Steady (Command.incr k) hn = run_counter-Steady k _ _
  run_command-Steady (Command.decr k) hn = run_counter-Steady k _ _
  run_command-Steady (Command.expire k n) hn = run_expire-Steady k n hn
  run_command-Steady (Command.ttl k) hn = rw (ttl_for-live k now_ms state h) (h, refl)
  run_command-Steady (Command.persist k) hn = run_persist-Steady k
  run_command-Steady (Command.rename source destination) hn = run_rename-Steady source destination
  run_command-Steady (Command.rename_nx source destination) hn =
      if-Steady (contains_key destination state.store) _ _ (h, refl)
        (rw (purge_expired-state_live now_ms state h) (run_rename-Steady source destination))
  run_command-Steady (Command.scan cursor pattern count) hn =
      rw (purge_expired-live now_ms state.store h) (h, refl)
  run_command-Steady Command.list hn = rw (purge_expired-live now_ms state.store h) (h, refl)
  run_command-Steady Command.clear hn = run_clear-Steady
  run_command-Steady _ hn = (h, refl)

-- On a state with nothing expired, every command leaves a state with nothing expired at the same
-- time and the same metadata, if the time is below the largest `u64`.
pub evaluate-Steady :
    (c : Command) (now_ms : ℕ) (state : EngineState)
    → IsLive now_ms state.store
    → now_ms < u64_max
    → Steady now_ms state (evaluate c now_ms state)
unfolding evaluate
evaluate-Steady c now_ms state h hn =
    rw (purge_expired-state_live now_ms state h) (run_command-Steady now_ms state h c hn)
