-- ===== src/Engine/Recovery/Replay.antt =====
-- Recovery from a snapshot and the log that is retained beside it, crates/engine/src/engine/core.rs:
-- entries that the snapshot already holds are applied again.
use vaylix.Prelude.{
  false, ℕ, ◌≤◌, ◌≡◌, refl, ap, ◌∙◌, sym, String, Option, none, some, List, [], ◌∷◌, Result, ok,
  ◌>>=◌, >>=-eq-ok, arith, All, max,
}
use vaylix.Table.{lookup, insert}
use vaylix.Engine.Integer.{ℤ, i64_to_string, checked_add}
use vaylix.Table.Laws.{IsMap, IsMap-insert, IsMap-remove}
use vaylix.Engine.Error.{EngineError}
use vaylix.Engine.Store
use vaylix.Engine.Store.{
  StoredValue, EngineStore, insert_value_with_version, set_expiration_if_present,
  next_value_version,
}
use vaylix.Engine.Store.Purge.{live_at, lookup-purge_expired}
use vaylix.Engine.State.{
  EngineMetadata, EngineState, WalOperation, WalEntry, run_operation, run_operations, purge_expired,
  replay_entries, parse_integer_value, or_overflow, some_or_zero,
}
use vaylix.Engine.Log.{StorageEnv, Identities, build_wal_entry_identities}
use vaylix.Engine.State.Entry.{advanced, replay_entries-cons}
use vaylix.Engine.Recovery.{
  mark_snapshot, validate_manifest_snapshot, with_manifest, recover, take_snapshot,
}
use vaylix.Engine.Recovery.Effect.{
  Effect, keep, act, then_effect, act-then_effect, effects_of, IsAbsolute, run_operations-act,
  run_operations-total, act-again,
}

-- The keys stay distinct.
set_expiration-IsMap :
    (k : String) (t : ℕ) (s : EngineStore) → IsMap s → IsMap (set_expiration_if_present k t s).0
unfolding set_expiration_if_present
set_expiration-IsMap k t s h = go (lookup k s) refl
  where
    go : (o : Option StoredValue) → lookup k s ≡ o → IsMap (set_expiration_if_present k t s).0
    go none p = rw (p, set_expiration_if_present) h
    go (some e) p = rw (p, set_expiration_if_present) (IsMap-insert k _ s h)

clear_expiration-IsMap :
    (k : String) (s : EngineStore) → IsMap s → IsMap (Store.clear_expiration k s).0
unfolding Store.clear_expiration
clear_expiration-IsMap k s h = go (lookup k s) refl
  where
    go : (o : Option StoredValue) → lookup k s ≡ o → IsMap (Store.clear_expiration k s).0
    go none p = rw (p, Store.clear_expiration) h
    go (some e) p = rw (p, Store.clear_expiration) (IsMap-insert k _ s h)

IsMap-of :
    {s t : EngineStore} → ◌≡◌ {A = Result EngineError EngineStore} (ok s) (ok t) → IsMap s → IsMap t
IsMap-of {s} {t} r h = let e : s ≡ t = cc in rw (e) at h

run_operation-IsMap :
    (op : WalOperation) (s t : EngineStore) → run_operation op s ≡ ok t → IsMap s → IsMap t
unfolding run_operation insert_value_with_version
run_operation-IsMap (WalOperation.set k v n) s t r h = IsMap-of r (IsMap-insert k _ s h)
run_operation-IsMap (WalOperation.delete k) s t r h = IsMap-of r (IsMap-remove k s h)
run_operation-IsMap (WalOperation.expire k u) s t r h = IsMap-of r (set_expiration-IsMap k u s h)
run_operation-IsMap (WalOperation.persist k) s t r h = IsMap-of r (clear_expiration-IsMap k s h)
run_operation-IsMap WalOperation.clear s t r h = IsMap-of {s = []} r tt
run_operation-IsMap (WalOperation.check_integer k d) s t r h =
    let write : ℤ → Result EngineError EngineStore = λ m. ok (
      insert k
        (record {
          value = i64_to_string m;
          expires_at_ms = none;
          version = next_value_version (lookup k s);
        })
        s) in
    let (n, _, p) =
      >>=-eq-ok (parse_integer_value k (some_or_zero (lookup k s)))
        (λ n. or_overflow k (checked_add n d) >>= write) r in
    let (m, _, q) = >>=-eq-ok (or_overflow k (checked_add n d)) write p in
    IsMap-of q (IsMap-insert k _ s h)

run_operations-IsMap :
    (ops : List WalOperation) (s t : EngineStore) → run_operations ops s ≡ ok t → IsMap s → IsMap t
unfolding run_operations
run_operations-IsMap [] s t r h = IsMap-of r h
run_operations-IsMap (op ∷ ops) s t r h =
    let (u, p, q) = >>=-eq-ok (run_operation op s) (run_operations ops) r in
    run_operations-IsMap ops u t q (run_operation-IsMap op s u p h)

-- No entry changes a counter.
abbrev pub AllAbsolute : List WalEntry → Type 0
AllAbsolute entries = All (λ e. IsAbsolute e.operations) entries

abbrev entries_effect : String → List WalEntry → Effect
entries_effect j [] = keep
entries_effect j (e ∷ entries) = then_effect (effects_of j e.operations) (entries_effect j entries)

-- The sequence after a replay.
abbrev pub last_sequence : ℕ → List WalEntry → ℕ
last_sequence n [] = n
last_sequence n (e ∷ entries) = last_sequence e.sequence entries

record IsReplay (entries : List WalEntry) (s t : EngineState) : Type 0 where
  effect : (j : String) → lookup j t.store ≡ act (entries_effect j entries) (lookup j s.store)
  keys : IsMap s.store → IsMap t.store
  sequence :
      t.metadata.last_applied_sequence ≡ last_sequence s.metadata.last_applied_sequence entries

replay_entries-IsReplay :
    (entries : List WalEntry) (s : EngineState)
    → AllAbsolute entries
    → (t : EngineState) × (replay_entries entries s ≡ ok t) × IsReplay entries s t
unfolding replay_entries
replay_entries-IsReplay [] s h =
    (s, refl, record { effect = λ j. refl; keys = λ m. m; sequence = refl })
replay_entries-IsReplay (e ∷ entries) s (h, hs) =
    let (u, p) = run_operations-total e.operations s.store h in
    let (t, q, r) =
      replay_entries-IsReplay entries (record { store = u; metadata = advanced e s.metadata }) hs in
    (
      t,
      replay_entries-cons e entries s u p ∙ q,
      record {
        effect = λ j.
            r.effect j
            ∙ ap (act (entries_effect j entries)) (run_operations-act e.operations s.store u j h p)
            ∙ sym (
                act-then_effect (effects_of j e.operations) (entries_effect j entries)
                  (lookup j s.store));
        keys = λ m. r.keys (run_operations-IsMap e.operations s.store u p m);
        sequence = r.sequence;
      },
    )

last_sequence-again :
    (n : ℕ) (entries : List WalEntry)
    → last_sequence (last_sequence n entries) entries ≡ last_sequence n entries
last_sequence-again n [] = refl
last_sequence-again n (e ∷ entries) = refl

-- The state that recovery starts from, right after a snapshot: the purged one.
purge_expired-sequence :
    (now_ms : ℕ) (s : EngineState)
    → (purge_expired now_ms s).metadata.last_applied_sequence ≡ s.metadata.last_applied_sequence
unfolding purge_expired
purge_expired-sequence now_ms s = ground arith

pub purge_expired-store :
    (now_ms : ℕ) (s : EngineState)
    → (purge_expired now_ms s).store ≡ (Store.purge_expired now_ms s.store).0
unfolding purge_expired
purge_expired-store now_ms s = refl

module _ (format now_ms size sum : ℕ) (oldest : Option ℕ) where
  pub with_manifest-take_snapshot :
      (s : EngineState)
      → (r : EngineState) × (with_manifest format
            (some (take_snapshot format now_ms size sum oldest s).0)
            (some (take_snapshot format now_ms size sum oldest s).1)
            (take_snapshot format now_ms size sum oldest s).0.state
          ≡ ok r)
        × (r.store ≡ (purge_expired now_ms s).store)
        × (r.metadata.last_applied_sequence ≡ s.metadata.last_applied_sequence)
  unfolding with_manifest take_snapshot validate_manifest_snapshot mark_snapshot
  with_manifest-take_snapshot s =
      let purged = purge_expired now_ms s in
      let n = purged.metadata.last_applied_sequence in
      let metadata : EngineMetadata = record purged.metadata {
        updated_at_ms = now_ms;
        last_snapshot_at_ms = some now_ms;
        last_applied_sequence = max n n;
      } in
      (
        record { store = purged.store; metadata = metadata },
        ground arith,
        refl,
        ground (arith, purge_expired-sequence now_ms s),
      )

-- If the retained entries, whose identities do not conflict, led to the state `s`, no counter among them, and no legacy log is there, then the recovery from a
-- snapshot of `s` applies them a second time with no visible effect: it succeeds, every key reads as
-- in `s` at the time of the snapshot and later, and the sequence is that of `s`.
pub recover-take_snapshot :
    (env : StorageEnv) (format now_ms later_ms size sum : ℕ) (oldest : Option ℕ)
    (fresh before s : EngineState) (retained : List WalEntry) (ids : Identities) (j : String)
    → build_wal_entry_identities env retained ≡ ok ids
    → IsMap before.store
    → AllAbsolute retained
    → replay_entries retained before ≡ ok s
    → now_ms ≤ later_ms
    → (r : EngineState) × (recover format env false fresh
          (some (take_snapshot format now_ms size sum oldest s).0)
          (some (take_snapshot format now_ms size sum oldest s).1)
          retained
        ≡ ok r)
      × (live_at later_ms (lookup j r.store) ≡ live_at later_ms (lookup j s.store))
      × (r.metadata.last_applied_sequence ≡ s.metadata.last_applied_sequence)
unfolding recover
recover-take_snapshot env format now_ms later_ms size sum oldest fresh before s retained ids j built
      map abs led h =
    let (start, p, store, n) = with_manifest-take_snapshot format now_ms size sum oldest s in
    let (s', led', first) = replay_entries-IsReplay retained before abs in
    let (r, q, second) = replay_entries-IsReplay retained start abs in
    let same : s' ≡ s = cc in
    let first : IsReplay retained before s = rw (same) at first in
    let f = entries_effect j retained in
    (
      r,
      rw (p, built, recover) q,
      ap (live_at later_ms) (
            second.effect j
            ∙ ap (act f) (
                ap (lookup j) (store ∙ purge_expired-store now_ms s)
                ∙ lookup-purge_expired now_ms j s.store (first.keys map)
                ∙ ap (live_at now_ms) (first.effect j)))
          ∙ act-again f now_ms later_ms (lookup j before.store) h
          ∙ ap (live_at later_ms) (sym (first.effect j)),
      second.sequence
          ∙ ap (λ m. last_sequence m retained) (n ∙ first.sequence)
          ∙ last_sequence-again before.metadata.last_applied_sequence retained
          ∙ sym first.sequence,
    )
