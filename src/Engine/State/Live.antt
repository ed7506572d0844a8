-- ===== src/Engine/State/Live.antt =====
-- The state after a purge: nothing is expired, and neither a second purge nor a read of a TTL at
-- the same time changes anything.
use vaylix.Prelude.{ℕ, ◌≡◌, refl, ap, ◌∙◌, String, arith, Option, none, some}
use vaylix.Table.{lookup, contains_key}
use vaylix.Engine.Store
use vaylix.Engine.Store.{EngineStore, StoredValue, expired}
use vaylix.Engine.Store.Purge.{IsLive, IsLive-lookup, purge_expired-IsLive, purge_expired-live}
use vaylix.Engine.State.{EngineState, purge_expired, ttl_of, ttl_for}

pub purge_expired-state_IsLive :
    (now_ms : ℕ) (state : EngineState) → IsLive now_ms (purge_expired now_ms state).store
unfolding purge_expired
purge_expired-state_IsLive now_ms state = purge_expired-IsLive now_ms state.store

pub purge_expired-state_live :
    (now_ms : ℕ) (state : EngineState)
    → IsLive now_ms state.store
    → purge_expired now_ms state ≡ state
unfolding purge_expired
purge_expired-state_live now_ms state h = rw (purge_expired-live now_ms state.store h)

ttl_of-live :
    (k : String) (now_ms : ℕ) (state : EngineState)
    → IsLive now_ms state.store
    → (ttl_of k now_ms state).0 ≡ state
unfolding ttl_of contains_key Store.expiration expired
ttl_of-live k now_ms state h = go (lookup k state.store) refl
  where
    go : (o : Option StoredValue) → lookup k state.store ≡ o → (ttl_of k now_ms state).0 ≡ state
    go none p = ground arith
    go (some e) p = ground (arith, IsLive-lookup now_ms k state.store {e = e} h p)

pub ttl_for-live :
    (k : String) (now_ms : ℕ) (state : EngineState)
    → IsLive now_ms state.store
    → (ttl_for k now_ms state).0 ≡ state
unfolding ttl_for
ttl_for-live k now_ms state h =
    ap (λ s. (ttl_of k now_ms s).0) (purge_expired-state_live now_ms state h)
    ∙ ttl_of-live k now_ms state h
