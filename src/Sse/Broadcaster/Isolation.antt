-- ===== src/Sse/Broadcaster/Isolation.antt =====
-- crates/rb-sse/src/broadcaster.rs: the tenants do not see each other.
use rustacean.Common.{ℕ, String, ◌≡◌, inl, inr, Option, List, [], ◌∷◌, Bool-cases}
use rustacean.Common.Bytes.{eq_bytes, eq_bytes→eq, eq_bytes_refl}
use rustacean.Tenant.{TenantId}
use rustacean.Sse.Ring.{SseEnvelope}
use rustacean.Sse.Broadcaster.{
  Broadcast, TenantState, PerTenantBroadcaster, put_state, get_or_create, Action, store, send, run,
  publish, subscribe_raw,
}

module _ (tokio : Broadcast) where
  get_or_create-put_other :
      (b : PerTenantBroadcaster tokio) (id other : TenantId) (s : TenantState tokio)
      → ¬ (other.bytes ≡ id.bytes)
      → get_or_create tokio (put_state tokio b id s) other ≡ get_or_create tokio b other
  unfolding get_or_create
  get_or_create-put_other b id other s apart = elim (Bool-cases (eq_bytes other.bytes id.bytes)) [
    | inl h ↦ absurd (apart (eq_bytes→eq other.bytes id.bytes h))
    | inr h ↦ rw h
  ]

  get_or_create-put_same :
      (b : PerTenantBroadcaster tokio) (id : TenantId) (s : TenantState tokio)
      → get_or_create tokio (put_state tokio b id s) id ≡ s
  unfolding get_or_create
  get_or_create-put_same b id s = rw (eq_bytes_refl id.bytes)

-- Publishing to a tenant pushes the event into the tenant's ring and then sends it; neither that, nor
-- a subscription to the tenant and what happens to the tenant meanwhile, changes the state of another
-- tenant.
pub publish-put_state :
    (tokio : Broadcast) (b : PerTenantBroadcaster tokio) (id other : TenantId) (now : ℕ)
    (env : SseEnvelope) (last_event_id : Option String) (between : List (Action tokio))
    → ¬ (other.bytes ≡ id.bytes)
    → (get_or_create tokio (publish tokio now id env b) id
        ≡ run tokio (store now env ∷ send env ∷ []) (get_or_create tokio b id))
      × (get_or_create tokio (publish tokio now id env b) other ≡ get_or_create tokio b other)
      × (get_or_create tokio (subscribe_raw tokio now id last_event_id between b).2 other
          ≡ get_or_create tokio b other)
unfolding publish subscribe_raw
publish-put_state tokio b id other now env last_event_id between apart = (
  get_or_create-put_same tokio b id _,
  get_or_create-put_other tokio b id other _ apart,
  get_or_create-put_other tokio b id other _ apart,
)
