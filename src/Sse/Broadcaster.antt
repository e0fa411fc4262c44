-- ===== src/Sse/Broadcaster.antt =====
-- crates/rb-sse/src/broadcaster.rs: the states of the tenants. The channel, tokio's `broadcast`, is a
-- parameter. Publishing is two steps, one that locks the ring and one that sends, which the steps of
-- other threads can come between.
pub mod Gapless
pub mod Isolation
use rustacean.Common.{ℕ, String, ◌≡◌, Option, none, some, List, [], ◌∷◌, ◌++◌, if◌then◌else◌}
use rustacean.Common.Bytes.{eq_bytes}
use rustacean.Tenant.{TenantId}
use rustacean.Sse.Ring.{SseEnvelope, RingBuffer, new_ring, push, replay_after}

abbrev pub send_all : {C : Type 0} → (SseEnvelope → C → C) → List SseEnvelope → C → C
send_all send [] c = c
send_all send (e ∷ es) c = send_all send es (send e c)

-- A receiver that does not lag receives what is sent after it subscribes, in order.
pub record Broadcast : Type 1 where
  pub Channel : Type 0
  pub Receiver : Type 0
  pub channel : ℕ → Channel
  pub send : SseEnvelope → Channel → Channel
  pub subscribe : Channel → Receiver
  pub received : Receiver → Channel → List SseEnvelope
  pub received-subscribe :
      (c : Channel) (es : List SseEnvelope) → received (subscribe c) (send_all send es c) ≡ es

pub record SseConfig : Type 0 where
  pub channel_capacity : ℕ
  pub ring_capacity : ℕ
  pub ring_ttl : ℕ

module _ (tokio : Broadcast) where
  pub record TenantState : Type 0 where
    pub sender : tokio.Channel
    pub ring : RingBuffer

  pub record PerTenantBroadcaster : Type 0 where
    pub states : List (TenantId × TenantState)
    pub cfg : SseConfig

  abbrev pub state_of : TenantId → List (TenantId × TenantState) → Option TenantState
  state_of id [] = none
  state_of id ((other, s) ∷ states) =
      let rest = state_of id states in if eq_bytes id.bytes other.bytes then some s else rest

  abbrev pub new_state : SseConfig → TenantState
  new_state cfg = record {
    sender = tokio.channel cfg.channel_capacity;
    ring = new_ring cfg.ring_capacity cfg.ring_ttl;
  }

  abbrev or_new : SseConfig → Option TenantState → TenantState
  or_new cfg none = new_state cfg
  or_new cfg (some s) = s

  unfoldable pub get_or_create : PerTenantBroadcaster → TenantId → TenantState
  get_or_create b id = or_new b.cfg (state_of id b.states)

  -- The state of a tenant is shared: what a step does to it stays.
  abbrev pub put_state : PerTenantBroadcaster → TenantId → TenantState → PerTenantBroadcaster
  put_state b id s = record b { states = (id, s) ∷ b.states }

  -- The two steps of `publish`, the first with its time.
  pub data Action : Type 0 where
    store : ℕ → SseEnvelope → Action
    send : SseEnvelope → Action

  abbrev pub act : Action → TenantState → TenantState
  act (store now e) s = record s { ring = push now e s.ring }
  act (send e) s = record s { sender = tokio.send e s.sender }

  unfoldable pub run : List Action → TenantState → TenantState
  run [] s = s
  run (a ∷ actions) s = run actions (act a s)

  unfoldable pub publish : ℕ → TenantId → SseEnvelope → PerTenantBroadcaster → PerTenantBroadcaster
  unfolding get_or_create run
  publish now id env b = put_state b id (run (store now env ∷ send env ∷ []) (get_or_create b id))

  abbrev replay_or_nothing : ℕ → Option String → TenantState → List SseEnvelope × TenantState
  replay_or_nothing now none s = ([], s)
  replay_or_nothing now (some last_id) s =
      let (found, ring) = replay_after now last_id s.ring in
      (elim found [ none ↦ [] | some es ↦ es ], record s { ring = ring })

  -- What other threads do between the subscription and the lookup is an argument.
  unfoldable pub subscribe_to :
      ℕ
      → Option String
      → List Action
      → TenantState
      → tokio.Receiver × List SseEnvelope × TenantState
  unfolding run
  subscribe_to now last_event_id between s =
      let rx = tokio.subscribe s.sender in
      let (replay, s') = replay_or_nothing now last_event_id (run between s) in (rx, replay, s')

  unfoldable pub subscribe_raw :
      ℕ
      → TenantId
      → Option String
      → List Action
      → PerTenantBroadcaster
      → tokio.Receiver × List SseEnvelope × PerTenantBroadcaster
  unfolding get_or_create subscribe_to
  subscribe_raw now id last_event_id between b =
      let (rx, replay, s) = subscribe_to now last_event_id between (get_or_create b id) in
      (rx, replay, put_state b id s)
