-- ===== src/Tests/Streams.antt =====
-- crates/rb-sse: runs of a ring with two places and of a client of a tenant.
use rustacean.Common.{
  ℕ, ◌≤◌, max, String, ◌≡◌, refl, ap, ◌∙◌, inl, inr, false, none, some, List, [], ◌∷◌, ◌++◌, length,
  drop, arith,
}
use rustacean.Tenant.{TenantId}
use rustacean.Sse.Ring.{
  SseEnvelope, new_ring, evict, evict_expired, push, events_after, replay_after,
}
use rustacean.Sse.Ring.History.{IsEndOf, push_all, pushed, push_all-IsEndOf, replay_after_complete}
use rustacean.Sse.Ring.Retention.{replay_after-finds}
use rustacean.Sse.Broadcaster.{
  send_all, Broadcast, SseConfig, PerTenantBroadcaster, new_state, get_or_create, Action, store,
  send, run, publish, subscribe_to, subscribe_raw,
}
use rustacean.Sse.Broadcaster.Gapless.{stores, Reaches, subscribe_to-Reaches}
use rustacean.Sse.Broadcaster.Isolation.{publish-put_state}
use rustacean.Sse.Stream.{Recv, received, lagged, poll_all}
use rustacean.Sse.Stream.Selection.{Selects, before_end, advisory, poll_all-Selects}

abbrev event : String → ℕ → SseEnvelope
event id at = record {
  id = id;
  event = "ingest.status";
  retry_ms = some 5000;
  payload = id;
  created_at = at;
}

abbrev pushes : List (ℕ × SseEnvelope)
pushes = (10, event "a" 10) ∷ (11, event "b" 11) ∷ (12, event "c" 12) ∷ []

push_all-IsEndOf_example :
    (let ring = push_all pushes (new_ring 2 300) in
      IsEndOf ring.buf (pushed pushes) × (length ring.buf ≤ max 1 2))
push_all-IsEndOf_example = push_all-IsEndOf pushes 2 300

run_replay : (replay_after 13 "b" (push_all pushes (new_ring 2 300))).0 ≡ some (event "c" 12 ∷ [])
unfolding replay_after evict_expired evict push events_after
run_replay = refl

replay_after_complete_example :
    (older : List SseEnvelope) × (l : SseEnvelope) × (pushed pushes
      ≡ older ++ (l ∷ event "c" 12 ∷ []))
    × (l.id ≡ "b")
replay_after_complete_example =
    replay_after_complete pushes 2 300 13 "b" (event "c" 12 ∷ []) run_replay

replay_after-finds_example :
    (es : List SseEnvelope) × ((replay_after 13 "a"
        (push_all ((12, event "c" 12) ∷ []) (push 10 (event "a" 10) (new_ring 2 300)))).0
      ≡ some es)
replay_after-finds_example =
    replay_after-finds ((12, event "c" 12) ∷ []) (event "a" 10) 10 13 (new_ring 2 300) (omega arith)
      (refl, tt) refl

abbrev snoc : SseEnvelope → List SseEnvelope → List SseEnvelope
snoc e c = c ++ (e ∷ [])

-- A channel that keeps what is sent; a receiver is the place where it starts.
drop-send_all : (c es : List SseEnvelope) → drop (length c) (send_all snoc es c) ≡ es
drop-send_all c es = ap (drop (length c)) (send_all-append es c) ∙ drop-append c es
  where
    append_assoc : (xs ys zs : List SseEnvelope) → (xs ++ ys) ++ zs ≡ xs ++ (ys ++ zs)
    append_assoc [] ys zs = refl
    append_assoc (x ∷ xs) ys zs = ap (λ ws. x ∷ ws) (append_assoc xs ys zs)

    append_nil : (xs : List SseEnvelope) → xs ≡ xs ++ []
    append_nil [] = refl
    append_nil (x ∷ xs) = ap (λ ws. x ∷ ws) (append_nil xs)

    send_all-append : (es c : List SseEnvelope) → send_all snoc es c ≡ c ++ es
    send_all-append [] c = append_nil c
    send_all-append (e ∷ es) c = send_all-append es (snoc e c) ∙ append_assoc c (e ∷ []) es

    drop-append : (c es : List SseEnvelope) → drop (length c) (c ++ es) ≡ es
    drop-append [] es = refl
    drop-append (x ∷ c) es = drop-append c es

abbrev tokio : Broadcast
tokio = record {
  Channel = List SseEnvelope;
  Receiver = ℕ;
  channel = λ capacity. [];
  send = snoc;
  subscribe = length;
  received = λ r c. drop r c;
  received-subscribe = drop-send_all;
}

abbrev cfg : SseConfig
cfg = record { channel_capacity = 16; ring_capacity = 8; ring_ttl = 300 }

-- `b` is pushed before the client subscribes, and sent after it.
abbrev before : List (Action tokio)
before = store 10 (event "a" 10) ∷ send (event "a" 10) ∷ store 11 (event "b" 11) ∷ []

abbrev between : List (Action tokio)
between = send (event "b" 11) ∷ store 12 (event "c" 12) ∷ []

abbrev after : List (Action tokio)
after = send (event "c" 12) ∷ []

run_found :
    (replay_after 13 "a" (run tokio between (run tokio before (new_state tokio cfg))).ring).0
    ≡ some (event "b" 11 ∷ event "c" 12 ∷ [])
unfolding run replay_after evict_expired evict push events_after
run_found = refl

subscribe_to-Reaches_example :
    (let s = run tokio before (new_state tokio cfg) in
      let (rx, replay, s') = subscribe_to tokio 13 (some "a") between s in
      Reaches tokio
        (event "c" 12)
        "a"
        (pushed (stores tokio before ++ stores tokio between))
        replay
        (tokio.received rx (run tokio after s').sender))
subscribe_to-Reaches_example =
    subscribe_to-Reaches tokio cfg before between after 13 "a" (event "b" 11 ∷ event "c" 12 ∷ [])
      (event "c" 12) (inl refl, (inl refl, (inl refl, tt))) run_found (inr (inr (inl refl)))

abbrev left_tenant : TenantId
left_tenant = record { bytes = 1 ∷ [] }

abbrev right_tenant : TenantId
right_tenant = record { bytes = 2 ∷ [] }

abbrev empty_bus : PerTenantBroadcaster tokio
empty_bus = record { states = []; cfg = cfg }

apart : ¬ (right_tenant.bytes ≡ left_tenant.bytes)
apart h = absurd (bytes_apart (ap first h))
  where
    first : List ℕ → ℕ
    first [] = 0
    first (b ∷ bs) = b

    bytes_apart : ◌≡◌ {A = ℕ} 2 1 → ⊥
    bytes_apart h = omega arith

publish-put_state_example :
    (get_or_create tokio (publish tokio 10 left_tenant (event "a" 10) empty_bus) left_tenant
      ≡ run tokio
          (store 10 (event "a" 10) ∷ send (event "a" 10) ∷ [])
          (get_or_create tokio empty_bus left_tenant))
    × (get_or_create tokio (publish tokio 10 left_tenant (event "a" 10) empty_bus) right_tenant
        ≡ get_or_create tokio empty_bus right_tenant)
    × (get_or_create tokio (subscribe_raw tokio 10 left_tenant none [] empty_bus).2 right_tenant
        ≡ get_or_create tokio empty_bus right_tenant)
publish-put_state_example =
    publish-put_state tokio empty_bus left_tenant right_tenant 10 (event "a" 10) none [] apart

-- Every event's data is the name of its session here.
abbrev recvs : List Recv
recvs = received (event "t" 2) ∷ received (event "s" 3) ∷ lagged 4 ∷ []

poll_all-Selects_example :
    (seen : List SseEnvelope) × Selects
      (λ payload. some payload)
      (some "s")
      ((event "s" 1 ∷ []) ++ before_end recvs)
      seen
    × (poll_all
          (λ payload. some payload)
          (event "reset" 0)
          (some "s")
          5
          (record { replay = event "s" 1 ∷ []; done = false })
          recvs
        ≡ seen ++ advisory (event "reset" 0) recvs)
poll_all-Selects_example =
    poll_all-Selects (λ payload. some payload) (event "reset" 0) (some "s") 5 (event "s" 1 ∷ [])
      recvs (omega arith)
