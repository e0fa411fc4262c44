-- ===== src/Relay.antt =====
-- services/agent-runner/src/event_relay: the buffer of events on their way to control-api (mod.rs), the
-- loop that sends them in batches (dispatch.rs), and the retries of a request (retry.rs).
pub mod Events
pub mod Fifo
pub mod Groups
pub mod Posts
use rustacean.Common.{
  ℕ, zero, suc, ◌+◌, ◌-◌, ◌*◌, ◌^◌, min, String, Bool, true, false, Option, none, some, List, [],
  ◌∷◌, ◌++◌, map, length, take, drop, leb, if◌then◌else◌,
}
use rustacean.Relay.Events.{RuntimeEvent, StreamLine, normalize_line}
use text.Mathlib.Text.{◌==◌}

pub record RelayItem : Type 0 where
  pub session_id : String
  pub tenant_id : String
  pub seq : ℕ
  pub event : RuntimeEvent
  pub emitted_at_ms : ℕ
  pub turn_id : Option String

-- The shared buffer, and what the sender and the loop are set up with. `notified` is the permit of the
-- `Notify`, of which there is one at most.
pub record Relay : Type 0 where
  pub buffer : List RelayItem
  pub capacity : ℕ
  pub batch_size : ℕ
  pub notified : Bool

abbrev pub spawn : ℕ → ℕ → Relay
spawn capacity batch_size = record {
  buffer = [];
  capacity = capacity;
  batch_size = batch_size;
  notified = false;
}

abbrev pub pop_oldest : List RelayItem → List RelayItem
pop_oldest [] = []
pop_oldest (item ∷ items) = items

-- `EventSender::send`
unfoldable pub send : RelayItem → Relay → Relay
send item r =
    let kept = if leb r.capacity (length r.buffer) then pop_oldest r.buffer else r.buffer in
    let buf = kept ++ (item ∷ []) in
    record r { buffer = buf; notified = if leb r.batch_size (length buf) then true else r.notified }

abbrev pub send_all : (RuntimeEvent → RelayItem) → List RuntimeEvent → Relay → Relay
unfolding send
send_all item [] r = r
send_all item (e ∷ es) r = send_all item es (send (item e) r)

-- `relay_stdout_events`, at a time.
unfoldable pub relay_stdout_events :
    (List ℕ → Option StreamLine) → ℕ → String → String → ℕ → List ℕ → Option String → Relay → Relay
unfolding normalize_line send
relay_stdout_events from_str now_ms session_id tenant_id seq line turn_id =
    send_all
      (λ event. record {
        session_id = session_id;
        tenant_id = tenant_id;
        seq = seq;
        event = event;
        emitted_at_ms = now_ms;
        turn_id = turn_id;
      })
      (normalize_line from_str line)

-- What wakes the loop: the timer, or the permit, which it takes.
pub data Wake : Type 0 where
  timer notify : Wake

abbrev is_empty : List RelayItem → Bool
is_empty [] = true
is_empty (item ∷ items) = false

abbrev size_triggered : Wake → Relay → Bool
size_triggered timer r = false
size_triggered notify r = leb r.batch_size (length r.buffer)

abbrev woken : Wake → Relay → Relay
woken timer r = r
woken notify r = record r { notified = false }

-- The three times that a pass of `flush_loop` holds the lock: it is woken and looks at the length, it
-- looks whether the buffer is empty, and it takes the batch. Senders may come between them.
unfoldable pub wake_up : Wake → Relay → Relay × Bool
wake_up wake r = (woken wake r, size_triggered wake r)

unfoldable pub goes_on : Bool → Relay → Bool
goes_on size_triggered r =
    if size_triggered then true else (if is_empty r.buffer then false else true)

unfoldable pub take_batch : Relay → List RelayItem × Relay
take_batch r =
    let n = min (length r.buffer) r.batch_size in
    (take n r.buffer, record r { buffer = drop n r.buffer })

-- `by_session.entry(session_id).or_default().push(item)`, in the order of the first items.
abbrev pub push_item : RelayItem → List (String × List RelayItem) → List (String × List RelayItem)
push_item item [] = (item.session_id, item ∷ []) ∷ []
push_item item ((id, items) ∷ groups) =
    let rest = push_item item groups in
    if item.session_id == id then (id, items ++ (item ∷ [])) ∷ groups else (id, items) ∷ rest

unfoldable pub group_items :
    List RelayItem → List (String × List RelayItem) → List (String × List RelayItem)
group_items [] groups = groups
group_items (item ∷ items) groups = group_items items (push_item item groups)

abbrev pub by_session : List RelayItem → List (String × List RelayItem)
by_session batch = group_items batch []

-- What is posted for a session: its URL, and the body, whose events and turn ids go side by side.
pub record Body : Type 0 where
  pub tenant_id : String
  pub events : List String
  pub turn_ids : List (Option String)

pub record Post : Type 0 where
  pub session_id : String
  pub body : Body
  pub event_count : ℕ

abbrev push_value : Option String → RelayItem → Body → Body
push_value none item b = b
push_value (some v) item b = record b {
  events = b.events ++ (v ∷ []);
  turn_ids = b.turn_ids ++ (item.turn_id ∷ []);
}

-- `to_value` is what serde_json makes of an event, nothing for an error.
unfoldable pub push_values : (RuntimeEvent → Option String) → List RelayItem → Body → Body
push_values to_value [] b = b
push_values to_value (item ∷ items) b =
    push_values to_value items (push_value (to_value item.event) item b)

abbrev post_of : String → Body → Option Post
post_of id b = elim b.events [
  | [] ↦ none
  | v ∷ vs ↦ some (record { session_id = id; body = b; event_count = length b.events })
]

-- `flush_session` up to the request. A group is never empty: `items[0]` is there.
unfoldable pub flush_session :
    (RuntimeEvent → Option String) → String → List RelayItem → Option Post
unfolding push_values
flush_session to_value id [] = none
flush_session to_value id (item ∷ items) = post_of id (
    push_values to_value (item ∷ items)
      (record { tenant_id = item.tenant_id; events = []; turn_ids = [] }))

-- `MAX_RETRY_ATTEMPTS`, `BASE_RETRY_DELAY_MS`
abbrev pub max_retry_attempts : ℕ
max_retry_attempts = 5

abbrev pub base_retry_delay_ms : ℕ
base_retry_delay_ms = 100

-- What the request of an attempt ends in.
pub data Response : Type 0 where
  success server_error refused transient broken : Response

-- The counters and the delays of a call.
pub record Posted : Type 0 where
  pub requests : ℕ
  pub delays : List ℕ
  pub published : ℕ
  pub failed : ℕ

abbrev pub delay : ℕ → Posted → Posted
delay zero p = p
delay (suc n) p = record p { delays = p.delays ++ ((base_retry_delay_ms * 2 ^ n) ∷ []) }

abbrev pub request : ℕ → Posted → Posted
request attempt p = let q = delay attempt p in record q { requests = q.requests + 1 }

abbrev pub count_published : ℕ → Posted → Posted
count_published event_count p = record p { published = p.published + event_count }

abbrev pub count_failed : ℕ → Posted → Posted
count_failed event_count p = record p { failed = p.failed + event_count }

-- What follows on an answer; `later` is the rest of the loop.
abbrev pub conclude : Response → ℕ → Posted → Posted → Posted
conclude success event_count p later = count_published event_count p
conclude server_error event_count p later = later
conclude refused event_count p later = count_failed event_count p
conclude transient event_count p later = later
conclude broken event_count p later = count_failed event_count p

-- The loop from an attempt on, with that many attempts left.
unfoldable pub post_from : ℕ → ℕ → (ℕ → Response) → ℕ → Posted → Posted
post_from zero attempt answer event_count p = count_failed event_count p
post_from (suc left) attempt answer event_count p =
    let q = request attempt p in
    let later = post_from left (suc attempt) answer event_count q in
    conclude (answer attempt) event_count q later

abbrev pub nothing_posted : Posted
nothing_posted = record { requests = 0; delays = []; published = 0; failed = 0 }

unfoldable pub post_with_retry : (ℕ → Response) → ℕ → Posted
unfolding post_from
post_with_retry answer event_count =
    post_from max_retry_attempts 0 answer event_count nothing_posted
