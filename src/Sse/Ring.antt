-- ===== src/Sse/Ring.antt =====
-- crates/rb-sse/src/broadcaster.rs and envelope.rs: the ring buffer. A time is a number of
-- milliseconds; `Utc::now()` is an argument of the operations that read it.
pub mod History
pub mod Retention
use rustacean.Common.{
  ℕ, ◌+◌, String, Bool, Option, none, some, List, [], ◌∷◌, ◌++◌, length, ltb, leb, if◌then◌else◌,
}
use text.Mathlib.Text.{◌==◌}

-- The field `data` is `payload` here.
pub record SseEnvelope : Type 0 where
  pub id : String
  pub event : String
  pub retry_ms : Option ℕ
  pub payload : String
  pub created_at : ℕ

pub record RingBuffer : Type 0 where
  pub cap : ℕ
  pub ttl : ℕ
  pub buf : List SseEnvelope

abbrev pub new_ring : ℕ → ℕ → RingBuffer
new_ring cap ttl = record { cap = cap; ttl = ttl; buf = [] }

-- `front.created_at < cutoff`, where `cutoff` is `now - ttl`.
abbrev pub is_expired : ℕ → ℕ → SseEnvelope → Bool
is_expired now ttl e = ltb (e.created_at + ttl) now

-- The `while` loop: the front goes as long as it is expired.
unfoldable pub evict : ℕ → ℕ → List SseEnvelope → List SseEnvelope
evict now ttl [] = []
evict now ttl (e ∷ es) =
    let rest = evict now ttl es in if is_expired now ttl e then rest else e ∷ es

unfoldable pub evict_expired : ℕ → RingBuffer → RingBuffer
unfolding evict
evict_expired now ring = record ring { buf = evict now ring.ttl ring.buf }

abbrev pub pop_front : List SseEnvelope → List SseEnvelope
pop_front [] = []
pop_front (e ∷ es) = es

unfoldable pub push : ℕ → SseEnvelope → RingBuffer → RingBuffer
unfolding evict_expired
push now env ring =
    let live = (evict_expired now ring).buf in
    record ring {
      buf = (if leb ring.cap (length live) then pop_front live else live) ++ (env ∷ []);
    }

-- `position` and the range behind it: what follows the first event with the id.
unfoldable pub events_after : String → List SseEnvelope → Option (List SseEnvelope)
events_after last_id [] = none
events_after last_id (e ∷ es) =
    let rest = events_after last_id es in if e.id == last_id then some es else rest

unfoldable pub replay_after : ℕ → String → RingBuffer → Option (List SseEnvelope) × RingBuffer
unfolding evict_expired events_after
replay_after now last_id ring =
    let ring' = evict_expired now ring in (events_after last_id ring'.buf, ring')
