-- ===== src/Sse/Stream.antt =====
-- crates/rb-sse/src/stream.rs: `build_inner_stream`. What `rx.recv()` gives, one result after the
-- other, is an argument; so are the `session_id` that serde_json reads in an event's data, and the
-- event of `SseEnvelope::stream_reset`.
pub mod Filter
pub mod Selection
use rustacean.Common.{
  ℕ, zero, suc, String, Bool, true, false, Option, none, some, List, [], ◌∷◌, if◌then◌else◌,
}
use rustacean.Sse.Ring.{SseEnvelope}
use text.Mathlib.Text.{◌==◌}

pub data Recv : Type 0 where
  received : SseEnvelope → Recv
  lagged : ℕ → Recv
  closed : Recv

pub record Stream : Type 0 where
  pub replay : List SseEnvelope
  pub done : Bool

-- What a poll of the stream gives: the end, nothing yet, or an event.
pub data Poll : Type 0 where
  ended waiting : Poll
  item : SseEnvelope → Stream → List Recv → Poll

module _ (session_of : String → Option String) (stream_reset : SseEnvelope)
    (session_id : Option String) where
  abbrev pub same_session : String → Option String → Bool
  same_session sid none = false
  same_session sid (some s) = s == sid

  abbrev wanted : Option String → String → Bool
  wanted none payload = true
  wanted (some sid) payload = same_session sid (session_of payload)

  abbrev pub matches_session : SseEnvelope → Bool
  matches_session e = wanted session_id e.payload

  -- The second phase.
  unfoldable pub next_live : List Recv → Poll
  next_live [] = waiting
  next_live (received e ∷ recvs) =
      let rest = next_live recvs in
      if matches_session e then item e (record { replay = []; done = false }) recvs else rest
  next_live (lagged n ∷ recvs) = item stream_reset (record { replay = []; done = true }) recvs
  next_live (closed ∷ recvs) = ended

  -- The first phase, which the second follows when the replay is used up.
  unfoldable pub next_replay : List SseEnvelope → List Recv → Poll
  unfolding next_live
  next_replay [] recvs = next_live recvs
  next_replay (e ∷ replay) recvs =
      let rest = next_replay replay recvs in
      if matches_session e then item e (record { replay = replay; done = false }) recvs else rest

  unfoldable pub next : Stream → List Recv → Poll
  unfolding next_replay
  next s recvs = if s.done then ended else next_replay s.replay recvs

  -- The events of so many polls.
  unfoldable pub poll_all : ℕ → Stream → List Recv → List SseEnvelope
  unfolding next
  poll_all zero s recvs = []
  poll_all (suc polls) s recvs = elim (next s recvs) [
    | ended ↦ []
    | waiting ↦ []
    | item e s' recvs' ↦ e ∷ poll_all polls s' recvs'
  ]
