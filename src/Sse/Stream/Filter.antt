-- ===== src/Sse/Stream/Filter.antt =====
-- crates/rb-sse/src/stream.rs: the events of a stream, by the code's own test of a session.
use rustacean.Common.{
  ℕ, zero, suc, ◌+◌, ◌<◌, String, ◌≡◌, refl, sym, ap, ◌∙◌, inl, inr, true, false, Option, List, [],
  ◌∷◌, ◌++◌, length, arith, if◌then◌else◌, Bool-cases,
}
use rustacean.Sse.Ring.{SseEnvelope}
use rustacean.Sse.Stream.{
  Recv, received, lagged, closed, Stream, Poll, ended, waiting, item, matches_session, next_live,
  next_replay, next, poll_all,
}

module _ (session_of : String → Option String) (stream_reset : SseEnvelope)
    (session_id : Option String) where
  -- The events of the session among these.
  abbrev pub of_session : List SseEnvelope → List SseEnvelope
  of_session [] = []
  of_session (e ∷ es) =
      let rest = of_session es in
      if matches_session session_of stream_reset session_id e then e ∷ rest else rest

  -- What comes through the channel before it lags or closes, and the advisory if it lags.
  abbrev pub of_channel : List Recv → List SseEnvelope
  of_channel [] = []
  of_channel (received e ∷ recvs) =
      let rest = of_channel recvs in
      if matches_session session_of stream_reset session_id e then e ∷ rest else rest
  of_channel (lagged n ∷ recvs) = stream_reset ∷ []
  of_channel (closed ∷ recvs) = []

  poll : ℕ → Stream → List Recv → List SseEnvelope
  poll = poll_all session_of stream_reset session_id

  poll_done :
      (polls : ℕ) (replay : List SseEnvelope) (recvs : List Recv)
      → poll polls (record { replay = replay; done = true }) recvs ≡ []
  unfolding poll_all next poll
  poll_done zero replay recvs = refl
  poll_done (suc polls) replay recvs = refl

  abbrev emit : ℕ → Poll → List SseEnvelope
  emit polls ended = []
  emit polls waiting = []
  emit polls (item e s recvs) = e ∷ poll polls s recvs

  abbrev fresh : List SseEnvelope → Stream
  fresh replay = record { replay = replay; done = false }

  abbrev live : List Recv → Poll
  live = next_live session_of stream_reset session_id

  abbrev replaying : List SseEnvelope → List Recv → Poll
  replaying = next_replay session_of stream_reset session_id

  poll-emit :
      (polls : ℕ) (replay : List SseEnvelope) (recvs : List Recv) (p : Poll)
      → replaying replay recvs ≡ p
      → poll (suc polls) (fresh replay) recvs ≡ emit polls p
  unfolding poll_all next poll
  poll-emit polls replay recvs p h = emits (replaying replay recvs) ∙ ap (emit polls) h
    where
      emits :
          (p : Poll)
          → (elim p as (λ x. List SseEnvelope) [
            | ended ↦ []
            | waiting ↦ []
            | item e s recvs ↦ e ∷ poll_all session_of stream_reset session_id polls s recvs
          ])
            ≡ emit polls p
      emits ended = refl
      emits waiting = refl
      emits (item e s recvs) = refl

  live-wanted :
      (e : SseEnvelope) (recvs : List Recv)
      → matches_session session_of stream_reset session_id e ≡ true
      → live (received e ∷ recvs) ≡ item e (fresh []) recvs
  unfolding next_live
  live-wanted e recvs m = rw m

  live-passed :
      (e : SseEnvelope) (recvs : List Recv)
      → matches_session session_of stream_reset session_id e ≡ false
      → live (received e ∷ recvs) ≡ live recvs
  unfolding next_live
  live-passed e recvs m = rw m

  poll_live :
      (polls : ℕ) (recvs : List Recv)
      → length recvs < polls
      → poll polls (fresh []) recvs ≡ of_channel recvs
  unfolding next_replay next_live
  poll_live zero recvs h = absurd (omega arith)
  poll_live (suc polls) [] h = poll-emit polls [] [] waiting refl
  poll_live (suc polls) (received e ∷ recvs) h =
      elim (Bool-cases (matches_session session_of stream_reset session_id e)) [
        | inl m ↦ rw m (
            poll-emit polls [] (received e ∷ recvs) (item e (fresh []) recvs)
              (live-wanted e recvs m)
            ∙ ap (λ es. e ∷ es) (poll_live polls recvs (omega arith)))
        | inr m ↦ rw m (
            poll-emit polls [] (received e ∷ recvs) (live recvs) (live-passed e recvs m)
            ∙ sym (poll-emit polls [] recvs (live recvs) refl)
            ∙ poll_live (suc polls) recvs (omega arith))
      ]
  poll_live (suc polls) (lagged n ∷ recvs) h =
      poll-emit polls [] (lagged n ∷ recvs) _ refl
      ∙ ap (λ es. stream_reset ∷ es) (poll_done polls [] recvs)
  poll_live (suc polls) (closed ∷ recvs) h = poll-emit polls [] (closed ∷ recvs) ended refl

  replaying-wanted :
      (e : SseEnvelope) (replay : List SseEnvelope) (recvs : List Recv)
      → matches_session session_of stream_reset session_id e ≡ true
      → replaying (e ∷ replay) recvs ≡ item e (fresh replay) recvs
  unfolding next_replay
  replaying-wanted e replay recvs m = rw m

  replaying-passed :
      (e : SseEnvelope) (replay : List SseEnvelope) (recvs : List Recv)
      → matches_session session_of stream_reset session_id e ≡ false
      → replaying (e ∷ replay) recvs ≡ replaying replay recvs
  unfolding next_replay
  replaying-passed e replay recvs m = rw m

  poll_replay :
      (polls : ℕ) (replay : List SseEnvelope) (recvs : List Recv)
      → length replay + length recvs < polls
      → poll polls (fresh replay) recvs ≡ of_session replay ++ of_channel recvs
  poll_replay polls [] recvs h = poll_live polls recvs (omega arith)
  poll_replay zero (e ∷ replay) recvs h = absurd (omega arith)
  poll_replay (suc polls) (e ∷ replay) recvs h =
      elim (Bool-cases (matches_session session_of stream_reset session_id e)) [
        | inl m ↦ rw m (
            poll-emit polls (e ∷ replay) recvs (item e (fresh replay) recvs)
              (replaying-wanted e replay recvs m)
            ∙ ap (λ es. e ∷ es) (poll_replay polls replay recvs (omega arith)))
        | inr m ↦ rw m (
            poll-emit polls (e ∷ replay) recvs (replaying replay recvs)
              (replaying-passed e replay recvs m)
            ∙ sym (poll-emit polls replay recvs (replaying replay recvs) refl)
            ∙ poll_replay (suc polls) replay recvs (omega arith))
      ]

pub poll_all-of_session :
    (session_of : String → Option String) (stream_reset : SseEnvelope) (session_id : Option String)
    (polls : ℕ) (replay : List SseEnvelope) (recvs : List Recv)
    → length replay + length recvs < polls
    → poll_all session_of stream_reset session_id polls
        (record { replay = replay; done = false })
        recvs
      ≡ of_session session_of stream_reset session_id replay
        ++ of_channel session_of stream_reset session_id recvs
unfolding poll
poll_all-of_session session_of stream_reset session_id polls replay recvs h =
    poll_replay session_of stream_reset session_id polls replay recvs h
