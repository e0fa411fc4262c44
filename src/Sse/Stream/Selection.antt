-- ===== src/Sse/Stream/Selection.antt =====
-- crates/rb-sse/src/stream.rs: the events that a client sees.
use mathlib.Core.List.{append_assoc}
use rustacean.Common.{
  ℕ, ◌+◌, ◌<◌, String, ◌≡◌, refl, sym, ap, ◌∙◌, ◌⊎◌, inl, inr, Bool, true, false, Option, none,
  some, List, [], ◌∷◌, ◌++◌, length, Bool-cases, true_not_false,
}
use rustacean.Sse.Ring.{SseEnvelope}
use rustacean.Sse.Stream.{Recv, received, lagged, closed, matches_session, poll_all, same_session}
use rustacean.Sse.Stream.Filter.{of_session, of_channel, poll_all-of_session}
use text.Mathlib.TextEquality.{eq_iff}

-- An event is the client's: it asked for no session, or the data names the one it asked for.
abbrev pub InSession : (String → Option String) → Option String → SseEnvelope → Type 0
InSession session_of none e = Unit {0}
InSession session_of (some sid) e = session_of e.payload ≡ some sid

-- The second list has those of the first that are in the session, in the same order.
pub data Selects (session_of : String → Option String) (session_id : Option String)
    : List SseEnvelope → List SseEnvelope → Type 0 where
  done : Selects session_of session_id [] []
  keep :
      {e : SseEnvelope} {es seen : List SseEnvelope}
      → InSession session_of session_id e
      → Selects session_of session_id es seen
      → Selects session_of session_id (e ∷ es) (e ∷ seen)
  pass :
      {e : SseEnvelope} {es seen : List SseEnvelope}
      → ¬ (InSession session_of session_id e)
      → Selects session_of session_id es seen
      → Selects session_of session_id (e ∷ es) seen

-- What the channel has before it lags or closes.
abbrev pub before_end : List Recv → List SseEnvelope
before_end [] = []
before_end (received e ∷ recvs) = e ∷ before_end recvs
before_end (lagged n ∷ recvs) = []
before_end (closed ∷ recvs) = []

-- The advisory, if the channel lags before it closes.
abbrev pub advisory : SseEnvelope → List Recv → List SseEnvelope
advisory stream_reset [] = []
advisory stream_reset (received e ∷ recvs) = advisory stream_reset recvs
advisory stream_reset (lagged n ∷ recvs) = stream_reset ∷ []
advisory stream_reset (closed ∷ recvs) = []

module _ (session_of : String → Option String) (stream_reset : SseEnvelope)
    (session_id : Option String) where
  abbrev same : String → Option String → Bool
  same = same_session session_of stream_reset session_id

  same_session_iff :
      (sid : String) (o : Option String)
      → (same sid o ≡ true → o ≡ some sid) × (o ≡ some sid → same sid o ≡ true)
  same_session_iff sid none = (λ h. absurd (true_not_false h refl), λ q. absurd (no q))
    where
      no : none ≡ some sid → ⊥
      no q = cc
  same_session_iff sid (some s) =
      (λ h. ap some ((eq_iff s sid).0 h), λ q. (eq_iff s sid).1 (some_injective q))
    where
      some_injective : some s ≡ some sid → s ≡ sid
      some_injective q = cc

  matches-InSession :
      (e : SseEnvelope)
      → ((matches_session session_of stream_reset session_id e ≡ true)
          × InSession session_of session_id e)
        ⊎ ((matches_session session_of stream_reset session_id e ≡ false)
            × (¬ (InSession session_of session_id e)))
  matches-InSession e = go session_id
    where
      go :
          (sid : Option String)
          → ((matches_session session_of stream_reset sid e ≡ true) × InSession session_of sid e)
            ⊎ ((matches_session session_of stream_reset sid e ≡ false)
                × (¬ (InSession session_of sid e)))
      go none = inl (refl, tt)
      go (some sid) = elim (Bool-cases (same sid (session_of e.payload))) [
        | inl m ↦ inl (m, (same_session_iff sid (session_of e.payload)).0 m)
        | inr m ↦ inr (m, λ q. true_not_false ((same_session_iff sid (session_of e.payload)).1 q) m)
      ]

  of_session-Selects :
      (es : List SseEnvelope)
      → Selects session_of session_id es (of_session session_of stream_reset session_id es)
  of_session-Selects [] = done
  of_session-Selects (e ∷ es) = elim (matches-InSession e) [
    | inl (m, i) ↦ rw m (keep i (of_session-Selects es))
    | inr (m, i) ↦ rw m (pass i (of_session-Selects es))
  ]

  of_session-append :
      (es more : List SseEnvelope)
      → of_session session_of stream_reset session_id (es ++ more)
        ≡ of_session session_of stream_reset session_id es
          ++ of_session session_of stream_reset session_id more
  of_session-append [] more = refl
  of_session-append (e ∷ es) more =
      elim (Bool-cases (matches_session session_of stream_reset session_id e)) [
        | inl m ↦ rw m (ap (λ es. e ∷ es) (of_session-append es more))
        | inr m ↦ rw m (of_session-append es more)
      ]

  of_channel_split :
      (recvs : List Recv)
      → of_channel session_of stream_reset session_id recvs
        ≡ of_session session_of stream_reset session_id (before_end recvs)
          ++ advisory stream_reset recvs
  of_channel_split [] = refl
  of_channel_split (received e ∷ recvs) =
      elim (Bool-cases (matches_session session_of stream_reset session_id e)) [
        | inl m ↦ rw m (ap (λ es. e ∷ es) (of_channel_split recvs))
        | inr m ↦ rw m (of_channel_split recvs)
      ]
  of_channel_split (lagged n ∷ recvs) = refl
  of_channel_split (closed ∷ recvs) = refl

-- With more polls than there are events in the replay and results of the channel, a new stream gives
-- those events of the replay and then of the channel, before it lags or closes, that name the session
-- of the client, or all of them if it asked for none; and then, if the channel lags, the advisory as
-- the last event.
pub poll_all-Selects :
    (session_of : String → Option String) (stream_reset : SseEnvelope) (session_id : Option String)
    (polls : ℕ) (replay : List SseEnvelope) (recvs : List Recv)
    → length replay + length recvs < polls
    → (seen : List SseEnvelope) × Selects session_of session_id (replay ++ before_end recvs) seen
      × (poll_all session_of stream_reset session_id polls
            (record { replay = replay; done = false })
            recvs
          ≡ seen ++ advisory stream_reset recvs)
poll_all-Selects session_of stream_reset session_id polls replay recvs h =
    let of = of_session session_of stream_reset session_id in
    (
      of (replay ++ before_end recvs),
      of_session-Selects session_of stream_reset session_id (replay ++ before_end recvs),
      poll_all-of_session session_of stream_reset session_id polls replay recvs h
          ∙ ap (λ es. of replay ++ es) (of_channel_split session_of stream_reset session_id recvs)
          ∙ sym (append_assoc (of replay) (of (before_end recvs)) (advisory stream_reset recvs))
          ∙ ap (λ es. es ++ advisory stream_reset recvs)
              (sym
                (of_session-append session_of stream_reset session_id replay (before_end recvs))),
    )
