-- ===== src/Tests/Relays.antt =====
-- services/agent-runner/src: the events of two sessions, and a request that fails at first.
use rustacean.Common.{
  ℕ, zero, suc, ◌≤◌, String, ◌≡◌, refl, Option, none, some, List, [], ◌∷◌, ◌++◌, length, max,
}
use rustacean.Common.Bytes.{codes}
use rustacean.Relay.Events.{
  RuntimeEvent, text, thinking, StreamLine, assistant, text_block, thinking_block, normalize_line,
}
use rustacean.Relay.{
  RelayItem, spawn, send, relay_stdout_events, Wake, by_session, flush_session, Response, success,
  server_error, post_from, nothing_posted, post_with_retry, max_retry_attempts,
}
use rustacean.Relay.Fifo.{Act, sends, wakes, takes, items_of, run, sent, run-items_of}
use rustacean.Relay.Groups.{of_session, items_for, groups_for, whole_post, flush_session-by_session}
use rustacean.Relay.Posts.{Counted, post_with_retry-Counted}

abbrev item : String → ℕ → RelayItem
item id seq = record {
  session_id = id;
  tenant_id = "t";
  seq = seq;
  event = text id;
  emitted_at_ms = 0;
  turn_id = none;
}

-- Three items into a buffer for two, and a batch.
abbrev acts : List Act
acts = sends (item "a" 1) ∷ sends (item "b" 2) ∷ sends (item "a" 3) ∷ wakes Wake.notify ∷ takes ∷ []

run-items_of_example :
    (items_of (run acts (spawn 2 2)).1 ++ (run acts (spawn 2 2)).0.buffer ≡ sent acts)
    × (length (run acts (spawn 2 2)).0.buffer ≤ max 2 1)
run-items_of_example = run-items_of acts 2 2

-- What serde_json reads in the line.
abbrev read : List ℕ → Option StreamLine
read line = some (assistant (thinking_block "hm" ∷ text_block "yes" ∷ []))

relayed_now :
    (relay_stdout_events read 5 "a" "t" 1 (codes " {} ") none (spawn 2 2)).buffer
    ≡ record {
      session_id = "a";
      tenant_id = "t";
      seq = 1;
      event = thinking "hm";
      emitted_at_ms = 5;
      turn_id = none;
    }
      ∷ record {
        session_id = "a";
        tenant_id = "t";
        seq = 1;
        event = text "yes";
        emitted_at_ms = 5;
        turn_id = none;
      }
      ∷ []
unfolding normalize_line send relay_stdout_events
relayed_now = refl

abbrev name : RuntimeEvent → String
name e = "e"

abbrev batch : List RelayItem
batch = item "a" 1 ∷ item "b" 2 ∷ item "a" 3 ∷ []

flush_session-by_session_example :
    (flush_session (λ e. some (name e)) "a" (items_for "a" (by_session batch))
      ≡ whole_post name "a" (of_session "a" batch))
    × (groups_for "a" (by_session batch) ≤ 1)
flush_session-by_session_example = flush_session-by_session name "a" batch

abbrev second_succeeds : ℕ → Response
second_succeeds zero = server_error
second_succeeds (suc n) = success

post_with_retry-Counted_example :
    Counted second_succeeds 0 max_retry_attempts 7 nothing_posted
      (post_with_retry second_succeeds 7)
    × ((post_with_retry second_succeeds 7).requests ≤ max_retry_attempts)
post_with_retry-Counted_example = post_with_retry-Counted second_succeeds 7

posted_now : (post_with_retry second_succeeds 7).published ≡ 7
unfolding post_from post_with_retry
posted_now = refl
