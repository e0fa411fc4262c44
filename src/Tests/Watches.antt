-- ===== src/Tests/Watches.antt =====
-- crates/rb-kafka-health/src/watcher.rs: a consumer that fails three times, with a limit of three.
use rustacean.Common.{ℕ, ◌*◌, ◌<◌, ◌≡◌, refl, ◌↔◌, true, List, [], ◌∷◌, arith}
use rustacean.Watcher.{
  WatchdogConfig, default_config, HealthyConsumer, with_factory, Polled, message, failed, timed_out,
  Pass, delivered, returned, recreated, quiet, do_recreate, stalled, inspect, turn, next, calls,
}
use rustacean.Watcher.Reasons.{Asks, Wedged, turn-Asks}
use rustacean.Watcher.Streak.{count_returned, calls-count_returned}

abbrev config : WatchdogConfig
config = record default_config { max_error_streak = 3 }

abbrev at : ℕ → Polled → Pass
at time polled = record {
  now = time;
  polled = polled;
  lag = 0;
  partitions = 1;
  created = true;
  later = time;
}

abbrev rounds : List Pass
rounds =
    at 1 (message 7)
    ∷ at 2 (failed 1)
    ∷ at 3 timed_out
    ∷ at 4 (failed 2)
    ∷ at 5 (failed 3)
    ∷ at 6 (message 8)
    ∷ []

calls_now :
    calls 4 config rounds (with_factory 0)
    ≡ delivered 7 ∷ returned 1 ∷ quiet ∷ returned 2 ∷ recreated ∷ delivered 8 ∷ []
unfolding do_recreate stalled inspect turn next calls
calls_now = refl

calls-count_returned_example : count_returned (returned 1 ∷ quiet ∷ returned 2 ∷ []) < 3
calls-count_returned_example =
    calls-count_returned config (ground arith) (ground arith) 4 0 rounds (delivered 7 ∷ [])
      (returned 1 ∷ quiet ∷ returned 2 ∷ []) (recreated ∷ delivered 8 ∷ []) calls_now
      (refl, (refl, (refl, tt)))

-- A consumer that had a message and is left without partitions.
abbrev lost : Pass
lost = record (at (61 * 1000000000) timed_out) { partitions = 0 }

abbrev used : HealthyConsumer
used = record (with_factory 0) { had_assignment = true }

turn-Asks_example : Asks (turn default_config lost used).1 ↔ Wedged default_config lost used
turn-Asks_example = turn-Asks default_config lost used
