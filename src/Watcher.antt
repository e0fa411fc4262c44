-- ===== src/Watcher.antt =====
-- crates/rb-kafka-health/src/watcher.rs: the watchdog around a Kafka consumer. An `Instant` and a
-- `Duration` are numbers of nanoseconds. What the consumer, the factory and the clock answer in one pass
-- of the loop of `next` is a `Pass`; the consumer itself is not part of the state.
pub mod Streak
pub mod Reasons
use rustacean.Common.{
  ℕ, zero, suc, ◌+◌, ◌-◌, ◌*◌, ◌%◌, ◌^◌, min, Bool, true, false, ◌&&◌, List, [], ◌∷◌, ◌++◌, ltb,
  leb, if◌then◌else◌,
}

-- crates/rb-kafka-health/src/config.rs
pub record WatchdogConfig : Type 0 where
  pub stall_timeout : ℕ
  pub max_error_streak : ℕ

abbrev pub default_config : WatchdogConfig
default_config = record { stall_timeout = 60 * 1000000000; max_error_streak = 30 }

pub record HealthyConsumer : Type 0 where
  pub last_recv : ℕ
  pub recreate_count : ℕ
  pub had_assignment : Bool
  pub consecutive_errors : ℕ

-- `with_factory`, at an instant.
abbrev pub with_factory : ℕ → HealthyConsumer
with_factory now = record {
  last_recv = now;
  recreate_count = 0;
  had_assignment = false;
  consecutive_errors = 0;
}

-- `timeout(d, self.inner.next())`: a message, an error, the end of the stream, or the timeout. Messages
-- and errors are numbered.
pub data Polled : Type 0 where
  message failed : ℕ → Polled
  ended timed_out : Polled

-- `now` is the instant of `elapsed`, `later` that of the `Instant::now()` that the pass reaches;
-- `created` says whether the factory succeeds.
pub record Pass : Type 0 where
  pub now : ℕ
  pub polled : Polled
  pub lag : ℕ
  pub partitions : ℕ
  pub created : Bool
  pub later : ℕ

-- What a pass did: it returned a message, an error or the end, it asked the factory for a consumer and
-- had one or not, or it found the topic quiet.
pub data Event : Type 0 where
  delivered returned : ℕ → Event
  closed recreated not_recreated quiet : Event

abbrev pub max_u32 : ℕ
max_u32 = 2 ^ 32 - 1

-- `u32::saturating_add(1)`
abbrev pub saturating_succ : ℕ → ℕ
saturating_succ n = min (n + 1) max_u32

unfoldable pub do_recreate : Pass → HealthyConsumer → HealthyConsumer × Event
do_recreate r c =
    if r.created
    then (
      record {
        last_recv = r.later;
        recreate_count = (c.recreate_count + 1) % 2 ^ 64;
        had_assignment = false;
        consecutive_errors = 0;
      },
      recreated,
    )
    else (c, not_recreated)

abbrev reset_clock : Pass → HealthyConsumer → HealthyConsumer × Event
reset_clock r c = (record c { last_recv = r.later }, quiet)

-- The stall path.
unfoldable pub stalled : Pass → HealthyConsumer → HealthyConsumer × Event
unfolding do_recreate
stalled r c =
    if ltb 0 r.lag
    then do_recreate r c
    else if c.had_assignment
    then (if leb r.partitions 0 then do_recreate r c else reset_clock r c)
    else reset_clock r c

-- The streak counts the error at hand.
abbrev pub cascade : WatchdogConfig → ℕ → Bool
cascade config errors = ltb 0 config.max_error_streak && leb config.max_error_streak errors

abbrev count_error : HealthyConsumer → HealthyConsumer
count_error c = record c { consecutive_errors = saturating_succ c.consecutive_errors }

-- What the fast path does with the poll's result.
unfoldable pub inspect : WatchdogConfig → Pass → Polled → HealthyConsumer → HealthyConsumer × Event
unfolding stalled do_recreate
inspect config r (message m) c =
    (record c { last_recv = r.later; consecutive_errors = 0; had_assignment = true }, delivered m)
inspect config r (failed e) c =
    if cascade config (saturating_succ c.consecutive_errors)
    then do_recreate r (count_error c)
    else (count_error c, returned e)
inspect config r ended c = (c, closed)
inspect config r timed_out c = stalled r c

-- One pass: the poll if the stall timeout has not expired, and the stall path otherwise.
unfoldable pub turn : WatchdogConfig → Pass → HealthyConsumer → HealthyConsumer × Event
unfolding inspect stalled
turn config r c =
    if ltb (r.now - c.last_recv) config.stall_timeout
    then inspect config r r.polled c
    else stalled r c

-- `next` has something for its caller, or goes round again.
abbrev pub is_final : Event → Bool
is_final (delivered m) = true
is_final (returned e) = true
is_final closed = true
is_final recreated = false
is_final not_recreated = false
is_final quiet = false

-- A call of `next` on the rounds to come: the events of its passes, and the rounds that it leaves. With
-- no rounds left it is still in its loop.
unfoldable pub next :
    WatchdogConfig → List Pass → HealthyConsumer → List Event × HealthyConsumer × List Pass
next config [] c = ([], c, [])
next config (r ∷ rounds) c =
    let (c', e) = turn config r c in
    let (es, last, rest) = next config rounds c' in
    if is_final e then (e ∷ [], c', rounds) else (e ∷ es, last, rest)

-- A number of calls of `next`, one after the other: the events of their passes.
unfoldable pub calls : ℕ → WatchdogConfig → List Pass → HealthyConsumer → List Event
calls zero config rounds c = []
calls (suc n) config rounds c =
    let (es, c', rest) = next config rounds c in es ++ calls n config rest c'
