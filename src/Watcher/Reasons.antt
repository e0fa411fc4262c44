-- ===== src/Watcher/Reasons.antt =====
-- crates/rb-kafka-health/src/watcher.rs: why the watchdog asks for a new consumer.
use rustacean.Common.{
  ℕ, ◌-◌, ◌≤◌, ◌<◌, ◌≡◌, ◌≢◌, refl, sym, ◌∙◌, &&-true, ◌↔◌, ◌⊎◌, inl, inr, Bool, true, false, arith,
  Bool-cases, true_not_false, ltb, leb, if◌then◌else◌,
}
use rustacean.Watcher.{
  WatchdogConfig, HealthyConsumer, Polled, message, failed, ended, timed_out, Pass, Event,
  delivered, returned, closed, recreated, not_recreated, quiet, do_recreate, stalled, cascade,
  saturating_succ, inspect, turn,
}

-- The pass asks the factory for a consumer.
abbrev pub Asks : Event → Type 0
Asks e = (e ≡ recreated) ⊎ (e ≡ not_recreated)

-- No message came for the stall timeout.
abbrev pub IsStalled : WatchdogConfig → Pass → HealthyConsumer → Type 0
IsStalled config r c = (config.stall_timeout ≤ r.now - c.last_recv) ⊎ (r.polled ≡ timed_out)

-- The wedge states.
pub data Wedged (config : WatchdogConfig) (r : Pass) (c : HealthyConsumer) : Type 0 where
  error_cascade :
      (e : ℕ)
      → r.now - c.last_recv < config.stall_timeout
      → r.polled ≡ failed e
      → 0 < config.max_error_streak
      → config.max_error_streak ≤ saturating_succ c.consecutive_errors
      → Wedged config r c
  lag_wedge : IsStalled config r c → 0 < r.lag → Wedged config r c
  group_loss :
      IsStalled config r c
      → r.lag ≡ 0
      → c.had_assignment ≡ true
      → r.partitions ≡ 0
      → Wedged config r c

-- The stall path's own wedges.
StallWedge : Pass → HealthyConsumer → Type 0
StallWedge r c = (0 < r.lag) ⊎ ((r.lag ≡ 0) × (c.had_assignment ≡ true) × (r.partitions ≡ 0))

do_recreate-Asks : (r : Pass) (c : HealthyConsumer) → Asks (do_recreate r c).1
unfolding do_recreate
do_recreate-Asks r c = elim (Bool-cases r.created) [
  | inl e ↦ rw e (inl refl)
  | inr e ↦ rw e (inr refl)
]

quiet_not : ¬ Asks quiet
quiet_not (inl e) = cc
quiet_not (inr e) = cc

stalled-Asks : (r : Pass) (c : HealthyConsumer) → Asks (stalled r c).1 ↔ StallWedge r c
unfolding stalled StallWedge
stalled-Asks r c = go (ltb 0 r.lag) c.had_assignment (leb r.partitions 0) refl refl refl
  where
    go :
        (l h p : Bool)
        → ltb 0 r.lag ≡ l
        → c.had_assignment ≡ h
        → leb r.partitions 0 ≡ p
        → Asks
            (if l
              then do_recreate r c
              else if h
              then (if p then do_recreate r c else (record c { last_recv = r.later }, quiet))
              else (record c { last_recv = r.later }, quiet)).1
          ↔ ((0 < r.lag) ⊎ ((r.lag ≡ 0) × (c.had_assignment ≡ true) × (r.partitions ≡ 0)))
    go true h p e f g = (λ _. inl (ground arith), λ _. do_recreate-Asks r c)
    go false true true e f g = (λ _. inr (ground arith, f, ground arith), λ _. do_recreate-Asks r c)
    go false true false e f g = (
      λ a. absurd (quiet_not a),
      λ w. elim w [ inl l ↦ absurd (ground arith) | inr (_, _, z) ↦ absurd (ground arith) ],
    )
    go false false p e f g = (
      λ a. absurd (quiet_not a),
      λ w. elim w [ inl l ↦ absurd (ground arith) | inr (_, t, _) ↦ absurd (true_not_false t f) ],
    )

module _ (config : WatchdogConfig) (r : Pass) (c : HealthyConsumer) where
  stall_wedge : IsStalled config r c → StallWedge r c → Wedged config r c
  unfolding StallWedge
  stall_wedge s (inl l) = lag_wedge s l
  stall_wedge s (inr (l, h, p)) = group_loss s l h p

  -- What is wedged before the timeout is the error streak.
  cascade_streak :
      ltb 0 config.max_error_streak ≡ true
      → leb config.max_error_streak (saturating_succ c.consecutive_errors) ≡ true
      → (0 < config.max_error_streak)
        × (config.max_error_streak ≤ saturating_succ c.consecutive_errors)
  cascade_streak p q = (ground arith, ground arith)

  not-IsStalled :
      r.now - c.last_recv < config.stall_timeout → r.polled ≢ timed_out → ¬ IsStalled config r c
  not-IsStalled early in_time (inl l) = omega arith
  not-IsStalled early in_time (inr q) = in_time q

  not-Wedged :
      r.now - c.last_recv < config.stall_timeout
      → ((d : ℕ) → r.polled ≢ failed d)
      → r.polled ≢ timed_out
      → ¬ Wedged config r c
  not-Wedged early fine in_time (error_cascade d s q k l) = fine d q
  not-Wedged early fine in_time (lag_wedge s l) = not-IsStalled early in_time s
  not-Wedged early fine in_time (group_loss s l h p) = not-IsStalled early in_time s

  -- A pass in the fast path, by what the poll gives.
  inspect-Asks :
      r.now - c.last_recv < config.stall_timeout
      → (p : Polled) → r.polled ≡ p
      → Asks (inspect config r p c).1 ↔ Wedged config r c
  unfolding inspect StallWedge
  inspect-Asks early timed_out e = (
    λ a. stall_wedge (inr e) ((stalled-Asks r c).0 a),
    λ w. (stalled-Asks r c).1 (elim w [
      | error_cascade d s q k l ↦ absurd (clash (sym q ∙ e))
      | lag_wedge s l ↦ inl l
      | group_loss s l h p ↦ inr (l, h, p)
    ]),
  )
    where
      clash : {d : ℕ} → failed d ≡ timed_out → ⊥
      clash q = cc
  inspect-Asks early (message m) e = (
    λ a. absurd (no a),
    λ w. absurd (not-Wedged early (λ d q. clash (sym q ∙ e)) (λ q. other (sym q ∙ e)) w),
  )
    where
      no : ¬ Asks (delivered m)
      no (inl q) = cc
      no (inr q) = cc

      clash : {d : ℕ} → failed d ≡ message m → ⊥
      clash q = cc

      other : timed_out ≡ message m → ⊥
      other q = cc
  inspect-Asks early ended e = (
    λ a. absurd (no a),
    λ w. absurd (not-Wedged early (λ d q. clash (sym q ∙ e)) (λ q. other (sym q ∙ e)) w),
  )
    where
      no : ¬ Asks closed
      no (inl q) = cc
      no (inr q) = cc

      clash : {d : ℕ} → failed d ≡ ended → ⊥
      clash q = cc

      other : timed_out ≡ ended → ⊥
      other q = cc
  inspect-Asks early (failed d) e = go (cascade config (saturating_succ c.consecutive_errors)) refl
    where
      counted : HealthyConsumer
      counted = record c { consecutive_errors = saturating_succ c.consecutive_errors }

      no : ¬ Asks (returned d)
      no (inl q) = cc
      no (inr q) = cc

      other : timed_out ≡ failed d → ⊥
      other q = cc

      go :
          (x : Bool)
          → cascade config (saturating_succ c.consecutive_errors) ≡ x
          → Asks (if x then do_recreate r counted else (counted, returned d)).1 ↔ Wedged config r c
      go true q = (
        λ _.
            let (k, l) =
              &&-true (ltb 0 config.max_error_streak)
                (leb config.max_error_streak (saturating_succ c.consecutive_errors)) q in
            let (k, l) = cascade_streak k l in error_cascade d early e k l,
        λ _. do_recreate-Asks r counted,
      )
      go false q = (λ a. absurd (no a), λ w. absurd (not_wedged w))
        where
          not_wedged : ¬ Wedged config r c
          not_wedged (error_cascade d s p k l) = true_not_false (ground arith) q
          not_wedged (lag_wedge s l) = not-IsStalled early (λ q. other (sym q ∙ e)) s
          not_wedged (group_loss s l h p) = not-IsStalled early (λ q. other (sym q ∙ e)) s

  -- A pass asks for a new consumer exactly in one of the wedge states: as many errors in a row as the
  -- limit, lag without a message for the stall timeout, or, after a message, no partitions.
  pub turn-Asks : Asks (turn config r c).1 ↔ Wedged config r c
  unfolding turn StallWedge
  turn-Asks = go (ltb (r.now - c.last_recv) config.stall_timeout) refl
    where
      go :
          (x : Bool)
          → ltb (r.now - c.last_recv) config.stall_timeout ≡ x
          → Asks (if x then inspect config r r.polled c else stalled r c).1 ↔ Wedged config r c
      go true e = inspect-Asks (ground arith) r.polled refl
      go false e = (
        λ a. stall_wedge (inl (ground arith)) ((stalled-Asks r c).0 a),
        λ w. (stalled-Asks r c).1 (elim w [
          | error_cascade d s q k l ↦ absurd (ground arith)
          | lag_wedge s l ↦ inl l
          | group_loss s l h p ↦ inr (l, h, p)
        ]),
      )
