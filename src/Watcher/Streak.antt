-- ===== src/Watcher/Streak.antt =====
-- crates/rb-kafka-health/src/watcher.rs: how many errors in a row the callers of `next` see.
use rustacean.Common.{
  ℕ, zero, suc, ◌+◌, ◌-◌, ◌≤◌, ◌<◌, ◌≡◌, refl, subst, inl, inr, Bool, true, false, List, [], ◌∷◌,
  ◌++◌, arith, Bool-cases, ltb, leb, if◌then◌else◌,
}
use rustacean.Common.Every.{Every}
use rustacean.Watcher.{
  WatchdogConfig, HealthyConsumer, with_factory, Polled, message, failed, ended, timed_out, Pass,
  Event, delivered, returned, closed, recreated, not_recreated, quiet, do_recreate, stalled,
  cascade, saturating_succ, max_u32, inspect, turn, is_final, next, calls,
}

-- A message or a new consumer ends a row of errors.
abbrev pub is_fresh : Event → Bool
is_fresh (delivered m) = true
is_fresh (returned e) = false
is_fresh closed = false
is_fresh recreated = true
is_fresh not_recreated = false
is_fresh quiet = false

-- The errors that the callers are given.
abbrev pub count_returned : List Event → ℕ
count_returned [] = 0
count_returned (delivered m ∷ es) = count_returned es
count_returned (returned e ∷ es) = suc (count_returned es)
count_returned (closed ∷ es) = count_returned es
count_returned (recreated ∷ es) = count_returned es
count_returned (not_recreated ∷ es) = count_returned es
count_returned (quiet ∷ es) = count_returned es

-- The row's length after an event.
abbrev streak : ℕ → Event → ℕ
streak n (delivered m) = 0
streak n (returned e) = suc n
streak n closed = n
streak n recreated = 0
streak n not_recreated = n
streak n quiet = n

-- After a row of `n` errors, no row gets as long as the limit.
Short : ℕ → ℕ → List Event → Type 0
Short k n [] = Unit
Short k n (e ∷ es) = (streak n e < k) × Short k (streak n e) es

streak_all : ℕ → List Event → ℕ
streak_all n [] = n
streak_all n (e ∷ es) = streak_all (streak n e) es

Short-append :
    (k n : ℕ) (es fs : List Event)
    → Short k n es
    → Short k (streak_all n es) fs
    → Short k n (es ++ fs)
unfolding Short streak_all
Short-append k n [] fs h g = g
Short-append k n (e ∷ es) fs h g = (h.0, Short-append k (streak n e) es fs h.1 g)

Short-drop :
    (k n : ℕ) (before after : List Event)
    → Short k n (before ++ after)
    → Short k (streak_all n before) after
unfolding Short streak_all
Short-drop k n [] after h = h
Short-drop k n (e ∷ before) after h = Short-drop k (streak n e) before after h.1

-- A row without a fresh start stays below the limit.
Short-row :
    (k n : ℕ) (row after : List Event)
    → n < k
    → Every (λ e. is_fresh e ≡ false) row
    → Short k n (row ++ after)
    → n + count_returned row < k
unfolding Short
Short-row k n [] after h f s = omega arith
Short-row k n (delivered m ∷ row) after h f s = absurd (clash f.0)
  where
    clash : true ≡ false → ⊥
    clash q = cc
Short-row k n (recreated ∷ row) after h f s = absurd (clash f.0)
  where
    clash : true ≡ false → ⊥
    clash q = cc
Short-row k n (returned e ∷ row) after h f s =
    let r = Short-row k (suc n) row after s.0 f.1 s.1 in omega arith
Short-row k n (closed ∷ row) after h f s = Short-row k n row after h f.1 s.1
Short-row k n (not_recreated ∷ row) after h f s = Short-row k n row after h f.1 s.1
Short-row k n (quiet ∷ row) after h f s = Short-row k n row after h f.1 s.1

module _ (config : WatchdogConfig) (some_limit : 0 < config.max_error_streak)
    (in_u32 : config.max_error_streak ≤ max_u32) where
  -- A pass keeps the row below the limit, and the consumer counts at least the row.
  Kept : ℕ → HealthyConsumer × Event → Type 0
  Kept n (c, e) = (streak n e < config.max_error_streak) × (streak n e ≤ c.consecutive_errors)

  do_recreate-Kept :
      (n : ℕ) (r : Pass) (c : HealthyConsumer)
      → n < config.max_error_streak
      → n ≤ c.consecutive_errors
      → Kept n (do_recreate r c)
  unfolding do_recreate Kept
  do_recreate-Kept n r c h k = elim (Bool-cases r.created) [
    | inl e ↦ rw e (omega arith, omega arith)
    | inr e ↦ rw e (h, k)
  ]

  stalled-Kept :
      (n : ℕ) (r : Pass) (c : HealthyConsumer)
      → n < config.max_error_streak
      → n ≤ c.consecutive_errors
      → Kept n (stalled r c)
  unfolding stalled Kept
  stalled-Kept n r c h k = go (ltb 0 r.lag) c.had_assignment (leb r.partitions 0)
    where
      go :
          (l a p : Bool)
          → Kept n (
              if l
              then do_recreate r c
              else if a
              then (if p then do_recreate r c else (record c { last_recv = r.later }, quiet))
              else (record c { last_recv = r.later }, quiet))
      go true a p = do_recreate-Kept n r c h k
      go false true true = do_recreate-Kept n r c h k
      go false true false = (h, k)
      go false false p = (h, k)

  inspect-Kept :
      (n : ℕ) (r : Pass) (p : Polled) (c : HealthyConsumer)
      → n < config.max_error_streak
      → n ≤ c.consecutive_errors
      → Kept n (inspect config r p c)
  unfolding inspect Kept
  inspect-Kept n r (message m) c h k = (some_limit, omega arith)
  inspect-Kept n r ended c h k = (h, k)
  inspect-Kept n r timed_out c h k = stalled-Kept n r c h k
  inspect-Kept n r (failed e) c h k =
      go (cascade config (saturating_succ c.consecutive_errors)) refl
    where
      counted : HealthyConsumer
      counted = record c { consecutive_errors = saturating_succ c.consecutive_errors }

      below : n ≤ saturating_succ c.consecutive_errors
      below = omega arith

      go :
          (x : Bool)
          → cascade config (saturating_succ c.consecutive_errors) ≡ x
          → Kept n (if x then do_recreate r counted else (counted, returned e))
      go true q = do_recreate-Kept n r counted h below
      go false q =
          let l : saturating_succ c.consecutive_errors < config.max_error_streak = ground arith in
          (omega arith, omega arith)

  turn-Kept :
      (n : ℕ) (r : Pass) (c : HealthyConsumer)
      → n < config.max_error_streak
      → n ≤ c.consecutive_errors
      → Kept n (turn config r c)
  unfolding turn Kept
  turn-Kept n r c h k = elim (Bool-cases (ltb (r.now - c.last_recv) config.stall_timeout)) [
    | inl e ↦ rw e (inspect-Kept n r r.polled c h k)
    | inr e ↦ rw e (stalled-Kept n r c h k)
  ]

  Row : ℕ → List Event → HealthyConsumer → Type 0
  Row n es c =
      Short config.max_error_streak n es
      × (streak_all n es < config.max_error_streak)
      × (streak_all n es ≤ c.consecutive_errors)

  next-Row :
      (n : ℕ) (rounds : List Pass) (c : HealthyConsumer)
      → n < config.max_error_streak
      → n ≤ c.consecutive_errors
      → Row n (next config rounds c).0 (next config rounds c).1
  unfolding next Row Short streak_all Kept
  next-Row n [] c h k = (tt, h, k)
  next-Row n (r ∷ rounds) c h k =
      let (below, counted) = turn-Kept n r c h k in
      let e = (turn config r c).1 in
      let c' = (turn config r c).0 in
      elim (Bool-cases (is_final e)) [
        | inl q ↦ rw q ((below, tt), below, counted)
        | inr q ↦
            let (short, last, room) = next-Row (streak n e) rounds c' below counted in
            rw q ((below, short), last, room)
      ]

  calls-Short :
      (m n : ℕ) (rounds : List Pass) (c : HealthyConsumer)
      → n < config.max_error_streak
      → n ≤ c.consecutive_errors
      → Short config.max_error_streak n (calls m config rounds c)
  unfolding calls Row Short streak_all
  calls-Short zero n rounds c h k = tt
  calls-Short (suc m) n rounds c h k =
      let (short, last, room) = next-Row n rounds c h k in
      let (es, c', rest) = next config rounds c in
      Short-append config.max_error_streak n es (calls m config rest c') short
        (calls-Short m (streak_all n es) rest c' last room)

  streak_all_bound :
      (n : ℕ) (before after : List Event)
      → n < config.max_error_streak
      → Short config.max_error_streak n (before ++ after)
      → streak_all n before < config.max_error_streak
  unfolding Short streak_all
  streak_all_bound n [] after h s = h
  streak_all_bound n (e ∷ before) after h s = streak_all_bound (streak n e) before after s.0 s.1

  -- With a limit above 0, a number of `u32`: between two messages or new consumers the callers of
  -- `next` are given fewer errors than the limit, however the consumer and the factory answer.
  pub calls-count_returned :
      (m start : ℕ) (rounds : List Pass) (before row after : List Event)
      → calls m config rounds (with_factory start) ≡ before ++ (row ++ after)
      → Every (λ e. is_fresh e ≡ false) row
      → count_returned row < config.max_error_streak
  calls-count_returned m start rounds before row after q f =
      let k = config.max_error_streak in
      let all =
        subst (Short k 0) q
          (calls-Short m 0 rounds (with_factory start) some_limit (omega arith)) in
      let first = streak_all_bound 0 before (row ++ after) some_limit all in
      let bound =
        Short-row k (streak_all 0 before) row after first f
          (Short-drop k 0 before (row ++ after) all) in
      omega arith
