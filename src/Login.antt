-- ===== src/Login.antt =====
-- crates/rb-auth/src/rate_limiter.rs: the limit on failed logins. An `Instant` is a number of
-- nanoseconds, and the one that `Instant::now()` gives an argument.
pub mod Limit
pub mod Answer
use rustacean.Common.{
  ℕ, zero, suc, ◌+◌, ◌-◌, ◌*◌, ◌/◌, min, max, String, Bool, true, false, Option, none, some, List,
  [], ◌∷◌, ◌++◌, length, ltb, leb, if◌then◌else◌,
}
use text.Mathlib.Text.{◌==◌}

abbrev pub nanos : ℕ
nanos = 1000000000

-- `MAX_FAILURES`, `WINDOW_SECS` and `LOCKOUT_SECS`, the window in nanoseconds.
abbrev pub max_failures : ℕ
max_failures = 5

abbrev pub window : ℕ
window = 600 * nanos

abbrev pub lockout_secs : ℕ
lockout_secs = 900

pub record LoginRateLimiter : Type 0 where
  pub failures : String → Option (List ℕ)

abbrev pub new_limiter : LoginRateLimiter
new_limiter = record { failures = λ email. none }

-- The attempts in the window: the filter of `check` and the `retain` of `record_attempt`.
unfoldable pub recent : ℕ → List ℕ → List ℕ
recent now [] = []
recent now (t ∷ ts) = let rest = recent now ts in if ltb (now - t) window then t ∷ rest else rest

abbrev pub min_from : ℕ → List ℕ → ℕ
min_from t [] = t
min_from t (u ∷ us) = min t (min_from u us)

-- `iter().min().unwrap_or(now)`
abbrev pub oldest : ℕ → List ℕ → ℕ
oldest now [] = now
oldest now (t ∷ ts) = min_from t ts

-- `None` is `Ok(())`, and `Some` the `retry_after_secs` of the error.
abbrev pub verdict : ℕ → List ℕ → Option ℕ
verdict now ts =
    if leb max_failures (length ts)
    then some (max (lockout_secs - (now - oldest now ts) / nanos) 1)
    else none

abbrev check_attempts : ℕ → Option (List ℕ) → Option ℕ
check_attempts now none = none
check_attempts now (some attempts) = verdict now (recent now attempts)

unfoldable pub check : ℕ → String → LoginRateLimiter → Option ℕ
unfolding recent
check now email limiter = check_attempts now (limiter.failures email)

abbrev set_failures : String → Option (List ℕ) → LoginRateLimiter → LoginRateLimiter
set_failures email attempts limiter = record limiter {
  failures = λ other. if other == email then attempts else limiter.failures other;
}

abbrev pub or_default : Option (List ℕ) → List ℕ
or_default none = []
or_default (some ts) = ts

unfoldable pub record_attempt : ℕ → String → Bool → LoginRateLimiter → LoginRateLimiter
unfolding recent
record_attempt now email true limiter = set_failures email none limiter
record_attempt now email false limiter =
    set_failures email (some (recent now (or_default (limiter.failures email)) ++ (now ∷ [])))
      limiter
