-- ===== src/Tests/Logins.antt =====
-- crates/rb-auth/src/rate_limiter.rs: five failures of an address within four seconds.
use rustacean.Common.{ℕ, ◌*◌, ◌≤◌, ◌<◌, ◌≡◌, refl, ◌↔◌, false, none, some, List, [], ◌∷◌, arith}
use rustacean.Login.{nanos, lockout_secs, new_limiter, recent, check, record_attempt}
use rustacean.Login.Limit.{lately, Attempt, run, failed_since, check-run, check_expires}
use rustacean.Login.Answer.{check_bounds}

abbrev failure : ℕ → Attempt
failure seconds = record { email = "a@b.c"; at = seconds * nanos; success = false }

abbrev failures : List Attempt
failures = failure 0 ∷ failure 1 ∷ failure 2 ∷ failure 3 ∷ failure 4 ∷ []

check-run_example :
    (check (10 * nanos) "a@b.c" (run failures new_limiter) ≡ none)
    ↔ (lately (10 * nanos) (failed_since "a@b.c" failures []) < 5)
check-run_example = check-run (10 * nanos) "a@b.c" failures (ground arith)

check_expires_example : check (604 * nanos) "a@b.c" (run failures new_limiter) ≡ none
check_expires_example = check_expires (604 * nanos) "a@b.c" failures (ground arith)

limited_now : check (10 * nanos) "a@b.c" (run failures new_limiter) ≡ some 890
unfolding check recent record_attempt
limited_now = refl

check_bounds_example : (301 ≤ 890) × (890 ≤ lockout_secs)
check_bounds_example = check_bounds (10 * nanos) 890 "a@b.c" (run failures new_limiter) limited_now
