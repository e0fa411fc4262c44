-- ===== src/Login/Answer.antt =====
-- crates/rb-auth/src/rate_limiter.rs: the time that the error names.
use rustacean.Common.{
  ℕ, ◌-◌, ◌/◌, ◌≤◌, ◌<◌, max, String, ◌≡◌, sym, ◌∙◌, inl, inr, none, some, List, [], ◌∷◌, length,
  ltb, leb, ltb→lt, arith, Bool-cases,
}
use rustacean.Common.Every.{Every}
use rustacean.Login.{
  nanos, max_failures, window, lockout_secs, LoginRateLimiter, recent, min_from, verdict, check,
  or_default,
}
use rustacean.Login.Limit.{check-verdict}

recent-Every : (now : ℕ) (ts : List ℕ) → Every (λ t. now - t < window) (recent now ts)
unfolding recent
recent-Every now [] = tt
recent-Every now (t ∷ ts) = elim (Bool-cases (ltb (now - t) window)) [
  | inl q ↦ rw q (ltb→lt (now - t) window q, recent-Every now ts)
  | inr q ↦ rw q (recent-Every now ts)
]

min_from-in_window :
    (now t : ℕ) (ts : List ℕ)
    → now - t < window
    → Every (λ t. now - t < window) ts
    → now - min_from t ts < window
min_from-in_window now t [] h k = h
min_from-in_window now t (u ∷ us) h k = let i = min_from-in_window now u us k.0 k.1 in omega arith

verdict_bounds :
    (now retry : ℕ) (ts : List ℕ)
    → Every (λ t. now - t < window) ts
    → verdict now ts ≡ some retry
    → (301 ≤ retry) × (retry ≤ lockout_secs)
verdict_bounds now retry [] h e = cc
verdict_bounds now retry (t ∷ ts) h e = elim (Bool-cases (leb max_failures (length (t ∷ ts)))) [
  | inl q ↦
      let w = min_from-in_window now t ts h.0 h.1 in
      let s : some (max (lockout_secs - (now - min_from t ts) / nanos) 1) ≡ some retry =
        rw q at e in
      let r = some_injective s in (omega arith, omega arith)
  | inr q ↦ let s : none ≡ some retry = rw q at e in clash s
]
  where
    some_injective : {a b : ℕ} → some a ≡ some b → a ≡ b
    some_injective e = cc

    clash : none ≡ some retry → (301 ≤ retry) × (retry ≤ lockout_secs)
    clash s = cc

-- When `check` limits an address, then it names a time of at least 301 and at most 900 seconds.
pub check_bounds :
    (now retry : ℕ) (email : String) (limiter : LoginRateLimiter)
    → check now email limiter ≡ some retry
    → (301 ≤ retry) × (retry ≤ lockout_secs)
check_bounds now retry email limiter e =
    verdict_bounds now retry (recent now (or_default (limiter.failures email)))
      (recent-Every now (or_default (limiter.failures email)))
      (sym (check-verdict now email limiter) ∙ e)
