-- ===== src/Login/Limit.antt =====
-- crates/rb-auth/src/rate_limiter.rs: who is limited, for how long, and what the error says of it.
use rustacean.Common.{
  ℕ, ◌+◌, ◌-◌, ◌*◌, ◌≤◌, ◌<◌, String, ◌≡◌, refl, sym, ap, ◌∙◌, subst, ◌↔◌, inl, inr, Bool, true,
  false, Option, none, some, List, [], ◌∷◌, ◌++◌, length, ltb, leb, if◌then◌else◌, arith,
  Bool-cases,
}
use rustacean.Common.Every.{Every}
use rustacean.Login.{
  max_failures, window, LoginRateLimiter, new_limiter, recent, verdict, check_attempts, check,
  or_default, record_attempt,
}
use text.Mathlib.Text.{◌==◌}
use text.Mathlib.TextEquality.{eq_iff}

pub record Attempt : Type 0 where
  pub email : String
  pub at : ℕ
  pub success : Bool

-- The attempts of a run, one after the other.
abbrev pub run : List Attempt → LoginRateLimiter → LoginRateLimiter
run [] limiter = limiter
run (a ∷ attempts) limiter = run attempts (record_attempt a.at a.email a.success limiter)

-- The times of an address's failures since its last success, after those given.
abbrev pub failed_since : String → List Attempt → List ℕ → List ℕ
failed_since email [] ts = ts
failed_since email (a ∷ attempts) ts =
    failed_since email attempts
      (if email == a.email then (if a.success then [] else ts ++ (a.at ∷ [])) else ts)

recent-append : (now : ℕ) (ts us : List ℕ) → recent now (ts ++ us) ≡ recent now ts ++ recent now us
unfolding recent
recent-append now [] us = refl
recent-append now (t ∷ ts) us = elim (Bool-cases (ltb (now - t) window)) [
  | inl h ↦ rw h (ap (λ xs. t ∷ xs) (recent-append now ts us))
  | inr h ↦ rw h (recent-append now ts us)
]

-- What an earlier look drops, a later look would not see.
recent-recent : (now t : ℕ) (ts : List ℕ) → t ≤ now → recent now (recent t ts) ≡ recent now ts
unfolding recent
recent-recent now t [] h = refl
recent-recent now t (u ∷ ts) h = elim (Bool-cases (ltb (t - u) window)) [
  | inl p ↦ elim (Bool-cases (ltb (now - u) window)) [
    | inl q ↦ rw (p, q) (ap (λ xs. u ∷ xs) (recent-recent now t ts h))
    | inr q ↦ rw (p, q) (recent-recent now t ts h)
  ]
  | inr p ↦
      let q : ltb (now - u) window ≡ false = ground arith in rw (p, q) (recent-recent now t ts h)
]

failed_since-recent :
    (now : ℕ) (email : String) (attempts : List Attempt) (ts us : List ℕ)
    → recent now ts ≡ recent now us
    → recent now (failed_since email attempts ts) ≡ recent now (failed_since email attempts us)
failed_since-recent now email [] ts us h = h
failed_since-recent now email (a ∷ attempts) ts us h =
    failed_since-recent now email attempts _ _ (same (email == a.email) a.success)
  where
    same :
        (mine success : Bool)
        → recent now (if mine then (if success then [] else ts ++ (a.at ∷ [])) else ts)
          ≡ recent now (if mine then (if success then [] else us ++ (a.at ∷ [])) else us)
    same false success = h
    same true true = refl
    same true false =
        recent-append now ts (a.at ∷ [])
        ∙ ap (λ xs. xs ++ recent now (a.at ∷ [])) h
        ∙ sym (recent-append now us (a.at ∷ []))

attempt-failures :
    (now : ℕ) (email : String) (a : Attempt) (limiter : LoginRateLimiter)
    → a.at ≤ now
    → recent now (or_default ((record_attempt a.at a.email a.success limiter).failures email))
      ≡ recent now (
          if email == a.email
          then (if a.success then [] else or_default (limiter.failures email) ++ (a.at ∷ []))
          else or_default (limiter.failures email))
unfolding record_attempt
attempt-failures now email a limiter h = go a.success
  where
    failed :
        email ≡ a.email
        → recent now (recent a.at (or_default (limiter.failures a.email)) ++ (a.at ∷ []))
          ≡ recent now (or_default (limiter.failures email) ++ (a.at ∷ []))
    failed q =
        recent-append now (recent a.at (or_default (limiter.failures a.email))) (a.at ∷ [])
        ∙ ap (λ xs. xs ++ recent now (a.at ∷ []))
            (recent-recent now a.at (or_default (limiter.failures a.email)) h)
        ∙ sym (recent-append now (or_default (limiter.failures a.email)) (a.at ∷ []))
        ∙ ap (λ e. recent now (or_default (limiter.failures e) ++ (a.at ∷ []))) (sym q)

    go :
        (success : Bool)
        → recent now (or_default ((record_attempt a.at a.email success limiter).failures email))
          ≡ recent now (
              if email == a.email
              then (if success then [] else or_default (limiter.failures email) ++ (a.at ∷ []))
              else or_default (limiter.failures email))
    go true = elim (Bool-cases (email == a.email)) [ inl q ↦ rw q | inr q ↦ rw q ]
    go false = elim (Bool-cases (email == a.email)) [
      | inl q ↦ rw q (failed ((eq_iff email a.email).0 q))
      | inr q ↦ rw q
    ]

run-failures :
    (now : ℕ) (email : String) (attempts : List Attempt) (limiter : LoginRateLimiter)
    → Every (λ (a : Attempt). a.at ≤ now) attempts
    → recent now (or_default ((run attempts limiter).failures email))
      ≡ recent now (failed_since email attempts (or_default (limiter.failures email)))
run-failures now email [] limiter h = refl
run-failures now email (a ∷ attempts) limiter h =
    run-failures now email attempts (record_attempt a.at a.email a.success limiter) h.1
    ∙ failed_since-recent now email attempts _ _ (attempt-failures now email a limiter h.0)

pub check-verdict :
    (now : ℕ) (email : String) (limiter : LoginRateLimiter)
    → check now email limiter ≡ verdict now (recent now (or_default (limiter.failures email)))
unfolding check recent
check-verdict now email limiter = go (limiter.failures email)
  where
    go : (ts : Option (List ℕ)) → check_attempts now ts ≡ verdict now (recent now (or_default ts))
    go none = refl
    go (some ts) = refl

-- The same with the code's own filter.
check-passes :
    (now : ℕ) (email : String) (attempts : List Attempt)
    → Every (λ (a : Attempt). a.at ≤ now) attempts
    → (check now email (run attempts new_limiter) ≡ none)
      ↔ (length (recent now (failed_since email attempts [])) < max_failures)
check-passes now email attempts h =
    subst (λ v. (v ≡ none) ↔ (length (recent now (failed_since email attempts [])) < max_failures))
      (sym (
        check-verdict now email (run attempts new_limiter)
        ∙ ap (verdict now) (run-failures now email attempts new_limiter h)))
      (passes (recent now (failed_since email attempts [])))
  where
    passes : (ts : List ℕ) → (verdict now ts ≡ none) ↔ (length ts < max_failures)
    passes ts = elim (Bool-cases (leb max_failures (length ts))) [
      | inl q ↦ rw q (λ e. absurd (clash e), λ k. absurd (ground arith))
      | inr q ↦ rw q (λ e. ground arith, λ k. refl)
    ]
      where
        clash : {n : ℕ} → some n ≡ none → ⊥
        clash e = cc

-- Ten minutes in nanoseconds.
abbrev ten_minutes : ℕ
ten_minutes = 600 * 1000000000

-- How many of the times are less than ten minutes ago.
abbrev pub lately : ℕ → List ℕ → ℕ
lately now [] = 0
lately now (t ∷ ts) = (if ltb now (t + ten_minutes) then 1 else 0) + lately now ts

length-recent : (now : ℕ) (ts : List ℕ) → length (recent now ts) ≡ lately now ts
unfolding recent
length-recent now [] = refl
length-recent now (t ∷ ts) = elim (Bool-cases (ltb (now - t) window)) [
  | inl h ↦
      let q : ltb now (t + ten_minutes) ≡ true = ground arith in
      rw (h, q) (let r = length-recent now ts in omega arith)
  | inr h ↦
      let q : ltb now (t + ten_minutes) ≡ false = ground arith in
      rw (h, q) (let r = length-recent now ts in omega arith)
]

-- After any attempts that happened up to now, `check` lets an address pass exactly when fewer than five
-- of its failures since its last success are less than ten minutes ago; the attempts of other
-- addresses do not count.
pub check-run :
    (now : ℕ) (email : String) (attempts : List Attempt)
    → Every (λ (a : Attempt). a.at ≤ now) attempts
    → (check now email (run attempts new_limiter) ≡ none)
      ↔ (lately now (failed_since email attempts []) < 5)
check-run now email attempts h =
    subst (λ n. (check now email (run attempts new_limiter) ≡ none) ↔ (n < 5))
      (length-recent now (failed_since email attempts [])) (check-passes now email attempts h)

none-recent : (now : ℕ) (ts : List ℕ) → Every (λ t. t + window ≤ now) ts → recent now ts ≡ []
unfolding recent
none-recent now [] h = refl
none-recent now (t ∷ ts) h =
    let q : ltb (now - t) window ≡ false = ground (arith, h.0) in rw q (none-recent now ts h.1)

failed_since-old :
    (email : String) (limit : ℕ) (attempts : List Attempt) (ts : List ℕ)
    → Every (λ (a : Attempt). a.at + window ≤ limit) attempts
    → Every (λ t. t + window ≤ limit) ts
    → Every (λ t. t + window ≤ limit) (failed_since email attempts ts)
failed_since-old email limit [] ts h k = k
failed_since-old email limit (a ∷ attempts) ts h k =
    failed_since-old email limit attempts _ h.1 (one (email == a.email) a.success)
  where
    snoc :
        (ts : List ℕ)
        → Every (λ t. t + window ≤ limit) ts
        → Every (λ t. t + window ≤ limit) (ts ++ (a.at ∷ []))
    snoc [] k = (h.0, tt)
    snoc (t ∷ ts) k = (k.0, snoc ts k.1)

    one :
        (mine success : Bool)
        → Every
            (λ t. t + window ≤ limit)
            (if mine then (if success then [] else ts ++ (a.at ∷ [])) else ts)
    one false success = k
    one true true = tt
    one true false = snoc ts k

all_before :
    (limit : ℕ) (attempts : List Attempt)
    → Every (λ (a : Attempt). a.at + window ≤ limit) attempts
    → Every (λ (a : Attempt). a.at ≤ limit) attempts
all_before limit [] h = tt
all_before limit (a ∷ attempts) h = (omega (arith, h.0), all_before limit attempts h.1)

-- Ten minutes after the last attempt of anybody no address is limited any more, whatever `check` said
-- before.
pub check_expires :
    (now : ℕ) (email : String) (attempts : List Attempt)
    → Every (λ (a : Attempt). a.at + window ≤ now) attempts
    → check now email (run attempts new_limiter) ≡ none
check_expires now email attempts h =
    (check-passes now email attempts (all_before now attempts h)).1 (
      subst (λ ts. length ts < max_failures)
        (sym (
          none-recent now (failed_since email attempts [])
            (failed_since-old email now attempts [] h tt)))
        (omega arith))
