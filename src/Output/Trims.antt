-- ===== src/Output/Trims.antt =====
-- services/agent-runner/src/normalizer.rs: what a line does not hold, it does not hold without the white
-- space at its ends.
use rustacean.Common.{
  ℕ, ◌≡◌, refl, Bool, true, false, ◌&&◌, List, [], ◌∷◌, arith, true_not_false, &&-true, ||-false,
  if_cases, ◌==◌, if◌then◌else◌,
}
use rustacean.Common.Bytes.{starts_with, has_substring}
use rustacean.Relay.Events.{is_white, trim_start, trim_end}

trim_start-has_substring :
    (t s : List ℕ)
    → starts_with t [] ≡ false
    → has_substring t s ≡ false
    → has_substring t (trim_start s) ≡ false
trim_start-has_substring t [] n h = n
trim_start-has_substring t (c ∷ s) n h =
    let (p, q) = ||-false (starts_with t (c ∷ s)) (has_substring t s) h in
    if_cases (λ s. has_substring t s ≡ false) (is_white c) (trim_start s) (c ∷ s)
      (λ _. trim_start-has_substring t s n q) (λ _. h)

-- What the trimmed line begins with, the line begins with.
trim_end-starts_with : (t s : List ℕ) → starts_with t (trim_end s) ≡ true → starts_with t s ≡ true
trim_end-starts_with [] s h = refl
trim_end-starts_with (x ∷ t) [] h = h
trim_end-starts_with (x ∷ t) (c ∷ s) h = go (trim_end s) (trim_end-starts_with t s) h
  where
    go :
        (rest : List ℕ)
        → (starts_with t rest ≡ true → starts_with t s ≡ true)
        → starts_with
            (x ∷ t)
            (elim rest [ [] ↦ if is_white c then [] else c ∷ [] | d ∷ ds ↦ c ∷ d ∷ ds ])
          ≡ true
        → ((x == c) && starts_with t s) ≡ true
    go [] more h = lone (is_white c) h
      where
        lone :
            (white : Bool)
            → starts_with (x ∷ t) (if white then [] else c ∷ []) ≡ true
            → ((x == c) && starts_with t s) ≡ true
        lone true h = cc
        lone false h =
            let (p, q) = &&-true (x == c) (starts_with t []) h in ground (arith, p, more q)
    go (d ∷ ds) more h =
        let (p, q) = &&-true (x == c) (starts_with t (d ∷ ds)) h in ground (arith, p, more q)

trim_end-has_substring :
    (t s : List ℕ)
    → starts_with t [] ≡ false
    → has_substring t s ≡ false
    → has_substring t (trim_end s) ≡ false
trim_end-has_substring t [] n h = n
trim_end-has_substring t (c ∷ s) n h =
    let (p, q) = ||-false (starts_with t (c ∷ s)) (has_substring t s) h in
    go (trim_end s)
      (not_start p (starts_with t (trim_end (c ∷ s))) (trim_end-starts_with t (c ∷ s)))
      (trim_end-has_substring t s n q)
  where
    not_start : {x : Bool} → x ≡ false → (y : Bool) → (y ≡ true → x ≡ true) → y ≡ false
    not_start p true back = absurd (true_not_false (back refl) p)
    not_start p false back = refl

    go :
        (rest : List ℕ)
        → starts_with t (elim rest [ [] ↦ if is_white c then [] else c ∷ [] | d ∷ ds ↦ c ∷ d ∷ ds ])
          ≡ false
        → has_substring t rest ≡ false
        → has_substring t
            (elim rest [ [] ↦ if is_white c then [] else c ∷ [] | d ∷ ds ↦ c ∷ d ∷ ds ])
          ≡ false
    go [] no_start h = lone (is_white c) no_start
      where
        lone :
            (white : Bool)
            → starts_with t (if white then [] else c ∷ []) ≡ false
            → has_substring t (if white then [] else c ∷ []) ≡ false
        lone true f = n
        lone false f = rw f n
    go (d ∷ ds) no_start h = rw no_start h

-- A line without a string that is not empty has none of it when it is trimmed.
pub trims-has_substring :
    (t s : List ℕ)
    → starts_with t [] ≡ false
    → has_substring t s ≡ false
    → has_substring t (trim_start (trim_end s)) ≡ false
trims-has_substring t s n h =
    trim_start-has_substring t (trim_end s) n (trim_end-has_substring t s n h)
