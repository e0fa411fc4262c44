-- ===== src/Relay/Posts.antt =====
-- services/agent-runner/src/event_relay/retry.rs: how often a batch is sent, and how it is counted.
use rustacean.Common.{
  ℕ, zero, suc, ◌+◌, ◌≤◌, ◌<◌, ◌≡◌, ◌≢◌, refl, sym, ap, ◌∙◌, subst, ◌↔◌, ◌⊎◌, inl, inr, arith,
}
use rustacean.Relay.{
  Response, success, server_error, refused, transient, broken, Posted, conclude, request,
  count_failed, post_from, nothing_posted, post_with_retry, max_retry_attempts,
}

-- The answers after which there is another attempt.
abbrev pub Retried : Response → Type 0
Retried r = (r ≡ server_error) ⊎ (r ≡ transient)

-- Some attempt of those that are left succeeds, and before it there are only answers to retry after.
abbrev pub Succeeds : (ℕ → Response) → ℕ → ℕ → Type 0
Succeeds answer first left =
    (n : ℕ) × (n < left)
    × (answer (first + n) ≡ success)
    × ((m : ℕ) → m < n → Retried (answer (first + m)))

-- The batch is counted as published if an attempt succeeds, and as failed otherwise.
abbrev pub Counted : (ℕ → Response) → ℕ → ℕ → ℕ → Posted → Posted → Type 0
Counted answer first left count p q =
    (Succeeds answer first left × (q.published ≡ p.published + count) × (q.failed ≡ p.failed))
    ⊎ (¬ Succeeds answer first left × (q.published ≡ p.published) × (q.failed ≡ p.failed + count))

module _ (answer : ℕ → Response) (first left : ℕ) where
  -- A first answer without a retry settles it.
  settled : answer first ≢ success → ¬ Retried (answer first) → ¬ Succeeds answer first left
  settled bad final (zero, l, e, before) =
      bad (subst (λ n. answer n ≡ success) (let q : first + 0 ≡ first = omega arith in q) e)
  settled bad final (suc n, l, e, before) = final (
      subst (λ n. Retried (answer n)) (let q : first + 0 ≡ first = omega arith in q)
        (before 0 (omega arith)))

  shifted :
      Retried (answer first)
      → answer first ≢ success
      → Succeeds answer first (suc left) ↔ Succeeds answer (suc first) left
  shifted r bad = (there, back)
    where
      same : (n : ℕ) → first + suc n ≡ suc first + n
      same n = omega arith

      there : Succeeds answer first (suc left) → Succeeds answer (suc first) left
      there (zero, l, e, before) =
          absurd
            (bad (subst (λ n. answer n ≡ success) (let q : first + 0 ≡ first = omega arith in q) e))
      there (suc n, l, e, before) = (
        n,
        omega arith,
        subst (λ n. answer n ≡ success) (same n) e,
        λ m k. subst (λ n. Retried (answer n)) (same m) (before (suc m) (omega arith)),
      )

      back : Succeeds answer (suc first) left → Succeeds answer first (suc left)
      back (n, l, e, before) =
          (suc n, omega arith, subst (λ n. answer n ≡ success) (sym (same n)) e, earlier)
        where
          earlier : (m : ℕ) → m < suc n → Retried (answer (first + m))
          earlier zero k =
              subst (λ n. Retried (answer n)) (let q : first ≡ first + 0 = omega arith in q) r
          earlier (suc m) k =
              subst (λ n. Retried (answer n)) (sym (same m)) (before m (omega arith))

Counted-later :
    (answer : ℕ → Response) (first left count : ℕ) (p q : Posted)
    → Retried (answer first)
    → answer first ≢ success
    → Counted answer (suc first) left count (request first p) q
    → Counted answer first (suc left) count p q
Counted-later answer zero left count p q r bad (inl (s, a, b)) =
    inl ((shifted answer zero left r bad).1 s, a, b)
Counted-later answer zero left count p q r bad (inr (s, a, b)) =
    inr (λ k. s ((shifted answer zero left r bad).0 k), a, b)
Counted-later answer (suc n) left count p q r bad (inl (s, a, b)) =
    inl ((shifted answer (suc n) left r bad).1 s, a, b)
Counted-later answer (suc n) left count p q r bad (inr (s, a, b)) =
    inr (λ k. s ((shifted answer (suc n) left r bad).0 k), a, b)

request-requests :
    (n : ℕ) (p : Posted)
    → ((request n p).requests ≡ p.requests + 1)
      × ((request n p).published ≡ p.published)
      × ((request n p).failed ≡ p.failed)
request-requests zero p = (refl, refl, refl)
request-requests (suc n) p = (refl, refl, refl)

post_from-Counted :
    (left first count : ℕ) (answer : ℕ → Response) (p : Posted)
    → Counted answer first left count p (post_from left first answer count p)
      × (p.requests ≤ (post_from left first answer count p).requests)
      × ((post_from left first answer count p).requests ≤ p.requests + left)
unfolding post_from
post_from-Counted zero first count answer p =
    (inr (λ s. absurd (let l = s.1 in omega arith), refl, refl), omega arith, omega arith)
post_from-Counted (suc left) first count answer p =
    go (answer first) refl (post_from-Counted left (suc first) count answer (request first p))
  where
    later : Posted
    later = post_from left (suc first) answer count (request first p)

    bad : {r : Response} → answer first ≡ r → r ≢ success → answer first ≢ success
    bad e n q = n (sym e ∙ q)

    final :
        {r : Response}
        → answer first ≡ r
        → r ≢ server_error
        → r ≢ transient
        → ¬ Retried (answer first)
    final e n m (inl q) = n (sym e ∙ q)
    final e n m (inr q) = m (sym e ∙ q)

    retry :
        Retried (answer first)
        → answer first ≢ success
        → Counted answer (suc first) left count (request first p) later
          × ((request first p).requests ≤ later.requests)
          × (later.requests ≤ (request first p).requests + left)
        → Counted answer first (suc left) count p later
          × (p.requests ≤ later.requests)
          × (later.requests ≤ p.requests + suc left)
    retry r n (c, l, m) =
        let (k, _, _) = request-requests first p in
        (Counted-later answer first left count p later r n c, omega arith, omega arith)

    drop_batch :
        answer first ≢ success
        → ¬ Retried (answer first)
        → Counted answer first (suc left) count p (count_failed count (request first p))
          × (p.requests ≤ (count_failed count (request first p)).requests)
          × ((count_failed count (request first p)).requests ≤ p.requests + suc left)
    drop_batch n f =
        let (k, a, b) = request-requests first p in
        (
          inr (settled answer first (suc left) n f, a, ap (λ x. x + count) b),
          omega arith,
          omega arith,
        )

    go :
        (r : Response)
        → answer first ≡ r
        → Counted answer (suc first) left count (request first p) later
          × ((request first p).requests ≤ later.requests)
          × (later.requests ≤ (request first p).requests + left)
        → Counted answer first (suc left) count p (conclude r count (request first p) later)
          × (p.requests ≤ (conclude r count (request first p) later).requests)
          × ((conclude r count (request first p) later).requests ≤ p.requests + suc left)
    go success e h =
        let (k, a, b) = request-requests first p in
        (
          inl (
            (
              0,
              omega arith,
              subst (λ n. answer n ≡ success) (let q : first ≡ first + 0 = omega arith in q) e,
              λ m l. absurd (omega arith),
            ),
            ap (λ x. x + count) a,
            b,
          ),
          omega arith,
          omega arith,
        )
    go server_error e h = retry (inl e) (bad e (λ q. cc)) h
    go transient e h = retry (inr e) (bad e (λ q. cc)) h
    go refused e h = drop_batch (bad e (λ q. cc)) (final e (λ q. cc) (λ q. cc))
    go broken e h = drop_batch (bad e (λ q. cc)) (final e (λ q. cc) (λ q. cc))

-- Whatever the answers, a batch is sent at most five times. It is counted as published if one of five
-- attempts succeeds with only server and connection errors before it, and as failed otherwise.
pub post_with_retry-Counted :
    (answer : ℕ → Response) (count : ℕ)
    → Counted answer 0 max_retry_attempts count nothing_posted (post_with_retry answer count)
      × ((post_with_retry answer count).requests ≤ max_retry_attempts)
unfolding post_with_retry
post_with_retry-Counted answer count =
    let (c, _, m) = post_from-Counted max_retry_attempts 0 count answer nothing_posted in (c, m)
