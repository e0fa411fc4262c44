-- ===== src/Redact/NoJwts.antt =====
-- crates/rb-secrets/src/redact.rs: no JWT is left in a line that is scanned.
use rustacean.Common.{
  ℕ, ◌+◌, ◌≤◌, ◌≡◌, refl, sym, ap, ◌∙◌, subst, ◌⊎◌, inl, inr, Bool, true, false, not, ◌&&◌, Option,
  none, some, List, [], ◌∷◌, ◌++◌, map, length, take, drop, arith, Bool-cases, true_not_false,
  &&-true, ||-false, length-map, ◌==◌, if◌then◌else◌, ==_iff,
}
use rustacean.Common.Bytes.{codes, starts_with, has_substring, to_lower, is_whitespace}
use rustacean.Redact.{
  redacted_jwt, redacted_bearer, redacted_secret, scan, replace, replace_cut, secret_names,
  needs_scan, holds_token, count_while, jwt_span, cut_span, jwt_cut, bearer_cut, key_cut,
  apply_live_token, apply_jwt_pattern, apply_bearer_pattern, apply_prefix_pattern, replace_name,
  replace_names, decoded, redact_with_token,
}
use rustacean.Redact.Cuts.{Fits, puts, copies, scan-Cut, scan-has_substring, Cut-has_substring}
use rustacean.Redact.Writes.{if_some, key_cut-Writes, replace_cut-Writes, Writes-Cut}
use rustacean.Redact.Jwts.{
  IsJwt, redacted_jwt-Apart, redacted_bearer-Apart, redacted_secret-Apart, jwt_span-starts_with,
  eyj-starts_with, eyj-has_substring, copied_eyj,
}

-- What begins with a string begins with its bytes.
starts_with-take :
    (t s : List ℕ) → starts_with t s ≡ true → (length t ≤ length s) × (take (length t) s ≡ t)
starts_with-take [] s h = (omega arith, refl)
starts_with-take (x ∷ t) [] h = cc
starts_with-take (x ∷ t) (b ∷ s) h =
    let (q, k) = &&-true (x == b) (starts_with t s) h in
    let (l, e) = starts_with-take t s k in
    (omega arith, ap (λ c. c ∷ take (length t) s) (sym ((==_iff x b).0 q)) ∙ ap (λ s. x ∷ s) e)

-- What is written at an `eyJ`: the placeholder for a JWT, and itself for anything else.
data Written (s out : List ℕ) (n : ℕ) : Type 0 where
  span : (m : ℕ) → jwt_span s ≡ some m → out ≡ redacted_jwt → Written s out n
  other : jwt_span s ≡ none → out ≡ codes "eyJ" → n ≡ 2 → Written s out n

jwt_cut-Written :
    (s out : List ℕ) (n : ℕ)
    → jwt_cut s ≡ some (out, n)
    → (starts_with (codes "eyJ") s ≡ true) × Written s out n
unfolding jwt_cut
jwt_cut-Written s out n e = go (starts_with (codes "eyJ") s) refl (jwt_span s) refl e
  where
    pair_injective :
        {xs ys : List ℕ} {k l : ℕ}
        → ◌≡◌ {A = Option (List ℕ × ℕ)} (some (xs, k)) (some (ys, l))
        → (xs ≡ ys) × (k ≡ l)
    pair_injective e = (ap first e, ap second e)
      where
        first : Option (List ℕ × ℕ) → List ℕ
        first none = []
        first (some (xs, k)) = xs

        second : Option (List ℕ × ℕ) → ℕ
        second none = 0
        second (some (xs, k)) = k

    go :
        (x : Bool)
        → starts_with (codes "eyJ") s ≡ x
        → (o : Option ℕ) → jwt_span s ≡ o
        → (if x then cut_span o else none) ≡ some (out, n)
        → (starts_with (codes "eyJ") s ≡ true) × Written s out n
    go false p o q e = cc
    go true p (some m) q e = (p, span m q (sym (pair_injective e).0))
    go true p none q e = (p, other q (sym (pair_injective e).0) (sym (pair_injective e).1))

jwt_cut-Fits : (s out : List ℕ) (n : ℕ) → jwt_cut s ≡ some (out, n) → Fits redacted_jwt s out n
jwt_cut-Fits s out n e =
    let (p, w) = jwt_cut-Written s out n e in
    elim w [
      | span m q o ↦
          subst (λ out. Fits redacted_jwt s out n) (sym o) (puts s n 0 (omega arith) (omega arith))
      | other q o two ↦
          let (long, t) = starts_with-take (codes "eyJ") s p in
          subst (λ n. Fits redacted_jwt s out n) (sym two)
            (subst (λ out. Fits redacted_jwt s out 2) (t ∙ sym o) (copies s 2 (omega arith)))
    ]

jwt_cut-none : (s : List ℕ) → jwt_cut s ≡ none → starts_with (codes "eyJ") s ≡ false
unfolding jwt_cut
jwt_cut-none s e = go (starts_with (codes "eyJ") s) (jwt_span s) e
  where
    go : (x : Bool) (o : Option ℕ) → (if x then cut_span o else none) ≡ none → x ≡ false
    go false o e = refl
    go true (some m) e = cc
    go true none e = cc

bearer_cut-Fits :
    (s out : List ℕ) (n : ℕ) → bearer_cut s ≡ some (out, n) → Fits redacted_bearer s out n
unfolding bearer_cut
bearer_cut-Fits s out n e =
    let (p, q) = if_some (starts_with (codes "bearer ") (map to_lower s)) _ _ e in
    let (long, _) = starts_with-take (codes "bearer ") (map to_lower s) p in
    let same = length-map s to_lower in
    subst (λ c. Fits redacted_bearer s c.0 c.1) q
      (puts s (6 + count_while (λ b. not (is_whitespace b)) (drop 7 s)) 7 (omega arith)
        (omega arith))

module _ (t : List ℕ) (jwt : IsJwt t) where
  apply_jwt_pattern-has_substring : (s : List ℕ) → has_substring t (apply_jwt_pattern s) ≡ false
  unfolding apply_jwt_pattern
  apply_jwt_pattern-has_substring s = elim (Bool-cases (has_substring (codes "eyJ") s)) [
    | inr e ↦ rw e (eyj-has_substring t jwt s e)
    | inl e ↦ rw e (
        scan-has_substring redacted_jwt t jwt_cut jwt_cut-Fits (redacted_jwt-Apart t jwt) nonempty
          (λ s e. not_start s (jwt_cut-none s e)) writes s)
  ]
    where
      not_start : (s : List ℕ) → starts_with (codes "eyJ") s ≡ false → starts_with t s ≡ false
      not_start s h = elim (Bool-cases (starts_with t s)) [
        | inl e ↦ absurd (true_not_false (eyj-starts_with t jwt s e) h)
        | inr e ↦ e
      ]

      nonempty : starts_with t [] ≡ false
      nonempty = not_start [] refl

      writes :
          (s out : List ℕ) (n : ℕ)
          → jwt_cut s ≡ some (out, n)
          → (u : List ℕ) → has_substring t u ≡ false
          → (starts_with t (out ++ u) ≡ true → starts_with t s ≡ true)
          → has_substring t (out ++ u) ≡ false
      writes s out n e u h back = elim (jwt_cut-Written s out n e).1 [
        | span m q o ↦
            subst (λ out. has_substring t (out ++ u) ≡ false) (sym o)
              ((redacted_jwt-Apart t jwt).passes u ∙ h)
        | other q o two ↦
            subst (λ out. has_substring t (out ++ u) ≡ false) (sym o)
              (copied_eyj t jwt u
                (elim (Bool-cases (starts_with t (codes "eyJ" ++ u))) [
                  | inr no_start ↦ no_start
                  | inl start ↦
                      let (m, k) =
                        jwt_span-starts_with t jwt s
                          (back (subst (λ out. starts_with t (out ++ u) ≡ true) (sym o) start)) in
                      absurd (none_not_some (sym q ∙ k))
                ])
                h)
      ]
        where
          none_not_some : {m : ℕ} → none ≡ some m → ⊥
          none_not_some e = cc

  apply_bearer_pattern-keeps :
      (s : List ℕ) → has_substring t s ≡ false → has_substring t (apply_bearer_pattern s) ≡ false
  unfolding apply_bearer_pattern
  apply_bearer_pattern-keeps s h =
      elim (Bool-cases (has_substring (codes "bearer ") (map to_lower s))) [
        | inr e ↦ rw e h
        | inl e ↦ rw e (
            Cut-has_substring redacted_bearer t (redacted_bearer-Apart t jwt)
              (scan-Cut redacted_bearer bearer_cut bearer_cut-Fits s) h)
      ]

  replace_names-keeps :
      (names : List (List ℕ)) (s : List ℕ)
      → has_substring t s ≡ false
      → has_substring t (replace_names names s) ≡ false
  unfolding replace
  replace_names-keeps [] s h = h
  replace_names-keeps (name ∷ names) s h =
      replace_names-keeps names (replace_name name s) (elim (Bool-cases (has_substring name s)) [
        | inr e ↦ rw e h
        | inl e ↦ rw e (
            Cut-has_substring redacted_secret t (redacted_secret-Apart t jwt)
              (Writes-Cut redacted_secret name (replace_cut name redacted_secret)
                (replace_cut-Writes redacted_secret name) s)
              h)
      ])

  apply_prefix_pattern-keeps :
      (s : List ℕ) → has_substring t s ≡ false → has_substring t (apply_prefix_pattern s) ≡ false
  unfolding apply_prefix_pattern
  apply_prefix_pattern-keeps s h =
      replace_names-keeps secret_names
        (if has_substring (codes "rb_live_") s then scan key_cut 0 s else s)
        (elim (Bool-cases (has_substring (codes "rb_live_") s)) [
          | inr e ↦ rw e h
          | inl e ↦ rw e (
              Cut-has_substring redacted_secret t (redacted_secret-Apart t jwt)
                (Writes-Cut redacted_secret (codes "rb_live_") key_cut key_cut-Writes s) h)
        ])

  -- If decoding changes nothing in the line, or leaves in it what makes the code scan it, the redacted
  -- line holds no JWT: no three parts of base64url bytes between dots that begin with `eyJ`.
  pub redact_with_token-IsJwt :
      (s : List ℕ) (live_token : Option (List ℕ))
      → (decoded s ≡ s) ⊎ (needs_scan (decoded s) ≡ true)
      → has_substring t (redact_with_token s live_token) ≡ false
  unfolding redact_with_token needs_scan
  redact_with_token-IsJwt s live_token plain =
      go (needs_scan (decoded s)) refl (holds_token live_token (decoded s)) plain
    where
      tokenless : List ℕ
      tokenless = apply_live_token live_token (decoded s)

      scanned :
          has_substring t
            (apply_prefix_pattern (apply_bearer_pattern (apply_jwt_pattern tokenless)))
          ≡ false
      scanned = apply_prefix_pattern-keeps (apply_bearer_pattern (apply_jwt_pattern tokenless)) (
          apply_bearer_pattern-keeps (apply_jwt_pattern tokenless)
            (apply_jwt_pattern-has_substring tokenless))

      go :
          (x : Bool)
          → needs_scan (decoded s) ≡ x
          → (y : Bool) → (decoded s ≡ s) ⊎ (x ≡ true)
          → has_substring t (
              if not x && not y
              then s
              else apply_prefix_pattern (apply_bearer_pattern (apply_jwt_pattern tokenless)))
            ≡ false
      go true e y p = scanned
      go false e true p = scanned
      go false e false (inr p) = absurd (true_not_false p refl)
      go false e false (inl p) = eyj-has_substring t jwt s (
          ap (has_substring (codes "eyJ")) (sym p)
          ∙ (||-false (has_substring (codes "eyJ") (decoded s)) _ e).0)
