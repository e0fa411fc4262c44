-- ===== src/Redact/Cuts.antt =====
-- crates/rb-secrets/src/redact.rs: what the scans leave of a line, and what they cannot bring into it.
use rustacean.Common.{
  append_assoc, ℕ, zero, suc, ◌+◌, ◌-◌, ◌≤◌, ◌≡◌, refl, sym, ap, ◌∙◌, subst, inl, inr, Bool, true,
  false, ◌&&◌, ◌||◌, Option, none, some, List, [], ◌∷◌, ◌++◌, length, take, drop, arith, Bool-cases,
  true_not_false, &&-true, ||-false, length-drop, take-append-drop, ◌==◌,
}
use rustacean.Common.Bytes.{has_byte, starts_with, has_substring}
use rustacean.Redact.{scan}

-- The second line is the first one, with some segments replaced by the placeholder.
pub data Cut (p : List ℕ) : List ℕ → List ℕ → Type 0 where
  done : Cut p [] []
  keep : (b : ℕ) {s o : List ℕ} → Cut p s o → Cut p (b ∷ s) (b ∷ o)
  put : (xs : List ℕ) {s o : List ℕ} → Cut p s o → Cut p (xs ++ s) (p ++ o)

pub Cut-refl : (p s : List ℕ) → Cut p s s
Cut-refl p [] = done
Cut-refl p (b ∷ s) = keep b (Cut-refl p s)

-- A byte string that has nothing of the placeholder: not its first byte, and it begins nowhere in it.
pub record Apart (p t : List ℕ) : Type 0 where
  pub first : ℕ
  pub rest : List ℕ
  pub splits : p ≡ first ∷ rest
  pub absent : has_byte first t ≡ false
  pub passes : (u : List ℕ) → has_substring t (p ++ u) ≡ has_substring t u

starts_with-absent :
    (c : ℕ) (t u : List ℕ) → has_byte c t ≡ false → starts_with t (c ∷ u) ≡ true → t ≡ []
starts_with-absent c [] u h s = refl
starts_with-absent c (a ∷ t) u h s = absurd (clash (a == c) h s)
  where
    clash : (x : Bool) → (x || has_byte c t) ≡ false → (x && starts_with t u) ≡ true → ⊥
    clash true h s = cc
    clash false h s = cc

-- What the cut line begins with, the line began with.
pub Cut-starts_with :
    (p t : List ℕ) {s o : List ℕ}
    → Apart p t
    → Cut p s o
    → starts_with t o ≡ true
    → starts_with t s ≡ true
Cut-starts_with p t {s} {o} a c h = go a.first a.rest a.splits t a.absent c h
  where
    empty : (t s : List ℕ) → t ≡ [] → starts_with t s ≡ true
    empty t s e = subst (λ t. starts_with t s ≡ true) (sym e) refl

    go :
        (f : ℕ) (rest : List ℕ)
        → p ≡ f ∷ rest
        → (t : List ℕ) → has_byte f t ≡ false
        → {s o : List ℕ} → Cut p s o
        → starts_with t o ≡ true
        → starts_with t s ≡ true
    go f rest e [] n c h = refl
    go f rest e (x ∷ t) n done h = cc
    go f rest e (x ∷ t) n (keep b c) h =
        let (q, k) = &&-true (x == b) (starts_with t _) h in
        let (_, m) = ||-false (x == f) (has_byte f t) n in
        let r = go f rest e t m c k in ground (arith, q, r)
    go f rest e (x ∷ t) n (put xs {s} {o} c) h = empty (x ∷ t) (xs ++ s) (
        starts_with-absent f (x ∷ t) (rest ++ o) n
          (subst (λ p. starts_with (x ∷ t) (p ++ o) ≡ true) e h))

has_substring-drop :
    (t xs s : List ℕ) → has_substring t (xs ++ s) ≡ false → has_substring t s ≡ false
has_substring-drop t [] s h = h
has_substring-drop t (x ∷ xs) s h =
    has_substring-drop t xs s
      (||-false (starts_with t (x ∷ (xs ++ s))) (has_substring t (xs ++ s)) h).1

-- The cut line has no more than the line had.
pub Cut-has_substring :
    (p t : List ℕ) {s o : List ℕ}
    → Apart p t
    → Cut p s o
    → has_substring t s ≡ false
    → has_substring t o ≡ false
Cut-has_substring p t a done h = h
Cut-has_substring p t a (put xs {s} {o} c) h =
    a.passes o ∙ Cut-has_substring p t a c (has_substring-drop t xs s h)
Cut-has_substring p t a (keep b {s} {o} c) h =
    let (n, m) = ||-false (starts_with t (b ∷ s)) (has_substring t s) h in
    let r = Cut-has_substring p t a c m in
    elim (Bool-cases (starts_with t (b ∷ o))) [
      | inl e ↦ absurd (true_not_false (Cut-starts_with p t a (keep b c) e) n)
      | inr e ↦ rw e r
    ]

-- What a scan writes for a match: the placeholder, behind some of the match's bytes, or just these.
pub data Fits (p : List ℕ) : List ℕ → List ℕ → ℕ → Type 0 where
  copies : (s : List ℕ) (n : ℕ) → suc n ≤ length s → Fits p s (take (suc n) s) n
  puts : (s : List ℕ) (n k : ℕ) → k ≤ suc n → k ≤ length s → Fits p s (take k s ++ p) n

pub scan-skip :
    (cut : List ℕ → Option (List ℕ × ℕ)) (n : ℕ) (s : List ℕ) → scan cut n s ≡ scan cut 0 (drop n s)
unfolding scan
scan-skip cut zero s = refl
scan-skip cut (suc n) [] = refl
scan-skip cut (suc n) (b ∷ s) = scan-skip cut n s

module _ (cut : List ℕ → Option (List ℕ × ℕ)) (b : ℕ) (bs : List ℕ) where
  pub scan-none : cut (b ∷ bs) ≡ none → scan cut 0 (b ∷ bs) ≡ b ∷ scan cut 0 bs
  unfolding scan
  scan-none e = rw (e, scan) refl

  pub scan-some :
      (out : List ℕ) (n : ℕ)
      → cut (b ∷ bs) ≡ some (out, n)
      → scan cut 0 (b ∷ bs) ≡ out ++ scan cut n bs
  unfolding scan
  scan-some out n e = rw (e, scan) refl

pub Cut-copy :
    (p : List ℕ) (k : ℕ) (s o : List ℕ)
    → k ≤ length s
    → Cut p (drop k s) o
    → Cut p s (take k s ++ o)
Cut-copy p zero s o h c = c
Cut-copy p (suc k) [] o h c = absurd (omega arith)
Cut-copy p (suc k) (b ∷ s) o h c = keep b (Cut-copy p k s o (omega arith) c)

-- The bytes between two positions, and those behind.
drop_split : (k d n : ℕ) (s : List ℕ) → k + d ≡ n → drop k s ≡ take d (drop k s) ++ drop n s
drop_split zero d n s e =
    sym (take-append-drop d s) ∙ ap (λ n. take d s ++ drop n s) (let q : d ≡ n = omega arith in q)
drop_split (suc k) d zero s e = absurd (omega arith)
drop_split (suc k) d (suc n) [] e = nothing d
  where
    nothing : (d : ℕ) → [] ≡ take {A = ℕ} d [] ++ []
    nothing zero = refl
    nothing (suc d) = refl
drop_split (suc k) d (suc n) (b ∷ s) e = drop_split k d n s (omega arith)

Fits-Cut :
    (p : List ℕ) {s out : List ℕ} {n : ℕ} (o : List ℕ)
    → Fits p s out n
    → Cut p (drop (suc n) s) o
    → Cut p s (out ++ o)
Fits-Cut p o (copies s n h) c = Cut-copy p (suc n) s o h c
Fits-Cut p o (puts s n k h l) c = subst (Cut p s) (sym (append_assoc (take k s) p o)) (
    Cut-copy p k s (p ++ o) l (
      subst (λ r. Cut p r (p ++ o)) (sym (drop_split k (suc n - k) (suc n) s (omega arith)))
        (put (take (suc n - k) (drop k s)) c)))

module _ (p : List ℕ) (cut : List ℕ → Option (List ℕ × ℕ))
    (fits : (s out : List ℕ) (n : ℕ) → cut s ≡ some (out, n) → Fits p s out n) where
  scan-Cut_bounded : (m : ℕ) (s : List ℕ) → length s ≤ m → Cut p s (scan cut 0 s)
  unfolding scan
  scan-Cut_bounded m [] h = done
  scan-Cut_bounded zero (b ∷ bs) h = absurd (omega arith)
  scan-Cut_bounded (suc m) (b ∷ bs) h =
      go (cut (b ∷ bs)) refl (scan-Cut_bounded m bs (omega arith)) (λ n.
        subst (Cut p (drop n bs)) (sym (scan-skip cut n bs))
          (scan-Cut_bounded m (drop n bs) (let l = length-drop n bs in omega arith)))
    where
      go :
          (c : Option (List ℕ × ℕ))
          → cut (b ∷ bs) ≡ c
          → Cut p bs (scan cut 0 bs)
          → ((n : ℕ) → Cut p (drop n bs) (scan cut n bs))
          → Cut p
              (b ∷ bs)
              (elim c [ none ↦ b ∷ scan cut 0 bs | some (out, n) ↦ out ++ scan cut n bs ])
      go none e next later = keep b next
      go (some (out, n)) e next later = Fits-Cut p (scan cut n bs) (fits (b ∷ bs) out n e) (later n)

  -- A scan is a cut.
  pub scan-Cut : (s : List ℕ) → Cut p s (scan cut 0 s)
  scan-Cut s = scan-Cut_bounded (length s) s (omega arith)

module _ (p t : List ℕ) (cut : List ℕ → Option (List ℕ × ℕ))
    (fits : (s out : List ℕ) (n : ℕ) → cut s ≡ some (out, n) → Fits p s out n) (apart : Apart p t)
    (nonempty : starts_with t [] ≡ false)
    (matches : (s : List ℕ) → cut s ≡ none → starts_with t s ≡ false)
    (writes : (s out : List ℕ) (n : ℕ)
      → cut s ≡ some (out, n)
      → (u : List ℕ) → has_substring t u ≡ false
      → (starts_with t (out ++ u) ≡ true → starts_with t s ≡ true)
      → has_substring t (out ++ u) ≡ false) where
  scan-has_substring_bounded :
      (m : ℕ) (s : List ℕ) → length s ≤ m → has_substring t (scan cut 0 s) ≡ false
  unfolding scan
  scan-has_substring_bounded m [] h = nonempty
  scan-has_substring_bounded zero (b ∷ bs) h = absurd (omega arith)
  scan-has_substring_bounded (suc m) (b ∷ bs) h =
      go (cut (b ∷ bs)) refl (Cut-starts_with p t apart (scan-Cut p cut fits (b ∷ bs)))
        (scan-has_substring_bounded m bs (omega arith))
        (λ n.
          ap (has_substring t) (scan-skip cut n bs)
          ∙ scan-has_substring_bounded m (drop n bs) (let l = length-drop n bs in omega arith))
    where
      go :
          (c : Option (List ℕ × ℕ))
          → cut (b ∷ bs) ≡ c
          → (starts_with t
                  (elim c [ none ↦ b ∷ scan cut 0 bs | some (out, n) ↦ out ++ scan cut n bs ])
                ≡ true
              → starts_with t (b ∷ bs) ≡ true)
          → has_substring t (scan cut 0 bs) ≡ false
          → ((n : ℕ) → has_substring t (scan cut n bs) ≡ false)
          → has_substring t
              (elim c [ none ↦ b ∷ scan cut 0 bs | some (out, n) ↦ out ++ scan cut n bs ])
            ≡ false
      go none e back next later = elim (Bool-cases (starts_with t (b ∷ scan cut 0 bs))) [
        | inl q ↦ absurd (true_not_false (back q) (matches (b ∷ bs) e))
        | inr q ↦ rw q next
      ]
      go (some (out, n)) e back next later = writes (b ∷ bs) out n e (scan cut n bs) (later n) back

  -- A scan that finds each match of a pattern, and writes none for it, leaves none.
  pub scan-has_substring : (s : List ℕ) → has_substring t (scan cut 0 s) ≡ false
  scan-has_substring s = scan-has_substring_bounded (length s) s (omega arith)
