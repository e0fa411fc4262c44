-- ===== src/Redact/Decoding.antt =====
-- crates/rb-secrets/src/redact.rs: what percent-decoding keeps of a line.
use rustacean.Common.{
  ℕ, zero, suc, ◌+◌, ◌*◌, ◌≤◌, ◌≡◌, ◌≢◌, ltb, length, length-drop, drop, refl, sym, subst, inl, inr,
  Bool, true, false, ◌&&◌, Option, none, some, List, [], ◌∷◌, ◌++◌, arith, Bool-cases, &&-true,
  ||-false, ==_iff, ◌==◌, if◌then◌else◌,
}
use rustacean.Common.Bytes.{has_byte, starts_with, has_substring}
use rustacean.Redact.{
  scan, hex_nibble, percent_cut, fires, percent_decode_ascii, decoded, or_else, ascii_byte,
}
use rustacean.Redact.Cuts.{scan-none, scan-some, scan-skip}

-- Decoding touches no byte of a string that has no `%` and does not begin with a hex digit.
pub record Literal (t : List ℕ) : Type 0 where
  pub first : ℕ
  pub rest : List ℕ
  pub splits : t ≡ first ∷ rest
  pub not_hex : hex_nibble first ≡ none
  pub no_percent : has_byte b'%' t ≡ false

decode-plain : (b : ℕ) (s : List ℕ) → (b == b'%') ≡ false → percent_cut (b ∷ s) ≡ none
unfolding percent_cut
decode-plain b [] h = refl
decode-plain b (c ∷ []) h = refl
decode-plain b (c ∷ d ∷ s) h = rw h refl

starts_with-decode :
    (t s : List ℕ)
    → has_byte b'%' t ≡ false
    → starts_with t s ≡ true
    → starts_with t (scan percent_cut 0 s) ≡ true
starts_with-decode [] s n h = refl
starts_with-decode (x ∷ t) [] n h = cc
starts_with-decode (x ∷ t) (b ∷ s) n h =
    let (q, k) = &&-true (x == b) (starts_with t s) h in
    let (m, l) = ||-false (x == b'%') (has_byte b'%' t) n in
    let plain = decode-plain b s (subst (λ b. (b == b'%') ≡ false) ((==_iff x b).0 q) m) in
    let r = starts_with-decode t s l k in
    subst (λ o. starts_with (x ∷ t) o ≡ true) (sym (scan-none percent_cut b s plain))
      (ground (arith, q, r))

-- What is decoded is a `%` and two hex digits.
pub data IsEscape : List ℕ → ℕ → Type 0 where
  escape :
      (h l : ℕ) (rest : List ℕ)
      → hex_nibble h ≢ none
      → hex_nibble l ≢ none
      → IsEscape (b'%' ∷ h ∷ l ∷ rest) 2

percent_cut-IsEscape : (s out : List ℕ) (n : ℕ) → percent_cut s ≡ some (out, n) → IsEscape s n
unfolding percent_cut
percent_cut-IsEscape [] out n e = cc
percent_cut-IsEscape (b ∷ []) out n e = cc
percent_cut-IsEscape (b ∷ h ∷ []) out n e = cc
percent_cut-IsEscape (b ∷ h ∷ l ∷ rest) out n e =
    go (b == b'%') refl (hex_nibble h) refl (hex_nibble l) refl e
  where
    some_not_none : {x : Option ℕ} {d : ℕ} → x ≡ some d → x ≢ none
    some_not_none e f = cc

    two :
        (x : Bool) (d : ℕ)
        → if◌then◌else◌ {A = Option (List ℕ × ℕ)} x (some (d ∷ [], 2)) none ≡ some (out, n)
        → n ≡ 2
    two true d e = cc
    two false d e = cc

    go :
        (x : Bool)
        → (b == b'%') ≡ x
        → (hi : Option ℕ) → hex_nibble h ≡ hi
        → (lo : Option ℕ) → hex_nibble l ≡ lo
        → (if x then ascii_byte hi lo else none) ≡ some (out, n)
        → IsEscape (b ∷ h ∷ l ∷ rest) n
    go false p hi q lo r e = cc
    go true p none q lo r e = cc
    go true p (some hi) q none r e = cc
    go true p (some hi) q (some lo) r e =
        let b' = (==_iff b b'%').0 p in
        let n' = two (ltb (hi * 16 + lo) 128) (hi * 16 + lo) e in
        subst (λ b. IsEscape (b ∷ h ∷ l ∷ rest) n) (sym b')
          (subst (IsEscape (b'%' ∷ h ∷ l ∷ rest)) (sym n')
            (escape h l rest (some_not_none q) (some_not_none r)))

module _ (t : List ℕ) (literal : Literal t) where
  -- The string does not begin at a hex digit.
  not_at_hex : (h : ℕ) (s : List ℕ) → hex_nibble h ≢ none → starts_with t (h ∷ s) ≡ false
  not_at_hex h s x =
      subst (λ t. starts_with t (h ∷ s) ≡ false) (sym literal.splits) (go (literal.first == h) refl)
    where
      go : (y : Bool) → (literal.first == h) ≡ y → (y && starts_with literal.rest s) ≡ false
      go false e = refl
      go true e =
          absurd
            (x (subst (λ h. hex_nibble h ≡ none) ((==_iff literal.first h).0 e) literal.not_hex))

  not_at_percent : (s : List ℕ) → starts_with t (b'%' ∷ s) ≡ false
  not_at_percent s = go t literal.splits literal.no_percent
    where
      go :
          (t : List ℕ)
          → t ≡ literal.first ∷ literal.rest
          → has_byte b'%' t ≡ false
          → starts_with t (b'%' ∷ s) ≡ false
      go [] e n = cc
      go (x ∷ t) e n = let (m, _) = ||-false (x == b'%') (has_byte b'%' t) n in rw m refl

  after_escape :
      {s : List ℕ} {n : ℕ}
      → IsEscape s n
      → has_substring t s ≡ true
      → has_substring t (drop (suc n) s) ≡ true
  after_escape (escape h d rest x y) k =
      let p = not_at_percent (h ∷ d ∷ rest) in
      let q = not_at_hex h (d ∷ rest) x in let r = not_at_hex d rest y in ground (arith, p, q, r, k)

  has_substring-right :
      (out o : List ℕ) → has_substring t o ≡ true → has_substring t (out ++ o) ≡ true
  has_substring-right [] o k = k
  has_substring-right (a ∷ out) o k = ground (arith, has_substring-right out o k)

  has_substring-scan :
      (m : ℕ) (s : List ℕ)
      → length s ≤ m
      → has_substring t s ≡ true
      → has_substring t (scan percent_cut 0 s) ≡ true
  unfolding scan
  has_substring-scan m [] l h = h
  has_substring-scan zero (b ∷ bs) l h = absurd (omega arith)
  has_substring-scan (suc m) (b ∷ bs) l h = go (percent_cut (b ∷ bs)) refl (has_substring-scan m)
    where
      go :
          (c : Option (List ℕ × ℕ))
          → percent_cut (b ∷ bs) ≡ c
          → ((s : List ℕ)
              → length s ≤ m
              → has_substring t s ≡ true
              → has_substring t (scan percent_cut 0 s) ≡ true)
          → has_substring t (scan percent_cut 0 (b ∷ bs)) ≡ true
      go none e more =
          subst (λ o. has_substring t o ≡ true) (sym (scan-none percent_cut b bs e))
            (elim (Bool-cases (starts_with t (b ∷ bs))) [
              | inl k ↦
                  let r =
                    subst (λ o. starts_with t o ≡ true) (scan-none percent_cut b bs e)
                      (starts_with-decode t (b ∷ bs) literal.no_percent k) in
                  ground (arith, r)
              | inr k ↦
                  let r = more bs (omega arith) (ground (arith, k, h)) in
                  has_substring-right (b ∷ []) (scan percent_cut 0 bs) r
            ])
      go (some (out, n)) e more =
          subst (λ o. has_substring t o ≡ true) (sym (scan-some percent_cut b bs out n e))
            (has_substring-right out (scan percent_cut n bs) (
              subst (λ o. has_substring t o ≡ true) (sym (scan-skip percent_cut n bs))
                (more (drop n bs) (let q = length-drop n bs in omega arith)
                  (after_escape (percent_cut-IsEscape (b ∷ bs) out n e) h))))

  -- Decoding takes away no such string.
  pub has_substring-decoded :
      (s : List ℕ) → has_substring t s ≡ true → has_substring t (decoded s) ≡ true
  unfolding decoded percent_decode_ascii
  has_substring-decoded s h = go (has_byte b'%' s) (fires percent_cut s)
    where
      go :
          (x y : Bool)
          → has_substring t
              (or_else (if x then (if y then some (scan percent_cut 0 s) else none) else none) s)
            ≡ true
      go false y = h
      go true false = h
      go true true = has_substring-scan (length s) s (omega arith) h
