-- ===== src/Cypher/WriteCheck/Returns.antt =====
-- crates/rb-storage-neo4j/src/write_check.rs: the scan ends.
use rustacean.Common.{
  ℕ, zero, suc, ◌≤◌, ◌<◌, ◌≡◌, refl, ap, ◌⊎◌, inl, inr, Bool, true, false, ◌||◌, some, List, [],
  ◌∷◌, length, arith, ◌==◌,
}
use rustacean.Common.Bytes.{is_alpha}
use rustacean.Cypher.Scan.{
  ScanState, normal, single_quote, double_quote, backtick, line_comment, block_comment,
  drop_word-shrinks, is_ident_char,
}
use rustacean.Cypher.WriteCheck.{
  Turn, write_found, goes_on, skip, turn, scan, has_write_operators, normal_turn, word_turn,
}

-- With more fuel than bytes, the scan from here returns `r`.
abbrev pub Ends : ScanState → List ℕ → Bool → Type 0
Ends state bytes r = (n : ℕ) → length bytes < n → scan n state bytes ≡ some r

pub Ends-nil : (state : ScanState) → Ends state [] false
unfolding scan
Ends-nil state zero h = absurd (omega arith)
Ends-nil state (suc n) h = refl

pub Ends-step :
    (state : ScanState) (b : ℕ) (rest : List ℕ) (state' : ScanState) (rest' : List ℕ) (r : Bool)
    → turn state b rest ≡ goes_on state' rest'
    → length rest' ≤ length rest
    → Ends state' rest' r
    → Ends state (b ∷ rest) r
unfolding scan
Ends-step state b rest state' rest' r e l h zero k = absurd (omega arith)
Ends-step state b rest state' rest' r e l h (suc n) k = rw (e, scan) (h n (omega arith))

pub Ends-found :
    (state : ScanState) (b : ℕ) (rest : List ℕ)
    → turn state b rest ≡ write_found
    → Ends state (b ∷ rest) true
unfolding scan
Ends-found state b rest e zero k = absurd (omega arith)
Ends-found state b rest e (suc n) k = rw (e, scan)

length-skip-le : (bs : List ℕ) → length (skip bs) ≤ length bs
length-skip-le [] = omega arith
length-skip-le (b ∷ bs) = omega arith

abbrev left : Turn → List ℕ
left write_found = []
left (goes_on state rest) = rest

Turn-cases :
    (t : Turn)
    → (t ≡ write_found) ⊎ ((state : ScanState) × (rest : List ℕ) × (t ≡ goes_on state rest))
Turn-cases write_found = inl refl
Turn-cases (goes_on state rest) = inr (state, rest, refl)

word_start-is_ident_char : (b : ℕ) → (is_alpha b || b == b'_') ≡ true → is_ident_char b ≡ true
word_start-is_ident_char b h = ground arith

length-left-word :
    (b : ℕ) (rest : List ℕ)
    → (is_alpha b || b == b'_') ≡ true
    → length (left (word_turn b rest)) ≤ length rest
unfolding word_turn
length-left-word b rest h = ground (arith, drop_word-shrinks b rest (word_start-is_ident_char b h))

length-left-normal : (b : ℕ) (rest : List ℕ) → length (left (normal_turn b rest)) ≤ length rest
unfolding normal_turn
length-left-normal b rest = ground (arith, length-left-word b rest, length-skip-le rest)

-- A turn leaves no more than the bytes behind the one that it reads.
length-left :
    (state : ScanState) (b : ℕ) (rest : List ℕ) → length (left (turn state b rest)) ≤ length rest
unfolding turn
length-left normal b rest = length-left-normal b rest
length-left single_quote b [] = omega arith
length-left single_quote b (c ∷ rest) = ground arith
length-left double_quote b [] = omega arith
length-left double_quote b (c ∷ rest) = ground arith
length-left backtick b rest = omega arith
length-left line_comment b rest = omega arith
length-left block_comment b rest = ground (arith, length-skip-le rest)

scan_ends :
    (n : ℕ) (state : ScanState) (bytes : List ℕ)
    → length bytes < n
    → (r : Bool) × (scan n state bytes ≡ some r)
unfolding scan
scan_ends zero state bytes h = absurd (omega arith)
scan_ends (suc n) state [] h = (false, refl)
scan_ends (suc n) state (b ∷ rest) h = elim (Turn-cases (turn state b rest)) [
  | inl e ↦ (true, rw (e, scan))
  | inr (state', rest', e) ↦
      let fits : length rest' ≤ length rest = rw (ap left e) at (length-left state b rest) in
      let (r, q) = scan_ends n state' rest' (omega arith) in (r, rw (e, scan) q)
]

-- The check returns an answer for every query.
pub has_write_operators-returns :
    (cypher : List ℕ) → (r : Bool) × (has_write_operators cypher ≡ some r)
unfolding has_write_operators
has_write_operators-returns cypher = scan_ends (suc (length cypher)) normal cypher (omega arith)
