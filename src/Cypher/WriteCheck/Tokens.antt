-- ===== src/Cypher/WriteCheck/Tokens.antt =====
-- crates/rb-storage-neo4j/src/write_check.rs: the scan ends, and finds the write words of the query's tokens.
use rustacean.Common.{
  ℕ, suc, ◌≡◌, refl, ◌∙◌, inl, inr, Bool, true, false, ◌||◌, some, List, [], ◌∷◌, ◌++◌, map, length,
  all, arith, ◌==◌, Bool-cases, length-append,
}
use rustacean.Common.Bytes.{codes, is_alpha, to_upper, eq_bytes}
use rustacean.Cypher.Scan.{
  ScanState, normal, single_quote, double_quote, backtick, line_comment, block_comment,
  is_ident_char, Stops, take_word-append, drop_word-append,
}
use rustacean.Cypher.WriteCheck.{
  eq_ci, is_write_keyword, goes_on, turn, has_write_operators, normal_turn, word_turn,
}
use rustacean.Cypher.WriteCheck.Grammar.{
  Quote, single, double, mark, Piece, plain, escaped, Token, text, ticked, line, block, word, other,
  render_pieces, render, PiecesAreValid, Lacks, NotNext, LacksEnd, StartsWord, OtherIsValid,
  IsQuery, is_write_clause, writes,
}
use rustacean.Cypher.WriteCheck.Returns.{Ends, Ends-nil, Ends-step, Ends-found}

eq_ci-eq_bytes : (w u : List ℕ) → eq_ci w u ≡ eq_bytes (map to_upper w) u
eq_ci-eq_bytes [] [] = refl
eq_ci-eq_bytes [] (y ∷ u) = ground arith
eq_ci-eq_bytes (x ∷ w) [] = ground arith
eq_ci-eq_bytes (x ∷ w) (y ∷ u) = ground (arith, eq_ci-eq_bytes w u)

is_write_keyword-is_write_clause : (w : List ℕ) → is_write_keyword w ≡ is_write_clause w
unfolding is_write_keyword
is_write_keyword-is_write_clause w =
    rw
      (
        ← eq_ci-eq_bytes w (codes "SET"),
        ← eq_ci-eq_bytes w (codes "MERGE"),
        ← eq_ci-eq_bytes w (codes "CREATE"),
        ← eq_ci-eq_bytes w (codes "DELETE"),
        ← eq_ci-eq_bytes w (codes "DETACH"),
        ← eq_ci-eq_bytes w (codes "REMOVE"),
      )
      (ground arith)

abbrev state_of : Quote → ScanState
state_of single = single_quote
state_of double = double_quote

Ends-plain :
    (q : Quote) (b : ℕ) (rest : List ℕ) (r : Bool)
    → (b == mark q) ≡ false
    → (b == b'\\') ≡ false
    → Ends (state_of q) rest r
    → Ends (state_of q) (b ∷ rest) r
unfolding turn
Ends-plain single b [] r m k h =
    Ends-step single_quote b [] single_quote [] r (rw m) (omega arith) h
Ends-plain single b (c ∷ rest) r m k h =
    Ends-step single_quote b (c ∷ rest) single_quote (c ∷ rest) r (rw (k, m)) (omega arith) h
Ends-plain double b [] r m k h =
    Ends-step double_quote b [] double_quote [] r (rw m) (omega arith) h
Ends-plain double b (c ∷ rest) r m k h =
    Ends-step double_quote b (c ∷ rest) double_quote (c ∷ rest) r (rw (k, m)) (omega arith) h

Ends-escaped :
    (q : Quote) (b : ℕ) (rest : List ℕ) (r : Bool)
    → Ends (state_of q) rest r
    → Ends (state_of q) (b'\\' ∷ b ∷ rest) r
unfolding turn
Ends-escaped single b rest r h =
    Ends-step single_quote b'\\' (b ∷ rest) single_quote rest r refl (omega arith) h
Ends-escaped double b rest r h =
    Ends-step double_quote b'\\' (b ∷ rest) double_quote rest r refl (omega arith) h

Ends-close :
    (q : Quote) (rest : List ℕ) (r : Bool)
    → Ends normal rest r
    → Ends (state_of q) (mark q ∷ rest) r
unfolding turn
Ends-close single [] r h = Ends-step single_quote b'\'' [] normal [] r refl (omega arith) h
Ends-close single (c ∷ rest) r h =
    Ends-step single_quote b'\'' (c ∷ rest) normal (c ∷ rest) r refl (omega arith) h
Ends-close double [] r h = Ends-step double_quote b'"' [] normal [] r refl (omega arith) h
Ends-close double (c ∷ rest) r h =
    Ends-step double_quote b'"' (c ∷ rest) normal (c ∷ rest) r refl (omega arith) h

Ends-pieces :
    (q : Quote) (ps : List Piece) (rest : List ℕ) (r : Bool)
    → PiecesAreValid q ps
    → Ends normal rest r
    → Ends (state_of q) (render_pieces ps ++ (mark q ∷ rest)) r
Ends-pieces q [] rest r v h = Ends-close q rest r h
Ends-pieces q (plain b ∷ ps) rest r v h =
    Ends-plain q b _ r v.0.0 v.0.1 (Ends-pieces q ps rest r v.1 h)
Ends-pieces q (escaped b ∷ ps) rest r v h = Ends-escaped q b _ r (Ends-pieces q ps rest r v.1 h)

Ends-text :
    (q : Quote) (rest : List ℕ) (r : Bool)
    → Ends (state_of q) rest r
    → Ends normal (mark q ∷ rest) r
unfolding turn
Ends-text single rest r h = Ends-step normal b'\'' rest single_quote rest r refl (omega arith) h
Ends-text double rest r h = Ends-step normal b'"' rest double_quote rest r refl (omega arith) h

Ends-ticked :
    (bs rest : List ℕ) (r : Bool)
    → Lacks b'`' bs
    → Ends normal rest r
    → Ends backtick (bs ++ (b'`' ∷ rest)) r
unfolding turn
Ends-ticked [] rest r l h = Ends-step backtick b'`' rest normal rest r refl (omega arith) h
Ends-ticked (b ∷ bs) rest r l h =
    Ends-step backtick b _ backtick _ r (rw (l.0)) (omega arith) (Ends-ticked bs rest r l.1 h)

Ends-line :
    (bs rest : List ℕ) (r : Bool)
    → Lacks b'\n' bs
    → Ends normal rest r
    → Ends line_comment (bs ++ (b'\n' ∷ rest)) r
unfolding turn
Ends-line [] rest r l h = Ends-step line_comment b'\n' rest normal rest r refl (omega arith) h
Ends-line (b ∷ bs) rest r l h =
    Ends-step line_comment b _ line_comment _ r (rw (l.0)) (omega arith) (Ends-line bs rest r l.1 h)

-- Inside a comment's body no turn closes the comment.
block_turn :
    (b : ℕ) (bs rest : List ℕ)
    → (b ≡ b'*' → NotNext b'/' bs)
    → turn block_comment b (bs ++ (b'*' ∷ b'/' ∷ rest))
      ≡ goes_on block_comment (bs ++ (b'*' ∷ b'/' ∷ rest))
unfolding turn
block_turn b [] rest l = ground arith
block_turn b (c ∷ bs) rest l = ground arith

Ends-block :
    (bs rest : List ℕ) (r : Bool)
    → LacksEnd bs
    → Ends normal rest r
    → Ends block_comment (bs ++ (b'*' ∷ b'/' ∷ rest)) r
unfolding turn
Ends-block [] rest r l h =
    Ends-step block_comment b'*' (b'/' ∷ rest) normal rest r refl (omega arith) h
Ends-block (b ∷ bs) rest r l h =
    Ends-step block_comment b _ block_comment _ r (block_turn b bs rest l.0) (omega arith)
      (Ends-block bs rest r l.1 h)

turn-word :
    (b : ℕ) (rest : List ℕ)
    → (is_alpha b || b == b'_') ≡ true
    → normal_turn b rest ≡ word_turn b rest
unfolding normal_turn
turn-word b rest h = ground arith

Ends-word :
    (w rest : List ℕ) (r : Bool)
    → StartsWord w
    → all is_ident_char w ≡ true
    → Stops rest
    → Ends normal rest r
    → Ends normal (w ++ rest) (is_write_clause w || r)
unfolding turn word_turn
Ends-word [] rest r s a e h = absurd s
Ends-word (b ∷ w) rest r s a e h = elim (Bool-cases (is_write_clause (b ∷ w))) [
  | inl writing ↦ rw writing (
      Ends-found normal b (w ++ rest) (
        turn-word b (w ++ rest) s
        ∙ (rw (
          take_word-append (b ∷ w) rest a e,
          is_write_keyword-is_write_clause (b ∷ w),
          writing,
        ))))
  | inr reading ↦ rw reading (
      Ends-step normal b (w ++ rest) normal rest r
        (turn-word b (w ++ rest) s
          ∙ (rw (
            take_word-append (b ∷ w) rest a e,
            is_write_keyword-is_write_clause (b ∷ w),
            reading,
            drop_word-append (b ∷ w) rest a e,
          )))
        (omega (arith, length-append w rest)) h)
]

turn-other :
    (b : ℕ) (rest : List ℕ) → OtherIsValid b rest → normal_turn b rest ≡ goes_on normal rest
unfolding normal_turn
turn-other b [] v = ground arith
turn-other b (c ∷ rest) v = ground (arith, v.not_line, v.not_block)

Ends-other :
    (b : ℕ) (rest : List ℕ) (r : Bool)
    → OtherIsValid b rest
    → Ends normal rest r
    → Ends normal (b ∷ rest) r
unfolding turn
Ends-other b rest r v h =
    Ends-step normal b rest normal rest r (turn-other b rest v) (omega arith) h

Ends-render : (ts : List Token) → IsQuery ts → Ends normal (render ts) (writes ts)
unfolding turn
Ends-render [] v = Ends-nil normal
Ends-render (text q ps ∷ ts) v = Ends-text q _ _ (Ends-pieces q ps _ _ v.0 (Ends-render ts v.1))
Ends-render (ticked bs ∷ ts) v =
    Ends-step normal b'`' _ backtick _ _ refl (omega arith)
      (Ends-ticked bs _ _ v.0 (Ends-render ts v.1))
Ends-render (line bs ∷ ts) v =
    Ends-step normal b'/' (b'/' ∷ (bs ++ (b'\n' ∷ render ts))) line_comment _ _ refl (omega arith)
      (Ends-line bs _ _ v.0 (Ends-render ts v.1))
Ends-render (block bs ∷ ts) v =
    Ends-step normal b'/' (b'*' ∷ (bs ++ (b'*' ∷ b'/' ∷ render ts))) block_comment _ _ refl
      (omega arith) (Ends-block bs _ _ v.0 (Ends-render ts v.1))
Ends-render (word w ∷ ts) v = Ends-word w _ _ v.0 v.1 v.2 (Ends-render ts v.3)
Ends-render (other b ∷ ts) v = Ends-other b _ _ v.0 (Ends-render ts v.1)

-- On a query that is written from lexical tokens the check answers whether one of its words is a
-- write clause in some case: the same letters inside a string, a comment or a quoted name, or as a
-- part of a longer word, do not count.
pub has_write_operators-render :
    (ts : List Token) → IsQuery ts → has_write_operators (render ts) ≡ some (writes ts)
unfolding has_write_operators
has_write_operators-render ts v = Ends-render ts v (suc (length (render ts))) (omega arith)
