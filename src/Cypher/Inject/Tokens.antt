-- ===== src/Cypher/Inject/Tokens.antt =====
-- crates/rb-storage-neo4j/src/injector.rs: how the loop passes over each lexical item.
use mathlib.Core.List.{append-nil, append_assoc}
use rustacean.Common.{
  ℕ, zero, suc, ◌<◌, ◌≡◌, refl, sym, ap, ◌∙◌, true, false, some, List, [], ◌∷◌, ◌++◌, length, arith,
  ◌==◌,
}
use rustacean.Cypher.Scan.{
  ScanState, normal, single_quote, double_quote, backtick, line_comment, block_comment,
}
use rustacean.Cypher.WriteCheck.Grammar.{
  Quote, single, double, mark, Piece, plain, escaped, render_pieces, PiecesAreValid, Lacks, NotNext,
  LacksEnd,
}
use rustacean.Cypher.Inject.{Context, CypherError, fails, goes_on, Result, ok, err, turn, loop}
use rustacean.Cypher.Inject.Total.{length-turn-le}
use rustacean.Cypher.Inject.Grammar.{Clause, at}

-- What is pushed first stands first in the result.
abbrev pub prepend : List ℕ → Result → Result
prepend bs (ok out) = ok (bs ++ out)
prepend bs (err e) = err e

prepend-prepend : (cs bs : List ℕ) (r : Result) → prepend cs (prepend bs r) ≡ prepend (cs ++ bs) r
prepend-prepend cs bs (ok out) = rw append_assoc
prepend-prepend cs bs (err e) = refl

module _ (label : List ℕ) where
  -- With more fuel than bytes, the loop from here adds `r` to what is pushed already.
  abbrev pub Yields : Context → List ℕ → Result → Type 0
  Yields c bytes r =
      (n : ℕ) (out : List ℕ) → length bytes < n → loop n label c out bytes ≡ some (prepend out r)

  pub Yields-nil : (c : Context) → Yields c [] (ok [])
  unfolding loop
  Yields-nil c zero out h = absurd (omega arith)
  Yields-nil c (suc n) out h = rw append-nil

  pub Yields-step :
      (c : Context) (b : ℕ) (rest : List ℕ) (c' : Context) (pushed rest' : List ℕ) (r : Result)
      → turn label c b rest ≡ goes_on c' pushed rest'
      → Yields c' rest' r
      → Yields c (b ∷ rest) (prepend pushed r)
  unfolding loop
  Yields-step c b rest c' pushed rest' r e h zero out k = absurd (omega arith)
  Yields-step c b rest c' pushed rest' r e h (suc n) out k =
      rw (e, loop)
        (h n (out ++ pushed) (omega (arith, length-turn-le label c b rest e))
          ∙ ap some (sym (prepend-prepend out pushed r)))

  pub Yields-fails :
      (c : Context) (b : ℕ) (rest : List ℕ) (e : CypherError)
      → turn label c b rest ≡ fails e
      → Yields c (b ∷ rest) (err e)
  unfolding loop
  Yields-fails c b rest e q zero out k = absurd (omega arith)
  Yields-fails c b rest e q (suc n) out k = rw (q, loop)

  Yields-shift :
      (c : Context) (bytes front : List ℕ) (back : List ℕ) (r : Result)
      → Yields c bytes (prepend front (prepend back r))
      → Yields c bytes (prepend (front ++ back) r)
  Yields-shift c bytes front back r h = rw (← prepend-prepend front back r) h

abbrev quote_state : Quote → ScanState
quote_state single = single_quote
quote_state double = double_quote

abbrev closed_text : Clause → Clause
closed_text k = record k { last_was_ident = false }

module _ (label : List ℕ) where
  plain_turn :
      (q : Quote) (k : Clause) (b : ℕ) (rest : List ℕ)
      → (b == mark q) ≡ false
      → (b == b'\\') ≡ false
      → turn label (at (quote_state q) k) b rest ≡ goes_on (at (quote_state q) k) (b ∷ []) rest
  unfolding turn
  plain_turn single k b [] m e = rw m
  plain_turn single k b (d ∷ rest) m e = rw (e, m)
  plain_turn double k b [] m e = rw m
  plain_turn double k b (d ∷ rest) m e = rw (e, m)

  close_turn :
      (q : Quote) (k : Clause) (rest : List ℕ)
      → turn label (at (quote_state q) k) (mark q) rest
        ≡ goes_on (at normal (closed_text k)) (mark q ∷ []) rest
  unfolding turn
  close_turn single k [] = refl
  close_turn single k (d ∷ rest) = refl
  close_turn double k [] = refl
  close_turn double k (d ∷ rest) = refl

  escaped_turn :
      (q : Quote) (k : Clause) (b : ℕ) (rest : List ℕ)
      → turn label (at (quote_state q) k) b'\\' (b ∷ rest)
        ≡ goes_on (at (quote_state q) k) (b'\\' ∷ b ∷ []) rest
  unfolding turn
  escaped_turn single k b rest = refl
  escaped_turn double k b rest = refl

  Yields-pieces :
      (q : Quote) (k : Clause) (ps : List Piece) (rest : List ℕ) (r : Result)
      → PiecesAreValid q ps
      → Yields label (at normal (closed_text k)) rest r
      → Yields label
          (at (quote_state q) k)
          (render_pieces ps ++ (mark q ∷ rest))
          (prepend (render_pieces ps ++ (mark q ∷ [])) r)
  Yields-pieces q k [] rest r v h =
      Yields-step label _ (mark q) rest _ (mark q ∷ []) rest r (close_turn q k rest) h
  Yields-pieces q k (plain b ∷ ps) rest r v h = Yields-shift label _ _ (b ∷ []) _ r (
      Yields-step label _ b _ _ (b ∷ []) _ _ (plain_turn q k b _ v.0.0 v.0.1)
        (Yields-pieces q k ps rest r v.1 h))
  Yields-pieces q k (escaped b ∷ ps) rest r v h = Yields-shift label _ _ (b'\\' ∷ b ∷ []) _ r (
      Yields-step label _ b'\\' (b ∷ (render_pieces ps ++ (mark q ∷ rest))) _ (b'\\' ∷ b ∷ []) _ _
        (escaped_turn q k b _) (Yields-pieces q k ps rest r v.1 h))

  pub Yields-text :
      (q : Quote) (k : Clause) (ps : List Piece) (rest : List ℕ) (r : Result)
      → PiecesAreValid q ps
      → Yields label (at normal (closed_text k)) rest r
      → Yields label
          (at normal k)
          (mark q ∷ (render_pieces ps ++ (mark q ∷ rest)))
          (prepend (mark q ∷ (render_pieces ps ++ (mark q ∷ []))) r)
  unfolding turn
  Yields-text single k ps rest r v h = Yields-shift label _ _ (b'\'' ∷ []) _ r (
      Yields-step label _ b'\'' _ (at single_quote (closed_text k)) (b'\'' ∷ []) _ _ refl
        (Yields-pieces single (closed_text k) ps rest r v h))
  Yields-text double k ps rest r v h = Yields-shift label _ _ (b'"' ∷ []) _ r (
      Yields-step label _ b'"' _ (at double_quote (closed_text k)) (b'"' ∷ []) _ _ refl
        (Yields-pieces double (closed_text k) ps rest r v h))

  Yields-backtick :
      (k : Clause) (bs rest : List ℕ) (r : Result)
      → Lacks b'`' bs
      → Yields label (at normal (record k { last_was_ident = true })) rest r
      → Yields label (at backtick k) (bs ++ (b'`' ∷ rest)) (prepend (bs ++ (b'`' ∷ [])) r)
  unfolding turn
  Yields-backtick k [] rest r l h = Yields-step label _ b'`' rest _ (b'`' ∷ []) rest r refl h
  Yields-backtick k (b ∷ bs) rest r l h = Yields-shift label _ _ (b ∷ []) _ r (
      Yields-step label _ b _ (at backtick k) (b ∷ []) _ _ (rw (l.0))
        (Yields-backtick k bs rest r l.1 h))

  pub Yields-ticked :
      (k : Clause) (bs rest : List ℕ) (r : Result)
      → Lacks b'`' bs
      → Yields label (at normal (record k { last_was_ident = true })) rest r
      → Yields label
          (at normal k)
          (b'`' ∷ (bs ++ (b'`' ∷ rest)))
          (prepend (b'`' ∷ (bs ++ (b'`' ∷ []))) r)
  unfolding turn
  Yields-ticked k bs rest r l h = Yields-shift label _ _ (b'`' ∷ []) _ r (
      Yields-step label _ b'`' _ (at backtick k) (b'`' ∷ []) _ _ refl
        (Yields-backtick k bs rest r l h))

  Yields-line_comment :
      (k : Clause) (bs rest : List ℕ) (r : Result)
      → Lacks b'\n' bs
      → Yields label (at normal k) rest r
      → Yields label (at line_comment k) (bs ++ (b'\n' ∷ rest)) (prepend (bs ++ (b'\n' ∷ [])) r)
  unfolding turn
  Yields-line_comment k [] rest r l h = Yields-step label _ b'\n' rest _ (b'\n' ∷ []) rest r refl h
  Yields-line_comment k (b ∷ bs) rest r l h = Yields-shift label _ _ (b ∷ []) _ r (
      Yields-step label _ b _ (at line_comment k) (b ∷ []) _ _ (rw (l.0))
        (Yields-line_comment k bs rest r l.1 h))

  pub Yields-line :
      (k : Clause) (bs rest : List ℕ) (r : Result)
      → Lacks b'\n' bs
      → Yields label (at normal k) rest r
      → Yields label
          (at normal k)
          (b'/' ∷ b'/' ∷ (bs ++ (b'\n' ∷ rest)))
          (prepend (b'/' ∷ b'/' ∷ (bs ++ (b'\n' ∷ []))) r)
  unfolding turn
  Yields-line k bs rest r l h = Yields-shift label _ _ (b'/' ∷ b'/' ∷ []) _ r (
      Yields-step label _ b'/' _ (at line_comment k) (b'/' ∷ b'/' ∷ []) _ _ refl
        (Yields-line_comment k bs rest r l h))

  body_turn :
      (k : Clause) (b : ℕ) (bs rest : List ℕ)
      → (b ≡ b'*' → NotNext b'/' bs)
      → turn label (at block_comment k) b (bs ++ (b'*' ∷ b'/' ∷ rest))
        ≡ goes_on (at block_comment k) (b ∷ []) (bs ++ (b'*' ∷ b'/' ∷ rest))
  unfolding turn
  body_turn k b [] rest l = ground arith
  body_turn k b (d ∷ bs) rest l = ground arith

  Yields-block_comment :
      (k : Clause) (bs rest : List ℕ) (r : Result)
      → LacksEnd bs
      → Yields label (at normal k) rest r
      → Yields label
          (at block_comment k)
          (bs ++ (b'*' ∷ b'/' ∷ rest))
          (prepend (bs ++ (b'*' ∷ b'/' ∷ [])) r)
  unfolding turn
  Yields-block_comment k [] rest r l h =
      Yields-step label _ b'*' (b'/' ∷ rest) _ (b'*' ∷ b'/' ∷ []) rest r refl h
  Yields-block_comment k (b ∷ bs) rest r l h = Yields-shift label _ _ (b ∷ []) _ r (
      Yields-step label _ b _ (at block_comment k) (b ∷ []) _ _ (body_turn k b bs rest l.0)
        (Yields-block_comment k bs rest r l.1 h))

  pub Yields-block :
      (k : Clause) (bs rest : List ℕ) (r : Result)
      → LacksEnd bs
      → Yields label (at normal k) rest r
      → Yields label
          (at normal k)
          (b'/' ∷ b'*' ∷ (bs ++ (b'*' ∷ b'/' ∷ rest)))
          (prepend (b'/' ∷ b'*' ∷ (bs ++ (b'*' ∷ b'/' ∷ []))) r)
  unfolding turn
  Yields-block k bs rest r l h = Yields-shift label _ _ (b'/' ∷ b'*' ∷ []) _ r (
      Yields-step label _ b'/' _ (at block_comment k) (b'/' ∷ b'*' ∷ []) _ _ refl
        (Yields-block_comment k bs rest r l h))
