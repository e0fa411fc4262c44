-- ===== src/Cypher/Inject/Words.antt =====
-- crates/rb-storage-neo4j/src/injector.rs: how the loop passes over words, patterns and other bytes.
use rustacean.Common.{
  ℕ, ◌≡◌, refl, ap, ◌∙◌, inl, inr, Bool, true, false, ◌&&◌, List, [], ◌∷◌, ◌++◌, map, arith, ◌==◌,
  if◌then◌else◌, Bool-cases, &&-true,
}
use rustacean.Common.Bytes.{to_upper}
use rustacean.Cypher.Scan.{normal, is_ident_char, Stops, take_word-append, drop_word-append}
use rustacean.Cypher.WriteCheck.Grammar.{NotNext}
use rustacean.Cypher.Inject.Node.{
  scan_bracket, open_bracket, closed, collect_node_pattern, open_node, splice_label,
}
use rustacean.Cypher.Inject.{
  multi_statement, goes_on, Result, err, word_turn, word_context, node_turn, normal_turn, turn,
  parens, is_bound_ref, bind_var, is_ascii_whitespace, bracket_turn, next_is,
}
use rustacean.Cypher.Inject.Grammar.{
  NodePart, EdgePart, render_node, render_edge, Clause, at, word_clause, refers, node_clause,
  expects_node, NodePartsAreValid, EdgePartsAreValid, OtherIsValid, IsWord,
}
use rustacean.Cypher.Inject.Tokens.{prepend, Yields, Yields-step, Yields-fails}
use rustacean.Cypher.Inject.Patterns.{scan_bracket-edge}
use rustacean.Cypher.Inject.NodePatterns.{collect-node}

word_context-at :
    (k : Clause) (upper : List ℕ)
    → word_context (at normal k) upper ≡ at normal (word_clause k upper)
unfolding word_context
word_context-at k upper = ground arith

normal_turn-word :
    (label : List ℕ) (k : Clause) (b : ℕ) (rest : List ℕ)
    → is_ident_char b ≡ true
    → normal_turn label (at normal k) b rest ≡ word_turn (at normal k) b rest
unfolding normal_turn
normal_turn-word label k b rest h = ground arith

==_ne : (b x : ℕ) → (x == b) ≡ false → (b == x) ≡ false
==_ne b x h = ground arith

no_slash :
    (b x : ℕ) (rest : List ℕ) → (b ≡ b'/' → NotNext x rest) → (b == b'/' && next_is x rest) ≡ false
no_slash b x [] h = ground arith
no_slash b x (c ∷ rest) h = ground arith

no_paren : (b : ℕ) (t : Bool) → (b ≡ b'(' → t ≡ false) → (b == b'(' && t) ≡ false
no_paren b t h = ground arith

module _ (label : List ℕ) (k : Clause) where
  pub Yields-word :
      (w rest : List ℕ) (r : Result)
      → IsWord w
      → Stops rest
      → Yields label (at normal (word_clause k (map to_upper w))) rest r
      → Yields label (at normal k) (w ++ rest) (prepend w r)
  unfolding turn word_turn
  Yields-word [] rest r v s h = absurd v
  Yields-word (b ∷ w) rest r v s h =
      Yields-step label _ b (w ++ rest) _ (b ∷ w) rest r
        (normal_turn-word label k b (w ++ rest) (&&-true _ _ v).0
          ∙ (rw (
            take_word-append (b ∷ w) rest v s,
            drop_word-append (b ∷ w) rest v s,
            word_context-at,
          )))
        h

  normal_turn-edge :
      (rest : List ℕ)
      → normal_turn label (at normal k) b'[' rest
        ≡ bracket_turn (at normal k) (scan_bracket open_bracket rest)
  unfolding normal_turn
  normal_turn-edge rest = refl

  pub Yields-edge :
      (ps : List EdgePart) (rest : List ℕ) (r : Result)
      → EdgePartsAreValid 0 ps
      → Yields label (at normal (record k { last_was_ident = false })) rest r
      → Yields label
          (at normal k)
          (b'[' ∷ (render_edge ps ++ (b']' ∷ rest)))
          (prepend (b'[' ∷ (render_edge ps ++ (b']' ∷ []))) r)
  unfolding turn
  Yields-edge ps rest r v h =
      Yields-step label _ b'[' _ _ _ rest r
        (normal_turn-edge _ ∙ ap (bracket_turn (at normal k)) (scan_bracket-edge 0 ps rest v)) h

  normal_turn-node :
      (rest : List ℕ)
      → expects_node k ≡ true
      → normal_turn label (at normal k) b'(' rest
        ≡ node_turn label (at normal k) (collect_node_pattern open_node rest)
  unfolding normal_turn
  normal_turn-node rest e = rw e

  -- The text that stands for a node pattern in the output.
  abbrev pub scoped_node : List ℕ → List ℕ
  scoped_node inner = if refers k inner then inner else splice_label inner label

  node_turn-at :
      (inner rest : List ℕ)
      → node_turn label (at normal k) (closed inner rest)
        ≡ goes_on (at normal (node_clause k inner)) (parens (scoped_node inner)) rest
  unfolding node_turn is_bound_ref bind_var
  node_turn-at inner rest = ground arith

  pub Yields-node :
      (ps : List NodePart) (rest : List ℕ) (r : Result)
      → expects_node k ≡ true
      → NodePartsAreValid 0 ps
      → Yields label (at normal (node_clause k (render_node ps))) rest r
      → Yields label
          (at normal k)
          (b'(' ∷ (render_node ps ++ (b')' ∷ rest)))
          (prepend (parens (scoped_node (render_node ps))) r)
  unfolding turn
  Yields-node ps rest r e v h =
      Yields-step label _ b'(' _ _ _ rest r
        (normal_turn-node _ e
          ∙ ap (node_turn label (at normal k)) (collect-node 0 ps rest v)
          ∙ node_turn-at (render_node ps) rest)
        h

  normal_turn-other :
      (b : ℕ) (rest : List ℕ)
      → OtherIsValid k b rest
      → normal_turn label (at normal k) b rest
        ≡ goes_on
            (at normal (if is_ascii_whitespace b then k else record k { last_was_ident = false }))
            (b ∷ [])
            rest
  unfolding normal_turn
  normal_turn-other b rest v =
      rw
        (
          ==_ne b b'\'' v.plain.0,
          ==_ne b b'"' v.plain.1.0,
          ==_ne b b'`' v.plain.1.1.0,
          no_slash b b'/' rest v.not_line,
          no_slash b b'*' rest v.not_block,
          ==_ne b b';' v.plain.1.1.1.0,
          ==_ne b b'[' v.plain.1.1.1.1.0,
          v.not_word,
          no_paren b (expects_node k) v.not_node,
        )
        (elim (Bool-cases (is_ascii_whitespace b)) [ inl e ↦ rw e | inr e ↦ rw e ])

  pub Yields-other :
      (b : ℕ) (rest : List ℕ) (r : Result)
      → OtherIsValid k b rest
      → Yields label
          (at normal (if is_ascii_whitespace b then k else record k { last_was_ident = false }))
          rest
          r
      → Yields label (at normal k) (b ∷ rest) (prepend (b ∷ []) r)
  unfolding turn
  Yields-other b rest r v h =
      Yields-step label _ b rest _ (b ∷ []) rest r (normal_turn-other b rest v) h

  pub Yields-semicolon :
      (rest : List ℕ) → Yields label (at normal k) (b';' ∷ rest) (err multi_statement)
  unfolding turn normal_turn
  Yields-semicolon rest = Yields-fails label _ b';' rest multi_statement refl
