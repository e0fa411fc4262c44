-- ===== src/Cypher/Inject/Edits.antt =====
-- crates/rb-storage-neo4j/src/injector.rs: what one turn of the loop may change.
use mathlib.Core.List.{append_assoc}
use rustacean.Common.{
  ℕ, ◌≡◌, refl, sym, ap, ◌∙◌, subst, ◌⊎◌, inl, inr, true, not, ◌&&◌, List, [], ◌∷◌, ◌++◌, arith,
  ◌==◌, ==_iff, Bool-cases, if_cases, &&-true,
}
use rustacean.Cypher.Scan.{
  ScanState, normal, single_quote, double_quote, backtick, line_comment, block_comment,
  is_ident_char, take_word, take_word-append-drop_word,
}
use rustacean.Cypher.Inject.Node.{
  scan_bracket, open_bracket, Collected, closed, unclosed, collect_node_pattern, open_node,
}
use rustacean.Cypher.Inject.{
  Context, Turn, fails, goes_on, skip, next_is, word_turn, node_turn, normal_turn, quoted_turn,
  state_turn, turn, parens, is_bound_ref,
}
use rustacean.Cypher.Inject.Copies.{
  Inserts, keep, Inserts-same, Inserts-append, splice_label-Inserts, scan_bracket-split, Split,
  collect-Split,
}

abbrev pub Edited : List ℕ → List ℕ → List ℕ → List ℕ → Type 0
Edited ins bytes pushed rest =
    ((took : List ℕ) × (bytes ≡ took ++ rest) × Inserts ins took pushed)
    ⊎ ((rest ≡ []) × Inserts ins (bytes ++ (b']' ∷ [])) pushed)

abbrev pub TurnEdits : List ℕ → List ℕ → Turn → Type 0
TurnEdits ins bytes (fails e) = Unit {0}
TurnEdits ins bytes (goes_on c pushed rest) = Edited ins bytes pushed rest

module _ (label : List ℕ) where
  pub one : (b : ℕ) (rest : List ℕ) → Edited (b':' ∷ label) (b ∷ rest) (b ∷ []) rest
  one b rest = inl (b ∷ [], refl, Inserts-same (b ∷ []))

  two : (b d : ℕ) (rest : List ℕ) → Edited (b':' ∷ label) (b ∷ d ∷ rest) (b ∷ d ∷ []) rest
  two b d rest = inl (b ∷ d ∷ [], refl, Inserts-same (b ∷ d ∷ []))

  -- Two bytes that were tested.
  pair :
      (x y b : ℕ) (rest : List ℕ)
      → (b == x && next_is y rest) ≡ true
      → Edited (b':' ∷ label) (b ∷ rest) (x ∷ y ∷ []) (skip rest)
  pair x y b [] h = absurd (ground arith)
  pair x y b (d ∷ rest) h = inl (x ∷ y ∷ [], ground arith, Inserts-same (x ∷ y ∷ []))

  bracket-TurnEdits :
      (c : Context) (rest : List ℕ)
      → Edited
          (b':' ∷ label)
          (b'[' ∷ rest)
          (b'[' ∷ ((scan_bracket open_bracket rest).content ++ (b']' ∷ [])))
          (scan_bracket open_bracket rest).rest
  bracket-TurnEdits c rest = elim (scan_bracket-split open_bracket rest) [
    | inl h ↦ inl (
      _,
      ap (λ bs. b'[' ∷ bs)
          (h
            ∙ sym (
                append_assoc (scan_bracket open_bracket rest).content (b']' ∷ [])
                  (scan_bracket open_bracket rest).rest)),
      Inserts-same _,
    )
    | inr h ↦ inr (
      h.1,
      keep b'[' (
          subst
            (λ bs.
              Inserts (b':' ∷ label) (bs ++ (b']' ∷ []))
                ((scan_bracket open_bracket rest).content ++ (b']' ∷ [])))
            (sym h.0) (Inserts-same _)),
    )
  ]

  node-TurnEdits :
      (c : Context) (bytes : List ℕ) (r : Collected)
      → Split bytes r
      → TurnEdits (b':' ∷ label) (b'(' ∷ bytes) (node_turn label c r)
  unfolding node_turn
  node-TurnEdits c bytes unclosed h = tt
  node-TurnEdits c bytes (closed inner rest) h =
      if_cases (TurnEdits (b':' ∷ label) (b'(' ∷ bytes)) (is_bound_ref c inner) _ _
        (λ e. inl (parens inner, whole, Inserts-same (parens inner)))
        (λ e. inl (
          parens inner,
          whole,
          keep b'(' (Inserts-append (splice_label-Inserts inner label) (Inserts-same _)),
        ))
    where
      whole : (b'(' ∷ bytes) ≡ parens inner ++ rest
      whole = rw (h, append_assoc)

  word-TurnEdits :
      (c : Context) (b : ℕ) (rest : List ℕ)
      → TurnEdits (b':' ∷ label) (b ∷ rest) (word_turn c b rest)
  unfolding word_turn
  word-TurnEdits c b rest =
      inl (take_word (b ∷ rest), sym (take_word-append-drop_word (b ∷ rest)), Inserts-same _)

  -- A byte that was tested stands for the byte that is pushed.
  opens : (P : ℕ → Type 0) (b x : ℕ) → (b == x) ≡ true → P x → P b
  opens P b x h p = subst P (sym ((==_iff b x).0 h)) p

  normal-TurnEdits :
      (c : Context) (b : ℕ) (rest : List ℕ)
      → TurnEdits (b':' ∷ label) (b ∷ rest) (normal_turn label c b rest)
  unfolding normal_turn
  normal-TurnEdits c b rest = elim (Bool-cases (b == b'\'')) [
    | inl e ↦ rw e (one b rest)
    | inr e ↦ rw e (elim (Bool-cases (b == b'"')) [
      | inl e ↦ rw e (one b rest)
      | inr e ↦ rw e (elim (Bool-cases (b == b'`')) [
        | inl e ↦ rw e (one b rest)
        | inr e ↦ rw e (elim (Bool-cases (b == b'/' && next_is b'/' rest)) [
          | inl e ↦ rw e (pair b'/' b'/' b rest e)
          | inr e ↦ rw e (elim (Bool-cases (b == b'/' && next_is b'*' rest)) [
            | inl e ↦ rw e (pair b'/' b'*' b rest e)
            | inr e ↦ rw e (elim (Bool-cases (b == b';')) [
              | inl e ↦ rw e (tt)
              | inr e ↦ rw e (elim (Bool-cases (b == b'[')) [
                | inl e ↦ rw e (
                    opens
                      (λ d.
                        Edited (b':' ∷ label) (d ∷ rest)
                          (b'[' ∷ ((scan_bracket open_bracket rest).content ++ (b']' ∷ [])))
                          (scan_bracket open_bracket rest).rest)
                      b b'[' e (bracket-TurnEdits c rest))
                | inr e ↦ rw e (elim (Bool-cases (is_ident_char b)) [
                  | inl e ↦ rw e (word-TurnEdits c b rest)
                  | inr e ↦
                      rw e
                        (elim (Bool-cases
                          (b == b'(' && (c.in_path_clause && not c.last_was_ident))) [
                            | inl e ↦ rw e (
                                opens
                                  (λ d.
                                    TurnEdits (b':' ∷ label) (d ∷ rest)
                                      (node_turn label c (collect_node_pattern open_node rest)))
                                  b b'(' (&&-true _ _ e).0
                                  (node-TurnEdits c rest _ (collect-Split open_node rest)))
                            | inr e ↦ rw e (one b rest)
                          ])
                ])
              ])
            ])
          ])
        ])
      ])
    ])
  ]

  quoted-TurnEdits :
      (quote : ℕ) (c : Context) (b : ℕ) (rest : List ℕ)
      → TurnEdits (b':' ∷ label) (b ∷ rest) (quoted_turn quote c b rest)
  quoted-TurnEdits quote c b [] = one b []
  quoted-TurnEdits quote c b (d ∷ rest) =
      if_cases (TurnEdits (b':' ∷ label) (b ∷ d ∷ rest)) (b == b'\\') _ _ (λ e. two b d rest)
        (λ e. one b (d ∷ rest))

  block-TurnEdits :
      (c : Context) (b : ℕ) (rest : List ℕ)
      → TurnEdits (b':' ∷ label) (b ∷ rest) (state_turn block_comment label c b rest)
  unfolding state_turn
  block-TurnEdits c b rest =
      if_cases (TurnEdits (b':' ∷ label) (b ∷ rest)) (b == b'*' && next_is b'/' rest) _ _
        (λ e.
          opens (λ d. Edited (b':' ∷ label) (b ∷ rest) (d ∷ b'/' ∷ []) (skip rest)) b b'*'
            (ground arith) (pair b'*' b'/' b rest e))
        (λ e. one b rest)

  state-TurnEdits :
      (state : ScanState) (c : Context) (b : ℕ) (rest : List ℕ)
      → TurnEdits (b':' ∷ label) (b ∷ rest) (state_turn state label c b rest)
  unfolding state_turn
  state-TurnEdits normal c b rest = normal-TurnEdits c b rest
  state-TurnEdits single_quote c b rest = quoted-TurnEdits b'\'' c b rest
  state-TurnEdits double_quote c b rest = quoted-TurnEdits b'"' c b rest
  state-TurnEdits backtick c b rest = one b rest
  state-TurnEdits line_comment c b rest = one b rest
  state-TurnEdits block_comment c b rest = block-TurnEdits c b rest

  pub turn-TurnEdits :
      (c : Context) (b : ℕ) (rest : List ℕ)
      → TurnEdits (b':' ∷ label) (b ∷ rest) (turn label c b rest)
  unfolding turn
  turn-TurnEdits c b rest = state-TurnEdits c.state c b rest

-- The query, or the query with the `]` that it lacks.
