-- ===== src/Cypher/Inject/Copies.antt =====
-- crates/rb-storage-neo4j/src/injector.rs: bytes with copies of the label put between them.
use mathlib.Core.List.{append_assoc}
use rustacean.Common.{
  ℕ, ◌≡◌, refl, ap, subst, ◌⊎◌, inl, inr, Bool, List, [], ◌∷◌, ◌++◌, arith, Bool-cases, if_cases,
}
use rustacean.Cypher.Inject.Node.{
  Bracket, scan_bracket, NodeScan, Collected, closed, unclosed, push_inner, collect_node_pattern,
  closes_bracket, next_bracket, closes_node, next_node, escapes, take_while, drop_while,
  splice_label, is_whitespace, is_var_char, trim_start, var_name, after_var,
}

-- `out` is `bytes` with copies of `ins` put between its bytes.
pub data Inserts (ins : List ℕ) : List ℕ → List ℕ → Type 0 where
  done : Inserts ins [] []
  keep : {bytes out : List ℕ} (b : ℕ) → Inserts ins bytes out → Inserts ins (b ∷ bytes) (b ∷ out)
  insert : {bytes out : List ℕ} → Inserts ins bytes out → Inserts ins bytes (ins ++ out)

module _ {ins : List ℕ} where
  pub Inserts-same : (bytes : List ℕ) → Inserts ins bytes bytes
  Inserts-same [] = done
  Inserts-same (b ∷ bytes) = keep b (Inserts-same bytes)

  pub Inserts-append :
      {front out bs out' : List ℕ}
      → Inserts ins front out
      → Inserts ins bs out'
      → Inserts ins (front ++ bs) (out ++ out')
  Inserts-append done j = j
  Inserts-append (keep b i) j = keep b (Inserts-append i j)
  Inserts-append (insert i) j = rw append_assoc (insert (Inserts-append i j))

pub take_while-append-drop_while :
    (p : ℕ → Bool) (cs : List ℕ) → take_while p cs ++ drop_while p cs ≡ cs
unfolding take_while drop_while
take_while-append-drop_while p [] = refl
take_while-append-drop_while p (c ∷ cs) = ground (arith, take_while-append-drop_while p cs)

-- The label goes in once, behind the leading blanks and the variable.
pub splice_label-Inserts :
    (inner label : List ℕ) → Inserts (b':' ∷ label) inner (splice_label inner label)
unfolding splice_label
splice_label-Inserts inner label =
    subst (λ bytes. Inserts (b':' ∷ label) bytes (splice_label inner label)) whole
      (Inserts-append (Inserts-same (take_while is_whitespace inner))
        (Inserts-append (Inserts-same (var_name inner)) (insert (Inserts-same (after_var inner)))))
  where
    whole : take_while is_whitespace inner ++ (var_name inner ++ after_var inner) ≡ inner
    whole =
        rw (take_while-append-drop_while is_var_char (trim_start inner))
          (take_while-append-drop_while is_whitespace inner)

-- A closed bracket's content stands before its `]`; the content of an unclosed one is all there is.
pub scan_bracket-split :
    (s : Bracket) (bytes : List ℕ)
    → (bytes ≡ (scan_bracket s bytes).content ++ (b']' ∷ (scan_bracket s bytes).rest))
      ⊎ ((bytes ≡ (scan_bracket s bytes).content) × ((scan_bracket s bytes).rest ≡ []))
unfolding scan_bracket
scan_bracket-split s [] = inr (refl, refl)
scan_bracket-split s (b ∷ bytes) = elim (Bool-cases (closes_bracket s b)) [
  | inl e ↦ inl (rw (e, scan_bracket) (ap (λ c. c ∷ bytes) (ground arith)))
  | inr e ↦
      rw (e, scan_bracket)
        (elim (scan_bracket-split (next_bracket s b) bytes) [
          | inl h ↦ inl (ap (λ bs. b ∷ bs) h)
          | inr h ↦ inr (ap (λ bs. b ∷ bs) h.0, h.1)
        ])
]

abbrev pub Split : List ℕ → Collected → Type 0
Split bytes unclosed = Unit {0}
Split bytes (closed inner rest) = bytes ≡ inner ++ (b')' ∷ rest)

Split-push_inner :
    (bs bytes : List ℕ) (r : Collected) → Split bytes r → Split (bs ++ bytes) (push_inner bs r)
Split-push_inner bs bytes unclosed h = tt
Split-push_inner bs bytes (closed inner rest) h = rw (h, append_assoc)

pub collect-Split : (s : NodeScan) (bytes : List ℕ) → Split bytes (collect_node_pattern s bytes)
unfolding collect_node_pattern
collect-Split s [] = tt
collect-Split s (b ∷ []) =
    if_cases (Split (b ∷ [])) (closes_node s b) _ _ (λ e. ap (λ c. c ∷ []) (ground arith)) (λ e. tt)
collect-Split s (b ∷ c ∷ bytes) = elim (Bool-cases (escapes s b)) [
  | inl e ↦
      rw (e, collect_node_pattern) (Split-push_inner (b ∷ c ∷ []) bytes _ (collect-Split s bytes))
  | inr e ↦ elim (Bool-cases (closes_node s b)) [
    | inl k ↦ rw (e, collect_node_pattern, k) (ap (λ d. d ∷ c ∷ bytes) (ground arith))
    | inr k ↦
        rw (e, collect_node_pattern, k)
          (Split-push_inner (b ∷ []) (c ∷ bytes) _ (collect-Split (next_node s b) (c ∷ bytes)))
  ]
]

-- What a turn pushes is what it took, with labels put in; an unclosed bracket takes all that is left
-- and gets the `]` that it lacks.
