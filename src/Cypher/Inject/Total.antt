-- ===== src/Cypher/Inject/Total.antt =====
-- crates/rb-storage-neo4j/src/injector.rs: the loop ends.
use rustacean.Common.{
  ℕ, zero, suc, ◌≤◌, ◌<◌, ◌≡◌, refl, ap, ◌⊎◌, inl, inr, true, some, List, [], ◌∷◌, ◌++◌, length,
  arith, Bool-cases,
}
use rustacean.Cypher.Scan.{
  ScanState, normal, single_quote, double_quote, backtick, line_comment, block_comment,
  is_ident_char, drop_word-shrinks,
}
use rustacean.Cypher.Inject.Node.{
  Bracket, scan_bracket, open_bracket, NodeScan, Collected, closed, unclosed, push_inner,
  collect_node_pattern, open_node, closes_bracket, next_bracket, closes_node, next_node, escapes,
}
use rustacean.Cypher.Inject.{
  Context, CypherError, Turn, fails, goes_on, Result, ok, err, start, skip, word_turn, node_turn,
  normal_turn, state_turn, turn, loop, inject_tenant_label,
}

length-scan_bracket-le :
    (s : Bracket) (bytes : List ℕ) → length (scan_bracket s bytes).rest ≤ length bytes
unfolding scan_bracket
length-scan_bracket-le s [] = omega arith
length-scan_bracket-le s (b ∷ bytes) = elim (Bool-cases (closes_bracket s b)) [
  | inl e ↦ rw (e, scan_bracket) (omega arith)
  | inr e ↦ rw (e, scan_bracket) (omega (arith, length-scan_bracket-le (next_bracket s b) bytes))
]

abbrev rest_of : Collected → List ℕ
rest_of unclosed = []
rest_of (closed inner rest) = rest

rest_of-push_inner : (bs : List ℕ) (r : Collected) → rest_of (push_inner bs r) ≡ rest_of r
rest_of-push_inner bs unclosed = refl
rest_of-push_inner bs (closed inner rest) = refl

length-collect-le :
    (s : NodeScan) (bytes : List ℕ) → length (rest_of (collect_node_pattern s bytes)) ≤ length bytes
unfolding collect_node_pattern
length-collect-le s [] = omega arith
length-collect-le s (b ∷ []) = ground arith
length-collect-le s (b ∷ c ∷ bytes) = elim (Bool-cases (escapes s b)) [
  | inl e ↦
      rw (e, collect_node_pattern, rest_of-push_inner (b ∷ c ∷ []) (collect_node_pattern s bytes))
        (omega (arith, length-collect-le s bytes))
  | inr e ↦ elim (Bool-cases (closes_node s b)) [
    | inl k ↦ rw (e, collect_node_pattern, k) (omega arith)
    | inr k ↦
        rw
          (
            e,
            collect_node_pattern,
            k,
            rest_of-push_inner (b ∷ []) (collect_node_pattern (next_node s b) (c ∷ bytes)),
          )
          (omega (arith, length-collect-le (next_node s b) (c ∷ bytes)))
  ]
]

abbrev left : Turn → List ℕ
left (fails e) = []
left (goes_on c pushed rest) = rest

pub Turn-cases :
    (t : Turn)
    → ((e : CypherError) × (t ≡ fails e))
      ⊎ ((c : Context) × (pushed rest : List ℕ) × (t ≡ goes_on c pushed rest))
Turn-cases (fails e) = inl (e, refl)
Turn-cases (goes_on c pushed rest) = inr (c, pushed, rest, refl)

left-node_turn :
    (label : List ℕ) (c : Context) (r : Collected) → left (node_turn label c r) ≡ rest_of r
unfolding node_turn
left-node_turn label c unclosed = refl
left-node_turn label c (closed inner rest) = ground arith

pub length-skip-le : (bs : List ℕ) → length (skip bs) ≤ length bs
length-skip-le [] = omega arith
length-skip-le (b ∷ bs) = omega arith

left-word_turn :
    (c : Context) (b : ℕ) (rest : List ℕ)
    → is_ident_char b ≡ true
    → length (left (word_turn c b rest)) ≤ length rest
unfolding word_turn
left-word_turn c b rest h = drop_word-shrinks b rest h

length-left-normal :
    (label : List ℕ) (c : Context) (b : ℕ) (rest : List ℕ)
    → length (left (normal_turn label c b rest)) ≤ length rest
unfolding normal_turn
length-left-normal label c b rest = ground (
  arith,
  left-word_turn c b rest,
  left-node_turn label c (collect_node_pattern open_node rest),
  length-collect-le open_node rest,
  length-scan_bracket-le open_bracket rest,
  length-skip-le rest,
)

length-left :
    (state : ScanState) (label : List ℕ) (c : Context) (b : ℕ) (rest : List ℕ)
    → length (left (state_turn state label c b rest)) ≤ length rest
unfolding state_turn
length-left normal label c b rest = length-left-normal label c b rest
length-left single_quote label c b [] = omega arith
length-left single_quote label c b (d ∷ rest) = ground arith
length-left double_quote label c b [] = omega arith
length-left double_quote label c b (d ∷ rest) = ground arith
length-left backtick label c b rest = omega arith
length-left line_comment label c b rest = omega arith
length-left block_comment label c b rest = ground (arith, length-skip-le rest)

-- A turn that goes on leaves no more than the bytes behind the one that it reads.
pub length-turn-le :
    (label : List ℕ) (c : Context) (b : ℕ) (rest : List ℕ) {c' : Context} {pushed rest' : List ℕ}
    → turn label c b rest ≡ goes_on c' pushed rest'
    → length rest' ≤ length rest
unfolding turn
length-turn-le label c b rest e = rw (ap left e) at (length-left c.state label c b rest)

loop_ends :
    (n : ℕ) (label : List ℕ) (c : Context) (out bytes : List ℕ)
    → length bytes < n
    → (r : Result) × (loop n label c out bytes ≡ some r)
unfolding loop
loop_ends zero label c out bytes h = absurd (omega arith)
loop_ends (suc n) label c out [] h = (ok out, refl)
loop_ends (suc n) label c out (b ∷ rest) h = elim (Turn-cases (turn label c b rest)) [
  | inl (e, q) ↦ (err e, rw (q, loop))
  | inr (c', pushed, rest', q) ↦
      let fits : length rest' ≤ length rest = length-turn-le label c b rest q in
      let (r, p) = loop_ends n label c' (out ++ pushed) rest' (omega arith) in (r, rw (q, loop) p)
]

-- The rewriting returns a query or an error for every query and label.
pub inject_tenant_label-returns :
    (cypher label : List ℕ) → (r : Result) × (inject_tenant_label cypher label ≡ some r)
unfolding inject_tenant_label
inject_tenant_label-returns cypher label =
    loop_ends (suc (length cypher)) label start [] cypher (omega arith)
