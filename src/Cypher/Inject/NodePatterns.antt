-- ===== src/Cypher/Inject/NodePatterns.antt =====
-- crates/rb-storage-neo4j/src/injector.rs: `collect_node_pattern` on a closed node pattern.
use mathlib.Core.List.{append_assoc}
use rustacean.Common.{
  ℕ, zero, suc, ◌<◌, ◌≡◌, refl, ap, ◌∙◌, true, false, List, [], ◌∷◌, ◌++◌, arith,
}
use rustacean.Cypher.WriteCheck.Grammar.{
  Quote, single, double, mark, Piece, plain, escaped, render_pieces, PiecesAreValid, PieceIsValid,
  Lacks,
}
use rustacean.Cypher.Inject.Node.{
  NodeScan, closed, push_inner, collect_node_pattern, closes_node, next_node, escapes,
}
use rustacean.Cypher.Inject.Grammar.{
  NodePart, open_brace, close_brace, render_node, NodePartsAreValid,
}

abbrev node_scan : ℕ → NodeScan
node_scan d = record { brace_depth = d; in_single = false; in_double = false }

abbrev node_text : Quote → ℕ → NodeScan
node_text single d = record { brace_depth = d; in_single = true; in_double = false }
node_text double d = record { brace_depth = d; in_single = false; in_double = true }

-- What one byte that stays inside does.
abbrev Stays : NodeScan → ℕ → NodeScan → Type 0
Stays s b s' = (escapes s b ≡ false) × (closes_node s b ≡ false) × (next_node s b ≡ s')

collect-push :
    (s : NodeScan) (b : ℕ) (bytes : List ℕ) {s' : NodeScan} {inner rest : List ℕ}
    → Stays s b s'
    → collect_node_pattern s' bytes ≡ closed inner rest
    → collect_node_pattern s (b ∷ bytes) ≡ closed (b ∷ inner) rest
unfolding collect_node_pattern
collect-push s b [] v h = cc
collect-push s b (c ∷ bytes) {s'} (e, k, n) h =
    rw (e, collect_node_pattern, k)
      (ap (push_inner (b ∷ [])) (ap (λ t. collect_node_pattern t (c ∷ bytes)) n ∙ h))

collect-escape :
    (s : NodeScan) (b c : ℕ) (bytes : List ℕ) {inner rest : List ℕ}
    → escapes s b ≡ true
    → collect_node_pattern s bytes ≡ closed inner rest
    → collect_node_pattern s (b ∷ c ∷ bytes) ≡ closed (b ∷ c ∷ inner) rest
unfolding collect_node_pattern
collect-escape s b c bytes e h = rw (e, collect_node_pattern) (ap (push_inner (b ∷ c ∷ [])) h)

collect-close : (rest : List ℕ) → collect_node_pattern (node_scan 0) (b')' ∷ rest) ≡ closed [] rest
unfolding collect_node_pattern
collect-close [] = refl
collect-close (c ∷ rest) = refl

text-Stays :
    (q : Quote) (d b : ℕ) → PieceIsValid q (plain b) → Stays (node_text q d) b (node_text q d)
text-Stays single d b v = (ground arith, refl, rw (v.0))
text-Stays double d b v = (ground arith, refl, rw (v.0))

text_close-Stays : (q : Quote) (d : ℕ) → Stays (node_text q d) (mark q) (node_scan d)
text_close-Stays single d = (refl, refl, refl)
text_close-Stays double d = (refl, refl, refl)

text_open-Stays : (q : Quote) (d : ℕ) → Stays (node_scan d) (mark q) (node_text q d)
text_open-Stays single d = (refl, refl, refl)
text_open-Stays double d = (refl, refl, refl)

text-escapes : (q : Quote) (d : ℕ) → escapes (node_text q d) b'\\' ≡ true
text-escapes single d = refl
text-escapes double d = refl

byte-Stays :
    (d b : ℕ)
    → Lacks b (b'\'' ∷ b'"' ∷ b'{' ∷ b'}' ∷ [])
    → (b ≡ b')' → 0 < d)
    → Stays (node_scan d) b (node_scan d)
byte-Stays d b v p = (ground arith, ground arith, ground arith)

open-Stays : (d : ℕ) → Stays (node_scan d) b'{' (node_scan (suc d))
open-Stays d = (refl, refl, ground arith)

close-Stays : (d : ℕ) → Stays (node_scan (suc d)) b'}' (node_scan d)
close-Stays d = (refl, refl, ground arith)

collect-pieces :
    (q : Quote) (d : ℕ) (ps : List Piece) (bytes inner rest : List ℕ)
    → PiecesAreValid q ps
    → collect_node_pattern (node_scan d) bytes ≡ closed inner rest
    → collect_node_pattern (node_text q d) (render_pieces ps ++ (mark q ∷ bytes))
      ≡ closed (render_pieces ps ++ (mark q ∷ inner)) rest
collect-pieces q d [] bytes inner rest v h = collect-push _ (mark q) _ (text_close-Stays q d) h
collect-pieces q d (plain b ∷ ps) bytes inner rest v h =
    collect-push _ b _ (text-Stays q d b v.0) (collect-pieces q d ps bytes inner rest v.1 h)
collect-pieces q d (escaped b ∷ ps) bytes inner rest v h =
    collect-escape _ b'\\' b _ (text-escapes q d) (collect-pieces q d ps bytes inner rest v.1 h)

-- The pattern's text is collected up to the `)` that closes it.
pub collect-node :
    (d : ℕ) (ps : List NodePart) (rest : List ℕ)
    → NodePartsAreValid d ps
    → collect_node_pattern (node_scan d) (render_node ps ++ (b')' ∷ rest))
      ≡ closed (render_node ps) rest
collect-node d [] rest v = rw v (collect-close rest)
collect-node d (NodePart.byte b ∷ ps) rest v =
    collect-push _ b _ (byte-Stays d b v.0 v.1) (collect-node d ps rest v.2)
collect-node d (NodePart.string q cs ∷ ps) rest v =
    collect-push _ (mark q) _ (text_open-Stays q d)
      (rw append_assoc (collect-pieces q d cs _ _ rest v.0 (collect-node d ps rest v.1)))
collect-node d (open_brace ∷ ps) rest v =
    collect-push _ b'{' _ (open-Stays d) (collect-node (suc d) ps rest v)
collect-node zero (close_brace ∷ ps) rest v = absurd v
collect-node (suc d) (close_brace ∷ ps) rest v =
    collect-push _ b'}' _ (close-Stays d) (collect-node d ps rest v)
