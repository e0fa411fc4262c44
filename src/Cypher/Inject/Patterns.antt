-- ===== src/Cypher/Inject/Patterns.antt =====
-- crates/rb-storage-neo4j/src/injector.rs: how the loop passes over words, patterns and other bytes.
use mathlib.Core.List.{append_assoc}
use rustacean.Common.{
  ℕ, zero, suc, ◌≡◌, refl, ap, ◌∙◌, true, false, List, [], ◌∷◌, ◌++◌, arith, ◌==◌,
}
use rustacean.Cypher.WriteCheck.Grammar.{Quote, single, double, mark, Lacks}
use rustacean.Cypher.Inject.Node.{
  Bracket, Bracketed, scan_bracket, closes_bracket, next_bracket, push_content,
}
use rustacean.Cypher.Inject.Grammar.{
  EdgePart, open_square, close_square, render_edge, EdgePartsAreValid,
}

abbrev edge_scan : ℕ → Bracket
edge_scan d = record { depth = suc d; in_single = false; in_double = false }

abbrev edge_text : Quote → ℕ → Bracket
edge_text single d = record { depth = suc d; in_single = true; in_double = false }
edge_text double d = record { depth = suc d; in_single = false; in_double = true }

abbrev found : List ℕ → List ℕ → Bracketed
found content rest = record { content = content; rest = rest }

-- One byte of the content, by the test and the next state that decide it.
scan_bracket-push :
    (s : Bracket) (b : ℕ) (bytes : List ℕ) {s' : Bracket} {content rest : List ℕ}
    → (closes_bracket s b ≡ false) × (next_bracket s b ≡ s')
    → scan_bracket s' bytes ≡ found content rest
    → scan_bracket s (b ∷ bytes) ≡ found (b ∷ content) rest
unfolding scan_bracket
scan_bracket-push s b bytes {s'} (e, n) h =
    rw (e, scan_bracket) (ap (push_content b) (ap (λ t. scan_bracket t bytes) n ∙ h))

edge_text-byte :
    (q : Quote) (d b : ℕ)
    → (b == mark q) ≡ false
    → (closes_bracket (edge_text q d) b ≡ false) × (next_bracket (edge_text q d) b ≡ edge_text q d)
edge_text-byte single d b h = (refl, rw h)
edge_text-byte double d b h = (refl, rw h)

edge_text-close :
    (q : Quote) (d : ℕ)
    → (closes_bracket (edge_text q d) (mark q) ≡ false)
      × (next_bracket (edge_text q d) (mark q) ≡ edge_scan d)
edge_text-close single d = (refl, refl)
edge_text-close double d = (refl, refl)

scan_bracket-text :
    (q : Quote) (d : ℕ) (cs bytes content rest : List ℕ)
    → Lacks (mark q) cs
    → scan_bracket (edge_scan d) bytes ≡ found content rest
    → scan_bracket (edge_text q d) (cs ++ (mark q ∷ bytes)) ≡ found (cs ++ (mark q ∷ content)) rest
scan_bracket-text q d [] bytes content rest l h =
    scan_bracket-push _ (mark q) _ (edge_text-close q d) h
scan_bracket-text q d (b ∷ cs) bytes content rest l h =
    scan_bracket-push _ b _ (edge_text-byte q d b l.0)
      (scan_bracket-text q d cs bytes content rest l.1 h)

edge_quote :
    (q : Quote) (d : ℕ)
    → (closes_bracket (edge_scan d) (mark q) ≡ false)
      × (next_bracket (edge_scan d) (mark q) ≡ edge_text q d)
edge_quote single d = (refl, refl)
edge_quote double d = (refl, refl)

edge_byte :
    (d b : ℕ)
    → Lacks b (b'\'' ∷ b'"' ∷ b'[' ∷ b']' ∷ [])
    → (closes_bracket (edge_scan d) b ≡ false) × (next_bracket (edge_scan d) b ≡ edge_scan d)
edge_byte d b v = (ground arith, ground arith)

edge_open :
    (d : ℕ)
    → (closes_bracket (edge_scan d) b'[' ≡ false)
      × (next_bracket (edge_scan d) b'[' ≡ edge_scan (suc d))
edge_open d = (refl, ground arith)

edge_close :
    (d : ℕ)
    → (closes_bracket (edge_scan (suc d)) b']' ≡ false)
      × (next_bracket (edge_scan (suc d)) b']' ≡ edge_scan d)
edge_close d = (ground arith, ground arith)

scan_bracket-close : (rest : List ℕ) → scan_bracket (edge_scan 0) (b']' ∷ rest) ≡ found [] rest
unfolding scan_bracket
scan_bracket-close rest = refl

pub scan_bracket-edge :
    (d : ℕ) (ps : List EdgePart) (rest : List ℕ)
    → EdgePartsAreValid d ps
    → scan_bracket (edge_scan d) (render_edge ps ++ (b']' ∷ rest)) ≡ found (render_edge ps) rest
scan_bracket-edge d [] rest v = rw v (scan_bracket-close rest)
scan_bracket-edge d (EdgePart.byte b ∷ ps) rest v =
    scan_bracket-push _ b _ (edge_byte d b v.0) (scan_bracket-edge d ps rest v.1)
scan_bracket-edge d (EdgePart.string q cs ∷ ps) rest v =
    scan_bracket-push _ (mark q) _ (edge_quote q d)
      (rw append_assoc (scan_bracket-text q d cs _ _ rest v.0 (scan_bracket-edge d ps rest v.1)))
scan_bracket-edge d (open_square ∷ ps) rest v =
    scan_bracket-push _ b'[' _ (edge_open d) (scan_bracket-edge (suc d) ps rest v)
scan_bracket-edge zero (close_square ∷ ps) rest v = absurd v
scan_bracket-edge (suc d) (close_square ∷ ps) rest v =
    scan_bracket-push _ b']' _ (edge_close d) (scan_bracket-edge d ps rest v)
