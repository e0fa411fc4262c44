-- ===== src/Traversal/Hop.antt =====
-- crates/rb-query/src/graph/traversal/bfs.rs: one hop of the search. The database is a parameter: the
-- rows that each of the Cypher queries returns for a name, or its error.
use rustacean.Common.{ℕ, String, Bool, true, Option, none, some, List, [], ◌∷◌, ◌++◌, if◌then◌else◌}
use rustacean.Common.Names.{contains}
use rustacean.Traversal.Types.{
  EdgeProvenance, direct, monomorph, dyn_candidate, TraversalNode, RawEdge, Row, Answer, ok, ◌>>=◌,
  bare,
}
use text.Mathlib.Text.{◌==◌}

-- The queries of `one_hop_callers`, `one_hop_callees` and `fetch_root_node`.
pub record Database : Type 0 where
  pub callers_by_calls : String → Answer (List Row)
  pub callers_by_instantiation : String → Answer (List Row)
  pub callees_by_calls : String → Answer (List Row)
  pub callees_by_instantiation : String → Answer (List Row)
  pub items : String → Answer (List Row)

abbrev pub calls_provenance : Option String → EdgeProvenance
calls_provenance none = direct
calls_provenance (some dispatch) = if dispatch == "dynamic" then dyn_candidate else direct

abbrev pub row_node : String → Row → TraversalNode
row_node fqn row = record {
  fqn = fqn;
  name = row.name;
  kind = row.kind;
  file_path = row.file_path;
  line = row.line;
}

-- What the loops over rows build up.
pub record Hop : Type 0 where
  pub edges : List RawEdge
  pub cycles_detected : Bool

-- One row: no name, a name that is visited already, or an edge.
abbrev pub take_row : List String → (String → Row → RawEdge) → Row → Option String → Hop → Hop
take_row visited edge row none hop = hop
take_row visited edge row (some fqn) hop =
    if contains visited fqn
    then record hop { cycles_detected = true }
    else record hop { edges = hop.edges ++ (edge fqn row ∷ []) }

unfoldable pub take_rows : List String → (String → Row → RawEdge) → List Row → Hop → Hop
take_rows visited edge [] hop = hop
take_rows visited edge (row ∷ rows) hop =
    take_rows visited edge rows (take_row visited edge row row.fqn hop)

abbrev pub caller_edge : ℕ → String → (Row → EdgeProvenance) → String → Row → RawEdge
caller_edge depth target provenance caller row = record {
  from_fqn = caller;
  to_fqn = target;
  depth = depth;
  provenance = provenance row;
  from_node = row_node caller row;
}

abbrev pub callee_edge : ℕ → String → (Row → EdgeProvenance) → String → Row → RawEdge
callee_edge depth source provenance callee row = record {
  from_fqn = source;
  to_fqn = callee;
  depth = depth;
  provenance = provenance row;
  from_node = bare source;
}

abbrev pub by_dispatch : Row → EdgeProvenance
by_dispatch row = calls_provenance row.dispatch

abbrev pub by_instantiation : Row → EdgeProvenance
by_instantiation row = monomorph

-- The loop over the frontier, which the two directions share: the rows of the `CALLS` query, then those
-- of the `CALL_INSTANTIATES` query, for each name.
unfoldable pub one_hop :
    (String → Answer (List Row))
    → (String → Answer (List Row))
    → (ℕ → String → (Row → EdgeProvenance) → String → Row → RawEdge)
    → ℕ
    → List String
    → List String
    → Hop
    → Answer Hop
one_hop by_calls by_inst edge depth visited [] hop = ok hop
one_hop by_calls by_inst edge depth visited (name ∷ frontier) hop = do
  rows ← by_calls name
  let hop' = take_rows visited (edge depth name by_dispatch) rows hop
  inst_rows ← by_inst name
  one_hop by_calls by_inst edge depth visited frontier
      (take_rows visited (edge depth name by_instantiation) inst_rows hop')

abbrev pub one_hop_callers : Database → ℕ → List String → List String → Hop → Answer Hop
one_hop_callers db = one_hop db.callers_by_calls db.callers_by_instantiation caller_edge

abbrev pub one_hop_callees : Database → ℕ → List String → List String → Hop → Answer Hop
one_hop_callees db = one_hop db.callees_by_calls db.callees_by_instantiation callee_edge

abbrev first_node : List Row → Option TraversalNode
first_node [] = none
first_node (row ∷ rows) = elim row.fqn [ none ↦ none | some fqn ↦ some (row_node fqn row) ]

unfoldable pub fetch_root_node : Database → String → Answer (Option TraversalNode)
fetch_root_node db fqn = do rows ← db.items fqn; ok (first_node rows)
