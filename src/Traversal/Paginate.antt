-- ===== src/Traversal/Paginate.antt =====
-- crates/rb-query/src/graph/traversal/pagination.rs: `paginate`. The cursor is the offset that
-- `encode_cursor` writes.
use rustacean.Common.{
  ℕ, ◌+◌, ◌-◌, min, String, Bool, not, ◌&&◌, Option, none, some, List, [], ◌∷◌, ◌++◌, map, length,
  take, drop, ltb, if◌then◌else◌,
}
use rustacean.Common.Names.{contains}
use rustacean.Traversal.Types.{
  TraversalNode, TraversalEdge, RawEdge, TraversalOptions, lookup, or_bare,
}
use text.Mathlib.Text.{◌==◌}

pub record TraversalResult : Type 0 where
  pub root : TraversalNode
  pub nodes : List TraversalNode
  pub edges : List TraversalEdge
  pub cycles_detected : Bool
  pub next_cursor : Option ℕ

abbrev pub strip : RawEdge → TraversalEdge
strip e = record {
  from_fqn = e.from_fqn;
  to_fqn = e.to_fqn;
  depth = e.depth;
  provenance = e.provenance;
}

-- `&all_edges[start..end]`
abbrev pub slice {ℓ} : {A : Type ℓ} → List A → ℕ → ℕ → List A
slice xs start end = take (end - start) (drop start xs)

pub record Seen : Type 0 where
  pub seen_fqns : List String
  pub nodes : List TraversalNode

-- One end of an edge.
unfoldable pub see : String → List (String × TraversalNode) → String → Seen → Seen
see root node_map fqn s =
    if not (fqn == root) && not (contains s.seen_fqns fqn)
    then record {
      seen_fqns = fqn ∷ s.seen_fqns;
      nodes = s.nodes ++ (or_bare fqn (lookup node_map fqn) ∷ []);
    }
    else s

unfoldable pub see_edges : String → List (String × TraversalNode) → List TraversalEdge → Seen → Seen
see_edges root node_map [] s = s
see_edges root node_map (e ∷ es) s =
    see_edges root node_map es (see root node_map e.to_fqn (see root node_map e.from_fqn s))

unfoldable pub paginate :
    TraversalNode
    → List RawEdge
    → List (String × TraversalNode)
    → TraversalOptions
    → Bool
    → TraversalResult
paginate root all_edges node_map opts cycles_detected =
    let total = length all_edges in
    let start = min opts.offset total in
    let end = min (start + opts.limit) total in
    let page_edges = map strip (slice all_edges start end) in
    record {
      root = root;
      nodes =
          (see_edges root.fqn node_map page_edges (record { seen_fqns = []; nodes = [] })).nodes;
      edges = page_edges;
      cycles_detected = cycles_detected;
      next_cursor = if ltb end total then some end else none;
    }
