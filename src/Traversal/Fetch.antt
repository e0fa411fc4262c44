-- ===== src/Traversal/Fetch.antt =====
-- crates/rb-query/src/graph/traversal/mod.rs: `fetch_callers` and `fetch_callees`.
use rustacean.Common.{
  ℕ, zero, suc, ◌+◌, String, Bool, false, Option, none, some, List, [], ◌∷◌, ◌++◌, if◌then◌else◌,
}
use rustacean.Common.Names.{contains}
use rustacean.Traversal.Types.{
  TraversalNode, RawEdge, TraversalOptions, Answer, ok, ◌>>=◌, lookup, or_insert, or_bare,
}
use rustacean.Traversal.Hop.{Database, one_hop_callers, one_hop_callees, fetch_root_node}
use rustacean.Traversal.Paginate.{TraversalResult, paginate}
use text.Mathlib.Text.{◌==◌}

-- The variables of the search.
pub record Search : Type 0 where
  pub all_edges : List RawEdge
  pub node_map : List (String × TraversalNode)
  pub visited : List String
  pub cycles_detected : Bool

-- An edge of a hop of callers: its caller is visited and joins the next frontier, unless it is known.
unfoldable pub take_caller : RawEdge → Search × List String → Search × List String
take_caller edge (s, next) =
    if contains s.visited edge.from_fqn
    then (record s { all_edges = s.all_edges ++ (edge ∷ []) }, next)
    else (
      record s {
        all_edges = s.all_edges ++ (edge ∷ []);
        node_map = or_insert s.node_map edge.from_fqn edge.from_node;
        visited = edge.from_fqn ∷ s.visited;
      },
      next ++ (edge.from_fqn ∷ []),
    )

unfoldable pub take_callers : List RawEdge → Search × List String → Search × List String
take_callers [] t = t
take_callers (edge ∷ edges) t = take_callers edges (take_caller edge t)

-- The loop over the depths, by the rounds that are left; an empty frontier ends it.
unfoldable pub callers_loop : Database → ℕ → ℕ → List String → Search → Answer Search
callers_loop db zero depth frontier s = ok s
callers_loop db (suc rounds) depth [] s = ok s
callers_loop db (suc rounds) depth (f ∷ frontier) s = do
  hop ←
      one_hop_callers db depth s.visited (f ∷ frontier)
        (record { edges = []; cycles_detected = s.cycles_detected })
  let t = take_callers hop.edges (record s { cycles_detected = hop.cycles_detected }, [])
  callers_loop db rounds (depth + 1) t.1 t.0

abbrev pub start : String → Search
start fqn = record { all_edges = []; node_map = []; visited = fqn ∷ []; cycles_detected = false }

unfoldable pub fetch_callers : Database → String → TraversalOptions → Answer TraversalResult
fetch_callers db fqn opts = do
  root ← fetch_root_node db fqn
  s ← callers_loop db opts.depth 1 (fqn ∷ []) (start fqn)
  ok (paginate (or_bare fqn root) s.all_edges s.node_map opts s.cycles_detected)

-- `if let Ok(Some(node)) = fetch_root_node(..)`: an error is passed over.
abbrev insert_found :
    List (String × TraversalNode)
    → String
    → Answer (Option TraversalNode)
    → List (String × TraversalNode)
insert_found m fqn (ok (some node)) = or_insert m fqn node
insert_found m fqn a = m

unfoldable pub visit_callee : Database → String → Search × List String → Search × List String
visit_callee db callee (s, next) = if contains s.visited callee then (s, next) else (
  record s {
    visited = callee ∷ s.visited;
    node_map = insert_found s.node_map callee (fetch_root_node db callee);
  },
  next ++ (callee ∷ []),
)

-- The source node of the edge, where it is known.
abbrev pub with_source : TraversalNode → String → Option TraversalNode → RawEdge → RawEdge
with_source root fqn (some n) edge = record edge { from_node = n }
with_source root fqn none edge =
    if edge.from_fqn == fqn then record edge { from_node = root } else edge

abbrev push_edge : RawEdge → Search × List String → Search × List String
push_edge edge (s, next) = (record s { all_edges = s.all_edges ++ (edge ∷ []) }, next)

unfoldable pub take_callee :
    Database → TraversalNode → String → RawEdge → Search × List String → Search × List String
unfolding visit_callee
take_callee db root fqn edge t =
    let t' = visit_callee db edge.to_fqn t in
    push_edge (with_source root fqn (lookup t'.0.node_map edge.from_fqn) edge) t'

unfoldable pub take_callees :
    Database → TraversalNode → String → List RawEdge → Search × List String → Search × List String
take_callees db root fqn [] t = t
take_callees db root fqn (edge ∷ edges) t =
    take_callees db root fqn edges (take_callee db root fqn edge t)

unfoldable pub callees_loop :
    Database → TraversalNode → String → ℕ → ℕ → List String → Search → Answer Search
callees_loop db root fqn zero depth frontier s = ok s
callees_loop db root fqn (suc rounds) depth [] s = ok s
callees_loop db root fqn (suc rounds) depth (f ∷ frontier) s = do
  hop ←
      one_hop_callees db depth s.visited (f ∷ frontier)
        (record { edges = []; cycles_detected = s.cycles_detected })
  let t =
      take_callees db root fqn hop.edges (record s { cycles_detected = hop.cycles_detected }, [])
  callees_loop db root fqn rounds (depth + 1) t.1 t.0

unfoldable pub fetch_callees : Database → String → TraversalOptions → Answer TraversalResult
fetch_callees db fqn opts = do
  found ← fetch_root_node db fqn
  let root = or_bare fqn found
  s ← callees_loop db root fqn opts.depth 1 (fqn ∷ []) (start fqn)
  ok (paginate root s.all_edges s.node_map opts s.cycles_detected)
