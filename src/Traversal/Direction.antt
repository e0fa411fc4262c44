-- ===== src/Traversal/Direction.antt =====
-- crates/rb-query/src/graph/traversal/bfs.rs: what one hop over a frontier finds, in either direction.
use rustacean.Common.{
  ℕ, String, ◌≡◌, refl, sym, ap, ◌∙◌, subst, ◌⊎◌, inl, inr, false, some, List, ◌∷◌,
}
use rustacean.Common.Every.{In}
use rustacean.Common.Names.{contains}
use rustacean.Traversal.Types.{EdgeProvenance, RawEdge, Row, Answer, ok, failed}
use rustacean.Traversal.Hop.{
  Database, Hop, take_rows, caller_edge, callee_edge, by_dispatch, by_instantiation, one_hop,
}
use rustacean.Traversal.Hops.{FromRow}

-- The queries and the edges of one direction: `found` is the end that the hop discovers, `base` the
-- name of the frontier that it comes from.
pub record Direction : Type 0 where
  pub by_calls : String → Answer (List Row)
  pub by_inst : String → Answer (List Row)
  pub edge : ℕ → String → (Row → EdgeProvenance) → String → Row → RawEdge
  pub found : RawEdge → String
  pub base : RawEdge → String
  pub found-edge :
      (d : ℕ) (b : String) (p : Row → EdgeProvenance) (a : String) (row : Row)
      → found (edge d b p a row) ≡ a
  pub base-edge :
      (d : ℕ) (b : String) (p : Row → EdgeProvenance) (a : String) (row : Row)
      → base (edge d b p a row) ≡ b
  pub depth-edge :
      (d : ℕ) (b : String) (p : Row → EdgeProvenance) (a : String) (row : Row)
      → (edge d b p a row).depth ≡ d

abbrev pub callers : Database → Direction
callers db = record {
  by_calls = db.callers_by_calls;
  by_inst = db.callers_by_instantiation;
  edge = caller_edge;
  found = λ e. e.from_fqn;
  base = λ e. e.to_fqn;
  found-edge = λ d b p a row. refl;
  base-edge = λ d b p a row. refl;
  depth-edge = λ d b p a row. refl;
}

abbrev pub callees : Database → Direction
callees db = record {
  by_calls = db.callees_by_calls;
  by_inst = db.callees_by_instantiation;
  edge = callee_edge;
  found = λ e. e.to_fqn;
  base = λ e. e.from_fqn;
  found-edge = λ d b p a row. refl;
  base-edge = λ d b p a row. refl;
  depth-edge = λ d b p a row. refl;
}

-- A query's answer lists the name.
abbrev pub Lists : Answer (List Row) → String → Type 0
Lists (failed e) a = ⊥
Lists (ok rows) a = (row : Row) × In row rows × (row.fqn ≡ some a)

-- The database has an edge between the two names, by a call or by an instantiation.
abbrev pub Adj : Direction → String → String → Type 0
Adj d a b = Lists (d.by_calls b) a ⊎ Lists (d.by_inst b) a

module _ (d : Direction) where
  -- An edge that a hop discovers.
  pub record Found (depth : ℕ) (visited frontier : List String) (e : RawEdge) : Type 0 where
    pub on_frontier : In (d.base e) frontier
    pub adjacent : Adj d (d.found e) (d.base e)
    pub new : contains visited (d.found e) ≡ false
    pub at_depth : e.depth ≡ depth

  abbrev pub hop_of : ℕ → List String → List String → Hop → Answer Hop
  hop_of = one_hop d.by_calls d.by_inst d.edge

  pub Found-row :
      (depth : ℕ) (visited : List String) (b : String) (frontier : List String)
      (p : Row → EdgeProvenance) (rows : List Row) (e : RawEdge)
      → ((a : String) → (row : Row) × In row rows × (row.fqn ≡ some a) → Adj d a b)
      → FromRow visited (d.edge depth b p) rows e
      → Found depth visited (b ∷ frontier) e
  Found-row depth visited b frontier p rows e adj f = record {
    on_frontier = inl base;
    adjacent =
        subst (λ b'. Adj d (d.found e) b') (sym base)
          (subst (λ a. Adj d a b) (sym found) (adj f.end (f.row, f.member, f.named)));
    new = ap (contains visited) found ∙ f.new;
    at_depth = ap (λ (e : RawEdge). e.depth) f.made ∙ d.depth-edge depth b p f.end f.row;
  }
    where
      base : d.base e ≡ b
      base = ap d.base f.made ∙ d.base-edge depth b p f.end f.row

      found : d.found e ≡ f.end
      found = ap d.found f.made ∙ d.found-edge depth b p f.end f.row

  pub Found-later :
      {depth : ℕ} {visited frontier : List String} {b : String} {e : RawEdge}
      → Found depth visited frontier e
      → Found depth visited (b ∷ frontier) e
  Found-later f = record {
    on_frontier = inr f.on_frontier;
    adjacent = f.adjacent;
    new = f.new;
    at_depth = f.at_depth;
  }

  -- What the loop over the frontier does with one name.
  abbrev pub hop_name : ℕ → List String → String → List Row → List Row → Hop → Hop
  hop_name depth visited b rows inst_rows hop =
      take_rows visited (d.edge depth b by_instantiation) inst_rows
        (take_rows visited (d.edge depth b by_dispatch) rows hop)

  pub one_hop-next :
      (depth : ℕ) (visited : List String) (b : String) (frontier : List String) (hop hop' : Hop)
      → hop_of depth visited (b ∷ frontier) hop ≡ ok hop'
      → (rows : List Row) × (inst_rows : List Row) × (d.by_calls b ≡ ok rows)
        × (d.by_inst b ≡ ok inst_rows)
        × (hop_of depth visited frontier (hop_name depth visited b rows inst_rows hop) ≡ ok hop')
  unfolding one_hop
  one_hop-next depth visited b frontier hop hop' h = go (d.by_calls b) (d.by_inst b) refl refl
    where
      go :
          (r s : Answer (List Row))
          → d.by_calls b ≡ r
          → d.by_inst b ≡ s
          → (rows : List Row) × (inst_rows : List Row) × (d.by_calls b ≡ ok rows)
            × (d.by_inst b ≡ ok inst_rows)
            × (hop_of depth visited frontier (hop_name depth visited b rows inst_rows hop)
                ≡ ok hop')
      go (failed e) s p q = let x : failed e ≡ ok hop' = rw (p, one_hop) at h in cc
      go (ok rows) (failed e) p q = let x : failed e ≡ ok hop' = rw (p, q, one_hop) at h in cc
      go (ok rows) (ok inst_rows) p q = (rows, inst_rows, p, q, rw (p, q, one_hop) at h)
