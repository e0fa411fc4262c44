-- ===== src/Traversal/Shortest.antt =====
-- crates/rb-query/src/graph/traversal/mod.rs: what `fetch_callers` and `fetch_callees` answer with.
use rustacean.Common.{ℕ, zero, suc, ◌+◌, String, ◌≡◌, refl, subst, Option, List, [], ◌∷◌, arith}
use rustacean.Traversal.Types.{
  TraversalNode, RawEdge, TraversalOptions, Answer, ok, failed, ◌>>=◌, or_bare,
}
use rustacean.Traversal.Hop.{Database, fetch_root_node}
use rustacean.Traversal.Fetch.{
  Search, take_callers, callers_loop, take_callees, callees_loop, start, fetch_callers,
  fetch_callees,
}
use rustacean.Traversal.Paginate.{TraversalResult, paginate}
use rustacean.Traversal.Direction.{Direction, callers, callees}
use rustacean.Traversal.Layers.{links, Layers, Reached, Reached-start, Reached-stop}
use rustacean.Traversal.Search.{take_callers-Reached, take_callees-Reached}
use rustacean.Traversal.Pages.{IsPage, paginate-IsPage}

ok-injective : {A : Type 0} {a b : A} → ok a ≡ ok b → a ≡ b
ok-injective q = cc

-- An answer that is not an error, and one that goes on from it.
bind-ok :
    {A B : Type 0} (a : Answer A) (f : A → Answer B) (b : B)
    → a >>= f ≡ ok b
    → (x : A) × (a ≡ ok x) × (f x ≡ ok b)
bind-ok (ok x) f b h = (x, refl, h)
bind-ok (failed e) f b h = absurd (cc)

-- With no rounds left the layers are those of the depth that was reached.
Layers-done :
    (d : Direction) (root : String) (depth : ℕ) (frontier : List String) (s s' : Search)
    → Reached d root depth frontier s.visited (links d s.all_edges)
    → ok s ≡ ok s'
    → Layers d root (depth + 0) (links d s'.all_edges)
Layers-done d root depth frontier s s' r h =
    let n : depth ≡ depth + 0 = omega arith in
    subst (λ n. Layers d root n (links d s'.all_edges)) n
      (subst (λ (s : Search). Layers d root depth (links d s.all_edges)) (ok-injective h) r.layers)

Layers-stopped :
    (d : Direction) (root : String) (depth more : ℕ) (s s' : Search)
    → Reached d root depth [] s.visited (links d s.all_edges)
    → ok s ≡ ok s'
    → Layers d root (depth + more) (links d s'.all_edges)
Layers-stopped d root depth more s s' r h =
    subst (λ (s : Search). Layers d root (depth + more) (links d s.all_edges)) (ok-injective h)
      (Reached-stop d root depth more s.visited (links d s.all_edges) r)

plus_one : (n : ℕ) → n + 1 ≡ suc n
plus_one n = omega arith

plus_suc : (m n : ℕ) → suc m + n ≡ m + suc n
plus_suc m n = omega arith

zero_plus : (n : ℕ) → 0 + n ≡ n
zero_plus n = omega arith

callers_loop-Layers :
    (db : Database) (root : String) (rounds depth : ℕ) (frontier : List String) (s s' : Search)
    → Reached (callers db) root depth frontier s.visited (links (callers db) s.all_edges)
    → callers_loop db rounds (suc depth) frontier s ≡ ok s'
    → Layers (callers db) root (depth + rounds) (links (callers db) s'.all_edges)
unfolding callers_loop
callers_loop-Layers db root zero depth frontier s s' r h =
    Layers-done (callers db) root depth frontier s s' r h
callers_loop-Layers db root (suc rounds) depth [] s s' r h =
    Layers-stopped (callers db) root depth (suc rounds) s s' r h
callers_loop-Layers db root (suc rounds) depth (f ∷ frontier) s s' r h =
    let (hop, q, next) = bind-ok _ _ s' h in
    let t = take_callers hop.edges (record s { cycles_detected = hop.cycles_detected }, []) in
    subst (λ n. Layers (callers db) root n (links (callers db) s'.all_edges))
      (plus_suc depth rounds)
      (callers_loop-Layers db root rounds (suc depth) t.1 t.0 s'
        (take_callers-Reached db root depth (f ∷ frontier) s hop r q)
        (subst (λ n. callers_loop db rounds n t.1 t.0 ≡ ok s') (plus_one (suc depth)) next))

callees_loop-Layers :
    (db : Database) (node : TraversalNode) (root : String) (rounds depth : ℕ)
    (frontier : List String) (s s' : Search)
    → Reached (callees db) root depth frontier s.visited (links (callees db) s.all_edges)
    → callees_loop db node root rounds (suc depth) frontier s ≡ ok s'
    → Layers (callees db) root (depth + rounds) (links (callees db) s'.all_edges)
unfolding callees_loop
callees_loop-Layers db node root zero depth frontier s s' r h =
    Layers-done (callees db) root depth frontier s s' r h
callees_loop-Layers db node root (suc rounds) depth [] s s' r h =
    Layers-stopped (callees db) root depth (suc rounds) s s' r h
callees_loop-Layers db node root (suc rounds) depth (f ∷ frontier) s s' r h =
    let (hop, q, next) = bind-ok _ _ s' h in
    let t =
      take_callees db node root hop.edges
        (record s { cycles_detected = hop.cycles_detected }, []) in
    subst (λ n. Layers (callees db) root n (links (callees db) s'.all_edges))
      (plus_suc depth rounds)
      (callees_loop-Layers db node root rounds (suc depth) t.1 t.0 s'
        (take_callees-Reached db node root depth (f ∷ frontier) s hop r q)
        (subst (λ n. callees_loop db node root rounds n t.1 t.0 ≡ ok s') (plus_one (suc depth))
          next))

-- What the pages of one search are taken from: the edges of its layers.
pub record Searched (fetch : TraversalOptions → Answer TraversalResult) (d : Direction)
    (fqn : String) (depth : ℕ) : Type 0 where
  pub edges : List RawEdge
  pub layers : Layers d fqn depth (links d edges)
  pub page :
      (limit offset : ℕ)
      → (let opts : TraversalOptions = record { depth = depth; limit = limit; offset = offset } in
          (r : TraversalResult) × (fetch opts ≡ ok r) × IsPage opts edges r)

Searched-callers :
    (db : Database) (fqn : String) (opts : TraversalOptions) (found : Option TraversalNode)
    (s : Search)
    → fetch_root_node db fqn ≡ ok found
    → callers_loop db opts.depth 1 (fqn ∷ []) (start fqn) ≡ ok s
    → Searched (fetch_callers db fqn) (callers db) fqn opts.depth
unfolding fetch_callers
Searched-callers db fqn opts found s p q = record {
  edges = s.all_edges;
  layers =
      subst (λ n. Layers (callers db) fqn n (links (callers db) s.all_edges)) (zero_plus opts.depth)
        (callers_loop-Layers db fqn opts.depth 0 (fqn ∷ []) (start fqn) s
          (Reached-start (callers db) fqn) q);
  page = λ limit offset. (
    paginate (or_bare fqn found) s.all_edges s.node_map _ s.cycles_detected,
    (let opts : TraversalOptions = record { depth = opts.depth; limit = limit; offset = offset } in
        rw (p, q)),
    paginate-IsPage (or_bare fqn found) s.all_edges s.node_map
        (record { depth = opts.depth; limit = limit; offset = offset }) s.cycles_detected,
  );
}

-- When `fetch_callers` answers without an error, then there is one list of edges that the page of every
-- offset and limit of the same depth is taken from. An edge of it joins a name `m` steps from the
-- root, by the shortest way over calls and instantiations, with a caller of it that is `m + 1` steps
-- away, and its depth is `m + 1`, at most the given depth; and each such pair has an edge.
pub fetch_callers-Searched :
    (db : Database) (fqn : String) (opts : TraversalOptions) (r : TraversalResult)
    → fetch_callers db fqn opts ≡ ok r
    → Searched (fetch_callers db fqn) (callers db) fqn opts.depth
unfolding fetch_callers
fetch_callers-Searched db fqn opts r h =
    let (found, p, next) = bind-ok (fetch_root_node db fqn) _ r h in
    let (s, q, _) = bind-ok (callers_loop db opts.depth 1 (fqn ∷ []) (start fqn)) _ r next in
    Searched-callers db fqn opts found s p q

Searched-callees :
    (db : Database) (fqn : String) (opts : TraversalOptions) (found : Option TraversalNode)
    (s : Search)
    → fetch_root_node db fqn ≡ ok found
    → callees_loop db (or_bare fqn found) fqn opts.depth 1 (fqn ∷ []) (start fqn) ≡ ok s
    → Searched (fetch_callees db fqn) (callees db) fqn opts.depth
unfolding fetch_callees
Searched-callees db fqn opts found s p q = record {
  edges = s.all_edges;
  layers =
      subst (λ n. Layers (callees db) fqn n (links (callees db) s.all_edges)) (zero_plus opts.depth)
        (callees_loop-Layers db (or_bare fqn found) fqn opts.depth 0 (fqn ∷ []) (start fqn) s
          (Reached-start (callees db) fqn) q);
  page = λ limit offset. (
    paginate (or_bare fqn found) s.all_edges s.node_map _ s.cycles_detected,
    (let opts : TraversalOptions = record { depth = opts.depth; limit = limit; offset = offset } in
        rw (p, q)),
    paginate-IsPage (or_bare fqn found) s.all_edges s.node_map
        (record { depth = opts.depth; limit = limit; offset = offset }) s.cycles_detected,
  );
}

-- When `fetch_callees` answers without an error, then there is one list of edges that the page of every
-- offset and limit of the same depth is taken from. An edge of it joins a name `m` steps from the
-- root, by the shortest way over calls and instantiations, with a callee of it that is `m + 1` steps
-- away, and its depth is `m + 1`, at most the given depth; and each such pair has an edge.
pub fetch_callees-Searched :
    (db : Database) (fqn : String) (opts : TraversalOptions) (r : TraversalResult)
    → fetch_callees db fqn opts ≡ ok r
    → Searched (fetch_callees db fqn) (callees db) fqn opts.depth
unfolding fetch_callees
fetch_callees-Searched db fqn opts r h =
    let (found, p, next) = bind-ok (fetch_root_node db fqn) _ r h in
    let (s, q, _) =
      bind-ok (callees_loop db (or_bare fqn found) fqn opts.depth 1 (fqn ∷ []) (start fqn)) _ r
        next in
    Searched-callees db fqn opts found s p q
