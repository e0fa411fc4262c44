-- ===== src/Traversal/Search.antt =====
-- crates/rb-query/src/graph/traversal/mod.rs: the loops of `fetch_callers` and `fetch_callees` run the
-- rounds of the search.
use rustacean.Common.{
  ℕ, suc, String, ◌≡◌, refl, sym, ap, ◌∙◌, subst, inl, inr, Option, none, some, List, [], ◌∷◌, ◌++◌,
  map, Bool-cases,
}
use rustacean.Common.Names.{contains}
use rustacean.Traversal.Types.{TraversalNode, RawEdge, ok, lookup}
use rustacean.Traversal.Hop.{Database, Hop, one_hop_callers, one_hop_callees}
use rustacean.Traversal.Fetch.{
  Search, take_caller, take_callers, visit_callee, take_callee, take_callees, with_source,
}
use rustacean.Traversal.Direction.{Direction, callers, callees, hop_of}
use rustacean.Traversal.Reach.{push_new, push_all, found_names}
use rustacean.Traversal.Layers.{link, links, Reached, Reached-next}
use text.Mathlib.Text.{◌==◌}

-- What a round reads and writes of the search: the visited names, the next frontier and the links.
abbrev names_of : Search × List String → List String × List String
names_of (s, next) = (s.visited, next)

module _ {A B : Type 0} where
  map-append : (f : A → B) (xs ys : List A) → map f (xs ++ ys) ≡ map f xs ++ map f ys
  map-append f [] ys = refl
  map-append f (x ∷ xs) ys = ap (λ zs. f x ∷ zs) (map-append f xs ys)

append_assoc : {A : Type 0} (xs ys zs : List A) → (xs ++ ys) ++ zs ≡ xs ++ (ys ++ zs)
append_assoc [] ys zs = refl
append_assoc (x ∷ xs) ys zs = ap (λ ws. x ∷ ws) (append_assoc xs ys zs)

-- Any way of taking an edge that visits the name it finds and pushes the edge's link.
module _ (d : Direction) (take : RawEdge → Search × List String → Search × List String)
    (take_names : (e : RawEdge) (t : Search × List String)
      → names_of (take e t) ≡ push_new (d.found e) (names_of t))
    (take_links : (e : RawEdge) (t : Search × List String)
      → links d (take e t).0.all_edges ≡ links d t.0.all_edges ++ (link d e ∷ [])) where
  abbrev take_all : List RawEdge → Search × List String → Search × List String
  take_all [] t = t
  take_all (e ∷ es) t = take_all es (take e t)

  take_all-names :
      (es : List RawEdge) (t : Search × List String)
      → names_of (take_all es t) ≡ push_all (found_names d es) (names_of t)
  take_all-names [] t = refl
  take_all-names (e ∷ es) t =
      take_all-names es (take e t) ∙ ap (push_all (found_names d es)) (take_names e t)

  take_all-links :
      (es : List RawEdge) (t : Search × List String)
      → links d (take_all es t).0.all_edges ≡ links d t.0.all_edges ++ links d es
  take_all-links [] t = append_nil (links d t.0.all_edges)
    where
      append_nil : {A : Type 0} (xs : List A) → xs ≡ xs ++ []
      append_nil [] = refl
      append_nil (x ∷ xs) = ap (λ ys. x ∷ ys) (append_nil xs)
  take_all-links (e ∷ es) t =
      take_all-links es (take e t)
      ∙ ap (λ ls. ls ++ links d es) (take_links e t)
      ∙ append_assoc (links d t.0.all_edges) (link d e ∷ []) (links d es)

  -- What the loop does with the edges of a hop takes the search to the next depth.
  take_all-Reached :
      (root : String) (depth : ℕ) (frontier : List String) (s : Search) (hop : Hop)
      → Reached d root depth frontier s.visited (links d s.all_edges)
      → hop_of d
          (suc depth)
          s.visited
          frontier
          (record { edges = []; cycles_detected = s.cycles_detected })
        ≡ ok hop
      → (let t = take_all hop.edges (record s { cycles_detected = hop.cycles_detected }, []) in
          Reached d root (suc depth) t.1 t.0.visited (links d t.0.all_edges))
  take_all-Reached root depth frontier s hop r h =
      subst
        (λ t. Reached d root (suc depth) t.1 t.0 (
          links d
            (take_all hop.edges
              (record s { cycles_detected = hop.cycles_detected }, [])).0.all_edges))
        (sym (take_all-names hop.edges (record s { cycles_detected = hop.cycles_detected }, [])))
        (subst (Reached d root (suc depth) _ _)
          (sym (take_all-links hop.edges (record s { cycles_detected = hop.cycles_detected }, [])))
          (Reached-next d root depth s.visited frontier (links d s.all_edges) _ hop r refl h))

take_caller-names :
    (db : Database) (e : RawEdge) (t : Search × List String)
    → names_of (take_caller e t) ≡ push_new ((callers db).found e) (names_of t)
unfolding take_caller
take_caller-names db e (s, next) = elim (Bool-cases (contains s.visited e.from_fqn)) [
  | inl h ↦ rw h
  | inr h ↦ rw h
]

take_caller-links :
    (db : Database) (e : RawEdge) (t : Search × List String)
    → links (callers db) (take_caller e t).0.all_edges
      ≡ links (callers db) t.0.all_edges ++ (link (callers db) e ∷ [])
unfolding take_caller
take_caller-links db e (s, next) = elim (Bool-cases (contains s.visited e.from_fqn)) [
  | inl h ↦ rw (h, map-append (link (callers db)) s.all_edges (e ∷ []))
  | inr h ↦ rw (h, map-append (link (callers db)) s.all_edges (e ∷ []))
]

take_callers-all :
    (db : Database) (es : List RawEdge) (t : Search × List String)
    → take_callers es t
      ≡ take_all (callers db) take_caller (take_caller-names db) (take_caller-links db) es t
unfolding take_callers
take_callers-all db [] t = refl
take_callers-all db (e ∷ es) t = take_callers-all db es (take_caller e t)

with_source-link :
    (db : Database) (root : TraversalNode) (fqn : String) (n : Option TraversalNode) (e : RawEdge)
    → link (callees db) (with_source root fqn n e) ≡ link (callees db) e
with_source-link db root fqn (some n) e = refl
with_source-link db root fqn none e = elim (Bool-cases (e.from_fqn == fqn)) [
  | inl h ↦ rw h
  | inr h ↦ rw h
]

module _ (db : Database) (root : TraversalNode) (fqn : String) where
  take_callee-names :
      (e : RawEdge) (t : Search × List String)
      → names_of (take_callee db root fqn e t) ≡ push_new ((callees db).found e) (names_of t)
  unfolding take_callee visit_callee
  take_callee-names e (s, next) = elim (Bool-cases (contains s.visited e.to_fqn)) [
    | inl h ↦ rw h
    | inr h ↦ rw h
  ]

  visit_callee-edges :
      (a : String) (t : Search × List String) → (visit_callee db a t).0.all_edges ≡ t.0.all_edges
  unfolding visit_callee
  visit_callee-edges a (s, next) = elim (Bool-cases (contains s.visited a)) [
    | inl h ↦ rw h
    | inr h ↦ rw h
  ]

  take_callee-links :
      (e : RawEdge) (t : Search × List String)
      → links (callees db) (take_callee db root fqn e t).0.all_edges
        ≡ links (callees db) t.0.all_edges ++ (link (callees db) e ∷ [])
  unfolding take_callee
  take_callee-links e t =
      let t' = visit_callee db e.to_fqn t in
      map-append (link (callees db)) t'.0.all_edges _
      ∙ ap (λ l. links (callees db) t'.0.all_edges ++ (l ∷ []))
          (with_source-link db root fqn (lookup t'.0.node_map e.from_fqn) e)
      ∙ ap (λ es. links (callees db) es ++ (link (callees db) e ∷ []))
          (visit_callee-edges e.to_fqn t)

  take_callees-all :
      (es : List RawEdge) (t : Search × List String)
      → take_callees db root fqn es t
        ≡ take_all (callees db) (take_callee db root fqn) take_callee-names take_callee-links es t
  unfolding take_callees
  take_callees-all [] t = refl
  take_callees-all (e ∷ es) t = take_callees-all es (take_callee db root fqn e t)

-- A hop of either direction takes its search to the next depth.
pub take_callers-Reached :
    (db : Database) (root : String) (depth : ℕ) (frontier : List String) (s : Search) (hop : Hop)
    → Reached (callers db) root depth frontier s.visited (links (callers db) s.all_edges)
    → one_hop_callers db
        (suc depth)
        s.visited
        frontier
        (record { edges = []; cycles_detected = s.cycles_detected })
      ≡ ok hop
    → (let t = take_callers hop.edges (record s { cycles_detected = hop.cycles_detected }, []) in
        Reached (callers db) root (suc depth) t.1 t.0.visited (links (callers db) t.0.all_edges))
take_callers-Reached db root depth frontier s hop r h =
    subst
      (λ t.
        Reached (callers db) root (suc depth) t.1 t.0.visited (links (callers db) t.0.all_edges))
      (sym (take_callers-all db hop.edges _))
      (take_all-Reached (callers db) take_caller (take_caller-names db) (take_caller-links db) root
        depth frontier s hop r h)

pub take_callees-Reached :
    (db : Database) (node : TraversalNode) (root : String) (depth : ℕ) (frontier : List String)
    (s : Search) (hop : Hop)
    → Reached (callees db) root depth frontier s.visited (links (callees db) s.all_edges)
    → one_hop_callees db
        (suc depth)
        s.visited
        frontier
        (record { edges = []; cycles_detected = s.cycles_detected })
      ≡ ok hop
    → (let t =
          take_callees db node root hop.edges
            (record s { cycles_detected = hop.cycles_detected }, []) in
        Reached (callees db) root (suc depth) t.1 t.0.visited (links (callees db) t.0.all_edges))
take_callees-Reached db node root depth frontier s hop r h =
    subst
      (λ t.
        Reached (callees db) root (suc depth) t.1 t.0.visited (links (callees db) t.0.all_edges))
      (sym (take_callees-all db node root hop.edges _))
      (take_all-Reached (callees db) (take_callee db node root) (take_callee-names db node root)
        (take_callee-links db node root) root depth frontier s hop r h)
