-- ===== src/Traversal/Answers.antt =====
-- crates/rb-query/src/graph/traversal: a search answers when the database does.
use rustacean.Common.{ℕ, zero, suc, ◌+◌, String, ◌≡◌, refl, ap, ◌∙◌, List, [], ◌∷◌}
use rustacean.Traversal.Types.{TraversalNode, TraversalOptions, Answer, ok, ◌>>=◌, or_bare}
use rustacean.Traversal.Hop.{
  Database, Hop, take_rows, by_dispatch, by_instantiation, one_hop, fetch_root_node,
}
use rustacean.Traversal.Fetch.{
  Search, take_callers, callers_loop, take_callees, callees_loop, start, fetch_callers,
  fetch_callees,
}
use rustacean.Traversal.Direction.{Direction, callers, callees, hop_of}

abbrev pub IsOk : {A : Type 0} → Answer A → Type 0
IsOk {A} a = (x : A) × (a ≡ ok x)

bind-IsOk :
    {A B : Type 0} (a : Answer A) (f : A → Answer B)
    → IsOk a
    → ((x : A) → IsOk (f x))
    → IsOk (a >>= f)
bind-IsOk a f (x, e) h = let (y, q) = h x in (y, ap (λ a. a >>= f) e ∙ q)

-- Every query of a direction answers.
abbrev pub Up : Direction → Type 0
Up d = ((b : String) → IsOk (d.by_calls b)) × ((b : String) → IsOk (d.by_inst b))

hop-IsOk :
    (d : Direction)
    → Up d
    → (depth : ℕ) (visited frontier : List String) (hop : Hop)
    → IsOk (hop_of d depth visited frontier hop)
unfolding one_hop
hop-IsOk d up depth visited [] hop = (hop, refl)
hop-IsOk d up depth visited (b ∷ frontier) hop = bind-IsOk (d.by_calls b) _ (up.0 b) (λ rows.
    bind-IsOk (d.by_inst b) _ (up.1 b) (λ inst_rows. hop-IsOk d up depth visited frontier (
      take_rows visited (d.edge depth b by_instantiation) inst_rows
        (take_rows visited (d.edge depth b by_dispatch) rows hop))))

callers_loop-IsOk :
    (db : Database)
    → Up (callers db)
    → (rounds depth : ℕ) (frontier : List String) (s : Search)
    → IsOk (callers_loop db rounds depth frontier s)
unfolding callers_loop
callers_loop-IsOk db up zero depth frontier s = (s, refl)
callers_loop-IsOk db up (suc rounds) depth [] s = (s, refl)
callers_loop-IsOk db up (suc rounds) depth (f ∷ frontier) s =
    bind-IsOk _ _ (hop-IsOk (callers db) up depth s.visited (f ∷ frontier) _) (λ hop.
      let t = take_callers hop.edges (record s { cycles_detected = hop.cycles_detected }, []) in
      callers_loop-IsOk db up rounds (depth + 1) t.1 t.0)

callees_loop-IsOk :
    (db : Database) (root : TraversalNode) (fqn : String)
    → Up (callees db)
    → (rounds depth : ℕ) (frontier : List String) (s : Search)
    → IsOk (callees_loop db root fqn rounds depth frontier s)
unfolding callees_loop
callees_loop-IsOk db root fqn up zero depth frontier s = (s, refl)
callees_loop-IsOk db root fqn up (suc rounds) depth [] s = (s, refl)
callees_loop-IsOk db root fqn up (suc rounds) depth (f ∷ frontier) s =
    bind-IsOk _ _ (hop-IsOk (callees db) up depth s.visited (f ∷ frontier) _) (λ hop.
      let t =
        take_callees db root fqn hop.edges
          (record s { cycles_detected = hop.cycles_detected }, []) in
      callees_loop-IsOk db root fqn up rounds (depth + 1) t.1 t.0)

root-IsOk : (db : Database) (fqn : String) → IsOk (db.items fqn) → IsOk (fetch_root_node db fqn)
unfolding fetch_root_node
root-IsOk db fqn h = bind-IsOk (db.items fqn) _ h (λ rows. (_, refl))

fetch_callers-IsOk :
    (db : Database) (fqn : String) (opts : TraversalOptions)
    → IsOk (db.items fqn)
    → Up (callers db)
    → IsOk (fetch_callers db fqn opts)
unfolding fetch_callers
fetch_callers-IsOk db fqn opts h up =
    bind-IsOk (fetch_root_node db fqn) _ (root-IsOk db fqn h) (λ found.
      bind-IsOk _ _ (callers_loop-IsOk db up opts.depth 1 (fqn ∷ []) (start fqn)) (λ s. (_, refl)))

-- The queries for the nodes of the result may fail.
fetch_callees-IsOk :
    (db : Database) (fqn : String) (opts : TraversalOptions)
    → IsOk (db.items fqn)
    → Up (callees db)
    → IsOk (fetch_callees db fqn opts)
unfolding fetch_callees
fetch_callees-IsOk db fqn opts h up =
    bind-IsOk (fetch_root_node db fqn) _ (root-IsOk db fqn h) (λ found.
      bind-IsOk _ _
        (callees_loop-IsOk db (or_bare fqn found) fqn up opts.depth 1 (fqn ∷ []) (start fqn))
        (λ s. (_, refl)))

-- When the query of the root's item and the queries for the neighbours in both directions answer, then
-- so does the search in either direction, at every depth: its loop ends.
pub fetches-IsOk :
    (db : Database) (fqn : String) (opts : TraversalOptions)
    → IsOk (db.items fqn)
    → Up (callers db)
    → Up (callees db)
    → IsOk (fetch_callers db fqn opts) × IsOk (fetch_callees db fqn opts)
fetches-IsOk db fqn opts h up down =
    (fetch_callers-IsOk db fqn opts h up, fetch_callees-IsOk db fqn opts h down)
