-- ===== src/Traversal/Cursors.antt =====
-- crates/rb-query/src/graph/traversal/pagination.rs: a client that asks for page after page.
use rustacean.Common.{
  ℕ, zero, suc, ◌+◌, ◌≤◌, ◌<◌, String, ◌≡◌, refl, sym, ap, ◌∙◌, inl, inr, Bool, Option, none, some,
  List, [], ◌∷◌, ◌++◌, map, length, take, drop, ltb, arith, Bool-cases, take-append-drop,
  length-drop,
}
use rustacean.Traversal.Types.{TraversalNode, TraversalEdge, RawEdge}
use rustacean.Traversal.Paginate.{TraversalResult, strip, paginate}
use rustacean.Traversal.Pages.{IsPage, paginate-IsPage}

module _ (root : TraversalNode) (edges : List RawEdge) (node_map : List (String × TraversalNode))
    (depth limit : ℕ) (cycles : Bool) where
  abbrev pub page_at : ℕ → TraversalResult
  page_at offset =
      paginate root edges node_map (record { depth = depth; limit = limit; offset = offset }) cycles

  -- The edges of at most so many pages, each from the cursor of the one before.
  abbrev pub follow_from : ℕ → TraversalResult → List TraversalEdge
  follow_from zero r = r.edges
  follow_from (suc pages) r =
      r.edges ++ elim r.next_cursor [ none ↦ [] | some cursor ↦ follow_from pages (page_at cursor) ]

module _ {A : Type 0} where
  take_all : (n : ℕ) (xs : List A) → length xs ≤ n → take n xs ≡ xs
  take_all zero [] h = refl
  take_all zero (x ∷ xs) h = absurd (omega arith)
  take_all (suc n) [] h = refl
  take_all (suc n) (x ∷ xs) h = ap (λ ys. x ∷ ys) (take_all n xs (omega arith))

  drop_nil : (n : ℕ) → drop {A = A} n [] ≡ []
  drop_nil zero = refl
  drop_nil (suc n) = refl

  drop-drop : (m n : ℕ) (xs : List A) → drop n (drop m xs) ≡ drop (m + n) xs
  drop-drop zero n xs = ap (λ k. drop k xs) (omega_zero n)
    where
      omega_zero : (n : ℕ) → n ≡ 0 + n
      omega_zero n = omega arith
  drop-drop (suc m) n [] = drop_nil n ∙ sym (drop_nil (suc m + n))
  drop-drop (suc m) n (x ∷ xs) = drop-drop m n xs ∙ ap (λ k. drop k (x ∷ xs)) (plus m n)
    where
      plus : (m n : ℕ) → suc (m + n) ≡ suc m + n
      plus m n = omega arith

map-append : {A B : Type 0} (f : A → B) (xs ys : List A) → map f (xs ++ ys) ≡ map f xs ++ map f ys
map-append f [] ys = refl
map-append f (x ∷ xs) ys = ap (λ zs. f x ∷ zs) (map-append f xs ys)

module _ (root : TraversalNode) (edges : List RawEdge) (node_map : List (String × TraversalNode))
    (depth limit : ℕ) (cycles : Bool) where
  abbrev page : ℕ → TraversalResult
  page = page_at root edges node_map depth limit cycles

  page-IsPage :
      (o : ℕ) → IsPage (record { depth = depth; limit = limit; offset = o }) edges (page o)
  page-IsPage o =
      paginate-IsPage root edges node_map (record { depth = depth; limit = limit; offset = o })
        cycles

  -- The last page holds all that is left.
  last_page : (o : ℕ) → length edges ≤ o + limit → (page o).edges ≡ map strip (drop o edges)
  last_page o h =
      (page-IsPage o).page_edges
      ∙ ap (map strip) (take_all limit (drop o edges) (let k = length-drop o edges in omega arith))

  with_cursor :
      (pages o : ℕ) (c : Option ℕ)
      → (page o).next_cursor ≡ c
      → follow_from root edges node_map depth limit cycles (suc pages) (page o)
        ≡ (page o).edges ++ elim c [
          | none ↦ []
          | some cursor ↦ follow_from root edges node_map depth limit cycles pages (page cursor)
        ]
  with_cursor pages o c e =
      ap
        (λ c. (page o).edges ++ elim c [
          | none ↦ []
          | some cursor ↦ follow_from root edges node_map depth limit cycles pages (page cursor)
        ])
        e

  follow_from-edges :
      (pages o : ℕ)
      → 0 < limit
      → length edges ≤ o + pages
      → follow_from root edges node_map depth limit cycles pages (page o) ≡ map strip (drop o edges)
  follow_from-edges zero o h b = last_page o (omega arith)
  follow_from-edges (suc pages) o h b = elim (Bool-cases (ltb (o + limit) (length edges))) [
    | inl e ↦
        with_cursor pages o (some (o + limit)) ((page-IsPage o).page_cursor ∙ rw e)
        ∙ ap (λ es. (page o).edges ++ es) (follow_from-edges pages (o + limit) h (omega arith))
        ∙ ap (λ es. es ++ map strip (drop (o + limit) edges)) (page-IsPage o).page_edges
        ∙ sym (map-append strip (take limit (drop o edges)) (drop (o + limit) edges))
        ∙ ap (λ es. map strip (take limit (drop o edges) ++ es)) (sym (drop-drop o limit edges))
        ∙ ap (map strip) (take-append-drop limit (drop o edges))
    | inr e ↦
        with_cursor pages o none ((page-IsPage o).page_cursor ∙ rw e)
        ∙ append_nil (page o).edges
        ∙ last_page o (ground arith)
  ]
    where
      append_nil : {A : Type 0} (xs : List A) → xs ++ [] ≡ xs
      append_nil [] = refl
      append_nil (x ∷ xs) = ap (λ ys. x ∷ ys) (append_nil xs)

-- A client that starts at offset 0 and asks for the page of each `next_cursor`, with a limit of at
-- least 1, has all the edges in their order, each once, after as many more pages as there are edges at
-- the latest.
pub follow_from-paginate :
    (root : TraversalNode) (edges : List RawEdge) (node_map : List (String × TraversalNode))
    (depth limit : ℕ) (cycles : Bool) (pages : ℕ)
    → 0 < limit
    → length edges ≤ pages
    → follow_from root edges node_map depth limit cycles pages
        (paginate root edges node_map (record { depth = depth; limit = limit; offset = 0 }) cycles)
      ≡ map strip edges
follow_from-paginate root edges node_map depth limit cycles pages h b =
    follow_from-edges root edges node_map depth limit cycles pages 0 h (omega arith)
