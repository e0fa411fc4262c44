-- ===== src/Traversal/Pages.antt =====
-- crates/rb-query/src/graph/traversal/pagination.rs: the edges, the nodes and the cursor of a page.
use rustacean.Common.{
  ℕ, zero, suc, ◌+◌, min, String, ◌≡◌, refl, ap, ◌∙◌, inl, inr, Bool, false, none, some, List, [],
  ◌∷◌, map, length, take, drop, ltb, if◌then◌else◌, arith, Bool-cases, length-drop,
}
use rustacean.Traversal.Types.{TraversalNode, RawEdge, TraversalOptions}
use rustacean.Traversal.Paginate.{TraversalResult, strip, slice, paginate}

min-suc : (a b : ℕ) → min (suc a) (suc b) ≡ suc (min a b)
min-suc a b = omega arith

min_zero : (a : ℕ) → min 0 a ≡ 0
min_zero a = omega arith

min_zero_right : (a : ℕ) → min a 0 ≡ 0
min_zero_right a = omega arith

module _ {A : Type 0} where
  drop_nil : (n : ℕ) → drop {A = A} n [] ≡ []
  drop_nil zero = refl
  drop_nil (suc n) = refl

  take-min : (n : ℕ) (xs : List A) → take (min n (length xs)) xs ≡ take n xs
  take-min zero xs = ap (λ n. take n xs) (min_zero (length xs))
  take-min (suc n) [] = ap (λ n. take n []) (min_zero_right (suc n))
  take-min (suc n) (x ∷ xs) =
      ap (λ k. take k (x ∷ xs)) (min-suc n (length xs)) ∙ ap (λ ys. x ∷ ys) (take-min n xs)

  drop-min : (n : ℕ) (xs : List A) → drop (min n (length xs)) xs ≡ drop n xs
  drop-min zero xs = ap (λ n. drop n xs) (min_zero (length xs))
  drop-min (suc n) [] = drop_nil (min (suc n) 0)
  drop-min (suc n) (x ∷ xs) = ap (λ k. drop k (x ∷ xs)) (min-suc n (length xs)) ∙ drop-min n xs

  -- The bounds of a page are those of `take` and `drop`.
  slice_page :
      (o l : ℕ) (xs : List A)
      → slice xs (min o (length xs)) (min (min o (length xs) + l) (length xs)) ≡ take l (drop o xs)
  slice_page o l xs =
      ap (take _) (drop-min o xs)
      ∙ ap (λ n. take n (drop o xs)) (let h = length-drop o xs in omega arith)
      ∙ take-min l (drop o xs)

-- A page of a list of edges: the entries it takes, and where the next page starts.
pub record IsPage (opts : TraversalOptions) (edges : List RawEdge) (r : TraversalResult)
    : Type 0 where
  pub page_edges : r.edges ≡ map strip (take opts.limit (drop opts.offset edges))
  pub page_cursor : r.next_cursor ≡ (
      if ltb (opts.offset + opts.limit) (length edges)
      then some (opts.offset + opts.limit)
      else none)

pub paginate-IsPage :
    (root : TraversalNode) (edges : List RawEdge) (nodes : List (String × TraversalNode))
    (opts : TraversalOptions) (cycles : Bool)
    → IsPage opts edges (paginate root edges nodes opts cycles)
unfolding paginate
paginate-IsPage root edges nodes opts cycles = record {
  page_edges = ap (map strip) (slice_page opts.offset opts.limit edges);
  page_cursor = cursor opts.offset opts.limit (length edges);
}
  where
    cursor :
        (o l t : ℕ)
        → (if ltb (min (min o t + l) t) t then some (min (min o t + l) t) else none)
          ≡ (if ltb (o + l) t then some (o + l) else none)
    cursor o l t = elim (Bool-cases (ltb (o + l) t)) [
      | inl h ↦ let e : min (min o t + l) t ≡ o + l = ground arith in rw e
      | inr h ↦ let e : ltb (min (min o t + l) t) t ≡ false = ground arith in rw (e, h)
    ]
