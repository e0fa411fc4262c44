-- ===== src/Traversal/Reach.antt =====
-- crates/rb-query/src/graph/traversal/mod.rs: the names that a round visits.
use rustacean.Common.{
  ℕ, String, ◌≡◌, sym, ap, ◌∙◌, subst, ◌⊎◌, inl, inr, Bool, true, false, List, [], ◌∷◌, ◌++◌, map,
  if◌then◌else◌, Bool-cases,
}
use rustacean.Common.Every.{In, In-append, In-append_left, In-append_right, In-map, map-In}
use rustacean.Common.Names.{contains, contains→In, In→contains}
use rustacean.Traversal.Types.{RawEdge, ok}
use rustacean.Traversal.Hop.{Hop}
use rustacean.Traversal.Levels.{Round}
use rustacean.Traversal.Direction.{Direction, Adj, hop_of}
use rustacean.Traversal.Rounds.{hop_sound, hop-finds}

-- A name joins the visited ones and the frontier, unless it is known.
abbrev pub push_new : String → List String × List String → List String × List String
push_new a (visited, next) =
    if contains visited a then (visited, next) else (a ∷ visited, next ++ (a ∷ []))

abbrev pub push_all : List String → List String × List String → List String × List String
push_all [] t = t
push_all (a ∷ names) t = push_all names (push_new a t)

push_new_cases :
    (a : String) (v n : List String)
    → ((push_new a (v, n) ≡ (v, n)) × In a v)
      ⊎ ((push_new a (v, n) ≡ (a ∷ v, n ++ (a ∷ []))) × (contains v a ≡ false))
push_new_cases a v n = elim (Bool-cases (contains v a)) [
  | inl e ↦ inl (rw e, contains→In v a e)
  | inr e ↦ inr (rw e, e)
]

push_all-keeps : (names v n : List String) (b : String) → In b v → In b (push_all names (v, n)).0
push_all-keeps [] v n b m = m
push_all-keeps (a ∷ names) v n b m = elim (push_new_cases a v n) [
  | inl (e, _) ↦ subst (λ t. In b (push_all names t).0) (sym e) (push_all-keeps names v n b m)
  | inr (e, _) ↦
      subst (λ t. In b (push_all names t).0) (sym e)
        (push_all-keeps names (a ∷ v) (n ++ (a ∷ [])) b (inr m))
]

push_all-covers :
    (names v n : List String) (b : String) → In b names → In b (push_all names (v, n)).0
push_all-covers [] v n b m = elim m [ ]
push_all-covers (a ∷ names) v n b (inr m) =
    push_all-covers names (push_new a (v, n)).0 (push_new a (v, n)).1 b m
push_all-covers (a ∷ names) v n b (inl q) = elim (push_new_cases a v n) [
  | inl (e, m) ↦
      subst (λ t. In b (push_all names t).0) (sym e)
        (push_all-keeps names v n b (subst (λ b. In b v) (sym q) m))
  | inr (e, _) ↦
      subst (λ t. In b (push_all names t).0) (sym e)
        (push_all-keeps names (a ∷ v) (n ++ (a ∷ [])) b (inl q))
]

push_all-keeps_next :
    (names v n : List String) (b : String) → In b n → In b (push_all names (v, n)).1
push_all-keeps_next [] v n b m = m
push_all-keeps_next (a ∷ names) v n b m = elim (push_new_cases a v n) [
  | inl (e, _) ↦ subst (λ t. In b (push_all names t).1) (sym e) (push_all-keeps_next names v n b m)
  | inr (e, _) ↦
      subst (λ t. In b (push_all names t).1) (sym e)
        (push_all-keeps_next names (a ∷ v) (n ++ (a ∷ [])) b (In-append_left b n (a ∷ []) m))
]

push_all-fresh :
    (names v n : List String) (b : String)
    → In b (push_all names (v, n)).0
    → In b v ⊎ In b (push_all names (v, n)).1
push_all-fresh [] v n b m = inl m
push_all-fresh (a ∷ names) v n b m = elim (push_new_cases a v n) [
  | inl (e, _) ↦
      subst (λ t. In b v ⊎ In b (push_all names t).1) (sym e)
        (push_all-fresh names v n b (subst (λ t. In b (push_all names t).0) e m))
  | inr (e, _) ↦
      let n' = n ++ (a ∷ []) in
      subst (λ t. In b v ⊎ In b (push_all names t).1) (sym e)
        (elim (push_all-fresh names (a ∷ v) n' b (subst (λ t. In b (push_all names t).0) e m)) [
          | inl (inl q) ↦
              inr (push_all-keeps_next names (a ∷ v) n' b (In-append_right b n (a ∷ []) (inl q)))
          | inl (inr k) ↦ inl k
          | inr k ↦ inr k
        ])
]

-- What joins the frontier is one of the names, and was not visited.
push_all-next :
    (names v n : List String) (b : String)
    → In b (push_all names (v, n)).1
    → In b n ⊎ (In b names × ¬ In b v)
push_all-next [] v n b m = inl m
push_all-next (a ∷ names) v n b m = elim (push_new_cases a v n) [
  | inl (e, _) ↦ elim (push_all-next names v n b (subst (λ t. In b (push_all names t).1) e m)) [
    | inl k ↦ inl k
    | inr (k, new) ↦ inr (inr k, new)
  ]
  | inr (e, new) ↦
      elim (push_all-next names (a ∷ v) (n ++ (a ∷ [])) b
        (subst (λ t. In b (push_all names t).1) e m)) [
          | inl k ↦ elim (In-append b n (a ∷ []) k) [
            | inl old ↦ inl old
            | inr (inl q) ↦
                inr (inl q, λ inside. clash (In→contains v b inside) (ap (contains v) q ∙ new))
            | inr (inr l) ↦ elim l [ ]
          ]
          | inr (k, other) ↦ inr (inr k, λ inside. other (inr inside))
        ]
]
  where
    clash : {x : Bool} → x ≡ true → x ≡ false → ⊥
    clash p q = cc

push_all-visited :
    (names v n : List String) (b : String)
    → ((a : String) → In a n → In a v)
    → In b (push_all names (v, n)).1
    → In b (push_all names (v, n)).0
push_all-visited [] v n b h m = h b m
push_all-visited (a ∷ names) v n b h m = elim (push_new_cases a v n) [
  | inl (e, _) ↦
      subst (λ t. In b (push_all names t).0) (sym e)
        (push_all-visited names v n b h (subst (λ t. In b (push_all names t).1) e m))
  | inr (e, _) ↦
      subst (λ t. In b (push_all names t).0) (sym e)
        (push_all-visited names (a ∷ v) (n ++ (a ∷ [])) b
          (λ c k. elim (In-append c n (a ∷ []) k) [
            | inl l ↦ inr (h c l)
            | inr (inl q) ↦ inl q
            | inr (inr l) ↦ elim l [ ]
          ])
          (subst (λ t. In b (push_all names t).1) e m))
]

-- The names that a hop finds are a round of the search.
abbrev pub found_names : Direction → List RawEdge → List String
found_names d = map d.found

module _ (d : Direction) (root : String) where
  pub hop-Round :
      (depth : ℕ) (visited frontier : List String) (hop hop' : Hop)
      → hop.edges ≡ []
      → hop_of d depth visited frontier hop ≡ ok hop'
      → Round
          (Adj d)
          root
          frontier
          visited
          (push_all (found_names d hop'.edges) (visited, [])).1
          (push_all (found_names d hop'.edges) (visited, [])).0
  hop-Round depth visited frontier hop hop' fresh h = record {
    covers = λ a b m adj. elim (Bool-cases (contains visited a)) [
      | inl e ↦ push_all-keeps found visited [] a (contains→In visited a e)
      | inr e ↦
          let (edge, k, q, _) = hop-finds d depth visited frontier hop hop' a b h m adj e in
          push_all-covers found visited [] a
            (subst (λ a. In a found) q (map-In d.found hop'.edges edge k))
    ];
    keeps = push_all-keeps found visited [];
    fresh = push_all-fresh found visited [];
    from_frontier = λ a m. (
      push_all-visited found visited [] a (λ c k. elim k [ ]) m,
      elim (push_all-next found visited [] a m) [ inl k ↦ elim k [ ] | inr (_, new) ↦ new ],
      elim (push_all-next found visited [] a m) [ inl k ↦ elim k [ ] | inr (k, _) ↦ parent a k ],
    );
  }
    where
      found : List String
      found = found_names d hop'.edges

      parent : (a : String) → In a found → (b : String) × In b frontier × Adj d a b
      parent a k =
          let (edge, l, q) = In-map d.found hop'.edges a k in
          elim (hop_sound d depth visited frontier hop hop' edge h l) [
            | inl old ↦ elim (subst (In edge) fresh old) [ ]
            | inr f ↦
                (d.base edge, f.on_frontier, subst (λ a. Adj d a (d.base edge)) (sym q) f.adjacent)
          ]
