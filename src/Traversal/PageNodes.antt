-- ===== src/Traversal/PageNodes.antt =====
-- crates/rb-query/src/graph/traversal/pagination.rs: the nodes of a page.
use rustacean.Common.{
  String, ◌≡◌, ◌↔◌, refl, sym, ap, ◌∙◌, subst, ◌⊎◌, inl, inr, Bool, true, false, not, ◌&&◌, List,
  [], ◌∷◌, ◌++◌, map, arith, Bool-cases,
}
use rustacean.Common.Every.{In, In-append, In-append_left, In-append_right}
use rustacean.Common.Names.{contains, contains→In, In→contains}
use rustacean.Traversal.Types.{
  TraversalNode, TraversalEdge, RawEdge, TraversalOptions, lookup, or_bare,
}
use rustacean.Traversal.Paginate.{Seen, see, see_edges, paginate}
use text.Mathlib.Text.{◌==◌}
use text.Mathlib.TextEquality.{eq_iff}

-- The name is an end of one of the edges.
abbrev pub Endpoint : String → List TraversalEdge → Type 0
Endpoint a es = (e : TraversalEdge) × In e es × ((a ≡ e.from_fqn) ⊎ (a ≡ e.to_fqn))

abbrev pub Distinct : List String → Type 0
Distinct [] = Unit
Distinct (a ∷ names) = (¬ In a names) × Distinct names

Distinct-snoc :
    (names : List String) (a : String)
    → Distinct names
    → ¬ In a names
    → Distinct (names ++ (a ∷ []))
Distinct-snoc [] a d new = (λ m. elim m [ ], tt)
Distinct-snoc (b ∷ names) a (other, d) new = (
  λ m. elim (In-append b names (a ∷ []) m) [
    | inl k ↦ other k
    | inr (inl q) ↦ new (inl (sym q))
    | inr (inr k) ↦ elim k [ ]
  ],
  Distinct-snoc names a d (λ k. new (inr k)),
)

map-append : {A B : Type 0} (f : A → B) (xs ys : List A) → map f (xs ++ ys) ≡ map f xs ++ map f ys
map-append f [] ys = refl
map-append f (x ∷ xs) ys = ap (λ zs. f x ∷ zs) (map-append f xs ys)

module _ (root : String) (node_map : List (String × TraversalNode)) where
  -- What is known of a name.
  abbrev pub node_of : String → TraversalNode
  node_of a = or_bare a (lookup node_map a)

  -- The nodes are those of distinct names, which are the names with the property but the root.
  pub record Listed (P : String → Type 0) (nodes : List TraversalNode) : Type 0 where
    pub names : List String
    pub nodes_of : nodes ≡ map node_of names
    pub distinct : Distinct names
    pub listed : (a : String) → In a names ↔ (P a × (¬ a ≡ root))

  record Tracked (P : String → Type 0) (s : Seen) : Type 0 where
    names : List String
    nodes_of : s.nodes ≡ map node_of names
    distinct : Distinct names
    listed : (a : String) → In a names ↔ (P a × (¬ a ≡ root))
    seen : (a : String) → In a s.seen_fqns ↔ In a names

  Tracked-see :
      (P : String → Type 0) (fqn : String) (s : Seen)
      → Tracked P s
      → Tracked (λ a. P a ⊎ (a ≡ fqn)) (see root node_map fqn s)
  unfolding see
  Tracked-see P fqn s t = elim (Bool-cases (not (fqn == root) && not (contains s.seen_fqns fqn))) [
    | inl h ↦
        subst (Tracked (λ a. P a ⊎ (a ≡ fqn))) (rw h)
          (added (ground (arith, h)) (ground (arith, h)))
    | inr h ↦ subst (Tracked (λ a. P a ⊎ (a ≡ fqn))) (rw h) (kept h)
  ]
    where
      added :
          (fqn == root) ≡ false
          → contains s.seen_fqns fqn ≡ false
          → Tracked
              (λ a. P a ⊎ (a ≡ fqn))
              (record { seen_fqns = fqn ∷ s.seen_fqns; nodes = s.nodes ++ (node_of fqn ∷ []) })
      added other new = record {
        names = t.names ++ (fqn ∷ []);
        nodes_of =
            ap (λ ns. ns ++ (node_of fqn ∷ [])) t.nodes_of
            ∙ sym (map-append node_of t.names (fqn ∷ []));
        distinct =
            Distinct-snoc t.names fqn t.distinct
              (λ m. clash (In→contains _ fqn ((t.seen fqn).1 m)) new);
        listed = λ a. (
          λ m. elim (In-append a t.names (fqn ∷ []) m) [
            | inl k ↦ let (p, q) = (t.listed a).0 k in (inl p, q)
            | inr (inl q) ↦ (inr q, λ r. clash ((eq_iff fqn root).1 (sym q ∙ r)) other)
            | inr (inr k) ↦ elim k [ ]
          ],
          λ (p, q). elim p [
            | inl p ↦ In-append_left a t.names (fqn ∷ []) ((t.listed a).1 (p, q))
            | inr e ↦ In-append_right a t.names (fqn ∷ []) (inl e)
          ],
        );
        seen = λ a. (
          λ m. elim m [
            | inl e ↦ In-append_right a t.names (fqn ∷ []) (inl e)
            | inr k ↦ In-append_left a t.names (fqn ∷ []) ((t.seen a).0 k)
          ],
          λ m. elim (In-append a t.names (fqn ∷ []) m) [
            | inl k ↦ inr ((t.seen a).1 k)
            | inr (inl e) ↦ inl e
            | inr (inr k) ↦ elim k [ ]
          ],
        );
      }
        where
          clash : {x : Bool} → x ≡ true → x ≡ false → ⊥
          clash p q = cc

      kept :
          (not (fqn == root) && not (contains s.seen_fqns fqn)) ≡ false
          → Tracked (λ a. P a ⊎ (a ≡ fqn)) s
      kept h = record {
        names = t.names;
        nodes_of = t.nodes_of;
        distinct = t.distinct;
        listed = λ a. (
          λ m. let (p, q) = (t.listed a).0 m in (inl p, q),
          λ (p, q). elim p [
            | inl p ↦ (t.listed a).1 (p, q)
            | inr e ↦ elim (Bool-cases (fqn == root)) [
              | inl r ↦ absurd (q (e ∙ (eq_iff fqn root).0 r))
              | inr r ↦ (t.seen a).0 (
                  subst (λ a. In a s.seen_fqns) (sym e)
                    (contains→In s.seen_fqns fqn (ground (arith, h, r))))
            ]
          ],
        );
        seen = t.seen;
      }

  Tracked-iff :
      {P Q : String → Type 0} {s : Seen} → ((a : String) → P a ↔ Q a) → Tracked P s → Tracked Q s
  Tracked-iff f t = record {
    names = t.names;
    nodes_of = t.nodes_of;
    distinct = t.distinct;
    listed = λ a. (
      λ m. let (p, q) = (t.listed a).0 m in ((f a).0 p, q),
      λ (p, q). (t.listed a).1 ((f a).1 p, q),
    );
    seen = t.seen;
  }

  Tracked-see_edges :
      (P : String → Type 0) (es : List TraversalEdge) (s : Seen)
      → Tracked P s
      → Tracked (λ a. P a ⊎ Endpoint a es) (see_edges root node_map es s)
  unfolding see_edges
  Tracked-see_edges P [] s t =
      Tracked-iff (λ a. (λ p. inl p, λ p. elim p [ inl p ↦ p | inr (e, m, _) ↦ elim m [ ] ])) t
  Tracked-see_edges P (e ∷ es) s t = Tracked-iff regroup (
      Tracked-see_edges (λ a. (P a ⊎ (a ≡ e.from_fqn)) ⊎ (a ≡ e.to_fqn)) es _
        (Tracked-see (λ a. P a ⊎ (a ≡ e.from_fqn)) e.to_fqn _ (Tracked-see P e.from_fqn s t)))
    where
      regroup :
          (a : String)
          → (((P a ⊎ (a ≡ e.from_fqn)) ⊎ (a ≡ e.to_fqn)) ⊎ Endpoint a es)
            ↔ (P a ⊎ Endpoint a (e ∷ es))
      regroup a = (
        λ x. elim x [
          | inl (inl (inl p)) ↦ inl p
          | inl (inl (inr q)) ↦ inr (e, inl refl, inl q)
          | inl (inr q) ↦ inr (e, inl refl, inr q)
          | inr (f, m, q) ↦ inr (f, inr m, q)
        ],
        λ x. elim x [
          | inl p ↦ inl (inl (inl p))
          | inr (f, inl r, inl q) ↦ inl (inl (inr (q ∙ ap (λ (e : TraversalEdge). e.from_fqn) r)))
          | inr (f, inl r, inr q) ↦ inl (inr (q ∙ ap (λ (e : TraversalEdge). e.to_fqn) r))
          | inr (f, inr m, q) ↦ inr (f, m, q)
        ],
      )

-- The nodes of a page, whatever the page: one for each name other than the root that is an end of one
-- of the page's edges, each name once, with what `node_map` holds of it or else the bare name.
pub paginate-Listed :
    (root : TraversalNode) (edges : List RawEdge) (node_map : List (String × TraversalNode))
    (opts : TraversalOptions) (cycles : Bool)
    → (let r = paginate root edges node_map opts cycles in
        Listed root.fqn node_map (λ a. Endpoint a r.edges) r.nodes)
unfolding paginate
paginate-Listed root edges node_map opts cycles =
    let r = paginate root edges node_map opts cycles in
    let t =
      Tracked-see_edges root.fqn node_map (λ a. ⊥) r.edges (record { seen_fqns = []; nodes = [] })
        (record {
          names = [];
          nodes_of = refl;
          distinct = tt;
          listed = λ a. (λ m. elim m [ ], λ (p, _). elim p [ ]);
          seen = λ a. (λ m. m, λ m. m);
        }) in
    record {
      names = t.names;
      nodes_of = t.nodes_of;
      distinct = t.distinct;
      listed = λ a. (
        λ m. let (p, q) = (t.listed a).0 m in (elim p [ inl x ↦ elim x [ ] | inr p ↦ p ], q),
        λ (p, q). (t.listed a).1 (inr p, q),
      );
    }
