-- ===== src/Traversal/Cycles.antt =====
-- crates/rb-query/src/graph/traversal/bfs.rs: when a hop sets `cycles_detected`.
use rustacean.Common.{
  ℕ, String, ◌≡◌, refl, sym, ◌∙◌, subst, ◌↔◌, ◌⊎◌, inl, inr, true, some, List, [], ◌∷◌,
}
use rustacean.Common.Every.{In}
use rustacean.Common.Names.{contains}
use rustacean.Traversal.Types.{RawEdge, Row, ok}
use rustacean.Traversal.Hop.{Hop, by_dispatch, by_instantiation, one_hop}
use rustacean.Traversal.Hops.{Revisit, take_rows-cycle}
use rustacean.Traversal.Direction.{Direction, Lists, Adj, hop_of, one_hop-next}
use rustacean.Traversal.Rounds.{hop-cycle, hop-keeps_cycle}

-- A name of the frontier is next to a name that is visited already.
abbrev pub Meets : Direction → List String → List String → Type 0
Meets d visited frontier =
    (a : String) × (b : String) × In b frontier × Adj d a b × (contains visited a ≡ true)

module _ (d : Direction) (depth : ℕ) (visited : List String) where
  Revisit-Meets :
      (b : String) (frontier : List String) (edge : String → Row → RawEdge) (rows : List Row)
      → ((a : String) → (row : Row) × In row rows × (row.fqn ≡ some a) → Adj d a b)
      → Revisit visited edge rows
      → Meets d visited (b ∷ frontier)
  Revisit-Meets b frontier edge rows adj r =
      (r.end, b, inl refl, adj r.end (r.row, r.member, r.named), r.old)

  hop_cycles-Meets :
      (frontier : List String) (hop hop' : Hop)
      → hop_of d depth visited frontier hop ≡ ok hop'
      → hop'.cycles_detected ≡ true
      → (hop.cycles_detected ≡ true) ⊎ Meets d visited frontier
  unfolding one_hop
  hop_cycles-Meets [] hop hop' h c = inl (ok_cycles h ∙ c)
    where
      ok_cycles : {a b : Hop} → ok a ≡ ok b → a.cycles_detected ≡ b.cycles_detected
      ok_cycles q = cc
  hop_cycles-Meets (b ∷ frontier) hop hop' h c =
      let (rows, inst_rows, p, q, next) = one_hop-next d depth visited b frontier hop hop' h in
      elim (hop_cycles-Meets frontier _ hop' next c) [
        | inr (a, b', m, adj, old) ↦ inr (a, b', inr m, adj, old)
        | inl k ↦ elim (take_rows-cycle visited (d.edge depth b by_instantiation) inst_rows _ k) [
          | inr r ↦ inr (
              Revisit-Meets b frontier _ inst_rows (λ a l. inr (subst (λ r. Lists r a) (sym q) l))
                r)
          | inl k ↦ elim (take_rows-cycle visited (d.edge depth b by_dispatch) rows hop k) [
            | inr r ↦
                inr (
                  Revisit-Meets b frontier _ rows (λ a l. inl (subst (λ r. Lists r a) (sym p) l)) r)
            | inl k ↦ inl k
          ]
        ]
      ]

-- When the queries of a hop answer, then its `cycles_detected` is true afterwards exactly when it was
-- true before or some name of the frontier is next to a name that is visited already.
pub hop_cycles_detected_iff :
    (d : Direction) (depth : ℕ) (visited frontier : List String) (hop hop' : Hop)
    → hop_of d depth visited frontier hop ≡ ok hop'
    → (hop'.cycles_detected ≡ true) ↔ ((hop.cycles_detected ≡ true) ⊎ Meets d visited frontier)
hop_cycles_detected_iff d depth visited frontier hop hop' h = (
  hop_cycles-Meets d depth visited frontier hop hop' h,
  λ x. elim x [
    | inl c ↦ hop-keeps_cycle d depth visited frontier hop hop' h c
    | inr (a, b, m, adj, old) ↦ hop-cycle d depth visited frontier hop hop' a b h m adj old
  ],
)
