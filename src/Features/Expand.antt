-- ===== src/Features/Expand.antt =====
-- crates/rb-feature-resolver/src/resolver.rs: the result of the breadth-first expansion.
use rustacean.Common.{
  ℕ, zero, suc, String, ◌≡◌, refl, sym, ◌∙◌, subst, ◌↔◌, ◌⊎◌, inl, inr, Bool, true, false, not,
  ◌&&◌, Option, none, some, List, [], ◌∷◌, arith, Bool-cases,
}
use rustacean.Common.Every.{In}
use rustacean.Common.Results.{ok, err, ok_injective, ok_not_err}
use rustacean.Features.{
  CargoManifest, get, declares, push_specs, or_none, enqueue, expand, cyclic_dependency,
}
use rustacean.Features.Spec.{Enables}
use rustacean.Common.Names.{contains, contains→In}
use rustacean.Features.Queue.{Named, push_specs_iff}

module _ (m : CargoManifest) where
  -- What a feature puts into the queue: what it enables and is not yet resolved.
  pub enqueue_iff :
      (a b : String) (resolved pending : List String)
      → In b (enqueue m resolved a pending)
        ↔ (In b pending ⊎ (Enables m a b × (contains resolved b ≡ false)))
  unfolding enqueue
  enqueue_iff a b resolved pending = go (get m.features a) refl
    where
      test : String → Bool
      test name = declares m name && not (contains resolved name)

      split : (x y : Bool) → (x && not y) ≡ true → (x ≡ true) × (y ≡ false)
      split x y h = ground arith

      join : (x y : Bool) → x ≡ true → y ≡ false → (x && not y) ≡ true
      join x y h k = ground arith

      go :
          (o : Option (List String))
          → get m.features a ≡ o
          → In b (push_specs test (or_none o) pending)
            ↔ (In b pending ⊎ (Enables m a b × (contains resolved b ≡ false)))
      go o e = (
        λ k. elim ((push_specs_iff test b (or_none o) pending).0 k) [
          | inl old ↦ inl old
          | inr n ↦
              let (known, new) = split (declares m b) (contains resolved b) n.passes in
              inr (enables o e n known, new)
        ],
        λ k. elim k [
          | inl old ↦ (push_specs_iff test b (or_none o) pending).1 (inl old)
          | inr (h, new) ↦ (push_specs_iff test b (or_none o) pending).1 (
              inr (record {
                spec = h.spec;
                listed = subst (λ o. In h.spec (or_none o)) (sym h.declared ∙ e) h.listed;
                self = h.self;
                passes = join (declares m b) (contains resolved b) h.known new;
              }))
        ],
      )
        where
          enables :
              (o : Option (List String))
              → get m.features a ≡ o
              → Named test (or_none o) b
              → declares m b ≡ true
              → Enables m a b
          enables none e n known = elim n.listed [ ]
          enables (some specs) e n known = record {
            specs = specs;
            declared = e;
            spec = n.spec;
            listed = n.listed;
            self = n.self;
            known = known;
          }

  pub expand-seen :
      (left : ℕ) (a : String) (resolved pending : List String)
      → contains resolved a ≡ true
      → expand m left resolved (a ∷ pending) ≡ expand m left resolved pending
  unfolding expand
  expand-seen zero a resolved pending e = rw (e, expand)
  expand-seen (suc left) a resolved pending e = rw (e, expand)

  pub expand-new :
      (left : ℕ) (a : String) (resolved pending : List String)
      → contains resolved a ≡ false
      → expand m (suc left) resolved (a ∷ pending)
        ≡ expand m left (a ∷ resolved) (enqueue m (a ∷ resolved) a pending)
  unfolding expand
  expand-new left a resolved pending e = rw (e, expand)

  pub expand-out :
      (a : String) (resolved pending : List String)
      → contains resolved a ≡ false
      → expand m zero resolved (a ∷ pending) ≡ err (cyclic_dependency a)
  unfolding expand
  expand-out a resolved pending e = rw (e, expand)

  -- What the features enable that are resolved is resolved or in the queue.
  abbrev Queued : List String → List String → Type 0
  Queued resolved pending =
      (a b : String) → In a resolved → Enables m a b → In b resolved ⊎ In b pending

  Queued-seen :
      (a : String) (resolved pending : List String)
      → contains resolved a ≡ true
      → Queued resolved (a ∷ pending)
      → Queued resolved pending
  Queued-seen a resolved pending e q x y k h = elim (q x y k h) [
    | inl l ↦ inl l
    | inr (inl p) ↦ inl (subst (λ z. In z resolved) (sym p) (contains→In resolved a e))
    | inr (inr l) ↦ inr l
  ]

  Queued-new :
      (a : String) (resolved pending : List String)
      → Queued resolved (a ∷ pending)
      → Queued (a ∷ resolved) (enqueue m (a ∷ resolved) a pending)
  Queued-new a resolved pending q x y (inr k) h = elim (q x y k h) [
    | inl l ↦ inl (inr l)
    | inr (inl p) ↦ inl (inl p)
    | inr (inr l) ↦ inr ((enqueue_iff a y (a ∷ resolved) pending).1 (inl l))
  ]
  Queued-new a resolved pending q x y (inl p) h = elim (Bool-cases (contains (a ∷ resolved) y)) [
    | inl e ↦ inl (contains→In (a ∷ resolved) y e)
    | inr e ↦
        inr ((enqueue_iff a y (a ∷ resolved) pending).1 (inr (subst (λ x. Enables m x y) p h, e)))
  ]

  -- The result has what was resolved and what was in the queue, and what that enables.
  pub record Closed (resolved pending r : List String) : Type 0 where
    pub keeps : (a : String) → In a resolved → In a r
    pub takes : (a : String) → In a pending → In a r
    pub follows : (a b : String) → In a r → Enables m a b → In b r

  Closed-seen :
      (a : String) (resolved pending r : List String)
      → contains resolved a ≡ true
      → Closed resolved pending r
      → Closed resolved (a ∷ pending) r
  Closed-seen a resolved pending r e c = record {
    keeps = c.keeps;
    takes = λ x k. elim k [
      | inl p ↦ subst (λ z. In z r) (sym p) (c.keeps a (contains→In resolved a e))
      | inr l ↦ c.takes x l
    ];
    follows = c.follows;
  }

  Closed-new :
      (a : String) (resolved pending r : List String)
      → Closed (a ∷ resolved) (enqueue m (a ∷ resolved) a pending) r
      → Closed resolved (a ∷ pending) r
  Closed-new a resolved pending r c = record {
    keeps = λ x k. c.keeps x (inr k);
    takes = λ x k. elim k [
      | inl p ↦ c.keeps x (inl p)
      | inr l ↦ c.takes x ((enqueue_iff a x (a ∷ resolved) pending).1 (inl l))
    ];
    follows = c.follows;
  }

  pub expand-Closed :
      (left : ℕ) (resolved pending r : List String)
      → Queued resolved pending
      → expand m left resolved pending ≡ ok r
      → Closed resolved pending r
  unfolding expand
  expand-Closed left resolved [] r q h = record {
    keeps = λ a k. subst (In a) (ok_injective h) k;
    takes = λ a k. elim k [ ];
    follows = λ a b k e. elim (q a b (subst (In a) (sym (ok_injective h)) k) e) [
      | inl l ↦ subst (In b) (ok_injective h) l
      | inr l ↦ elim l [ ]
    ];
  }
  expand-Closed zero resolved (a ∷ pending) r q h = elim (Bool-cases (contains resolved a)) [
    | inl e ↦ Closed-seen a resolved pending r e (
        expand-Closed zero resolved pending r (Queued-seen a resolved pending e q)
          (sym (expand-seen zero a resolved pending e) ∙ h))
    | inr e ↦ absurd (ok_not_err (sym h ∙ expand-out a resolved pending e))
  ]
  expand-Closed (suc left) resolved (a ∷ pending) r q h = elim (Bool-cases (contains resolved a)) [
    | inl e ↦ Closed-seen a resolved pending r e (
        expand-Closed (suc left) resolved pending r (Queued-seen a resolved pending e q)
          (sym (expand-seen (suc left) a resolved pending e) ∙ h))
    | inr e ↦ Closed-new a resolved pending r (
        expand-Closed left (a ∷ resolved) (enqueue m (a ∷ resolved) a pending) r
          (Queued-new a resolved pending q) (sym (expand-new left a resolved pending e) ∙ h))
  ]

  -- What holds of the queue and follows the specs holds of the result.
  pub expand-follows :
      (P : String → Type 0) (left : ℕ) (resolved pending r : List String)
      → ((a b : String) → P a → Enables m a b → P b)
      → ((a : String) → In a resolved → P a)
      → ((a : String) → In a pending → P a)
      → expand m left resolved pending ≡ ok r
      → (a : String) → In a r
      → P a
  unfolding expand
  expand-follows P left resolved [] r f hr hp h a k = hr a (subst (In a) (sym (ok_injective h)) k)
  expand-follows P zero resolved (x ∷ pending) r f hr hp h a k =
      elim (Bool-cases (contains resolved x)) [
        | inl e ↦
            expand-follows P zero resolved pending r f hr (λ z l. hp z (inr l))
              (sym (expand-seen zero x resolved pending e) ∙ h) a k
        | inr e ↦ absurd (ok_not_err (sym h ∙ expand-out x resolved pending e))
      ]
  expand-follows P (suc left) resolved (x ∷ pending) r f hr hp h a k =
      elim (Bool-cases (contains resolved x)) [
        | inl e ↦
            expand-follows P (suc left) resolved pending r f hr (λ z l. hp z (inr l))
              (sym (expand-seen (suc left) x resolved pending e) ∙ h) a k
        | inr e ↦
            expand-follows P left (x ∷ resolved) (enqueue m (x ∷ resolved) x pending) r f
              (λ z l. elim l [ inl p ↦ subst P (sym p) (hp x (inl refl)) | inr o ↦ hr z o ])
              (λ z l. elim ((enqueue_iff x z (x ∷ resolved) pending).0 l) [
                | inl o ↦ hp z (inr o)
                | inr (n, _) ↦ f x z (hp x (inl refl)) n
              ])
              (sym (expand-new left x resolved pending e) ∙ h) a k
      ]
