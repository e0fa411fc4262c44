-- ===== src/Features/Queue.antt =====
-- crates/rb-feature-resolver/src/resolver.rs: what each loop adds to the queue.
use rustacean.Common.{
  String, ◌≡◌, refl, sym, ap, ◌∙◌, subst, ◌↔◌, ◌⊎◌, inl, inr, Bool, true, false, Option, none, some,
  List, [], ◌∷◌, ◌++◌, if◌then◌else◌,
}
use rustacean.Common.Every.{In, In-append, In-append_left, In-append_right}
use rustacean.Features.Spec.{IsSelf}
use rustacean.Features.SelfSpecs.{as_self_feature_iff}
use rustacean.Features.{push_if, push_specs, as_self_feature, push_spec}

-- The features that a loop adds to the queue.
abbrev pub Adds : (String → Type 0) → List String → List String → Type 0
Adds P pending after = (b : String) → In b after ↔ (In b pending ⊎ P b)

pub Adds-nothing :
    (P : String → Type 0) (pending : List String) → ((b : String) → ¬ P b) → Adds P pending pending
Adds-nothing P pending h b = (λ k. inl k, λ k. elim k [ inl l ↦ l | inr p ↦ absurd (h b p) ])

pub Adds-same :
    (P Q : String → Type 0) (pending after : List String)
    → ((b : String) → P b ↔ Q b)
    → Adds P pending after
    → Adds Q pending after
Adds-same P Q pending after h a b = (
  λ k. elim ((a b).0 k) [ inl l ↦ inl l | inr p ↦ inr ((h b).0 p) ],
  λ k. elim k [ inl l ↦ (a b).1 (inl l) | inr q ↦ (a b).1 (inr ((h b).1 q)) ],
)

pub Adds-then :
    (P Q : String → Type 0) (pending between after : List String)
    → Adds P pending between
    → Adds Q between after
    → Adds (λ b. P b ⊎ Q b) pending after
Adds-then P Q pending between after f g b = (
  λ k. elim ((g b).0 k) [
    | inr q ↦ inr (inr q)
    | inl l ↦ elim ((f b).0 l) [ inl o ↦ inl o | inr p ↦ inr (inl p) ]
  ],
  λ k. elim k [
    | inl l ↦ (g b).1 (inl ((f b).1 (inl l)))
    | inr (inl p) ↦ (g b).1 (inl ((f b).1 (inr p)))
    | inr (inr q) ↦ (g b).1 (inr q)
  ],
)

pub push_back-Adds :
    (name : String) (pending : List String) → Adds (λ b. b ≡ name) pending (pending ++ (name ∷ []))
push_back-Adds name pending b = (
  λ k. elim (In-append b pending (name ∷ []) k) [
    | inl l ↦ inl l
    | inr (inl q) ↦ inr q
    | inr (inr l) ↦ elim l [ ]
  ],
  λ k. elim k [
    | inl l ↦ In-append_left b pending (name ∷ []) l
    | inr q ↦ In-append_right b pending (name ∷ []) (inl q)
  ],
)

module _ (test : String → Bool) where
  -- One of the specs names the feature, and it passes the test.
  pub record Named (specs : List String) (b : String) : Type 0 where
    pub spec : String
    pub listed : In spec specs
    pub self : IsSelf spec b
    pub passes : test b ≡ true

  later : {s : String} {specs : List String} {b : String} → Named specs b → Named (s ∷ specs) b
  later n = record { spec = n.spec; listed = inr n.listed; self = n.self; passes = n.passes }

  pub push_if-In :
      (b name : String) (pending : List String)
      → In b (push_if test name pending)
      → In b pending ⊎ ((b ≡ name) × (test b ≡ true))
  push_if-In b name pending m = go (test name) refl m
    where
      go :
          (t : Bool)
          → test name ≡ t
          → In b (if t then pending ++ (name ∷ []) else pending)
          → In b pending ⊎ ((b ≡ name) × (test b ≡ true))
      go false e k = inl k
      go true e k = elim (In-append b pending (name ∷ []) k) [
        | inl old ↦ inl old
        | inr (inl q) ↦ inr (q, ap test q ∙ e)
        | inr (inr l) ↦ elim l [ ]
      ]

  pub push_if-keeps :
      (b name : String) (pending : List String) → In b pending → In b (push_if test name pending)
  push_if-keeps b name pending m = go (test name)
    where
      go : (t : Bool) → In b (if t then pending ++ (name ∷ []) else pending)
      go false = m
      go true = In-append_left b pending (name ∷ []) m

  pub push_if-adds :
      (name : String) (pending : List String)
      → test name ≡ true
      → In name (push_if test name pending)
  push_if-adds name pending e = rw e (In-append_right name pending (name ∷ []) (inl refl))

  push_specs-In :
      (b : String) (specs pending : List String)
      → In b (push_specs test specs pending)
      → In b pending ⊎ Named specs b
  unfolding push_specs
  push_specs-In b [] pending m = inl m
  push_specs-In b (s ∷ specs) pending m = go (push_specs-In b specs) (as_self_feature s) refl m
    where
      go :
          ((p : List String) → In b (push_specs test specs p) → In b p ⊎ Named specs b)
          → (o : Option String) → as_self_feature s ≡ o
          → In b (push_specs test specs (push_spec test o pending))
          → In b pending ⊎ Named (s ∷ specs) b
      go more none e k = elim (more pending k) [ inl old ↦ inl old | inr n ↦ inr (later n) ]
      go more (some name) e k = elim (more (push_if test name pending) k) [
        | inr n ↦ inr (later n)
        | inl old ↦ elim (push_if-In b name pending old) [
          | inl older ↦ inl older
          | inr (q, passes) ↦ inr (record {
            spec = s;
            listed = inl refl;
            self = (as_self_feature_iff s b).0 (e ∙ ap some (sym q));
            passes = passes;
          })
        ]
      ]

  push_specs-keeps :
      (b : String) (specs pending : List String)
      → In b pending
      → In b (push_specs test specs pending)
  unfolding push_specs
  push_specs-keeps b [] pending m = m
  push_specs-keeps b (s ∷ specs) pending m =
      push_specs-keeps b specs (push_spec test (as_self_feature s) pending) (go (as_self_feature s))
    where
      go : (o : Option String) → In b (push_spec test o pending)
      go none = m
      go (some name) = push_if-keeps b name pending m

  push_specs-adds :
      (b s : String) (specs pending : List String)
      → In s specs
      → as_self_feature s ≡ some b
      → test b ≡ true
      → In b (push_specs test specs pending)
  unfolding push_specs
  push_specs-adds b s [] pending m e p = elim m [ ]
  push_specs-adds b s (x ∷ specs) pending (inr m) e p =
      push_specs-adds b s specs (push_spec test (as_self_feature x) pending) m e p
  push_specs-adds b s (x ∷ specs) pending (inl q) e p =
      push_specs-keeps b specs (push_spec test (as_self_feature x) pending) (
        subst (λ o. In b (push_spec test o pending)) (sym (ap as_self_feature (sym q) ∙ e))
          (push_if-adds b pending p))

  -- What the loop over the specs has in the queue.
  pub push_specs_iff :
      (b : String) (specs pending : List String)
      → In b (push_specs test specs pending) ↔ (In b pending ⊎ Named specs b)
  push_specs_iff b specs pending = (
    push_specs-In b specs pending,
    λ m. elim m [
      | inl old ↦ push_specs-keeps b specs pending old
      | inr n ↦
          push_specs-adds b n.spec specs pending n.listed ((as_self_feature_iff n.spec b).1 n.self)
            n.passes
    ],
  )
