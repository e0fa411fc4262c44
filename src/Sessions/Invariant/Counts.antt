-- ===== src/Sessions/Invariant/Counts.antt =====
-- services/agent-runner/src/session: counting the entries of a table by tenant.
use rustacean.Common.{
  ℕ, suc, ◌+◌, ◌-◌, String, ◌≡◌, refl, sym, ap, ◌∙◌, subst, inl, inr, Bool, true, false, none, some,
  [], ◌∷◌, length, arith, Bool-cases, Option-cases,
}
use rustacean.Common.Every.{Every}
use rustacean.Sessions.Caps.{SessionCaps, set_count}
use rustacean.Sessions.{Table, remove}
use text.Mathlib.Text.{◌==◌}
use text.Mathlib.TextEquality.{eq_iff}

abbrev pub one_if : Bool → ℕ
one_if true = 1
one_if false = 0

abbrev pub count_of : String → Table → ℕ
count_of t [] = 0
count_of t ((id, tenant) ∷ entries) = one_if (t == tenant) + count_of t entries

-- Each entry has the tenant that its id belongs to.
abbrev pub IsOwned : (String → String) → Table → Type 0
IsOwned owner = Every (λ (e : String × String). e.1 ≡ owner e.0)

-- The table without one entry.
pub record Removed (id tenant : String) (entries rest : Table) : Type 0 where
  pub counts : (t : String) → count_of t entries ≡ one_if (t == tenant) + count_of t rest
  pub shorter : length entries ≡ suc (length rest)
  pub owned :
      (owner : String → String) → IsOwned owner entries → (tenant ≡ owner id) × IsOwned owner rest

Removed-cons :
    {id tenant : String} {entries rest : Table} (e : String × String)
    → Removed id tenant entries rest
    → Removed id tenant (e ∷ entries) (e ∷ rest)
Removed-cons e r = record {
  counts = λ t. (let h = r.counts t in omega arith);
  shorter = ap suc r.shorter;
  owned = λ owner h. (let (p, q) = r.owned owner h.1 in (p, (h.0, q)));
}

pub remove-some :
    (id tenant : String) (entries rest : Table)
    → remove id entries ≡ some (tenant, rest)
    → Removed id tenant entries rest
unfolding remove
remove-some id tenant [] rest h = cc
remove-some id tenant ((other, owner) ∷ entries) rest h = elim (Bool-cases (id == other)) [
  | inl q ↦
      let same : some (owner, entries) ≡ some (tenant, rest) = rw q at h in
      subst (λ (x : String × Table). Removed id x.0 ((other, owner) ∷ entries) x.1)
        (some_injective same)
        (record {
          counts = λ t. refl;
          shorter = refl;
          owned = λ own k. (k.0 ∙ ap own (sym ((eq_iff id other).0 q)), k.1);
        })
  | inr q ↦ elim (Option-cases (remove id entries)) [
    | inl e ↦ let gone : none ≡ some (tenant, rest) = rw (q, e) at h in cc
    | inr ((found, others), e) ↦
        let same : some (found, (other, owner) ∷ others) ≡ some (tenant, rest) = rw (q, e) at h in
        subst (λ (x : String × Table). Removed id x.0 ((other, owner) ∷ entries) x.1)
          (some_injective same)
          (Removed-cons (other, owner) (remove-some id found entries others e))
  ]
]
  where
    some_injective : {x y : String × Table} → some x ≡ some y → x ≡ y
    some_injective e = cc

-- A count that is set to what it was and a bit more or less, for every tenant.
pub set_count-plus :
    (tenant t : String) (caps : SessionCaps)
    → (set_count tenant (caps.tenant_counts tenant + 1) caps).tenant_counts t
      ≡ caps.tenant_counts t + one_if (t == tenant)
set_count-plus tenant t caps = elim (Bool-cases (t == tenant)) [
  | inl q ↦ rw q (ap (λ s. caps.tenant_counts s + 1) (sym ((eq_iff t tenant).0 q)))
  | inr q ↦ rw q (omega arith)
]

pub set_count-minus :
    (tenant t : String) (caps : SessionCaps)
    → (set_count tenant (caps.tenant_counts tenant - 1) caps).tenant_counts t
      ≡ caps.tenant_counts t - one_if (t == tenant)
set_count-minus tenant t caps = elim (Bool-cases (t == tenant)) [
  | inl q ↦ rw q (ap (λ s. caps.tenant_counts s - 1) (sym ((eq_iff t tenant).0 q)))
  | inr q ↦ rw q (omega arith)
]
