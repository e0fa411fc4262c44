-- ===== src/Sessions/Races.antt =====
-- services/agent-runner/src/session: a start under an id that is in the table.
use rustacean.Common.{
  ℕ, suc, ◌+◌, String, ◌≡◌, refl, sym, ap, ◌∙◌, false, some, ◌∷◌, length, leb, arith,
}
use rustacean.Sessions.{Table, max_tracked_sessions, SessionManager, remove, commit, insert}
use rustacean.Sessions.Invariant.Counts.{count_of, one_if, remove-some}
use text.Mathlib.Text.{◌==◌}
use text.Mathlib.TextEquality.{eq_iff}

module _ (id tenant : String) (m : SessionManager) (rest : Table)
    (starting : remove id m.starting ≡ some (tenant, rest))
    (room : leb max_tracked_sessions (length m.sessions) ≡ false) where
  commit-known :
      (old : String) (others : Table)
      → remove id m.sessions ≡ some (old, others)
      → commit id m ≡ record m {
        starting = rest;
        sessions = (id, tenant) ∷ others;
        ending = suc m.ending;
        replaced = (id, old) ∷ m.replaced;
      }
  unfolding commit
  commit-known old others known = rw (starting, room, insert, known, commit)

-- When a start commits an id that is in the table for the same tenant, then the count of the tenant,
-- which was right, is one more than its starts and sessions afterwards.
pub commit-duplicate :
    (id tenant : String) (m : SessionManager) (rest others : Table)
    → remove id m.starting ≡ some (tenant, rest)
    → leb max_tracked_sessions (length m.sessions) ≡ false
    → remove id m.sessions ≡ some (tenant, others)
    → m.caps.tenant_counts tenant ≡ count_of tenant m.starting + count_of tenant m.sessions
    → (let after = commit id m in
        after.caps.tenant_counts tenant
        ≡ suc (count_of tenant after.starting + count_of tenant after.sessions))
commit-duplicate id tenant m rest others starting room known counted =
    let r = (remove-some id tenant m.starting rest starting).counts tenant in
    let s = (remove-some id tenant m.sessions others known).counts tenant in
    let one : one_if (tenant == tenant) ≡ 1 = rw ((eq_iff tenant tenant).1 refl) in
    let done = commit-known id tenant m rest starting room tenant others known in
    ap (λ (m : SessionManager). m.caps.tenant_counts tenant) done
    ∙ count m.caps.tenant_counts r s one counted
    ∙ sym (
        ap (λ (m : SessionManager). suc (count_of tenant m.starting + count_of tenant m.sessions))
          done)
  where
    count :
        (counts : String → ℕ)
        → count_of tenant m.starting ≡ one_if (tenant == tenant) + count_of tenant rest
        → count_of tenant m.sessions ≡ one_if (tenant == tenant) + count_of tenant others
        → one_if (tenant == tenant) ≡ 1
        → counts tenant ≡ count_of tenant m.starting + count_of tenant m.sessions
        → counts tenant ≡ suc (count_of tenant rest + count_of tenant ((id, tenant) ∷ others))
    count counts r s one c = omega arith
