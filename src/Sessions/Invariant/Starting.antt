-- ===== src/Sessions/Invariant/Starting.antt =====
-- services/agent-runner/src/session: the steps of a start keep the counts.
use rustacean.Common.{
  ℕ, zero, suc, ◌+◌, String, ◌≡◌, refl, inl, inr, false, some, ◌∷◌, length, leb, arith, Bool-cases,
  Option-cases,
}
use rustacean.Sessions.Caps.{permit_of, max_sessions_per_tenant, set_count}
use rustacean.Sessions.{
  Table, max_tracked_sessions, SessionManager, new_manager, remove, start_session, count_start,
  abandon, commit, roll_back, admit, insert,
}
use rustacean.Sessions.Invariant.Counts.{remove-some, set_count-plus, set_count-minus}
use text.Mathlib.Text.{◌==◌}
use rustacean.Sessions.Invariant.Valid.{IsValid}

module _ (owner : String → String) where
  pub IsValid-new : IsValid owner new_manager
  IsValid-new = record {
    counted = λ t. refl;
    capped = λ t. omega arith;
    permits = omega arith;
    admitted_owned = tt;
    starting_owned = tt;
    sessions_owned = tt;
  }

  pub IsValid-starts :
      (id : String) (m : SessionManager)
      → IsValid owner m
      → IsValid owner (start_session id (owner id) m)
  unfolding start_session
  IsValid-starts id m v = go m.caps.permits refl
    where
      go : (n : ℕ) → m.caps.permits ≡ n → IsValid owner (admit id (owner id) m (permit_of n m.caps))
      go zero p = v
      go (suc left) p = record {
        counted = v.counted;
        capped = v.capped;
        permits = (let h = v.permits in omega arith);
        admitted_owned = (refl, v.admitted_owned);
        starting_owned = v.starting_owned;
        sessions_owned = v.sessions_owned;
      }

  -- The tenant has room: the count goes up with the entry.
  IsValid-room :
      (id tenant : String) (m : SessionManager) (rest : Table)
      → IsValid owner m
      → remove id m.admitted ≡ some (tenant, rest)
      → leb max_sessions_per_tenant (m.caps.tenant_counts tenant) ≡ false
      → IsValid owner (record m {
        caps = set_count tenant (m.caps.tenant_counts tenant + 1) m.caps;
        admitted = rest;
        starting = (id, tenant) ∷ m.starting;
      })
  IsValid-room id tenant m rest v e room =
      let r = remove-some id tenant m.admitted rest e in
      let own = r.owned owner v.admitted_owned in
      record {
        counted =
            λ t. (let h = set_count-plus tenant t m.caps in let k = v.counted t in omega arith);
        capped = λ t. elim (Bool-cases (t == tenant)) [
          | inl q ↦ rw q (ground arith)
          | inr q ↦ rw q (v.capped t)
        ];
        permits = (let h = v.permits in let s = r.shorter in omega arith);
        admitted_owned = own.1;
        starting_owned = (own.0, v.starting_owned);
        sessions_owned = v.sessions_owned;
      }

  IsValid-full :
      (id tenant : String) (m : SessionManager) (rest : Table)
      → IsValid owner m
      → remove id m.admitted ≡ some (tenant, rest)
      → IsValid owner (record m { admitted = rest; ending = suc m.ending })
  IsValid-full id tenant m rest v e =
      let r = remove-some id tenant m.admitted rest e in
      record {
        counted = v.counted;
        capped = v.capped;
        permits = (let h = v.permits in let s = r.shorter in omega arith);
        admitted_owned = (r.owned owner v.admitted_owned).1;
        starting_owned = v.starting_owned;
        sessions_owned = v.sessions_owned;
      }

  pub IsValid-counts :
      (id : String) (m : SessionManager) → IsValid owner m → IsValid owner (count_start id m)
  unfolding count_start
  IsValid-counts id m v = elim (Option-cases (remove id m.admitted)) [
    | inl e ↦ rw (e, count_start) v
    | inr ((tenant, rest), e) ↦
        elim (Bool-cases (leb max_sessions_per_tenant (m.caps.tenant_counts tenant))) [
          | inl full ↦ rw (e, count_start, full) (IsValid-full id tenant m rest v e)
          | inr room ↦ rw (e, count_start, room) (IsValid-room id tenant m rest v e room)
        ]
  ]

  IsValid-roll_back :
      (id tenant : String) (m : SessionManager) (rest : Table)
      → IsValid owner m
      → remove id m.starting ≡ some (tenant, rest)
      → IsValid owner (roll_back tenant rest m)
  IsValid-roll_back id tenant m rest v e =
      let r = remove-some id tenant m.starting rest e in
      record {
        counted = λ t.
            (let h = set_count-minus tenant t m.caps in
              let k = v.counted t in let c = r.counts t in omega arith);
        capped =
            λ t. (let h = set_count-minus tenant t m.caps in let k = v.capped t in omega arith);
        permits = (let h = v.permits in let s = r.shorter in omega arith);
        admitted_owned = v.admitted_owned;
        starting_owned = (r.owned owner v.starting_owned).1;
        sessions_owned = v.sessions_owned;
      }

  pub IsValid-fails :
      (id : String) (m : SessionManager) → IsValid owner m → IsValid owner (abandon id m)
  unfolding abandon
  IsValid-fails id m v = elim (Option-cases (remove id m.starting)) [
    | inl e ↦ rw (e, abandon) v
    | inr ((tenant, rest), e) ↦ rw (e, abandon) (IsValid-roll_back id tenant m rest v e)
  ]

  IsValid-insert :
      (id tenant : String) (m : SessionManager) (rest : Table)
      → IsValid owner m
      → remove id m.starting ≡ some (tenant, rest)
      → IsValid owner (insert id tenant rest m)
  IsValid-insert id tenant m rest v e =
      let r = remove-some id tenant m.starting rest e in
      let own = r.owned owner v.starting_owned in
      elim (Option-cases (remove id m.sessions)) [
        | inl n ↦
            rw (n, insert)
              (record {
                counted = λ t. (let k = v.counted t in let c = r.counts t in omega arith);
                capped = v.capped;
                permits = (let h = v.permits in let s = r.shorter in omega arith);
                admitted_owned = v.admitted_owned;
                starting_owned = own.1;
                sessions_owned = (own.0, v.sessions_owned);
              })
        | inr ((old, others), n) ↦
            let o = remove-some id old m.sessions others n in
            rw (n, insert)
              (record {
                counted = λ t.
                    (let k = v.counted t in
                      let c = r.counts t in let d = o.counts t in omega arith);
                capped = v.capped;
                permits =
                    (let h = v.permits in let s = r.shorter in let u = o.shorter in omega arith);
                admitted_owned = v.admitted_owned;
                starting_owned = own.1;
                sessions_owned = (own.0, (o.owned owner v.sessions_owned).1);
              })
      ]

  pub IsValid-commits :
      (id : String) (m : SessionManager) → IsValid owner m → IsValid owner (commit id m)
  unfolding commit
  IsValid-commits id m v = elim (Option-cases (remove id m.starting)) [
    | inl e ↦ rw (e, commit) v
    | inr ((tenant, rest), e) ↦ elim (Bool-cases (leb max_tracked_sessions (length m.sessions))) [
      | inl full ↦ rw (e, full, commit) (IsValid-roll_back id tenant m rest v e)
      | inr room ↦ rw (e, room, commit) (IsValid-insert id tenant m rest v e)
    ]
  ]
