-- ===== src/Sessions/Invariant/Leaving.antt =====
-- services/agent-runner/src/session: the steps of an end keep the counts.
use rustacean.Common.{
  ℕ, zero, suc, String, ◌≡◌, refl, sym, inl, inr, some, ◌∷◌, arith, Option-cases,
}
use rustacean.Sessions.Caps.{release}
use rustacean.Sessions.{
  Table, SessionManager, remove, natural_exit, terminate_session, release_removed, drop_handle,
  drop_one,
}
use rustacean.Sessions.Invariant.Counts.{remove-some, set_count-minus}
use rustacean.Sessions.Invariant.Valid.{IsValid}

module _ (owner : String → String) where
  -- A session leaves the table and is counted as before.
  IsValid-remove :
      (id tenant : String) (m : SessionManager) (rest : Table)
      → IsValid owner m
      → remove id m.sessions ≡ some (tenant, rest)
      → IsValid owner (record m { sessions = rest; removed = (id, tenant) ∷ m.removed })
  IsValid-remove id tenant m rest v e =
      let r = remove-some id tenant m.sessions rest e in
      record {
        counted = λ t. (let k = v.counted t in let c = r.counts t in omega arith);
        capped = v.capped;
        permits = (let h = v.permits in let s = r.shorter in omega arith);
        admitted_owned = v.admitted_owned;
        starting_owned = v.starting_owned;
        sessions_owned = (r.owned owner v.sessions_owned).1;
      }

  pub IsValid-terminates :
      (id : String) (m : SessionManager) → IsValid owner m → IsValid owner (terminate_session id m)
  unfolding terminate_session
  IsValid-terminates id m v = elim (Option-cases (remove id m.sessions)) [
    | inl e ↦ rw (e, terminate_session) v
    | inr ((tenant, rest), e) ↦ rw (e, terminate_session) (IsValid-remove id tenant m rest v e)
  ]

  pub IsValid-exits :
      (id : String) (m : SessionManager)
      → IsValid owner m
      → IsValid owner (natural_exit id (owner id) m)
  unfolding natural_exit
  IsValid-exits id m v = elim (Option-cases (remove id m.sessions)) [
    | inl e ↦ rw (e, natural_exit) v
    | inr ((tenant, rest), e) ↦
        let own = ((remove-some id tenant m.sessions rest e).owned owner v.sessions_owned).0 in
        rw (e, natural_exit, sym own) (IsValid-remove id tenant m rest v e)
  ]

  IsValid-release :
      (id tenant : String) (m : SessionManager) (rest : Table)
      → IsValid owner m
      → remove id m.removed ≡ some (tenant, rest)
      → IsValid owner
          (record m { caps = release tenant m.caps; removed = rest; ending = suc m.ending })
  IsValid-release id tenant m rest v e =
      let r = remove-some id tenant m.removed rest e in
      record {
        counted = λ t.
            (let h = set_count-minus tenant t m.caps in
              let k = v.counted t in let c = r.counts t in omega arith);
        capped =
            λ t. (let h = set_count-minus tenant t m.caps in let k = v.capped t in omega arith);
        permits = (let h = v.permits in let s = r.shorter in omega arith);
        admitted_owned = v.admitted_owned;
        starting_owned = v.starting_owned;
        sessions_owned = v.sessions_owned;
      }

  pub IsValid-releases :
      (id : String) (m : SessionManager) → IsValid owner m → IsValid owner (release_removed id m)
  unfolding release_removed
  IsValid-releases id m v = elim (Option-cases (remove id m.removed)) [
    | inl e ↦ rw (e, release_removed) v
    | inr ((tenant, rest), e) ↦ rw (e, release_removed) (IsValid-release id tenant m rest v e)
  ]

  pub IsValid-drops : (m : SessionManager) → IsValid owner m → IsValid owner (drop_handle m)
  unfolding drop_handle
  IsValid-drops m v = go m.ending refl
    where
      go : (n : ℕ) → m.ending ≡ n → IsValid owner (drop_one n m)
      go zero e = v
      go (suc n) e = record {
        counted = v.counted;
        capped = v.capped;
        permits = (let h = v.permits in omega arith);
        admitted_owned = v.admitted_owned;
        starting_owned = v.starting_owned;
        sessions_owned = v.sessions_owned;
      }
