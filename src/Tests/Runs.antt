-- ===== src/Tests/Runs.antt =====
-- services/agent-runner/src/session: runs with one session.
use rustacean.Common.{suc, ◌+◌, String, ◌≡◌, refl, some, [], ◌∷◌}
use rustacean.Sessions.{
  SessionManager, new_manager, remove, start_session, count_start, commit, natural_exit,
}
use rustacean.Sessions.Steps.{starts, counts, commits, exits, Reachable, initially, then_by}
use rustacean.Sessions.Invariant.Valid.{IsValid}
use rustacean.Sessions.Invariant.{Reachable-IsValid}
use rustacean.Sessions.Invariant.Counts.{count_of}
use rustacean.Sessions.Races.{commit-duplicate}

abbrev acme : String → String
acme id = "acme"

abbrev started : SessionManager → SessionManager
started m = commit "s" (count_start "s" (start_session "s" "acme" m))

-- The session is started twice before its process exits.
abbrev exited : SessionManager
exited = natural_exit "s" "acme" (started (started new_manager))

exited-Reachable : Reachable acme exited
exited-Reachable = then_by (start (start initially)) (exits "s")
  where
    start : {m : SessionManager} → Reachable acme m → Reachable acme (started m)
    start r = then_by (then_by (then_by r (starts "s")) (counts "s")) (commits "s")

Reachable-IsValid_example : IsValid acme exited
Reachable-IsValid_example = Reachable-IsValid acme exited exited-Reachable

abbrev twice : SessionManager
twice = record {
  caps = record { tenant_counts = λ tenant. 2; permits = 198 };
  admitted = [];
  starting = ("s", "acme") ∷ [];
  sessions = ("s", "acme") ∷ [];
  removed = [];
  ending = 0;
  replaced = [];
}

found_starting : remove "s" twice.starting ≡ some ("acme", [])
unfolding remove
found_starting = refl

found_session : remove "s" twice.sessions ≡ some ("acme", [])
unfolding remove
found_session = refl

commit-duplicate_example :
    (let after = commit "s" twice in
      after.caps.tenant_counts "acme"
      ≡ suc (count_of "acme" after.starting + count_of "acme" after.sessions))
commit-duplicate_example =
    commit-duplicate "s" "acme" twice [] [] found_starting refl found_session refl
