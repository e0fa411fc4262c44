-- ===== src/Sessions/Invariant/Valid.antt =====
-- services/agent-runner/src/session: the well-formed states.
use rustacean.Common.{◌+◌, ◌≤◌, String, ◌≡◌, length}
use rustacean.Sessions.Caps.{max_sessions_per_tenant, max_sessions_per_node}
use rustacean.Sessions.{SessionManager}
use rustacean.Sessions.Invariant.Counts.{count_of, IsOwned}

-- Each tenant's count is the number of its starts, of its sessions, of its handles on their way out
-- and of its replaced handles, and at most the tenant's cap; each permit is left, or held by one of
-- those that hold one.
pub record IsValid (owner : String → String) (m : SessionManager) : Type 0 where
  pub counted :
      (t : String)
      → m.caps.tenant_counts t
        ≡ count_of t m.starting
          + count_of t m.sessions
          + count_of t m.removed
          + count_of t m.replaced
  pub capped : (t : String) → m.caps.tenant_counts t ≤ max_sessions_per_tenant
  pub permits :
      m.caps.permits
        + (length m.admitted + length m.starting + length m.sessions + length m.removed + m.ending)
      ≡ max_sessions_per_node
  pub admitted_owned : IsOwned owner m.admitted
  pub starting_owned : IsOwned owner m.starting
  pub sessions_owned : IsOwned owner m.sessions
