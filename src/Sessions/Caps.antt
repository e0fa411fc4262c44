-- ===== src/Sessions/Caps.antt =====
-- services/agent-runner/src/session/caps.rs: permits of the node and counts of the tenants.
use rustacean.Common.{ℕ, zero, suc, ◌+◌, ◌-◌, String, Option, none, some, leb, if◌then◌else◌}
use text.Mathlib.Text.{◌==◌}

-- `MAX_SESSIONS_PER_TENANT`, `MAX_SESSIONS_PER_NODE`
abbrev pub max_sessions_per_tenant : ℕ
max_sessions_per_tenant = 20

abbrev pub max_sessions_per_node : ℕ
max_sessions_per_node = 200

-- `permits` are those that the semaphore has left.
pub record SessionCaps : Type 0 where
  pub tenant_counts : String → ℕ
  pub permits : ℕ

abbrev pub new_caps : SessionCaps
new_caps = record { tenant_counts = λ tenant. 0; permits = max_sessions_per_node }

abbrev pub set_count : String → ℕ → SessionCaps → SessionCaps
set_count tenant n caps = record caps {
  tenant_counts = λ other. if other == tenant then n else caps.tenant_counts other;
}

-- `try_acquire_owned`
abbrev pub permit_of : ℕ → SessionCaps → Option SessionCaps
permit_of zero caps = none
permit_of (suc left) caps = some (record caps { permits = left })

abbrev pub take_permit : SessionCaps → Option SessionCaps
take_permit caps = permit_of caps.permits caps

-- The part of `acquire` under the lock of the counts; `none` is the error at the tenant's limit.
abbrev pub count_tenant : String → SessionCaps → Option SessionCaps
count_tenant tenant caps =
    if leb max_sessions_per_tenant (caps.tenant_counts tenant)
    then none
    else some (set_count tenant (caps.tenant_counts tenant + 1) caps)

-- `saturating_sub(1)`
abbrev pub release : String → SessionCaps → SessionCaps
release tenant caps = set_count tenant (caps.tenant_counts tenant - 1) caps

abbrev pub drop_permit : SessionCaps → SessionCaps
drop_permit caps = record caps { permits = caps.permits + 1 }
