-- ===== src/Cypher/Label.antt =====
-- crates/rb-storage-neo4j/src/label.rs: the Neo4j label of a tenant.
pub mod Laws
use rustacean.Common.{ℕ, List, ◌++◌, drop}
use rustacean.Common.Bytes.{codes}
use rustacean.Tenant.{TenantId, to_hex}

-- `format!("Tenant_{hex}")`, over the lower 96 bits.
unfoldable pub tenant_label : TenantId → List ℕ
tenant_label id = codes "Tenant_" ++ to_hex (drop 4 id.bytes)
