-- ===== src/Cypher/Label/Laws.antt =====
-- crates/rb-storage-neo4j/src/label.rs: the label is safe to put into a query, and names one schema.
use rustacean.Common.{ℕ, ◌≡◌, refl, ap, ◌↔◌, true, List, [], ◌∷◌, ◌++◌, drop, all, arith}
use rustacean.Common.Bytes.{codes}
use rustacean.Tenant.{TenantId, SchemaName, is_hex, to_hex, derive_schema_name, prefix}
use rustacean.Tenant.Laws.{IsUuid, Every-drop, to_hex-is_hex, append_cancel}
use rustacean.Cypher.Scan.{is_ident_char}
use rustacean.Cypher.Label.{tenant_label}

is_hex-is_ident_char : (b : ℕ) → is_hex b ≡ true → is_ident_char b ≡ true
is_hex-is_ident_char b h = ground arith

all-is_ident_char : (bs : List ℕ) → all is_hex bs ≡ true → all is_ident_char bs ≡ true
all-is_ident_char [] h = refl
all-is_ident_char (b ∷ bs) h = ground (arith, is_hex-is_ident_char b, all-is_ident_char bs)

-- The label is made of identifier characters only, so it cannot close the pattern that it stands in.
pub tenant_label-is_ident_char :
    (id : TenantId) → IsUuid id → all is_ident_char (tenant_label id) ≡ true
unfolding tenant_label
tenant_label-is_ident_char id u =
    all-is_ident_char (to_hex (drop 4 id.bytes))
      (to_hex-is_hex (drop 4 id.bytes) (Every-drop 4 id.bytes u.1))

-- Two tenants have the same Neo4j label exactly when they have the same Postgres schema.
pub tenant_label_eq_iff :
    (a b : TenantId)
    → IsUuid a
    → IsUuid b
    → (tenant_label a ≡ tenant_label b) ↔ (derive_schema_name a ≡ derive_schema_name b)
unfolding tenant_label derive_schema_name
tenant_label_eq_iff a b u v = (
  λ e. ap (λ hex. record { text = prefix ++ hex }) (append_cancel (codes "Tenant_") _ _ e),
  λ e.
      ap (λ hex. codes "Tenant_" ++ hex)
        (append_cancel prefix _ _ (ap (λ (n : SchemaName). n.text) e)),
)
