-- ===== src/Tests/Tenants.antt =====
-- crates/rb-tenant and crates/rb-storage-neo4j/src/label.rs: runs on two tenants.
use rustacean.Common.{ℕ, ◌≡◌, refl, ◌↔◌, true, List, [], ◌∷◌, drop, all, arith}
use rustacean.Common.Bytes.{codes}
use rustacean.Tenant.{
  TenantId, ok, to_hex, derive_schema_name, new_schema_name, new_tenant_ctx, qualify,
}
use rustacean.Tenant.Laws.{IsUuid, new_schema_name-derive_schema_name, qualify-injective}
use rustacean.Cypher.Scan.{is_ident_char}
use rustacean.Cypher.Label.{tenant_label}
use rustacean.Cypher.Label.Laws.{tenant_label-is_ident_char, tenant_label_eq_iff}

-- Two UUIDs that differ in the time field only.
abbrev first_id : TenantId
first_id = record {
  bytes = 1 ∷ 2 ∷ 3 ∷ 4 ∷ 171 ∷ 205 ∷ 6 ∷ 7 ∷ 8 ∷ 9 ∷ 10 ∷ 11 ∷ 12 ∷ 13 ∷ 14 ∷ 255 ∷ [];
}

abbrev second_id : TenantId
second_id = record {
  bytes = 9 ∷ 9 ∷ 9 ∷ 9 ∷ 171 ∷ 205 ∷ 6 ∷ 7 ∷ 8 ∷ 9 ∷ 10 ∷ 11 ∷ 12 ∷ 13 ∷ 14 ∷ 255 ∷ [];
}

first_id-IsUuid : IsUuid first_id
first_id-IsUuid = ground arith

derive_schema_name_first :
    (derive_schema_name first_id).text ≡ codes "tenant_abcd060708090a0b0c0d0eff"
unfolding derive_schema_name to_hex
derive_schema_name_first = refl

second_id-IsUuid : IsUuid second_id
second_id-IsUuid = ground arith

accepted : List ℕ
accepted = codes "tenant_abcd060708090a0b0c0d0eff"

new_schema_name-derive_schema_name_example :
    new_schema_name (derive_schema_name first_id).text ≡ ok (derive_schema_name first_id)
new_schema_name-derive_schema_name_example =
    new_schema_name-derive_schema_name first_id first_id-IsUuid

same_table :
    qualify (new_tenant_ctx first_id) (codes "items")
    ≡ qualify (new_tenant_ctx second_id) (codes "items")
unfolding qualify new_tenant_ctx derive_schema_name
same_table = refl

qualify-injective_example :
    (drop 4 first_id.bytes ≡ drop 4 second_id.bytes) × (codes "items" ≡ codes "items")
qualify-injective_example =
    qualify-injective first_id second_id (codes "items") (codes "items") first_id-IsUuid
      second_id-IsUuid same_table

tenant_label-is_ident_char_example : all is_ident_char (tenant_label first_id) ≡ true
tenant_label-is_ident_char_example = tenant_label-is_ident_char first_id first_id-IsUuid

tenant_label_eq_iff_example :
    (tenant_label first_id ≡ tenant_label second_id)
    ↔ (derive_schema_name first_id ≡ derive_schema_name second_id)
tenant_label_eq_iff_example =
    tenant_label_eq_iff first_id second_id first_id-IsUuid second_id-IsUuid
