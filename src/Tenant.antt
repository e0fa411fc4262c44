-- ===== src/Tenant.antt =====
-- crates/rb-tenant/src/lib.rs: the tenant schema name, its validation and its derivation.
pub mod Laws
use rustacean.Common.{
  ℕ, ◌+◌, ◌/◌, ◌%◌, Bool, false, ◌&&◌, ◌||◌, Option, none, some, List, [], ◌∷◌, ◌++◌, length, drop,
  all, ltb, leb, ◌==◌, if◌then◌else◌,
}
use rustacean.Common.Bytes.{codes, is_digit, strip_prefix}

-- `TenantId` is a UUID: `as_bytes` gives its 16 bytes.
pub record TenantId : Type 0 where
  pub bytes : List ℕ

pub record SchemaName : Type 0 where
  pub text : List ℕ

-- `TenantError::InvalidSchemaName`, and the `Result` of `SchemaName::new`.
pub data Checked : Type 0 where
  ok : SchemaName → Checked
  invalid_schema_name : List ℕ → Checked

pub record TenantCtx : Type 0 where
  pub tenant_id : TenantId
  pub schema_name : SchemaName

abbrev pub prefix : List ℕ
prefix = codes "tenant_"

-- `matches!(b, b'0'..=b'9' | b'a'..=b'f')`
abbrev pub is_hex : ℕ → Bool
is_hex b = is_digit b || (leb b'a' b && leb b b'f')

abbrev suffix_ok : Option (List ℕ) → Bool
suffix_ok none = false
suffix_ok (some suffix) = length suffix == 24 && all is_hex suffix

unfoldable pub is_valid_schema_name : List ℕ → Bool
is_valid_schema_name s = suffix_ok (strip_prefix prefix s)

unfoldable pub new_schema_name : List ℕ → Checked
new_schema_name s =
    if is_valid_schema_name s then ok (record { text = s }) else invalid_schema_name s

-- One digit of `{b:02x}`.
abbrev pub hex_digit : ℕ → ℕ
hex_digit d = if ltb d 10 then b'0' + d else 87 + d

-- `write!(hex, "{b:02x}")` over the bytes.
unfoldable pub to_hex : List ℕ → List ℕ
to_hex [] = []
to_hex (b ∷ bs) = hex_digit (b / 16) ∷ hex_digit (b % 16) ∷ to_hex bs

-- `&bytes[4..]` is the lower 96 bits.
unfoldable pub derive_schema_name : TenantId → SchemaName
derive_schema_name id = record { text = prefix ++ to_hex (drop 4 id.bytes) }

unfoldable pub new_tenant_ctx : TenantId → TenantCtx
new_tenant_ctx id = record { tenant_id = id; schema_name = derive_schema_name id }

-- `format!("{}.{}", self.schema_name, table)`
unfoldable pub qualify : TenantCtx → List ℕ → List ℕ
qualify c table = c.schema_name.text ++ (b'.' ∷ table)
