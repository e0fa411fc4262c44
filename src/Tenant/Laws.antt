-- ===== src/Tenant/Laws.antt =====
-- crates/rb-tenant/src/lib.rs: what the derived schema names guarantee.
use rustacean.Common.{
  ℕ, zero, suc, ◌*◌, ◌/◌, ◌%◌, ◌<◌, ◌≡◌, refl, ap, ◌↔◌, Bool, true, ◌&&◌, List, [], ◌∷◌, ◌++◌,
  length, drop, all, arith, length-drop, &&-true, inl, inr, Option-cases,
}
use rustacean.Common.Bytes.{strip_prefix-append, strip_prefix-some, codes, strip_prefix}
use rustacean.Common.Every.{Every}
use rustacean.Tenant.{
  TenantId, SchemaName, ok, prefix, is_hex, is_valid_schema_name, new_schema_name, hex_digit,
  to_hex, derive_schema_name, new_tenant_ctx, qualify,
}

-- A UUID has sixteen bytes.
abbrev pub IsUuid : TenantId → Type 0
IsUuid id = (length id.bytes ≡ 16) × Every (λ b. b < 256) id.bytes

pub Every-drop : (n : ℕ) (bs : List ℕ) → Every (λ b. b < 256) bs → Every (λ b. b < 256) (drop n bs)
Every-drop zero bs h = h
Every-drop (suc n) [] h = tt
Every-drop (suc n) (b ∷ bs) h = Every-drop n bs h.1

length-to_hex : (bs : List ℕ) → length (to_hex bs) ≡ 2 * length bs
unfolding to_hex
length-to_hex [] = refl
length-to_hex (b ∷ bs) = omega (arith, length-to_hex bs)

&&-intro : (a b : Bool) → a ≡ true → b ≡ true → (a && b) ≡ true
&&-intro a b h k = ground arith

byte_of_digits : (b c : ℕ) → b / 16 ≡ c / 16 → b % 16 ≡ c % 16 → b ≡ c
byte_of_digits b c h k = omega arith

hex_digit-is_hex : (d : ℕ) → d < 16 → is_hex (hex_digit d) ≡ true
hex_digit-is_hex d h = ground arith

hex_digit-injective : (c d : ℕ) → c < 16 → d < 16 → hex_digit c ≡ hex_digit d → c ≡ d
hex_digit-injective c d h k e = ground arith

pub to_hex-is_hex : (bs : List ℕ) → Every (λ b. b < 256) bs → all is_hex (to_hex bs) ≡ true
unfolding to_hex
to_hex-is_hex [] h = refl
to_hex-is_hex (b ∷ bs) h =
    &&-intro _ _ (hex_digit-is_hex (b / 16) (omega arith))
      (&&-intro _ _ (hex_digit-is_hex (b % 16) (omega arith)) (to_hex-is_hex bs h.1))

pub to_hex-injective :
    (bs cs : List ℕ)
    → Every (λ b. b < 256) bs
    → Every (λ b. b < 256) cs
    → to_hex bs ≡ to_hex cs
    → bs ≡ cs
unfolding to_hex
to_hex-injective [] [] h k e = refl
to_hex-injective [] (c ∷ cs) h k e = cc
to_hex-injective (b ∷ bs) [] h k e = cc
to_hex-injective (b ∷ bs) (c ∷ cs) h k e = ground (
  arith,
  hex_digit-injective (b / 16) (c / 16) (omega arith) (omega arith),
  hex_digit-injective (b % 16) (c % 16) (omega arith) (omega arith),
  to_hex-injective bs cs h.1 k.1,
  byte_of_digits b c,
)

all→Every : (bs : List ℕ) → all is_hex bs ≡ true → Every (λ b. is_hex b ≡ true) bs
all→Every [] h = tt
all→Every (b ∷ bs) h = let (p, q) = &&-true _ _ h in (p, all→Every bs q)

abbrev pub ValidText : List ℕ → Type 0
ValidText s =
    (suffix : List ℕ) × (s ≡ codes "tenant_" ++ suffix)
    × (length suffix ≡ 24)
    × (all is_hex suffix ≡ true)

is_valid→ValidText : (s : List ℕ) → is_valid_schema_name s ≡ true → ValidText s
unfolding is_valid_schema_name
is_valid→ValidText s h = elim (Option-cases (strip_prefix prefix s)) [
  | inl e ↦ absurd (ground arith)
  | inr (r, e) ↦ (r, strip_prefix-some prefix s r e, ground arith, ground arith)
]

ValidText→is_valid : (s : List ℕ) → ValidText s → is_valid_schema_name s ≡ true
unfolding is_valid_schema_name
ValidText→is_valid s (r, e, l, h) = rw e (ground (arith, strip_prefix-append prefix r))

-- A name is accepted exactly when it is `tenant_` with 24 lowercase hex digits behind it, and what
-- is accepted is the name itself.
pub new_schema_name_exact :
    (s : List ℕ) (n : SchemaName) → (new_schema_name s ≡ ok n) ↔ ((n.text ≡ s) × ValidText s)
unfolding new_schema_name is_valid_schema_name
new_schema_name_exact s n =
    (λ e. ground (arith, is_valid→ValidText s), λ v. ground (arith, ValidText→is_valid s v.1))

-- The name that is derived from a UUID passes the validation of `SchemaName::new`.
pub new_schema_name-derive_schema_name :
    (id : TenantId)
    → IsUuid id
    → new_schema_name (derive_schema_name id).text ≡ ok (derive_schema_name id)
unfolding new_schema_name is_valid_schema_name derive_schema_name
new_schema_name-derive_schema_name id (len, bytes) = ground (
  arith,
  strip_prefix-append prefix (to_hex (drop 4 id.bytes)),
  length-to_hex (drop 4 id.bytes),
  length-drop 4 id.bytes,
  to_hex-is_hex (drop 4 id.bytes) (Every-drop 4 id.bytes bytes),
)

pub append_cancel : (ps bs cs : List ℕ) → ps ++ bs ≡ ps ++ cs → bs ≡ cs
append_cancel [] bs cs e = e
append_cancel (p ∷ ps) bs cs e = append_cancel ps bs cs (ground arith)

-- Two tenants share a schema exactly when the last twelve bytes of their UUIDs agree.
pub derive_schema_name_eq_iff :
    (a b : TenantId)
    → IsUuid a
    → IsUuid b
    → (derive_schema_name a ≡ derive_schema_name b) ↔ (drop 4 a.bytes ≡ drop 4 b.bytes)
unfolding derive_schema_name
derive_schema_name_eq_iff a b u v = (
  λ e.
      to_hex-injective _ _ (Every-drop 4 a.bytes u.1) (Every-drop 4 b.bytes v.1)
        (append_cancel prefix _ _ (ap (λ (n : SchemaName). n.text) e)),
  λ e. ap (λ bs. record { text = prefix ++ to_hex bs }) e,
)

append_split :
    (ps bs cs ds : List ℕ) → length ps ≡ length cs → ps ++ bs ≡ cs ++ ds → (ps ≡ cs) × (bs ≡ ds)
append_split [] bs [] ds h e = (refl, e)
append_split [] bs (c ∷ cs) ds h e = absurd (omega arith)
append_split (p ∷ ps) bs [] ds h e = absurd (omega arith)
append_split (p ∷ ps) bs (c ∷ cs) ds h e = ground (arith, append_split ps bs cs ds (omega arith))

length-derive : (id : TenantId) → IsUuid id → length (derive_schema_name id).text ≡ 31
unfolding derive_schema_name
length-derive id u = omega (arith, length-to_hex (drop 4 id.bytes), length-drop 4 id.bytes)

-- A qualified table name determines the schema and the table: no table of one tenant has the
-- qualified name of a table of another schema.
pub qualify-injective :
    (a b : TenantId) (t u : List ℕ)
    → IsUuid a
    → IsUuid b
    → qualify (new_tenant_ctx a) t ≡ qualify (new_tenant_ctx b) u
    → (drop 4 a.bytes ≡ drop 4 b.bytes) × (t ≡ u)
unfolding qualify new_tenant_ctx
qualify-injective a b t u ua ub e =
    let lens = omega_eq (length-derive a ua) (length-derive b ub) in
    let p : (derive_schema_name a).text ≡ (derive_schema_name b).text =
      (append_split _ _ _ _ lens e).0 in
    let q : (b'.' ∷ t) ≡ (b'.' ∷ u) = (append_split _ _ _ _ lens e).1 in
    ((derive_schema_name_eq_iff a b ua ub).0 (ap (λ s. record { text = s }) p), cc)
  where
    omega_eq : {m n : ℕ} → m ≡ 31 → n ≡ 31 → m ≡ n
    omega_eq h k = omega arith
