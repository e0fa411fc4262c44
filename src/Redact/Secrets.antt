-- ===== src/Redact/Secrets.antt =====
-- crates/rb-secrets/src/redact.rs: the API keys and the names of the secrets are gone.
use rustacean.Common.{
  ℕ, ◌≡◌, refl, inl, inr, Bool, true, false, not, ◌&&◌, Option, List, [], ◌∷◌, map, Bool-cases,
  true_not_false, ||-false, if◌then◌else◌,
}
use rustacean.Common.Bytes.{codes, starts_with, has_substring, to_lower}
use rustacean.Common.Every.{Every, In, In-Every}
use rustacean.Redact.{
  redacted_secret, scan, replace_cut, replace, secret_names, needs_scan, holds_token, key_cut,
  replace_name, replace_names, apply_prefix_pattern, decoded, redact_with_token, hex_nibble,
  apply_live_token, apply_jwt_pattern, apply_bearer_pattern,
}
use rustacean.Redact.Cuts.{Apart, Cut-has_substring}
use rustacean.Redact.Decoding.{Literal, has_substring-decoded}
use rustacean.Redact.Writes.{Writes-Cut, Writes-has_substring, key_cut-Writes, replace_cut-Writes}

-- What the scans cannot bring into a line, and decoding does not hide.
record Needle (t : List ℕ) : Type 0 where
  apart : Apart redacted_secret t
  nonempty : starts_with t [] ≡ false
  literal : Literal t

-- The strings that no output holds: how an API key begins, and the names of the secrets.
abbrev pub secrets : List (List ℕ)
secrets = codes "rb_live_" ∷ secret_names

secrets-Needle : Every Needle secrets
unfolding hex_nibble
secrets-Needle = (
  record {
    apart = record {
      first = b'<';
      rest = codes "redacted:secret>";
      splits = refl;
      absent = refl;
      passes = λ u. refl;
    };
    nonempty = refl;
    literal = record {
      first = b'r';
      rest = codes "b_live_";
      splits = refl;
      not_hex = refl;
      no_percent = refl;
    };
  },
  (
    record {
      apart = record {
        first = b'<';
        rest = codes "redacted:secret>";
        splits = refl;
        absent = refl;
        passes = λ u. refl;
      };
      nonempty = refl;
      literal = record {
        first = b'R';
        rest = codes "B_MCP_JWT_SECRET";
        splits = refl;
        not_hex = refl;
        no_percent = refl;
      };
    },
    (
      record {
        apart = record {
          first = b'<';
          rest = codes "redacted:secret>";
          splits = refl;
          absent = refl;
          passes = λ u. refl;
        };
        nonempty = refl;
        literal = record {
          first = b'R';
          rest = codes "B_AGENT_API_KEY";
          splits = refl;
          not_hex = refl;
          no_percent = refl;
        };
      },
      (
        record {
          apart = record {
            first = b'<';
            rest = codes "redacted:secret>";
            splits = refl;
            absent = refl;
            passes = λ u. refl;
          };
          nonempty = refl;
          literal = record {
            first = b'R';
            rest = codes "B_LLM_API_KEY";
            splits = refl;
            not_hex = refl;
            no_percent = refl;
          };
        },
        tt,
      ),
    ),
  ),
)

-- Replacing a name leaves it nowhere, and brings no needle in.
replace_name-has_substring :
    (name s : List ℕ) → Needle name → has_substring name (replace_name name s) ≡ false
unfolding replace
replace_name-has_substring name s needle = elim (Bool-cases (has_substring name s)) [
  | inl e ↦ rw e (
      Writes-has_substring redacted_secret name (replace_cut name redacted_secret)
        (replace_cut-Writes redacted_secret name) needle.apart needle.nonempty s)
  | inr e ↦ rw e e
]

replace_name-keeps :
    (t name s : List ℕ)
    → Needle t
    → has_substring t s ≡ false
    → has_substring t (replace_name name s) ≡ false
unfolding replace
replace_name-keeps t name s needle h = elim (Bool-cases (has_substring name s)) [
  | inl e ↦ rw e (
      Cut-has_substring redacted_secret t needle.apart
        (Writes-Cut redacted_secret name (replace_cut name redacted_secret)
          (replace_cut-Writes redacted_secret name) s)
        h)
  | inr e ↦ rw e h
]

replace_names-keeps :
    (t : List ℕ) (names : List (List ℕ)) (s : List ℕ)
    → Needle t
    → has_substring t s ≡ false
    → has_substring t (replace_names names s) ≡ false
replace_names-keeps t [] s needle h = h
replace_names-keeps t (name ∷ names) s needle h =
    replace_names-keeps t names (replace_name name s) needle (replace_name-keeps t name s needle h)

replace_names-has_substring :
    (names : List (List ℕ)) (s : List ℕ)
    → Every Needle names
    → Every (λ t. has_substring t (replace_names names s) ≡ false) names
replace_names-has_substring [] s n = tt
replace_names-has_substring (name ∷ names) s n = (
  replace_names-keeps name names (replace_name name s) n.0 (replace_name-has_substring name s n.0),
  replace_names-has_substring names (replace_name name s) n.1,
)

apply_prefix_pattern-has_substring :
    (s : List ℕ) → Every (λ t. has_substring t (apply_prefix_pattern s) ≡ false) secrets
unfolding apply_prefix_pattern
apply_prefix_pattern-has_substring s = (
  replace_names-keeps (codes "rb_live_") secret_names keyless secrets-Needle.0
      (elim (Bool-cases (has_substring (codes "rb_live_") s)) [
        | inl e ↦ rw e (
            Writes-has_substring redacted_secret (codes "rb_live_") key_cut key_cut-Writes
              secrets-Needle.0.apart refl s)
        | inr e ↦ rw e e
      ]),
  replace_names-has_substring secret_names keyless secrets-Needle.1,
)
  where
    keyless : List ℕ
    keyless = if has_substring (codes "rb_live_") s then scan key_cut 0 s else s

-- A line that needs no scan holds none of the secrets, decoded or not.
needs_scan-has_substring :
    (s : List ℕ) → needs_scan (decoded s) ≡ false → Every (λ t. has_substring t s ≡ false) secrets
unfolding needs_scan
needs_scan-has_substring s h =
    let (_, h) = ||-false (has_substring (codes "eyJ") (decoded s)) _ h in
    let (key, h) = ||-false (has_substring (codes "rb_live_") (decoded s)) _ h in
    let (_, h) = ||-false (has_substring (codes "bearer ") (map to_lower (decoded s))) _ h in
    let (jwt, h) = ||-false (has_substring (codes "RB_MCP_JWT_SECRET") (decoded s)) _ h in
    let (agent, llm) = ||-false (has_substring (codes "RB_AGENT_API_KEY") (decoded s)) _ h in
    let n = secrets-Needle in
    (
      hidden (codes "rb_live_") n.0 key,
      (
        hidden (codes "RB_MCP_JWT_SECRET") n.1.0 jwt,
        (
          hidden (codes "RB_AGENT_API_KEY") n.1.1.0 agent,
          (hidden (codes "RB_LLM_API_KEY") n.1.1.1.0 llm, tt),
        ),
      ),
    )
  where
    hidden :
        (t : List ℕ) → Needle t → has_substring t (decoded s) ≡ false → has_substring t s ≡ false
    hidden t n h = elim (Bool-cases (has_substring t s)) [
      | inl e ↦ absurd (true_not_false (has_substring-decoded t n.literal s e) h)
      | inr e ↦ e
    ]

-- For any line and any live token, the redacted line holds no beginning of an API key and none of the
-- names of the secrets, be it decoded, scanned or handed back as it is.
pub redact_with_token-secrets :
    (s : List ℕ) (live_token : Option (List ℕ)) (t : List ℕ)
    → In t secrets
    → has_substring t (redact_with_token s live_token) ≡ false
unfolding redact_with_token
redact_with_token-secrets s live_token t m =
    In-Every (λ t. has_substring t (redact_with_token s live_token) ≡ false) secrets all t m
  where
    scanned : List ℕ
    scanned = apply_bearer_pattern (apply_jwt_pattern (apply_live_token live_token (decoded s)))

    all : Every (λ t. has_substring t (redact_with_token s live_token) ≡ false) secrets
    all = go (needs_scan (decoded s)) refl (holds_token live_token (decoded s))
      where
        go :
            (x : Bool)
            → needs_scan (decoded s) ≡ x
            → (y : Bool)
            → Every
                (λ t.
                  has_substring t (if not x && not y then s else apply_prefix_pattern scanned)
                  ≡ false)
                secrets
        go false e false = needs_scan-has_substring s e
        go false e true = apply_prefix_pattern-has_substring scanned
        go true e y = apply_prefix_pattern-has_substring scanned
