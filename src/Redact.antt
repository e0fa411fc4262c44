-- ===== src/Redact.antt =====
-- crates/rb-secrets/src/redact.rs: the secrets that are taken out of a line before it is stored, sent or
-- logged. A line is the list of its bytes. The source goes from one match of a pattern to the next by
-- `find`; `scan` goes byte by byte and asks at each whether a match begins there.
pub mod Cuts
pub mod Decoding
pub mod Writes
pub mod Jwts
pub mod Secrets
pub mod NoJwts
use rustacean.Common.{
  ℕ, zero, suc, ◌+◌, ◌-◌, ◌*◌, Bool, true, false, not, ◌&&◌, ◌||◌, Option, none, some, List, [],
  ◌∷◌, ◌++◌, map, length, take, drop, all, ltb, leb, ◌==◌, if◌then◌else◌,
}
use rustacean.Common.Bytes.{
  codes, is_digit, is_alnum, is_hex_digit, is_whitespace, to_lower, has_byte, starts_with,
  has_substring,
}

abbrev pub redacted_jwt : List ℕ
redacted_jwt = codes "<redacted:jwt>"

abbrev pub redacted_bearer : List ℕ
redacted_bearer = codes "<redacted:bearer>"

abbrev pub redacted_secret : List ℕ
redacted_secret = codes "<redacted:secret>"

-- Where a match begins `cut` says what is written for it, and how many bytes behind the first it takes.
unfoldable pub scan : (List ℕ → Option (List ℕ × ℕ)) → ℕ → List ℕ → List ℕ
scan cut skip [] = []
scan cut (suc skip) (b ∷ bs) = scan cut skip bs
scan cut zero (b ∷ bs) = elim (cut (b ∷ bs)) [
  | none ↦ b ∷ scan cut zero bs
  | some (out, n) ↦ out ++ scan cut n bs
]

-- `str::replace`, for a pattern that is not empty.
abbrev pub replace_cut : List ℕ → List ℕ → List ℕ → Option (List ℕ × ℕ)
replace_cut pattern by s = if starts_with pattern s then some (by, length pattern - 1) else none

unfoldable pub replace : List ℕ → List ℕ → List ℕ → List ℕ
unfolding scan
replace pattern by = scan (replace_cut pattern by) 0

unfoldable pub hex_nibble : ℕ → Option ℕ
hex_nibble b =
    if is_digit b
    then some (b - b'0')
    else if leb b'a' b && leb b b'f'
    then some (b - b'a' + 10)
    else if leb b'A' b && leb b b'F'
    then some (b - b'A' + 10)
    else none

-- `(hi << 4) | lo`, if it is below 128.
abbrev pub ascii_byte : Option ℕ → Option ℕ → Option (List ℕ × ℕ)
ascii_byte none lo = none
ascii_byte (some hi) none = none
ascii_byte (some hi) (some lo) =
    if ltb (hi * 16 + lo) 128 then some ((hi * 16 + lo) ∷ [], 2) else none

unfoldable pub percent_cut : List ℕ → Option (List ℕ × ℕ)
unfolding hex_nibble
percent_cut (b ∷ h ∷ l ∷ rest) =
    if b == b'%' then ascii_byte (hex_nibble h) (hex_nibble l) else none
percent_cut _ = none

-- `changed`
abbrev pub fires : (List ℕ → Option (List ℕ × ℕ)) → List ℕ → Bool
fires cut [] = false
fires cut (b ∷ bs) = elim (cut (b ∷ bs)) [ none ↦ fires cut bs | some _ ↦ true ]

unfoldable pub percent_decode_ascii : List ℕ → Option (List ℕ)
unfolding scan percent_cut
percent_decode_ascii s = if fires percent_cut s then some (scan percent_cut 0 s) else none

abbrev pub secret_names : List (List ℕ)
secret_names = codes "RB_MCP_JWT_SECRET" ∷ codes "RB_AGENT_API_KEY" ∷ codes "RB_LLM_API_KEY" ∷ []

unfoldable pub needs_scan : List ℕ → Bool
needs_scan s =
    has_substring (codes "eyJ") s
    || (has_substring (codes "rb_live_") s
        || (has_substring (codes "bearer ") (map to_lower s)
            || (has_substring (codes "RB_MCP_JWT_SECRET") s
                || (has_substring (codes "RB_AGENT_API_KEY") s
                    || has_substring (codes "RB_LLM_API_KEY") s))))

-- `!t.is_empty() && working.contains(t)` of a token that is given.
abbrev pub holds_token : Option (List ℕ) → List ℕ → Bool
holds_token none s = false
holds_token (some []) s = false
holds_token (some (c ∷ t)) s = has_substring (c ∷ t) s

abbrev token_or_empty : Option (List ℕ) → List ℕ
token_or_empty none = []
token_or_empty (some t) = t

unfoldable pub apply_live_token : Option (List ℕ) → List ℕ → List ℕ
unfolding replace
apply_live_token live_token s =
    if holds_token live_token s then replace (token_or_empty live_token) redacted_jwt s else s

abbrev pub is_b64url_byte : ℕ → Bool
is_b64url_byte b = is_alnum b || (b == b'_' || (b == b'-' || b == b'='))

abbrev is_empty : List ℕ → Bool
is_empty [] = true
is_empty (b ∷ bs) = false

abbrev pub is_b64url : List ℕ → Bool
is_b64url s = not (is_empty s) && all is_b64url_byte s

-- What is before the first dot, and what is behind it.
abbrev pub with_byte : ℕ → Option (List ℕ × List ℕ) → Option (List ℕ × List ℕ)
with_byte b none = none
with_byte b (some (before, after)) = some (b ∷ before, after)

abbrev pub split_dot : List ℕ → Option (List ℕ × List ℕ)
split_dot [] = none
split_dot (b ∷ bs) =
    let rest = split_dot bs in if b == b'.' then some ([], bs) else with_byte b rest

-- `bytes().take_while(p).count()`
abbrev pub count_while : (ℕ → Bool) → List ℕ → ℕ
count_while p [] = 0
count_while p (b ∷ bs) = let n = count_while p bs in if p b then suc n else 0

abbrev pub signed_span : List ℕ → List ℕ → List ℕ → Option ℕ
signed_span header payload sig =
    let sig_len = count_while is_b64url_byte sig in
    if sig_len == 0 then none else some (length header + 1 + length payload + 1 + sig_len)

abbrev pub payload_span : List ℕ → Option (List ℕ × List ℕ) → Option ℕ
payload_span header none = none
payload_span header (some (payload, sig)) =
    if not (is_b64url payload) then none else signed_span header payload sig

abbrev pub header_span : Option (List ℕ × List ℕ) → Option ℕ
header_span none = none
header_span (some (header, after1)) =
    if not (is_b64url header) then none else payload_span header (split_dot after1)

unfoldable pub jwt_span : List ℕ → Option ℕ
jwt_span s = header_span (split_dot s)

abbrev pub cut_span : Option ℕ → Option (List ℕ × ℕ)
cut_span (some end) = some (redacted_jwt, end - 1)
cut_span none = some (codes "eyJ", 2)

unfoldable pub jwt_cut : List ℕ → Option (List ℕ × ℕ)
unfolding jwt_span
jwt_cut s = if starts_with (codes "eyJ") s then cut_span (jwt_span s) else none

unfoldable pub apply_jwt_pattern : List ℕ → List ℕ
unfolding scan jwt_cut
apply_jwt_pattern s = if not (has_substring (codes "eyJ") s) then s else scan jwt_cut 0 s

-- A match in the lowercase line is one of `bearer ` in any case.
unfoldable pub bearer_cut : List ℕ → Option (List ℕ × ℕ)
bearer_cut s =
    if starts_with (codes "bearer ") (map to_lower s)
    then some (take 7 s ++ redacted_bearer, 6 + count_while (λ b. not (is_whitespace b)) (drop 7 s))
    else none

unfoldable pub apply_bearer_pattern : List ℕ → List ℕ
unfolding scan bearer_cut
apply_bearer_pattern s =
    if not (has_substring (codes "bearer ") (map to_lower s)) then s else scan bearer_cut 0 s

unfoldable pub key_cut : List ℕ → Option (List ℕ × ℕ)
key_cut s =
    if starts_with (codes "rb_live_") s
    then some (redacted_secret, 7 + count_while is_hex_digit (drop 8 s))
    else none

abbrev pub replace_name : List ℕ → List ℕ → List ℕ
unfolding replace
replace_name name s = if has_substring name s then replace name redacted_secret s else s

abbrev pub replace_names : List (List ℕ) → List ℕ → List ℕ
replace_names [] s = s
replace_names (name ∷ names) s = replace_names names (replace_name name s)

unfoldable pub apply_prefix_pattern : List ℕ → List ℕ
unfolding scan key_cut replace
apply_prefix_pattern s =
    replace_names secret_names (if has_substring (codes "rb_live_") s then scan key_cut 0 s else s)

abbrev pub or_else : Option (List ℕ) → List ℕ → List ℕ
or_else none s = s
or_else (some d) s = d

-- The line as it is searched.
unfoldable pub decoded : List ℕ → List ℕ
unfolding percent_decode_ascii
decoded s = or_else (if has_byte b'%' s then percent_decode_ascii s else none) s

unfoldable pub redact_with_token : List ℕ → Option (List ℕ) → List ℕ
unfolding decoded needs_scan apply_live_token apply_jwt_pattern apply_bearer_pattern
    apply_prefix_pattern
redact_with_token s live_token =
    let working = decoded s in
    if not (needs_scan working) && not (holds_token live_token working)
    then s
    else apply_prefix_pattern
        (apply_bearer_pattern (apply_jwt_pattern (apply_live_token live_token working)))

abbrev pub redact : List ℕ → List ℕ
redact s = redact_with_token s none
