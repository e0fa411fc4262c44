-- ===== src/Tests/Lines.antt =====
-- crates/rb-secrets/src/redact.rs: lines with a key, with JWTs, and with an escape that hides one.
use rustacean.Common.{◌≡◌, refl, inl, false, none, []}
use rustacean.Common.Bytes.{codes, has_substring}
use rustacean.Redact.{
  scan, replace, hex_nibble, percent_cut, percent_decode_ascii, needs_scan, apply_live_token,
  jwt_span, jwt_cut, apply_jwt_pattern, bearer_cut, apply_bearer_pattern, key_cut,
  apply_prefix_pattern, decoded, redact_with_token, redact,
}
use rustacean.Redact.Secrets.{redact_with_token-secrets}
use rustacean.Redact.Jwts.{IsJwt}
use rustacean.Redact.NoJwts.{redact_with_token-IsJwt}

redacted_now :
    redact (codes "BEARER abc rb_live_0f! eyJa.b.c%2Fd RB_LLM_API_KEY")
    ≡ codes "BEARER <redacted:bearer> <redacted:secret>! <redacted:jwt>/d <redacted:secret>"
unfolding scan replace hex_nibble percent_cut percent_decode_ascii needs_scan apply_live_token
    jwt_span jwt_cut apply_jwt_pattern bearer_cut apply_bearer_pattern key_cut apply_prefix_pattern
    decoded redact_with_token
redacted_now = refl

-- The escape takes the first byte of the JWT with it, so the decoded line has none, and the line comes
-- back as it is.
kept_now : redact (codes "%4eyJa.b.c") ≡ codes "%4eyJa.b.c"
unfolding scan hex_nibble percent_cut percent_decode_ascii needs_scan decoded redact_with_token
kept_now = refl

redact_with_token-secrets_example :
    has_substring (codes "rb_live_") (redact_with_token (codes "k=rb_live_0f") none) ≡ false
redact_with_token-secrets_example =
    redact_with_token-secrets (codes "k=rb_live_0f") none (codes "rb_live_") (inl refl)

abbrev jwt : IsJwt (codes "eyJa.b.c")
jwt = record {
  header = codes "a";
  payload = b'b';
  more = [];
  sig = b'c';
  rest = [];
  splits = refl;
  header_b64 = refl;
  payload_b64 = refl;
  more_b64 = refl;
  sig_b64 = refl;
  rest_b64 = refl;
}

decoded_now : decoded (codes "t=eyJa.b.c") ≡ codes "t=eyJa.b.c"
unfolding decoded
decoded_now = refl

redact_with_token-IsJwt_example :
    has_substring (codes "eyJa.b.c") (redact_with_token (codes "t=eyJa.b.c") none) ≡ false
redact_with_token-IsJwt_example =
    redact_with_token-IsJwt (codes "eyJa.b.c") jwt (codes "t=eyJa.b.c") none (inl decoded_now)
