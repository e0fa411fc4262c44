-- ===== src/Tests/Outputs.antt =====
-- services/agent-runner/src/session/output.rs: an agent that writes a key on both streams.
use rustacean.Common.{◌≡◌, refl, true, false, none, some, List, [], ◌∷◌, map}
use rustacean.Common.Bytes.{codes}
use rustacean.Common.Every.{Every}
use rustacean.Redact.{
  scan, replace, needs_scan, apply_live_token, apply_jwt_pattern, bearer_cut, apply_bearer_pattern,
  key_cut, apply_prefix_pattern, decoded, redact_with_token, redact,
}
use rustacean.Relay.{spawn}
use rustacean.Output.{
  Setup, Output, AgentEvent, next_seq, collect_stale, redact_guarded, stdout_line, stderr_line,
}
use rustacean.Output.Clean.{
  Act, writes_stdout, writes_stderr, collects, run, CleanEvent, run-secrets,
}

-- The whole line is the payload, and serde_json reads nothing.
abbrev setup : Setup
setup = record {
  session_id = "s";
  tenant_id = "t";
  live_token = [];
  parse_stdout_line = some;
  has_room = λ event. true;
  panics = λ line. false;
  from_str = λ line. none;
}

abbrev fresh : Output
fresh = record {
  seqs = record { counters = λ id. none; timestamps = λ id. none };
  channel = [];
  relay = spawn 10 5;
}

abbrev acts : List Act
acts =
    writes_stdout 1 none (codes "k=rb_live_0f")
    ∷ writes_stderr 2 (codes "rb_live_1e")
    ∷ collects 700000
    ∷ writes_stderr 700001 (codes "ok")
    ∷ []

run-secrets_example :
    Every CleanEvent (run setup acts fresh).channel
    × ((run setup acts fresh).relay
        ≡ (run (record setup { from_str = λ line. none }) acts fresh).relay)
run-secrets_example = run-secrets setup (λ line. none) (λ line c. refl) acts fresh tt

-- The session is idle for more than ten minutes, and its numbers start again.
numbers_now : map (λ (e : AgentEvent). e.seq) (run setup acts fresh).channel ≡ 1 ∷ 2 ∷ 1 ∷ []
unfolding scan replace needs_scan apply_live_token apply_jwt_pattern bearer_cut apply_bearer_pattern
    key_cut apply_prefix_pattern decoded redact_with_token next_seq collect_stale redact_guarded
    stdout_line stderr_line
numbers_now = refl

-- A JSON line whose string ends behind a bearer token: the placeholder takes the rest of the line.
truncated_now :
    redact (codes "{\"t\":\"Bearer x\",\"u\":1}") ≡ codes "{\"t\":\"Bearer <redacted:bearer>"
unfolding scan replace needs_scan apply_live_token apply_jwt_pattern bearer_cut apply_bearer_pattern
    key_cut apply_prefix_pattern decoded redact_with_token
truncated_now = refl
