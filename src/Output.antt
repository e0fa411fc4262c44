-- ===== src/Output.antt =====
-- services/agent-runner/src/session: the lines that an agent writes (output.rs, redact.rs), and their
-- sequence numbers (seq.rs). A line is the list of its bytes, a time is in milliseconds.
pub mod Trims
pub mod Clean
use rustacean.Common.{
  ℕ, zero, suc, ◌+◌, ◌-◌, ◌*◌, ◌^◌, String, Bool, true, false, not, Option, none, some, List, [],
  ◌∷◌, ◌++◌, ltb, leb, if◌then◌else◌,
}
use rustacean.Redact.{redact_with_token}
use rustacean.Relay.{Relay, relay_stdout_events}
use rustacean.Relay.Events.{StreamLine}
use text.Mathlib.Text.{◌==◌}

-- `i64::MAX`
abbrev pub max_i64 : ℕ
max_i64 = 2 ^ 63 - 1

-- `MAX_AGE_SECS`, in milliseconds.
abbrev pub max_age : ℕ
max_age = 600 * 1000

-- The two maps from session ids: the last numbers, and when they were given.
pub record SeqCounters : Type 0 where
  pub counters : String → Option ℕ
  pub timestamps : String → Option ℕ

abbrev pub or_zero : Option ℕ → ℕ
or_zero none = 0
or_zero (some n) = n

abbrev pub succ_seq : ℕ → ℕ
succ_seq n = if leb (max_i64 - 1) n then 1 else n + 1

abbrev put_entry : String → Option ℕ → (String → Option ℕ) → String → Option ℕ
put_entry id value m other = if other == id then value else m other

unfoldable pub next_seq : ℕ → String → SeqCounters → ℕ × SeqCounters
next_seq now session_id s =
    let n = succ_seq (or_zero (s.counters session_id)) in
    (
      n,
      record {
        counters = put_entry session_id (some n) s.counters;
        timestamps = put_entry session_id (some now) s.timestamps;
      },
    )

abbrev is_stale : ℕ → Option ℕ → Bool
is_stale now none = false
is_stale now (some t) = not (ltb (now - t) max_age)

-- One pass of the loop of `spawn_gc`.
unfoldable pub collect_stale : ℕ → SeqCounters → SeqCounters
collect_stale now s = record {
  counters = λ id. if is_stale now (s.timestamps id) then none else s.counters id;
  timestamps = λ id. if is_stale now (s.timestamps id) then none else s.timestamps id;
}

pub data AgentEventKind : Type 0 where
  stdout stderr : AgentEventKind

pub record AgentEvent : Type 0 where
  pub tenant_id : String
  pub session_id : String
  pub seq : ℕ
  pub kind : AgentEventKind
  pub payload : List ℕ
  pub emitted_at_ms : ℕ

-- What the two tasks of a session are set up with. `parse_stdout_line` is the runtime adapter, and
-- `has_room` says whether the channel takes an event; `panics` says whether the redaction of a line
-- does, and `from_str` is what serde_json reads.
pub record Setup : Type 0 where
  pub session_id : String
  pub tenant_id : String
  pub live_token : List ℕ
  pub parse_stdout_line : List ℕ → Option (List ℕ)
  pub has_room : AgentEvent → Bool
  pub panics : List ℕ → Bool
  pub from_str : List ℕ → Option StreamLine

pub record Output : Type 0 where
  pub seqs : SeqCounters
  pub channel : List AgentEvent
  pub relay : Relay

-- `redact_guarded` of the redaction of a line: nothing after a panic.
unfoldable pub redact_guarded : Setup → List ℕ → Option (List ℕ)
redact_guarded setup line =
    if setup.panics line then none else some (redact_with_token line (some setup.live_token))

abbrev pub try_send : Setup → AgentEvent → List AgentEvent → List AgentEvent
try_send setup event channel = if setup.has_room event then channel ++ (event ∷ []) else channel

abbrev pub event_of : Setup → AgentEventKind → ℕ → ℕ → List ℕ → AgentEvent
event_of setup kind now seq payload = record {
  tenant_id = setup.tenant_id;
  session_id = setup.session_id;
  seq = seq;
  kind = kind;
  payload = payload;
  emitted_at_ms = now;
}

abbrev pub send_payload : Setup → AgentEventKind → ℕ → ℕ → Option (List ℕ) → Output → Output
send_payload setup kind now seq none o = o
send_payload setup kind now seq (some payload) o = record o {
  channel = try_send setup (event_of setup kind now seq payload) o.channel;
}

abbrev pub relay_line : Setup → ℕ → ℕ → Option String → Option (List ℕ) → Output → Output
relay_line setup now seq turn_id none o = o
relay_line setup now seq turn_id (some line) o = record o {
  relay =
      relay_stdout_events setup.from_str now setup.session_id setup.tenant_id seq line turn_id
        o.relay;
}

-- A payload whose redaction panics takes the line with it.
abbrev pub send_and_relay :
    Setup → ℕ → ℕ → Option String → List ℕ → Option (List ℕ) → Output → Output
send_and_relay setup now seq turn_id line none o = o
send_and_relay setup now seq turn_id line (some payload) o =
    relay_line setup now seq turn_id (redact_guarded setup line)
      (send_payload setup stdout now seq (some payload) o)

abbrev pub stdout_parsed :
    Setup → ℕ → ℕ → Option String → List ℕ → Option (List ℕ) → Output → Output
stdout_parsed setup now seq turn_id line none o = o
stdout_parsed setup now seq turn_id line (some payload) o =
    send_and_relay setup now seq turn_id line (redact_guarded setup payload) o

-- A line on the standard output, with the turn at the time.
unfoldable pub stdout_line : Setup → ℕ → Option String → List ℕ → Output → Output
unfolding next_seq redact_guarded
stdout_line setup now turn_id line o =
    let (seq, seqs) = next_seq now setup.session_id o.seqs in
    stdout_parsed setup now seq turn_id line (setup.parse_stdout_line line)
      (record o { seqs = seqs })

-- A line on the standard error.
unfoldable pub stderr_line : Setup → ℕ → List ℕ → Output → Output
unfolding next_seq redact_guarded
stderr_line setup now line o =
    let (seq, seqs) = next_seq now setup.session_id o.seqs in
    send_payload setup stderr now seq (redact_guarded setup line) (record o { seqs = seqs })
