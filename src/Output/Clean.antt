-- ===== src/Output/Clean.antt =====
-- services/agent-runner/src/session/output.rs: no secret of an agent's line goes on.
use rustacean.Common.{
  ℕ, String, ◌≡◌, refl, sym, ap, ◌∙◌, subst, inl, inr, Bool, true, false, Option, none, some, List,
  [], ◌∷◌, ◌++◌, if◌then◌else◌, if_cases,
}
use rustacean.Common.Bytes.{starts_with, has_substring}
use rustacean.Common.Every.{Every, In, Every-append}
use rustacean.Redact.{redact_with_token}
use rustacean.Redact.Secrets.{secrets, redact_with_token-secrets}
use rustacean.Relay.{relay_stdout_events, send_all}
use rustacean.Relay.Events.{
  StreamLine, trim_start, trim_end, normalize_line, normalize_trimmed, events_of,
}
use rustacean.Output.{
  Setup, Output, AgentEvent, AgentEventKind, stdout, stderr, next_seq, collect_stale,
  redact_guarded, try_send, event_of, send_payload, relay_line, send_and_relay, stdout_parsed,
  stdout_line, stderr_line,
}
use rustacean.Output.Trims.{trims-has_substring}

-- A text that holds none of the secrets.
abbrev pub Clean : List ℕ → Type 0
Clean s = (t : List ℕ) → In t secrets → has_substring t s ≡ false

-- What happens in a session: a line on either stream, or a collection of stale counters.
pub data Act : Type 0 where
  writes_stdout : ℕ → Option String → List ℕ → Act
  writes_stderr : ℕ → List ℕ → Act
  collects : ℕ → Act

abbrev pub perform : Setup → Act → Output → Output
perform setup (writes_stdout now turn_id line) o = stdout_line setup now turn_id line o
perform setup (writes_stderr now line) o = stderr_line setup now line o
perform setup (collects now) o = record o { seqs = collect_stale now o.seqs }

abbrev pub run : Setup → List Act → Output → Output
run setup [] o = o
run setup (a ∷ acts) o = run setup acts (perform setup a o)

abbrev pub CleanEvent : AgentEvent → Type 0
CleanEvent e = Clean e.payload

secrets-nonempty : (t : List ℕ) → In t secrets → starts_with t [] ≡ false
secrets-nonempty t (inl e) = subst (λ t. starts_with t [] ≡ false) (sym e) refl
secrets-nonempty t (inr (inl e)) = subst (λ t. starts_with t [] ≡ false) (sym e) refl
secrets-nonempty t (inr (inr (inl e))) = subst (λ t. starts_with t [] ≡ false) (sym e) refl
secrets-nonempty t (inr (inr (inr (inl e)))) = subst (λ t. starts_with t [] ≡ false) (sym e) refl
secrets-nonempty t (inr (inr (inr (inr m)))) = elim m [ ]

-- Two readers of a line that agree on the clean ones.
abbrev pub Agree : (List ℕ → Option StreamLine) → (List ℕ → Option StreamLine) → Type 0
Agree f g = (s : List ℕ) → Clean s → f s ≡ g s

redact_guarded-Clean :
    (setup : Setup) (line out : List ℕ) → redact_guarded setup line ≡ some out → Clean out
unfolding redact_guarded
redact_guarded-Clean setup line out e t m = go (setup.panics line) e
  where
    go :
        (x : Bool)
        → if◌then◌else◌ {A = Option (List ℕ)} x none
            (some (redact_with_token line (some setup.live_token)))
          ≡ some out
        → has_substring t out ≡ false
    go true e = cc
    go false e =
        subst (λ s. has_substring t s ≡ false) (same e)
          (redact_with_token-secrets line (some setup.live_token) t m)
      where
        same : {s : List ℕ} → some s ≡ some out → s ≡ out
        same e = cc

-- The normaliser reads a clean line the same way with two readers that agree on clean lines.
normalize_line-Agree :
    (f g : List ℕ → Option StreamLine) (line : List ℕ)
    → Agree f g
    → Clean line
    → normalize_line f line ≡ normalize_line g line
unfolding normalize_line
normalize_line-Agree f g line h c =
    go (trim_start (trim_end line))
      (λ t m. trims-has_substring t line (secrets-nonempty t m) (c t m))
  where
    go : (s : List ℕ) → Clean s → normalize_trimmed f s ≡ normalize_trimmed g s
    go [] c = refl
    go (b ∷ bs) c = ap events_of (h (b ∷ bs) c)

module _ (setup : Setup) where
  try_send-Clean :
      (e : AgentEvent) (channel : List AgentEvent)
      → CleanEvent e
      → Every CleanEvent channel
      → Every CleanEvent (try_send setup e channel)
  try_send-Clean e channel c h =
      if_cases (Every CleanEvent) (setup.has_room e) (channel ++ (e ∷ [])) channel
        (λ _. Every-append CleanEvent channel (e ∷ []) h (c, tt)) (λ _. h)

  send_payload-Clean :
      (kind : AgentEventKind) (now seq : ℕ) (payload : Option (List ℕ)) (o : Output)
      → ((p : List ℕ) → payload ≡ some p → Clean p)
      → Every CleanEvent o.channel
      → Every CleanEvent (send_payload setup kind now seq payload o).channel
  send_payload-Clean kind now seq none o c h = h
  send_payload-Clean kind now seq (some p) o c h =
      try_send-Clean (event_of setup kind now seq p) o.channel (c p refl) h

  relay_line-channel :
      (now seq : ℕ) (turn_id : Option String) (line : Option (List ℕ)) (o : Output)
      → (relay_line setup now seq turn_id line o).channel ≡ o.channel
  relay_line-channel now seq turn_id none o = refl
  relay_line-channel now seq turn_id (some line) o = refl

  perform-Clean :
      (a : Act) (o : Output)
      → Every CleanEvent o.channel
      → Every CleanEvent (perform setup a o).channel
  unfolding stdout_line stderr_line
  perform-Clean (collects now) o h = h
  perform-Clean (writes_stderr now line) o h =
      send_payload-Clean stderr now _ (redact_guarded setup line) _
        (redact_guarded-Clean setup line) h
  perform-Clean (writes_stdout now turn_id line) o h = parsed (setup.parse_stdout_line line)
    where
      seq : ℕ
      seq = (next_seq now setup.session_id o.seqs).0

      numbered : Output
      numbered = record o { seqs = (next_seq now setup.session_id o.seqs).1 }

      sent :
          (p : List ℕ) (payload : Option (List ℕ))
          → redact_guarded setup p ≡ payload
          → Every CleanEvent (send_and_relay setup now seq turn_id line payload numbered).channel
      sent p none e = h
      sent p (some q) e =
          subst (Every CleanEvent)
            (sym (
              relay_line-channel now seq turn_id (redact_guarded setup line)
                (send_payload setup stdout now seq (some q) numbered)))
            (try_send-Clean (event_of setup stdout now seq q) o.channel
              (redact_guarded-Clean setup p q e) h)

      parsed :
          (payload : Option (List ℕ))
          → Every CleanEvent (stdout_parsed setup now seq turn_id line payload numbered).channel
      parsed none = h
      parsed (some p) = sent p (redact_guarded setup p) refl

  run-Clean :
      (acts : List Act) (o : Output)
      → Every CleanEvent o.channel
      → Every CleanEvent (run setup acts o).channel
  run-Clean [] o h = h
  run-Clean (a ∷ acts) o h = run-Clean acts (perform setup a o) (perform-Clean a o h)

  -- Another reader of the lines, which agrees with the setup's on the clean ones.
  module _ (g : List ℕ → Option StreamLine) (agree : Agree setup.from_str g) where
    other : Setup
    other = record setup { from_str = g }

    relay_line-Agree :
        (now seq : ℕ) (turn_id : Option String) (line : Option (List ℕ)) (o : Output)
        → ((l : List ℕ) → line ≡ some l → Clean l)
        → relay_line setup now seq turn_id line o ≡ relay_line other now seq turn_id line o
    unfolding relay_stdout_events other
    relay_line-Agree now seq turn_id none o c = refl
    relay_line-Agree now seq turn_id (some line) o c =
        ap
          (λ events. record o {
            relay =
                send_all
                  (λ event. record {
                    session_id = setup.session_id;
                    tenant_id = setup.tenant_id;
                    seq = seq;
                    event = event;
                    emitted_at_ms = now;
                    turn_id = turn_id;
                  })
                  events o.relay;
          })
          (normalize_line-Agree setup.from_str g line agree (c line refl))

    perform-Agree : (a : Act) (o : Output) → perform setup a o ≡ perform other a o
    unfolding stdout_line stderr_line redact_guarded other
    perform-Agree (collects now) o = refl
    perform-Agree (writes_stderr now line) o = refl
    perform-Agree (writes_stdout now turn_id line) o = parsed (setup.parse_stdout_line line)
      where
        seq : ℕ
        seq = (next_seq now setup.session_id o.seqs).0

        numbered : Output
        numbered = record o { seqs = (next_seq now setup.session_id o.seqs).1 }

        sent :
            (payload : Option (List ℕ))
            → send_and_relay setup now seq turn_id line payload numbered
              ≡ send_and_relay other now seq turn_id line payload numbered
        sent none = refl
        sent (some q) =
            relay_line-Agree now seq turn_id (redact_guarded setup line)
              (send_payload setup stdout now seq (some q) numbered)
              (redact_guarded-Clean setup line)

        parsed :
            (payload : Option (List ℕ))
            → stdout_parsed setup now seq turn_id line payload numbered
              ≡ stdout_parsed other now seq turn_id line payload numbered
        parsed none = refl
        parsed (some p) = sent (redact_guarded setup p)

    run-Agree : (acts : List Act) (o : Output) → run setup acts o ≡ run other acts o
    run-Agree [] o = refl
    run-Agree (a ∷ acts) o =
        run-Agree acts (perform setup a o) ∙ ap (run other acts) (perform-Agree a o)

    -- Whatever the agent writes on its two streams, in any order, with collections of sequence numbers
    -- between: no event on the channel holds the beginning of an API key or one of the three names of
    -- secrets, and the relay is the same for any two readers of JSON lines that agree on lines without
    -- them, so the normaliser never reads a line with one. Other secrets, such as JWTs, are not meant.
    pub run-secrets :
        (acts : List Act) (o : Output)
        → Every CleanEvent o.channel
        → Every CleanEvent (run setup acts o).channel
          × ((run setup acts o).relay ≡ (run (record setup { from_str = g }) acts o).relay)
    unfolding other
    run-secrets acts o h = (run-Clean acts o h, ap (λ (o : Output). o.relay) (run-Agree acts o))
