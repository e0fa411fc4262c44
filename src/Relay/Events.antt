-- ===== src/Relay/Events.antt =====
-- services/agent-runner/src/normalizer.rs: the events in a line of the agent's output, as serde reads it,
-- and crates/rb-schemas/src/stream_json.rs. A `serde_json::Value` is kept as its text.
use rustacean.Common.{
  ℕ, String, Bool, true, false, ◌&&◌, ◌||◌, not, Option, none, some, List, [], ◌∷◌, leb, ◌==◌,
  if◌then◌else◌,
}
use rustacean.Common.Bytes.{codes, has_substring}

pub data RuntimeEvent : Type 0 where
  text thinking : String → RuntimeEvent
  tool_use : String → String → String → RuntimeEvent
  tool_result : String → String → Bool → RuntimeEvent
  error : String → Option String → RuntimeEvent
  user_input turn_complete : String → RuntimeEvent

pub data AssistantContentBlock : Type 0 where
  text_block thinking_block : String → AssistantContentBlock
  tool_use_block : String → String → String → AssistantContentBlock
  unknown_assistant : AssistantContentBlock

pub data UserContentBlock : Type 0 where
  tool_result_block : String → String → Bool → UserContentBlock
  user_text : String → UserContentBlock
  unknown_user : UserContentBlock

pub record ResultPayload : Type 0 where
  pub subtype : String
  pub is_error : Bool
  pub error_text : Option String
  pub result : Option String

-- A payload of one message is the list of its content blocks.
pub data StreamLine : Type 0 where
  system : StreamLine
  assistant : List AssistantContentBlock → StreamLine
  user : List UserContentBlock → StreamLine
  result_line : ResultPayload → StreamLine
  unknown_line : StreamLine

-- `Iterator::filter_map`
abbrev pub filter_map : {A B : Type 0} → (A → Option B) → List A → List B
filter_map f [] = []
filter_map f (x ∷ xs) = elim (f x) [ none ↦ filter_map f xs | some y ↦ y ∷ filter_map f xs ]

abbrev pub assistant_event : AssistantContentBlock → Option RuntimeEvent
assistant_event (text_block t) = some (text t)
assistant_event (thinking_block t) = some (thinking t)
assistant_event (tool_use_block id name input) = some (tool_use id name input)
assistant_event unknown_assistant = none

abbrev pub extract_assistant_events : List AssistantContentBlock → List RuntimeEvent
extract_assistant_events = filter_map assistant_event

abbrev is_empty_text : String → Bool
is_empty_text String.[] = true
is_empty_text (String.◌∷◌ c s) = false

abbrev pub user_event : UserContentBlock → Option RuntimeEvent
user_event (tool_result_block id content is_error) = some (tool_result id content is_error)
user_event (user_text t) = if not (is_empty_text t) then some (user_input t) else none
user_event unknown_user = none

abbrev pub extract_user_events : List UserContentBlock → List RuntimeEvent
extract_user_events = filter_map user_event

-- `error.or(result).unwrap_or_else(..)`
abbrev pub message_of : Option String → Option String → String
message_of (some e) r = e
message_of none (some r) = r
message_of none none = "Unknown error"

abbrev pub extract_result_events : ResultPayload → List RuntimeEvent
extract_result_events p =
    if p.is_error || has_substring (codes "error") (codes p.subtype)
    then error (message_of p.error_text p.result) (some p.subtype) ∷ []
    else turn_complete p.subtype ∷ []

abbrev pub events_of : Option StreamLine → List RuntimeEvent
events_of none = []
events_of (some system) = []
events_of (some (assistant blocks)) = extract_assistant_events blocks
events_of (some (user blocks)) = extract_user_events blocks
events_of (some (result_line p)) = extract_result_events p
events_of (some unknown_line) = []

-- The Unicode white space that `str::trim` takes off.
abbrev pub is_white : ℕ → Bool
is_white c =
    (leb 9 c && leb c 13)
    || (c == 32
        || (c == 133
            || (c == 160
                || (c == 5760
                    || ((leb 8192 c && leb c 8202)
                        || (c == 8232
                            || (c == 8233 || (c == 8239 || (c == 8287 || c == 12288)))))))))

abbrev pub trim_start : List ℕ → List ℕ
trim_start [] = []
trim_start (c ∷ cs) = let rest = trim_start cs in if is_white c then rest else c ∷ cs

abbrev pub trim_end : List ℕ → List ℕ
trim_end [] = []
trim_end (c ∷ cs) = elim (trim_end cs) [
  | [] ↦ if is_white c then [] else c ∷ []
  | d ∷ ds ↦ c ∷ d ∷ ds
]

abbrev pub normalize_trimmed : (List ℕ → Option StreamLine) → List ℕ → List RuntimeEvent
normalize_trimmed from_str [] = []
normalize_trimmed from_str (c ∷ cs) = events_of (from_str (c ∷ cs))

-- `StreamJsonNormalizer::normalize_line` of a line of code points. `from_str` is what serde_json reads,
-- nothing for an error.
unfoldable pub normalize_line : (List ℕ → Option StreamLine) → List ℕ → List RuntimeEvent
normalize_line from_str line = normalize_trimmed from_str (trim_start (trim_end line))
