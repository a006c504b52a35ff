-- ===== src/Profile/Recording.antt =====
-- The recording operations of BotProfile, manyfaced/handlers/bot_profile.py: requests, dialogue,
-- metadata of the first request, and captured credentials.
use manyfaced_honeypot.Base.{
  ℕ, ◌+◌, max, true, not, ◌&&◌, Option, none, some, List, [], ◌∷◌, ◌++◌, if◌then◌else◌, ltb, Text,
  codes, is_empty, length, take, Dict, lookup, insert, text_key, lower, strip, split, split_once,
  text_eq, show_nat,
}
use manyfaced_honeypot.Profile.{
  Request, Entry, MetaValue, text, flag, BotProfile, max_history, max_dialogue, trim, any_in,
  scanner_keywords, tool_keywords, analyze_request,
}

abbrev Metadata : Type 0
Metadata = Dict Text MetaValue

-- The request line: the method and the path, and all that follows as the version.
unfoldable pub request_line : Text → Metadata → Metadata
request_line line m = elim (split_once (codes " ") line) [
  | none ↦ m
  | some (method, rest) ↦ elim (split_once (codes " ") rest) [
    | none ↦ insert (codes "path") (text rest) (insert (codes "method") (text method) m)
    | some (path, version) ↦
        insert (codes "http_version") (text version)
          (insert (codes "path") (text path) (insert (codes "method") (text method) m))
  ]
]

-- the metadata entry for a header
abbrev header_key : Text → Option Text
header_key key =
    if text_eq key (codes "user-agent")
    then some (codes "user_agent")
    else if text_eq key (codes "host")
    then some (codes "host")
    else if text_eq key (codes "accept")
    then some (codes "accept")
    else if text_eq key (codes "content-type")
    then some (codes "content_type")
    else if text_eq key (codes "content-length")
    then some (codes "content_length")
    else if text_eq key (codes "referer")
    then some (codes "referer")
    else if text_eq key (codes "x-forwarded-for")
    then some (codes "x_forwarded_for")
    else if text_eq key (codes "x-real-ip")
    then some (codes "x_real_ip")
    else none

unfoldable pub header_lines : List Text → Metadata → Metadata
header_lines [] m = m
header_lines (line ∷ lines) m = elim (split_once (codes ":") line) [
  | none ↦ header_lines lines m
  | some (key, value) ↦ elim (header_key (lower (strip key))) [
    | none ↦ header_lines lines m
    | some name ↦ header_lines lines (insert name (text (strip value)) m)
  ]
]

abbrev text_of : Option MetaValue → Text
text_of none = []
text_of (some flag) = []
text_of (some (text t)) = t

-- whether the agent names a scanner or a tool
unfoldable pub agent_flags : Metadata → Metadata
agent_flags m =
    let ua = lower (text_of (lookup (codes "user_agent") m)) in
    if any_in scanner_keywords ua
    then insert (codes "scanner_name") (text ua) (insert (codes "scanner_detected") flag m)
    else if any_in tool_keywords ua
    then insert (codes "tool_name") (text ua) (insert (codes "tool_detected") flag m)
    else m

abbrev of_lines : List Text → Metadata → Metadata
of_lines [] m = m
of_lines (line ∷ lines) m = agent_flags (header_lines lines (request_line line m))

-- `_extract_metadata`
unfoldable pub extract_metadata : Text → Metadata → Metadata
extract_metadata raw m = of_lines (split (codes "\r\n") raw) m

-- `record_request`
unfoldable pub record_request : Text → Request → BotProfile → BotProfile
record_request now r p =
    let analyzed = analyze_request r (record p {
      request_history = trim max_history (p.request_history ++ r ∷ []);
      last_updated = now;
    }) in
    if is_empty analyzed.metadata && not (is_empty r.raw)
    then record analyzed { metadata = extract_metadata r.raw analyzed.metadata }
    else analyzed

abbrev pub max_raw : ℕ
max_raw = 5000

-- a raw request or response as the dialogue keeps it
unfoldable pub truncate_raw : Text → Text
truncate_raw raw =
    if ltb max_raw (length raw)
    then take max_raw raw
      ++ codes "\n... (truncated, "
      ++ show_nat (length raw)
      ++ codes " total bytes)"
    else raw

-- `record_interaction`; a byte of the response and its iso-8859-1 character are the same number.
unfoldable pub record_interaction : Text → Request → Text → ℕ → BotProfile → BotProfile
record_interaction now r response detected p =
    let entry : Entry = record {
      sequence = length p.dialogue + 1;
      timestamp = now;
      path = r.path;
      method = r.method;
      raw_request = truncate_raw r.raw;
      headers = r.headers;
      raw_response = truncate_raw response;
      size = length response;
      detected = detected;
    } in
    record p { dialogue = trim max_dialogue (p.dialogue ++ entry ∷ []) }

-- `capture_credentials`
unfoldable pub capture_credentials : Text → Dict Text Text → BotProfile → BotProfile
capture_credentials now credentials p = record p {
  captured_credentials =
      p.captured_credentials
      ++ insert (codes "session_id") p.session_id (insert (codes "captured_at") now credentials)
        ∷ [];
  detected_behaviors = record p.detected_behaviors { credential_stuffing = true };
  escalation_level = max p.escalation_level 3;
}
