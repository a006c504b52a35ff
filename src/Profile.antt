-- ===== src/Profile.antt =====
-- BotProfile of manyfaced/handlers/bot_profile.py with the patterns of
-- manyfaced/handlers/patterns.py: histories, detected behaviours, escalation. A time is its ISO text,
-- an argument of the operations that read the clock; `escalation_label` and `_response_count`, which
-- only handlers set, are left out. The set of behaviours is a record with a field for each name that
-- the code adds.
pub mod Recording
pub mod Severity
pub mod History
use manyfaced_honeypot.Base.{
  ℕ, zero, suc, ◌+◌, ◌-◌, ◌≤◌, max, Bool, true, false, not, ◌&&◌, ◌||◌, Option, none, some, List,
  [], ◌∷◌, ◌++◌, map, if◌then◌else◌, ltb, leb, ◌==◌, Text, String, codes, is_empty, length, take,
  drop, any, Dict, lookup, insert, text_key, lower, upper, strip, split, split_once, contains,
  starts_with, text_eq, show_nat,
}

abbrev sqli_patterns : List String
sqli_patterns =
    "union" ∷ "select" ∷ "drop" ∷ "insert" ∷ "delete" ∷ "update" ∷ "or 1=1" ∷ "and 1=1" ∷ "sleep("
    ∷ "benchmark(" ∷ "or+1=1" ∷ "and+1=1" ∷ "admin'--" ∷ "1=1--" ∷ []

abbrev lfi_patterns : List String
lfi_patterns =
    "../" ∷ "..\\" ∷ "/etc/passwd" ∷ "/etc/shadow" ∷ "php://" ∷ "expect://" ∷ "data://" ∷ []

abbrev rce_patterns : List String
rce_patterns =
    "; ls" ∷ "| cat" ∷ "&& wget" ∷ "$(curl" ∷ "`nc`" ∷ "eval(" ∷ "exec(" ∷ "| cat " ∷ "; cat "
    ∷ "&& cat " ∷ "cat /etc" ∷ "wget http" ∷ "curl http" ∷ []

abbrev enum_paths : List String
enum_paths =
    "/admin" ∷ "/wp-admin" ∷ "/phpmyadmin" ∷ "/server-status" ∷ "/.git" ∷ "/.env" ∷ "/config"
    ∷ "/backup" ∷ "/manager" ∷ []

abbrev pub scanner_keywords : List String
scanner_keywords =
    "nikto" ∷ "sqlmap" ∷ "nmap" ∷ "dirbuster" ∷ "gobuster" ∷ "wfuzz" ∷ "burp" ∷ "hydra" ∷ "medusa"
    ∷ "masscan" ∷ []

abbrev pub tool_keywords : List String
tool_keywords = "python-requests" ∷ "curl" ∷ "wget" ∷ "java" ∷ "go-http" ∷ []

-- the keywords of credential stuffing, in `_analyze_request`
abbrev login_keywords : List String
login_keywords = "login" ∷ "admin" ∷ "auth" ∷ "wp-login" ∷ "index.php" ∷ []

-- `detected_behaviors`
pub record Behaviors : Type 0 where
  pub sql_injection : Bool
  pub lfi_rfi : Bool
  pub rce : Bool
  pub directory_traversal : Bool
  pub credential_stuffing : Bool
  pub enumeration : Bool

-- A request as the handlers pass it; an absent key reads as its default.
pub record Request : Type 0 where
  pub path : Text
  pub method : Text
  pub raw : Text
  pub headers : Dict Text Text

-- an entry of `dialogue`
pub record Entry : Type 0 where
  pub sequence : ℕ
  pub timestamp : Text
  pub path : Text
  pub method : Text
  pub raw_request : Text
  pub headers : Dict Text Text
  pub raw_response : Text
  pub size : ℕ
  pub detected : ℕ

pub data MetaValue : Type 0 where
  text : Text → MetaValue
  flag : MetaValue

pub record BotProfile : Type 0 where
  pub bot_ip : Text
  pub session_id : Text
  pub created_at : Text
  pub last_updated : Text
  pub request_history : List Request
  pub detected_behaviors : Behaviors
  pub escalation_level : ℕ
  pub captured_credentials : List (Dict Text Text)
  pub dialogue : List Entry
  pub metadata : Dict Text MetaValue

abbrev pub max_history : ℕ
max_history = 500

abbrev pub max_dialogue : ℕ
max_dialogue = 500

-- `BotProfile.__init__`, with the session id that the hash gives
abbrev pub new_profile : Text → Text → Text → BotProfile
new_profile ip session_id now = record {
  bot_ip = ip;
  session_id = session_id;
  created_at = now;
  last_updated = now;
  request_history = [];
  detected_behaviors = record {
    sql_injection = false;
    lfi_rfi = false;
    rce = false;
    directory_traversal = false;
    credential_stuffing = false;
    enumeration = false;
  };
  escalation_level = 0;
  captured_credentials = [];
  dialogue = [];
  metadata = [];
}

-- `while len(l) > limit: l.pop(0)`
unfoldable pub trim : {A : Type 0} → ℕ → List A → List A
trim limit [] = []
trim limit (x ∷ l) = let rest = trim limit l in if ltb limit (length (x ∷ l)) then rest else x ∷ l

abbrev pub any_in : List String → Text → Bool
any_in patterns s = any (λ p. contains (codes p) s) patterns

-- `s.count(sub)`, with what is left of a hit to pass over
unfoldable pub count_from : ℕ → Text → Text → ℕ
count_from skip sub [] = 0
count_from (suc skip) sub (c ∷ s) = count_from skip sub s
count_from zero sub (c ∷ s) =
    let hit = suc (count_from (length sub - 1) sub s) in
    let miss = count_from zero sub s in if starts_with sub (c ∷ s) then hit else miss

-- What `_analyze_request` finds, on the lowered path, the upper method and the lowered raw request.
unfoldable pub findings : Text → Text → Text → Behaviors
findings path method raw = record {
  sql_injection = any_in sqli_patterns path || any_in sqli_patterns raw;
  lfi_rfi = any_in lfi_patterns path || any_in lfi_patterns raw;
  rce = any_in rce_patterns raw;
  directory_traversal = leb 2 (count_from 0 (codes "..") path);
  credential_stuffing = text_eq method (codes "POST") && any_in login_keywords path;
  enumeration = any (λ p. starts_with (codes p) path) enum_paths;
}

-- `set.add` for each name that was found
abbrev pub add_all : Behaviors → Behaviors → Behaviors
add_all a b = record {
  sql_injection = a.sql_injection || b.sql_injection;
  lfi_rfi = a.lfi_rfi || b.lfi_rfi;
  rce = a.rce || b.rce;
  directory_traversal = a.directory_traversal || b.directory_traversal;
  credential_stuffing = a.credential_stuffing || b.credential_stuffing;
  enumeration = a.enumeration || b.enumeration;
}

-- `_update_escalation`
unfoldable pub update_escalation : BotProfile → BotProfile
update_escalation p =
    let b = p.detected_behaviors in
    let raise_to = λ (n : ℕ). record p { escalation_level = max p.escalation_level n } in
    if b.rce
    then raise_to 5
    else if b.sql_injection
    then raise_to 3
    else if b.lfi_rfi
    then raise_to 3
    else if b.credential_stuffing
    then raise_to 3
    else if b.directory_traversal
    then raise_to 2
    else if b.enumeration
    then raise_to 1
    else p

-- `_analyze_request`
unfoldable pub analyze_request : Request → BotProfile → BotProfile
analyze_request r p = update_escalation (record p {
  detected_behaviors =
      add_all p.detected_behaviors (findings (lower r.path) (upper r.method) (lower r.raw));
})
