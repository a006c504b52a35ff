-- ===== src/Storage.antt =====
-- manyfaced/db/sql_builder.py, the fields of a record; and manyfaced/db/storage.py, the `insert` of the
-- two backends. The databases are parameters. A record holds what json.loads gives, so no `datetime`.
pub mod Columns
pub mod Backends
pub mod Insertion
use manyfaced_honeypot.Base.{
  ℕ, zero, suc, ◌+◌, ◌%◌, Bool, true, false, not, Option, none, some, List, [], ◌∷◌, ◌++◌, map,
  String, Text, codes, if◌then◌else◌, ◌==◌, ℤ, pos,
}
use manyfaced_honeypot.Metrics.{Metrics, incr}
use manyfaced_honeypot.Values.{
  type_error, value_error, attribute_error, Result, ok, raise, ◌>>=◌, Json, null, integer, string,
  object, Fields, end, field, get, is_true, or_else, empty, int_of,
}

-- the escaped text: NUL becomes a backslash, `x`, `0`, `0`
unfoldable pub escape_text : Text → Text
escape_text [] = []
escape_text (c ∷ s) =
    let rest = escape_text s in if c == 0 then 92 ∷ b'x' ∷ b'0' ∷ b'0' ∷ rest else c ∷ rest

-- `_escape_nul_text`
abbrev pub escape_nul_text : Json → Json
escape_nul_text (string s) = string (escape_text s)
escape_nul_text v = v

-- `parsed`: a value that is true and no dict has no `get`.
abbrev pub parsed_of : Json → Result Fields
parsed_of (object fs) = ok fs
parsed_of v = if is_true v then raise attribute_error else ok end

abbrev pub or_zero : Result ℤ → Result ℤ
or_zero (ok n) = ok n
or_zero (raise type_error) = ok (pos 0)
or_zero (raise value_error) = ok (pos 0)
or_zero (raise e) = raise e

abbrev pub listen_port_of : Json → Result ℤ
listen_port_of null = ok (pos 0)
listen_port_of (string []) = ok (pos 0)
listen_port_of v = or_zero (int_of v)

-- `int(v) if v is not None else None`
abbrev pub optional_int : Json → Result Json
optional_int null = ok null
optional_int v = do n ← int_of v; ok (integer n)

abbrev pub detected_of : Json → Json → Json
detected_of null other = other
detected_of v other = v

-- `json.dumps` of a dict and `str` of a value that is no text are parameters.
module _ (dumps : Fields → Text) (str_of : Json → Text) where
  abbrev pub text_of : Json → Json
  text_of (string s) = string s
  text_of v = string (str_of v)

  abbrev pub profile_of : Json → Json
  profile_of null = null
  profile_of (object fs) = string (dumps fs)
  profile_of v = text_of v

  -- the columns, in the order of the INSERT statements, before they are escaped
  unfoldable pub columns : Fields → Fields → ℤ → Json → Json → List Json
  columns r parsed listen_port detected_id hive_id =
      or_else (get (codes "ip") r) empty
      ∷ or_else (or_else (get (codes "hostname") r) (get (codes "HIVELOGIN") r)) empty
      ∷ text_of (or_else (get (codes "timestamp") r) empty)
      ∷ or_else (or_else (get (codes "path") parsed) (get (codes "request_path") r)) empty
      ∷ or_else (or_else (get (codes "command") parsed) (get (codes "request_command") r)) empty
      ∷ or_else
          (or_else (or_else (get (codes "request_version") parsed) (get (codes "version") parsed))
            (get (codes "request_version") r))
          empty
      ∷ or_else (get (codes "raw_request") r) empty
      ∷ or_else (or_else (get (codes "user_agent") parsed) (get (codes "ua") r)) empty
      ∷ or_else (get (codes "country") r) empty
      ∷ or_else (get (codes "continent") r) empty
      ∷ or_else (get (codes "tracert") r) empty
      ∷ or_else (get (codes "dns_name") r) empty
      ∷ detected_id
      ∷ hive_id
      ∷ or_else (get (codes "login") r) empty
      ∷ profile_of (get (codes "bot_profile_data") r)
      ∷ integer listen_port
      ∷ or_else (get (codes "bot_asn") r) empty
      ∷ or_else (get (codes "bot_org") r) empty
      ∷ or_else (get (codes "classification") r) empty
      ∷ or_else (get (codes "benign_source") r) empty
      ∷ []

  -- what is left once the values that can raise are read
  unfoldable pub row_of :
      Fields → Result Fields → Result ℤ → Result Json → Result Json → Result (List Json)
  row_of r parsed listen_port detected_id hive_id = do
    fs ← parsed
    port ← listen_port
    detected ← detected_id
    hive ← hive_id
    ok (map escape_nul_text (columns r fs port detected hive))

  -- `extract_record_fields`
  unfoldable pub extract_record_fields : Fields → Result (List Json)
  extract_record_fields r =
      row_of r (parsed_of (get (codes "parsed_request") r))
        (listen_port_of (get (codes "listen_port") r))
        (optional_int (detected_of (get (codes "is_detected") r) (get (codes "isDetected") r)))
        (optional_int (get (codes "hive_id") r))
