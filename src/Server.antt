-- ===== src/Server.antt =====
-- manyfaced/server/server.py, the part of manyfaced/handlers/base_handler.py that it runs, and
-- manyfaced/db/dbconnect.py: from the message of a connection to the storage and the reply. AES, json
-- and the storage backend are parameters.
pub mod Promotion
pub mod Acknowledgement
pub mod Exchange
use manyfaced_honeypot.Base.{
  ℕ, Bool, true, false, not, Option, none, some, List, [], ◌∷◌, if◌then◌else◌, ◌==◌, Text, codes,
  is_digit, parse_int, split_once, ℤ, pos, Dict, lookup, text_key,
}
use manyfaced_honeypot.Classification.{Source, Classification, benign, malicious, unknown, classify}
use manyfaced_honeypot.Values.{
  Fault, type_error, value_error, attribute_error, connection_error, os_error, Result, ok, raise,
  ◌>>=◌, Json, null, integer, string, object, Fields, end, field, find, get, index, is_true,
  is_filled, or_else, empty,
}

-- what stands after the last colon
unfoldable pub after_last_colon : Text → Option Text
after_last_colon [] = none
after_last_colon (c ∷ s) = elim (after_last_colon s) [
  | some t ↦ some t
  | none ↦ if c == b':' then some s else none
]

abbrev to_int : Option ℤ → Result ℤ
to_int none = raise value_error
to_int (some n) = ok n

abbrev pub port_of_suffix : Option Text → Result ℤ
port_of_suffix none = ok (pos 0)
port_of_suffix (some suffix) = if is_digit suffix then to_int (parse_int suffix) else ok (pos 0)

-- `_port_from_host`
unfoldable pub port_from_host : Json → Result ℤ
port_from_host (string s) = port_of_suffix (after_last_colon s)
port_from_host v = ok (pos 0)

-- the fields that `_promote_attribution` gives
pub record Attribution : Type 0 where
  pub ip : Json
  pub asn : Json
  pub org : Json
  pub ua : Json
  pub dns_name : Json
  pub country : Json
  pub continent : Json
  pub login : Json
  pub listen_port : Json

-- `_promote_attribution`
abbrev pub flat_of : Fields → Attribution
flat_of report = record {
  ip = or_else (get (codes "ip") report) empty;
  asn = or_else (get (codes "asn") report) empty;
  org = or_else (get (codes "org") report) empty;
  ua = or_else (get (codes "ua") report) empty;
  dns_name = or_else (get (codes "dns_name") report) empty;
  country = or_else (get (codes "country") report) empty;
  continent = or_else (get (codes "continent") report) empty;
  login = or_else (get (codes "login") report) empty;
  listen_port = or_else (get (codes "listen_port") report) (integer (pos 0));
}

abbrev pub dict_of : Option Json → Option Fields
dict_of (some (object fs)) = some fs
dict_of v = none

-- `bp`, where it is a dict in the end
abbrev pub profile_dict : (Text → Option Json) → Json → Option Fields
profile_dict loads (string s) = dict_of (loads s)
profile_dict loads v = dict_of (some v)

abbrev pub filled_or : Json → Json → Json
filled_or v old = if is_filled v then v else old

abbrev pub recover_ip : Fields → Json → Json
recover_ip bp old = if is_true old then old else filled_or (get (codes "bot_ip") bp) old

-- the value that a dict in the profile holds under the same name
abbrev pub inner : Text → Json → Json → Json
inner key (object fs) old = filled_or (get key fs) old
inner key v old = filled_or v old

abbrev pub recover : Text → Fields → Json → Json
recover key bp old = if is_true old then old else inner key (get key bp) old

abbrev pub metadata_port : Json → Json → Result Json
metadata_port (object fs) old = do n ← port_from_host (get (codes "host") fs); ok (integer n)
metadata_port v old = ok old

abbrev pub host_port : Fields → Json → Result Json
host_port bp port =
    let from_host = (do n ← port_from_host (get (codes "host") bp); ok (integer n)) in
    if is_true port then ok port else from_host

abbrev pub recover_port : Fields → Json → Result Json
recover_port bp old =
    let from_profile = metadata_port (get (codes "metadata") bp) old >>= host_port bp in
    if is_true old then ok old else from_profile

abbrev pub recovered : Fields → Attribution → Json → Attribution
recovered bp flat port = record {
  ip = recover_ip bp flat.ip;
  asn = recover (codes "asn") bp flat.asn;
  org = recover (codes "org") bp flat.org;
  ua = recover (codes "ua") bp flat.ua;
  dns_name = recover (codes "dns_name") bp flat.dns_name;
  country = recover (codes "country") bp flat.country;
  continent = recover (codes "continent") bp flat.continent;
  login = recover (codes "login") bp flat.login;
  listen_port = port;
}

unfoldable pub promoted_by : Fields → Attribution → Result Attribution
promoted_by bp flat = do port ← recover_port bp flat.listen_port; ok (recovered bp flat port)

abbrev pub promoted_or_flat : Attribution → Option Fields → Result Attribution
promoted_or_flat flat none = ok flat
promoted_or_flat flat (some bp) = promoted_by bp flat

unfoldable pub promote_attribution : (Text → Option Json) → Fields → Result Attribution
promote_attribution loads report =
    promoted_or_flat (flat_of report) (profile_dict loads (get (codes "bot_profile_data") report))

-- A text, a false value as the empty text; another value has no `strip`.
abbrev pub text_or_fail : Json → Result Text
text_or_fail (string s) = ok s
text_or_fail v = if is_true v then raise attribute_error else ok []

abbrev pub name_of : Classification → Text
name_of benign = codes "benign"
name_of malicious = codes "malicious"
name_of unknown = codes "unknown"

-- `classify` on values
abbrev pub classify_values : List Source → Json → Json → Result (Classification × Text)
classify_values sources dns_name asn = do
  rdns ← text_or_fail dns_name
  number ← text_or_fail asn
  ok (classify sources rdns [] number [])

-- `data.get(key, default)`
abbrev pub get_or : Text → Fields → Json → Json
get_or key fs default = elim (find key fs) [ none ↦ default | some v ↦ v ]

-- the field that is added last, where the profile is true
abbrev pub profile_field : Json → Fields
profile_field profile =
    if is_true profile then field (codes "bot_profile_data") profile end else end

-- The record that `Insert` builds of the `BearRequests` that `save_data` builds.
unfoldable pub bear_record :
    Fields → Attribution → Classification × Text → Json → Json → Json → Json → Fields
bear_record report promoted (classification, benign_source) raw_request timestamp parsed_request
      is_detected =
    field (codes "ip") promoted.ip (
      field (codes "raw_request") raw_request (
        field (codes "timestamp") timestamp (
          field (codes "parsed_request") parsed_request (
            field (codes "is_detected") is_detected (
              field (codes "HIVELOGIN") (get_or (codes "HIVELOGIN") report empty) (
                field (codes "ua") promoted.ua (
                  field (codes "dns_name") promoted.dns_name (
                    field (codes "country") promoted.country (
                      field (codes "continent") promoted.continent (
                        field (codes "login") promoted.login (
                          field (codes "listen_port")
                            (or_else promoted.listen_port (integer (pos 0)))
                            (field (codes "bot_asn") (or_else promoted.asn empty) (
                              field (codes "bot_org") (or_else promoted.org empty) (
                                field (codes "classification") (string (name_of classification)) (
                                  field (codes "benign_source") (string benign_source) (
                                    profile_field
                                      (get (codes "bot_profile_data") report)))))))))))))))))

-- the record of a report, or what making it raises
unfoldable pub record_of : (Text → Option Json) → List Source → Json → Result Fields
record_of loads sources (object report) = do
  promoted ← promote_attribution loads report
  classified ←
      classify_values sources (or_else promoted.dns_name empty) (or_else promoted.asn empty)
  raw_request ← index (codes "raw_request") report
  timestamp ← index (codes "timestamp") report
  parsed_request ← index (codes "parsed_request") report
  is_detected ← index (codes "is_detected") report
  ok (bear_record report promoted classified raw_request timestamp parsed_request is_detected)
record_of loads sources v = raise attribute_error

-- the storage backend and the dump file
pub record ServerState (St D : Type 0) : Type 0 where
  pub storage : St
  pub dumped : D

-- the identifier and the encrypted report
abbrev pub parsed_message : Option (Text × Text) → Result (Text × Text)
parsed_message none = raise value_error
parsed_message (some parts) = ok parts

-- `parse_message`
unfoldable pub parse_message : Text → Result (Text × Text)
parse_message message = parsed_message (split_once (codes ":") message)

-- `get_key`
abbrev pub known_key : Option Text → Result Text
known_key none = raise value_error
known_key (some key) = ok key

-- `parse_json`: bytes that are no UTF-8 or no JSON are a ValueError.
abbrev pub parsed_json : Option Json → Result Json
parsed_json none = raise value_error
parsed_json (some v) = ok v

-- What the server is given: the keys of the sensors, the cipher, json on bytes and on texts, the
-- allowlist, and the `insert` of the backend and the dump file, which change nothing where they raise.
pub record Backend (St D : Type 0) : Type 0 where
  pub authorized_bees : Dict Text Text
  pub decrypt : Text → Text → Result Text
  pub loads_bytes : Text → Option Json
  pub loads : Text → Option Json
  pub dumps : Json → Text
  pub sources : List Source
  pub insert : Fields → St → Result St
  pub dump_file : Json → D → Result D

-- The reply of `_handle_client`: none after an error of a socket or of a file.
abbrev pub reply_of : Result (Unit {0}) → Option Text
reply_of (ok _) = some (codes "200 OK")
reply_of (raise connection_error) = none
reply_of (raise os_error) = none
reply_of (raise e) = some (codes "CODE 300 ERROR")

abbrev pub dump_report :
    {St D : Type 0} → ServerState St D → Result D → ServerState St D × Result (Unit {0})
dump_report st (ok d) = (record st { dumped = d }, ok tt)
dump_report st (raise e) = (st, raise e)

abbrev pub answered :
    {St D : Type 0} → ServerState St D × Result (Unit {0}) → ServerState St D × Option Text
answered (st, out) = (st, reply_of out)

module _ {St D : Type 0} (b : Backend St D) where
  -- the report of a message, up to `process_request`
  unfoldable pub report_of : Text → Result Json
  report_of message = do
    (identifier, encrypted) ← parse_message message
    key ← known_key (lookup identifier b.authorized_bees)
    decrypted ← b.decrypt key encrypted
    parsed_json (b.loads_bytes decrypted)

  abbrev pub saved : Json → ServerState St D → Result St → ServerState St D × Result (Unit {0})
  saved report st (ok s) = (record st { storage = s }, ok tt)
  saved report st (raise type_error) =
      dump_report st (b.dump_file (string (b.dumps report)) st.dumped)
  saved report st (raise connection_error) =
      dump_report st (b.dump_file (string (b.dumps report)) st.dumped)
  saved report st (raise e) = (st, raise e)

  -- `save_data`
  unfoldable pub save_data : Json → ServerState St D → ServerState St D × Result (Unit {0})
  save_data report st =
      saved report st (do r ← record_of b.loads b.sources report; b.insert r st.storage)

  abbrev pub process : Result Json → ServerState St D → ServerState St D × Result (Unit {0})
  process (ok report) st = save_data report st
  process (raise e) st = (st, raise e)

  -- `_handle_client` on the received message
  unfoldable pub handle_client : Text → ServerState St D → ServerState St D × Option Text
  handle_client message st = answered (process (report_of message) st)
