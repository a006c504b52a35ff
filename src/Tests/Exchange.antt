-- ===== src/Tests/Exchange.antt =====
-- Examples on the server of the reports and on the message of the client.
use manyfaced_honeypot.Base.{
  is_digit_char, split_once, starts_with, Option, none, some, List, [], ◌∷◌, ◌++◌, get_elem?, ◌≡◌,
  refl, arith, Text, codes, text_eq, lookup, pos, parse_int,
}
use manyfaced_honeypot.Values.{
  Result, ok, raise, Json, null, integer, string, object, Fields, end, field, value_error,
}
use manyfaced_honeypot.Classification.{unknown, classify, classify_from}
use manyfaced_honeypot.Storage.{extract_record_fields, escape_text}
use manyfaced_honeypot.Sender.Message.{Bear, parsed_request_of, data_dict, message_of}
use manyfaced_honeypot.Server.{
  parse_message, save_data, Attribution, flat_of, promote_attribution, promoted_by, port_from_host,
  after_last_colon, record_of, bear_record, ServerState, Backend, report_of, handle_client,
}
use manyfaced_honeypot.Server.Promotion.{IsAttribution, promote_attribution-IsAttribution}
use manyfaced_honeypot.Server.Acknowledgement.{
  IsKept, handle_client-IsKept, handle_client-unauthorized,
}
use manyfaced_honeypot.Server.Exchange.{data_dict-row, message_of-report_of}

abbrev print : Fields → Text
print fs = codes "{}"

abbrev show : Json → Text
show v = codes "value"

-- a scanner on port 8080
abbrev scanner : Bear
scanner = record {
  ip = codes "192.0.2.7";
  raw_request = codes "GET / HTTP/1.1";
  timestamp = codes "2026-01-02 03:04:05";
  command = codes "GET";
  path = codes "/";
  version = codes "HTTP/1.1";
  headers = none;
  is_detected = pos 1018;
  hostname = codes "honeybee";
  ua = [];
  dns_name = [];
  country = [];
  continent = [];
  login = [];
  listen_port = pos 8080;
  asn = [];
  org = [];
  bot_profile_data = null;
}

-- a cipher that writes the key before the text, and json with one document
abbrev seal : Text → Text → Text
seal key text = b'*' ∷ text

abbrev unseal : Text → Text → Result Text
unseal key [] = raise value_error
unseal key (c ∷ text) = ok text

abbrev document : Text
document = codes "{}"

abbrev write : Json → Text
write v = document

abbrev read : Text → Option Json
read s = some (object (data_dict scanner))

abbrev backend : Backend (List Fields) (List Json)
backend = record {
  authorized_bees = (codes "bee", codes "secret") ∷ [];
  decrypt = unseal;
  loads_bytes = read;
  loads = λ s. none;
  dumps = write;
  sources = [];
  insert = λ r st. ok (r ∷ st);
  dump_file = λ v d. ok (v ∷ d);
}

abbrev fresh_server : ServerState (List Fields) (List Json)
fresh_server = record { storage = []; dumped = [] }

data_dict-row_example :
    (r : Fields) × (row : List Json) × (record_of backend.loads [] (object (data_dict scanner))
      ≡ ok r)
    × (extract_record_fields print show r ≡ ok row)
    × (get_elem? row 0 ≡ some (string (escape_text scanner.ip)))
    × (get_elem? row 3 ≡ some (string (escape_text scanner.path)))
    × (get_elem? row 6 ≡ some (string (escape_text scanner.raw_request)))
    × (get_elem? row 12 ≡ some (integer scanner.is_detected))
    × (get_elem? row 16 ≡ some (integer scanner.listen_port))
data_dict-row_example = data_dict-row backend.loads [] scanner print show refl refl

message_of-report_of_example :
    report_of backend
      (message_of seal write scanner (codes "192.0.2.7") (codes "secret") (codes "bee"))
    ≡ ok (object (data_dict scanner))
unfolding text_eq lookup
message_of-report_of_example =
    message_of-report_of backend seal write scanner (codes "192.0.2.7") (codes "secret")
      (codes "bee") (omega arith, (omega arith, (omega arith, tt))) refl refl refl

handle_client-unauthorized_example :
    handle_client backend (codes "wasp" ++ b':' ∷ codes "*{}") fresh_server
    ≡ (fresh_server, some (codes "CODE 300 ERROR"))
unfolding text_eq lookup
handle_client-unauthorized_example =
    handle_client-unauthorized backend fresh_server (codes "wasp") (codes "*{}")
      (omega arith, (omega arith, (omega arith, (omega arith, tt)))) refl

-- a report whose profile holds the address and the port
abbrev orphan : Fields
orphan =
    field (codes "bot_profile_data")
      (object (
        field (codes "bot_ip") (string (codes "198.51.100.9")) (
          field (codes "metadata")
            (object (field (codes "host") (string (codes "honeypot:10110")) end)) end)))
      end

abbrev orphan_attribution : Attribution
orphan_attribution = record (flat_of orphan) {
  ip = string (codes "198.51.100.9");
  listen_port = integer (pos 10110);
}

promote-orphan : promote_attribution backend.loads orphan ≡ ok orphan_attribution
unfolding promote_attribution promoted_by port_from_host after_last_colon parse_int is_digit_char
    text_eq
promote-orphan = refl

promote_attribution-IsAttribution_example : IsAttribution backend.loads orphan orphan_attribution
promote_attribution-IsAttribution_example =
    promote_attribution-IsAttribution backend.loads orphan orphan_attribution promote-orphan

abbrev scanner_record : Fields
scanner_record =
    bear_record (data_dict scanner) (flat_of (data_dict scanner)) (unknown, [])
      (string scanner.raw_request) (string scanner.timestamp) (object (parsed_request_of scanner))
      (integer scanner.is_detected)

scanner-record : record_of backend.loads [] (object (data_dict scanner)) ≡ ok scanner_record
unfolding record_of promote_attribution promoted_by data_dict classify classify_from text_eq
scanner-record = refl

stored-scanner :
    handle_client backend (codes "bee" ++ b':' ∷ codes "*{}") fresh_server
    ≡ (record fresh_server { storage = scanner_record ∷ [] }, some (codes "200 OK"))
unfolding handle_client report_of parse_message save_data split_once starts_with text_eq lookup
    bear_record
stored-scanner = rw scanner-record refl

handle_client-IsKept_example :
    (report : Json) × (report_of backend (codes "bee" ++ b':' ∷ codes "*{}") ≡ ok report)
    × IsKept backend fresh_server report (record fresh_server { storage = scanner_record ∷ [] })
handle_client-IsKept_example =
    handle_client-IsKept backend fresh_server (codes "bee" ++ b':' ∷ codes "*{}")
      (record fresh_server { storage = scanner_record ∷ [] }) stored-scanner
