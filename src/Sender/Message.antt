-- ===== src/Sender/Message.antt =====
-- The report that manyfaced/client/report_sender.py makes of a `BearStorage` of
-- manyfaced/common/bearstorage.py, and its message. The cipher and json are parameters.
use manyfaced_honeypot.Base.{Option, none, some, ◌∷◌, ◌++◌, if◌then◌else◌, Text, codes, or_text, ℤ}
use manyfaced_honeypot.Values.{Json, integer, string, object, Fields, end, field, is_true}

-- The attributes of a `BearStorage` that are sent. The headers are none where they are no dict.
pub record Bear : Type 0 where
  pub ip : Text
  pub raw_request : Text
  pub timestamp : Text
  pub command : Text
  pub path : Text
  pub version : Text
  pub headers : Option Fields
  pub is_detected : ℤ
  pub hostname : Text
  pub ua : Text
  pub dns_name : Text
  pub country : Text
  pub continent : Text
  pub login : Text
  pub listen_port : ℤ
  pub asn : Text
  pub org : Text
  pub bot_profile_data : Json

abbrev headers_of : Option Fields → Fields
headers_of none = end
headers_of (some fs) = fs

abbrev pub parsed_request_of : Bear → Fields
parsed_request_of bear = field (codes "command") (string bear.command) (
    field (codes "path") (string bear.path) (
      field (codes "request_version") (string bear.version)
        (field (codes "headers") (object (headers_of bear.headers)) end)))

-- `data_dict`
unfoldable pub data_dict : Bear → Fields
data_dict bear = field (codes "ip") (string bear.ip) (
    field (codes "raw_request") (string bear.raw_request) (
      field (codes "timestamp") (string bear.timestamp) (
        field (codes "parsed_request") (object (parsed_request_of bear)) (
          field (codes "is_detected") (integer bear.is_detected) (
            field (codes "HIVELOGIN") (string bear.hostname) (
              field (codes "ua") (string bear.ua) (
                field (codes "dns_name") (string bear.dns_name) (
                  field (codes "country") (string bear.country) (
                    field (codes "continent") (string bear.continent) (
                      field (codes "login") (string bear.login) (
                        field (codes "listen_port") (integer bear.listen_port) (
                          field (codes "asn") (string bear.asn) (
                            field (codes "org") (string bear.org) (
                              if is_true bear.bot_profile_data
                              then field (codes "bot_profile_data") bear.bot_profile_data end
                              else end))))))))))))))

-- The message, with the identifier of the sensor or, without one, the address of the client.
unfoldable pub message_of : (Text → Text → Text) → (Json → Text) → Bear → Text → Text → Text → Text
message_of encrypt dumps bear client password sensor_id =
    or_text sensor_id client ++ b':' ∷ encrypt password (dumps (object (data_dict bear)))
