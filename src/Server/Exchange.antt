-- ===== src/Server/Exchange.antt =====
-- The way of a report from manyfaced/client/report_sender.py over manyfaced/server/server.py to the row of
-- manyfaced/db/sql_builder.py.
use manyfaced_honeypot.Base.{
  true, false, not, Option, none, some, List, [], ◌∷◌, map, get_elem?, Text, codes, ◌≡◌, refl, ap,
  ◌∙◌, inl, inr, is_empty, text_eq, or_text, Bool-cases, lookup, text_key, pos,
}
use manyfaced_honeypot.Classification.{Source, classify}
use manyfaced_honeypot.Values.{
  ok, Json, null, bool, integer, float, string, array, object, Fields, get, is_true, is_filled,
  or_else, empty, is_nonzero,
}
use manyfaced_honeypot.Sender.Message.{Bear, parsed_request_of, data_dict, message_of}
use manyfaced_honeypot.Server.{
  Attribution, flat_of, recover_port, recover_ip, recovered, promoted_by, promoted_or_flat,
  promote_attribution, profile_dict, profile_field, text_or_fail, bear_record, record_of, Backend,
  report_of, parse_message,
}
use manyfaced_honeypot.Server.Promotion.{IsPromoted, promote_attribution-IsAttribution}
use manyfaced_honeypot.Server.Acknowledgement.{HasNoColon, split_once-HasNoColon}
use manyfaced_honeypot.Storage.{
  escape_text, escape_nul_text, columns, row_of, listen_port_of, extract_record_fields,
  optional_int,
}

recover_port-true : (bp : Fields) (old : Json) → is_true old ≡ true → recover_port bp old ≡ ok old
recover_port-true bp old h = rw h refl

recover_ip-true : (bp : Fields) (old : Json) → is_true old ≡ true → recover_ip bp old ≡ old
recover_ip-true bp old h = rw h refl

-- A report with an address and a port gives its own to the record, and its profile cannot make the
-- promotion raise.
promoted_or_flat-ok :
    (flat : Attribution) (o : Option Fields)
    → is_true flat.ip ≡ true
    → is_true flat.listen_port ≡ true
    → (a : Attribution) × (promoted_or_flat flat o ≡ ok a)
      × (a.ip ≡ flat.ip)
      × (a.listen_port ≡ flat.listen_port)
unfolding promoted_by
promoted_or_flat-ok flat none h p = (flat, refl, refl, refl)
promoted_or_flat-ok flat (some bp) h p = (
  recovered bp flat flat.listen_port,
  rw (recover_port-true bp flat.listen_port p) refl,
  recover_ip-true bp flat.ip h,
  refl,
)

or_else-string : (s : Text) → or_else (string s) empty ≡ string s
or_else-string [] = refl
or_else-string (c ∷ s) = refl

filled-string : (v : Json) → is_filled v ≡ true → (t : Text) × (v ≡ string t)
filled-string (string s) h = (s, refl)
filled-string null h = cc
filled-string (bool b) h = cc
filled-string (integer n) h = cc
filled-string (float n b s) h = cc
filled-string (array xs) h = cc
filled-string (object fs) h = cc

IsPromoted-string :
    (old source v : Json) (s : Text)
    → old ≡ string s
    → IsPromoted old source v
    → (t : Text) × (v ≡ string t)
IsPromoted-string old source v s g (inl (_, e)) = (s, e ∙ g)
IsPromoted-string old source v s g (inr (inl (_, h, e))) =
    let (t, same) = filled-string source h in (t, e ∙ same)
IsPromoted-string old source v s g (inr (inr (_, _, e))) = ([], e)

get-profile_field :
    (key : Text) (v : Json)
    → text_eq (codes "bot_profile_data") key ≡ false
    → get key (profile_field v) ≡ null
unfolding text_eq
get-profile_field key v h = elim (Bool-cases (is_true v)) [
  | inl yes_true ↦ rw yes_true (rw h refl)
  | inr other ↦ rw other refl
]

text_or_fail-string :
    (v : Json) → (t : Text) × (v ≡ string t) → (t : Text) × (text_or_fail (or_else v empty) ≡ ok t)
text_or_fail-string v (t, e) =
    (t, ap (λ w. text_or_fail (or_else w empty)) e ∙ ap text_or_fail (or_else-string t))

or_else-true : (v w : Json) → is_true v ≡ true → or_else v w ≡ v
or_else-true v w h = rw h refl

or_null : (v : Json) (s : Text) → v ≡ null → or_else (or_else (string s) v) empty ≡ string s
or_null v [] e = ap (λ w. or_else w empty) e
or_null v (c ∷ s) e = refl

abbrev stored : Json → Option Json
stored v = some (escape_nul_text v)

module _ (loads : Text → Option Json) (sources : List Source) (bear : Bear) where
  promoted :
      is_empty bear.ip ≡ false
      → is_nonzero bear.listen_port ≡ true
      → (a : Attribution) × (promote_attribution loads (data_dict bear) ≡ ok a)
        × (a.ip ≡ string bear.ip)
        × (a.listen_port ≡ integer bear.listen_port)
        × ((t : Text) × (text_or_fail (or_else a.dns_name empty) ≡ ok t))
        × ((t : Text) × (text_or_fail (or_else a.asn empty) ≡ ok t))
  unfolding promote_attribution data_dict text_eq
  promoted h p =
      let report = data_dict bear in
      let o = profile_dict loads (get (codes "bot_profile_data") report) in
      let own_ip = or_else-string bear.ip in
      let own_port = or_else-true (integer bear.listen_port) (integer (pos 0)) p in
      let (a, e, same_ip, same_port) =
        promoted_or_flat-ok (flat_of report) o (ap is_true own_ip ∙ ap not h)
          (ap is_true own_port ∙ p) in
      let is = promote_attribution-IsAttribution loads report a e in
      (
        a,
        e,
        same_ip ∙ own_ip,
        same_port ∙ own_port,
        text_or_fail-string a.dns_name (
            IsPromoted-string (get (codes "dns_name") report) _ a.dns_name bear.dns_name refl
              is.dns_name),
        text_or_fail-string a.asn
            (IsPromoted-string (get (codes "asn") report) _ a.asn bear.asn refl is.asn),
      )

  -- the record of a bear's report, the promotion being given
  abbrev record_by : Attribution → Text → Text → Fields
  record_by a dns number =
      bear_record (data_dict bear) a (classify sources dns [] number []) (string bear.raw_request)
        (string bear.timestamp) (object (parsed_request_of bear)) (integer bear.is_detected)

  made :
      (a : Attribution) (dns number : Text)
      → promote_attribution loads (data_dict bear) ≡ ok a
      → text_or_fail (or_else a.dns_name empty) ≡ ok dns
      → text_or_fail (or_else a.asn empty) ≡ ok number
      → record_of loads sources (object (data_dict bear)) ≡ ok (record_by a dns number)
  unfolding record_of data_dict text_eq
  made a dns number e d n = rw (e, d, n) refl

  fields_made :
      (dumps : Fields → Text) (str_of : Json → Text) (a : Attribution) (dns number : Text)
      → a.listen_port ≡ integer bear.listen_port
      → is_nonzero bear.listen_port ≡ true
      → extract_record_fields dumps str_of (record_by a dns number)
        ≡ ok (
            map escape_nul_text (
              columns dumps str_of
                (record_by a dns number)
                (parsed_request_of bear)
                bear.listen_port
                (integer bear.is_detected)
                null))
  unfolding extract_record_fields row_of bear_record data_dict text_eq
  fields_made dumps str_of a dns number port p =
      let own_port : listen_port_of (or_else a.listen_port (integer (pos 0)))
          ≡ ok bear.listen_port =
        ap (λ v. listen_port_of (or_else v (integer (pos 0)))) port
        ∙ ap listen_port_of (or_else-true (integer bear.listen_port) (integer (pos 0)) p) in
      let no_hive : get (codes "hive_id") (record_by a dns number) ≡ null =
        get-profile_field (codes "hive_id") (get (codes "bot_profile_data") (data_dict bear))
          refl in
      rw own_port (rw (ap optional_int no_hive) refl)

  -- A bear with an address and a port is stored with what it carries: the server makes a record of
  -- its report and a row of the record, in which the address, the path, the raw request, the
  -- detected id and the port stand, the texts with NUL escaped.
  pub data_dict-row :
      (dumps : Fields → Text) (str_of : Json → Text)
      → is_empty bear.ip ≡ false
      → is_nonzero bear.listen_port ≡ true
      → (r : Fields) × (row : List Json) × (record_of loads sources (object (data_dict bear))
          ≡ ok r)
        × (extract_record_fields dumps str_of r ≡ ok row)
        × (get_elem? row 0 ≡ some (string (escape_text bear.ip)))
        × (get_elem? row 3 ≡ some (string (escape_text bear.path)))
        × (get_elem? row 6 ≡ some (string (escape_text bear.raw_request)))
        × (get_elem? row 12 ≡ some (integer bear.is_detected))
        × (get_elem? row 16 ≡ some (integer bear.listen_port))
  unfolding data_dict text_eq columns bear_record
  data_dict-row dumps str_of h p =
      let (a, e, same_ip, same_port, (dns, d), (number, n)) = promoted h p in
      (
        record_by a dns number,
        map escape_nul_text (
            columns dumps str_of (record_by a dns number) (parsed_request_of bear) bear.listen_port
              (integer bear.is_detected) null),
        made a dns number e d n,
        fields_made dumps str_of a dns number same_port p,
        ap (λ v. some (escape_nul_text (or_else v empty))) same_ip
            ∙ ap stored (or_else-string bear.ip),
        ap stored (
            or_null (get (codes "request_path") (record_by a dns number)) bear.path (
              get-profile_field (codes "request_path")
                (get (codes "bot_profile_data") (data_dict bear)) refl)),
        ap stored (or_else-string bear.raw_request),
        refl,
        refl,
      )

-- A message of the client, whose identifier has no colon and is known to the server under the client's
-- password, is read back by the server as the report that was sent, given that the cipher decrypts
-- what it encrypts and that json reads what it wrote.
pub message_of-report_of :
    {St D : Type 0} (b : Backend St D) (encrypt : Text → Text → Text) (dumps : Json → Text)
    (bear : Bear) (client password sensor_id : Text)
    → HasNoColon (or_text sensor_id client)
    → lookup (or_text sensor_id client) b.authorized_bees ≡ some password
    → b.decrypt password (encrypt password (dumps (object (data_dict bear))))
      ≡ ok (dumps (object (data_dict bear)))
    → b.loads_bytes (dumps (object (data_dict bear))) ≡ some (object (data_dict bear))
    → report_of b (message_of encrypt dumps bear client password sensor_id)
      ≡ ok (object (data_dict bear))
unfolding message_of report_of parse_message
message_of-report_of b encrypt dumps bear client password sensor_id n k d l =
    rw
      (
        split_once-HasNoColon (or_text sensor_id client)
            (encrypt password (dumps (object (data_dict bear)))) n,
        k,
        d,
        l,
      )
      refl
