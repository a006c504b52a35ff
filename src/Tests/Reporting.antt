-- ===== src/Tests/Reporting.antt =====
-- Examples on the way of a report: the server, the record and the backends.
use manyfaced_honeypot.Base.{
  ℕ, zero, suc, true, Option, some, List, [], ◌∷◌, length, All, ◌≡◌, refl, Text, codes, text_eq,
  pos, parse_int,
}
use manyfaced_honeypot.Metrics.{initial}
use manyfaced_honeypot.Values.{ok, Json, null, integer, string, object, Fields, end, field, empty}
use manyfaced_honeypot.Storage.{extract_record_fields, row_of, columns, escape_text}
use manyfaced_honeypot.Storage.Columns.{IsStorable, extract_record_fields-IsStorable}
use manyfaced_honeypot.Storage.Backends.{
  Attempt, Execution, executed, refused, committed, locked, Store, PgStore, insert, insert_pg,
}
use manyfaced_honeypot.Storage.Insertion.{Ended, insert-Ended, Outcome, insert_pg-Outcome}

abbrev print : Fields → Text
print fs = codes "{}"

abbrev show : Json → Text
show v = codes "value"

-- a record with a NUL in its path
abbrev probe_record : Fields
probe_record = field (codes "ip") (string (codes "192.0.2.7")) (
    field (codes "parsed_request") (object (field (codes "path") (string (b'/' ∷ 0 ∷ [])) end)) (
      field (codes "is_detected") (integer (pos 1018))
        (field (codes "listen_port") (string (codes "8080")) end)))

abbrev probe_row : List Json
probe_row =
    string (codes "192.0.2.7")
    ∷ empty
    ∷ empty
    ∷ string (codes "/\\x00")
    ∷ empty
    ∷ empty
    ∷ empty
    ∷ empty
    ∷ empty
    ∷ empty
    ∷ empty
    ∷ empty
    ∷ integer (pos 1018)
    ∷ null
    ∷ empty
    ∷ null
    ∷ integer (pos 8080)
    ∷ empty
    ∷ empty
    ∷ empty
    ∷ empty
    ∷ []

probe-row : extract_record_fields print show probe_record ≡ ok probe_row
unfolding extract_record_fields row_of columns escape_text parse_int text_eq
probe-row = refl

extract_record_fields-IsStorable_example : (length probe_row ≡ 21) × All IsStorable probe_row
extract_record_fields-IsStorable_example =
    extract_record_fields-IsStorable print show probe_record probe_row probe-row

-- a database that is locked for a number of attempts
abbrev busy_db : List Json → ℕ → Attempt ℕ
busy_db row zero = committed 0
busy_db row (suc n) = locked n

abbrev keep_db : ℕ → ℕ
keep_db n = n

abbrev append_dump : Fields → List Fields → Option (List Fields)
append_dump r d = some (r ∷ d)

abbrev store : ℕ → Store ℕ (List Fields)
store n = record { conn = some n; insert_count = 99; dump = []; metrics = initial }

insert-Ended_example :
    Ended print show busy_db keep_db append_dump probe_record probe_row
      (store 2)
      2
      (insert print show busy_db keep_db append_dump probe_record (store 2))
insert-Ended_example =
    insert-Ended print show busy_db keep_db append_dump probe_record probe_row (store 2) 2 refl
      probe-row

-- a server that refuses a number of calls
abbrev pg_execute : List Json → ℕ → Execution ℕ
pg_execute row zero = executed 0
pg_execute row (suc n) = refused n

abbrev pg_store : PgStore ℕ (List Fields)
pg_store = record { world = 1; dump = []; metrics = initial }

insert_pg-Outcome_example :
    Outcome print show pg_execute
      (λ w. true)
      (λ w. (true, w))
      (λ w. w)
      append_dump
      probe_record
      probe_row
      pg_store
      (insert_pg print show pg_execute
        (λ w. true)
        (λ w. (true, w))
        (λ w. w)
        append_dump
        probe_record
        pg_store)
insert_pg-Outcome_example =
    insert_pg-Outcome print show pg_execute (λ w. true) (λ w. (true, w)) (λ w. w) append_dump
      probe_record probe_row pg_store probe-row
