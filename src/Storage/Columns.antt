-- ===== src/Storage/Columns.antt =====
-- The row that manyfaced/db/sql_builder.py makes of a record.
use manyfaced_honeypot.Base.{
  true, false, Option, none, some, List, [], ◌∷◌, map, length, ◌≡◌, ◌≢◌, refl, arith, All, Text,
  subst, parse_int, pos, codes, ◌==◌, ℤ, pos, ◌∙◌, Bool-cases, inl, inr,
}
use manyfaced_honeypot.Values.{
  value_error, Result, ok, raise, Json, null, bool, whole, nan, infinite, integer, float, string,
  array, object, Fields, get,
}
use manyfaced_honeypot.Storage.{
  escape_text, escape_nul_text, columns, row_of, or_zero, extract_record_fields, listen_port_of,
  optional_int, detected_of,
}

-- no NUL
abbrev pub IsNulFree : Text → Type 0
IsNulFree = All (λ c. c ≢ 0)

abbrev pub IsStorable : Json → Type 0
IsStorable (string s) = IsNulFree s
IsStorable v = Unit

escape_text-IsNulFree : (s : Text) → IsNulFree (escape_text s)
unfolding escape_text
escape_text-IsNulFree [] = tt
escape_text-IsNulFree (c ∷ s) = elim (Bool-cases (c == 0)) [
  | inl nul ↦
      rw nul (omega arith, (omega arith, (omega arith, (omega arith, escape_text-IsNulFree s))))
  | inr other ↦ rw other (ground arith, escape_text-IsNulFree s)
]

-- A text without NUL is stored as it is.
pub escape_text-id : (s : Text) → IsNulFree s → escape_text s ≡ s
unfolding escape_text
escape_text-id [] h = refl
escape_text-id (c ∷ s) (n, h) = ground (arith, escape_text-id s)

escape_all-IsStorable : (l : List Json) → All IsStorable (map escape_nul_text l)
escape_all-IsStorable [] = tt
escape_all-IsStorable (null ∷ l) = (tt, escape_all-IsStorable l)
escape_all-IsStorable (bool b ∷ l) = (tt, escape_all-IsStorable l)
escape_all-IsStorable (integer n ∷ l) = (tt, escape_all-IsStorable l)
escape_all-IsStorable (float n b s ∷ l) = (tt, escape_all-IsStorable l)
escape_all-IsStorable (string s ∷ l) = (escape_text-IsNulFree s, escape_all-IsStorable l)
escape_all-IsStorable (array xs ∷ l) = (tt, escape_all-IsStorable l)
escape_all-IsStorable (object fs ∷ l) = (tt, escape_all-IsStorable l)

-- no infinite float
abbrev pub IsFinite : Json → Type 0
IsFinite (float infinite b s) = ⊥
IsFinite v = Unit

or_zero-parse_int :
    (o : Option ℤ)
    → (n : ℤ) × (or_zero (elim o [ none ↦ raise value_error | some n ↦ ok n ]) ≡ ok n)
or_zero-parse_int none = (pos 0, refl)
or_zero-parse_int (some n) = (n, refl)

-- Any other value is a port, or counts as the unknown port 0.
listen_port_of-IsFinite : (v : Json) → IsFinite v → (n : ℤ) × (listen_port_of v ≡ ok n)
listen_port_of-IsFinite null h = (pos 0, refl)
listen_port_of-IsFinite (bool true) h = (pos 1, refl)
listen_port_of-IsFinite (bool false) h = (pos 0, refl)
listen_port_of-IsFinite (integer n) h = (n, refl)
listen_port_of-IsFinite (float (whole n) b s) h = (n, refl)
listen_port_of-IsFinite (float nan b s) h = (pos 0, refl)
listen_port_of-IsFinite (float infinite b s) h = absurd h
listen_port_of-IsFinite (string []) h = (pos 0, refl)
listen_port_of-IsFinite (string (c ∷ s)) h = or_zero-parse_int (parse_int (c ∷ s))
listen_port_of-IsFinite (array xs) h = (pos 0, refl)
listen_port_of-IsFinite (object fs) h = (pos 0, refl)

pub length-map : {A B : Type 0} (f : A → B) (l : List A) → length (map f l) ≡ length l
length-map f [] = refl
length-map f (x ∷ l) = omega (arith, length-map f l)

module _ (dumps : Fields → Text) (str_of : Json → Text) (r : Fields) where
  length-columns :
      (parsed : Fields) (listen_port : ℤ) (detected_id hive_id : Json)
      → length (columns dumps str_of r parsed listen_port detected_id hive_id) ≡ 21
  unfolding columns
  length-columns parsed listen_port detected_id hive_id = refl

  row_of-IsStorable :
      (parsed : Result Fields) (listen_port : Result ℤ) (detected_id hive_id : Result Json)
      (row : List Json)
      → row_of dumps str_of r parsed listen_port detected_id hive_id ≡ ok row
      → (length row ≡ 21) × All IsStorable row
  unfolding row_of
  row_of-IsStorable (ok fs) (ok n) (ok d) (ok h) row e =
      let made : map escape_nul_text (columns dumps str_of r fs n d h) ≡ row = cc in
      subst (λ l. (length l ≡ 21) × All IsStorable l) made
        (
          length-map escape_nul_text (columns dumps str_of r fs n d h) ∙ length-columns fs n d h,
          escape_all-IsStorable (columns dumps str_of r fs n d h),
        )
  row_of-IsStorable (ok fs) (ok n) (ok d) (raise x) row e = cc
  row_of-IsStorable (ok fs) (ok n) (raise x) hive_id row e = cc
  row_of-IsStorable (ok fs) (raise x) detected_id hive_id row e = cc
  row_of-IsStorable (raise x) listen_port detected_id hive_id row e = cc

  -- A row that is made has the twenty-one columns of the INSERT statements, and no text in it holds a
  -- NUL.
  pub extract_record_fields-IsStorable :
      (row : List Json)
      → extract_record_fields dumps str_of r ≡ ok row
      → (length row ≡ 21) × All IsStorable row
  unfolding extract_record_fields
  extract_record_fields-IsStorable row h = row_of-IsStorable _ _ _ _ row h

  -- A record whose parsed request is a dict, whose port is no infinite float, and whose detected id
  -- and hive id are missing or read as integers gives a row.
  pub extract_record_fields_total :
      (parsed : Fields) (d h : Json)
      → get (codes "parsed_request") r ≡ object parsed
      → IsFinite (get (codes "listen_port") r)
      → optional_int (detected_of (get (codes "is_detected") r) (get (codes "isDetected") r)) ≡ ok d
      → optional_int (get (codes "hive_id") r) ≡ ok h
      → (row : List Json) × (extract_record_fields dumps str_of r ≡ ok row)
  unfolding extract_record_fields row_of
  extract_record_fields_total parsed d h p l e f =
      let (n, port) = listen_port_of-IsFinite (get (codes "listen_port") r) l in
      (map escape_nul_text (columns dumps str_of r parsed n d h), simp (p, port, e, f))
