-- ===== src/Values.antt =====
-- The values that json.loads gives and what Python reads off them, and exceptions as values, for
-- manyfaced/server/server.py, manyfaced/db/sql_builder.py and manyfaced/db/storage.py.
use manyfaced_honeypot.Base.{
  Bool, true, false, not, Option, none, some, ◌≡◌, refl, Text, text_eq, is_empty, [], if◌then◌else◌,
  ◌==◌, ℤ, pos, negsuc, parse_int,
}

pub data Fault : Type 0 where
  type_error value_error overflow_error attribute_error key_error connection_error os_error
        other_error :
      Fault

-- What a call leaves its caller with: the exception it raised, or its value.
pub data Result (A : Type 0) : Type 0 where
  raise : Fault → Result A
  ok : A → Result A

infixl 5 ◌>>=◌
abbrev pub ◌>>=◌ : {A B : Type 0} → Result A → (A → Result B) → Result B
raise fault >>= next = raise fault
ok value >>= next = next value

-- A sequence of two calls returns only where both do.
pub >>=-returns :
    {A B : Type 0} (next : A → Result B) {out : B} (first : Result A)
    → (first >>= next) ≡ ok out
    → (value : A) × (next value ≡ ok out) × (first ≡ ok value)
>>=-returns next (raise fault) e = cc
>>=-returns next (ok value) e = (value, e, refl)

-- What `int` does with a float: its whole part, a ValueError or an OverflowError.
pub data FloatInt : Type 0 where
  whole : ℤ → FloatInt
  nan infinite : FloatInt

-- A float is carried with what `int`, `bool` and `str` make of it.
mutual
  pub data Json : Type 0 where
    null : Json
    bool : Bool → Json
    integer : ℤ → Json
    float : FloatInt → Bool → Text → Json
    string : Text → Json
    array : Items → Json
    object : Fields → Json

  pub data Items : Type 0 where
    nil : Items
    cons : Json → Items → Items

  pub data Fields : Type 0 where
    end : Fields
    field : Text → Json → Fields → Fields

-- `d.get(key)` and `key in d`
abbrev pub find : Text → Fields → Option Json
find key end = none
find key (field k v fs) = if text_eq k key then some v else find key fs

abbrev pub get : Text → Fields → Json
get key fs = elim (find key fs) [ none ↦ null | some v ↦ v ]

-- `d[key]`
abbrev pub index : Text → Fields → Result Json
index key fs = elim (find key fs) [ none ↦ raise key_error | some v ↦ ok v ]

abbrev pub is_nonzero : ℤ → Bool
is_nonzero (pos n) = not (n == 0)
is_nonzero (negsuc n) = true

-- `bool(v)`
abbrev pub is_true : Json → Bool
is_true null = false
is_true (bool b) = b
is_true (integer n) = is_nonzero n
is_true (float n b s) = b
is_true (string s) = not (is_empty s)
is_true (array nil) = false
is_true (array (cons _ _)) = true
is_true (object end) = false
is_true (object (field _ _ _)) = true

-- `v or w`
abbrev pub or_else : Json → Json → Json
or_else v w = if is_true v then v else w

abbrev pub empty : Json
empty = string []

-- `int(v)`
abbrev pub int_of : Json → Result ℤ
int_of null = raise type_error
int_of (bool true) = ok (pos 1)
int_of (bool false) = ok (pos 0)
int_of (integer n) = ok n
int_of (float (whole n) b s) = ok n
int_of (float nan b s) = raise value_error
int_of (float infinite b s) = raise overflow_error
int_of (string s) = elim (parse_int s) [ none ↦ raise value_error | some n ↦ ok n ]
int_of (array xs) = raise type_error
int_of (object fs) = raise type_error

-- `isinstance(v, str) and v`
abbrev pub is_filled : Json → Bool
is_filled (string s) = not (is_empty s)
is_filled v = false
