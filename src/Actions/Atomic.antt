-- ===== src/Actions/Atomic.antt =====
-- actions/atomic_add.go: the values, inputs and records of atomic operations, and what
-- db/atomic_executor.go sends of a value to the database.
-- A text, a time and a float are numbers, an int64 is the number of its bits, and a field's name is
-- a number; json.Valid is a parameter.
pub mod Values
pub mod Records
pub mod Tests
use request_generator.Common.{
  ℕ, ◌+◌, Bool, true, false, ◌||◌, Option, none, some, List, [], ◌∷◌, ◌==◌, if◌then◌else◌,
}
use request_generator.Common.Assoc.{insert}

-- The variants of the union, each of which may be absent.
pub record Value : Type 0 where
  pub string : Option ℕ
  pub int : Option ℕ
  pub float : Option ℕ
  pub bool : Option Bool
  pub time : Option ℕ
  pub strings : Option (List ℕ)
  pub ints : Option (List ℕ)
  pub json : Option ℕ

abbrev pub empty : Value
empty = record {
  string = none;
  int = none;
  float = none;
  bool = none;
  time = none;
  strings = none;
  ints = none;
  json = none;
}

abbrev pub atomic_string : ℕ → Value
atomic_string s = record empty { string = some s }

abbrev pub atomic_int : ℕ → Value
atomic_int n = record empty { int = some n }

abbrev pub atomic_float : ℕ → Value
atomic_float f = record empty { float = some f }

abbrev pub atomic_bool : Bool → Value
atomic_bool b = record empty { bool = some b }

abbrev pub atomic_time : ℕ → Value
atomic_time t = record empty { time = some t }

abbrev pub present {ℓ} : {A : Type ℓ} → Option A → ℕ
present none = 0
present (some a) = 1

unfoldable pub variants : Value → ℕ
variants v =
    (((((((present v.string + present v.int) + present v.float) + present v.bool) + present v.time)
          + present v.strings)
        + present v.ints)
      + present v.json)

pub data Fault : Type 0 where
  invalid_json not_one_variant : Fault

module _ (json_valid : ℕ → Bool) where
  abbrev pub count_fault : Value → Option Fault
  count_fault v = if variants v == 1 then none else some not_one_variant

  -- `none` is the nil error.
  unfoldable pub validate : Value → Option Fault
  validate v = elim v.json [
    | none ↦ count_fault v
    | some j ↦ if json_valid j then count_fault v else some invalid_json
  ]

-- A dynamic Go value.
pub data Dynamic : Type 0 where
  nil : Dynamic
  a_string : ℕ → Dynamic
  an_int : ℕ → Dynamic
  a_float : ℕ → Dynamic
  a_bool : Bool → Dynamic
  a_time : ℕ → Dynamic
  some_strings : List ℕ → Dynamic
  some_ints : List ℕ → Dynamic
  some_json : ℕ → Dynamic
  -- pq.Array of texts and of numbers, and a document as a text.
  array_of_strings : List ℕ → Dynamic
  array_of_ints : List ℕ → Dynamic
  json_text : ℕ → Dynamic
  -- json.RawMessage.
  raw_json : ℕ → Dynamic

abbrev pub or_else {ℓ} : {A : Type ℓ} → Option A → (A → Dynamic) → Dynamic → Dynamic
or_else none f d = d
or_else (some a) f d = f a

unfoldable pub interface : Value → Dynamic
interface v = or_else v.string a_string (
    or_else v.int an_int (
      or_else v.float a_float (
        or_else v.bool a_bool (
          or_else v.time a_time (
            or_else v.strings some_strings
              (or_else v.ints some_ints (or_else v.json some_json nil)))))))

unfoldable pub atomic_db_value : Value → Dynamic
atomic_db_value v =
    or_else v.strings array_of_strings
      (or_else v.ints array_of_ints (or_else v.json json_text (interface v)))

unfoldable pub atomic_response_value : Value → Dynamic
atomic_response_value v = or_else v.json raw_json (interface v)

-- The field of a name, in an input or a record.
unfoldable pub field : ℕ → List (ℕ × Value) → Option Value
field name [] = none
field name ((n, v) ∷ fields) = if n == name then some v else field name fields

abbrev pub string_of : ℕ → List (ℕ × Value) → Option ℕ
string_of name fields = elim (field name fields) [ none ↦ none | some v ↦ v.string ]

abbrev pub int_of : ℕ → List (ℕ × Value) → Option ℕ
int_of name fields = elim (field name fields) [ none ↦ none | some v ↦ v.int ]

-- A whole number is read as a float too; `to_float` is the conversion.
abbrev pub float_of : (ℕ → ℕ) → ℕ → List (ℕ × Value) → Option ℕ
float_of to_float name fields = elim (field name fields) [
  | none ↦ none
  | some v ↦ elim v.float [
    | some f ↦ some f
    | none ↦ elim v.int [ none ↦ none | some n ↦ some (to_float n) ]
  ]
]

-- The empty name, and the two that every record has.
abbrev pub no_name : ℕ
no_name = 0

abbrev pub value_name : ℕ
value_name = 1

abbrev pub primary_key_name : ℕ
primary_key_name = 2

pub record Record : Type 0 where
  pub value : ℕ
  pub primary_key : ℕ
  pub fields : List (ℕ × Value)

unfoldable pub is_seen : ℕ → List ℕ → Bool
is_seen name [] = false
is_seen name (n ∷ seen) = n == name || is_seen name seen

pub data RecordFault : Type 0 where
  no_field_name : RecordFault
  duplicated_or_reserved : ℕ → RecordFault
  bad_field : ℕ → Fault → RecordFault

-- The loop that fills the map that MarshalJSON encodes.
unfoldable pub response_fields : List (ℕ × Value) → List (ℕ × Dynamic) → List (ℕ × Dynamic)
response_fields [] m = m
response_fields ((n, v) ∷ fields) m = response_fields fields (insert n (atomic_response_value v) m)

module _ (json_valid : ℕ → Bool) where
  unfoldable pub validate_fields : List ℕ → List (ℕ × Value) → Option RecordFault
  validate_fields seen [] = none
  validate_fields seen ((n, v) ∷ fields) =
      let rest = validate_fields (n ∷ seen) fields in
      if n == no_name
      then some no_field_name
      else if is_seen n seen
      then some (duplicated_or_reserved n)
      else elim (validate json_valid v) [ some e ↦ some (bad_field n e) | none ↦ rest ]

  unfoldable pub validate_record : Record → Option RecordFault
  validate_record r = validate_fields (value_name ∷ primary_key_name ∷ []) r.fields

  -- The map that MarshalJSON encodes; `none` is the error of a record that does not validate.
  unfoldable pub marshal : Record → Option (List (ℕ × Dynamic))
  marshal r = elim (validate_record r) [
    | some e ↦ none
    | none ↦ some (
        response_fields r.fields (
          insert primary_key_name (a_string r.primary_key) (insert value_name (an_int r.value) [])))
  ]
