-- ===== src/Actions/Atomic/Records.antt =====
-- actions/atomic_add.go: the records that atomic operations return, as the response shows them.
use request_generator.Common.{
  ℕ, ◌≡◌, ◌≢◌, refl, Bool, true, false, none, some, List, [], ◌∷◌, arith,
}
use request_generator.Common.Assoc.{lookup, insert, lookup-insert}
use request_generator.Actions.Atomic.{
  Value, validate, Dynamic, a_string, an_int, atomic_response_value, field, value_name,
  primary_key_name, no_name, Record, is_seen, validate_fields, validate_record, response_fields,
  marshal,
}

module _ (json_valid : ℕ → Bool) where
  -- What the check of the fields says of the first and of the others.
  checked :
      (seen : List ℕ) (n : ℕ) (v : Value) (fields : List (ℕ × Value))
      → validate_fields json_valid seen ((n, v) ∷ fields) ≡ none
      → (n ≢ no_name)
        × (is_seen n seen ≡ false)
        × (validate json_valid v ≡ none)
        × (validate_fields json_valid (n ∷ seen) fields ≡ none)
  unfolding validate_fields
  checked seen n v fields e = ground arith

  response-seen :
      (seen : List ℕ) (name : ℕ) (fields : List (ℕ × Value)) (m : List (ℕ × Dynamic))
      → validate_fields json_valid seen fields ≡ none
      → is_seen name seen ≡ true
      → lookup name (response_fields fields m) ≡ lookup name m
  unfolding response_fields is_seen
  response-seen seen name [] m e h = refl
  response-seen seen name ((n, v) ∷ fields) m e h =
      let (named, fresh, ok, rest) = checked seen n v fields e in
      ground (
        arith,
        response-seen (n ∷ seen) name fields (insert n (atomic_response_value v) m) rest,
        lookup-insert name n (atomic_response_value v) m,
      )

  response-field :
      (seen : List ℕ) (name : ℕ) (v : Value) (fields : List (ℕ × Value)) (m : List (ℕ × Dynamic))
      → validate_fields json_valid seen fields ≡ none
      → field name fields ≡ some v
      → lookup name (response_fields fields m) ≡ some (atomic_response_value v)
  unfolding response_fields field is_seen
  response-field seen name v [] m e h = cc
  response-field seen name v ((n, u) ∷ fields) m e h =
      let (named, fresh, ok, rest) = checked seen n u fields e in
      ground (
        arith,
        response-field (n ∷ seen) name v fields (insert n (atomic_response_value u) m) rest,
        response-seen (n ∷ seen) name fields (insert n (atomic_response_value u) m) rest,
        lookup-insert name n (atomic_response_value u) m,
      )

  abbrev reserved : List ℕ
  reserved = value_name ∷ primary_key_name ∷ []

  abbrev start : Record → List (ℕ × Dynamic)
  start r = insert primary_key_name (a_string r.primary_key) (insert value_name (an_int r.value) [])

  marshalled :
      (r : Record) (m : List (ℕ × Dynamic))
      → marshal json_valid r ≡ some m
      → (validate_fields json_valid reserved r.fields ≡ none)
        × (m ≡ response_fields r.fields (start r))
  unfolding marshal validate_record
  marshalled r m e = ground arith

  -- The response of a record has its value and primary key, which no field of the record replaces.
  marshal-reserved :
      (r : Record) (m : List (ℕ × Dynamic))
      → marshal json_valid r ≡ some m
      → (lookup value_name m ≡ some (an_int r.value))
        × (lookup primary_key_name m ≡ some (a_string r.primary_key))
  unfolding marshal validate_record is_seen
  marshal-reserved r m e =
      let (ok, same) = marshalled r m e in
      ground (
        arith,
        response-seen reserved value_name r.fields (start r) ok,
        response-seen reserved primary_key_name r.fields (start r) ok,
        lookup-insert value_name primary_key_name (a_string r.primary_key)
            (insert value_name (an_int r.value) []),
        lookup-insert primary_key_name primary_key_name (a_string r.primary_key)
            (insert value_name (an_int r.value) []),
        lookup-insert value_name value_name (an_int r.value) [],
      )

  -- The response of a record has each of its fields, with the value that Field finds.
  pub marshal-field :
      (r : Record) (m : List (ℕ × Dynamic)) (name : ℕ) (v : Value)
      → marshal json_valid r ≡ some m
      → field name r.fields ≡ some v
      → lookup name m ≡ some (atomic_response_value v)
  unfolding marshal validate_record
  marshal-field r m name v e h =
      let (ok, same) = marshalled r m e in
      ground (arith, response-field reserved name v r.fields (start r) ok h)
