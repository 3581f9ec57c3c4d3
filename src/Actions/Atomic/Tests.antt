-- ===== src/Actions/Atomic/Tests.antt =====
-- Atomic values and records at concrete inputs. Every document but 0 counts as valid JSON.
use request_generator.Common.{ℕ, ◌+◌, ◌≡◌, refl, Bool, not, some, List, [], ◌∷◌, ◌==◌}
use request_generator.Common.Assoc.{lookup, delete, insert}
use request_generator.Actions.Atomic.{
  empty, atomic_string, atomic_int, variants, invalid_json, not_one_variant, validate, Dynamic,
  a_string, an_int, interface, atomic_db_value, atomic_response_value, field, float_of, value_name,
  primary_key_name, Record, is_seen, duplicated_or_reserved, validate_fields, validate_record,
  response_fields, marshal,
}
use request_generator.Actions.Atomic.Records.{marshal-field}

program : Unit {0}
unfolding variants validate interface atomic_db_value atomic_response_value field is_seen
    validate_fields validate_record response_fields marshal lookup delete insert
program = tt

abbrev any_json : ℕ → Bool
any_json j = not (j == 0)

abbrev record_of_two : Record
record_of_two = record {
  value = 5;
  primary_key = 40;
  fields = (7, atomic_string 9) ∷ (8, record empty { json = some 3 }) ∷ [];
}

abbrev response : List (ℕ × Dynamic)
response =
    response_fields record_of_two.fields
      (insert primary_key_name (a_string 40) (insert value_name (an_int 5) []))

faults :
    (validate any_json empty ≡ some not_one_variant)
    × (validate any_json (record empty { json = some 0 }) ≡ some invalid_json)
    × (validate any_json (record empty { string = some 1; int = some 2 }) ≡ some not_one_variant)
    × (validate_record any_json (record record_of_two { fields = (value_name, atomic_int 1) ∷ [] })
        ≡ some (duplicated_or_reserved value_name))
    × (float_of (λ n. n + 100) 7 ((7, atomic_int 2) ∷ []) ≡ some 102)
unfolding program
faults = (refl, refl, refl, refl, refl)

marshal-field_example : lookup 7 response ≡ some (atomic_response_value (atomic_string 9))
unfolding program
marshal-field_example = marshal-field any_json record_of_two response 7 (atomic_string 9) refl refl
