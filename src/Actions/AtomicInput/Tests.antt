-- ===== src/Actions/AtomicInput/Tests.antt =====
-- Inputs of atomic operations at concrete requests. In the stand-ins for the libraries every float
-- is whole, and a document has the number 1.
use request_generator.Common.{ℕ, ◌≡◌, refl, true, false, none, some, List, [], ◌∷◌}
use request_generator.Common.Assoc.{lookup}
use request_generator.Actions.Atomic.{Value, empty, atomic_string}
use request_generator.Actions.AtomicInput.{
  text_item, float_item, Input, nil, text, items, other, Field, string_type, array_type,
  object_type, Libraries, marshal_array, marshal_object, collect_item, collect, int_value,
  string_value, float_value, bool_value, array_value, typed_value, atomic_value, atomic_input,
}

program : Unit {0}
unfolding lookup marshal_array marshal_object collect_item collect int_value string_value
    float_value bool_value array_value typed_value atomic_value atomic_input
program = tt

abbrev libraries : Libraries
libraries = record {
  whole = λ f. true;
  truncate = λ f. f;
  marshal = λ v. some 1;
  starts_array = λ d. true;
  starts_object = λ d. true;
  object_text = λ s. none;
}

abbrev title : Field
title = record {
  name = 50;
  column_name = 5;
  translatable = true;
  type = string_type;
  json_storage = false;
}

abbrev tags : Field
tags = record {
  name = 60;
  column_name = 6;
  translatable = false;
  type = array_type;
  json_storage = false;
}

abbrev document : Field
document = record {
  name = 70;
  column_name = 7;
  translatable = false;
  type = object_type;
  json_storage = false;
}

abbrev request : List (ℕ × Input)
request = (6, items (text_item 1 ∷ text_item 2 ∷ [])) ∷ (50, text 3) ∷ (7, nil) ∷ (99, text 4) ∷ []

abbrev input : List (ℕ × Value)
input = (50, atomic_string 3) ∷ (6, record empty { strings = some (1 ∷ 2 ∷ []) }) ∷ (7, empty) ∷ []

inputs :
    (atomic_input libraries (title ∷ tags ∷ document ∷ []) request ≡ some input)
    × (atomic_value libraries tags (items (text_item 1 ∷ float_item 2 ∷ [])) ≡ none)
    × (atomic_value libraries tags (items (float_item 2 ∷ []))
        ≡ some (record empty { ints = some (2 ∷ []) }))
    × (atomic_value libraries document (text 4) ≡ none)
    × (atomic_value libraries document (other 4) ≡ some (record empty { json = some 1 }))
unfolding program
inputs = (refl, refl, refl, refl, refl)
