-- ===== src/Requests/AddInput/Tests.antt =====
-- A task with a title that clients may set, an owner that the server sets, and a project that may be
-- the scope of a request.
use request_generator.Common.{
  ℕ, ◌≡◌, refl, ◌⊎◌, Bool, true, false, Option, none, some, List, [], ◌∷◌,
}
use request_generator.Common.Assoc.{lookup, delete, insert}
use request_generator.Actions.Atomic.{is_seen}
use request_generator.Actions.AtomicInput.{Input, Field, FieldType, int_type, string_type}
use request_generator.Requests.AddInput.{
  RequestField, Body, Scope, field_by_column, rejects_scoped, contains_field, inject_input,
  inject_values, apply_defaults, written_fields, map_request_input, server_defaults, add_values,
}
use request_generator.Requests.AddInput.Properties.{
  IsOffered, IsDefault, IsScoped, add_values-origin,
}

program : Unit {0}
unfolding lookup delete insert is_seen field_by_column rejects_scoped contains_field inject_input
    inject_values apply_defaults written_fields map_request_input server_defaults add_values
program = tt

abbrev field_of : ℕ → FieldType → Field
field_of name type = record {
  name = name;
  column_name = name;
  translatable = false;
  type = type;
  json_storage = false;
}

abbrev title : RequestField
title = record { field = field_of 10 string_type; convert = none; default_value = none }

abbrev owner : RequestField
owner = record {
  field = field_of 11 int_type;
  convert = none;
  default_value = some (λ call. Input.int 42);
}

abbrev project : RequestField
project = record { field = field_of 12 int_type; convert = none; default_value = none }

abbrev fields : List RequestField
fields = title ∷ owner ∷ project ∷ []

abbrev anything : Body → Bool
anything body = true

abbrev scope : Scope
scope = record { source = 12; id = Input.int64 8 }

-- A client that tries to set the owner.
abbrev body : Body
body = (10, Input.text 3) ∷ (11, Input.float 66) ∷ []

abbrev values : Body
values = (12, Input.int64 8) ∷ (11, Input.int 42) ∷ (10, Input.text 3) ∷ []

abbrev result : Option (Body × List RequestField)
result = add_values anything fields (10 ∷ []) (some scope) body

spoofed : result ≡ some (values, fields)
unfolding program
spoofed = refl

-- The default of a field outside the columns is not written where the body has null for it.
suppressed :
    add_values anything fields (10 ∷ []) none ((10, Input.text 3) ∷ (11, Input.nil) ∷ [])
    ≡ some ((10, Input.text 3) ∷ [], title ∷ [])
unfolding program
suppressed = refl

add_values-origin_example :
    IsOffered (10 ∷ []) fields 11
    ⊎ (IsDefault (10 ∷ []) fields 11 (Input.int 42)
        ⊎ IsScoped fields (some scope) 11 (Input.int 42))
unfolding program
add_values-origin_example =
    add_values-origin anything fields (10 ∷ []) (some scope) body values fields 11 (Input.int 42)
      refl refl
