-- ===== src/Requests/Scopes/Tests.antt =====
-- Tasks in a project: the relation is open to the projects 8 and 9.
use request_generator.Common.{
  ℕ, ◌≡◌, refl, ◌⊎◌, ◌||◌, inl, inr, Bool, true, false, none, some, List, [], ◌∷◌, ◌==◌, ◌↔◌,
}
use request_generator.Common.Assoc.{lookup, delete, insert}
use request_generator.Actions.Atomic.{is_seen}
use request_generator.Actions.AtomicInput.{Input, FieldType, int_type, string_type}
use request_generator.Requests.AddInput.{
  RequestField, Scope, Body, column, field_by_column, rejects_scoped, contains_field, inject_input,
  inject_values, apply_defaults, written_fields, map_request_input, server_defaults, add_values,
}
use request_generator.Requests.Scopes.{
  Relation, Module, Query, Strconv, find_module, find_relation, id_of_type, canonical_id,
  resolve_scope, unscoped, scoped, refused, bad_request, forbidden, add_request,
}
use request_generator.Requests.Scopes.Properties.{
  Checked, add_request-Checked, Named, resolve_scope-decides,
}

program : Unit {0}
unfolding lookup delete insert is_seen field_by_column rejects_scoped contains_field inject_input
    inject_values apply_defaults written_fields map_request_input server_defaults add_values
    find_module find_relation id_of_type canonical_id resolve_scope add_request
program = tt

abbrev strconv : Strconv
strconv = record { parse_int = λ s. some s; parse_float = λ s. none }

abbrev plain : ℕ → FieldType → RequestField
plain name type = record {
  field = record {
    name = name;
    column_name = name;
    translatable = false;
    type = type;
    json_storage = false;
  };
  convert = none;
  default_value = none;
}

abbrev fields : List RequestField
fields = plain 10 string_type ∷ plain 12 int_type ∷ []

abbrev projects : Module
projects = record { name = 3; fields = plain 1 int_type ∷ [] }

abbrev is_open : Input → Bool
is_open (Input.int64 n) = n == 8 || n == 9
is_open v = false

abbrev in_project : Relation
in_project = record {
  name = 5;
  source = 12;
  target_module = 3;
  target_field = 1;
  scope_check = some (λ relation id. is_open id);
}

abbrev anything : Body → Bool
anything body = true

abbrev body : Body
body = (10, Input.text 3) ∷ []

abbrev values : Body
values = (12, Input.int64 8) ∷ (10, Input.text 3) ∷ []

abbrev query : ℕ → Query
query id = record { relation = 5; id = id }

answers :
    (add_request strconv (projects ∷ []) (in_project ∷ []) anything fields (10 ∷ []) (query 8) body
      ≡ inr (values, fields))
    × (add_request strconv
          (projects ∷ [])
          (in_project ∷ [])
          anything
          fields
          (10 ∷ [])
          (query 7)
          body
        ≡ inl forbidden)
    × (add_request strconv
          (projects ∷ [])
          (in_project ∷ [])
          anything
          fields
          (10 ∷ [])
          (query 0)
          body
        ≡ inl bad_request)
unfolding program
answers = (refl, refl, refl)

add_request-Checked_example :
    (((query 8).relation ≡ 0) × ((query 8).id ≡ 0))
    ⊎ ((r : Relation) × (id : Input) × (f : RequestField) × Checked strconv
          (projects ∷ [])
          (in_project ∷ [])
          (query 8)
          r
          id
          true
        × ((lookup r.source body ≡ none)
            × (field_by_column r.source fields ≡ some f)
            × (lookup (column f) values ≡ some id)))
unfolding program
add_request-Checked_example =
    add_request-Checked strconv (projects ∷ []) (in_project ∷ []) anything fields (10 ∷ [])
      (query 8) body values fields refl

abbrev project_8 : Scope
project_8 = record { source = 12; id = Input.int64 8 }

resolve_scope-decides_example :
    let o = resolve_scope strconv (projects ∷ []) (in_project ∷ []) (query 8) in
    ((o ≡ unscoped) ↔ (((query 8).relation ≡ 0) × ((query 8).id ≡ 0)))
    × ((o ≡ scoped project_8) ↔ (
        Named strconv (query 8)
        × ((r : Relation) × (id : Input) × (project_8 ≡ record { source = r.source; id = id })
            × Checked strconv (projects ∷ []) (in_project ∷ []) (query 8) r id true)))
    × ((o ≡ refused forbidden) ↔ (
        Named strconv (query 8)
        × ((r : Relation) × (id : Input) × Checked strconv
              (projects ∷ [])
              (in_project ∷ [])
              (query 8)
              r
              id
              false)))
    × ((o ≡ unscoped)
        ⊎ (((s : Scope) × (o ≡ scoped s)) ⊎ ((o ≡ refused forbidden) ⊎ (o ≡ refused bad_request))))
resolve_scope-decides_example =
    resolve_scope-decides strconv (projects ∷ []) (in_project ∷ []) (query 8) project_8
