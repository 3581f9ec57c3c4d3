-- ===== src/Requests/AddInput.antt =====
-- generator.go, helpers.go and relation_scope.go: from the body of an add request to the fields that
-- are written. Names and columns are numbers, and a Go map is an association
-- list; the body is an object, never null. A callback of a
-- field is a function: Convert of the value, where `none` is its error, and DefaultFunc of the call,
-- as it may answer otherwise the second time. checkRequest, which reads the input only, is `accepts`.
pub mod Properties
pub mod Scoped
pub mod Tests
use request_generator.Common.{
  ℕ, Bool, true, false, not, ◌&&◌, ◌||◌, Option, none, some, List, [], ◌∷◌, ◌++◌, ◌==◌,
  if◌then◌else◌,
}
use request_generator.Common.Assoc.{lookup, insert}
use request_generator.Actions.Atomic.{is_seen}
use request_generator.Actions.AtomicInput.{Input, nil, Field, input_name}

pub record RequestField : Type 0 where
  pub field : Field
  pub convert : Option (Input → Option Input)
  pub default_value : Option (ℕ → Input)

abbrev pub Body : Type 0
Body = List (ℕ × Input)

-- The resolved scope of a request: the source field of its relation, and its id.
pub record Scope : Type 0 where
  pub source : ℕ
  pub id : Input

abbrev pub column : RequestField → ℕ
column f = f.field.column_name

unfoldable pub field_by_column : ℕ → List RequestField → Option RequestField
field_by_column name [] = none
field_by_column name (f ∷ fields) =
    if column f == name || (f.field.translatable && f.field.name == name)
    then some f
    else field_by_column name fields

abbrev pub has {ℓ} : {A : Type ℓ} → Option A → Bool
has none = false
has (some a) = true

unfoldable pub rejects_scoped : Body → Option Scope → Bool
rejects_scoped input none = false
rejects_scoped input (some s) = has (lookup s.source input)

unfoldable pub contains_field : List RequestField → ℕ → Bool
contains_field [] target = false
contains_field (f ∷ fields) target = column f == target || contains_field fields target

-- The scope written into the body; `none` is the error of a source field that is not declared.
unfoldable pub inject_input : List RequestField → Option Scope → Body → Option Body
inject_input fields none input = some input
inject_input fields (some s) input = elim (field_by_column s.source fields) [
  | none ↦ none
  | some f ↦ some (insert (column f) s.id input)
]

-- The scope written into the values, with the fields that are written.
unfoldable pub inject_values :
    List RequestField → Option Scope → Body → List RequestField → Option (Body × List RequestField)
inject_values fields none values written = some (values, written)
inject_values fields (some s) values written = elim (field_by_column s.source fields) [
  | none ↦ none
  | some f ↦ some (
    insert (column f) s.id values,
    if contains_field written (column f) then written else written ++ f ∷ [],
  )
]

-- A default for each field that the body does not name.
unfoldable pub apply_defaults : List RequestField → Body → Body
apply_defaults [] input = input
apply_defaults (f ∷ fields) input = apply_defaults fields (elim f.default_value [
  | none ↦ input
  | some d ↦ if has (lookup (column f) input) then input else insert (column f) (d 0) input
])

abbrev pub is_null : Option Input → Bool
is_null none = true
is_null (some nil) = true
is_null (some v) = false

abbrev pub is_written : List ℕ → Body → RequestField → Bool
is_written columns input f =
    is_seen (column f) columns || (has f.default_value && not (is_null (lookup (column f) input)))

unfoldable pub written_fields : List ℕ → Body → List RequestField → List RequestField
written_fields columns input [] = []
written_fields columns input (f ∷ fields) =
    let rest = written_fields columns input fields in
    if is_written columns input f then f ∷ rest else rest

abbrev pub convert_field : RequestField → Input → Option Input
convert_field f v = elim f.convert [ none ↦ some v | some g ↦ g v ]

-- One field of mapRequestInput; a value that does not convert is left out.
abbrev pub map_field : List ℕ → Body → RequestField → Body → Body
map_field columns request f output = elim (lookup (input_name f.field) request) [
  | none ↦ output
  | some v ↦
      if is_seen (column f) columns
      then (elim (convert_field f v) [
        | none ↦ output
        | some w ↦ insert (input_name f.field) w output
      ])
      else output
]

unfoldable pub map_request_input : List ℕ → Body → List RequestField → Body → Body
map_request_input columns request [] output = output
map_request_input columns request (f ∷ fields) output =
    map_request_input columns request fields (map_field columns request f output)

-- The defaults that the client cannot replace: those of fields outside the columns of the action.
unfoldable pub server_defaults : List ℕ → List RequestField → Body → Body
server_defaults columns [] values = values
server_defaults columns (f ∷ written) values =
    server_defaults columns written (elim f.default_value [
      | none ↦ values
      | some d ↦ if is_seen (column f) columns then values else insert (column f) (d 1) values
    ])

-- The values and fields that an add request writes, `none` where it is answered with an error.
unfoldable pub add_values :
    (Body → Bool)
    → List RequestField
    → List ℕ
    → Option Scope
    → Body
    → Option (Body × List RequestField)
add_values accepts fields columns scope body =
    if rejects_scoped body scope then none else elim (inject_input fields scope body) [
      | none ↦ none
      | some scoped ↦
          let input = apply_defaults fields scoped in
          let written = written_fields columns input fields in
          if not (accepts input)
          then none
          else inject_values fields scope
              (server_defaults columns written (map_request_input columns input fields [])) written
    ]
