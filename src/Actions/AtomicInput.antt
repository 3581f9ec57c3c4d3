-- ===== src/Actions/AtomicInput.antt =====
-- atomic_input.go, and MarshalJSONArray and MarshalJSONObject of fields/module_field.go: the typed
-- input of an atomic operation, made of a request's fields.
-- Documents are numbers, and slices of the input are not nil. What the language and its libraries
-- say of floats and documents is a parameter: whether a float is whole and the int64 it converts to,
-- json.Marshal, whether a document starts with a bracket or a brace, and whether a text holds an
-- object, with the document that it is when trimmed.
pub mod Properties
pub mod Tests
use request_generator.Common.{
  ℕ, Bool, true, false, ◌&&◌, not, Option, none, some, List, [], ◌∷◌, ◌++◌, ◌==◌, if◌then◌else◌,
}
use request_generator.Common.Assoc.{lookup}
use request_generator.Actions.Atomic.{
  Value, empty, atomic_string, atomic_int, atomic_float, atomic_bool,
}

-- An element of an array of the request.
pub data Item : Type 0 where
  text_item : ℕ → Item
  float_item : ℕ → Item
  other_item : Item

-- A value of the request: what JSON decodes to, or what a field's conversion made of it.
pub data Input : Type 0 where
  nil : Input
  text : ℕ → Input
  int : ℕ → Input
  int64 : ℕ → Input
  float : ℕ → Input
  bool : Bool → Input
  texts : List ℕ → Input
  ints : List ℕ → Input
  items : List Item → Input
  other : ℕ → Input

pub data FieldType : Type 0 where
  string_type int_type float_type bool_type array_type object_type other_type : FieldType

pub record Field : Type 0 where
  pub name : ℕ
  pub column_name : ℕ
  pub translatable : Bool
  pub type : FieldType
  pub json_storage : Bool

pub record Libraries : Type 0 where
  pub whole : ℕ → Bool
  pub truncate : ℕ → ℕ
  pub marshal : Input → Option ℕ
  pub starts_array : ℕ → Bool
  pub starts_object : ℕ → Bool
  pub object_text : ℕ → Option ℕ

-- The loop over an array's elements.
pub record Collected : Type 0 where
  pub strings : List ℕ
  pub ints : List ℕ
  pub all_strings : Bool
  pub all_ints : Bool

abbrev pub start : Collected
start = record { strings = []; ints = []; all_strings = true; all_ints = true }

abbrev pub of_collected : Collected → Option Value
of_collected c =
    if c.all_strings
    then some (record empty { strings = some c.strings })
    else if c.all_ints
    then some (record empty { ints = some c.ints })
    else none

abbrev pub of_document : Option ℕ → Option Value
of_document none = none
of_document (some d) = some (record empty { json = some d })

unfoldable pub string_value : Input → Option Value
string_value (text s) = some (atomic_string s)
string_value v = none

unfoldable pub float_value : Input → Option Value
float_value (float f) = some (atomic_float f)
float_value v = none

unfoldable pub bool_value : Input → Option Value
bool_value (bool b) = some (atomic_bool b)
bool_value v = none

-- The name that a field has in the request and in the atomic input.
abbrev pub input_name : Field → ℕ
input_name f = if f.translatable then f.name else f.column_name

module _ (lib : Libraries) where
  unfoldable pub marshal_array : Input → Option ℕ
  marshal_array v = elim (lib.marshal v) [
    | none ↦ none
    | some d ↦ if lib.starts_array d then some d else none
  ]

  unfoldable pub marshal_object : Input → Option ℕ
  marshal_object (text s) = lib.object_text s
  marshal_object v = elim (lib.marshal v) [
    | none ↦ none
    | some d ↦ if lib.starts_object d then some d else none
  ]

  unfoldable pub collect_item : Item → Collected → Collected
  collect_item (text_item s) c = record c { strings = c.strings ++ s ∷ []; all_ints = false }
  collect_item (float_item f) c =
      if lib.whole f
      then record c { all_strings = false; ints = c.ints ++ lib.truncate f ∷ [] }
      else record c { all_strings = false; all_ints = false }
  collect_item other_item c = record c { all_strings = false; all_ints = false }

  unfoldable pub collect : List Item → Collected → Collected
  collect [] c = c
  collect (x ∷ xs) c = collect xs (collect_item x c)

  -- `none` is an error.
  unfoldable pub int_value : Input → Option Value
  int_value (int n) = some (atomic_int n)
  int_value (int64 n) = some (atomic_int n)
  int_value (float f) = if lib.whole f then some (atomic_int (lib.truncate f)) else none
  int_value v = none

  unfoldable pub array_value : Input → Option Value
  array_value (texts xs) = some (record empty { strings = some xs })
  array_value (ints xs) = some (record empty { ints = some xs })
  array_value (items xs) = of_collected (collect xs start)
  array_value v = none

  unfoldable pub typed_value : Field → Input → Option Value
  typed_value f v = elim f.type [
    | string_type ↦ string_value v
    | int_type ↦ int_value v
    | float_type ↦ float_value v
    | bool_type ↦ bool_value v
    | array_type ↦ if f.json_storage then of_document (marshal_array v) else array_value v
    | object_type ↦ of_document (marshal_object v)
    | other_type ↦ none
  ]

  -- A nil value is the empty union, which has no variant.
  unfoldable pub atomic_value : Field → Input → Option Value
  atomic_value f nil = some empty
  atomic_value f v = typed_value f v

  -- The module's fields that the request has, in the module's order.
  unfoldable pub atomic_input : List Field → List (ℕ × Input) → Option (List (ℕ × Value))
  atomic_input [] input = some []
  atomic_input (f ∷ fs) input =
      let rest = atomic_input fs input in
      elim (lookup (input_name f) input) [
        | none ↦ rest
        | some v ↦ elim (atomic_value f v) [
          | none ↦ none
          | some a ↦ elim rest [ none ↦ none | some out ↦ some ((input_name f, a) ∷ out) ]
        ]
      ]
