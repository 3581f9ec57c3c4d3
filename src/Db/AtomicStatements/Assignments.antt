-- ===== src/Db/AtomicStatements/Assignments.antt =====
-- db/atomic_executor.go: atomicUpdateAssignment, which values an update may assign to a column.
use request_generator.Common.{ℕ, Bool, true, false, ◌⊎◌, inl, inr, Option, none, some, List}
use request_generator.Actions.Atomic.{Value, Fault, validate}
use request_generator.Actions.Atomic.Values.{
  Variant, of_string, of_int, of_float, of_time, of_bool, of_strings, of_json,
}

pub data ColumnType : Type 0 where
  integer float text bool timestamp timestampz date other_column : ColumnType

pub data Operation : Type 0 where
  set increment clear : Operation
  other_operation : ℕ → Operation

pub data Assignment : Type 0 where
  set_null : ColumnType → Assignment
  set_int add_int set_float add_float set_string set_json : ℕ → Assignment
  set_strings : List ℕ → Assignment
  set_bool : Bool → Assignment
  set_time : ColumnType → ℕ → Assignment

pub data AssignmentFault : Type 0 where
  no_column not_clearable other_value unsupported : AssignmentFault
  invalid : Fault → AssignmentFault

unfoldable pub clear_assignment : ColumnType → AssignmentFault ⊎ Assignment
clear_assignment timestampz = inr (set_null timestampz)
clear_assignment timestamp = inr (set_null timestamp)
clear_assignment date = inr (set_null date)
clear_assignment text = inr (set_null text)
clear_assignment integer = inr (set_null integer)
clear_assignment float = inr (set_null float)
clear_assignment bool = inl not_clearable
clear_assignment other_column = inl not_clearable

-- The first for a set, the second for an increment.
abbrev pub by_operation :
    Operation → Option Assignment → Option Assignment → AssignmentFault ⊎ Assignment
by_operation set (some a) b = inr a
by_operation set none b = inl unsupported
by_operation increment a (some b) = inr b
by_operation increment a none = inl unsupported
by_operation clear a b = inl unsupported
by_operation (other_operation n) a b = inl unsupported

abbrev pub is_set : Operation → Bool
is_set set = true
is_set increment = false
is_set clear = false
is_set (other_operation n) = false

abbrev pub text_assignment : Operation → Option ℕ → AssignmentFault ⊎ Assignment
text_assignment op none = inl other_value
text_assignment op (some s) = by_operation op (some (set_string s)) none

abbrev pub texts_assignment : Operation → Option (List ℕ) → Option ℕ → AssignmentFault ⊎ Assignment
texts_assignment op none s = text_assignment op s
texts_assignment set (some xs) s = inr (set_strings xs)
texts_assignment op (some xs) s = text_assignment op s

abbrev pub string_assignment : Operation → Value → AssignmentFault ⊎ Assignment
string_assignment op v = elim v.json [
  | none ↦ texts_assignment op v.strings v.string
  | some j ↦ elim (is_set op) [
    | true ↦ inr (set_json j)
    | false ↦ texts_assignment op v.strings v.string
  ]
]

abbrev pub time_assignment : ColumnType → Operation → Value → AssignmentFault ⊎ Assignment
time_assignment column op v = elim v.time [
  | none ↦ inl other_value
  | some t ↦ by_operation op (some (set_time column t)) none
]

unfoldable pub value_assignment : ColumnType → Operation → Value → AssignmentFault ⊎ Assignment
value_assignment integer op v = elim v.int [
  | none ↦ inl other_value
  | some n ↦ by_operation op (some (set_int n)) (some (add_int n))
]
value_assignment float op v = elim v.float [
  | none ↦ inl other_value
  | some f ↦ by_operation op (some (set_float f)) (some (add_float f))
]
value_assignment text op v = string_assignment op v
value_assignment bool op v = elim v.bool [
  | none ↦ inl other_value
  | some b ↦ by_operation op (some (set_bool b)) none
]
value_assignment timestamp op v = time_assignment timestamp op v
value_assignment timestampz op v = time_assignment timestampz op v
value_assignment date op v = time_assignment date op v
value_assignment other_column op v = inl unsupported

module _ (json_valid : ℕ → Bool) where
  abbrev pub checked_assignment : ColumnType → Operation → Value → AssignmentFault ⊎ Assignment
  checked_assignment column op v = elim (validate json_valid v) [
    | some e ↦ inl (invalid e)
    | none ↦ value_assignment column op v
  ]

  unfoldable pub update_assignment :
      Option ColumnType → Operation → Value → AssignmentFault ⊎ Assignment
  update_assignment none op v = inl no_column
  update_assignment (some column) clear v = clear_assignment column
  update_assignment (some column) set v = checked_assignment column set v
  update_assignment (some column) increment v = checked_assignment column increment v
  update_assignment (some column) (other_operation n) v =
      checked_assignment column (other_operation n) v

-- The specification: what a variant of the union assigns to a column of a type.
unfoldable pub assigns : ColumnType → Operation → Variant → Option Assignment
assigns integer set (of_int n) = some (set_int n)
assigns integer increment (of_int n) = some (add_int n)
assigns float set (of_float f) = some (set_float f)
assigns float increment (of_float f) = some (add_float f)
assigns text set (of_string s) = some (set_string s)
assigns text set (of_json j) = some (set_json j)
assigns text set (of_strings xs) = some (set_strings xs)
assigns bool set (of_bool b) = some (set_bool b)
assigns timestamp set (of_time t) = some (set_time timestamp t)
assigns timestampz set (of_time t) = some (set_time timestampz t)
assigns date set (of_time t) = some (set_time date t)
assigns column op w = none
