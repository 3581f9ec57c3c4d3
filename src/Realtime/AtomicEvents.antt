-- ===== src/Realtime/AtomicEvents.antt =====
-- atomic_realtime.go and the declarations of actions/atomic_add.go: the events that an atomic
-- operation declares, and the checks of the declaration when the program starts.
-- A text is a number, 0 the empty one, as in Actions/Atomic; a role is one as in Actions/Roles. A
-- Go map from names is an association list. Errors are named without their positions.
pub mod Publishes
pub mod Typing
pub mod Declared
pub mod Outcomes
pub mod Properties
pub mod Tests
use request_generator.Common.{
  ℕ, Bool, true, false, not, ◌&&◌, ◌||◌, ◌⊎◌, inl, inr, Option, none, some, List, [], ◌∷◌, ◌==◌,
  if◌then◌else◌,
}
use request_generator.Common.Assoc.{lookup, insert}
use request_generator.Actions.Atomic.{value_name, primary_key_name, is_seen}
use request_generator.Actions.AtomicInput.{Field, FieldType}
use request_generator.Actions.AtomicInput
use request_generator.Realtime.Values.{
  TypedValueType, string_type, number_type, bool_type, same_type,
}
use request_generator.Realtime.Publish.{get_field, runtime_type}

-- The texts of AtomicValueKind, and the one of a document.
abbrev pub string_kind : ℕ
string_kind = 1

abbrev pub nullable_string_kind : ℕ
nullable_string_kind = 2

abbrev pub int_kind : ℕ
int_kind = 3

abbrev pub nullable_int_kind : ℕ
nullable_int_kind = 4

abbrev pub float_kind : ℕ
float_kind = 5

abbrev pub bool_kind : ℕ
bool_kind = 6

abbrev pub time_kind : ℕ
time_kind = 7

abbrev pub nullable_time_kind : ℕ
nullable_time_kind = 8

abbrev pub strings_kind : ℕ
strings_kind = 9

abbrev pub ints_kind : ℕ
ints_kind = 10

abbrev pub json_kind : ℕ
json_kind = 11

abbrev pub kinds : List ℕ
kinds =
    string_kind ∷ nullable_string_kind ∷ int_kind ∷ nullable_int_kind ∷ float_kind ∷ bool_kind
    ∷ time_kind ∷ nullable_time_kind ∷ strings_kind ∷ ints_kind ∷ []

pub data Scope : Type 0 where
  input_scope result_scope : Scope
  other_scope : ℕ → Scope

pub record Source : Type 0 where
  pub scope : Scope
  pub field : ℕ

pub record CorrelationConfig : Type 0 where
  pub field : ℕ
  pub source : Source

pub record PublishConfig : Type 0 where
  pub recipients : List Source
  pub roles : List ℕ
  pub correlation : Option CorrelationConfig
  pub payload : List (ℕ × Source)
  pub skip_empty : Bool

pub data ConfigFault : Type 0 where
  no_operation invalid_result_field duplicated_result_field no_declared_correlation : ConfigFault
  no_recipients_or_roles invalid_source recipient_not_result recipient_not_int : ConfigFault
  no_role duplicated_role no_correlation other_correlation_field : ConfigFault
  undeclared_result_field unknown_input_field unsupported_input_type unsupported_scope : ConfigFault
  undeclared_field field_not_runtime type_mismatch : ConfigFault
  no_payload_key duplicated_payload_key payload_not_result : ConfigFault

-- `none` is the nil error. The first of two checks that fails.
abbrev pub first_of : Option ConfigFault → Option ConfigFault → Option ConfigFault
first_of none o = o
first_of (some e) o = some e

abbrev pub fails_if : Bool → ConfigFault → Option ConfigFault
fails_if b e = if b then some e else none

abbrev pub is_none {ℓ} : {A : Type ℓ} → Option A → Bool
is_none none = true
is_none (some a) = false

abbrev pub result_field_valid : ℕ → ℕ → Bool
result_field_valid name kind =
    not (name == 0) && (not (name == value_name || name == primary_key_name) && is_seen kind kinds)

-- The map of the declared result fields.
unfoldable pub declared_fields : List (ℕ × ℕ) → List (ℕ × ℕ) → ConfigFault ⊎ List (ℕ × ℕ)
declared_fields [] m = inr m
declared_fields ((name, kind) ∷ fields) m =
    let rest = declared_fields fields (insert name kind m) in
    if not (result_field_valid name kind)
    then inl invalid_result_field
    else if is_none (lookup name m)
    then rest
    else inl duplicated_result_field

abbrev pub is_result : Scope → Bool
is_result input_scope = false
is_result result_scope = true
is_result (other_scope n) = false

unfoldable pub check_source : Source → Option ConfigFault
check_source s = if s.field == 0 then some invalid_source else elim s.scope [
  | input_scope ↦ none
  | result_scope ↦ none
  | other_scope n ↦ some invalid_source
]

abbrev pub check_kind : Option ℕ → Option ConfigFault
check_kind none = some undeclared_result_field
check_kind (some kind) = fails_if (not (kind == int_kind || kind == ints_kind)) recipient_not_int

unfoldable pub check_recipients : List (ℕ × ℕ) → List Source → Option ConfigFault
check_recipients m [] = none
check_recipients m (s ∷ recipients) = first_of (check_source s) (
    first_of (fails_if (not (is_result s.scope)) recipient_not_result)
      (first_of (check_kind (lookup s.field m)) (check_recipients m recipients)))

unfoldable pub check_roles : List ℕ → List ℕ → Option ConfigFault
check_roles seen [] = none
check_roles seen (role ∷ roles) =
    first_of (fails_if (role == 0) no_role)
      (first_of (fails_if (is_seen role seen) duplicated_role) (check_roles (role ∷ seen) roles))

unfoldable pub input_kind : FieldType → Option ℕ
input_kind AtomicInput.string_type = some string_kind
input_kind AtomicInput.int_type = some int_kind
input_kind AtomicInput.float_type = some float_kind
input_kind AtomicInput.bool_type = some bool_kind
input_kind AtomicInput.array_type = none
input_kind AtomicInput.object_type = none
input_kind AtomicInput.other_type = none

unfoldable pub source_kind : List Field → List (ℕ × ℕ) → Source → ConfigFault ⊎ ℕ
source_kind fields m s = elim s.scope [
  | result_scope ↦ elim (lookup s.field m) [ none ↦ inl undeclared_result_field | some k ↦ inr k ]
  | input_scope ↦ elim (get_field s.field fields) [
    | none ↦ inl unknown_input_field
    | some f ↦ elim (input_kind f.type) [ none ↦ inl unsupported_input_type | some k ↦ inr k ]
  ]
  | other_scope n ↦ inl unsupported_scope
]

unfoldable pub kind_type : ℕ → Option TypedValueType
kind_type kind =
    if kind == string_kind
    then some string_type
    else if kind == int_kind || kind == float_kind
    then some number_type
    else if kind == bool_kind
    then some bool_type
    else none

abbrev pub check_expected : Option TypedValueType → Option TypedValueType → Option ConfigFault
check_expected actual none = some field_not_runtime
check_expected none (some expected) = some type_mismatch
check_expected (some actual) (some expected) =
    fails_if (not (same_type actual expected)) type_mismatch

-- `declared` is the correlation field of the action.
unfoldable pub check_correlation_config :
    List Field → List (ℕ × ℕ) → ℕ → Option CorrelationConfig → Option ConfigFault
check_correlation_config fields m declared none = some no_correlation
check_correlation_config fields m declared (some c) =
    first_of (fails_if (not (c.field == declared)) other_correlation_field) (
      first_of (check_source c.source) (elim (source_kind fields m c.source) [
        | inl e ↦ some e
        | inr kind ↦ elim (get_field c.field fields) [
          | none ↦ some undeclared_field
          | some f ↦ check_expected (kind_type kind) (runtime_type f.type)
        ]
      ]))

unfoldable pub check_payload : List (ℕ × ℕ) → List ℕ → List (ℕ × Source) → Option ConfigFault
check_payload m seen [] = none
check_payload m seen ((key, s) ∷ payload) = first_of (fails_if (key == 0) no_payload_key) (
    first_of (fails_if (is_seen key seen) duplicated_payload_key) (
      first_of (check_source s) (
        first_of (fails_if (not (is_result s.scope)) payload_not_result) (
          first_of (fails_if (is_none (lookup s.field m)) undeclared_result_field)
            (check_payload m (key ∷ seen) payload)))))

abbrev pub is_nil {ℓ} : {A : Type ℓ} → List A → Bool
is_nil [] = true
is_nil (x ∷ xs) = false

unfoldable pub check_publish : List Field → List (ℕ × ℕ) → ℕ → PublishConfig → Option ConfigFault
check_publish fields m declared p =
    first_of (fails_if (is_nil p.recipients && is_nil p.roles) no_recipients_or_roles) (
      first_of (check_recipients m p.recipients) (
        first_of (check_roles [] p.roles) (
          first_of (check_correlation_config fields m declared p.correlation)
            (check_payload m [] p.payload))))

unfoldable pub check_publishes :
    List Field → List (ℕ × ℕ) → ℕ → List PublishConfig → Option ConfigFault
check_publishes fields m declared [] = none
check_publishes fields m declared (p ∷ publishes) =
    first_of (check_publish fields m declared p) (check_publishes fields m declared publishes)

-- The declared correlation field, where the action has one.
unfoldable pub check_result_config :
    List Field → Option ℕ → List (ℕ × ℕ) → List PublishConfig → Option ConfigFault
check_result_config fields realtime result_fields publishes =
    elim (declared_fields result_fields []) [
      | inl e ↦ some e
      | inr m ↦ if is_nil publishes then none else elim realtime [
        | none ↦ some no_declared_correlation
        | some declared ↦
            if declared == 0
            then some no_declared_correlation
            else check_publishes fields m declared publishes
      ]
    ]

-- The atomic operation of an add or of an update, where it has one.
unfoldable pub check_operation :
    List Field → Option ℕ → Option (List (ℕ × ℕ) × List PublishConfig) → Option ConfigFault
check_operation fields realtime none = some no_operation
check_operation fields realtime (some (result_fields, publishes)) =
    check_result_config fields realtime result_fields publishes
