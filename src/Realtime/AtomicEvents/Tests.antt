-- ===== src/Realtime/AtomicEvents/Tests.antt =====
-- A module with an order number and a sum, and an operation that tells the users 7 and 8.
use request_generator.Common.{
  ℕ, ◌≡◌, refl, ◌⊎◌, inl, inr, true, false, none, some, List, [], ◌∷◌, All, In, map,
}
use request_generator.Common.Assoc.{lookup, delete, insert}
use request_generator.Actions.Atomic.{
  Value, empty, atomic_string, field, Record, variants, validate, is_seen, validate_fields,
  validate_record,
}
use request_generator.Actions.AtomicInput.{
  Field, FieldType, Input, Libraries, marshal_array, marshal_object, collect_item, collect,
  string_value, int_value, float_value, bool_value, array_value, typed_value, atomic_value,
  atomic_input,
}
use request_generator.Actions.AtomicInput
use request_generator.Realtime.Topics.{same_topic, is_member}
use request_generator.Realtime.Values.{same_type, typed_value_valid, correlation_valid}
use request_generator.Realtime.Publish.{
  get_field, runtime_type, Action, find_action, check_correlation, validate_publish,
}
use request_generator.Realtime.AtomicEvents.{
  string_kind, nullable_string_kind, ints_kind, input_scope, result_scope, PublishConfig,
  declared_fields, check_source, check_recipients, check_roles, input_kind, source_kind, kind_type,
  check_correlation_config, check_payload, check_publish, check_publishes, check_result_config,
  check_operation,
}
use request_generator.Realtime.AtomicEvents.Publishes.{
  value_kind, actual_kinds, result_values, check_kinds, check_result, resolve_source, user_ids,
  role_topics, user_topics, recipient_topics, Publish, no_recipients, missing_correlation,
  not_scalar, payload_value, payload_of, publish_of, publishes_of, atomic_publishes, other_kind,
}
use request_generator.Realtime.AtomicEvents.Publishes
use request_generator.Realtime.AtomicEvents.Outcomes.{IsAccepted, IsSilent}
use request_generator.Realtime.AtomicEvents.Properties.{
  atomic_publishes-IsAccepted, public_part, atomic_publishes-public,
}

program : Unit {0}
unfolding lookup delete insert field variants validate is_seen validate_fields validate_record
    marshal_array marshal_object collect_item collect string_value int_value float_value bool_value
    array_value typed_value atomic_value atomic_input same_topic is_member same_type
    typed_value_valid correlation_valid get_field runtime_type find_action check_correlation
    validate_publish declared_fields check_source check_recipients check_roles input_kind
    source_kind kind_type check_correlation_config check_payload check_publish check_publishes
    check_result_config check_operation value_kind actual_kinds result_values check_kinds
    check_result resolve_source user_ids role_topics user_topics recipient_topics
    Publishes.typed_value payload_value payload_of publish_of publishes_of atomic_publishes
program = tt

abbrev libraries : Libraries
libraries = record {
  whole = λ f. true;
  truncate = λ f. f;
  marshal = λ v. none;
  starts_array = λ d. false;
  starts_object = λ d. false;
  object_text = λ s. none;
}

abbrev number : Field
number = record {
  name = 10;
  column_name = 10;
  translatable = false;
  type = AtomicInput.string_type;
  json_storage = false;
}

abbrev total : Field
total = record {
  name = 11;
  column_name = 11;
  translatable = false;
  type = AtomicInput.float_type;
  json_storage = false;
}

abbrev fields : List Field
fields = number ∷ total ∷ []

abbrev add : Action
add = record { name = 1; realtime = some 10 }

abbrev declaration : PublishConfig
declaration = record {
  recipients = record { scope = result_scope; field = 20 } ∷ [];
  roles = 4 ∷ [];
  correlation = some (record { field = 10; source = record { scope = input_scope; field = 10 } });
  payload = (30, record { scope = result_scope; field = 21 }) ∷ [];
  skip_empty = false;
}

abbrev result_fields : List (ℕ × ℕ)
result_fields = (20, ints_kind) ∷ (21, string_kind) ∷ []

abbrev result : Record
result = record {
  value = 1;
  primary_key = 9;
  fields = (20, record empty { ints = some (7 ∷ 8 ∷ 7 ∷ []) }) ∷ (21, atomic_string 5) ∷ [];
}

abbrev input : ℕ → List (ℕ × Value)
input n = (10, atomic_string n) ∷ []

atomic_publishes-IsAccepted_example :
    let made = atomic_publishes (λ n. n) (λ t. t) (declaration ∷ []) (input 3) result in
    (made ≡ inl no_recipients)
    ⊎ (((p : PublishConfig) × In p (declaration ∷ [])
          × IsSilent (input 3) p
          × ((made ≡ inl missing_correlation) ⊎ (made ≡ inl not_scalar)))
        ⊎ ((outs : List Publish) × (made ≡ inr outs) × All (IsAccepted fields (add ∷ []) 1) outs))
unfolding program
atomic_publishes-IsAccepted_example =
    atomic_publishes-IsAccepted libraries (λ j. true) (λ n. n) (λ t. t) fields (add ∷ []) 1 add
      result_fields (declaration ∷ []) ((10, Input.text 3) ∷ []) (input 3) result refl refl
      (refl, (refl, tt)) refl refl

abbrev events : ℕ → List Publish
events n = elim (atomic_publishes (λ x. x) (λ t. t) (declaration ∷ []) (input n) result) [
  | inl e ↦ []
  | inr outs ↦ outs
]

atomic_publishes-public_example : map public_part (events 3) ≡ map public_part (events 4)
unfolding program
atomic_publishes-public_example =
    atomic_publishes-public (λ n. n) (λ t. t) (λ j. true) fields (some 10) result_fields
      (declaration ∷ []) (input 3) (input 4) result (events 3) (events 4) refl refl refl refl

-- A nullable kind is accepted in the declaration, and no value has it.
nullable_kind :
    (check_operation fields none (some ((21, nullable_string_kind) ∷ [], [])) ≡ none)
    × (check_result (λ j. true) ((21, nullable_string_kind) ∷ []) result ≡ some (other_kind 21))
unfolding program
nullable_kind = (refl, refl)
