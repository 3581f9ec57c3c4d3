-- ===== src/Realtime/Publish.antt =====
-- realtime.go: publishRealtimeEvent and DeliverRealtime, from their checks to the broker and the hub.
-- A name is a number, 0 the empty one. An action is found by its name, and what counts of it is the
-- correlation field that its realtime declaration names, where it has one. A module's actions begin
-- with its Defrec, which findModuleAction answers first. GetField is asked for names that are not
-- empty.
pub mod Properties
pub mod Tests
use request_generator.Common.{
  ℕ, Bool, true, false, not, ◌&&◌, ◌||◌, ◌⊎◌, inl, inr, Option, none, some, List, [], ◌∷◌, ◌==◌,
  if◌then◌else◌,
}
use request_generator.Actions.AtomicInput.{Field, FieldType}
use request_generator.Actions.AtomicInput
use request_generator.Realtime.Values.{
  TypedValueType, string_type, number_type, bool_type, same_type, Correlation, correlation_valid,
}
use request_generator.Realtime.Topics.{Topic}
use request_generator.Realtime.Broker.{Event, Broker}
use request_generator.Realtime.Broker
use request_generator.Realtime.Hub.{Hub}
use request_generator.Realtime.Hub

unfoldable pub get_field : ℕ → List Field → Option Field
get_field name [] = none
get_field name (f ∷ fields) =
    if f.column_name == name || (f.translatable && f.name == name)
    then some f
    else get_field name fields

-- The type that values of a field have in an event, where it can stand in one.
unfoldable pub runtime_type : FieldType → Option TypedValueType
runtime_type AtomicInput.string_type = some string_type
runtime_type AtomicInput.int_type = some number_type
runtime_type AtomicInput.float_type = some number_type
runtime_type AtomicInput.bool_type = some bool_type
runtime_type AtomicInput.array_type = none
runtime_type AtomicInput.object_type = none
runtime_type AtomicInput.other_type = none

pub record Action : Type 0 where
  pub name : ℕ
  pub realtime : Option ℕ

unfoldable pub find_action : ℕ → List Action → Option Action
find_action name [] = none
find_action name (a ∷ actions) = if a.name == name then some a else find_action name actions

pub data Refusal : Type 0 where
  action_not_declared correlation_not_declared no_correlation invalid_correlation : Refusal
  other_field field_not_declared field_not_runtime other_type : Refusal

-- The checks of a correlation against the field that the action declares; `none` is the nil error.
unfoldable pub check_correlation : List Field → ℕ → Correlation → Option Refusal
check_correlation fields declared c =
    if not (correlation_valid c)
    then some invalid_correlation
    else if not (c.field == declared)
    then some other_field
    else elim (get_field declared fields) [
      | none ↦ some field_not_declared
      | some f ↦ elim (runtime_type f.type) [
        | none ↦ some field_not_runtime
        | some expected ↦ if same_type c.value.type expected then none else some other_type
      ]
    ]

unfoldable pub validate_publish : List Field → List Action → ℕ → Option Correlation → Option Refusal
validate_publish fields actions action correlation = elim (find_action action actions) [
  | none ↦ some action_not_declared
  | some a ↦ elim a.realtime [
    | none ↦ elim correlation [ none ↦ none | some c ↦ some correlation_not_declared ]
    | some declared ↦ elim correlation [
      | none ↦ some no_correlation
      | some c ↦ check_correlation fields declared c
    ]
  ]
]

pub record Module : Type 0 where
  pub name : ℕ
  pub fields : List Field
  pub actions : List Action

unfoldable pub module_by_name : ℕ → List Module → Option Module
module_by_name name [] = none
module_by_name name (m ∷ modules) = if m.name == name then some m else module_by_name name modules

-- How the generator is set up, and its broker and hub, where it has them.
pub record Settings : Type 0 where
  pub enabled : Bool
  pub external_delivery : Bool

-- What an action publishes; a payload is a number, 0 the nil map.
pub record Publication : Type 0 where
  pub topics : List Topic
  pub record_id : Option ℕ
  pub correlation : Option Correlation
  pub payload : ℕ

pub data PublishError : Type 0 where
  disabled no_broker no_hub no_topics : PublishError
  refused : Refusal → PublishError
  broker_refused : PublishError

abbrev pub no_topic : List Topic → Bool
no_topic [] = true
no_topic (t ∷ topics) = false

-- The record of the output, where the publication names none. `empty_payload` is the empty map.
abbrev pub event_of : ℕ → ℕ → ℕ → Option ℕ → ℕ → Publication → Event
event_of module_name action empty_payload output now p = record {
  id = 0;
  module_name = module_name;
  action = action;
  record_id = elim p.record_id [ some i ↦ some i | none ↦ output ];
  correlation = p.correlation;
  topics = p.topics;
  created_at = now;
  payload = if p.payload == 0 then empty_payload else p.payload;
}

abbrev pub deliver_here : Settings → Event → Hub → Hub
deliver_here settings e hub = if settings.external_delivery then hub else Hub.publish e hub

-- The published event with the broker and the hub, or the error. The broker is the one in memory.
unfoldable pub publish_event :
    Settings
    → Module
    → ℕ
    → ℕ
    → Option ℕ
    → ℕ
    → Publication
    → Option Broker
    → Option Hub
    → PublishError ⊎ (Event × Broker × Hub)
publish_event settings m action empty_payload output now p broker hub =
    if not settings.enabled then inl disabled else elim broker [
      | none ↦ inl no_broker
      | some b ↦ elim hub [
        | none ↦ inl no_hub
        | some h ↦
            if no_topic p.topics
            then inl no_topics
            else elim (validate_publish m.fields m.actions action p.correlation) [
              | some e ↦ inl (refused e)
              | none ↦
                  elim (Broker.publish now (event_of m.name action empty_payload output now p) b) [
                    | none ↦ inl broker_refused
                    | some (out, b') ↦ inr (out, b', deliver_here settings out h)
                  ]
            ]
      ]
    ]

pub data DeliverError : Type 0 where
  not_initialized invalid_event unknown_module : DeliverError
  delivery_refused : Refusal → DeliverError

-- DeliverRealtime of an event whose Type is "event" or not.
unfoldable pub deliver : Settings → List Module → Bool → Event → Option Hub → DeliverError ⊎ Hub
deliver settings modules is_event e none = inl not_initialized
deliver settings modules is_event e (some h) =
    if not settings.enabled
    then inl not_initialized
    else if not is_event || (e.id == 0 || no_topic e.topics)
    then inl invalid_event
    else elim (module_by_name e.module_name modules) [
      | none ↦ inl unknown_module
      | some m ↦ elim (validate_publish m.fields m.actions e.action e.correlation) [
        | some r ↦ inl (delivery_refused r)
        | none ↦ inr (Hub.publish e h)
      ]
    ]
