-- ===== src/Realtime/Publish/Tests.antt =====
-- A module whose add action declares its order number, and its publications.
use request_generator.Common.{ℕ, suc, ◌≡◌, refl, ◌++◌, inl, inr, true, false, none, some, [], ◌∷◌}
use request_generator.Actions.AtomicInput.{Field}
use request_generator.Actions.AtomicInput
use request_generator.Realtime.Topics.{user_topic, same_topic, is_member, any_member}
use request_generator.Realtime.Values.{string_type, same_type, typed_value_valid, correlation_valid}
use request_generator.Realtime.Broker.{Event, Broker, new_broker}
use request_generator.Realtime.Broker
use request_generator.Realtime.Hub.{Hub, Stream, new_stream, offer}
use request_generator.Realtime.Hub
use request_generator.Realtime.Hub.Delivery.{start, Reach}
use request_generator.Realtime.Publish.{
  get_field, runtime_type, find_action, check_correlation, validate_publish, Module, module_by_name,
  Settings, Publication, refused, other_field, publish_event, deliver,
}
use request_generator.Realtime.Publish.Properties.{publish_event-Reach, publish_event-deliver}

program : Unit {0}
unfolding same_topic is_member any_member same_type typed_value_valid correlation_valid new_broker
    Broker.publish offer Hub.publish new_stream get_field runtime_type find_action check_correlation
    validate_publish module_by_name publish_event deliver
program = tt

abbrev orders : Module
orders = record {
  name = 3;
  fields =
      record {
        name = 10;
        column_name = 10;
        translatable = false;
        type = AtomicInput.string_type;
        json_storage = false;
      }
      ∷ [];
  actions = record { name = 1; realtime = some 10 } ∷ [];
}

abbrev local : Settings
local = record { enabled = true; external_delivery = false }

abbrev publication_of : ℕ → Publication
publication_of field = record {
  topics = user_topic 1 ∷ [];
  record_id = none;
  correlation = some (record {
    field = field;
    value = record { type = string_type; string = 77; number = 0; bool = none };
  });
  payload = 0;
}

abbrev broker : Broker
broker = new_broker 5

abbrev hub : Hub
hub = (0, new_stream 1 2) ∷ []

-- What is published: the record comes from the output.
abbrev event : Event
event = record {
  id = 1;
  module_name = 3;
  action = 1;
  record_id = some 40;
  correlation = (publication_of 10).correlation;
  topics = user_topic 1 ∷ [];
  created_at = 100;
  payload = 6;
}

refuses_other_field :
    publish_event local orders 1 6 (some 40) 100 (publication_of 11) (some broker) (some hub)
    ≡ inl (refused other_field)
unfolding program
refuses_other_field = refl

publish_event-Reach_example :
    (e : Event) × (b : Broker) × (h : Hub) × (publish_event local orders 1 6
        (some 40)
        100
        (publication_of 10)
        (some (start 5).broker)
        (some [])
      ≡ inr (e, b, h))
    × Reach (start 5) (record (start 5) { broker = b; hub = h; log = [] ++ e ∷ [] })
    × ((e.id ≡ suc (start 5).broker.seq)
        × (e.topics ≡ user_topic 1 ∷ [])
        × (e.correlation ≡ (publication_of 10).correlation))
unfolding program
publish_event-Reach_example =
    publish_event-Reach (start 5) local orders 1 6 100 (some 40) (publication_of 10) refl refl refl
      refl

publish_event-deliver_example :
    (publish_event
        (record local { external_delivery = true })
        orders
        1
        6
        (some 40)
        100
        (publication_of 10)
        (some broker)
        (some hub)
      ≡ inr (event, record broker { seq = 1; events = event ∷ [] }, hub))
    × (deliver local (orders ∷ []) true event (some hub) ≡ inr (Hub.publish event hub))
unfolding program
publish_event-deliver_example =
    publish_event-deliver local (orders ∷ []) orders 1 6 100 (some 40) (publication_of 10) broker
      (record broker { seq = 1; events = event ∷ [] }) hub (Hub.publish event hub) event refl refl
      refl
