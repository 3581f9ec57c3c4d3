-- ===== src/Realtime/Hub/Tests.antt =====
-- A stream that connects, misses nothing and is overtaken.
use request_generator.Common.{ℕ, ◌≡◌, refl, arith, ◌⊎◌, true, none, [], ◌∷◌, All, In}
use request_generator.Common.Assoc.{lookup, delete, insert}
use request_generator.Realtime.Topics.{
  Topic, user_topic, role_topic, same_topic, is_member, any_member, matches,
}
use request_generator.Realtime.Broker.{
  Event, Broker, new_broker, behind, collect, replay_behind, replay,
}
use request_generator.Realtime.Broker
use request_generator.Realtime.Hub.{Stream, new_stream, offer, publish, wanted, catch_up, follow}
use request_generator.Realtime.Hub.Delivery.{System, start, publishes, connects, Reach, here, next}
use request_generator.Realtime.Hub.Properties.{IsHeld}
use request_generator.Realtime.Hub.NoLoss.{caught_up-no_loss}

program : Unit {0}
unfolding lookup delete insert same_topic is_member any_member new_broker Broker.publish collect
    replay_behind replay new_stream offer publish wanted catch_up follow
program = tt

abbrev event : ℕ → Topic → Event
event id topic = record {
  id = id;
  module_name = 3;
  action = 4;
  record_id = none;
  correlation = none;
  topics = topic ∷ [];
  created_at = 7;
  payload = 0;
}

-- An event for user 1 is published before its client connects.
abbrev broker_1 : Broker
broker_1 = record { seq = 1; events = event 1 (user_topic 1) ∷ []; max = 1000 }

abbrev connected : System
connected = record {
  broker = broker_1;
  hub = (0, new_stream 1 2) ∷ [];
  pending = event 1 (user_topic 1) ∷ [];
  log = event 1 (user_topic 1) ∷ [];
  next = 1;
}

connects_first : Reach (start 1000) connected
unfolding program
connects_first =
    next
      (next here
        (publishes (start 1000) 7 (event 0 (user_topic 1)) (event 1 (user_topic 1)) broker_1 refl))
      (connects _ 1 2)

abbrev broker_2 : Broker
broker_2 = record {
  seq = 2;
  events = event 1 (user_topic 1) ∷ event 2 (role_topic 2) ∷ [];
  max = 1000;
}

abbrev caught_up : System
caught_up = record connected {
  hub = insert 0 (catch_up (behind 0) broker_1 (new_stream 1 2)).0 connected.hub;
}

abbrev overtaken : System
overtaken = record caught_up {
  broker = broker_2;
  pending = event 2 (role_topic 2) ∷ event 1 (user_topic 1) ∷ [];
  log = event 1 (user_topic 1) ∷ event 2 (role_topic 2) ∷ [];
}

overtakes : Reach caught_up overtaken
unfolding program
overtakes =
    next here
      (publishes caught_up 8 (event 0 (role_topic 2)) (event 2 (role_topic 2)) broker_2 refl)

-- The first event was written in the replay and comes again from its publisher.
abbrev reading : Stream
reading = record (new_stream 1 2) { written = event 1 (user_topic 1) ∷ [] }

caught_up-no_loss_example :
    All
      (λ e.
        matches (new_stream 1 2).topics e.topics ≡ true → In e overtaken.pending ⊎ IsHeld e reading)
      overtaken.log
unfolding program
caught_up-no_loss_example =
    caught_up-no_loss 1000 0 0 connected overtaken (new_stream 1 2) reading connects_first refl
      (omega arith) (omega arith) refl overtakes refl
