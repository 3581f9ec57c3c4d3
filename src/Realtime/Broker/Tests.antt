-- ===== src/Realtime/Broker/Tests.antt =====
-- A broker that retains two events, at concrete publications.
use request_generator.Common.{ℕ, ◌≡◌, refl, true, false, none, some, List, [], ◌∷◌, map}
use request_generator.Realtime.Topics.{Topic, user_topic}
use request_generator.Realtime.Values.{bool_type, Correlation, typed_value_valid, correlation_valid}
use request_generator.Realtime.Broker.{
  Event, Broker, new_broker, publish, from_now, unreadable, behind, collect, replay_behind, replay,
  retain,
}
use request_generator.Realtime.Broker.Properties.{
  Publication, publication, publish_all, log_all, log_replay, replay_refines,
}

program : Unit {0}
unfolding typed_value_valid correlation_valid new_broker publish collect replay_behind replay
    publish_all log_all
program = tt

abbrev event : Topic → Event
event topic = record {
  id = 0;
  module_name = 3;
  action = 4;
  record_id = none;
  correlation = none;
  topics = topic ∷ [];
  created_at = 0;
  payload = 0;
}

abbrev incomplete : Correlation
incomplete = record {
  field = 9;
  value = record { type = bool_type; string = 0; number = 0; bool = none };
}

abbrev refused : Event
refused = record (event (user_topic 5)) { correlation = some incomplete }

-- Three events, and one that is refused between them.
abbrev publications : List Publication
publications =
    publication 100 (event (user_topic 1))
    ∷ publication 101 (event (user_topic 2))
    ∷ publication 102 refused
    ∷ publication 103 (event (user_topic 3))
    ∷ []

abbrev broker : Broker
broker = publish_all publications (new_broker 2)

abbrev ids : List Event → List ℕ
ids = map (λ e. e.id)

replays :
    (ids broker.events ≡ 2 ∷ 3 ∷ [])
    × (ids (replay (behind 1) 0 broker).0 ≡ 2 ∷ 3 ∷ [])
    × (ids (replay (behind 1) 1 broker).0 ≡ 2 ∷ [])
    × (replay (behind 0) 0 broker ≡ ([], true))
    × (replay unreadable 0 broker ≡ ([], true))
    × (replay from_now 0 broker ≡ ([], false))
unfolding program
replays = (refl, refl, refl, refl, refl, refl)

-- An id beyond the last, as a client has it that outlived a restart of the server, is answered as
-- if nothing had been missed.
beyond_the_last : replay (behind 40) 0 broker ≡ ([], false)
unfolding program
beyond_the_last = refl

replay_refines_example :
    (broker.events ≡ retain broker.max (log_all publications []))
    × (replay (behind 1) 0 broker ≡ log_replay broker.max (behind 1) 0 (log_all publications []))
replay_refines_example = replay_refines 2 publications (behind 1) 0
