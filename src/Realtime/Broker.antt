-- ===== src/Realtime/Broker.antt =====
-- realtime.go: MemoryBroker, the bounded log of published events.
-- An event's id is its number, 0 where it has none, and a time is a number, 0 the zero time.
pub mod Numbered
pub mod Properties
pub mod Tests
use request_generator.Common.{
  ℕ, suc, ◌+◌, ◌-◌, Bool, true, false, not, Option, none, some, List, [], ◌∷◌, ◌++◌, ltb, leb, ◌==◌,
  if◌then◌else◌, length, drop,
}
use request_generator.Realtime.Topics.{Topic}
use request_generator.Realtime.Values.{Correlation, correlation_valid}

pub record Event : Type 0 where
  pub id : ℕ
  pub module_name : ℕ
  pub action : ℕ
  pub record_id : Option ℕ
  pub correlation : Option Correlation
  pub topics : List Topic
  pub created_at : ℕ
  pub payload : ℕ

pub record Broker : Type 0 where
  pub seq : ℕ
  pub events : List Event
  pub max : ℕ

unfoldable pub new_broker : ℕ → Broker
new_broker max_events = record {
  seq = 0;
  events = [];
  max = if max_events == 0 then 1000 else max_events;
}

-- What Publish stores of an event: its number, and the time where it has none.
abbrev pub stamp : ℕ → ℕ → Event → Event
stamp id now e = record e { id = id; created_at = if e.created_at == 0 then now else e.created_at }

abbrev pub correlation_fails : Option Correlation → Bool
correlation_fails none = false
correlation_fails (some c) = not (correlation_valid c)

-- The last `max` of the events.
abbrev pub retain : ℕ → List Event → List Event
retain max events = if ltb max (length events) then drop (length events - max) events else events

-- `none` is the error of a correlation that does not validate.
unfoldable pub publish : ℕ → Event → Broker → Option (Event × Broker)
publish now e b =
    if correlation_fails e.correlation
    then none
    else some (
      stamp (suc b.seq) now e,
      record b {
        seq = suc b.seq;
        events = retain b.max (b.events ++ stamp (suc b.seq) now e ∷ []);
      },
    )

-- The id behind which a client asks to replay: none, one that is no number or is negative, or one.
pub data After : Type 0 where
  from_now : After
  unreadable : After
  behind : ℕ → After

abbrev pub default_limit : ℕ → ℕ
default_limit limit = if limit == 0 then 500 else limit

-- The loop of Replay, with how many events it still may take.
unfoldable pub collect : ℕ → ℕ → List Event → List Event
collect after room [] = []
collect after room (e ∷ events) =
    let rest = collect after room events in
    let fewer = collect after (room - 1) events in
    if ltb after e.id then (if leb room 1 then e ∷ [] else e ∷ fewer) else rest

-- The events, and whether the client must load everything anew.
unfoldable pub replay_behind : ℕ → ℕ → List Event → List Event × Bool
replay_behind after limit [] = ([], true)
replay_behind after limit (e ∷ events) =
    if ltb after (e.id - 1)
    then ([], true)
    else (collect after (default_limit limit) (e ∷ events), false)

unfoldable pub replay : After → ℕ → Broker → List Event × Bool
replay from_now limit b = ([], false)
replay unreadable limit b = ([], true)
replay (behind after) limit b = replay_behind after limit b.events
