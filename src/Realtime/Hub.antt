-- ===== src/Realtime/Hub.antt =====
-- realtime.go: realtimeHub with its event streams (sseConnection), and what handleRealtimeSSE does
-- with one. A connection is found under its number, its channel is the list of events in it, and
-- `written` is what the handler wrote to the client, in order. `dropped` records each event that the
-- channel refused, with what the channel held then: the source keeps no such list.
pub mod Delivery
pub mod NoLoss
pub mod Properties
pub mod Tests
use request_generator.Common.{
  ℕ, Bool, true, false, Option, none, some, List, [], ◌∷◌, ◌++◌, ltb, ◌==◌, if◌then◌else◌, length,
}
use request_generator.Common.Assoc.{lookup, delete, insert}
use request_generator.Realtime.Topics.{Topic, matches, topics_for_user}
use request_generator.Realtime.Broker.{Event, Broker, After, from_now, replay}

pub record Stream : Type 0 where
  pub topics : List Topic
  pub send : List Event
  pub written : List Event
  pub dropped : List (Event × List Event)

abbrev pub Hub : Type 0
Hub = List (ℕ × Stream)

abbrev pub capacity : ℕ
capacity = 64

unfoldable pub new_stream : ℕ → ℕ → Stream
new_stream user role = record {
  topics = topics_for_user user role;
  send = [];
  written = [];
  dropped = [];
}

-- The send that does not block.
unfoldable pub offer : Event → Stream → Stream
offer e c =
    if matches c.topics e.topics
    then (if ltb (length c.send) capacity
        then record c { send = c.send ++ e ∷ [] }
        else record c { dropped = c.dropped ++ (e, c.send) ∷ [] })
    else c

unfoldable pub publish : Event → Hub → Hub
publish e [] = []
publish e ((i, c) ∷ hub) = (i, offer e c) ∷ publish e hub

abbrev pub add : ℕ → Stream → Hub → Hub
add = insert

abbrev pub remove : ℕ → Hub → Hub
remove = delete

-- The events of a replay that the connection gets.
unfoldable pub wanted : List Topic → List Event → List Event
wanted topics [] = []
wanted topics (e ∷ events) =
    if matches topics e.topics then e ∷ wanted topics events else wanted topics events

abbrev pub replay_limit : ℕ
replay_limit = 500

-- What the handler writes before it follows the channel, and whether it tells the client that the
-- replay is complete.
unfoldable pub catch_up : After → Broker → Stream → Stream × Bool
catch_up from_now b c = (c, true)
catch_up after b c =
    if (replay after replay_limit b).1
    then (c, false)
    else (record c { written = c.written ++ wanted c.topics (replay after replay_limit b).0 }, true)

-- One round of the loop that reads the channel.
unfoldable pub follow : Stream → Stream
follow c = elim c.send [
  | [] ↦ c
  | e ∷ events ↦ record c { send = events; written = c.written ++ e ∷ [] }
]
