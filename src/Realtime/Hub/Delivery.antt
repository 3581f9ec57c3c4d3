-- ===== src/Realtime/Hub/Delivery.antt =====
-- realtime.go: publishers and event streams together. A publisher first publishes to the broker and
-- then to the hub; between the two its event is in `pending`, from which the publishers go on in any
-- order. `log` records what the broker has published, and `next` numbers the connections.
use request_generator.Common.{ℕ, suc, ◌≡◌, some, List, [], ◌∷◌, ◌++◌}
use request_generator.Common.Assoc.{lookup, insert}
use request_generator.Realtime.Broker.{Event, Broker, new_broker, stamp, After}
use request_generator.Realtime.Broker
use request_generator.Realtime.Hub.{Stream, Hub, new_stream, publish, add, remove, catch_up, follow}

pub record System : Type 0 where
  pub broker : Broker
  pub hub : Hub
  pub pending : List Event
  pub log : List Event
  pub next : ℕ

abbrev pub start : ℕ → System
start max_events = record {
  broker = new_broker max_events;
  hub = [];
  pending = [];
  log = [];
  next = 0;
}

pub data Step : System → System → Type 0 where
  publishes :
      (s : System) (now : ℕ) (e out : Event) (b : Broker)
      → Broker.publish now e s.broker ≡ some (out, b)
      → Step s (record s { broker = b; pending = out ∷ s.pending; log = s.log ++ out ∷ [] })
  fans_out :
      (s : System) (before after : List Event) (e : Event)
      → s.pending ≡ before ++ e ∷ after
      → Step s (record s { hub = publish e s.hub; pending = before ++ after })
  follows :
      (s : System) (i : ℕ) (c : Stream)
      → lookup i s.hub ≡ some c
      → Step s (record s { hub = insert i (follow c) s.hub })
  connects :
      (s : System) (user role : ℕ)
      → Step s (record s { hub = add s.next (new_stream user role) s.hub; next = suc s.next })
  catches_up :
      (s : System) (i : ℕ) (c : Stream) (after : After)
      → lookup i s.hub ≡ some c
      → Step s (record s { hub = insert i (catch_up after s.broker c).0 s.hub })
  leaves : (s : System) (i : ℕ) → Step s (record s { hub = remove i s.hub })

pub data Reach (s : System) : System → Type 0 where
  here : Reach s s
  next : {t u : System} → Reach s t → Step t u → Reach s u
