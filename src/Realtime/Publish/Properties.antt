-- ===== src/Realtime/Publish/Properties.antt =====
-- realtime.go: an event that passes the checks reaches the broker and the event streams.
use request_generator.Common.{
  ℕ, suc, ◌≡◌, refl, inl, inr, true, false, Option, none, some, List, [], ◌∷◌, ◌++◌, Option-cases,
  arith,
}
use request_generator.Actions.AtomicInput.{Field}
use request_generator.Realtime.Values.{Correlation}
use request_generator.Realtime.Broker.{Event, Broker, stamp, correlation_fails}
use request_generator.Realtime.Broker
use request_generator.Realtime.Hub.{Hub}
use request_generator.Realtime.Hub
use request_generator.Realtime.Hub.Delivery.{System, publishes, fans_out, Reach, here, next}
use request_generator.Realtime.Publish.{
  Action, Module, Settings, Publication, no_topic, event_of, check_correlation, validate_publish,
  publish_event, module_by_name, deliver,
}

-- The broker has nothing to say against a correlation that passed.
validate_publish-correlation_fails :
    (fields : List Field) (actions : List Action) (action : ℕ) (c : Option Correlation)
    → validate_publish fields actions action c ≡ none
    → correlation_fails c ≡ false
unfolding validate_publish check_correlation
validate_publish-correlation_fails fields actions action none h = refl
validate_publish-correlation_fails fields actions action (some c) h = ground (arith, h)

-- An event with a topic that passes the checks is never lost on the way to the broker: where realtime
-- is enabled with local delivery, publishRealtimeEvent succeeds, and what it does to the broker and
-- to the hub is the two steps of a publisher, publication and delivery. The event gets the topics and
-- the correlation of the publication and the broker's next number.
pub publish_event-Reach :
    (s : System) (settings : Settings) (m : Module) (action empty_payload now : ℕ)
    (output : Option ℕ) (p : Publication)
    → settings.enabled ≡ true
    → settings.external_delivery ≡ false
    → no_topic p.topics ≡ false
    → validate_publish m.fields m.actions action p.correlation ≡ none
    → (e : Event) × (b : Broker) × (h : Hub) × (publish_event settings m action empty_payload output
          now p
          (some s.broker)
          (some s.hub)
        ≡ inr (e, b, h))
      × Reach s (record s { broker = b; hub = h; log = s.log ++ e ∷ [] })
      × ((e.id ≡ suc s.broker.seq) × (e.topics ≡ p.topics) × (e.correlation ≡ p.correlation))
unfolding publish_event Broker.publish
publish_event-Reach s settings m action empty_payload now output p enabled here_too some_topic
      valid =
    let made = event_of m.name action empty_payload output now p in
    let good : correlation_fails p.correlation ≡ false =
      validate_publish-correlation_fails m.fields m.actions action p.correlation valid in
    elim (Option-cases (Broker.publish now made s.broker)) [
      | inl bad ↦ absurd (ground (arith, good, bad))
      | inr ((e, b), done) ↦ (
        e,
        b,
        Hub.publish e s.hub,
        ground (arith, enabled, here_too, some_topic, valid, done),
        next (next here (publishes s now made e b done)) (
            fans_out (record s { broker = b; pending = e ∷ s.pending; log = s.log ++ e ∷ [] }) []
              s.pending e refl),
        (ground (arith, good, done), ground (arith, good, done), ground (arith, good, done)),
      )
    ]

-- Delivery through another consumer is delivery here. Where the local publication of an event gives
-- the hub `h`, the publication with external delivery stores the same event and leaves the hub, and
-- DeliverRealtime of that event, on a generator that has the module, gives `h`.
pub publish_event-deliver :
    (settings : Settings) (modules : List Module) (m : Module) (action empty_payload now : ℕ)
    (output : Option ℕ) (p : Publication) (broker b : Broker) (hub h : Hub) (e : Event)
    → settings.external_delivery ≡ false
    → module_by_name m.name modules ≡ some m
    → publish_event settings m action empty_payload output now p (some broker) (some hub)
      ≡ inr (e, b, h)
    → (publish_event
          (record settings { external_delivery = true })
          m
          action
          empty_payload
          output
          now
          p
          (some broker)
          (some hub)
        ≡ inr (e, b, hub))
      × (deliver settings modules true e (some hub) ≡ inr h)
unfolding publish_event deliver Broker.publish
publish_event-deliver settings modules m action empty_payload now output p broker b hub h e here_too
      named done =
    (ground (arith, here_too, named, done), ground (arith, here_too, named, done))
