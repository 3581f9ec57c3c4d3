-- ===== src/Realtime/Hub/NoLoss.antt =====
-- realtime.go: an event stream that has caught up loses no event.
use mathlib.Core.Path.{subst}
use request_generator.Common.{
  ℕ, suc, ◌+◌, ◌≤◌, ◌<◌, ◌≡◌, sym, ◌∙◌, ◌⊎◌, inl, inr, true, false, none, some, List, ◌==◌, length,
  length-drop, take, drop, take_all, All, All-map, In, In-append_right, Bool-cases, Option-cases,
  some_inj, arith,
}
use request_generator.Common.Assoc.{lookup, insert, lookup-insert, lookup-delete}
use request_generator.Realtime.Topics.{Topic, matches}
use request_generator.Realtime.Broker.{Event, Broker, behind, replay}
use request_generator.Realtime.Broker.Properties.{
  Refines, new-Refines, published-Refines, replay-Refines,
}
use request_generator.Realtime.Hub.{Stream, Hub, new_stream, offer, replay_limit, catch_up, follow}
use request_generator.Realtime.Hub.Delivery.{
  System, start, Step, publishes, fans_out, follows, connects, catches_up, leaves, Reach, here,
  next,
}
use request_generator.Realtime.Hub.Properties.{
  IsHeld, Tracked, wanted-In, publishes-Tracked, fans_out-Tracked, replaced-Tracked, lookup-publish,
  follow-In, follow-topics, catch_up-In, catch_up-topics,
}

-- A number that is not used stays so where another's stream is replaced.
still_gone :
    (i j : ℕ) (d c : Stream) (hub : Hub)
    → lookup i hub ≡ none
    → lookup j hub ≡ some c
    → lookup i (insert j d hub) ≡ none
still_gone i j d c hub gone h = ground (arith, gone, h, lookup-insert i j d hub)

Step-Tracked :
    (i after : ℕ) (topics : List Topic) (s t : System)
    → Step s t
    → Tracked i after topics s
    → Tracked i after topics t
Step-Tracked i after topics _ _ (publishes s now e out b h) (l, inl gone) = (l, inl gone)
Step-Tracked i after topics _ _ (publishes s now e out b h) (l, inr (c, k)) =
    (l, inr (c, publishes-Tracked i after topics s c out b k))
Step-Tracked i after topics _ _ (fans_out s xs ys e h) (l, inl gone) =
    (l, inl (ground (arith, lookup-publish i e s.hub)))
Step-Tracked i after topics _ _ (fans_out s xs ys e h) (l, inr (c, k)) =
    (l, inr (offer e c, fans_out-Tracked i after topics s c xs ys e k h))
Step-Tracked i after topics _ _ (follows s j c h) (l, inl gone) =
    (l, inl (still_gone i j (follow c) c s.hub gone h))
Step-Tracked i after topics _ _ (follows s j c h) (l, inr (d, k)) = (
  l,
  inr (
      replaced-Tracked i after topics s d j s.next (follow c) c k h (follow-topics c)
        (λ x. follow-In x c)),
)
Step-Tracked i after topics _ _ (connects s user role) (l, inl gone) = (
  omega (arith, l),
  inl ground (arith, gone, l, lookup-insert i s.next (new_stream user role) s.hub),
)
Step-Tracked i after topics _ _ (connects s user role) (l, inr (c, k)) = (
  omega (arith, l),
  inr (
    c,
    record {
      found = ground (arith, k.found, l, lookup-insert i s.next (new_stream user role) s.hub);
      same_topics = k.same_topics;
      known = k.known;
      accounted = k.accounted;
    },
  ),
)
Step-Tracked i after topics _ _ (catches_up s j c a h) (l, inl gone) =
    (l, inl (still_gone i j (catch_up a s.broker c).0 c s.hub gone h))
Step-Tracked i after topics _ _ (catches_up s j c a h) (l, inr (d, k)) = (
  l,
  inr (
      replaced-Tracked i after topics s d j s.next (catch_up a s.broker c).0 c k h
        (catch_up-topics a s.broker c) (λ x. catch_up-In x a s.broker c)),
)
Step-Tracked i after topics _ _ (leaves s j) (l, inl gone) =
    (l, inl (ground (arith, gone, lookup-delete i j s.hub)))
Step-Tracked i after topics _ _ (leaves s j) (l, inr (c, k)) = elim (Bool-cases (j == i)) [
  | inl same ↦ (l, inl (ground (arith, same, lookup-delete i j s.hub)))
  | inr other ↦ (
    l,
    inr (
      c,
      record {
        found = ground (arith, other, k.found, lookup-delete i j s.hub);
        same_topics = k.same_topics;
        known = k.known;
        accounted = k.accounted;
      },
    ),
  )
]

Reach-Tracked :
    (i after : ℕ) (topics : List Topic) (s t : System)
    → Reach s t
    → Tracked i after topics s
    → Tracked i after topics t
Reach-Tracked i after topics s t here k = k
Reach-Tracked i after topics s t (next {t = u} r st) k =
    Step-Tracked i after topics u t st (Reach-Tracked i after topics s u r k)

-- The broker holds the end of the log, and the numbers of the connections were given out.
record Sound (s : System) : Type 0 where
  refines : Refines s.broker s.log
  fresh : (i : ℕ) (c : Stream) → lookup i s.hub ≡ some c → i < s.next

fresh_insert :
    (i j n m : ℕ) (c d : Stream) (hub : Hub)
    → ((k : ℕ) (x : Stream) → lookup k hub ≡ some x → k < n)
    → n ≤ m
    → j < m
    → lookup i (insert j d hub) ≡ some c
    → i < m
fresh_insert i j n m c d hub f le l h = elim (Bool-cases (j == i)) [
  | inl same ↦ ground (arith, same)
  | inr other ↦
      let known : i < n = f i c (ground (arith, other, h, lookup-insert i j d hub)) in
      omega (arith, known)
]

Step-Sound : (s t : System) → Step s t → Sound s → Sound t
Step-Sound _ _ (publishes s now e out b h) v = record {
  refines = published-Refines now e out s.broker b s.log v.refines h;
  fresh = v.fresh;
}
Step-Sound _ _ (fans_out s xs ys e h) v = record {
  refines = v.refines;
  fresh = λ i c k. elim (Option-cases (lookup i s.hub)) [
    | inl gone ↦ absurd (ground (arith, gone, k, lookup-publish i e s.hub))
    | inr (d, there) ↦ v.fresh i d there
  ];
}
Step-Sound _ _ (follows s j d h) v = record {
  refines = v.refines;
  fresh = λ i c.
      fresh_insert i j s.next s.next c (follow d) s.hub v.fresh (omega arith) (v.fresh j d h);
}
Step-Sound _ _ (connects s user role) v = record {
  refines = v.refines;
  fresh = λ i c.
      fresh_insert i s.next s.next (suc s.next) c (new_stream user role) s.hub v.fresh (omega arith)
        (omega arith);
}
Step-Sound _ _ (catches_up s j d a h) v = record {
  refines = v.refines;
  fresh = λ i c.
      fresh_insert i j s.next s.next c (catch_up a s.broker d).0 s.hub v.fresh (omega arith)
        (v.fresh j d h);
}
Step-Sound _ _ (leaves s j) v = record {
  refines = v.refines;
  fresh = λ i c k. v.fresh i c (ground (arith, k, lookup-delete i j s.hub));
}

Reach-Sound : (max_events : ℕ) (t : System) → Reach (start max_events) t → Sound t
unfolding lookup
Reach-Sound max_events t here = record {
  refines = new-Refines max_events;
  fresh = λ i c h. absurd (ground (arith, h));
}
Reach-Sound max_events t (next {t = u} r st) = Step-Sound u t st (Reach-Sound max_events u r)

-- The same without the system: the events behind `after`, where the last 500 reach back to it.
replayed :
    (after : ℕ) (b : Broker) (log : List Event)
    → Refines b log
    → after ≤ length log
    → length log ≤ after + replay_limit
    → (replay (behind after) replay_limit b).1 ≡ false
    → (replay (behind after) replay_limit b).0 ≡ drop after log
replayed after b log v known near goes_on =
    let all : take 500 (drop after log) ≡ drop after log =
      take_all 500 (drop after log) (omega (arith, near, length-drop after log)) in
    ground (arith, replay-Refines b log (behind after) replay_limit v, goes_on, all)

caught_up-Tracked :
    (i after : ℕ) (s : System) (c : Stream)
    → Sound s
    → lookup i s.hub ≡ some c
    → after ≤ length s.log
    → length s.log ≤ after + replay_limit
    → (replay (behind after) replay_limit s.broker).1 ≡ false
    → Tracked i after c.topics
        (record s { hub = insert i (catch_up (behind after) s.broker c).0 s.hub })
unfolding catch_up
caught_up-Tracked i after s c v found known near goes_on =
    let events = replayed after s.broker s.log v.refines known near goes_on in
    (
      v.fresh i c found,
      inr (
        (catch_up (behind after) s.broker c).0,
        record {
          found = ground (arith, lookup-insert i i (catch_up (behind after) s.broker c).0 s.hub);
          same_topics = catch_up-topics (behind after) s.broker c;
          known = known;
          accounted =
              rw (goes_on, catch_up)
                (rw events (
                  All-map (drop after s.log)
                    (λ e w h. inr (inr (inl (In-append_right e c.written _ (w h)))))
                    (wanted-In c.topics (drop after s.log))));
        },
      ),
    )

-- No event is lost to a client that has caught up. In any run of publishers and event streams, let
-- a stream ask for the events behind an id that was given out, at most 500 before the last, and be
-- told that the replay is complete. As long as the stream stays, whatever else happens and in
-- whatever order, every event behind that id with one of the stream's topics is still with its
-- publisher, or in the stream's channel, or written to the client, or was refused when the
-- stream's channel held 64 events, as many as it can.
pub caught_up-no_loss :
    (max_events i after : ℕ) (s t : System) (c d : Stream)
    → Reach (start max_events) s
    → lookup i s.hub ≡ some c
    → after ≤ length s.log
    → length s.log ≤ after + replay_limit
    → (catch_up (behind after) s.broker c).1 ≡ true
    → Reach (record s { hub = insert i (catch_up (behind after) s.broker c).0 s.hub }) t
    → lookup i t.hub ≡ some d
    → All (λ e. matches c.topics e.topics ≡ true → In e t.pending ⊎ IsHeld e d) (drop after t.log)
unfolding catch_up
caught_up-no_loss max_events i after s t c d r found known near told on there =
    let goes_on : (replay (behind after) replay_limit s.broker).1 ≡ false = ground (arith, told) in
    let (l, k) =
      Reach-Tracked i after c.topics _ t on
        (caught_up-Tracked i after s c (Reach-Sound max_events s r) found known near goes_on) in
    elim k [
      | inl gone ↦ absurd (ground (arith, gone, there))
      | inr (e, k') ↦
          let same : e ≡ d = some_inj (sym k'.found ∙ there) in
          subst
            (λ x.
              All (λ e. matches c.topics e.topics ≡ true → In e t.pending ⊎ IsHeld e x)
                (drop after t.log))
            same k'.accounted
    ]
