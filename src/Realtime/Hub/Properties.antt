-- ===== src/Realtime/Hub/Properties.antt =====
-- realtime.go: what one step keeps of what an event stream holds.
use mathlib.Core.Path.{subst}
use request_generator.Common.{
  ℕ, ◌≤◌, ◌<◌, ◌≡◌, refl, sym, ap, ◌∙◌, ◌⊎◌, inl, inr, true, none, some, List, [], ◌∷◌, ◌++◌, ltb,
  ◌==◌, length, length-append, drop, drop-append, All, All-append, All-map, In, In-append_left,
  In-append_right, In-between, Bool-cases, some_inj, arith,
}
use request_generator.Common.Assoc.{lookup, insert, lookup-insert}
use request_generator.Realtime.Topics.{Topic, matches}
use request_generator.Realtime.Broker.{Event, Broker, After, from_now, unreadable, behind, replay}
use request_generator.Realtime.Hub.{
  Stream, Hub, capacity, offer, publish, wanted, replay_limit, catch_up, follow,
}
use request_generator.Realtime.Hub.Delivery.{System}

-- An event was refused when the channel held as many events as it can.
abbrev pub IsRefused : Event → Stream → Type 0
IsRefused e c = (queue : List Event) × In (e, queue) c.dropped × (capacity ≤ length queue)

-- An event is in the channel, written to the client, or was refused by the full channel.
abbrev pub IsHeld : Event → Stream → Type 0
IsHeld e c = In e c.send ⊎ (In e c.written ⊎ IsRefused e c)

In-end : (e : Event) (events : List Event) → In e (events ++ e ∷ [])
In-end e events = In-append_right e events (e ∷ []) (inl refl)

offer-In : (x e : Event) (c : Stream) → IsHeld x c → IsHeld x (offer e c)
unfolding offer
offer-In x e c h = elim (Bool-cases (matches c.topics e.topics)) [
  | inr other ↦ rw (other, offer) h
  | inl wants ↦ elim (Bool-cases (ltb (length c.send) capacity)) [
    | inl room ↦
        rw (wants, room, offer)
          (elim h [ inl s ↦ inl (In-append_left x c.send (e ∷ []) s) | inr t ↦ inr t ])
    | inr full ↦
        rw (wants, full, offer)
          (elim h [
            | inl s ↦ inl s
            | inr (inl w) ↦ inr (inl w)
            | inr (inr (queue, d, full_then)) ↦
                inr
                  (inr (queue, In-append_left (x, queue) c.dropped ((e, c.send) ∷ []) d, full_then))
          ])
  ]
]

offer_self : (e : Event) (c : Stream) → matches c.topics e.topics ≡ true → IsHeld e (offer e c)
unfolding offer
offer_self e c h = elim (Bool-cases (ltb (length c.send) capacity)) [
  | inl room ↦ rw (h, room, offer) (inl (In-end e c.send))
  | inr full ↦
      rw (h, full, offer)
        (inr (
          inr (
            c.send,
            In-append_right (e, c.send) c.dropped ((e, c.send) ∷ []) (inl refl),
            ground (arith, full),
          )))
]

offer-topics : (e : Event) (c : Stream) → (offer e c).topics ≡ c.topics
unfolding offer
offer-topics e c = ground arith

pub lookup-publish :
    (i : ℕ) (e : Event) (hub : Hub)
    → lookup i (publish e hub) ≡ (elim (lookup i hub) [ none ↦ none | some c ↦ some (offer e c) ])
unfolding lookup publish
lookup-publish i e [] = refl
lookup-publish i e ((j, c) ∷ hub) = ground (arith, lookup-publish i e hub)

pub follow-In : (x : Event) (c : Stream) → IsHeld x c → IsHeld x (follow c)
unfolding follow
follow-In x c h = by_channel c.send refl h
  where
    by_channel : (send : List Event) → c.send ≡ send → IsHeld x c → IsHeld x (follow c)
    by_channel [] e k = rw (e, follow) k
    by_channel (y ∷ send) e (inl s) = elim (subst (In x) e s) [
      | inl same ↦
          rw (e, follow)
            (inr (inl (subst (λ z. In x (c.written ++ z ∷ [])) (sym same) (In-end x c.written))))
      | inr later ↦ rw (e, follow) (inl later)
    ]
    by_channel (y ∷ send) e (inr (inl w)) =
        rw (e, follow) (inr (inl (In-append_left x c.written (y ∷ []) w)))
    by_channel (y ∷ send) e (inr (inr d)) = rw (e, follow) (inr (inr d))

pub follow-topics : (c : Stream) → (follow c).topics ≡ c.topics
unfolding follow
follow-topics c = ground arith

pub catch_up-In :
    (x : Event) (after : After) (b : Broker) (c : Stream)
    → IsHeld x c
    → IsHeld x (catch_up after b c).0
unfolding catch_up replay
catch_up-In x from_now b c h = h
catch_up-In x unreadable b c h = h
catch_up-In x (behind a) b c h = elim (Bool-cases (replay (behind a) replay_limit b).1) [
  | inl anew ↦ rw (anew, catch_up) h
  | inr goes_on ↦
      rw (goes_on, catch_up)
        (elim h [
          | inl s ↦ inl s
          | inr (inl w) ↦ inr (inl (In-append_left x c.written _ w))
          | inr (inr d) ↦ inr (inr d)
        ])
]

pub catch_up-topics :
    (after : After) (b : Broker) (c : Stream) → (catch_up after b c).0.topics ≡ c.topics
unfolding catch_up
catch_up-topics after b c = ground arith

pub wanted-In :
    (topics : List Topic) (events : List Event)
    → All (λ e. matches topics e.topics ≡ true → In e (wanted topics events)) events
unfolding wanted
wanted-In topics [] = tt
wanted-In topics (e ∷ events) = elim (Bool-cases (matches topics e.topics)) [
  | inl wants ↦ (
    λ h. rw (wants, wanted) (inl refl),
    All-map events (λ x more h. rw (wants, wanted) (inr (more h))) (wanted-In topics events),
  )
  | inr other ↦
      (λ h. cc, All-map events (λ x more h. rw (other, wanted) (more h)) (wanted-In topics events))
]

-- The stream under the number is there with these topics, and each event behind `after` that its
-- topics match is with its publisher or held.
pub record Tracks (i after : ℕ) (topics : List Topic) (s : System) (c : Stream) : Type 0 where
  pub found : lookup i s.hub ≡ some c
  pub same_topics : c.topics ≡ topics
  pub known : after ≤ length s.log
  pub accounted :
      All (λ e. matches topics e.topics ≡ true → In e s.pending ⊎ IsHeld e c) (drop after s.log)

-- A stream that has left does not come back under its number.
abbrev pub Tracked : ℕ → ℕ → List Topic → System → Type 0
Tracked i after topics s =
    (i < s.next) × ((lookup i s.hub ≡ none) ⊎ ((c : Stream) × Tracks i after topics s c))

pub publishes-Tracked :
    (i after : ℕ) (topics : List Topic) (s : System) (c : Stream) (out : Event) (b : Broker)
    → Tracks i after topics s c
    → Tracks i after topics
        (record s { broker = b; pending = out ∷ s.pending; log = s.log ++ out ∷ [] })
        c
publishes-Tracked i after topics s c out b t = record {
  found = t.found;
  same_topics = t.same_topics;
  known = omega (arith, t.known, length-append s.log (out ∷ []));
  accounted = rw (drop-append after s.log (out ∷ []) t.known) (
      All-append _ (drop after s.log) (out ∷ [])
        (All-map (drop after s.log)
          (λ e more h. elim (more h) [ inl p ↦ inl (inr p) | inr k ↦ inr k ]) t.accounted)
        (λ h. inl (inl refl), tt));
}

pub fans_out-Tracked :
    (i after : ℕ) (topics : List Topic) (s : System) (c : Stream) (xs ys : List Event) (e : Event)
    → Tracks i after topics s c
    → s.pending ≡ xs ++ e ∷ ys
    → Tracks i after topics (record s { hub = publish e s.hub; pending = xs ++ ys }) (offer e c)
fans_out-Tracked i after topics s c xs ys e t p = record {
  found = ground (arith, t.found, lookup-publish i e s.hub);
  same_topics = offer-topics e c ∙ t.same_topics;
  known = t.known;
  accounted =
      All-map (drop after s.log)
        (λ x more h. elim (more h) [
          | inr k ↦ inr (offer-In x e c k)
          | inl q ↦ elim (In-between x e xs ys (subst (In x) p q)) [
            | inr k ↦ inl k
            | inl same ↦ inr (
                subst (λ z. IsHeld z (offer e c)) same
                  (offer_self e c (rw t.same_topics (rw same h))))
          ]
        ])
        t.accounted;
}

-- Another stream, or one that holds at least as much.
pub replaced-Tracked :
    (i after : ℕ) (topics : List Topic) (s : System) (c : Stream) (j n : ℕ) (d old : Stream)
    → Tracks i after topics s c
    → lookup j s.hub ≡ some old
    → d.topics ≡ old.topics
    → ((x : Event) → IsHeld x old → IsHeld x d)
    → (r : Stream) × Tracks i after topics (record s { hub = insert j d s.hub; next = n }) r
replaced-Tracked i after topics s c j n d old t g u held = elim (Bool-cases (j == i)) [
  | inr other ↦ (
    c,
    record {
      found = ground (arith, t.found, lookup-insert i j d s.hub);
      same_topics = t.same_topics;
      known = t.known;
      accounted = t.accounted;
    },
  )
  | inl same ↦
      let e : j ≡ i = ground (arith, same) in
      let same_stream : old ≡ c = some_inj (sym g ∙ ap (λ k. lookup k s.hub) e ∙ t.found) in
      (
        d,
        record {
          found = ground (arith, lookup-insert i j d s.hub);
          same_topics = u ∙ ap (λ (x : Stream). x.topics) same_stream ∙ t.same_topics;
          known = t.known;
          accounted =
              All-map (drop after s.log)
                (λ x more h. elim (more h) [
                  | inl p ↦ inl p
                  | inr k ↦ inr (held x (subst (IsHeld x) (sym same_stream) k))
                ])
                t.accounted;
        },
      )
]
