-- ===== src/Realtime/Broker/Properties.antt =====
-- realtime.go: MemoryBroker refines an unbounded log.
use mathlib.Core.Path.{subst}
use request_generator.Common.{
  ℕ, suc, ◌+◌, ◌-◌, ◌≤◌, ◌<◌, ◌≡◌, refl, sym, ap, ◌∙◌, inl, inr, Bool, true, false, Option, none,
  some, List, [], ◌∷◌, ◌++◌, ltb, ◌==◌, if◌then◌else◌, length, drop, take, drop-append, drop-drop,
  length-drop, length-append, Bool-cases, some_inj, arith,
}
use request_generator.Realtime.Broker.{
  Event, Broker, new_broker, stamp, correlation_fails, retain, publish, After, from_now, unreadable,
  behind, default_limit, replay_behind, replay,
}
use request_generator.Realtime.Broker.Numbered.{
  IsNumbered, append-IsNumbered, drop-IsNumbered, collect-drop,
}

-- The specification: every event ever published, in order, the first with number 1.
abbrev pub Log : Type 0
Log = List Event

-- What a publication adds to it; a refused one adds nothing.
abbrev pub logged : ℕ → Event → Log → Log
logged now e log =
    if correlation_fails e.correlation then log else log ++ stamp (suc (length log)) now e ∷ []

-- How many of `n` events a broker retains.
abbrev pub retained : ℕ → ℕ → ℕ
retained max n = if ltb max n then max else n

-- Replay over the whole log: the next events behind the id, unless one of them is not retained.
abbrev pub log_replay : ℕ → After → ℕ → Log → List Event × Bool
log_replay max from_now limit log = ([], false)
log_replay max unreadable limit log = ([], true)
log_replay max (behind after) limit log =
    if length log == 0
    then ([], true)
    else if ltb (after + retained max (length log)) (length log)
    then ([], true)
    else (take (default_limit limit) (drop after log), false)

-- The publications so far, with the broker and the log that they make.
pub data Publication : Type 0 where
  publication : ℕ → Event → Publication

unfoldable pub publish_all : List Publication → Broker → Broker
publish_all [] b = b
publish_all (publication now e ∷ ps) b =
    publish_all ps (elim (publish now e b) [ none ↦ b | some (out, c) ↦ c ])

unfoldable pub log_all : List Publication → Log → Log
log_all [] log = log
log_all (publication now e ∷ ps) log = log_all ps (logged now e log)

-- A broker that holds the end of a log.
pub record Refines (b : Broker) (log : Log) : Type 0 where
  pub room : 0 < b.max
  pub numbered : IsNumbered 1 log
  pub counted : b.seq ≡ length log
  pub held : b.events ≡ retain b.max log

retain-drop : (max : ℕ) (log : Log) → retain max log ≡ drop (length log - max) log
retain-drop max log = elim (Bool-cases (ltb max (length log))) [
  | inl over ↦ rw over
  | inr under ↦
      let e : length log - max ≡ 0 = ground (arith, under) in
      rw under (ap (λ k. drop k log) (sym e))
]

retain-append :
    (max : ℕ) (log : Log) (e : Event)
    → 0 < max
    → retain max (retain max log ++ e ∷ []) ≡ retain max (log ++ e ∷ [])
retain-append max log e h = elim (Bool-cases (ltb max (length log))) [
  | inl over ↦
      let k : length log - max ≤ length log = omega arith in
      let one : length (drop (length log - max) log ++ e ∷ []) - max ≡ 1 = ground (
        arith,
        over,
        length-append (drop (length log - max) log) (e ∷ []),
        length-drop (length log - max) log,
      ) in
      let more : (length log - max) + 1 ≡ length (log ++ e ∷ []) - max =
        ground (arith, over, length-append log (e ∷ [])) in
      rw over (
        retain-drop max (drop (length log - max) log ++ e ∷ [])
        ∙ ap (λ n. drop n (drop (length log - max) log ++ e ∷ [])) one
        ∙ ap (drop 1) (sym (drop-append (length log - max) log (e ∷ []) k))
        ∙ drop-drop 1 (length log - max) (log ++ e ∷ [])
        ∙ ap (λ n. drop n (log ++ e ∷ [])) more
        ∙ sym (retain-drop max (log ++ e ∷ [])))
  | inr under ↦ rw under refl
]

pub publish-Refines :
    (now : ℕ) (e : Event) (b : Broker) (log : Log)
    → Refines b log
    → Refines (elim (publish now e b) [ none ↦ b | some (out, c) ↦ c ]) (logged now e log)
unfolding publish
publish-Refines now e b log r = elim (Bool-cases (correlation_fails e.correlation)) [
  | inl bad ↦ rw (bad, publish) r
  | inr good ↦
      rw (good, publish)
        (record {
          room = r.room;
          numbered =
              append-IsNumbered 1 log (stamp (suc (length log)) now e) r.numbered (omega arith);
          counted =
              omega (arith, r.counted, length-append log (stamp (suc (length log)) now e ∷ []));
          held =
              rw r.counted
                (rw r.held (retain-append b.max log (stamp (suc (length log)) now e) r.room));
        })
]

pub new-Refines : (max_events : ℕ) → Refines (new_broker max_events) []
unfolding new_broker
new-Refines max_events = ground arith

run-Refines :
    (ps : List Publication) (b : Broker) (log : Log)
    → Refines b log
    → Refines (publish_all ps b) (log_all ps log)
unfolding publish_all log_all
run-Refines [] b log r = r
run-Refines (publication now e ∷ ps) b log r = run-Refines ps _ _ (publish-Refines now e b log r)

default_limit_pos : (limit : ℕ) → 0 < default_limit limit
default_limit_pos limit = ground arith

behind-numbered :
    (after limit n : ℕ) (events : List Event)
    → IsNumbered n events
    → 0 < n
    → replay_behind after limit events ≡ (
        if length events == 0
        then ([], true)
        else if ltb after (n - 1)
        then ([], true)
        else (take (default_limit limit) (drop (after + 1 - n) events), false))
unfolding replay_behind
behind-numbered after limit n [] h p = refl
behind-numbered after limit n (e ∷ events) h p = ground (
  arith,
  default_limit_pos limit,
  collect-drop after (default_limit limit) n (after + 1 - n) (e ∷ events) h,
)

pub replay-Refines :
    (b : Broker) (log : Log) (after : After) (limit : ℕ)
    → Refines b log
    → replay after limit b ≡ log_replay b.max after limit log
unfolding replay
replay-Refines b log from_now limit r = refl
replay-Refines b log unreadable limit r = refl
replay-Refines b log (behind after) limit r =
    let k : ℕ = length log - b.max in
    let numbered : IsNumbered (1 + k) (drop k log) =
      drop-IsNumbered k 1 log r.numbered (omega arith) in
    let held : b.events ≡ drop k log = r.held ∙ retain-drop b.max log in
    rw held (
      behind-numbered after limit (1 + k) (drop k log) numbered (omega arith)
      ∙ ground (arith, r.room, length-drop k log, drop-drop (after + 1 - (1 + k)) k log))

pub published-Refines :
    (now : ℕ) (e out : Event) (b c : Broker) (log : Log)
    → Refines b log
    → publish now e b ≡ some (out, c)
    → Refines c (log ++ out ∷ [])
unfolding publish
published-Refines now e out b c log r h =
    let same : logged now e log ≡ log ++ out ∷ [] = ground (arith, r.counted) in
    subst (Refines c) same (stored (publish now e b) h (publish-Refines now e b log r))
  where
    stored :
        (o : Option (Event × Broker))
        → o ≡ some (out, c)
        → Refines (elim o [ none ↦ b | some (out', d) ↦ d ]) (logged now e log)
        → Refines c (logged now e log)
    stored none p q = cc p
    stored (some (out', d)) p q =
        subst (λ x. Refines x (logged now e log)) (ap (λ (x : Event × Broker). x.1) (some_inj p)) q

-- MemoryBroker refines the unbounded log of all publications: after any publications, Replay of any
-- id and limit answers what the whole log answers, the next events behind the id in their order and
-- at most the limit, and asks the client to resynchronize exactly where the id is unreadable, the
-- log is empty, or an event behind the id is no longer retained. Events beyond the bound are what
-- it forgets: it holds the last `max` of the log.
pub replay_refines :
    (max_events : ℕ) (ps : List Publication) (after : After) (limit : ℕ)
    → let b = publish_all ps (new_broker max_events) in
      (b.events ≡ retain b.max (log_all ps []))
      × (replay after limit b ≡ log_replay b.max after limit (log_all ps []))
replay_refines max_events ps after limit =
    let r = run-Refines ps (new_broker max_events) [] (new-Refines max_events) in
    (r.held, replay-Refines (publish_all ps (new_broker max_events)) (log_all ps []) after limit r)
