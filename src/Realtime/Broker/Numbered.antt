-- ===== src/Realtime/Broker/Numbered.antt =====
-- realtime.go: events with consecutive numbers.
use mathlib.Core.Path.{subst}
use native.Mathlib.Nat.{add-zero}
use request_generator.Common.{
  ℕ, zero, suc, ◌+◌, ◌≤◌, ◌<◌, ◌≡◌, refl, sym, List, [], ◌∷◌, ◌++◌, length, drop, take, take-nil,
  arith,
}
use request_generator.Realtime.Broker.{Event, collect}

abbrev pub IsNumbered : ℕ → List Event → Type 0
IsNumbered n [] = Unit {0}
IsNumbered n (e ∷ events) = (e.id ≡ n) × IsNumbered (suc n) events

pub append-IsNumbered :
    (n : ℕ) (events : List Event) (e : Event)
    → IsNumbered n events
    → e.id ≡ n + length events
    → IsNumbered n (events ++ e ∷ [])
append-IsNumbered n [] e h k = (omega arith, tt)
append-IsNumbered n (x ∷ events) e h k = (h.0, append-IsNumbered (suc n) events e h.1 (omega arith))

pub drop-IsNumbered :
    (k n : ℕ) (events : List Event)
    → IsNumbered n events
    → k ≤ length events
    → IsNumbered (n + k) (drop k events)
drop-IsNumbered zero n events h l = rw add-zero h
drop-IsNumbered (suc k) n [] h l = absurd (omega arith)
drop-IsNumbered (suc k) n (e ∷ events) h l =
    let same : suc n + k ≡ n + suc k = omega arith in
    subst (λ m. IsNumbered m (drop k events)) same
      (drop-IsNumbered k (suc n) events h.1 (omega arith))

-- From an event on whose number is above, the loop takes what it has room for.
pub collect_all :
    (after room n : ℕ) (events : List Event)
    → IsNumbered n events
    → after < n
    → 0 < room
    → collect after room events ≡ take room events
unfolding collect
collect_all after zero n events h a r = absurd (omega arith)
collect_all after (suc zero) n [] h a r = refl
collect_all after (suc zero) n (e ∷ events) h a r = ground arith
collect_all after (suc (suc room)) n [] h a r = refl
collect_all after (suc (suc room)) n (e ∷ events) h a r =
    ground (arith, collect_all after (suc room) (suc n) events h.1)

-- The loop takes the events behind `after`, in order, as many as it has room for.
pub collect-drop :
    (after room n k : ℕ) (events : List Event)
    → IsNumbered n events
    → n + k ≡ after + 1
    → 0 < room
    → collect after room events ≡ take room (drop k events)
unfolding collect
collect-drop after room n zero events h a r = collect_all after room n events h (omega arith) r
collect-drop after room n (suc k) [] h a r = sym (take-nil room)
collect-drop after room n (suc k) (e ∷ events) h a r =
    ground (arith, collect-drop after room (suc n) k events h.1)
