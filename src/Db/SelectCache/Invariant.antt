-- ===== src/Db/SelectCache/Invariant.antt =====
-- db/select_cache.go: what every critical section of the List SELECT cache keeps.
use request_generator.Common.{
  ℕ, ◌+◌, ◌-◌, ◌≤◌, ◌<◌, ◌≡◌, refl, inl, inr, Option, none, some, List, [], ◌∷◌, leb, if◌then◌else◌,
  Bool-cases, Option-cases, length, arith,
}
use request_generator.Common.Assoc.{
  lookup, insert, lookup-delete, lookup-insert, delete_absent, length-delete-le, length-insert,
  Unique, insert-Unique, total,
}
use request_generator.Db.SelectCache.{
  Options, Entry, Outcome, failed, oversized, captured, Counters, Cache, empty, fresh, purge,
  cleaned, lead, miss, find, look, landed, bypass, fits, store, complete,
}

abbrev pub size : Entry → ℕ
size e = e.result.bytes

abbrev pub kept : ℕ → Option Entry → Option Entry
kept now none = none
kept now (some e) = if fresh now e then some e else none

-- What the cleanup of the entries `m`, of `bytes` bytes, leaves.
pub record Purged (now bytes : ℕ) (m : List (ℕ × Entry)) (r : List (ℕ × Entry) × ℕ) : Type 0 where
  pub sized : r.1 + total size m ≡ bytes + total size r.0
  pub lighter : r.1 ≤ bytes
  pub fewer : length r.0 ≤ length m
  pub exact : (k : ℕ) → lookup k r.0 ≡ kept now (lookup k m)
  pub once : Unique r.0

pub purge-Purged :
    (now : ℕ) (m : List (ℕ × Entry)) (bytes : ℕ)
    → Unique m
    → total size m ≤ bytes
    → Purged now bytes m (purge now m bytes)
unfolding purge lookup total
purge-Purged now [] bytes u h = record {
  sized = refl;
  lighter = omega arith;
  fewer = omega arith;
  exact = λ k. refl;
  once = tt;
}
purge-Purged now ((k, e) ∷ m) bytes u h = elim (Bool-cases (fresh now e)) [
  | inl stays ↦
      let r = purge-Purged now m bytes u.1 (omega (arith, h)) in
      rw (stays, purge)
        (record {
          sized = omega (arith, r.sized);
          lighter = r.lighter;
          fewer = omega (arith, r.fewer);
          exact = λ j. ground (arith, r.exact j);
          once = (ground (arith, r.exact k, u.0), r.once);
        })
  | inr goes ↦
      let r = purge-Purged now m (bytes - e.result.bytes) u.1 (omega (arith, h)) in
      rw (goes, purge)
        (record {
          sized = omega (arith, r.sized, h);
          lighter = omega (arith, r.lighter);
          fewer = omega (arith, r.fewer);
          exact = λ j. ground (arith, r.exact j, u.0);
          once = r.once;
        })
]

pub record Inv (c : Cache) : Type 0 where
  pub keys_once : Unique c.entries
  -- The byte count is the size of what is retained, and the budgets are kept.
  pub sized : c.bytes ≡ total size c.entries
  pub few : length c.entries ≤ c.options.max_entries
  pub small : c.bytes ≤ c.options.max_bytes
  pub few_flights : length c.flights ≤ c.options.max_entries
  -- A flight in the map is under way, is that of one key, and that key has no entry.
  pub under_way : (k i : ℕ) → lookup k c.flights ≡ some i → (i < c.next) × (c.heap i ≡ none)
  pub own_flight : (j k i : ℕ) → lookup j c.flights ≡ some i → lookup k c.flights ≡ some i → j ≡ k
  pub apart : (k i : ℕ) → lookup k c.flights ≡ some i → lookup k c.entries ≡ none

pub empty-Inv : (o : Options) → Inv (empty o)
unfolding lookup total
empty-Inv o = record {
  keys_once = tt;
  sized = refl;
  few = omega arith;
  small = omega arith;
  few_flights = omega arith;
  under_way = λ k i e. cc;
  own_flight = λ j k i e f. cc;
  apart = λ k i e. cc;
}

module _ (c : Cache) (v : Inv c) where
  pub cleaned-Inv : (now : ℕ) → Inv (cleaned now c)
  cleaned-Inv now =
      let r = purge-Purged now c.entries c.bytes v.keys_once (omega (arith, v.sized)) in
      record {
        keys_once = r.once;
        sized = omega (arith, r.sized, v.sized);
        few = omega (arith, r.fewer, v.few);
        small = omega (arith, r.lighter, v.small);
        few_flights = v.few_flights;
        under_way = v.under_way;
        own_flight = v.own_flight;
        apart = λ k i e. ground (arith, r.exact k, v.apart k i e);
      }

  -- The counters are no part of it.
  pub stats-Inv : (n : Counters) → Inv (record c { stats = n })
  stats-Inv n = record {
    keys_once = v.keys_once;
    sized = v.sized;
    few = v.few;
    small = v.small;
    few_flights = v.few_flights;
    under_way = v.under_way;
    own_flight = v.own_flight;
    apart = v.apart;
  }

  pub lead-Inv :
      (k : ℕ)
      → lookup k c.entries ≡ none
      → lookup k c.flights ≡ none
      → length c.flights < c.options.max_entries
      → Inv (lead k c).1
  lead-Inv k e f room = record {
    keys_once = v.keys_once;
    sized = v.sized;
    few = v.few;
    small = v.small;
    few_flights = omega (arith, room, length-insert k c.next c.flights);
    under_way = λ j i g. ground (arith, v.under_way j i, lookup-insert j k c.next c.flights);
    own_flight = λ j l i g h. ground (
      arith,
      v.own_flight j l i,
      v.under_way j i,
      v.under_way l i,
      lookup-insert j k c.next c.flights,
      lookup-insert l k c.next c.flights,
    );
    apart = λ j i g. ground (arith, v.apart j i, lookup-insert j k c.next c.flights);
  }

  pub landed-Inv : (k i : ℕ) (o : Outcome) → lookup k c.flights ≡ some i → Inv (landed k i o c)
  landed-Inv k i o f = record {
    keys_once = v.keys_once;
    sized = v.sized;
    few = v.few;
    small = v.small;
    few_flights = omega (arith, v.few_flights, length-delete-le k c.flights);
    under_way =
        λ j l g. ground (arith, v.under_way j l, v.own_flight j k i, lookup-delete j k c.flights);
    own_flight = λ j l x g h.
        ground
          (arith, v.own_flight j l x, lookup-delete j k c.flights, lookup-delete l k c.flights);
    apart = λ j l g. ground (arith, v.apart j l, lookup-delete j k c.flights);
  }

  pub store-Inv :
      (now k : ℕ) (e : Entry)
      → lookup k c.entries ≡ none
      → lookup k c.flights ≡ none
      → Inv (store now k e c)
  unfolding store
  store-Inv now k e absent landed_flight = elim (Bool-cases (fits now e c)) [
    | inl stored ↦
        rw (stored, store)
          (record {
            keys_once = insert-Unique k e c.entries v.keys_once;
            sized =
                unfold insert total in ground (arith, v.sized, delete_absent k c.entries absent);
            few = ground (arith, length-insert k e c.entries);
            small = ground arith;
            few_flights = v.few_flights;
            under_way = v.under_way;
            own_flight = v.own_flight;
            apart = λ j i g. ground (arith, v.apart j i g, lookup-insert j k e c.entries);
          })
    | inr left ↦ rw (left, store) (stats-Inv (bypass c).stats)
  ]

  pub miss-Inv : (k : ℕ) → lookup k c.entries ≡ none → Inv (miss k c).1
  unfolding miss
  miss-Inv k e = elim (Option-cases (lookup k c.flights)) [
    | inr (i, f) ↦ rw (f, miss) (stats-Inv _)
    | inl f ↦ elim (Bool-cases (leb c.options.max_entries (length c.flights))) [
      | inl full ↦ rw (f, full, miss) (stats-Inv _)
      | inr room ↦ rw (f, room, miss) (lead-Inv k e f (ground (arith, room)))
    ]
  ]

  pub find-Inv : (k : ℕ) → Inv (find k c).1
  unfolding find
  find-Inv k = elim (Option-cases (lookup k c.entries)) [
    | inl e ↦ rw (e, find) (miss-Inv k e)
    | inr (x, e) ↦ rw (e, find) (stats-Inv _)
  ]

pub look-Inv : (now k : ℕ) (c : Cache) → Inv c → Inv (look now k c).1
unfolding look
look-Inv now k c v = find-Inv (cleaned now c) (cleaned-Inv c v now) k

pub complete-Inv :
    (completed now k i : ℕ) (o : Outcome) (c : Cache)
    → Inv c
    → lookup k c.flights ≡ some i
    → Inv (complete completed now k i o c)
unfolding complete
complete-Inv completed now k i (failed x) c v f = landed-Inv c v k i (failed x) f
complete-Inv completed now k i oversized c v f =
    stats-Inv (landed k i oversized c) (landed-Inv c v k i oversized f) _
complete-Inv completed now k i (captured r) c v f =
    store-Inv (landed k i (captured r) c) (landed-Inv c v k i (captured r) f) now k
      (record { result = r; expires = completed + c.options.ttl }) (v.apart k i f)
      (ground (arith, lookup-delete k k c.flights))

-- The critical sections of all requests, in any order. A leader ends once, while its flight is in
-- the map.
pub data Step : Cache → Cache → Type 0 where
  looks : (c : Cache) (now k : ℕ) → Step c (look now k c).1
  completes :
      (c : Cache) (completed now k i : ℕ) (o : Outcome)
      → lookup k c.flights ≡ some i
      → Step c (complete completed now k i o c)

pub data Reach (s : Cache) : Cache → Type 0 where
  here : Reach s s
  next : {t u : Cache} → Reach s t → Step t u → Reach s u

step-Inv : {c d : Cache} → Step c d → Inv c → Inv d
step-Inv (looks c now k) v = look-Inv now k c v
step-Inv (completes c completed now k i o f) v = complete-Inv completed now k i o c v f

pub Reach-Inv : (o : Options) {d : Cache} → Reach (empty o) d → Inv d
Reach-Inv o here = empty-Inv o
Reach-Inv o (next r s) = step-Inv s (Reach-Inv o r)
