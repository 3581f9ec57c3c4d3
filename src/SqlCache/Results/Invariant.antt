-- ===== src/SqlCache/Results/Invariant.antt =====
-- db/sqlcache/cache.go: what every critical section of the result cache keeps.
use request_generator.Common.{
  ℕ, ◌+◌, ◌-◌, ◌≤◌, ◌<◌, ◌≡◌, refl, inl, inr, false, ◌&&◌, none, some, leb, ltb, ◌==◌, Bool-cases,
  Option-cases, length, arith,
}
use request_generator.Common.Assoc.{
  lookup, delete, insert, lookup-delete, lookup-insert, delete_absent, length-delete,
  length-delete-le, length-insert, Unique, delete-Unique, insert-Unique, total, total-delete,
}
use request_generator.SqlCache.Results.{
  Options, Counters, Cache, Snapshot, Read, Kept, new, set_ttl, swept, lead_flight, store, stored,
  slots_of, size_of, fall_back, land, usable, deadline, reprice,
}
use request_generator.SqlCache.Results.Queue.{
  Sorted, Linked, lookup-push, push-Unique, push-Sorted, delete-Sorted, lookup-init, init-Unique,
  init-Sorted, lookup-reprice, reprice-Unique,
}
use request_generator.SqlCache.Results.Sweep.{size, Good}

pub record Inv (c : Cache) : Type 0 where
  -- Each entry has one item in the ordered queue, with its deadline under the current window.
  pub linked : Linked c.options.ttl c.expirations c.entries
  pub sorted : Sorted c.expirations
  pub items_once : Unique c.expirations
  pub keys_once : Unique c.entries
  -- The byte count is the size of what is retained, and the budgets are kept.
  pub sized : c.bytes ≡ total size c.entries
  pub few : length c.entries ≤ c.options.max_entries
  pub small : c.bytes ≤ c.options.max_bytes
  -- A flight in the map is under way, and is that of one key.
  pub few_flights : length c.flights ≤ c.options.max_entries
  pub under_way : (k i : ℕ) → lookup k c.flights ≡ some i → (i < c.next) × ((c.heap i).done ≡ false)
  pub own_flight : (j k i : ℕ) → lookup j c.flights ≡ some i → lookup k c.flights ≡ some i → j ≡ k

pub new-Inv : (o : Options) → Inv (new o)
unfolding new lookup total
new-Inv o = record {
  linked = λ k. refl;
  sorted = tt;
  items_once = tt;
  keys_once = tt;
  sized = refl;
  few = omega arith;
  small = omega arith;
  few_flights = omega arith;
  under_way = λ k i e. absurd (ground arith);
  own_flight = λ j k i e f. absurd (ground arith);
}

module _ (c : Cache) (v : Inv c) where
  -- The counters are no part of it.
  pub counters-Inv : (n : Counters) → Inv (record c { counters = n })
  counters-Inv n = record {
    linked = v.linked;
    sorted = v.sorted;
    items_once = v.items_once;
    keys_once = v.keys_once;
    sized = v.sized;
    few = v.few;
    small = v.small;
    few_flights = v.few_flights;
    under_way = v.under_way;
    own_flight = v.own_flight;
  }

  pub set_ttl-Inv : (ttl : ℕ) → Inv (set_ttl ttl c)
  unfolding set_ttl
  set_ttl-Inv ttl = elim (Bool-cases (c.options.ttl == ttl)) [
    | inl same ↦ rw same (record {
      linked = λ k. ground (arith, v.linked k);
      sorted = v.sorted;
      items_once = v.items_once;
      keys_once = v.keys_once;
      sized = v.sized;
      few = v.few;
      small = v.small;
      few_flights = v.few_flights;
      under_way = v.under_way;
      own_flight = v.own_flight;
    })
    | inr new_window ↦ rw new_window (record {
      linked = λ k. ground (
        arith,
        v.linked k,
        lookup-init k (reprice ttl c.entries c.expirations)
            (reprice-Unique ttl c.entries c.expirations v.items_once),
        lookup-reprice ttl k c.entries c.expirations,
      );
      sorted = init-Sorted (reprice ttl c.entries c.expirations);
      items_once =
          init-Unique (reprice ttl c.entries c.expirations)
            (reprice-Unique ttl c.entries c.expirations v.items_once);
      keys_once = v.keys_once;
      sized = v.sized;
      few = v.few;
      small = v.small;
      few_flights = v.few_flights;
      under_way = v.under_way;
      own_flight = v.own_flight;
    })
  ]

  pub swept-Inv : (now : ℕ) (r : Kept) → Good now c.options.ttl c.entries r → Inv (swept c r)
  swept-Inv now r g = record {
    linked = g.linked;
    sorted = g.sorted;
    items_once = g.items_once;
    keys_once = g.keys_once;
    sized = g.sized;
    few = omega (arith, g.fewer, v.few);
    small = omega (arith, v.small, v.sized, g.lighter);
    few_flights = v.few_flights;
    under_way = v.under_way;
    own_flight = v.own_flight;
  }

  pub lead_flight-Inv : (k : ℕ) → lookup k c.flights ≡ none → Inv (lead_flight k c).1
  unfolding lead_flight
  lead_flight-Inv k e = elim (Bool-cases (leb c.options.max_entries (length c.flights))) [
    | inl full ↦ rw full (counters-Inv _)
    | inr room ↦ rw room (record {
      linked = v.linked;
      sorted = v.sorted;
      items_once = v.items_once;
      keys_once = v.keys_once;
      sized = v.sized;
      few = v.few;
      small = v.small;
      few_flights = ground (arith, length-insert k c.next c.flights);
      under_way = λ j i f. ground (arith, v.under_way j i, lookup-insert j k c.next c.flights);
      own_flight = λ j l i f g. ground (
        arith,
        v.own_flight j l i,
        v.under_way j i,
        v.under_way l i,
        lookup-insert j k c.next c.flights,
        lookup-insert l k c.next c.flights,
      );
    })
  ]

  pub land-Inv : (k i : ℕ) (r : Read) → lookup k c.flights ≡ some i → Inv (land k i r c)
  land-Inv k i r e = record {
    linked = v.linked;
    sorted = v.sorted;
    items_once = v.items_once;
    keys_once = v.keys_once;
    sized = v.sized;
    few = v.few;
    small = v.small;
    few_flights = omega (arith, v.few_flights, length-delete k i c.flights e);
    under_way =
        λ j l f. ground (arith, v.under_way j l, v.own_flight j k i, lookup-delete j k c.flights);
    own_flight = λ j l h f g.
        ground
          (arith, v.own_flight j l h, lookup-delete j k c.flights, lookup-delete l k c.flights);
  }

  pub fall_back-Inv : (k now : ℕ) → Inv (fall_back k now c).1
  unfolding fall_back
  fall_back-Inv k now = elim (Option-cases (lookup k c.entries)) [
    | inl e ↦ rw (e, fall_back) v
    | inr (x, e) ↦ elim (Bool-cases (ltb 0 c.options.ttl && usable x now c.options.ttl)) [
      | inr dead ↦ rw (e, fall_back) (rw dead v)
      | inl live ↦
          rw (e, fall_back)
            (rw live (record {
              linked = λ j. ground (
                arith,
                v.linked j,
                lookup-insert j k (record x { refresh_at = x.expires }) c.entries,
              );
              sorted = v.sorted;
              items_once = v.items_once;
              keys_once =
                  insert-Unique k (record x { refresh_at = x.expires }) c.entries v.keys_once;
              sized =
                  unfold insert total in
                  omega (arith, v.sized, total-delete size k x c.entries v.keys_once e);
              few = unfold insert in omega (arith, v.few, length-delete k x c.entries e);
              small = v.small;
              few_flights = v.few_flights;
              under_way = v.under_way;
              own_flight = v.own_flight;
            }))
    ]
  ]

  rest_total :
      (k : ℕ)
      → size_of (lookup k c.entries) + total size (delete k c.entries) ≡ total size c.entries
  rest_total k = elim (Option-cases (lookup k c.entries)) [
    | inl e ↦ rw (e, delete_absent k c.entries e) (omega arith)
    | inr (x, e) ↦ rw e (total-delete size k x c.entries v.keys_once e)
  ]

  rest_length :
      (k : ℕ) → length (delete k c.entries) ≤ length c.entries - slots_of (lookup k c.entries)
  rest_length k = elim (Option-cases (lookup k c.entries)) [
    | inl e ↦ rw e (omega (arith, length-delete-le k c.entries))
    | inr (x, e) ↦ rw e (omega (arith, length-delete k x c.entries e))
  ]

  pub store-Inv :
      (o : Options) (k started : ℕ) (s : Snapshot)
      → o.max_entries ≡ c.options.max_entries
      → o.max_bytes ≡ c.options.max_bytes
      → Inv (store o k started s c)
  unfolding store
  store-Inv o k started s same_entries same_bytes =
      elim (Bool-cases (
        ltb (length c.entries - slots_of (lookup k c.entries)) o.max_entries
        && leb (c.bytes - size_of (lookup k c.entries) + s.bytes) o.max_bytes)) [
          | inr over ↦ rw over (counters-Inv _)
          | inl fits ↦ rw fits (record {
            linked = λ j. ground (
              arith,
              v.linked j,
              lookup-insert j k (stored o started s) c.entries,
              lookup-push j k (deadline c.options.ttl (stored o started s))
                  (delete k c.expirations),
              lookup-delete j k c.expirations,
              lookup-delete k k c.expirations,
            );
            sorted =
                push-Sorted k _ (delete k c.expirations) (delete-Sorted k c.expirations v.sorted);
            items_once =
                push-Unique k _ (delete k c.expirations)
                  (ground (arith, lookup-delete k k c.expirations))
                  (delete-Unique k c.expirations v.items_once);
            keys_once = insert-Unique k (stored o started s) c.entries v.keys_once;
            sized = unfold insert total in omega (arith, v.sized, rest_total k);
            few = unfold insert in ground (arith, rest_length k);
            small = ground arith;
            few_flights = v.few_flights;
            under_way = v.under_way;
            own_flight = v.own_flight;
          })
        ]
