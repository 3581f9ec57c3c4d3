-- ===== src/Db/PreparedReads/Invariant.antt =====
-- db/prepared_views.go: what every critical section keeps.
use request_generator.Common.{
  ℕ, ◌+◌, ◌≤◌, ◌<◌, ◌≡◌, refl, inl, inr, true, false, ◌&&◌, none, some, List, [], ◌∷◌, ltb, ◌==◌,
  if◌then◌else◌, Bool-cases, length, count, count-remove, arith,
}
use request_generator.Common.Assoc.{lookup, delete, lookup-delete, length-delete}
use request_generator.Db.PreparedReads.{Cache, new, touch, evict, reserve, refuse}
use request_generator.Db.PreparedReads.Ids.{
  held, Named, held-lookup, held-delete, Named-delete, Named-update,
}

pub record Inv (c : Cache) (l : List ℕ) : Type 0 where
  -- Each entry of the map stands under its own text.
  pub named : Named c.heap c.statements
  pub found : (i : ℕ) → 0 < held i c.statements → lookup (c.heap i).query c.statements ≡ some i
  -- An entry is in the map once until it retires, and in the recency list as often.
  pub live : (i : ℕ) → held i c.statements ≡ (if (c.heap i).retired then 0 else 1)
  pub listed : (i : ℕ) → count i c.recent ≡ held i c.statements
  -- A text that is being prepared is reserved once, and not in the map.
  pub absent : (q : ℕ) → 0 < count q c.pending → lookup q c.statements ≡ none
  pub once : (q : ℕ) → count q c.pending ≤ 1
  -- `users` counts the leases.
  pub counted : (i : ℕ) → count i l ≡ (c.heap i).users
  -- A statement is closed, once, when its entry is retired and nobody holds it.
  pub closed :
      (i : ℕ)
      → count i c.closes
        ≡ (if ltb i c.next && ((c.heap i).retired && (c.heap i).users == 0) then 1 else 0)
  pub unborn : (i : ℕ) → c.next ≤ i → ((c.heap i).retired ≡ true) × ((c.heap i).users ≡ 0)
  -- The bound, and what closing the cache leaves.
  pub bounded : 0 < c.limit → length c.statements + length c.pending ≤ c.limit
  pub emptied : c.limit ≡ 0 → (c.statements ≡ []) × (c.recent ≡ [])

pub new-Inv : (limit : ℕ) → 0 < limit → Inv (new limit) []
unfolding new held lookup count
new-Inv limit h = record {
  named = tt;
  found = λ i p. absurd (omega arith);
  live = λ i. refl;
  listed = λ i. refl;
  absent = λ q p. refl;
  once = λ q. omega arith;
  counted = λ i. refl;
  closed = λ i. ground arith;
  unborn = λ i p. (refl, refl);
  bounded = λ p. omega arith;
  emptied = λ p. (refl, refl);
}

module _ (c : Cache) (l : List ℕ) (v : Inv c l) where
  pub touch-Inv : (q i : ℕ) → lookup q c.statements ≡ some i → Inv (touch i c) (i ∷ l)
  unfolding touch count
  touch-Inv q i e = record {
    named = Named-update c.heap i _ c.statements (inl refl) v.named;
    found = λ j p. ground (arith, v.found j);
    live = λ j. ground (arith, v.live j);
    listed = λ j.
        ground (
          arith,
          v.listed j,
          v.listed i,
          count-remove j i c.recent,
          held-lookup q i c.statements e,
        );
    absent = v.absent;
    once = v.once;
    counted = λ j. ground (arith, v.counted j);
    closed = λ j. ground (arith, v.closed j, v.live i, held-lookup q i c.statements e);
    unborn = λ j p. ground (arith, v.unborn j, v.live i, held-lookup q i c.statements e);
    bounded = v.bounded;
    emptied = λ p. ground (arith, v.emptied p, v.listed i, held-lookup q i c.statements e);
  }

  pub refuse-Inv : Inv (refuse c) l
  unfolding refuse
  refuse-Inv = record {
    named = v.named;
    found = v.found;
    live = v.live;
    listed = v.listed;
    absent = v.absent;
    once = v.once;
    counted = v.counted;
    closed = v.closed;
    unborn = v.unborn;
    bounded = v.bounded;
    emptied = v.emptied;
  }

  pub reserve-Inv :
      (q : ℕ)
      → lookup q c.statements ≡ none
      → count q c.pending ≡ 0
      → length c.statements + length c.pending < c.limit
      → Inv (reserve q c) l
  unfolding reserve count
  reserve-Inv q e f b = record {
    named = v.named;
    found = v.found;
    live = v.live;
    listed = v.listed;
    absent = λ p r. ground (arith, v.absent p);
    once = λ p. ground (arith, v.once p);
    counted = v.counted;
    closed = v.closed;
    unborn = v.unborn;
    bounded = λ p. omega arith;
    emptied = λ p. absurd (omega arith);
  }

  module _ (i : ℕ) (idle : (c.heap i).users ≡ 0) (member : 0 < count i c.recent) where
    in_map : (held i c.statements ≡ 1) × ((c.heap i).retired ≡ false)
    in_map = ground (arith, v.live i, v.listed i)

    at_text : lookup (c.heap i).query c.statements ≡ some i
    at_text = v.found i (omega (arith, in_map.0))

    -- The map loses the entry and no other.
    held-evicted :
        (j : ℕ)
        → held j (delete (c.heap i).query c.statements)
          ≡ (if j == i then 0 else held j c.statements)
    held-evicted j = ground (
      arith,
      held-delete c.heap (c.heap i).query j c.statements v.named,
      v.found j,
      at_text,
      in_map,
    )

    pub evict-Inv : Inv (evict i c) l
    unfolding evict count
    evict-Inv = record {
      named =
          Named-update c.heap i _ (delete (c.heap i).query c.statements) (inl refl)
            (Named-delete c.heap (c.heap i).query c.statements v.named);
      found = λ j p. ground (
        arith,
        v.found j,
        at_text,
        held-evicted j,
        lookup-delete (c.heap j).query (c.heap i).query c.statements,
      );
      live = λ j. ground (arith, v.live j, held-evicted j);
      listed =
          λ j. ground (arith, v.listed j, held-evicted j, in_map, count-remove j i c.recent member);
      absent = λ q p. ground (arith, v.absent q, lookup-delete q (c.heap i).query c.statements);
      once = v.once;
      counted = λ j. ground (arith, v.counted j);
      closed = λ j. ground (arith, v.closed j, in_map, v.unborn i);
      unborn = λ j p. ground (arith, v.unborn j, in_map);
      bounded =
          λ p. omega (arith, v.bounded p, length-delete (c.heap i).query i c.statements at_text);
      emptied = λ p. absurd (ground (arith, v.emptied p, member));
    }

    -- It frees a slot.
    pub evict_frees : length (evict i c).statements + length (evict i c).pending < (evict i c).limit
    unfolding evict count
    evict_frees = elim (Bool-cases (ltb 0 c.limit)) [
      | inl p ↦
          omega
            (arith, v.bounded (ground arith), length-delete (c.heap i).query i c.statements at_text)
      | inr p ↦ absurd (ground (arith, v.emptied, member))
    ]
