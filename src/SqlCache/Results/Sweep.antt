-- ===== src/SqlCache/Results/Sweep.antt =====
-- db/sqlcache/expiry.go: reclaimExpired takes away exactly the entries that no lookup may serve.
use request_generator.Common.{
  ℕ, ◌-◌, ◌≤◌, ◌<◌, ◌≡◌, refl, inl, inr, Option, none, some, List, [], ◌∷◌, ltb, if◌then◌else◌, All,
  Bool-cases, Option-cases, length, arith,
}
use request_generator.Common.Assoc.{
  lookup, delete, lookup-delete, length-delete-le, Unique, delete-Unique, total, total-delete,
}
use request_generator.SqlCache.Results.{Entry, Kept, usable, deadline, min_expiry, reclaim}
use request_generator.SqlCache.Results.Queue.{Sorted, Linked}

abbrev pub size : Entry → ℕ
size e = e.result.bytes

-- The test of a lookup is the test of the sweep.
pub usable-deadline : (e : Entry) (now ttl : ℕ) → usable e now ttl ≡ ltb now (deadline ttl e)
unfolding usable min_expiry
usable-deadline e now ttl = ground arith

abbrev pub kept : ℕ → ℕ → Option Entry → Option Entry
kept now ttl none = none
kept now ttl (some e) = if usable e now ttl then some e else none

-- What a sweep of the entries `m` leaves.
pub record Good (now ttl : ℕ) (m : List (ℕ × Entry)) (r : Kept) : Type 0 where
  pub linked : Linked ttl r.queue r.entries
  pub sorted : Sorted r.queue
  pub items_once : Unique r.queue
  pub keys_once : Unique r.entries
  pub sized : r.bytes ≡ total size r.entries
  pub fewer : length r.entries ≤ length m
  pub lighter : r.bytes ≤ total size m
  pub exact : (k : ℕ) → lookup k r.entries ≡ kept now ttl (lookup k m)

lookup-le :
    (d k e : ℕ) (q : List (ℕ × ℕ)) → All (λ (x : ℕ × ℕ). d ≤ x.1) q → lookup k q ≡ some e → d ≤ e
unfolding lookup
lookup-le d k e [] s h = cc
lookup-le d k e ((j, x) ∷ q) s h = ground (arith, lookup-le d k e q s.1)

Linked-entry :
    (ttl k d : ℕ) (q : List (ℕ × ℕ)) (m : List (ℕ × Entry))
    → Linked ttl q m
    → lookup k q ≡ some d
    → (e : Entry) × (lookup k m ≡ some e) × (deadline ttl e ≡ d)
Linked-entry ttl k d q m l h = elim (Option-cases (lookup k m)) [
  | inl e ↦ absurd (ground (arith, l k))
  | inr (e, f) ↦ (e, f, ground (arith, l k))
]

fresh_head :
    (now ttl k d : ℕ) (q : List (ℕ × ℕ)) (m : List (ℕ × Entry))
    → Linked ttl ((k, d) ∷ q) m
    → Sorted ((k, d) ∷ q)
    → now < d
    → (j : ℕ) (o : Option Entry) → lookup j m ≡ o
    → lookup j m ≡ kept now ttl o
unfolding lookup
fresh_head now ttl k d q m l s h j none e = e
fresh_head now ttl k d q m l s h j (some e) f =
    ground (arith, l j, usable-deadline e now ttl, lookup-le d j (deadline ttl e) q s.0)

pub reclaim-Good :
    (now ttl : ℕ) (q : List (ℕ × ℕ)) (m : List (ℕ × Entry)) (b : ℕ)
    → Linked ttl q m
    → Sorted q
    → Unique q
    → Unique m
    → b ≡ total size m
    → (r : Kept) × (reclaim now q m b ≡ some r) × Good now ttl m r
unfolding reclaim lookup
reclaim-Good now ttl [] m b l s u v t = (
  record { queue = []; entries = m; bytes = b },
  refl,
  record {
    linked = l;
    sorted = s;
    items_once = u;
    keys_once = v;
    sized = t;
    fewer = omega arith;
    lighter = omega arith;
    exact = λ k. ground (arith, l k);
  },
)
reclaim-Good now ttl ((k, d) ∷ q) m b l s u v t = elim (Bool-cases (ltb now d)) [
  | inl fresh ↦ (
    record { queue = (k, d) ∷ q; entries = m; bytes = b },
    rw fresh,
    record {
      linked = l;
      sorted = s;
      items_once = u;
      keys_once = v;
      sized = t;
      fewer = omega arith;
      lighter = omega arith;
      exact = λ j. fresh_head now ttl k d q m l s (ground arith) j (lookup j m) refl;
    },
  )
  | inr stale ↦
      let (e, there, due) = Linked-entry ttl k d ((k, d) ∷ q) m l (ground arith) in
      let (r, done, g) =
        reclaim-Good now ttl q (delete k m) (b - size e)
          (λ j. ground (arith, l j, lookup-delete j k m, u.0)) s.1 u.1 (delete-Unique k m v)
          (omega (arith, total-delete size k e m v there)) in
      (
        r,
        rw stale (rw there done),
        record {
          linked = g.linked;
          sorted = g.sorted;
          items_once = g.items_once;
          keys_once = g.keys_once;
          sized = g.sized;
          fewer = omega (arith, g.fewer, length-delete-le k m);
          lighter = omega (arith, g.lighter, total-delete size k e m v there);
          exact = λ j. ground (arith, g.exact j, lookup-delete j k m, usable-deadline e now ttl);
        },
      )
]
