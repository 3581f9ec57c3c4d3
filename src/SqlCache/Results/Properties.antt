-- ===== src/SqlCache/Results/Properties.antt =====
-- db/sqlcache/cache.go: what the result cache promises to its callers.
use request_generator.Common.{
  ℕ, ◌+◌, ◌≤◌, ◌<◌, ◌≡◌, refl, ◌⊎◌, inl, inr, Bool, true, false, Option, none, some, length, arith,
}
use request_generator.Common.Assoc.{lookup, lookup-delete, lookup-insert, total}
use request_generator.SqlCache.Results.{
  Options, Cache, Entry, Snapshot, Read, failed, captured, oversized, Found, hit, lead, new, fast,
  locked, served, lead_flight, store, stored, fall_back, land, complete, usable, Awaited, await,
  reads, fails, retries, runs,
}
use request_generator.SqlCache.Results.Sweep.{size, kept}
use request_generator.SqlCache.Results.Sections.{locked-Inv, sweep}
use request_generator.SqlCache.Results.Steps.{Reach, Reach-Inv}
use request_generator.SqlCache.Results.Origin.{dated, dated-fall_back, Completed, Reach-Originates}
use mathlib.Core.Path.{subst}

-- Whatever the goroutines do, the byte count is the size of the retained results, and the numbers
-- of entries, of bytes and of reads in flight keep within their limits.
pub Reach-budgets :
    (o : Options) (c : Cache)
    → Reach (new o) c
    → (c.bytes ≡ total size c.entries)
      × (length c.entries ≤ c.options.max_entries)
      × (c.bytes ≤ c.options.max_bytes)
      × (length c.flights ≤ c.options.max_entries)
Reach-budgets o c r = let v = Reach-Inv o r in (v.sized, v.few, v.small, v.few_flights)

-- In no reachable state does the lookup under the write lock fault: the sweep finds the entry of
-- every expiry item that it takes.
locked-returns :
    (o : Options) (c : Cache) (k now : ℕ)
    → Reach (new o) c
    → (r : Found × Cache) × (locked k now c ≡ some r)
locked-returns o c k now r = let (x, e, v) = locked-Inv c (Reach-Inv o r) k now in (x, e)

abbrev pub Hits : Cache → ℕ → ℕ → Snapshot → Type 0
Hits c k now s = ((fast k now c).0 ≡ hit s) ⊎ ((d : Cache) × (locked k now c ≡ some (hit s, d)))

served_fresh :
    (c : Cache) (k now : ℕ) (s : Snapshot) (o : Option Entry)
    → lookup k c.entries ≡ o
    → served c k now ≡ some s
    → (e : Entry) × (lookup k c.entries ≡ some e)
      × (e.result ≡ s)
      × (now < e.expires)
      × (now < s.completed + c.options.ttl)
unfolding usable
served_fresh c k now s none f e = absurd (ground arith)
served_fresh c k now s (some x) f e = (x, ground arith, ground arith, ground arith, ground arith)

hit_served : (c : Cache) (k now : ℕ) (s : Snapshot) → Hits c k now s → served c k now ≡ some s
unfolding fast locked lead_flight
hit_served c k now s (inl e) = ground arith
hit_served c k now s (inr (d, e)) = ground arith

-- A hit, under either lock and after any steps of all goroutines, serves a result with which a leader
-- completed a read of this very key. It is served only until that leader's time to live has passed
-- since the completion of the result, whatever refreshes have failed in between, and only within the
-- current window, counted from there as well.
pub hit-fresh :
    (o : Options) (c : Cache) (k now : ℕ) (s : Snapshot)
    → Reach (new o) c
    → Hits c k now s
    → (ttl : ℕ) × Completed o c k s ttl
      × (now < s.completed + ttl)
      × (now < s.completed + c.options.ttl)
hit-fresh o c k now s r h =
    let (e, found, same, before, in_window) =
      served_fresh c k now s (lookup k c.entries) refl (hit_served c k now s h) in
    let (ttl, from, deadline_then) = Reach-Originates o c r k e found in
    (
      ttl,
      subst (λ x. Completed o c k x ttl) same from,
      ground (arith, before, deadline_then, same),
      in_window,
    )

-- A lookup becomes a leader only if the key has no flight. Its flight is then the key's, and of
-- the entries exactly those stay that a lookup could still serve.
locked-leads :
    (o : Options) (c d : Cache) (k now i : ℕ)
    → Reach (new o) c
    → locked k now c ≡ some (lead i, d)
    → (lookup k c.flights ≡ none)
      × (lookup k d.flights ≡ some i)
      × ((j : ℕ) → lookup j d.entries ≡ kept now c.options.ttl (lookup j c.entries))
unfolding locked lead_flight
locked-leads o c d k now i r e =
    let (kept_part, done, g) = sweep c (Reach-Inv o r) now in
    (
      ground arith,
      ground (arith, done, lookup-insert k k c.next c.flights),
      λ j. ground (arith, done, g.exact j),
    )

-- A failed read stores nothing and drops nothing: each key keeps its result and its deadline, the
-- byte count stays, and the key's flight is over.
complete-failed :
    (o : Options) (c : Cache) (k i started now e : ℕ) (canceled : Bool) (j : ℕ)
    → let d = (complete o k i started now (failed e canceled) c).1 in
      (dated (lookup j d.entries) ≡ dated (lookup j c.entries))
      × (d.bytes ≡ c.bytes)
      × (lookup k d.flights ≡ none)
unfolding complete
complete-failed o c k i started now e true j =
    (refl, refl, ground (arith, lookup-delete k k c.flights))
complete-failed o c k i started now e false j = ground (
  arith,
  dated-fall_back (land k i (failed e false) c) k now j (lookup k c.entries) refl,
  lookup-delete k k c.flights,
)

-- A complete result that fits is served to later lookups of the key under an unchanged window,
-- until its refresh is due.
pub complete-hit :
    (c : Cache) (k i started now later : ℕ) (s : Snapshot)
    → 0 < c.options.ttl
    → length c.entries < c.options.max_entries
    → c.bytes + s.bytes ≤ c.options.max_bytes
    → later < (stored c.options started s).refresh_at
    → (fast k later (complete c.options k i started now (captured s) c).1).0 ≡ hit s
unfolding complete store fast usable
complete-hit c k i started now later s p q b h =
    ground (arith, lookup-insert k k (stored c.options started s) c.entries)

abbrev pub verdict : Read → Awaited
verdict (failed e true) = retries
verdict (failed e false) = fails e
verdict (captured s) = reads s
verdict oversized = runs

-- When the leader is done, each waiter of its flight shares its result or its error, retries if
-- the leader was cancelled, and reads for itself if the result was too large to keep.
await-complete :
    (o : Options) (c : Cache) (k i started now : ℕ) (r : Read)
    → await false ((complete o k i started now r c).1.heap i) ≡ verdict r
unfolding await complete store fall_back
await-complete o c k i started now (failed e true) = ground arith
await-complete o c k i started now (failed e false) = ground arith
await-complete o c k i started now (captured s) = ground arith
await-complete o c k i started now oversized = ground arith
