-- ===== src/SqlCache/Results/Origin.antt =====
-- db/sqlcache/cache.go: where the retained results come from, and with which deadline.
use request_generator.Common.{
  ℕ, ◌+◌, ◌≡◌, refl, sym, ap, inl, inr, true, false, Option, none, some, ◌⊎◌, arith,
}
use mathlib.Core.Path.{subst}
use request_generator.Common.Assoc.{lookup, lookup-insert}
use request_generator.SqlCache.Results.{
  Options, Cache, Entry, Snapshot, failed, captured, oversized, Found, new, set_ttl, fast, locked,
  lead_flight, store, stored, fall_back, land, complete,
}
use request_generator.SqlCache.Results.Sweep.{kept}
use request_generator.SqlCache.Results.Invariant.{Inv}
use request_generator.SqlCache.Results.Sections.{sweep}
use request_generator.SqlCache.Results.Steps.{
  Step, looks, locks, completes, sets, Reach, here, next, Reach-Inv,
}

abbrev pub dated : Option Entry → Option (Snapshot × ℕ)
dated none = none
dated (some e) = some (e.result, e.expires)

pub dated-fall_back :
    (c : Cache) (k now j : ℕ) (o : Option Entry)
    → lookup k c.entries ≡ o
    → (dated (lookup j (fall_back k now c).1.entries) ≡ dated (lookup j c.entries))
      × ((fall_back k now c).1.bytes ≡ c.bytes)
      × ((fall_back k now c).1.flights ≡ c.flights)
unfolding fall_back
dated-fall_back c k now j none e = ground arith
dated-fall_back c k now j (some x) e =
    ground (arith, lookup-insert j k (record x { refresh_at = x.expires }) c.entries)

-- On the way to `c`, the leader of a flight of the key completed it with this result, and its options
-- had this time to live.
abbrev pub Completed : Options → Cache → ℕ → Snapshot → ℕ → Type 0
Completed o c k s ttl =
    (d : Cache) × (i : ℕ) × (started : ℕ) × (at : ℕ) × Reach (new o) d
    × (lookup k d.flights ≡ some i)
    × Reach (complete (record (d.options) { ttl = ttl }) k i started at (captured s) d).1 c

-- Each retained result comes from such a completion, and its deadline is that of the leader.
abbrev pub Originates : Options → Cache → Type 0
Originates o c =
    (k : ℕ) (e : Entry)
    → lookup k c.entries ≡ some e
    → (ttl : ℕ) × Completed o c k e.result ttl × (e.expires ≡ e.result.completed + ttl)

-- Each entry of `d` is one of `c`, but for the time of its refresh.
abbrev OnlyDrops : Cache → Cache → Type 0
OnlyDrops c d =
    (j : ℕ)
    → (dated (lookup j d.entries) ≡ none)
      ⊎ (dated (lookup j d.entries) ≡ dated (lookup j c.entries))

dated-some :
    (x : Entry) (o : Option Entry)
    → dated o ≡ some (x.result, x.expires)
    → (y : Entry) × (o ≡ some y) × (y.result ≡ x.result) × (y.expires ≡ x.expires)
dated-some x none e = absurd (cc e)
dated-some x (some y) e = (y, refl, cc e, cc e)

OnlyDrops-Originates :
    (o : Options) (c d : Cache) → Step c d → OnlyDrops c d → Originates o c → Originates o d
OnlyDrops-Originates o c d st drops v k e found = elim (drops k) [
  | inl gone ↦ absurd (ground (arith, gone, found))
  | inr old ↦
      let (y, there, same, same_deadline) =
        dated-some e (lookup k c.entries) (ground (arith, old, found)) in
      let (ttl, (b, i, started, at, r, flight, on), deadline_then) = v k y there in
      (
        ttl,
        subst (λ x. Completed o d k x ttl) same (b, i, started, at, r, flight, next on st),
        ground (arith, same, same_deadline, deadline_then),
      )
]

fast-OnlyDrops : (c : Cache) (k now : ℕ) → OnlyDrops c (fast k now c).1
unfolding fast
fast-OnlyDrops c k now j = inr (ground arith)

dated-kept :
    (now ttl : ℕ) (o : Option Entry)
    → (dated (kept now ttl o) ≡ none) ⊎ (dated (kept now ttl o) ≡ dated o)
dated-kept now ttl none = inl refl
dated-kept now ttl (some e) = ground arith

locked-OnlyDrops :
    (c : Cache) (k now : ℕ) (r : Found × Cache) → Inv c → locked k now c ≡ some r → OnlyDrops c r.1
unfolding locked lead_flight
locked-OnlyDrops c k now r v e j =
    let (part, done, g) = sweep c v now in
    ground (arith, done, g.exact j, dated-kept now c.options.ttl (lookup j c.entries))

store-entry :
    (o : Options) (k started : ℕ) (s : Snapshot) (c : Cache) (j : ℕ) (e : Entry)
    → lookup j (store o k started s c).entries ≡ some e
    → (lookup j c.entries ≡ some e) ⊎ ((k ≡ j) × (e ≡ stored o started s))
unfolding store
store-entry o k started s c j e h =
    ground (arith, h, lookup-insert j k (stored o started s) c.entries)

-- A result that is stored is the completion's own; one that is not leaves what there was.
store-Originates :
    (o : Options) (c : Cache) (ttl k i started now : ℕ) (s : Snapshot)
    → Reach (new o) c
    → lookup k c.flights ≡ some i
    → Originates o c
    → Originates o (complete (record (c.options) { ttl = ttl }) k i started now (captured s) c).1
unfolding complete
store-Originates o c ttl k i started now s r flight v j e found =
    let done = complete (record (c.options) { ttl = ttl }) k i started now (captured s) c in
    elim (store-entry (record (c.options) { ttl = ttl }) k started s (land k i (captured s) c) j e
      found) [
        | inr (own, fresh) ↦
            let same : s ≡ e.result = ap (λ (x : Entry). x.result) (sym fresh) in
            (
              ttl,
              subst (λ n. Completed o done.1 n e.result ttl) own
                  (subst (λ x. Completed o done.1 k x ttl) same
                    (c, i, started, now, r, flight, here)),
              ground (arith, ap (λ (x : Entry). x.expires) fresh, same),
            )
        | inl old ↦
            let (t, (b, l, began, at, q, under_way, on), deadline_then) = v j e old in
            (
              t,
              (
                b,
                l,
                began,
                at,
                q,
                under_way,
                next on (completes c ttl k i started now (captured s) flight),
              ),
              deadline_then,
            )
      ]

Step-Originates :
    (o : Options) (c d : Cache) → Reach (new o) c → Step c d → Originates o c → Originates o d
unfolding complete set_ttl
Step-Originates o _ _ r (looks c k now) v =
    OnlyDrops-Originates o c _ (looks c k now) (fast-OnlyDrops c k now) v
Step-Originates o _ _ r (locks c k now x e) v =
    OnlyDrops-Originates o c x.1 (locks c k now x e) (locked-OnlyDrops c k now x (Reach-Inv o r) e)
      v
Step-Originates o _ _ r (completes c ttl k i started now (failed e true) f) v =
    OnlyDrops-Originates o c _ (completes c ttl k i started now (failed e true) f) (λ j. inr refl) v
Step-Originates o _ _ r (completes c ttl k i started now (failed e false) f) v =
    OnlyDrops-Originates o c _ (completes c ttl k i started now (failed e false) f)
      (λ j. inr (dated-fall_back (land k i (failed e false) c) k now j (lookup k c.entries) refl).0)
      v
Step-Originates o _ _ r (completes c ttl k i started now (captured s) f) v =
    store-Originates o c ttl k i started now s r f v
Step-Originates o _ _ r (completes c ttl k i started now oversized f) v =
    OnlyDrops-Originates o c _ (completes c ttl k i started now oversized f) (λ j. inr refl) v
Step-Originates o _ _ r (sets c ttl) v = OnlyDrops-Originates o c _ (sets c ttl) (λ j. inr refl) v

pub Reach-Originates : (o : Options) (c : Cache) → Reach (new o) c → Originates o c
unfolding new lookup
Reach-Originates o c here = λ k e found. absurd (ground (arith, found))
Reach-Originates o c (next {d = d} r st) = Step-Originates o d c r st (Reach-Originates o d r)
