-- ===== src/SqlCache/Results/Sections.antt =====
-- db/sqlcache/cache.go: the critical sections of the result cache keep its invariant.
use request_generator.Common.{
  ℕ, ◌≡◌, refl, inl, inr, true, false, some, ltb, Bool-cases, Option-cases,
}
use request_generator.Common.Assoc.{lookup}
use request_generator.SqlCache.Results.{
  Cache, Read, failed, captured, oversized, Found, count_hit, count_shared, count_bypassed, hit,
  join, bypass, Kept, fast, locked, served, disabled, swept, lead_flight, land, complete, reclaim,
}
use request_generator.SqlCache.Results.Sweep.{Good, reclaim-Good}
use request_generator.SqlCache.Results.Invariant.{
  Inv, counters-Inv, swept-Inv, lead_flight-Inv, land-Inv, fall_back-Inv, store-Inv,
}

module _ (c : Cache) (v : Inv c) where
  pub fast-Inv : (k now : ℕ) → Inv (fast k now c).1
  unfolding fast
  fast-Inv k now = elim (Bool-cases (ltb 0 c.options.ttl)) [
    | inr off ↦ rw off v
    | inl reuse ↦ elim (Option-cases (served c k now)) [
      | inr (s, e) ↦ rw reuse (rw e (counters-Inv c v _))
      | inl e ↦ elim (Option-cases (lookup k c.flights)) [
        | inl f ↦ rw reuse (rw e (rw f v))
        | inr (i, f) ↦ rw reuse (rw e (rw f (counters-Inv c v _)))
      ]
    ]
  ]

  pub sweep :
      (now : ℕ)
      → (r : Kept) × (reclaim now c.expirations c.entries c.bytes ≡ some r)
        × Good now c.options.ttl c.entries r
  sweep now =
      reclaim-Good now c.options.ttl c.expirations c.entries c.bytes v.linked v.sorted v.items_once
        v.keys_once v.sized

  -- The locked lookup never faults.
  pub locked-Inv : (k now : ℕ) → (r : Found × Cache) × (locked k now c ≡ some r) × Inv r.1
  unfolding locked
  locked-Inv k now = elim (Bool-cases (disabled c.options)) [
    | inl off ↦ ((bypass, count_bypassed c), rw off, counters-Inv c v _)
    | inr reuse ↦ elim (Option-cases (served c k now)) [
      | inr (s, e) ↦ ((hit s, count_hit c), rw reuse (rw e), counters-Inv c v _)
      | inl e ↦ elim (Option-cases (lookup k c.flights)) [
        | inr (i, f) ↦ ((join i, count_shared c), rw reuse (rw e (rw f)), counters-Inv c v _)
        | inl f ↦
            let (r, done, g) = sweep now in
            (
              lead_flight k (swept c r),
              rw reuse (rw e (rw f (rw done))),
              lead_flight-Inv (swept c r) (swept-Inv c v now r g) k f,
            )
      ]
    ]
  ]

  pub complete-Inv :
      (ttl k i started now : ℕ) (r : Read)
      → lookup k c.flights ≡ some i
      → Inv (complete (record (c.options) { ttl = ttl }) k i started now r c).1
  unfolding complete
  complete-Inv ttl k i started now (failed e true) h = land-Inv c v k i (failed e true) h
  complete-Inv ttl k i started now (failed e false) h =
      fall_back-Inv (land k i (failed e false) c) (land-Inv c v k i (failed e false) h) k now
  complete-Inv ttl k i started now (captured s) h =
      store-Inv (land k i (captured s) c) (land-Inv c v k i (captured s) h)
        (record (c.options) { ttl = ttl }) k started s refl refl
  complete-Inv ttl k i started now oversized h =
      counters-Inv (land k i oversized c) (land-Inv c v k i oversized h) _
