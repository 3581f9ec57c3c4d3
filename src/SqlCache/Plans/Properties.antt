-- ===== src/SqlCache/Plans/Properties.antt =====
-- db/sqlcache/pool.go: what the registry of shared statements promises.
use request_generator.Common.{
  ℕ, ◌≤◌, ◌<◌, ◌≡◌, inl, inr, true, none, some, [], if◌then◌else◌, length, count, Option-cases,
  arith,
}
use request_generator.Common.Assoc.{lookup, lookup-delete, lookup-insert}
use request_generator.SqlCache.Plans.{
  Plans, max_idle, reuse, allocate, acquire, discard, release, close,
}
use request_generator.SqlCache.Plans.Invariant.{has_stmt}
use request_generator.SqlCache.Plans.Reachable.{Reach-Good, release-some, close-some}
use request_generator.SqlCache.Plans.Steps.{System, Reach, start}

-- A statement that some goroutine refers to stays registered under its text and is not closed,
-- whatever the others do.
pub leased-registered :
    (s : System) (i : ℕ)
    → Reach start s
    → 0 < count i s.leases
    → (lookup (s.text i) s.plans.statements ≡ some i) × (count i s.plans.closes ≡ 0)
leased-registered s i r h =
    let g = Reach-Good r in (g.inv.leased i h, ground (arith, g.inv.once i, g.inv.leased i h))

-- No more than 64 statements are retained without a reference.
pub idle-bounded : (s : System) → Reach start s → length s.plans.idle ≤ max_idle
idle-bounded s r = let g = Reach-Good r in g.inv.few

-- After Close and the release of every reference, each statement that was prepared with success
-- has been closed exactly once, and nothing is closed for a preparation that failed.
pub drained-closed_once :
    (s : System) (i : ℕ)
    → Reach start s
    → s.plans.closed ≡ true
    → s.leases ≡ []
    → i < s.plans.next
    → count i s.plans.closes ≡ (if has_stmt (s.plans.heap i) then 1 else 0)
unfolding count
drained-closed_once s i r shut drained made =
    let g = Reach-Good r in
    elim (Option-cases (lookup (s.text i) s.plans.statements)) [
      | inl gone ↦ ground (arith, g.inv.once i)
      | inr (j, e) ↦ ground (
        arith,
        g.inv.once i,
        g.inv.known (s.text i) j,
        g.inv.counted j,
        g.inv.parked (s.text i),
        g.shut shut,
      )
    ]

-- The release of a reference to a statement that is prepared does not dereference a statement that
-- the registry lacks.
release-returns :
    (s : System) (i : ℕ)
    → Reach start s
    → 0 < count i s.leases
    → (s.plans.heap i).ready ≡ true
    → (p : Plans) × (release (s.text i) i s.plans ≡ some p)
release-returns s i r h ready = release-some s i (Reach-Good r) h (inl ready)

-- Close finds in the registry every statement that it closes.
close-returns : (s : System) → Reach start s → (p : Plans) × (close s.plans ≡ some p)
close-returns s r = close-some s (Reach-Good r)

-- While a text is registered, whoever asks for it shares one object: a second request right after
-- a first gets the object of the first.
acquire-shares : (q : ℕ) (p : Plans) → (acquire q (acquire q p).1).0 ≡ (acquire q p).0
unfolding acquire reuse allocate
acquire-shares q p = ground (arith, lookup-insert q q p.next p.statements)

-- The last reference to a statement whose preparation failed takes its text from the registry, so
-- that the next request prepares it anew.
release-failed :
    (s : System) (i : ℕ) (p : Plans)
    → Reach start s
    → count i s.leases ≡ 1
    → (s.plans.heap i).failed ≡ true
    → release (s.text i) i s.plans ≡ some p
    → (lookup (s.text i) p.statements ≡ none) × ((acquire (s.text i) p).0 ≡ p.next)
unfolding release discard acquire
release-failed s i p r one failed e =
    let g = Reach-Good r in
    ground (arith, g.inv.counted i, lookup-delete (s.text i) (s.text i) s.plans.statements)
