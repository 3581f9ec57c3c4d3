-- ===== src/SqlCache/Plans/Tests.antt =====
-- Runs of the registry of shared statements, and its theorems at concrete inputs.
use request_generator.Common.{
  ◌-◌, ◌==◌, ◌≤◌, ◌≡◌, refl, inl, arith, true, none, some, [], ◌∷◌, if◌then◌else◌, count, remove,
  length,
}
use request_generator.Common.Assoc.{lookup, delete, insert}
use request_generator.SqlCache.Plans.{
  Plans, max_idle, new, reuse, allocate, acquire, prepared, discard, park, trim, release, drain,
  close, wait,
}
use request_generator.SqlCache.Plans.Invariant.{has_stmt}
use request_generator.SqlCache.Plans.Properties.{
  leased-registered, idle-bounded, drained-closed_once,
}
use request_generator.SqlCache.Plans.Steps.{
  System, Reach, here, next, acquires, prepares, releases, closes, acquired, start,
}

program : Unit {0}
unfolding new reuse allocate acquire prepared discard park trim release drain close wait lookup
    delete insert count remove
program = tt

-- Text 7 is prepared as statement 30, released to the idle list, and closed with the pool.
abbrev asked : System
asked = acquired 7 start

abbrev ready : System
ready = record asked { plans = prepared 0 (some 30) asked.plans }

abbrev idle_plans : Plans
idle_plans = park 7 0 (record (ready.plans) {
  heap = λ j.
      if j == 0
      then record (ready.plans.heap 0) { refs = (ready.plans.heap 0).refs - 1 }
      else ready.plans.heap j;
})

ready-Reach : Reach start ready
unfolding program
ready-Reach = next (next here (acquires start 7)) (prepares asked 0 (some 30) (omega arith) refl)

abbrev idle : System
idle = record ready { plans = idle_plans; leases = [] }

idle-Reach : Reach start idle
unfolding program
idle-Reach = next ready-Reach (releases ready 0 idle_plans (omega arith) (inl refl) refl)

abbrev shut_plans : Plans
shut_plans = record idle_plans { statements = []; idle = []; closed = true; closes = 0 ∷ [] }

abbrev shut : System
shut = record idle { plans = shut_plans }

shut-Reach : Reach start shut
unfolding program
shut-Reach = next idle-Reach (closes idle shut_plans refl)

-- A preparation of text 8 that failed.
abbrev failed : System
failed = record (acquired 8 start) { plans = prepared 0 none (acquired 8 start).plans }

failed-Reach : Reach start failed
unfolding program
failed-Reach =
    next (next here (acquires start 8)) (prepares (acquired 8 start) 0 none (omega arith) refl)

abbrev dropped : Plans
dropped = discard 8 0 (record (failed.plans) {
  heap = λ j.
      if j == 0
      then record (failed.plans.heap 0) { refs = (failed.plans.heap 0).refs - 1 }
      else failed.plans.heap j;
})

leased-registered_example :
    (lookup 7 ready.plans.statements ≡ some 0) × (count 0 ready.plans.closes ≡ 0)
unfolding program
leased-registered_example = leased-registered ready 0 ready-Reach (omega arith)

idle-bounded_example : length idle.plans.idle ≤ max_idle
idle-bounded_example = idle-bounded idle idle-Reach

drained-closed_once_example :
    count 0 shut.plans.closes ≡ (if has_stmt (shut.plans.heap 0) then 1 else 0)
unfolding program
drained-closed_once_example = drained-closed_once shut 0 shut-Reach refl refl (omega arith)
