-- ===== src/SqlCache/Results/Tests.antt =====
-- Runs of the result cache, and its theorems at concrete inputs.
use request_generator.Common.{ℕ, ◌+◌, ◌≤◌, ◌<◌, ◌≡◌, inl, refl, arith, [], length}
use request_generator.Common.Assoc.{lookup, delete, insert, total}
use request_generator.SqlCache.Results.{
  Options, Cache, Snapshot, captured, hit, lead, slow, new, set_ttl, fast, locked, lead_flight,
  store, fall_back, complete, reclaim, usable, push, init, reprice, min_expiry, await, admission,
}
use request_generator.SqlCache.Results.Sweep.{size}
use request_generator.SqlCache.Results.Steps.{Reach, here, next, locks, completes}
use request_generator.SqlCache.Results.Origin.{Completed}
use request_generator.SqlCache.Results.Properties.{Reach-budgets, hit-fresh, complete-hit}

program : Unit {0}
unfolding new set_ttl fast locked lead_flight store fall_back complete reclaim usable push init
    reprice min_expiry await admission lookup delete insert total
program = tt

abbrev settings : Options
settings = record { ttl = 100; max_entries = 2; max_bytes = 1000; max_result_bytes = 500 }

abbrev result_set : Snapshot
result_set = record { rows = 1; bytes = 50; completed = 20 }

-- Key 5 is read from time 10 to 20, and stored.
abbrev leading : Cache
leading = (lead_flight 5 (new settings)).1

abbrev warm : Cache
warm = (complete settings 5 0 10 21 (captured result_set) leading).1

leading-Reach : Reach (new settings) leading
unfolding program
leading-Reach = next here (locks (new settings) 5 10 (lead 0, leading) refl)

warm-Reach : Reach (new settings) warm
unfolding program
warm-Reach = next leading-Reach (completes leading 100 5 0 10 21 (captured result_set) refl)

-- The result serves until 100 after its completion, less the head start of a refresh: twice the 10
-- that the read took.
serves_until :
    ((fast 5 99 warm).0 ≡ hit result_set)
    × ((fast 5 100 warm).0 ≡ slow)
    × ((fast 5 40 (set_ttl 15 warm)).0 ≡ slow)
    × ((fast 5 34 (set_ttl 15 warm)).0 ≡ hit result_set)
unfolding program
serves_until = (refl, refl, refl, refl)

Reach-budgets_example :
    (warm.bytes ≡ total size warm.entries)
    × (length warm.entries ≤ warm.options.max_entries)
    × (warm.bytes ≤ warm.options.max_bytes)
    × (length warm.flights ≤ warm.options.max_entries)
Reach-budgets_example = Reach-budgets settings warm warm-Reach

hit-fresh_example :
    (ttl : ℕ) × Completed settings warm 5 result_set ttl
    × (50 < result_set.completed + ttl)
    × (50 < result_set.completed + warm.options.ttl)
unfolding program
hit-fresh_example = hit-fresh settings warm 5 50 result_set warm-Reach (inl refl)

-- A lookup of key 6 at time 130 sweeps the entry of key 5.
abbrev after_sweep : Cache
after_sweep = (lead_flight 6 (record warm { entries = []; expirations = []; bytes = 0 })).1

complete-hit_example : (fast 5 60 warm).0 ≡ hit result_set
unfolding program
complete-hit_example =
    complete-hit leading 5 0 10 21 60 result_set (omega arith) (omega arith) (omega arith)
      (omega arith)
