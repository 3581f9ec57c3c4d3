-- ===== src/Db/PreparedReads/Tests.antt =====
-- Runs of the cache of prepared reads, and its theorems at concrete inputs.
use request_generator.Common.{◌≡◌, refl, arith, false, some, [], ◌∷◌, count, remove}
use request_generator.Common.Assoc.{lookup, delete, insert}
use request_generator.Db.PreparedReads.{
  prepare, bypass, new, begin, miss, touch, evict, reserve, refuse, idle_from, finish, admit,
  admit_late, release, retire, close, report,
}
use request_generator.Db.PreparedReads.Properties.{leased-open, drained-closed}
use request_generator.Db.PreparedReads.Steps.{
  System, begins, finishes, releases, closes, Reach, here, next, start, begun, finished, released,
}

program : Unit {0}
unfolding new begin miss touch evict reserve refuse idle_from finish admit admit_late release retire
    close report lookup delete insert count remove
program = tt

-- Text 7 misses a cache of one slot, and is prepared as statement 30.
abbrev prepared : System
prepared = finished 7 (some 30) (begun false 7 (start 1))

prepared-Reach : Reach (start 1) prepared
unfolding program
prepared-Reach = next (next here (begins _ false 7)) (finishes _ 7 (some 30) (omega arith))

-- Its reader is done.
abbrev idle : System
idle = released 0 prepared

idle-Reach : Reach (start 1) idle
unfolding program
idle-Reach = next prepared-Reach (releases _ 0 (omega arith))

abbrev shut : System
shut = record idle { cache = close idle.cache }

shut-Reach : Reach (start 1) shut
shut-Reach = next idle-Reach (closes idle)

-- Text 8 takes the slot of the idle entry.
replaced : ((begin false 8 idle.cache).0 ≡ prepare) × ((begin false 8 idle.cache).1.closes ≡ 0 ∷ [])
unfolding program
replaced = (refl, refl)

-- A second text cannot displace an entry in use.
in_use : (begin false 8 prepared.cache).0 ≡ bypass
unfolding program
in_use = refl

leased-open_example : count 0 prepared.cache.closes ≡ 0
unfolding program
leased-open_example = leased-open 1 prepared 0 (omega arith) prepared-Reach (omega arith)

drained-closed_example : count 0 shut.cache.closes ≡ 1
unfolding program
drained-closed_example = drained-closed 1 shut 0 (omega arith) shut-Reach refl refl (omega arith)
