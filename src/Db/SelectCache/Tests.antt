-- ===== src/Db/SelectCache/Tests.antt =====
-- Runs of the List SELECT cache, and its theorems at concrete inputs.
use request_generator.Common.{◌≤◌, ◌≡◌, refl, arith, false, none, some, [], ◌∷◌, length}
use request_generator.Common.Assoc.{lookup, delete, insert, total}
use request_generator.Db.SelectCache.Rows.{
  text, scalar, Row, Result, Cursor, row, unreadable, ends, prefixed, whole, fails, capture,
  capture_from, values_bytes, nothing, nth, prefixed_next, prefixed_scan, read_all, prefixed_rows,
}
use request_generator.Db.SelectCache.Rows.Properties.{
  rows_of, Faithful, capture-Faithful, read_all-prefixed,
}
use request_generator.Db.SelectCache.{
  Options, captured, Cache, empty, enable, purge, serves, waits, bypasses, leads, miss, find, look,
  store, complete, await, shares,
}
use request_generator.Db.SelectCache.Invariant.{size, Reach, here, next, looks, completes}
use request_generator.Db.SelectCache.Properties.{Reach-limits, complete-look}

program : Unit {0}
unfolding capture capture_from values_bytes nth prefixed_next prefixed_scan read_all enable purge
    miss find look store complete await lookup delete insert total
program = tt

abbrev row1 : Row
row1 = text (65 ∷ 66 ∷ []) ∷ scalar 5 ∷ []

abbrev row2 : Row
row2 = text [] ∷ scalar 6 ∷ []

abbrev two_rows : Cursor
two_rows = row row1 (row row2 (ends none))

abbrev options : Options
options = record { ttl = 10; max_entries = 1; max_bytes = 1000; max_result_bytes = 200 }

abbrev result : Result
result = record { rows = row1 ∷ row2 ∷ []; bytes = 162 }

runs :
    (capture 200 none two_rows ≡ whole result)
    × (capture 50 none two_rows ≡ prefixed (row1 ∷ []) (row row2 (ends none)))
    × (capture 200 none (row row1 (unreadable 4)) ≡ fails 4)
    × (enable options ≡ some (empty options))
    × (enable (record options { ttl = 0 }) ≡ none)
unfolding program
runs = (refl, refl, refl, refl, refl)

abbrev asked : Cache
asked = (look 0 7 (empty options)).1

asked-Reach : Reach (empty options) asked
asked-Reach = next here (looks (empty options) 0 7)

abbrev filled : Cache
filled = complete 3 4 7 0 (captured result) asked

filled-Reach : Reach (empty options) filled
unfolding program
filled-Reach = next asked-Reach (completes asked 3 4 7 0 (captured result) refl)

-- Behind the leader a second reader waits, and one of another key bypasses the full cache.
found :
    ((look 1 7 asked).0 ≡ waits 0)
    × ((look 1 8 asked).0 ≡ bypasses)
    × ((look 12 7 filled).0 ≡ serves (row1 ∷ row2 ∷ []))
    × ((look 13 7 filled).0 ≡ leads 1)
    × (await false (filled.heap 0) ≡ shares (row1 ∷ row2 ∷ []))
unfolding program
found = (refl, refl, refl, refl, refl)

capture-Faithful_example : Faithful 200 none nothing two_rows (capture 200 none two_rows)
capture-Faithful_example = capture-Faithful 200 none two_rows

read_all-prefixed_example :
    read_all 2 (prefixed_rows (row1 ∷ []) (row row2 (ends none))) ≡ rows_of two_rows
unfolding program
read_all-prefixed_example =
    read_all-prefixed 50 2 none two_rows (row row2 (ends none)) (row1 ∷ []) refl (omega arith)

Reach-limits_example :
    (filled.bytes ≡ total size filled.entries)
    × (filled.bytes ≤ filled.options.max_bytes)
    × (length filled.entries ≤ filled.options.max_entries)
    × (length filled.flights ≤ filled.options.max_entries)
Reach-limits_example = Reach-limits options filled filled-Reach

complete-look_example : (look 12 7 filled).0 ≡ serves result.rows
unfolding program
complete-look_example =
    complete-look options asked 3 4 12 7 0 result asked-Reach refl (omega arith) (omega arith)
      (omega arith) (omega arith)
