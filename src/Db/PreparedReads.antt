-- ===== src/Db/PreparedReads.antt =====
-- db/prepared_views.go: the bounded LRU cache of prepared read statements.
-- A query text is a number, since the code compares texts for equality only. An entry is an object
-- that the map, the recency list and the running readers share, so it stands in a heap under the
-- number of its allocation. Each function is what one goroutine does under the mutex; `closes`
-- lists the entries whose statement was handed to Close, the newest first.
pub mod Steps
pub mod Ids
pub mod Invariant
pub mod Preserved
pub mod Properties
pub mod Tests
use mathlib.Core.List.{reverse}
use request_generator.Common.{
  ℕ, suc, ◌+◌, ◌-◌, Bool, true, false, ◌&&◌, Option, none, some, List, [], ◌∷◌, ltb, leb, ◌==◌,
  if◌then◌else◌, length, count, remove,
}
use request_generator.Common.Assoc.{lookup, delete, insert}

pub record Entry : Type 0 where
  pub query : ℕ
  pub stmt : ℕ
  pub users : ℕ
  pub retired : Bool

pub record Stats : Type 0 where
  pub hits : ℕ
  pub misses : ℕ
  pub bypasses : ℕ
  pub evictions : ℕ
  pub prepare_errors : ℕ

pub record Cache : Type 0 where
  pub limit : ℕ
  pub statements : List (ℕ × ℕ)
  pub pending : List ℕ
  pub recent : List ℕ
  pub stats : Stats
  pub heap : ℕ → Entry
  pub next : ℕ
  pub closes : List ℕ

abbrev pub update : (ℕ → Entry) → ℕ → Entry → ℕ → Entry
update h i e j = if j == i then e else h j

-- What no allocation has filled yet.
abbrev pub blank : Entry
blank = record { query = 0; stmt = 0; users = 0; retired = true }

unfoldable pub new : ℕ → Cache
new limit = record {
  limit = limit;
  statements = [];
  pending = [];
  recent = [];
  stats = record { hits = 0; misses = 0; bypasses = 0; evictions = 0; prepare_errors = 0 };
  heap = λ i. blank;
  next = 0;
  closes = [];
}

-- What the first critical section of `statement` decides.
pub data Outcome : Type 0 where
  cancelled wait bypass prepare : Outcome
  hit : ℕ → Outcome

-- The hit branch: one more user, and the entry moves to the front.
unfoldable pub touch : ℕ → Cache → Cache
touch i c = record c {
  heap = update c.heap i (record (c.heap i) { users = (c.heap i).users + 1 });
  recent = i ∷ remove i c.recent;
  stats = record (c.stats) { hits = c.stats.hits + 1 };
}

-- The loop from `recent.Back()`: the first entry that no reader holds.
unfoldable pub idle_from : (ℕ → Entry) → List ℕ → Option ℕ
idle_from h [] = none
idle_from h (i ∷ is) = if (h i).users == 0 then some i else idle_from h is

unfoldable pub evict : ℕ → Cache → Cache
evict i c = record c {
  statements = delete (c.heap i).query c.statements;
  recent = remove i c.recent;
  heap = update c.heap i (record (c.heap i) { retired = true });
  stats = record (c.stats) { evictions = c.stats.evictions + 1 };
  closes = i ∷ c.closes;
}

unfoldable pub reserve : ℕ → Cache → Cache
reserve q c = record c {
  pending = q ∷ c.pending;
  stats = record (c.stats) { misses = c.stats.misses + 1 };
}

unfoldable pub refuse : Cache → Cache
refuse c = record c { stats = record (c.stats) { bypasses = c.stats.bypasses + 1 } }

-- A miss: a free slot, or the slot of the oldest idle entry, or none.
unfoldable pub miss : ℕ → Cache → Outcome × Cache
miss q c =
    if leb c.limit (length c.statements + length c.pending)
    then (elim (idle_from c.heap (reverse c.recent)) [
      | none ↦ (bypass, refuse c)
      | some i ↦ (prepare, reserve q (evict i c))
    ])
    else (prepare, reserve q c)

-- `statement` up to its first unlock; `expired` is whether the caller's context is done.
unfoldable pub begin : Bool → ℕ → Cache → Outcome × Cache
begin true q c = (cancelled, c)
begin false q c = elim (lookup q c.statements) [
  | some i ↦ (hit i, touch i c)
  | none ↦ if ltb 0 (count q c.pending) then (wait, c) else miss q c
]

-- The branches after a successful preparation: the entry enters the cache, or, where the cache was
-- closed meanwhile, is retired from the start.
unfoldable pub admit : ℕ → ℕ → Cache → Cache
admit q stmt c = record c {
  pending = remove q c.pending;
  heap = update c.heap c.next (record { query = q; stmt = stmt; users = 1; retired = false });
  next = suc c.next;
  recent = c.next ∷ c.recent;
  statements = insert q c.next c.statements;
}

unfoldable pub admit_late : ℕ → ℕ → Cache → Cache
admit_late q stmt c = record c {
  pending = remove q c.pending;
  heap = update c.heap c.next (record { query = q; stmt = stmt; users = 1; retired = true });
  next = suc c.next;
}

-- The second critical section of `statement`, after PrepareContext returned a statement or failed.
unfoldable pub finish : ℕ → Option ℕ → Cache → Option ℕ × Cache
finish q none c = (
  none,
  record c {
    pending = remove q c.pending;
    stats = record (c.stats) { prepare_errors = c.stats.prepare_errors + 1 };
  },
)
finish q (some stmt) c =
    (some c.next, if ltb 0 c.limit then admit q stmt c else admit_late q stmt c)

unfoldable pub release : ℕ → Cache → Cache
release i c = record c {
  heap = update c.heap i (record (c.heap i) { users = (c.heap i).users - 1 });
  closes = if (c.heap i).retired && (c.heap i).users - 1 == 0 then i ∷ c.closes else c.closes;
}

-- The loop of ClosePreparedViews: every entry retires, and the idle ones are closed.
unfoldable pub retire : List (ℕ × ℕ) → (ℕ → Entry) → List ℕ → (ℕ → Entry) × List ℕ
retire [] h closes = (h, closes)
retire ((q, i) ∷ m) h closes =
    retire m (update h i (record (h i) { retired = true }))
      (if (h i).users == 0 then i ∷ closes else closes)

unfoldable pub close : Cache → Cache
close c = record c {
  limit = 0;
  statements = [];
  recent = [];
  heap = (retire c.statements c.heap c.closes).0;
  closes = (retire c.statements c.heap c.closes).1;
}

-- The counts that PreparedReadCacheStats adds to the counters.
pub record Report : Type 0 where
  pub capacity : ℕ
  pub entries : ℕ
  pub waiting : ℕ
  pub counters : Stats

unfoldable pub report : Cache → Report
report c = record {
  capacity = c.limit;
  entries = length c.statements;
  waiting = length c.pending;
  counters = c.stats;
}
