-- ===== src/Db/SelectCache.antt =====
-- db/select_cache.go: the cache of the List SELECT and COUNT results of one DB.
-- A key is a number (the SHA-256 of selectCacheKey), a flight stands in a heap under the number of
-- its allocation, times are numbers of nanoseconds, and each critical section of queryCachedList is
-- a function, with what the clock shows in it as an argument.
pub mod Rows
pub mod Invariant
pub mod Properties
pub mod Tests
use request_generator.Common.{
  ℕ, suc, ◌+◌, ◌-◌, Bool, true, false, ◌&&◌, Option, none, some, List, [], ◌∷◌, leb, ltb, ◌==◌,
  if◌then◌else◌, length,
}
use request_generator.Common.Assoc.{lookup, delete, insert}
use request_generator.Db.SelectCache.Rows.{Row, Result}

-- The options that EnableListSelectCache accepts are positive.
pub record Options : Type 0 where
  pub ttl : ℕ
  pub max_entries : ℕ
  pub max_bytes : ℕ
  pub max_result_bytes : ℕ

pub record Entry : Type 0 where
  pub result : Result
  pub expires : ℕ

-- What a leader's read ended with: an error, a result too large to keep, or a result.
pub data Outcome : Type 0 where
  failed : ℕ → Outcome
  oversized : Outcome
  captured : Result → Outcome

-- A flight, with its outcome once `done` is closed.
abbrev pub Flight : Type 0
Flight = Option Outcome

pub record Counters : Type 0 where
  pub hits : ℕ
  pub misses : ℕ
  pub shared : ℕ
  pub bypassed : ℕ

pub record Cache : Type 0 where
  pub options : Options
  pub entries : List (ℕ × Entry)
  pub flights : List (ℕ × ℕ)
  pub heap : ℕ → Flight
  pub next : ℕ
  pub bytes : ℕ
  pub stats : Counters

abbrev pub empty : Options → Cache
empty o = record {
  options = o;
  entries = [];
  flights = [];
  heap = λ i. none;
  next = 0;
  bytes = 0;
  stats = record { hits = 0; misses = 0; shared = 0; bypassed = 0 };
}

-- `none`, which is no cache, if an option is not positive.
unfoldable pub enable : Options → Option Cache
enable o =
    if leb 1 o.ttl && (leb 1 o.max_entries && (leb 1 o.max_bytes && leb 1 o.max_result_bytes))
    then some (empty o)
    else none

abbrev pub fresh : ℕ → Entry → Bool
fresh now e = ltb now e.expires

-- The lazy cleanup: the entries kept, and the bytes left.
unfoldable pub purge : ℕ → List (ℕ × Entry) → ℕ → List (ℕ × Entry) × ℕ
purge now [] bytes = ([], bytes)
purge now ((k, e) ∷ m) bytes = elim (fresh now e) [
  | true ↦ ((k, e) ∷ (purge now m bytes).0, (purge now m bytes).1)
  | false ↦ purge now m (bytes - e.result.bytes)
]

abbrev pub cleaned : ℕ → Cache → Cache
cleaned now c = record c {
  entries = (purge now c.entries c.bytes).0;
  bytes = (purge now c.entries c.bytes).1;
}

-- How the first critical section ends: with rows, behind a flight, past the cache, or as leader.
pub data Found : Type 0 where
  serves : List Row → Found
  waits : ℕ → Found
  bypasses : Found
  leads : ℕ → Found

abbrev pub lead : ℕ → Cache → Found × Cache
lead k c = (
  leads c.next,
  record c {
    flights = insert k c.next c.flights;
    heap = λ j. if j == c.next then none else c.heap j;
    next = suc c.next;
    stats = record (c.stats) { misses = c.stats.misses + 1 };
  },
)

unfoldable pub miss : ℕ → Cache → Found × Cache
miss k c = elim (lookup k c.flights) [
  | some i ↦ (waits i, record c { stats = record (c.stats) { shared = c.stats.shared + 1 } })
  | none ↦
      if leb c.options.max_entries (length c.flights)
      then (bypasses, record c { stats = record (c.stats) { bypassed = c.stats.bypassed + 1 } })
      else lead k c
]

unfoldable pub find : ℕ → Cache → Found × Cache
find k c = elim (lookup k c.entries) [
  | some e ↦
      (serves e.result.rows, record c { stats = record (c.stats) { hits = c.stats.hits + 1 } })
  | none ↦ miss k c
]

unfoldable pub look : ℕ → ℕ → Cache → Found × Cache
look now k c = find k (cleaned now c)

-- The leader's second critical section, entered with the end of its read and the time behind it.
abbrev pub landed : ℕ → ℕ → Outcome → Cache → Cache
landed k i o c = record c {
  flights = delete k c.flights;
  heap = λ j. if j == i then some o else c.heap j;
}

abbrev pub bypass : Cache → Cache
bypass c = record c { stats = record (c.stats) { bypassed = c.stats.bypassed + 1 } }

abbrev pub fits : ℕ → Entry → Cache → Bool
fits now e c =
    ltb now e.expires
    && (ltb (length c.entries) c.options.max_entries
        && leb (c.bytes + e.result.bytes) c.options.max_bytes)

unfoldable pub store : ℕ → ℕ → Entry → Cache → Cache
store now k e c =
    if fits now e c
    then record c { entries = insert k e c.entries; bytes = c.bytes + e.result.bytes }
    else bypass c

unfoldable pub complete : ℕ → ℕ → ℕ → ℕ → Outcome → Cache → Cache
complete completed now k i (captured r) c =
    store now k (record { result = r; expires = completed + c.options.ttl })
      (landed k i (captured r) c)
complete completed now k i oversized c = bypass (landed k i oversized c)
complete completed now k i (failed e) c = landed k i (failed e) c

-- What a waiter does: whether its own context is done, and the flight.
pub data Awaited : Type 0 where
  gives_up : Awaited
  blocks : Awaited
  reports : ℕ → Awaited
  shares : List Row → Awaited
  queries_itself : Awaited

unfoldable pub await : Bool → Flight → Awaited
await true f = gives_up
await false none = blocks
await false (some (failed e)) = reports e
await false (some (captured r)) = shares r.rows
await false (some oversized) = queries_itself
