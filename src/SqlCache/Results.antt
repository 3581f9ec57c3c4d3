-- ===== src/SqlCache/Results.antt =====
-- db/sqlcache/cache.go and db/sqlcache/expiry.go: the result cache and its in-flight reads.
-- A key is the number that the 32 bytes of its hash spell, a time or duration a number of
-- nanoseconds, and a setting that the code rejects as non-positive is 0. Each function is what one
-- goroutine does between a lock and its unlock. An expiry item is found by its key, as the cache
-- holds one for each entry; container/heap is an ordered list with the operations of its interface.
pub mod Queue
pub mod Sweep
pub mod Invariant
pub mod Sections
pub mod Steps
pub mod Origin
pub mod Properties
pub mod Tests
use request_generator.Common.{
  ℕ, suc, ◌+◌, ◌-◌, ◌*◌, ◌/◌, Bool, true, false, not, ◌&&◌, ◌||◌, Option, none, some, List, [], ◌∷◌,
  ltb, leb, ◌==◌, min, if◌then◌else◌, length,
}
use request_generator.Common.Assoc.{lookup, delete, insert}

pub record Options : Type 0 where
  pub ttl : ℕ
  pub max_entries : ℕ
  pub max_bytes : ℕ
  pub max_result_bytes : ℕ

-- What a captured result has of interest here: its rows, unread, its size and its completion.
pub record Snapshot : Type 0 where
  pub rows : ℕ
  pub bytes : ℕ
  pub completed : ℕ

pub record Entry : Type 0 where
  pub result : Snapshot
  pub expires : ℕ
  pub refresh_at : ℕ

unfoldable pub usable : Entry → ℕ → ℕ → Bool
usable e now ttl = ltb now e.expires && ltb now (e.result.completed + ttl)

pub record Flight : Type 0 where
  pub done : Bool
  pub result : Option Snapshot
  pub error : Option ℕ
  pub canceled : Bool

pub record Counters : Type 0 where
  pub hits : ℕ
  pub misses : ℕ
  pub shared : ℕ
  pub bypassed : ℕ

pub record Cache : Type 0 where
  pub options : Options
  pub entries : List (ℕ × Entry)
  pub expirations : List (ℕ × ℕ)
  pub flights : List (ℕ × ℕ)
  pub heap : ℕ → Flight
  pub next : ℕ
  pub bytes : ℕ
  pub counters : Counters

abbrev pub open_flight : Flight
open_flight = record { done = false; result = none; error = none; canceled = false }

unfoldable pub new : Options → Cache
new o = record {
  options = o;
  entries = [];
  expirations = [];
  flights = [];
  heap = λ i. open_flight;
  next = 0;
  bytes = 0;
  counters = record { hits = 0; misses = 0; shared = 0; bypassed = 0 };
}

abbrev pub count_hit : Cache → Cache
count_hit c = record c { counters = record (c.counters) { hits = c.counters.hits + 1 } }

abbrev pub count_shared : Cache → Cache
count_shared c = record c { counters = record (c.counters) { shared = c.counters.shared + 1 } }

abbrev pub count_bypassed : Cache → Cache
count_bypassed c = record c {
  counters = record (c.counters) { bypassed = c.counters.bypassed + 1 };
}

unfoldable pub min_expiry : ℕ → ℕ → ℕ
min_expiry a b = if ltb a b then a else b

-- The deadline that an entry's item has while the global window is `ttl`.
abbrev pub deadline : ℕ → Entry → ℕ
deadline ttl e = min_expiry e.expires (e.result.completed + ttl)

-- heap.Push, and heap.Init of items given anew.
unfoldable pub push : ℕ → ℕ → List (ℕ × ℕ) → List (ℕ × ℕ)
push k d [] = (k, d) ∷ []
push k d ((j, e) ∷ q) = if leb d e then (k, d) ∷ (j, e) ∷ q else (j, e) ∷ push k d q

unfoldable pub init : List (ℕ × ℕ) → List (ℕ × ℕ)
init [] = []
init ((k, d) ∷ q) = push k d (init q)

-- The items with the deadlines of a new window.
unfoldable pub reprice : ℕ → List (ℕ × Entry) → List (ℕ × ℕ) → List (ℕ × ℕ)
reprice ttl m [] = []
reprice ttl m ((k, d) ∷ q) =
    (k, elim (lookup k m) [ none ↦ d | some e ↦ deadline ttl e ]) ∷ reprice ttl m q

unfoldable pub set_ttl : ℕ → Cache → Cache
set_ttl ttl c = record c {
  options = record (c.options) { ttl = ttl };
  expirations =
      if c.options.ttl == ttl then c.expirations else init (reprice ttl c.entries c.expirations);
}

pub record Kept : Type 0 where
  pub queue : List (ℕ × ℕ)
  pub entries : List (ℕ × Entry)
  pub bytes : ℕ

-- The loop of reclaimExpired. `none` is the fault of reading an item's entry where there is none.
unfoldable pub reclaim : ℕ → List (ℕ × ℕ) → List (ℕ × Entry) → ℕ → Option Kept
reclaim now [] m b = some (record { queue = []; entries = m; bytes = b })
reclaim now ((k, d) ∷ q) m b =
    if ltb now d
    then some (record { queue = (k, d) ∷ q; entries = m; bytes = b })
    else elim (lookup k m) [
      | none ↦ none
      | some e ↦ reclaim now q (delete k m) (b - e.result.bytes)
    ]

-- How a lookup goes on.
pub data Found : Type 0 where
  hit : Snapshot → Found
  join lead : ℕ → Found
  slow bypass : Found

-- The test of both lookups: usable, and fresh or being refreshed.
abbrev pub serves : Cache → ℕ → ℕ → Entry → Bool
serves c k now e =
    usable e now c.options.ttl
    && (ltb now e.refresh_at || (elim (lookup k c.flights) [ none ↦ false | some i ↦ true ]))

abbrev pub served : Cache → ℕ → ℕ → Option Snapshot
served c k now = elim (lookup k c.entries) [
  | none ↦ none
  | some e ↦ if serves c k now e then some e.result else none
]

-- The checks of queryWithHash before any lock: the context, the eligibility of the statement with
-- the caller's bypass mark, and the key, which fails for arguments that have no encoding.
pub data Admission : Type 0 where
  expired bypassed : Admission
  looks_up : ℕ → Admission

unfoldable pub admission : Bool → Bool → Bool → Option ℕ → Cache → Admission × Cache
admission true eligible bypass_key k c = (expired, c)
admission false eligible bypass_key none c = (bypassed, count_bypassed c)
admission false eligible bypass_key (some k) c =
    if not eligible || bypass_key then (bypassed, count_bypassed c) else (looks_up k, c)

-- The lookup under the read lock.
unfoldable pub fast : ℕ → ℕ → Cache → Found × Cache
fast k now c =
    if ltb 0 c.options.ttl
    then (elim (served c k now) [
      | some s ↦ (hit s, count_hit c)
      | none ↦ elim (lookup k c.flights) [ some i ↦ (join i, count_shared c) | none ↦ (slow, c) ]
    ])
    else (slow, c)

abbrev pub disabled : Options → Bool
disabled o = o.ttl == 0 || o.max_entries == 0 || o.max_bytes == 0 || o.max_result_bytes == 0

-- A miss becomes the leader of a new flight, unless as many are under way as entries are allowed.
unfoldable pub lead_flight : ℕ → Cache → Found × Cache
lead_flight k c =
    if leb c.options.max_entries (length c.flights) then (bypass, count_bypassed c) else (
      lead c.next,
      record c {
        flights = insert k c.next c.flights;
        heap = λ i. if i == c.next then open_flight else c.heap i;
        next = suc c.next;
        counters = record (c.counters) { misses = c.counters.misses + 1 };
      },
    )

abbrev pub swept : Cache → Kept → Cache
swept c r = record c { entries = r.entries; expirations = r.queue; bytes = r.bytes }

-- The lookup under the write lock.
unfoldable pub locked : ℕ → ℕ → Cache → Option (Found × Cache)
locked k now c =
    if disabled c.options then some (bypass, count_bypassed c) else elim (served c k now) [
      | some s ↦ some (hit s, count_hit c)
      | none ↦ elim (lookup k c.flights) [
        | some i ↦ some (join i, count_shared c)
        | none ↦ elim (reclaim now c.expirations c.entries c.bytes) [
          | none ↦ none
          | some r ↦ some (lead_flight k (swept c r))
        ]
      ]
    ]

-- What the leader's read gave: an error with whether the leader's context is done, a complete
-- result, or one over the size limit, which is streamed and not kept.
pub data Read : Type 0 where
  failed : ℕ → Bool → Read
  captured : Snapshot → Read
  oversized : Read

abbrev pub landed : Read → Flight
landed (failed e canceled) = record {
  done = true;
  result = none;
  error = some e;
  canceled = canceled;
}
landed (captured s) = record { done = true; result = some s; error = none; canceled = false }
landed oversized = record { done = true; result = none; error = none; canceled = false }

-- The entry that a result becomes. `o` are the options the leader read when its flight began.
abbrev pub stored : Options → ℕ → Snapshot → Entry
stored o started s = record {
  result = s;
  expires = s.completed + o.ttl;
  refresh_at = s.completed + o.ttl - min (2 * (s.completed - started)) (o.ttl / 4);
}

abbrev pub size_of : Option Entry → ℕ
size_of none = 0
size_of (some e) = e.result.bytes

abbrev pub slots_of : Option Entry → ℕ
slots_of none = 0
slots_of (some e) = 1

unfoldable pub store : Options → ℕ → ℕ → Snapshot → Cache → Cache
store o k started s c =
    if ltb (length c.entries - slots_of (lookup k c.entries)) o.max_entries
      && leb (c.bytes - size_of (lookup k c.entries) + s.bytes) o.max_bytes
    then record c {
      entries = insert k (stored o started s) c.entries;
      expirations = push k (deadline c.options.ttl (stored o started s)) (delete k c.expirations);
      bytes = c.bytes - size_of (lookup k c.entries) + s.bytes;
    }
    else count_bypassed c

-- A failed refresh of a result that is still usable keeps it, and serves it to its own caller.
unfoldable pub fall_back : ℕ → ℕ → Cache → Option Snapshot × Cache
fall_back k now c = elim (lookup k c.entries) [
  | none ↦ (none, c)
  | some e ↦
      if ltb 0 c.options.ttl && usable e now c.options.ttl
      then (
        some e.result,
        record c { entries = insert k (record e { refresh_at = e.expires }) c.entries },
      )
      else (none, c)
]

abbrev pub land : ℕ → ℕ → Read → Cache → Cache
land k i r c = record c {
  flights = delete k c.flights;
  heap = λ j. if j == i then landed r else c.heap j;
}

-- The leader's last critical section.
unfoldable pub complete : Options → ℕ → ℕ → ℕ → ℕ → Read → Cache → Option Snapshot × Cache
complete o k i started now (failed e true) c = (none, land k i (failed e true) c)
complete o k i started now (failed e false) c = fall_back k now (land k i (failed e false) c)
complete o k i started now (captured s) c = (none, store o k started s (land k i (captured s) c))
complete o k i started now oversized c = (none, count_bypassed (land k i oversized c))

-- What a waiter does with the flight it joined; the flag is whether its select took the case of the
-- finished context.
pub data Awaited : Type 0 where
  stops retries runs waits : Awaited
  fails : ℕ → Awaited
  reads : Snapshot → Awaited

unfoldable pub await : Bool → Flight → Awaited
await true f = stops
await false f =
    if f.done
    then (elim f.error [
      | some e ↦ if f.canceled then retries else fails e
      | none ↦ elim f.result [ some s ↦ reads s | none ↦ runs ]
    ])
    else waits
