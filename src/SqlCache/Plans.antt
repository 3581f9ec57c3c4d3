-- ===== src/SqlCache/Plans.antt =====
-- db/sqlcache/pool.go: poolConnector, the prepared statements that logical connections share.
-- A text is a number, a statement object stands in a heap under the number of its allocation, and
-- each function is what one goroutine does under the mutex. `closes` lists the objects whose
-- statement was handed to Close. `none` for a whole step is a nil dereference.
pub mod Steps
pub mod Invariant
pub mod Preserved
pub mod Reachable
pub mod Properties
pub mod Tests
use request_generator.Common.{
  ℕ, suc, ◌+◌, ◌-◌, Bool, true, false, ◌&&◌, ◌||◌, Option, none, some, List, [], ◌∷◌, ◌++◌, ltb,
  ◌==◌, if◌then◌else◌, length, remove,
}
use request_generator.Common.Assoc.{lookup, delete, insert}

pub record Statement : Type 0 where
  pub ready : Bool
  pub stmt : Option ℕ
  pub failed : Bool
  pub refs : ℕ
  pub idle : Bool

pub record Counters : Type 0 where
  pub prepares : ℕ
  pub reuses : ℕ
  pub evictions : ℕ
  pub errors : ℕ

pub record Plans : Type 0 where
  pub statements : List (ℕ × ℕ)
  pub idle : List ℕ
  pub closed : Bool
  pub heap : ℕ → Statement
  pub next : ℕ
  pub closes : List ℕ
  pub counters : Counters

abbrev pub max_idle : ℕ
max_idle = 64

abbrev pub update : (ℕ → Statement) → ℕ → Statement → ℕ → Statement
update h i e j = if j == i then e else h j

abbrev pub unprepared : ℕ → Statement
unprepared refs = record { ready = false; stmt = none; failed = false; refs = refs; idle = false }

unfoldable pub new : Plans
new = record {
  statements = [];
  idle = [];
  closed = false;
  heap = λ i. unprepared 0;
  next = 0;
  closes = [];
  counters = record { prepares = 0; reuses = 0; evictions = 0; errors = 0 };
}

-- The first critical section of `prepare` where the text is known: one more reference.
unfoldable pub reuse : ℕ → ℕ → Plans → Plans
reuse q i p = record p {
  counters = record (p.counters) { reuses = p.counters.reuses + 1 };
  idle = if (p.heap i).idle then remove q p.idle else p.idle;
  heap = update p.heap i (record (p.heap i) { idle = false; refs = (p.heap i).refs + 1 });
}

-- And where it is not: a new object, which its caller goes on to prepare.
unfoldable pub allocate : ℕ → Plans → Plans
allocate q p = record p {
  counters = record (p.counters) { prepares = p.counters.prepares + 1 };
  statements = insert q p.next p.statements;
  heap = update p.heap p.next (unprepared 1);
  next = suc p.next;
}

-- The object that the caller then refers to, and the registry.
unfoldable pub acquire : ℕ → Plans → ℕ × Plans
acquire q p = elim (lookup q p.statements) [
  | some i ↦ (i, reuse q i p)
  | none ↦ (p.next, allocate q p)
]

-- The second critical section of `prepare`, with what PrepareContext returned.
unfoldable pub prepared : ℕ → Option ℕ → Plans → Plans
prepared i none p = record p {
  counters = record (p.counters) { errors = p.counters.errors + 1 };
  heap = update p.heap i (record (p.heap i) { ready = true; stmt = none; failed = true });
}
prepared i (some s) p = record p {
  heap = update p.heap i (record (p.heap i) { ready = true; stmt = some s; failed = false });
}

-- Close is called on a statement, and not on nil.
abbrev pub expire : ℕ → Option ℕ → List ℕ → List ℕ
expire i none cl = cl
expire i (some s) cl = i ∷ cl

abbrev pub drop_ref : ℕ → Plans → Plans
drop_ref i p = record p {
  heap = update p.heap i (record (p.heap i) { refs = (p.heap i).refs - 1 });
}

-- The last reference to a statement that is not kept.
unfoldable pub discard : ℕ → ℕ → Plans → Plans
discard q i p = record p {
  statements = delete q p.statements;
  closes = expire i (p.heap i).stmt p.closes;
}

unfoldable pub park : ℕ → ℕ → Plans → Plans
park q i p = record p {
  idle = p.idle ++ q ∷ [];
  heap = update p.heap i (record (p.heap i) { idle = true });
}

-- Over the limit, the statement that has been idle longest is dropped.
abbrev pub trim_front : Plans → List ℕ → Option Plans
trim_front p [] = none
trim_front p (k ∷ rest) = elim (lookup k p.statements) [
  | none ↦ none
  | some j ↦ some (record p {
    statements = delete k p.statements;
    idle = rest;
    closes = expire j (p.heap j).stmt p.closes;
    counters = record (p.counters) { evictions = p.counters.evictions + 1 };
  })
]

unfoldable pub trim : Plans → Option Plans
trim p = if ltb max_idle (length p.idle) then trim_front p p.idle else some p

unfoldable pub release : ℕ → ℕ → Plans → Option Plans
release q i p =
    if (p.heap i).refs - 1 == 0
    then (if p.closed || (p.heap i).failed
        then some (discard q i (drop_ref i p))
        else trim (park q i (drop_ref i p)))
    else some (drop_ref i p)

-- The loop of Close over the idle texts.
unfoldable pub drain : List ℕ → Plans → Option Plans
drain [] p = some p
drain (k ∷ rest) p = elim (lookup k p.statements) [
  | none ↦ none
  | some j ↦
      drain rest (record p {
        statements = delete k p.statements;
        closes = expire j (p.heap j).stmt p.closes;
      })
]

unfoldable pub close : Plans → Option Plans
close p = elim (drain p.idle (record p { closed = true })) [
  | none ↦ none
  | some r ↦ some (record r { idle = [] })
]

-- How `prepare` ends for a caller that waited: whether its context is done, and the object.
pub data Waited : Type 0 where
  gives_up fails blocks uses : Waited

unfoldable pub wait : Bool → Statement → Waited
wait true s = gives_up
wait false s = if s.ready then (if s.failed then fails else uses) else blocks
