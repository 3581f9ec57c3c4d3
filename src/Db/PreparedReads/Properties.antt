-- ===== src/Db/PreparedReads/Properties.antt =====
-- db/prepared_views.go: what the cache of prepared reads promises to its callers.
use mathlib.Core.List.{reverse, reverse-append, reverse-cons, reverse-reverse, append_assoc}
use mathlib.Core.Path.{subst}
use request_generator.Common.{
  ℕ, ◌+◌, ◌≤◌, ◌<◌, ◌≡◌, refl, ap, sym, ◌∙◌, inl, inr, ◌++◌, false, none, some, List, [], ◌∷◌, ◌==◌,
  Bool-cases, Option-cases, length, count, All, All-reverse, arith,
}
use request_generator.Common.Assoc.{lookup}
use request_generator.Db.PreparedReads.{
  Cache, bypass, prepare, hit, evict, reserve, miss, idle_from, begin, touch, report,
}
use request_generator.Db.PreparedReads.Ids.{held, held-lookup, query-lookup}
use request_generator.Db.PreparedReads.Preserved.{Reach-Inv}
use request_generator.Db.PreparedReads.Steps.{System, Reach, start}

-- Whatever the goroutines do, a statement that a reader holds has not been handed to Close.
pub leased-open :
    (limit : ℕ) (s : System) (i : ℕ)
    → 0 < limit
    → Reach (start limit) s
    → 0 < count i s.leases
    → count i s.cache.closes ≡ 0
leased-open limit s i h r held = let v = Reach-Inv h r in ground (arith, v.closed i, v.counted i)

-- Once the cache is closed and every reader has released its entry, each statement that was ever
-- prepared has been handed to Close exactly once.
pub drained-closed :
    (limit : ℕ) (s : System) (i : ℕ)
    → 0 < limit
    → Reach (start limit) s
    → s.cache.limit ≡ 0
    → s.leases ≡ []
    → i < s.cache.next
    → count i s.cache.closes ≡ 1
unfolding count held
drained-closed limit s i h r shut drained made =
    let v = Reach-Inv h r in ground (arith, v.closed i, v.counted i, v.live i, v.emptied shut)

-- Before the cache is closed, the entries it retains and the preparations in flight together never
-- exceed its capacity.
report-bounded :
    (limit : ℕ) (s : System)
    → 0 < limit
    → Reach (start limit) s
    → 0 < (report s.cache).capacity
    → (report s.cache).entries + (report s.cache).waiting ≤ (report s.cache).capacity
unfolding report
report-bounded limit s h r p = let v = Reach-Inv h r in v.bounded p

-- A text has at most one preparation in flight, and none while the cache retains an entry for it.
pending-once :
    (limit : ℕ) (s : System) (q : ℕ)
    → 0 < limit
    → Reach (start limit) s
    → (count q s.cache.pending ≤ 1)
      × (0 < count q s.cache.pending → lookup q s.cache.statements ≡ none)
pending-once limit s q h r = let v = Reach-Inv h r in (v.once q, v.absent q)

-- A hit returns an entry that was prepared for the text asked for, and whose statement is open;
-- the caller becomes one more of its users.
begin-hit :
    (limit : ℕ) (s : System) (q i : ℕ)
    → 0 < limit
    → Reach (start limit) s
    → (begin false q s.cache).0 ≡ hit i
    → ((s.cache.heap i).query ≡ q)
      × (count i s.cache.closes ≡ 0)
      × (((begin false q s.cache).1.heap i).users ≡ (s.cache.heap i).users + 1)
unfolding begin miss touch
begin-hit limit s q i h r e =
    let v = Reach-Inv h r in
    ground (
      arith,
      v.closed i,
      v.live i,
      held-lookup q i s.cache.statements,
      query-lookup s.cache.heap q i s.cache.statements v.named,
    )

abbrev pub AllBusy : Cache → List ℕ → Type 0
AllBusy c = All (λ i. 0 < (c.heap i).users)

none_busy : (c : Cache) (xs : List ℕ) → idle_from c.heap xs ≡ none → AllBusy c xs
unfolding idle_from
none_busy c [] e = tt
none_busy c (x ∷ xs) e = ground (arith, none_busy c xs)

some_split :
    (c : Cache) (i : ℕ) (xs : List ℕ)
    → idle_from c.heap xs ≡ some i
    → (before : List ℕ) × (after : List ℕ) × (xs ≡ before ++ i ∷ after)
      × AllBusy c before
      × ((c.heap i).users ≡ 0)
unfolding idle_from
some_split c i [] e = cc
some_split c i (x ∷ xs) e = elim (Bool-cases ((c.heap x).users == 0)) [
  | inl free ↦ ([], xs, ground arith, tt, ground arith)
  | inr busy ↦
      let (before, after, split, all, idle) = some_split c i xs (ground arith) in
      (x ∷ before, after, ap (◌∷◌ x) split, (ground arith, all), idle)
]

reverse_split :
    (i : ℕ) (xs before after : List ℕ)
    → reverse xs ≡ before ++ i ∷ after
    → xs ≡ reverse after ++ i ∷ reverse before
reverse_split i xs before after e =
    sym (reverse-reverse xs)
    ∙ ap reverse e
    ∙ reverse-append before (i ∷ after)
    ∙ rw (reverse-cons i after, append_assoc) refl

-- A miss on a full cache evicts the least recently used of the entries that nobody holds: every
-- entry used less recently is held by a reader.
miss-evicts :
    (c : Cache) (q : ℕ)
    → c.limit ≤ length c.statements + length c.pending
    → (miss q c).0 ≡ prepare
    → (newer : List ℕ) × (i : ℕ) × (older : List ℕ) × (c.recent ≡ newer ++ i ∷ older)
      × ((c.heap i).users ≡ 0)
      × AllBusy c older
      × ((miss q c).1 ≡ reserve q (evict i c))
unfolding miss
miss-evicts c q full e = elim (Option-cases (idle_from c.heap (reverse c.recent))) [
  | inl busy ↦ absurd (ground arith)
  | inr (i, oldest) ↦
      let (before, after, split, all, idle) = some_split c i (reverse c.recent) oldest in
      (
        reverse after,
        i,
        reverse before,
        reverse_split i c.recent before after split,
        idle,
        All-reverse (λ j. 0 < (c.heap j).users) before all,
        ground arith,
      )
]

-- A miss runs without a prepared statement only where the cache is full and a reader holds every
-- entry that it retains.
miss-bypass :
    (c : Cache) (q : ℕ)
    → (miss q c).0 ≡ bypass
    → (c.limit ≤ length c.statements + length c.pending) × AllBusy c c.recent
unfolding miss
miss-bypass c q e = elim (Option-cases (idle_from c.heap (reverse c.recent))) [
  | inl busy ↦ (
    ground arith,
    subst (AllBusy c) (reverse-reverse c.recent) (
        All-reverse (λ j. 0 < (c.heap j).users) (reverse c.recent)
          (none_busy c (reverse c.recent) busy)),
  )
  | inr (i, oldest) ↦ absurd (ground arith)
]
