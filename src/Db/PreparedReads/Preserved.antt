-- ===== src/Db/PreparedReads/Preserved.antt =====
-- db/prepared_views.go: every critical section keeps the invariant, in whatever order they run.
use mathlib.Core.List.{reverse}
use request_generator.Common.{
  ℕ, ◌+◌, ◌<◌, ◌≡◌, refl, inl, inr, Bool, true, false, Option, none, some, List, ◌∷◌, ltb, leb,
  ◌==◌, if◌then◌else◌, Bool-cases, Option-cases, length, count, remove, count-remove, length-remove,
  arith,
}
use request_generator.Common.Assoc.{
  lookup, insert, lookup-delete, lookup-insert, delete_absent, length-insert,
}
use request_generator.Db.PreparedReads.{
  Cache, evict, reserve, miss, idle_from, begin, admit, admit_late, finish, release, close,
}
use request_generator.Db.PreparedReads.Ids.{
  held, Named-update, Named-insert, idle_from-reverse, retire-users, retire-retired, count-retire,
}
use request_generator.Db.PreparedReads.Invariant.{
  Inv, new-Inv, touch-Inv, refuse-Inv, reserve-Inv, evict-Inv, evict_frees,
}
use request_generator.Db.PreparedReads.Steps.{
  System, Step, begins, finishes, releases, closes, Reach, here, next, leased, granted, start,
}

module _ (c : Cache) (l : List ℕ) (v : Inv c l) where
  miss-Inv :
      (q : ℕ)
      → lookup q c.statements ≡ none
      → count q c.pending ≡ 0
      → Inv (miss q c).1 (leased (miss q c).0 l)
  unfolding miss evict
  miss-Inv q e f = elim (Bool-cases (leb c.limit (length c.statements + length c.pending))) [
    | inr room ↦ rw room (reserve-Inv c l v q e f (ground arith))
    | inl full ↦ elim (Option-cases (idle_from c.heap (reverse c.recent))) [
      | inl busy ↦ rw full (rw (busy, miss) (refuse-Inv c l v))
      | inr (i, oldest) ↦
          rw full (rw oldest (evicts i (idle_from-reverse c.heap i c.recent oldest)))
    ]
  ]
    where
      evicts :
          (i : ℕ) → ((c.heap i).users ≡ 0) × (0 < count i c.recent) → Inv (reserve q (evict i c)) l
      evicts i (idle, member) =
          reserve-Inv (evict i c) l (evict-Inv c l v i idle member) q
            (ground (arith, lookup-delete q (c.heap i).query c.statements)) f
            (evict_frees c l v i idle member)

  pub begin-Inv : (ctx : Bool) (q : ℕ) → Inv (begin ctx q c).1 (leased (begin ctx q c).0 l)
  unfolding begin
  begin-Inv true q = v
  begin-Inv false q = elim (Option-cases (lookup q c.statements)) [
    | inr (i, e) ↦ rw (e, begin) (touch-Inv c l v q i e)
    | inl e ↦ elim (Bool-cases (ltb 0 (count q c.pending))) [
      | inl p ↦ rw (e, begin) (rw p v)
      | inr p ↦ rw (e, begin) (rw p (miss-Inv q e (ground arith)))
    ]
  ]

  -- A failed preparation frees its slot.
  fail-Inv :
      (q : ℕ) → 0 < count q c.pending → Inv (finish q none c).1 (granted (finish q none c).0 l)
  unfolding finish
  fail-Inv q p = record {
    named = v.named;
    found = v.found;
    live = v.live;
    listed = v.listed;
    absent = λ r s. v.absent r (omega (arith, count-remove r q c.pending p));
    once = λ r. omega (arith, v.once r, count-remove r q c.pending p);
    counted = v.counted;
    closed = v.closed;
    unborn = v.unborn;
    bounded = λ r. omega (arith, v.bounded r, length-remove q c.pending p);
    emptied = v.emptied;
  }

  module _ (q stmt : ℕ) (p : 0 < count q c.pending) where
    new_absent : held c.next c.statements ≡ 0
    new_absent = ground (arith, v.live c.next, v.unborn c.next)

    held-insert :
        (j : ℕ)
        → held j (insert q c.next c.statements)
          ≡ (if j == c.next then 1 else 0) + held j c.statements
    unfolding insert held
    held-insert j = rw (delete_absent q c.statements (v.absent q p))

    admit-Inv : 0 < c.limit → Inv (admit q stmt c) (c.next ∷ l)
    unfolding admit count
    admit-Inv h = record {
      named =
          Named-insert (admit q stmt c).heap q c.next c.statements (ground arith)
            (Named-update c.heap c.next _ c.statements (inr new_absent) v.named);
      found = λ j r. ground (
        arith,
        v.found j,
        v.absent q p,
        held-insert j,
        new_absent,
        lookup-insert (c.heap j).query q c.next c.statements,
        lookup-insert q q c.next c.statements,
      );
      live = λ j. ground (arith, held-insert j, v.live j, new_absent);
      listed = λ j. ground (arith, held-insert j, v.listed j);
      absent = λ r s. ground (
        arith,
        v.absent r,
        v.once q,
        count-remove r q c.pending p,
        lookup-insert r q c.next c.statements,
      );
      once = λ r. omega (arith, v.once r, count-remove r q c.pending p);
      counted = λ j. ground (arith, v.counted j, v.unborn c.next);
      closed = λ j. ground (arith, v.closed j, v.unborn j);
      unborn = λ j s. ground (arith, v.unborn j);
      bounded = λ r.
          omega
            (arith, v.bounded r, length-remove q c.pending p, length-insert q c.next c.statements);
      emptied = λ r. absurd (omega arith);
    }

    admit_late-Inv : c.limit ≡ 0 → Inv (admit_late q stmt c) (c.next ∷ l)
    unfolding admit_late count
    admit_late-Inv h = record {
      named = Named-update c.heap c.next _ c.statements (inr new_absent) v.named;
      found = λ j r. ground (arith, v.found j, new_absent);
      live = λ j. ground (arith, v.live j, new_absent);
      listed = v.listed;
      absent = λ r s. v.absent r (omega (arith, count-remove r q c.pending p));
      once = λ r. omega (arith, v.once r, count-remove r q c.pending p);
      counted = λ j. ground (arith, v.counted j, v.unborn c.next);
      closed = λ j. ground (arith, v.closed j, v.unborn j);
      unborn = λ j s. ground (arith, v.unborn j);
      bounded = λ r. absurd (omega arith);
      emptied = v.emptied;
    }

  pub finish-Inv :
      (q : ℕ) (r : Option ℕ)
      → 0 < count q c.pending
      → Inv (finish q r c).1 (granted (finish q r c).0 l)
  unfolding finish
  finish-Inv q none p = fail-Inv q p
  finish-Inv q (some stmt) p = elim (Bool-cases (ltb 0 c.limit)) [
    | inl e ↦ rw e (admit-Inv q stmt p (ground arith))
    | inr e ↦ rw e (admit_late-Inv q stmt p (ground arith))
  ]

  pub release-Inv : (i : ℕ) → 0 < count i l → Inv (release i c) (remove i l)
  unfolding release count
  release-Inv i h = record {
    named = Named-update c.heap i _ c.statements (inl refl) v.named;
    found = λ j p. ground (arith, v.found j);
    live = λ j. ground (arith, v.live j);
    listed = v.listed;
    absent = v.absent;
    once = v.once;
    counted = λ j. ground (arith, v.counted j, v.counted i, count-remove j i l h);
    closed = λ j. ground (arith, v.closed j, v.closed i, v.counted i, v.unborn i);
    unborn = λ j p. ground (arith, v.unborn j, v.counted i);
    bounded = v.bounded;
    emptied = v.emptied;
  }

  pub close-Inv : Inv (close c) l
  unfolding close held lookup count
  close-Inv = record {
    named = tt;
    found = λ j p. absurd (omega arith);
    live = λ j. ground (arith, retire-retired j c.statements c.heap c.closes, v.live j);
    listed = λ j. refl;
    absent = λ q p. refl;
    once = v.once;
    counted = λ j. ground (arith, retire-users j c.statements c.heap c.closes, v.counted j);
    closed = λ j. ground (
      arith,
      retire-retired j c.statements c.heap c.closes,
      retire-users j c.statements c.heap c.closes,
      count-retire j c.statements c.heap c.closes,
      v.live j,
      v.closed j,
      v.unborn j,
    );
    unborn = λ j p. ground (
      arith,
      retire-retired j c.statements c.heap c.closes,
      retire-users j c.statements c.heap c.closes,
      v.unborn j,
    );
    bounded = λ p. absurd (omega arith);
    emptied = λ p. (refl, refl);
  }

pub Step-Inv : {s t : System} → Step s t → Inv s.cache s.leases → Inv t.cache t.leases
Step-Inv (begins s ctx q) v = begin-Inv s.cache s.leases v ctx q
Step-Inv (finishes s q r p) v = finish-Inv s.cache s.leases v q r p
Step-Inv (releases s i p) v = release-Inv s.cache s.leases v i p
Step-Inv (closes s) v = close-Inv s.cache s.leases v

-- The invariant holds whatever the goroutines do.
pub Reach-Inv : {limit : ℕ} {s : System} → 0 < limit → Reach (start limit) s → Inv s.cache s.leases
Reach-Inv {limit = n} h here = new-Inv n h
Reach-Inv h (next r st) = Step-Inv st (Reach-Inv h r)
