-- ===== src/SqlCache/Plans/Reachable.antt =====
-- db/sqlcache/pool.go: the invariant of the shared statements in every reachable state.
use mathlib.Core.Path.{subst}
use request_generator.Common.{
  ℕ, ◌-◌, ◌<◌, ◌≡◌, refl, sym, ◌∙◌, inl, inr, ◌⊎◌, true, false, ◌||◌, Option, none, some, [], ◌==◌,
  count, remove, Bool-cases, Option-cases, some_inj, arith,
}
use request_generator.Common.Assoc.{lookup}
use request_generator.SqlCache.Plans.{
  Plans, max_idle, new, reuse, allocate, acquire, prepared, drop_ref, discard, park, release, close,
}
use request_generator.SqlCache.Plans.Invariant.{
  Inv, prepared-Inv, drop_ref-Inv, discard-Inv, park-Inv,
}
use request_generator.SqlCache.Plans.Steps.{
  System, Step, acquires, prepares, releases, closes, Reach, here, next, acquired, start,
}
use request_generator.SqlCache.Plans.Preserved.{allocate-Inv, same_text, trim-Inv, drain-Inv}

pub record Good (s : System) : Type 0 where
  pub inv : Inv max_idle s.plans s.leases s.text
  pub shut : s.plans.closed ≡ true → s.plans.idle ≡ []

release-Good :
    (s : System) (i : ℕ)
    → Good s
    → 0 < count i s.leases
    → ((s.plans.heap i).ready ≡ true) ⊎ (1 < count i s.leases)
    → (p : Plans) × (release (s.text i) i s.plans ≡ some p)
      × Good (record s { plans = p; leases = remove i s.leases })
unfolding release discard park
release-Good s i g h ready = elim (Bool-cases ((s.plans.heap i).refs - 1 == 0)) [
  | inr others ↦ (
    drop_ref i s.plans,
    rw others,
    record {
      inv = drop_ref-Inv max_idle s.plans s.leases s.text v i (ground (arith, v.counted i));
      shut = g.shut;
    },
  )
  | inl last ↦
      let one : count i s.leases ≡ 1 = ground (arith, v.counted i) in
      let set : (s.plans.heap i).ready ≡ true = ground arith in
      elim (Bool-cases (s.plans.closed || (s.plans.heap i).failed)) [
        | inl dropped ↦ (
          discard (s.text i) i (drop_ref i s.plans),
          rw last (rw dropped),
          record { inv = discard-Inv max_idle s.plans s.leases s.text v i one set; shut = g.shut },
        )
        | inr kept ↦
            let (r, done, w, c) =
              trim-Inv (park (s.text i) i (drop_ref i s.plans)) (remove i s.leases) s.text
                (park-Inv max_idle s.plans s.leases s.text v i one set (ground arith)) in
            (r, rw last (rw kept done), record { inv = w; shut = λ e. absurd (ground arith) })
      ]
]
  where
    v : Inv max_idle s.plans s.leases s.text
    v = g.inv

close-Good :
    (s : System) → Good s → (p : Plans) × (close s.plans ≡ some p) × Good (record s { plans = p })
unfolding close
close-Good s g =
    let (r, done, w, c) =
      drain-Inv max_idle s.plans.idle (record (s.plans) { closed = true }) s.leases s.text
        (record {
          known = g.inv.known;
          leased = g.inv.leased;
          counted = g.inv.counted;
          parked = g.inv.parked;
          prepared_idle = g.inv.prepared_idle;
          in_preparation = g.inv.in_preparation;
          few = g.inv.few;
          once = g.inv.once;
        }) in
    (record r { idle = [] }, rw (done, close), record { inv = w; shut = λ e. refl })

acquire-Good : (s : System) (q : ℕ) → Good s → Good (acquired q s)
unfolding acquire
acquire-Good s q g = elim (Option-cases (lookup q s.plans.statements)) [
  | inr (i, e) ↦
      rw (e, acquire)
        (record {
          inv = same_text max_idle s.plans s.leases s.text g.inv q i e;
          shut = unfold reuse remove in λ c. ground (arith, g.shut c);
        })
  | inl e ↦
      rw (e, acquire)
        (record {
          inv = allocate-Inv max_idle s.plans s.leases s.text g.inv q e;
          shut = unfold allocate in g.shut;
        })
]

prepared-Good :
    (s : System) (i : ℕ) (r : Option ℕ)
    → Good s
    → 0 < count i s.leases
    → (s.plans.heap i).ready ≡ false
    → Good (record s { plans = prepared i r s.plans })
unfolding prepared
prepared-Good s i none g h e = record {
  inv = prepared-Inv max_idle s.plans s.leases s.text g.inv i none h e;
  shut = g.shut;
}
prepared-Good s i (some x) g h e = record {
  inv = prepared-Inv max_idle s.plans s.leases s.text g.inv i (some x) h e;
  shut = g.shut;
}

-- Neither `release` nor Close faults in a good state.
pub release-some :
    (s : System) (i : ℕ)
    → Good s
    → 0 < count i s.leases
    → ((s.plans.heap i).ready ≡ true) ⊎ (1 < count i s.leases)
    → (p : Plans) × (release (s.text i) i s.plans ≡ some p)
release-some s i g h ready = let (p, e, w) = release-Good s i g h ready in (p, e)

pub close-some : (s : System) → Good s → (p : Plans) × (close s.plans ≡ some p)
close-some s g = let (p, e, w) = close-Good s g in (p, e)

Step-Good : {s t : System} → Step s t → Good s → Good t
Step-Good (acquires s q) g = acquire-Good s q g
Step-Good (prepares s i r h e) g = prepared-Good s i r g h e
Step-Good (releases s i p h ready e) g =
    let (r, done, w) = release-Good s i g h ready in
    subst (λ x. Good (record s { plans = x; leases = remove i s.leases })) (some_inj (sym done ∙ e))
      w
Step-Good (closes s p e) g =
    let (r, done, w) = close-Good s g in
    subst (λ x. Good (record s { plans = x })) (some_inj (sym done ∙ e)) w

start-Good : Good start
unfolding new lookup count
start-Good = record {
  inv = record {
    known = λ q i e. absurd (ground arith);
    leased = λ i h. absurd (omega arith);
    counted = λ i. refl;
    parked = λ q. refl;
    prepared_idle = λ q i e h. absurd (ground arith);
    in_preparation = λ i h e. absurd (omega arith);
    few = omega arith;
    once = λ i. ground arith;
  };
  shut = λ e. refl;
}

pub Reach-Good : {s : System} → Reach start s → Good s
Reach-Good here = start-Good
Reach-Good (next r st) = Step-Good st (Reach-Good r)
