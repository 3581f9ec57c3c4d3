-- ===== src/SqlCache/Plans/Steps.antt =====
-- db/sqlcache/pool.go: the critical sections of all goroutines, in any order. `leases` are the
-- references that goroutines hold; `text` is the text for which an object was allocated, which
-- each of its holders passes to `release`.
use request_generator.Common.{
  ℕ, ◌<◌, ◌≡◌, ◌⊎◌, Option, some, true, false, List, [], ◌∷◌, ◌==◌, if◌then◌else◌, count, remove,
}
use request_generator.SqlCache.Plans.{Plans, new, acquire, prepared, release, close}

pub record System : Type 0 where
  pub plans : Plans
  pub leases : List ℕ
  pub text : ℕ → ℕ

abbrev pub acquired : ℕ → System → System
acquired q s = record {
  plans = (acquire q s.plans).1;
  leases = (acquire q s.plans).0 ∷ s.leases;
  text = λ j. if j == (acquire q s.plans).0 then q else s.text j;
}

-- An object is prepared once, by its first holder, who releases it afterwards only.
pub data Step : System → System → Type 0 where
  acquires : (s : System) (q : ℕ) → Step s (acquired q s)
  prepares :
      (s : System) (i : ℕ) (r : Option ℕ)
      → 0 < count i s.leases
      → (s.plans.heap i).ready ≡ false
      → Step s (record s { plans = prepared i r s.plans })
  releases :
      (s : System) (i : ℕ) (p : Plans)
      → 0 < count i s.leases
      → ((s.plans.heap i).ready ≡ true) ⊎ (1 < count i s.leases)
      → release (s.text i) i s.plans ≡ some p
      → Step s (record s { plans = p; leases = remove i s.leases })
  closes : (s : System) (p : Plans) → close s.plans ≡ some p → Step s (record s { plans = p })

pub data Reach (s : System) : System → Type 0 where
  here : Reach s s
  next : {t u : System} → Reach s t → Step t u → Reach s u

abbrev pub start : System
start = record { plans = new; leases = []; text = λ i. 0 }
