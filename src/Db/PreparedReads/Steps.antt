-- ===== src/Db/PreparedReads/Steps.antt =====
-- db/prepared_views.go: the critical sections of all goroutines, in any order. A lease is an entry
-- that `statement` returned and that its reader has not released yet.
use request_generator.Common.{ℕ, ◌<◌, Bool, Option, none, some, List, [], ◌∷◌, count, remove}
use request_generator.Db.PreparedReads.{Cache, Outcome, hit, new, begin, finish, release, close}

pub record System : Type 0 where
  pub cache : Cache
  pub leases : List ℕ

abbrev pub leased : Outcome → List ℕ → List ℕ
leased (hit i) l = i ∷ l
leased o l = l

abbrev pub granted : Option ℕ → List ℕ → List ℕ
granted (some i) l = i ∷ l
granted none l = l

abbrev pub begun : Bool → ℕ → System → System
begun ctx q s = record {
  cache = (begin ctx q s.cache).1;
  leases = leased (begin ctx q s.cache).0 s.leases;
}

abbrev pub finished : ℕ → Option ℕ → System → System
finished q r s = record {
  cache = (finish q r s.cache).1;
  leases = granted (finish q r s.cache).0 s.leases;
}

abbrev pub released : ℕ → System → System
released i s = record { cache = release i s.cache; leases = remove i s.leases }

-- Only the goroutine that reserved a text finishes it, and only a holder releases an entry.
pub data Step : System → System → Type 0 where
  begins : (s : System) (ctx : Bool) (q : ℕ) → Step s (begun ctx q s)
  finishes :
      (s : System) (q : ℕ) (r : Option ℕ) → 0 < count q s.cache.pending → Step s (finished q r s)
  releases : (s : System) (i : ℕ) → 0 < count i s.leases → Step s (released i s)
  closes : (s : System) → Step s (record s { cache = close s.cache })

pub data Reach (s : System) : System → Type 0 where
  here : Reach s s
  next : {t u : System} → Reach s t → Step t u → Reach s u

-- NewDBWithPreparedReads with a positive limit.
abbrev pub start : ℕ → System
start limit = record { cache = new limit; leases = [] }
