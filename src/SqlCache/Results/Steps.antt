-- ===== src/SqlCache/Results/Steps.antt =====
-- db/sqlcache/cache.go: the critical sections of all goroutines, in any order.
use mathlib.Core.Path.{subst, sym, ◌∙◌}
use request_generator.Common.{some_inj, ℕ, ◌≡◌, some}
use request_generator.Common.Assoc.{lookup}
use request_generator.SqlCache.Results.{
  Cache, Options, Found, Read, new, fast, locked, complete, set_ttl,
}
use request_generator.SqlCache.Results.Sections.{fast-Inv, locked-Inv, complete-Inv}
use request_generator.SqlCache.Results.Invariant.{Inv, new-Inv, set_ttl-Inv}

-- Only the leader of a flight completes it. Its options are those of its lookup: what may have
-- changed since is the window, which SetTTL alone writes.
pub data Step : Cache → Cache → Type 0 where
  looks : (c : Cache) (k now : ℕ) → Step c (fast k now c).1
  locks : (c : Cache) (k now : ℕ) (r : Found × Cache) → locked k now c ≡ some r → Step c r.1
  completes :
      (c : Cache) (ttl k i started now : ℕ) (r : Read)
      → lookup k c.flights ≡ some i
      → Step c (complete (record (c.options) { ttl = ttl }) k i started now r c).1
  sets : (c : Cache) (ttl : ℕ) → Step c (set_ttl ttl c)

pub data Reach (c : Cache) : Cache → Type 0 where
  here : Reach c c
  next : {d e : Cache} → Reach c d → Step d e → Reach c e

pub Step-Inv : {c d : Cache} → Step c d → Inv c → Inv d
Step-Inv (looks c k now) v = fast-Inv c v k now
Step-Inv (locks c k now r e) v =
    let (r', e', w) = locked-Inv c v k now in
    subst (λ (x : Found × Cache). Inv x.1) (some_inj (sym e' ∙ e)) w
Step-Inv (completes c ttl k i started now r e) v = complete-Inv c v ttl k i started now r e
Step-Inv (sets c ttl) v = set_ttl-Inv c v ttl

pub Reach-Inv : (o : Options) {c : Cache} → Reach (new o) c → Inv c
Reach-Inv o here = new-Inv o
Reach-Inv o (next r st) = Step-Inv st (Reach-Inv o r)
