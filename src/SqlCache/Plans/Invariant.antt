-- ===== src/SqlCache/Plans/Invariant.antt =====
-- db/sqlcache/pool.go: how the shared statements, their references and the idle list agree.
use request_generator.Common.{
  ℕ, ◌+◌, ◌≤◌, ◌<◌, ◌≡◌, Bool, true, false, not, ◌&&◌, Option, none, some, List, [], ◌∷◌, ltb, ◌==◌,
  if◌then◌else◌, length, length-append, count, count-append, remove, count-remove, length-remove,
  arith,
}
use request_generator.Common.Assoc.{lookup, delete, lookup-delete}
use request_generator.SqlCache.Plans.{
  Statement, Plans, reuse, prepared, expire, drop_ref, discard, park,
}

abbrev pub idle_of : (ℕ → Statement) → Option ℕ → ℕ
idle_of h none = 0
idle_of h (some i) = if (h i).idle then 1 else 0

-- Whether the object is that of its text.
abbrev pub in_map : Plans → (ℕ → ℕ) → ℕ → Bool
in_map p t i = elim (lookup (t i) p.statements) [ none ↦ false | some j ↦ j == i ]

abbrev pub has_stmt : Statement → Bool
has_stmt s = elim s.stmt [ none ↦ false | some n ↦ true ]

-- `l` are the references that goroutines hold, `t` is the text that an object was made for.
pub record Inv (n : ℕ) (p : Plans) (l : List ℕ) (t : ℕ → ℕ) : Type 0 where
  -- An object in the map stands under its text, and is idle if nothing refers to it.
  pub known :
      (q i : ℕ)
      → lookup q p.statements ≡ some i
      → (t i ≡ q) × (i < p.next) × ((p.heap i).idle ≡ ((p.heap i).refs == 0))
  -- What a goroutine refers to is in the map.
  pub leased : (i : ℕ) → 0 < count i l → lookup (t i) p.statements ≡ some i
  pub counted : (i : ℕ) → count i l ≡ (p.heap i).refs
  pub parked : (q : ℕ) → count q p.idle ≡ idle_of p.heap (lookup q p.statements)
  -- An idle object is prepared; one that is not is held by the goroutine that prepares it.
  pub prepared_idle :
      (q i : ℕ)
      → lookup q p.statements ≡ some i
      → (p.heap i).idle ≡ true
      → ((p.heap i).ready ≡ true) × ((p.heap i).failed ≡ false)
  pub in_preparation : (i : ℕ) → i < p.next → (p.heap i).ready ≡ false → 0 < count i l
  pub few : length p.idle ≤ n
  -- A statement is closed, once, when its object has left the map.
  pub once :
      (i : ℕ)
      → count i p.closes
        ≡ (if ltb i p.next && (not (in_map p t i) && has_stmt (p.heap i)) then 1 else 0)

pub count-expire :
    (j i : ℕ) (o : Option ℕ) (cl : List ℕ)
    → count j (expire i o cl)
      ≡ (if j == i && (elim o [ none ↦ false | some n ↦ true ]) then 1 else 0) + count j cl
unfolding count
count-expire j i none cl = ground arith
count-expire j i (some s) cl = ground arith

-- Without the text of an object the map has all other objects still.
pub in_map-delete :
    (k i j : ℕ) (p : Plans) (t : ℕ → ℕ)
    → lookup k p.statements ≡ some i
    → t i ≡ k
    → (elim (lookup (t j) (delete k p.statements)) [ none ↦ false | some x ↦ x == j ])
      ≡ (in_map p t j && not (j == i))
in_map-delete k i j p t e f = ground (arith, lookup-delete (t j) k p.statements)

module _ (n : ℕ) (p : Plans) (l : List ℕ) (t : ℕ → ℕ) (v : Inv n p l t) where
  pub reuse-Inv : (q i : ℕ) → lookup q p.statements ≡ some i → Inv n (reuse q i p) (i ∷ l) t
  unfolding reuse count
  reuse-Inv q i e = record {
    known = λ r j f. ground (arith, v.known r j, v.known q i);
    leased = λ j h. ground (arith, v.leased j, v.known q i);
    counted = λ j. ground (arith, v.counted j);
    parked = λ r.
        ground (arith, v.parked r, v.parked q, v.known r i, v.known q i, count-remove r q p.idle);
    prepared_idle = λ r j f g. ground (arith, v.prepared_idle r j);
    in_preparation = λ j f g. ground (arith, v.in_preparation j);
    few = ground (arith, v.few, v.parked q, length-remove q p.idle);
    once = λ j. ground (arith, v.once j);
  }

  pub prepared-Inv :
      (i : ℕ) (r : Option ℕ) → 0 < count i l → (p.heap i).ready ≡ false → Inv n (prepared i r p) l t
  unfolding prepared
  prepared-Inv i none h f = record {
    known = λ r j e. ground (arith, v.known r j);
    leased = v.leased;
    counted = λ j. ground (arith, v.counted j);
    parked = λ r. ground (arith, v.parked r);
    prepared_idle = λ r j e g. ground (arith, v.prepared_idle r j, v.known r j, v.counted i);
    in_preparation = λ j e g. ground (arith, v.in_preparation j);
    few = v.few;
    once = λ j. ground (arith, v.once j, v.leased i);
  }
  prepared-Inv i (some s) h f = record {
    known = λ r j e. ground (arith, v.known r j);
    leased = v.leased;
    counted = λ j. ground (arith, v.counted j);
    parked = λ r. ground (arith, v.parked r);
    prepared_idle = λ r j e g. ground (arith, v.prepared_idle r j, v.known r j, v.counted i);
    in_preparation = λ j e g. ground (arith, v.in_preparation j);
    few = v.few;
    once = λ j. ground (arith, v.once j, v.leased i);
  }

  -- Other goroutines still refer to the object.
  pub drop_ref-Inv : (i : ℕ) → 1 < count i l → Inv n (drop_ref i p) (remove i l) t
  drop_ref-Inv i h = record {
    known = λ r j e. ground (arith, v.known r j, v.counted i);
    leased = λ j f. v.leased j (omega (arith, count-remove j i l));
    counted = λ j. ground (arith, v.counted j, v.counted i, count-remove j i l);
    parked = λ r. ground (arith, v.parked r);
    prepared_idle = λ r j e g. ground (arith, v.prepared_idle r j);
    in_preparation = λ j e g. ground (arith, v.in_preparation j, count-remove j i l);
    few = v.few;
    once = λ j. ground (arith, v.once j);
  }

  module _ (i : ℕ) (last : count i l ≡ 1) (ready : (p.heap i).ready ≡ true) where
    pub discard-Inv : Inv n (discard (t i) i (drop_ref i p)) (remove i l) t
    unfolding discard
    discard-Inv = record {
      known = λ r j e.
          ground
            (arith, v.known r j, v.known (t i) i, v.leased i, lookup-delete r (t i) p.statements);
      leased = λ j f. ground (
        arith,
        v.leased j,
        v.leased i,
        count-remove j i l,
        lookup-delete (t j) (t i) p.statements,
      );
      counted = λ j. ground (arith, v.counted j, v.counted i, count-remove j i l);
      parked = λ r. ground (
        arith,
        v.parked r,
        v.leased i,
        v.known (t i) i,
        v.counted i,
        lookup-delete r (t i) p.statements,
      );
      prepared_idle =
          λ r j e g. ground (arith, v.prepared_idle r j, lookup-delete r (t i) p.statements);
      in_preparation = λ j e g. ground (arith, v.in_preparation j, count-remove j i l);
      few = v.few;
      once = λ j. ground (
        arith,
        v.once j,
        v.leased i,
        v.known (t i) i,
        count-expire j i (p.heap i).stmt p.closes,
        in_map-delete (t i) i j p t,
      );
    }

    pub park-Inv :
        (p.heap i).failed ≡ false → Inv (n + 1) (park (t i) i (drop_ref i p)) (remove i l) t
    unfolding park count
    park-Inv f = record {
      known = λ r j e. ground (arith, v.known r j, v.counted i);
      leased = λ j g. v.leased j (omega (arith, count-remove j i l));
      counted = λ j. ground (arith, v.counted j, v.counted i, count-remove j i l);
      parked = λ r. ground (
        arith,
        v.parked r,
        v.leased i,
        v.known (t i) i,
        v.known r i,
        v.counted i,
        count-append r p.idle (t i ∷ []),
      );
      prepared_idle = λ r j e g. ground (arith, v.prepared_idle r j);
      in_preparation = λ j e g. ground (arith, v.in_preparation j, count-remove j i l);
      few = omega (arith, v.few, length-append p.idle (t i ∷ []));
      once = λ j. ground (arith, v.once j);
    }
