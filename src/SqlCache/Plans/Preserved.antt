-- ===== src/SqlCache/Plans/Preserved.antt =====
-- db/sqlcache/pool.go: every critical section keeps the invariant, and none faults.
use mathlib.Core.Path.{subst, fun_ext}
use request_generator.Common.{
  ℕ, ◌+◌, ◌≤◌, ◌<◌, ◌≡◌, refl, ap, ◌∙◌, inl, inr, true, none, some, List, [], ◌∷◌, ltb, ◌==◌,
  if◌then◌else◌, length, count, Bool-cases, Option-cases, arith,
}
use request_generator.Common.Assoc.{lookup, delete, lookup-delete, lookup-insert}
use request_generator.SqlCache.Plans.{
  Plans, Counters, max_idle, reuse, allocate, expire, trim_front, trim, drain,
}
use request_generator.SqlCache.Plans.Invariant.{Inv, count-expire, in_map-delete, reuse-Inv}

module _ (n : ℕ) (p : Plans) (l : List ℕ) (t : ℕ → ℕ) (v : Inv n p l t) where
  pub allocate-Inv :
      (q : ℕ)
      → lookup q p.statements ≡ none
      → Inv n (allocate q p) (p.next ∷ l) (λ j. if j == p.next then q else t j)
  unfolding allocate count
  allocate-Inv q e = record {
    known = λ r j f.
        ground (arith, v.known r j, v.counted p.next, lookup-insert r q p.next p.statements);
    leased = λ j f. ground (
      arith,
      v.leased j,
      lookup-insert (t j) q p.next p.statements,
      lookup-insert q q p.next p.statements,
    );
    counted = λ j. ground (arith, v.counted j, v.leased p.next, v.known (t p.next) p.next);
    parked =
        λ r. ground (arith, v.parked r, v.known r p.next, lookup-insert r q p.next p.statements);
    prepared_idle =
        λ r j f g. ground (arith, v.prepared_idle r j, lookup-insert r q p.next p.statements);
    in_preparation = λ j f g. ground (arith, v.in_preparation j);
    few = v.few;
    once = λ j. ground (
      arith,
      v.once j,
      v.known (t j) j,
      lookup-insert (t j) q p.next p.statements,
      lookup-insert q q p.next p.statements,
    );
  }

  pub same_text :
      (q i : ℕ)
      → lookup q p.statements ≡ some i
      → Inv n (reuse q i p) (i ∷ l) (λ j. if j == i then q else t j)
  same_text q i e =
      subst (Inv n (reuse q i p) (i ∷ l)) (fun_ext (λ j. ground (arith, v.known q i)))
        (reuse-Inv n p l t v q i e)

  -- The object of an idle text leaves the map, and its text the idle list.
  unpark-Inv :
      (k j : ℕ) (rest : List ℕ)
      → p.idle ≡ k ∷ rest
      → lookup k p.statements ≡ some j
      → Inv n
          (record p {
            statements = delete k p.statements;
            idle = rest;
            closes = expire j (p.heap j).stmt p.closes;
          })
          l
          t
  unfolding count
  unpark-Inv k j rest e f = record {
    known = λ r i g. ground (arith, v.known r i, lookup-delete r k p.statements);
    leased = λ i g. ground (
      arith,
      v.leased i,
      v.counted i,
      v.known k j,
      v.parked k,
      lookup-delete (t i) k p.statements,
    );
    counted = v.counted;
    parked = λ r. ground (arith, v.parked r, v.parked k, lookup-delete r k p.statements);
    prepared_idle = λ r i g h. ground (arith, v.prepared_idle r i, lookup-delete r k p.statements);
    in_preparation = v.in_preparation;
    few = omega (arith, v.few, ap length e);
    once = λ i. ground (
      arith,
      v.once i,
      v.known k j,
      count-expire i j (p.heap j).stmt p.closes,
      in_map-delete k j i p t,
    );
  }

  -- Each text of the idle list has its object.
  idle_known :
      (k : ℕ) (rest : List ℕ) → p.idle ≡ k ∷ rest → (j : ℕ) × (lookup k p.statements ≡ some j)
  unfolding count
  idle_known k rest e = elim (Option-cases (lookup k p.statements)) [
    | inr found ↦ found
    | inl missing ↦ absurd (ground (arith, v.parked k))
  ]

-- The counters are no part of the invariant, and the bound is the only use of `n`.
rebound-Inv :
    (n m : ℕ) (c : Counters) (p : Plans) (l : List ℕ) (t : ℕ → ℕ)
    → length p.idle ≤ m
    → Inv n p l t
    → Inv m (record p { counters = c }) l t
rebound-Inv n m c p l t h v = record {
  known = v.known;
  leased = v.leased;
  counted = v.counted;
  parked = v.parked;
  prepared_idle = v.prepared_idle;
  in_preparation = v.in_preparation;
  few = h;
  once = v.once;
}

pub trim-Inv :
    (p : Plans) (l : List ℕ) (t : ℕ → ℕ)
    → Inv (max_idle + 1) p l t
    → (r : Plans) × (trim p ≡ some r) × Inv max_idle r l t × (r.closed ≡ p.closed)
unfolding trim
trim-Inv p l t v = elim (Bool-cases (ltb max_idle (length p.idle))) [
  | inr within ↦
      (p, rw within, rebound-Inv (max_idle + 1) max_idle p.counters p l t (ground arith) v, refl)
  | inl over ↦ front p.idle refl (ground arith) over
]
  where
    front :
        (idle : List ℕ)
        → p.idle ≡ idle
        → max_idle < length idle
        → ltb max_idle (length p.idle) ≡ true
        → (r : Plans) × (trim p ≡ some r) × Inv max_idle r l t × (r.closed ≡ p.closed)
    front [] e h over = absurd (omega arith)
    front (k ∷ rest) e h over =
        let (j, found) = idle_known (max_idle + 1) p l t v k rest e in
        let w = unpark-Inv (max_idle + 1) p l t v k j rest e found in
        let few : length rest ≤ max_idle = omega (arith, v.few, ap length e) in
        (
          record p {
            statements = delete k p.statements;
            idle = rest;
            closes = expire j (p.heap j).stmt p.closes;
            counters = record (p.counters) { evictions = p.counters.evictions + 1 };
          },
          rw over (ap (trim_front p) e ∙ rw (found, trim_front) refl),
          rebound-Inv (max_idle + 1) max_idle _ _ l t few w,
          refl,
        )

pub drain-Inv :
    (n : ℕ) (xs : List ℕ) (p : Plans) (l : List ℕ) (t : ℕ → ℕ)
    → Inv n (record p { idle = xs }) l t
    → (r : Plans) × (drain xs p ≡ some r)
      × Inv n (record r { idle = [] }) l t
      × (r.closed ≡ p.closed)
unfolding drain
drain-Inv n [] p l t v = (p, refl, v, refl)
drain-Inv n (k ∷ rest) p l t v =
    let (j, found) = idle_known n (record p { idle = k ∷ rest }) l t v k rest refl in
    let (r, done, w, c) =
      drain-Inv n rest
        (record p {
          statements = delete k p.statements;
          closes = expire j (p.heap j).stmt p.closes;
        })
        l t (unpark-Inv n (record p { idle = k ∷ rest }) l t v k j rest refl found) in
    (r, rw (found, drain) done, w, c)
