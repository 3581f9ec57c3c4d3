-- ===== src/Db/AtomicStatements/Properties.antt =====
-- db/atomic_executor.go: each placeholder of an atomic statement stands for the value of its column.
use mathlib.Core.List.{append-nil, append_assoc}
use request_generator.Common.{
  ℕ, zero, suc, ◌+◌, ◌≡◌, refl, sym, ap, ◌∙◌, Bool, ◌⊎◌, inl, inr, Option, none, some, List, [],
  ◌∷◌, ◌++◌, map, length, length-append, Option-cases, arith,
}
use request_generator.Actions.Atomic.{validate, Dynamic, atomic_db_value}
use request_generator.Db.AtomicStatements.{
  StatementFault, Field, Upsert, Statement, Bound, conflict_names, bind_fields, upsert_statement,
}

-- The value that a statement's placeholder stands for.
abbrev pub argument : ℕ → List Dynamic → Option Dynamic
argument k [] = none
argument zero (x ∷ xs) = none
argument (suc zero) (x ∷ xs) = some x
argument (suc (suc n)) (x ∷ xs) = argument (suc n) xs

-- The columns with the values that their placeholders stand for.
abbrev pub bound_values : List Dynamic → List (ℕ × ℕ) → List (Option ℕ × Option Dynamic)
bound_values values = map (λ (b : ℕ × ℕ). (some b.0, argument b.1 values))

-- The columns with the values that the caller gives.
abbrev pub given_values : List Field → List (Option ℕ × Option Dynamic)
given_values = map (λ (f : Field). (f.column, some (atomic_db_value f.value)))

argument_at :
    (vs : List Dynamic) (x : Dynamic) (more rest : List Dynamic)
    → argument (suc (length vs)) (((vs ++ x ∷ []) ++ more) ++ rest) ≡ some x
argument_at [] x more rest = refl
argument_at (v ∷ vs) x more rest = argument_at vs x more rest

module _ (json_valid : ℕ → Bool) where
  -- What a loop over fields has made: the values behind those it began with, one for each field.
  record Binds (fields : List Field) (before : List Dynamic) (b : Bound) : Type 0 where
    more : List Dynamic
    extended : b.1 ≡ before ++ more
    counted : length more ≡ length fields
    bound : (rest : List Dynamic) → bound_values (b.1 ++ rest) b.0 ≡ given_values fields

  bound_cases :
      (o : StatementFault ⊎ Bound)
      → ((e : StatementFault) × (o ≡ inl e)) ⊎ ((b : Bound) × (o ≡ inr b))
  bound_cases (inl e) = inl (e, refl)
  bound_cases (inr b) = inr (b, refl)

  cons-Binds :
      (f : Field) (fields : List Field) (before : List Dynamic) (b r : Bound) (c : ℕ)
      → f.column ≡ some c
      → b ≡ ((c, suc (length before)) ∷ r.0, r.1)
      → Binds fields (before ++ atomic_db_value f.value ∷ []) r
      → Binds (f ∷ fields) before b
  cons-Binds f fields before b r c there same tail =
      let x = atomic_db_value f.value in
      record {
        more = x ∷ tail.more;
        extended =
            ap (λ (z : Bound). z.1) same ∙ tail.extended ∙ append_assoc before (x ∷ []) tail.more;
        counted = omega (arith, tail.counted);
        bound = λ rest.
            let at : argument (suc (length before)) (r.1 ++ rest) ≡ some x =
              ap (λ z. argument (suc (length before)) (z ++ rest)) tail.extended
              ∙ argument_at before x tail.more rest in
            ap (λ (z : Bound). bound_values (z.1 ++ rest) z.0) same
            ∙ ap (λ o. (some c, o) ∷ bound_values (r.1 ++ rest) r.0) at
            ∙ ap (λ o. (o, some x) ∷ bound_values (r.1 ++ rest) r.0) (sym there)
            ∙ ap (λ z. (f.column, some x) ∷ z) (tail.bound rest);
      }

  bind_fields-Binds :
      (fields : List Field) (before : List Dynamic) (b : Bound)
      → bind_fields json_valid fields before ≡ inr b
      → Binds fields before b
  unfolding bind_fields
  bind_fields-Binds [] before b h =
      let same : b ≡ ([], before) = ground (arith, h) in
      record {
        more = [];
        extended = ap (λ (x : Bound). x.1) same ∙ sym (append-nil before);
        counted = refl;
        bound = λ rest. ap (λ (x : Bound). bound_values (x.1 ++ rest) x.0) same;
      }
  bind_fields-Binds (f ∷ fields) before b h = elim (Option-cases f.column) [
    | inl gone ↦ absurd (ground (arith, h, gone))
    | inr (c, there) ↦ elim (Option-cases (validate json_valid f.value)) [
      | inr (e, bad) ↦ absurd (ground (arith, h, there, bad))
      | inl good ↦
          elim (bound_cases
            (bind_fields json_valid fields (before ++ atomic_db_value f.value ∷ []))) [
              | inl (e, bad) ↦ absurd (ground (arith, h, there, good, bad))
              | inr (r, rest) ↦
                  let tail =
                    bind_fields-Binds fields (before ++ atomic_db_value f.value ∷ []) r rest in
                  let same : b ≡ ((c, suc (length before)) ∷ r.0, r.1) =
                    ground (arith, h, there, good, rest) in
                  cons-Binds f fields before b r c there same tail
            ]
    ]
  ]

  conflict_names-map :
      (columns : List (Option ℕ)) (names : List ℕ)
      → conflict_names columns ≡ some names
      → map some names ≡ columns
  unfolding conflict_names
  conflict_names-map [] names h = ground (arith, h)
  conflict_names-map (none ∷ columns) names h = absurd (ground (arith, h))
  conflict_names-map (some c ∷ columns) names h = elim (Option-cases (conflict_names columns)) [
    | inl bad ↦ absurd (ground (arith, h, bad))
    | inr (cs, good) ↦
        let same : names ≡ c ∷ cs = ground (arith, h, good) in
        ap (map some) same ∙ ap (λ z. some c ∷ z) (conflict_names-map columns cs good)
  ]

  -- The parts of an upsert that was made.
  upsert_parts :
      (u : Upsert) (s : Statement)
      → upsert_statement json_valid u ≡ inr s
      → (b : Bound) × (d : Bound) × (bind_fields json_valid u.insert.fields [] ≡ inr b)
        × (bind_fields json_valid u.update_fields b.1 ≡ inr d)
        × (conflict_names u.conflict_columns ≡ some s.conflicts)
        × ((s.columns ≡ b.0) × (s.assignments ≡ d.0) × (s.values ≡ d.1))
  unfolding upsert_statement
  upsert_parts u s h = elim (bound_cases (bind_fields json_valid u.insert.fields [])) [
    | inl (e, bad) ↦ absurd (ground (arith, h, bad))
    | inr (b, first) ↦ elim (bound_cases (bind_fields json_valid u.update_fields b.1)) [
      | inl (e, bad) ↦ absurd (ground (arith, h, first, bad))
      | inr (d, second) ↦ (
        b,
        d,
        first,
        second,
        ground (arith, h, first, second),
        (
          ground (arith, h, first, second),
          ground (arith, h, first, second),
          ground (arith, h, first, second),
        ),
      )
    ]
  ]

  -- Every placeholder of an upsert stands for the value of its own column: in the statement that is
  -- made of an upsert, each inserted column is bound to the database's form of the value given for it,
  -- each assigned column likewise, though both lists share one numbering, the statement is sent with
  -- one value for each field and no more, and ON CONFLICT names the declared columns.
  pub upsert_statement-bound_values :
      (u : Upsert) (s : Statement)
      → upsert_statement json_valid u ≡ inr s
      → (bound_values s.values s.columns ≡ given_values u.insert.fields)
        × (bound_values s.values s.assignments ≡ given_values u.update_fields)
        × (length s.values ≡ length u.insert.fields + length u.update_fields)
        × (map some s.conflicts ≡ u.conflict_columns)
  upsert_statement-bound_values u s h =
      let (b, d, first, second, conflicts, (columns, assignments, values)) = upsert_parts u s h in
      let inserted = bind_fields-Binds u.insert.fields [] b first in
      let updated = bind_fields-Binds u.update_fields b.1 d second in
      (
        ap (λ z. bound_values z s.columns) (values ∙ updated.extended)
            ∙ ap (bound_values (b.1 ++ updated.more)) columns
            ∙ inserted.bound updated.more,
        ap (λ z. bound_values z s.assignments) (values ∙ sym (append-nil d.1))
            ∙ ap (bound_values (d.1 ++ [])) assignments
            ∙ updated.bound [],
        omega (
          arith,
          ap length (values ∙ updated.extended),
          ap length inserted.extended,
          length-append b.1 updated.more,
          inserted.counted,
          updated.counted,
        ),
        conflict_names-map u.conflict_columns s.conflicts conflicts,
      )
