-- ===== src/Requests/Scopes/Properties.antt =====
-- relation_scope.go: a scoped add request writes within a scope that its check has accepted.
use request_generator.Common.{
  ℕ, ◌≡◌, ap, ◌∙◌, Bool, true, false, ◌&&◌, ◌||◌, ◌⊎◌, inl, inr, none, some, List, ◌==◌,
  Option-cases, Bool-cases, arith, ◌↔◌, ◌≢◌, sym, if◌then◌else◌,
}
use request_generator.Common.Assoc.{lookup}
use request_generator.Actions.AtomicInput.{Input}
use request_generator.Requests.AddInput.{
  RequestField, Body, Scope, column, field_by_column, add_values,
}
use request_generator.Requests.AddInput.Scoped.{add_values-scoped}
use request_generator.Requests.Scopes.{
  Relation, Module, Query, Strconv, find_relation, Resolved, unscoped, scoped, refused, bad_request,
  forbidden, canonical_id, resolve_scope, add_request,
}

module _ (strconv : Strconv) where
  -- The query names a relation whose check, asked for the id as the target field reads it, says `b`.
  abbrev pub Checked : List Module → List Relation → Query → Relation → Input → Bool → Type 0
  Checked modules relations q r id b =
      (find_relation q.relation relations ≡ some r)
      × (canonical_id strconv modules r q.id ≡ some id)
      × ((check : ℕ → Input → Bool) × (r.scope_check ≡ some check) × (check q.relation id ≡ b))

  abbrev Cases : List Module → List Relation → Query → Resolved → Type 0
  Cases modules relations q o =
      ((o ≡ unscoped) × (q.relation ≡ 0) × (q.id ≡ 0))
      ⊎ ((o ≡ refused bad_request)
          ⊎ ((r : Relation) × (id : Input) × (((o ≡ scoped (record { source = r.source; id = id }))
                  × Checked modules relations q r id true)
                ⊎ ((o ≡ refused forbidden) × Checked modules relations q r id false))))

  resolve_scope-Cases :
      (modules : List Module) (relations : List Relation) (q : Query)
      → Cases modules relations q (resolve_scope strconv modules relations q)
  unfolding resolve_scope
  resolve_scope-Cases modules relations q = elim (Bool-cases (q.relation == 0 && q.id == 0)) [
    | inl nothing ↦ inl (ground (arith, nothing), ground (arith, nothing), ground (arith, nothing))
    | inr something ↦ elim (Bool-cases (q.relation == 0 || q.id == 0)) [
      | inl half ↦ inr (inl (ground (arith, something, half)))
      | inr both ↦ elim (Option-cases (find_relation q.relation relations)) [
        | inl gone ↦ inr (inl (ground (arith, something, both, gone)))
        | inr (r, found) ↦ elim (Option-cases r.scope_check) [
          | inl closed ↦ inr (inl (ground (arith, something, both, found, closed)))
          | inr (check, enabled) ↦ elim (Option-cases (canonical_id strconv modules r q.id)) [
            | inl bad ↦ inr (inl (ground (arith, something, both, found, enabled, bad)))
            | inr (id, good) ↦ elim (Bool-cases (check q.relation id)) [
              | inl yes_check ↦ inr (
                  inr (
                    r,
                    id,
                    inl (
                      ground (arith, something, both, found, enabled, good, yes_check),
                      (found, good, (check, enabled, yes_check)),
                    ),
                  ))
              | inr no_check ↦ inr (
                  inr (
                    r,
                    id,
                    inr (
                      ground (arith, something, both, found, enabled, good, no_check),
                      (found, good, (check, enabled, no_check)),
                    ),
                  ))
            ]
          ]
        ]
      ]
    ]
  ]

  -- An add request that is accepted either names no scope at all, or it names a declared relation
  -- whose ScopeCheck has accepted this very id, in the form that the relation's target field gives it;
  -- then the id is what is written for the source field of the relation, and the body has not named
  -- that field.
  pub add_request-Checked :
      (modules : List Module) (relations : List Relation) (accepts : Body → Bool)
      (fields : List RequestField) (columns : List ℕ) (q : Query) (body values : Body)
      (written : List RequestField)
      → add_request strconv modules relations accepts fields columns q body ≡ inr (values, written)
      → ((q.relation ≡ 0) × (q.id ≡ 0))
        ⊎ ((r : Relation) × (id : Input) × (f : RequestField) × Checked modules relations q r id
              true
            × ((lookup r.source body ≡ none)
                × (field_by_column r.source fields ≡ some f)
                × (lookup (column f) values ≡ some id)))
  unfolding add_request
  add_request-Checked modules relations accepts fields columns q body values written h =
      elim (resolve_scope-Cases modules relations q) [
        | inl (e, no_relation, no_id) ↦ inl (no_relation, no_id)
        | inr (inl e) ↦ absurd (ground (arith, h, e))
        | inr (inr (r, id, inr (e, checked))) ↦ absurd (ground (arith, h, e))
        | inr (inr (r, id, inl (e, checked))) ↦
            let s : Scope = record { source = r.source; id = id } in
            let made : add_values accepts fields columns (some s) body ≡ some (values, written) =
              elim (Option-cases (add_values accepts fields columns (some s) body)) [
                | inl bad ↦ absurd (ground (arith, h, e, bad))
                | inr (out, good) ↦ good ∙ ap some (ground (arith, h, e, good))
              ] in
            let (unnamed, (f, found, stored, kept)) =
              add_values-scoped accepts fields columns s body values written made in
            inr (r, id, f, checked, (unnamed, found, stored))
      ]

  -- Half a scope, or none, is decided before any relation is looked for.
  resolve_scope-incomplete :
      (modules : List Module) (relations : List Relation) (q : Query)
      → (q.relation == 0 || q.id == 0) ≡ true
      → resolve_scope strconv modules relations q
        ≡ (if q.relation == 0 && q.id == 0 then unscoped else refused bad_request)
  unfolding resolve_scope
  resolve_scope-incomplete modules relations q h = ground (arith, h)

  abbrev pub Named : Query → Type 0
  Named q = (q.relation ≢ 0) × (q.id ≢ 0)

  resolve_scope-Checked :
      (modules : List Module) (relations : List Relation) (q : Query) (r : Relation) (id : Input)
      (b : Bool)
      → Named q
      → Checked modules relations q r id b
      → resolve_scope strconv modules relations q
        ≡ (if b then scoped (record { source = r.source; id = id }) else refused forbidden)
  unfolding resolve_scope
  resolve_scope-Checked modules relations q r id b (m, n) (found, good, (check, enabled, answer)) =
      ground (arith, m, n, found, good, enabled, answer)

  -- An outcome that no incomplete query has.
  complete-Named :
      (modules : List Module) (relations : List Relation) (q : Query) (o : Resolved)
      → resolve_scope strconv modules relations q ≡ o
      → o ≢ unscoped
      → o ≢ refused bad_request
      → Named q
  complete-Named modules relations q o e m n = elim (Bool-cases (q.relation == 0 || q.id == 0)) [
    | inr both ↦ (ground (arith, both), ground (arith, both))
    | inl half ↦
        let cut = resolve_scope-incomplete modules relations q half in
        elim (Bool-cases (q.relation == 0 && q.id == 0)) [
          | inl nothing ↦ absurd (m (ground (arith, e, cut, nothing)))
          | inr something ↦ absurd (n (ground (arith, e, cut, something)))
        ]
  ]

  -- The scope of a request is absent exactly if its query names neither a relation nor an id. It is
  -- a scope exactly if the query names both and the ScopeCheck of the named relation accepts the id,
  -- in the form that the relation's target field gives it; then it is that relation's source field
  -- with this id. It is refused with 403 exactly if the query names both and that ScopeCheck refuses
  -- the id. Every other query is refused with 400.
  pub resolve_scope-decides :
      (modules : List Module) (relations : List Relation) (q : Query) (s : Scope)
      → let o = resolve_scope strconv modules relations q in
        ((o ≡ unscoped) ↔ ((q.relation ≡ 0) × (q.id ≡ 0)))
        × ((o ≡ scoped s) ↔ (
            Named q
            × ((r : Relation) × (id : Input) × (s ≡ record { source = r.source; id = id })
                × Checked modules relations q r id true)))
        × ((o ≡ refused forbidden)
            ↔ (Named q × ((r : Relation) × (id : Input) × Checked modules relations q r id false)))
        × ((o ≡ unscoped)
            ⊎ (((s : Scope) × (o ≡ scoped s))
                ⊎ ((o ≡ refused forbidden) ⊎ (o ≡ refused bad_request))))
  resolve_scope-decides modules relations q s = (absent, accepted, denied, outcomes)
    where
      o : Resolved
      o = resolve_scope strconv modules relations q

      absent : (o ≡ unscoped) ↔ ((q.relation ≡ 0) × (q.id ≡ 0))
      absent = (
        λ e. elim (resolve_scope-Cases modules relations q) [
          | inl (f, no_relation, no_id) ↦ (no_relation, no_id)
          | inr (inl f) ↦ absurd (cc (sym e ∙ f))
          | inr (inr (r, id, inl (f, checked))) ↦ absurd (cc (sym e ∙ f))
          | inr (inr (r, id, inr (f, checked))) ↦ absurd (cc (sym e ∙ f))
        ],
        λ (no_relation, no_id). ground (
          arith,
          no_relation,
          no_id,
          resolve_scope-incomplete modules relations q (ground (arith, no_relation)),
        ),
      )

      accepted : (o ≡ scoped s) ↔ (
          Named q
          × ((r : Relation) × (id : Input) × (s ≡ record { source = r.source; id = id })
              × Checked modules relations q r id true))
      accepted = (
        λ e. (
          complete-Named modules relations q (scoped s) e (λ h. cc h) (λ h. cc h),
          elim (resolve_scope-Cases modules relations q) [
            | inl (f, m, n) ↦ absurd (cc (sym e ∙ f))
            | inr (inl f) ↦ absurd (cc (sym e ∙ f))
            | inr (inr (r, id, inl (f, checked))) ↦ (r, id, cc (sym e ∙ f), checked)
            | inr (inr (r, id, inr (f, checked))) ↦ absurd (cc (sym e ∙ f))
          ],
        ),
        λ (named, (r, id, same, checked)).
            resolve_scope-Checked modules relations q r id true named checked
            ∙ ap scoped (sym same),
      )

      denied :
          (o ≡ refused forbidden)
          ↔ (Named q × ((r : Relation) × (id : Input) × Checked modules relations q r id false))
      denied = (
        λ e. (
          complete-Named modules relations q (refused forbidden) e (λ h. cc h)
              (λ h. ground (arith, h)),
          elim (resolve_scope-Cases modules relations q) [
            | inl (f, m, n) ↦ absurd (cc (sym e ∙ f))
            | inr (inl f) ↦ absurd (ground (arith, sym e ∙ f))
            | inr (inr (r, id, inl (f, checked))) ↦ absurd (cc (sym e ∙ f))
            | inr (inr (r, id, inr (f, checked))) ↦ (r, id, checked)
          ],
        ),
        λ (named, (r, id, checked)).
            resolve_scope-Checked modules relations q r id false named checked,
      )

      outcomes :
          (o ≡ unscoped)
          ⊎ (((s : Scope) × (o ≡ scoped s)) ⊎ ((o ≡ refused forbidden) ⊎ (o ≡ refused bad_request)))
      outcomes = elim (resolve_scope-Cases modules relations q) [
        | inl (f, m, n) ↦ inl f
        | inr (inl f) ↦ inr (inr (inr f))
        | inr (inr (r, id, inl (f, checked))) ↦ inr (inl (record { source = r.source; id = id }, f))
        | inr (inr (r, id, inr (f, checked))) ↦ inr (inr (inl f))
      ]
