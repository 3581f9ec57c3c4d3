-- ===== src/Requests/AddInput/Scoped.antt =====
-- generator.go and relation_scope.go: what a scoped add request writes.
use request_generator.Common.{
  ℕ, ◌≡◌, inl, inr, Bool, true, none, some, List, [], ◌∷◌, ◌++◌, Option-cases, arith,
}
use request_generator.Common.Assoc.{lookup, lookup-insert}
use request_generator.Requests.AddInput.{
  RequestField, Body, Scope, column, field_by_column, rejects_scoped, contains_field, inject_values,
  written_fields, add_values,
}
use request_generator.Requests.AddInput.Properties.{added, unscoped}

contains_field-end :
    (written : List RequestField) (f : RequestField)
    → contains_field (written ++ f ∷ []) (column f) ≡ true
unfolding contains_field
contains_field-end [] f = ground arith
contains_field-end (g ∷ written) f = ground (arith, contains_field-end written f)

-- A scoped add request writes the scope's id and no other: where it is accepted, the body did not
-- name the source field of the scope, the value written for that field is the id, whatever defaults
-- and columns it has, and the field is among those that are written.
pub add_values-scoped :
    (accepts : Body → Bool) (fields : List RequestField) (columns : List ℕ) (s : Scope)
    (body values : Body) (written : List RequestField)
    → add_values accepts fields columns (some s) body ≡ some (values, written)
    → (lookup s.source body ≡ none)
      × ((f : RequestField) × (field_by_column s.source fields ≡ some f)
          × (lookup (column f) values ≡ some s.id)
          × (contains_field written (column f) ≡ true))
unfolding inject_values rejects_scoped
add_values-scoped accepts fields columns s body values written h =
    let (input, fresh, last) = added accepts fields columns (some s) body values written h in
    elim (Option-cases (field_by_column s.source fields)) [
      | inl bad ↦ absurd (ground (arith, last, bad))
      | inr (f, good) ↦ (
        ground (arith, fresh),
        (
          f,
          good,
          ground (
            arith,
            last,
            good,
            lookup-insert (column f) (column f) s.id (unscoped fields columns input),
          ),
          ground (arith, last, good, contains_field-end (written_fields columns input fields) f),
        ),
      )
    ]
