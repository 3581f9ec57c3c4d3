-- ===== src/Db/AtomicStatements/Typing.antt =====
-- db/atomic_executor.go: the assignments of an update fit the types of their columns.
use request_generator.Common.{
  ℕ, ◌≡◌, ◌↔◌, refl, sym, ap, ◌∙◌, Bool, true, false, ◌⊎◌, inl, inr, Option, none, some,
  Option-cases, some_inj, arith,
}
use request_generator.Actions.Atomic.{Value, validate}
use request_generator.Actions.Atomic.Values.{Variant, value_of, is_sound, validate_iff}
use request_generator.Db.AtomicStatements.Assignments.{
  ColumnType, Operation, set, increment, clear, other_operation, Assignment, AssignmentFault,
  value_assignment, checked_assignment, update_assignment, assigns,
}

abbrev pub result {ℓ κ} : {A : Type ℓ} {B : Type κ} → A ⊎ B → Option B
result (inl e) = none
result (inr a) = some a

value_assignment-assigns :
    (column : ColumnType) (op : Operation) (w : Variant)
    → result (value_assignment column op (value_of w)) ≡ assigns column op w
unfolding value_assignment assigns
value_assignment-assigns column op w = ground arith

result-inr : (o : AssignmentFault ⊎ Assignment) (a : Assignment) → result o ≡ some a → o ≡ inr a
result-inr (inl e) a h = absurd (ground (arith, h))
result-inr (inr b) a h = ap inr (some_inj h)

abbrev pub is_clear : Operation → Bool
is_clear set = false
is_clear increment = false
is_clear clear = true
is_clear (other_operation n) = false

module _ (json_valid : ℕ → Bool) where
  not_clear :
      (column : ColumnType) (op : Operation) (v : Value)
      → is_clear op ≡ false
      → update_assignment json_valid (some column) op v ≡ checked_assignment json_valid column op v
  unfolding update_assignment
  not_clear column set v h = refl
  not_clear column increment v h = refl
  not_clear column clear v h = absurd (ground (arith, h))
  not_clear column (other_operation n) v h = refl

  checked_assignment-assigns :
      (column : ColumnType) (op : Operation) (v : Value) (a : Assignment)
      → (checked_assignment json_valid column op v ≡ inr a) ↔ (
          (w : Variant) × (v ≡ value_of w)
          × (is_sound json_valid w ≡ true)
          × (assigns column op w ≡ some a))
  checked_assignment-assigns column op v a = (
    λ h.
        let valid : validate json_valid v ≡ none = elim (Option-cases (validate json_valid v)) [
          | inl ok ↦ ok
          | inr (e, bad) ↦ absurd (ground (arith, h, bad))
        ] in
        let (w, p, s) = (validate_iff json_valid v).0 valid in
        let made : result (value_assignment column op v) ≡ some a = ground (arith, h, valid) in
        (
          w,
          p,
          s,
          sym (value_assignment-assigns column op w)
              ∙ ap (λ u. result (value_assignment column op u)) (sym p)
              ∙ made,
        ),
    λ (w, p, s, e).
        let valid = (validate_iff json_valid v).1 (w, p, s) in
        let made = result-inr (value_assignment column op v) a (
          ap (λ u. result (value_assignment column op u)) p
          ∙ value_assignment-assigns column op w
          ∙ e) in
        ground (arith, valid, made),
  )

  -- An update assigns exactly what fits. An assignment other than a clear is made of a column and a
  -- value if and only if the value is one variant of the union, a document being valid JSON, and the
  -- table `assigns` gives the column's type, the operation and the variant that very assignment.
  pub update_assignment-assigns :
      (column : ColumnType) (op : Operation) (v : Value) (a : Assignment)
      → is_clear op ≡ false
      → (update_assignment json_valid (some column) op v ≡ inr a) ↔ (
          (w : Variant) × (v ≡ value_of w)
          × (is_sound json_valid w ≡ true)
          × (assigns column op w ≡ some a))
  update_assignment-assigns column op v a h =
      let (there, back) = checked_assignment-assigns column op v a in
      let e = not_clear column op v h in (λ u. there (sym e ∙ u), λ w. e ∙ back w)
