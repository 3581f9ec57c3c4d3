-- ===== src/Requests/AddInput/Properties.antt =====
-- generator.go: what an add request can write.
use request_generator.Common.{
  ℕ, ◌≡◌, refl, ◌⊎◌, inl, inr, Bool, true, false, Option, none, some, List, [], ◌∷◌, ◌==◌,
  Option-cases, Bool-cases, In, arith,
}
use request_generator.Common.Assoc.{lookup, lookup-insert}
use request_generator.Actions.Atomic.{is_seen}
use request_generator.Actions.AtomicInput.{Input, input_name}
use request_generator.Requests.AddInput.{
  RequestField, Body, Scope, column, field_by_column, rejects_scoped, inject_input, inject_values,
  apply_defaults, is_written, written_fields, convert_field, map_field, map_request_input,
  server_defaults, add_values,
}

-- The key is that of a field in the action's columns.
abbrev pub IsOffered : List ℕ → List RequestField → ℕ → Type 0
IsOffered columns fields key =
    (f : RequestField) × In f fields
    × (input_name f.field ≡ key)
    × (is_seen (column f) columns ≡ true)

-- The value is the server's own default of a field outside the action's columns.
abbrev pub IsDefault : List ℕ → List RequestField → ℕ → Input → Type 0
IsDefault columns fields key v =
    (f : RequestField) × In f fields
    × (column f ≡ key)
    × (is_seen (column f) columns ≡ false)
    × ((d : ℕ → Input) × (f.default_value ≡ some d) × (v ≡ d 1))

-- The value is the id of the request's scope, for its source field.
abbrev pub IsScoped : List RequestField → Option Scope → ℕ → Input → Type 0
IsScoped fields scope key v =
    (s : Scope) × (f : RequestField) × (scope ≡ some s)
    × (field_by_column s.source fields ≡ some f)
    × (column f ≡ key)
    × (v ≡ s.id)

cons-IsOffered :
    (columns : List ℕ) (f : RequestField) (fields : List RequestField) (key : ℕ)
    → IsOffered columns fields key
    → IsOffered columns (f ∷ fields) key
cons-IsOffered columns f fields key (g, at, named, seen) = (g, inr at, named, seen)

cons-IsDefault :
    (columns : List ℕ) (f : RequestField) (fields : List RequestField) (key : ℕ) (v : Input)
    → IsDefault columns fields key v
    → IsDefault columns (f ∷ fields) key v
cons-IsDefault columns f fields key v (g, at, named, seen, d) = (g, inr at, named, seen, d)

lookup-map_field :
    (columns : List ℕ) (request : Body) (f : RequestField) (output : Body) (key : ℕ) (v : Input)
    → lookup key (map_field columns request f output) ≡ some v
    → ((input_name f.field ≡ key) × (is_seen (column f) columns ≡ true))
      ⊎ (lookup key output ≡ some v)
lookup-map_field columns request f output key v h =
    elim (Option-cases (lookup (input_name f.field) request)) [
      | inl gone ↦ inr (ground (arith, h, gone))
      | inr (u, there) ↦ elim (Bool-cases (is_seen (column f) columns)) [
        | inr unseen ↦ inr (ground (arith, h, there, unseen))
        | inl seen ↦ elim (Option-cases (convert_field f u)) [
          | inl bad ↦ inr (ground (arith, h, there, seen, bad))
          | inr (w, good) ↦ elim (Bool-cases (input_name f.field == key)) [
            | inl same ↦ inl (ground (arith, same), seen)
            | inr other ↦ inr (
                ground (
                  arith,
                  h,
                  there,
                  seen,
                  good,
                  other,
                  lookup-insert key (input_name f.field) w output,
                ))
          ]
        ]
      ]
    ]

lookup-map_request_input :
    (columns : List ℕ) (request : Body) (fields : List RequestField) (output : Body) (key : ℕ)
    (v : Input)
    → lookup key (map_request_input columns request fields output) ≡ some v
    → IsOffered columns fields key ⊎ (lookup key output ≡ some v)
unfolding map_request_input
lookup-map_request_input columns request [] output key v h = inr h
lookup-map_request_input columns request (f ∷ fields) output key v h =
    elim (lookup-map_request_input columns request fields (map_field columns request f output) key v
      h) [
        | inl later ↦ inl (cons-IsOffered columns f fields key later)
        | inr before ↦ elim (lookup-map_field columns request f output key v before) [
          | inl (named, seen) ↦ inl (f, inl refl, named, seen)
          | inr earlier ↦ inr earlier
        ]
      ]

lookup-server_defaults :
    (columns : List ℕ) (written : List RequestField) (values : Body) (key : ℕ) (v : Input)
    → lookup key (server_defaults columns written values) ≡ some v
    → IsDefault columns written key v ⊎ (lookup key values ≡ some v)
unfolding server_defaults
lookup-server_defaults columns [] values key v h = inr h
lookup-server_defaults columns (f ∷ written) values key v h =
    elim (lookup-server_defaults columns written _ key v h) [
      | inl later ↦ inl (cons-IsDefault columns f written key v later)
      | inr before ↦ elim (Option-cases f.default_value) [
        | inl no_default ↦ inr (ground (arith, before, no_default))
        | inr (d, has_default) ↦ elim (Bool-cases (is_seen (column f) columns)) [
          | inl seen ↦ inr (ground (arith, before, has_default, seen))
          | inr unseen ↦ elim (Bool-cases (column f == key)) [
            | inl same ↦ inl (
              f,
              inl refl,
              ground (arith, same),
              unseen,
              (
                d,
                has_default,
                ground (
                  arith,
                  before,
                  has_default,
                  unseen,
                  same,
                  lookup-insert key (column f) (d 1) values,
                ),
              ),
            )
            | inr other ↦ inr (
                ground (
                  arith,
                  before,
                  has_default,
                  unseen,
                  other,
                  lookup-insert key (column f) (d 1) values,
                ))
          ]
        ]
      ]
    ]

In-written_fields :
    (columns : List ℕ) (input : Body) (fields : List RequestField) (f : RequestField)
    → In f (written_fields columns input fields)
    → In f fields
unfolding written_fields
In-written_fields columns input [] f h = h
In-written_fields columns input (g ∷ fields) f h = elim (Bool-cases (is_written columns input g)) [
  | inl kept ↦ elim (rw (kept, written_fields) at h) [
    | inl same ↦ inl same
    | inr more ↦ inr (In-written_fields columns input fields f more)
  ]
  | inr left_out ↦
      inr (In-written_fields columns input fields f (rw (left_out, written_fields) at h))
]

written_fields-IsDefault :
    (columns : List ℕ) (input : Body) (fields : List RequestField) (key : ℕ) (v : Input)
    → IsDefault columns (written_fields columns input fields) key v
    → IsDefault columns fields key v
written_fields-IsDefault columns input fields key v (f, at, named, seen, d) =
    (f, In-written_fields columns input fields f at, named, seen, d)

-- The values before the scope is written.
abbrev pub unscoped : List RequestField → List ℕ → Body → Body
unscoped fields columns input =
    server_defaults columns (written_fields columns input fields)
      (map_request_input columns input fields [])

-- A request that is not answered with an error, as far as its last step.
pub added :
    (accepts : Body → Bool) (fields : List RequestField) (columns : List ℕ) (scope : Option Scope)
    (body values : Body) (written : List RequestField)
    → add_values accepts fields columns scope body ≡ some (values, written)
    → (input : Body) × (rejects_scoped body scope ≡ false)
      × (inject_values fields scope
            (unscoped fields columns input)
            (written_fields columns input fields)
          ≡ some (values, written))
unfolding add_values
added accepts fields columns scope body values written h =
    elim (Option-cases (inject_input fields scope body)) [
      | inl bad ↦ absurd (ground (arith, h, bad))
      | inr (scoped, good) ↦
          (apply_defaults fields scoped, ground (arith, h), ground (arith, h, good))
    ]

unscoped-origin :
    (fields : List RequestField) (columns : List ℕ) (input : Body) (key : ℕ) (v : Input)
    → lookup key (unscoped fields columns input) ≡ some v
    → IsOffered columns fields key ⊎ IsDefault columns fields key v
unfolding lookup
unscoped-origin fields columns input key v h =
    elim (lookup-server_defaults columns (written_fields columns input fields)
      (map_request_input columns input fields []) key v h) [
        | inl d ↦ inr (written_fields-IsDefault columns input fields key v d)
        | inr m ↦ elim (lookup-map_request_input columns input fields [] key v m) [
          | inl offered ↦ inl offered
          | inr e ↦ absurd (ground (arith, e))
        ]
      ]

-- Nothing that a client sends is written beyond what the action offers. Each value of an accepted add
-- request stands under a field in the action's columns, or is the server's own default of a field
-- outside of them, made anew whatever the body says, or is the id of the request's scope.
pub add_values-origin :
    (accepts : Body → Bool) (fields : List RequestField) (columns : List ℕ) (scope : Option Scope)
    (body values : Body) (written : List RequestField) (key : ℕ) (v : Input)
    → add_values accepts fields columns scope body ≡ some (values, written)
    → lookup key values ≡ some v
    → IsOffered columns fields key ⊎ (IsDefault columns fields key v ⊎ IsScoped fields scope key v)
unfolding inject_values
add_values-origin accepts fields columns scope body values written key v h l =
    let (input, fresh, last) = added accepts fields columns scope body values written h in
    by_scope scope input refl last
  where
    by_scope :
        (o : Option Scope) (input : Body)
        → scope ≡ o
        → inject_values fields o
            (unscoped fields columns input)
            (written_fields columns input fields)
          ≡ some (values, written)
        → IsOffered columns fields key
          ⊎ (IsDefault columns fields key v ⊎ IsScoped fields scope key v)
    by_scope none input e last =
        elim (unscoped-origin fields columns input key v (ground (arith, l, last))) [
          | inl offered ↦ inl offered
          | inr d ↦ inr (inl d)
        ]
    by_scope (some s) input e last = elim (Option-cases (field_by_column s.source fields)) [
      | inl bad ↦ absurd (ground (arith, last, bad))
      | inr (f, good) ↦
          let stored = lookup-insert key (column f) s.id (unscoped fields columns input) in
          elim (Bool-cases (column f == key)) [
            | inl same ↦ inr (
                inr (
                  s,
                  f,
                  e,
                  good,
                  ground (arith, same),
                  ground (arith, l, last, good, stored, same),
                ))
            | inr other ↦
                elim (unscoped-origin fields columns input key v
                  (ground (arith, l, last, good, stored, other))) [
                    | inl offered ↦ inl offered
                    | inr d ↦ inr (inl d)
                  ]
          ]
    ]
