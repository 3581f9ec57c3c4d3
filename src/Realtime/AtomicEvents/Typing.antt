-- ===== src/Realtime/AtomicEvents/Typing.antt =====
-- atomic_realtime.go: the kinds of values, and where a declared source finds a value of its kind.
use mathlib.Core.Path.{subst}
use request_generator.Common.{
  ℕ, ◌≡◌, refl, ap, ◌∙◌, ◌⊎◌, inl, inr, true, none, some, List, [], ◌∷◌, ◌==◌, Option-cases,
  Bool-cases, All, All-In, In, arith,
}
use request_generator.Common.Assoc.{lookup, insert, lookup-insert}
use request_generator.Actions.Atomic.{Value, empty, field}
use request_generator.Actions.AtomicInput.{
  Field, Input, Libraries, input_name, string_value, int_value, float_value, bool_value,
  atomic_value, atomic_input, typed_value,
}
use request_generator.Realtime.Values.{TypedValueType, TypedValue, typed_value_valid}
use request_generator.Realtime.Publish.{get_field}
use request_generator.Realtime.AtomicEvents.{
  Scope, input_scope, result_scope, other_scope, Source, source_kind, kind_type, input_kind,
  declared_fields,
}
use request_generator.Realtime.AtomicEvents.Publishes.{
  value_kind, actual_kinds, result_values, check_kinds, resolve_source,
}
use request_generator.Realtime.AtomicEvents.Publishes

-- A value of a kind that has a type becomes a complete value of that type.
pub typed_value-kind :
    (to_float : ℕ → ℕ) (v : Value) (t : TypedValueType)
    → kind_type (value_kind v) ≡ some t
    → (x : TypedValue) × (Publishes.typed_value to_float v ≡ some x)
      × (x.type ≡ t)
      × (typed_value_valid x.type x.bool ≡ true)
unfolding kind_type value_kind Publishes.typed_value typed_value_valid
typed_value-kind to_float v t h = elim (Option-cases (Publishes.typed_value to_float v)) [
  | inl e ↦ absurd (ground (arith, h, e))
  | inr (x, e) ↦ (x, e, ground (arith, h, e), ground (arith, h, e))
]

-- The values of a result have the kinds that the check saw.
pub actual_kinds-result_values :
    (n : ℕ) (fields m : List (ℕ × Value)) (k : List (ℕ × ℕ))
    → lookup n k ≡ (elim (lookup n m) [ none ↦ none | some v ↦ some (value_kind v) ])
    → lookup n (actual_kinds fields k)
      ≡ (elim (lookup n (result_values fields m)) [ none ↦ none | some v ↦ some (value_kind v) ])
unfolding actual_kinds result_values
actual_kinds-result_values n [] m k h = h
actual_kinds-result_values n ((i, v) ∷ fields) m k h =
    actual_kinds-result_values n fields (insert i v m) (insert i (value_kind v) k)
      (ground (arith, h, lookup-insert n i v m, lookup-insert n i (value_kind v) k))

-- A result that passes has each declared field in its kind.
pub check_kinds-declared_fields :
    (n kind : ℕ) (fields m known actual : List (ℕ × ℕ))
    → check_kinds actual fields ≡ none
    → declared_fields fields m ≡ inr known
    → lookup n known ≡ some kind
    → (lookup n m ≡ some kind) ⊎ (lookup n actual ≡ some kind)
unfolding check_kinds declared_fields
check_kinds-declared_fields n kind [] m known actual h d l = inl (ground (arith, d, l))
check_kinds-declared_fields n kind ((i, j) ∷ fields) m known actual h d l = ground (
  arith,
  check_kinds-declared_fields n kind fields (insert i j m) known actual,
  lookup-insert n i j m,
)

atomic_value-kind :
    (lib : Libraries) (f : Field) (r : Input) (v : Value) (kind : ℕ)
    → atomic_value lib f r ≡ some v
    → input_kind f.type ≡ some kind
    → (v ≡ empty) ⊎ (value_kind v ≡ kind)
unfolding atomic_value typed_value string_value int_value float_value bool_value input_kind
    value_kind
atomic_value-kind lib f Input.nil v kind h k = inl (ground (arith, h))
atomic_value-kind lib f (Input.text s) v kind h k = inr (ground (arith, h, k))
atomic_value-kind lib f (Input.int n) v kind h k = inr (ground (arith, h, k))
atomic_value-kind lib f (Input.int64 n) v kind h k = inr (ground (arith, h, k))
atomic_value-kind lib f (Input.float x) v kind h k = inr (ground (arith, h, k))
atomic_value-kind lib f (Input.bool b) v kind h k = inr (ground (arith, h, k))
atomic_value-kind lib f (Input.texts xs) v kind h k = inr (ground (arith, h, k))
atomic_value-kind lib f (Input.ints xs) v kind h k = inr (ground (arith, h, k))
atomic_value-kind lib f (Input.items xs) v kind h k = inr (ground (arith, h, k))
atomic_value-kind lib f (Input.other n) v kind h k = inr (ground (arith, h, k))

-- A value of the input was made for one of the fields.
field-atomic_input :
    (lib : Libraries) (n : ℕ) (v : Value) (fields : List Field) (request : List (ℕ × Input))
    (input : List (ℕ × Value))
    → atomic_input lib fields request ≡ some input
    → field n input ≡ some v
    → (f : Field) × In f fields
      × (input_name f ≡ n)
      × ((r : Input) × (atomic_value lib f r ≡ some v))
unfolding atomic_input field
field-atomic_input lib n v [] request input h e = absurd (ground (arith, h, e))
field-atomic_input lib n v (f ∷ fs) request input h e =
    elim (Option-cases (lookup (input_name f) request)) [
      | inl gone ↦
          let (g, listed, named, made) =
            field-atomic_input lib n v fs request input (ground (arith, h, gone)) e in
          (g, inr listed, named, made)
      | inr (r, there) ↦ elim (Option-cases (atomic_value lib f r)) [
        | inl bad ↦ absurd (ground (arith, h, there, bad))
        | inr (a, good) ↦ elim (Option-cases (atomic_input lib fs request)) [
          | inl bad ↦ absurd (ground (arith, h, there, good, bad))
          | inr (out, rest) ↦ elim (Bool-cases (input_name f == n)) [
            | inl same ↦ (
              f,
              inl refl,
              ground (arith, same),
              (r, ground (arith, h, e, there, good, rest, same)),
            )
            | inr other ↦
                let (g, listed, named, made) =
                  field-atomic_input lib n v fs request out rest
                    (ground (arith, h, e, there, good, rest, other)) in
                (g, inr listed, named, made)
          ]
        ]
      ]
    ]

-- Each field is found under the name that the input has for it.
abbrev pub Unambiguous : List Field → Type 0
Unambiguous fields = All (λ f. get_field (input_name f) fields ≡ some f) fields

-- The input has no value for the source, or the null one.
abbrev pub IsAbsent : List (ℕ × Value) → Source → Type 0
IsAbsent input s =
    (s.scope ≡ input_scope) × ((field s.field input ≡ none) ⊎ (field s.field input ≡ some empty))

scope-cases :
    (s : Scope) → (s ≡ input_scope) ⊎ ((s ≡ result_scope) ⊎ ((n : ℕ) × (s ≡ other_scope n)))
scope-cases input_scope = inl refl
scope-cases result_scope = inr (inl refl)
scope-cases (other_scope n) = inr (inr (n, refl))

-- A result has a value of its kind for each declared field.
abbrev pub Provides : List (ℕ × ℕ) → List (ℕ × Value) → Type 0
Provides known result =
    (n kind : ℕ)
    → lookup n known ≡ some kind
    → (v : Value) × (lookup n result ≡ some v) × (value_kind v ≡ kind)

pub resolve_source-kind :
    (lib : Libraries) (fields : List Field) (request : List (ℕ × Input)) (known : List (ℕ × ℕ))
    (input result : List (ℕ × Value)) (s : Source) (kind : ℕ)
    → Unambiguous fields
    → atomic_input lib fields request ≡ some input
    → Provides known result
    → source_kind fields known s ≡ inr kind
    → IsAbsent input s
      ⊎ ((v : Value) × (resolve_source input result s ≡ some v) × (value_kind v ≡ kind))
unfolding resolve_source source_kind
resolve_source-kind lib fields request known input result s kind u made p h =
    elim (scope-cases s.scope) [
      | inr (inr (n, e)) ↦ absurd (ground (arith, h, e))
      | inr (inl e) ↦ elim (Option-cases (lookup s.field known)) [
        | inl gone ↦ absurd (ground (arith, h, e, gone))
        | inr (k, there) ↦
            let (v, l, w) = p s.field k there in
            inr (v, ground (arith, e, l), ground (arith, h, e, there, w))
      ]
      | inl e ↦ elim (Option-cases (field s.field input)) [
        | inl gone ↦ inl (e, inl gone)
        | inr (v, there) ↦
            let (f, listed, named, (r, typed)) =
              field-atomic_input lib s.field v fields request input made there in
            let found : get_field s.field fields ≡ some f =
              subst (λ n. get_field n fields ≡ some f) named (All-In _ f fields u listed) in
            let kinded : input_kind f.type ≡ some kind = ground (arith, h, e, found) in
            elim (atomic_value-kind lib f r v kind typed kinded) [
              | inl null ↦ inl (e, inr (there ∙ ap some null))
              | inr k ↦ inr (v, ground (arith, e, there), k)
            ]
      ]
    ]
