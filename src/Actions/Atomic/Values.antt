-- ===== src/Actions/Atomic/Values.antt =====
-- actions/atomic_add.go: a value that validates is a tagged union.
use mathlib.Core.Path.{subst}
use request_generator.Common.{
  ℕ, ◌≡◌, ◌↔◌, sym, refl, inl, inr, Bool, true, Option, none, some, List, Option-cases, arith,
}
use request_generator.Actions.Atomic.{
  Value, empty, atomic_string, atomic_int, atomic_float, atomic_bool, atomic_time, present,
  variants, validate, Dynamic, nil, a_string, an_int, a_float, a_bool, a_time, some_strings,
  some_ints, some_json, array_of_strings, array_of_ints, json_text, raw_json, interface,
  atomic_db_value, atomic_response_value,
}

-- The union that a validated value stands for.
pub data Variant : Type 0 where
  of_string of_int of_float of_time : ℕ → Variant
  of_bool : Bool → Variant
  of_strings of_ints : List ℕ → Variant
  of_json : ℕ → Variant

abbrev pub value_of : Variant → Value
value_of (of_string s) = atomic_string s
value_of (of_int n) = atomic_int n
value_of (of_float f) = atomic_float f
value_of (of_time t) = atomic_time t
value_of (of_bool b) = atomic_bool b
value_of (of_strings xs) = record empty { strings = some xs }
value_of (of_ints xs) = record empty { ints = some xs }
value_of (of_json j) = record empty { json = some j }

abbrev pub is_sound : (ℕ → Bool) → Variant → Bool
is_sound json_valid (of_json j) = json_valid j
is_sound json_valid (of_string s) = true
is_sound json_valid (of_int n) = true
is_sound json_valid (of_float f) = true
is_sound json_valid (of_time t) = true
is_sound json_valid (of_bool b) = true
is_sound json_valid (of_strings xs) = true
is_sound json_valid (of_ints xs) = true

absent {ℓ} : {A : Type ℓ} (o : Option A) → present o ≡ 0 → o ≡ none
absent none e = refl
absent (some a) e = absurd (omega arith)

abbrev pub read_back : Dynamic → Value
read_back nil = empty
read_back (a_string s) = atomic_string s
read_back (an_int n) = atomic_int n
read_back (a_float f) = atomic_float f
read_back (a_bool b) = atomic_bool b
read_back (a_time t) = atomic_time t
read_back (some_strings xs) = record empty { strings = some xs }
read_back (some_ints xs) = record empty { ints = some xs }
read_back (some_json j) = record empty { json = some j }
read_back (array_of_strings xs) = record empty { strings = some xs }
read_back (array_of_ints xs) = record empty { ints = some xs }
read_back (json_text j) = record empty { json = some j }
read_back (raw_json j) = record empty { json = some j }

Lossless : Value → Type 0
Lossless v =
    (read_back (interface v) ≡ v)
    × (read_back (atomic_db_value v) ≡ v)
    × (read_back (atomic_response_value v) ≡ v)

module _ (json_valid : ℕ → Bool) where
  one_variant : (v : Value) → variants v ≡ 1 → (w : Variant) × (v ≡ value_of w)
  unfolding variants
  one_variant v e = elim (Option-cases v.string) [
    | inr (x, p0) ↦ (of_string x, ground arith)
    | inl p0 ↦ elim (Option-cases v.int) [
      | inr (x, p1) ↦ (of_int x, ground arith)
      | inl p1 ↦ elim (Option-cases v.float) [
        | inr (x, p2) ↦ (of_float x, ground arith)
        | inl p2 ↦ elim (Option-cases v.bool) [
          | inr (x, p3) ↦ (of_bool x, ground arith)
          | inl p3 ↦ elim (Option-cases v.time) [
            | inr (x, p4) ↦ (of_time x, ground arith)
            | inl p4 ↦ elim (Option-cases v.strings) [
              | inr (x, p5) ↦ (of_strings x, ground arith)
              | inl p5 ↦ elim (Option-cases v.ints) [
                | inr (x, p6) ↦ (of_ints x, ground arith)
                | inl p6 ↦ elim (Option-cases v.json) [
                  | inr (x, p7) ↦ (of_json x, ground arith)
                  | inl p7 ↦ absurd (ground arith)
                ]
              ]
            ]
          ]
        ]
      ]
    ]
  ]

  validate-one : (v : Value) → validate json_valid v ≡ none → variants v ≡ 1
  unfolding validate
  validate-one v e = ground arith

  validate-value_of :
      (w : Variant) → (validate json_valid (value_of w) ≡ none) ↔ (is_sound json_valid w ≡ true)
  unfolding validate variants
  validate-value_of (of_string s) = (λ e. refl, λ e. refl)
  validate-value_of (of_int n) = (λ e. refl, λ e. refl)
  validate-value_of (of_float f) = (λ e. refl, λ e. refl)
  validate-value_of (of_time t) = (λ e. refl, λ e. refl)
  validate-value_of (of_bool b) = (λ e. refl, λ e. refl)
  validate-value_of (of_strings xs) = (λ e. refl, λ e. refl)
  validate-value_of (of_ints xs) = (λ e. refl, λ e. refl)
  validate-value_of (of_json j) = ground arith

  -- Values that validate are exactly those of the tagged union whose documents are valid JSON.
  pub validate_iff :
      (v : Value)
      → (validate json_valid v ≡ none)
        ↔ ((w : Variant) × (v ≡ value_of w) × (is_sound json_valid w ≡ true))
  validate_iff v = (
    λ e.
        let (w, p) = one_variant v (validate-one v e) in
        (w, p, (validate-value_of w).0 (rw p at e)),
    λ (w, p, s). rw p ((validate-value_of w).1 s),
  )

  variant-Lossless : (w : Variant) → Lossless (value_of w)
  unfolding interface atomic_db_value atomic_response_value Lossless
  variant-Lossless (of_string s) = (refl, refl, refl)
  variant-Lossless (of_int n) = (refl, refl, refl)
  variant-Lossless (of_float f) = (refl, refl, refl)
  variant-Lossless (of_time t) = (refl, refl, refl)
  variant-Lossless (of_bool b) = (refl, refl, refl)
  variant-Lossless (of_strings xs) = (refl, refl, refl)
  variant-Lossless (of_ints xs) = (refl, refl, refl)
  variant-Lossless (of_json j) = (refl, refl, refl)

  -- From what a value that validates becomes for an operation, for the database and for the
  -- response, the value can be read back: none of the three conversions loses or confuses it.
  conversions-Lossless :
      (v : Value)
      → validate json_valid v ≡ none
      → (read_back (interface v) ≡ v)
        × (read_back (atomic_db_value v) ≡ v)
        × (read_back (atomic_response_value v) ≡ v)
  unfolding Lossless
  conversions-Lossless v e =
      let (w, p, s) = (validate_iff v).0 e in subst Lossless (sym p) (variant-Lossless w)
