-- ===== src/Requests/Scopes.antt =====
-- relation_scope.go: the scope that the query of a request names, resolved and checked, and an add
-- request within it. The two texts of the query are trimmed; 0 is the empty text. strconv is a
-- parameter, and ScopeCheck of a relation a function of the relation's name and the id.
pub mod Properties
pub mod Tests
use request_generator.Common.{
  ℕ, Bool, true, false, ◌&&◌, ◌||◌, ◌⊎◌, inl, inr, Option, none, some, List, [], ◌∷◌, ◌==◌,
  if◌then◌else◌,
}
use request_generator.Actions.AtomicInput.{
  Input, string_type, int_type, float_type, bool_type, array_type, object_type, other_type,
}
use request_generator.Requests.AddInput.{RequestField, Body, Scope, field_by_column, add_values}

pub record Relation : Type 0 where
  pub name : ℕ
  pub source : ℕ
  pub target_module : ℕ
  pub target_field : ℕ
  pub scope_check : Option (ℕ → Input → Bool)

pub record Module : Type 0 where
  pub name : ℕ
  pub fields : List RequestField

pub record Query : Type 0 where
  pub relation : ℕ
  pub id : ℕ

pub record Strconv : Type 0 where
  pub parse_int : ℕ → Option ℕ
  pub parse_float : ℕ → Option ℕ

unfoldable pub find_module : ℕ → List Module → Option Module
find_module name [] = none
find_module name (m ∷ modules) = if m.name == name then some m else find_module name modules

unfoldable pub find_relation : ℕ → List Relation → Option Relation
find_relation name [] = none
find_relation name (r ∷ relations) = if r.name == name then some r else find_relation name relations

pub data Resolved : Type 0 where
  unscoped : Resolved
  scoped : Scope → Resolved
  refused : ℕ → Resolved

abbrev pub bad_request : ℕ
bad_request = 400

abbrev pub forbidden : ℕ
forbidden = 403

module _ (strconv : Strconv) where
  unfoldable pub id_of_type : RequestField → ℕ → Option Input
  id_of_type f raw = elim f.field.type [
    | int_type ↦ elim (strconv.parse_int raw) [ none ↦ none | some n ↦ some (Input.int64 n) ]
    | float_type ↦ elim (strconv.parse_float raw) [ none ↦ none | some x ↦ some (Input.float x) ]
    | string_type ↦ some (Input.text raw)
    | bool_type ↦ none
    | array_type ↦ none
    | object_type ↦ none
    | other_type ↦ none
  ]

  -- `none` is an error.
  unfoldable pub canonical_id : List Module → Relation → ℕ → Option Input
  canonical_id modules r raw = elim (find_module r.target_module modules) [
    | none ↦ none
    | some m ↦ elim (field_by_column r.target_field m.fields) [
      | none ↦ none
      | some f ↦ elim f.convert [ some g ↦ g (Input.text raw) | none ↦ id_of_type f raw ]
    ]
  ]

  unfoldable pub resolve_scope : List Module → List Relation → Query → Resolved
  resolve_scope modules relations q =
      if q.relation == 0 && q.id == 0
      then unscoped
      else if q.relation == 0 || q.id == 0
      then refused bad_request
      else elim (find_relation q.relation relations) [
        | none ↦ refused bad_request
        | some r ↦ elim r.scope_check [
          | none ↦ refused bad_request
          | some check ↦ elim (canonical_id modules r q.id) [
            | none ↦ refused bad_request
            | some id ↦
                if check q.relation id
                then scoped (record { source = r.source; id = id })
                else refused forbidden
          ]
        ]
      ]

  -- What follows the scope, up to the values that are written. Each refusal here, by the scope, by
  -- checkRequest or for the source field, is answered with 400; the hooks, the atomic operation and the
  -- database, which come later and have statuses of their own, are not modelled.
  abbrev pub within :
      (Body → Bool)
      → List RequestField
      → List ℕ
      → Option Scope
      → Body
      → ℕ ⊎ (Body × List RequestField)
  within accepts fields columns scope body = elim (add_values accepts fields columns scope body) [
    | none ↦ inl bad_request
    | some out ↦ inr out
  ]

  -- An add request up to what it writes, or the status that it is answered with if it ends here.
  unfoldable pub add_request :
      List Module
      → List Relation
      → (Body → Bool)
      → List RequestField
      → List ℕ
      → Query
      → Body
      → ℕ ⊎ (Body × List RequestField)
  add_request modules relations accepts fields columns q body =
      elim (resolve_scope modules relations q) [
        | refused status ↦ inl status
        | unscoped ↦ within accepts fields columns none body
        | scoped s ↦ within accepts fields columns (some s) body
      ]
