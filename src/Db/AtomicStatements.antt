-- ===== src/Db/AtomicStatements.antt =====
-- db/atomic_executor.go: the statements of Insert and Upsert and the assignments of Update, before
-- they are sent. A name is a number, a nil column or table is `none`, and a placeholder $k is its
-- number. The text around names and placeholders is fixed, and the expressions of an assignment are
-- those of the query library, named after the call that makes them.
pub mod Assignments
pub mod Properties
pub mod Typing
pub mod Tests
use request_generator.Common.{
  ℕ, suc, ◌+◌, Bool, true, false, not, ◌&&◌, ◌||◌, ◌⊎◌, inl, inr, Option, none, some, List, [], ◌∷◌,
  ◌++◌, if◌then◌else◌, length,
}
use request_generator.Actions.Atomic.{Value, Fault, validate, Dynamic, atomic_db_value}

pub data StatementFault : Type 0 where
  no_table_or_key no_fields no_conflict_columns no_column no_conflict_column : StatementFault
  invalid_value : Fault → StatementFault

pub record Field : Type 0 where
  pub column : Option ℕ
  pub value : Value

pub record Insert : Type 0 where
  pub table : Option ℕ
  pub primary_key : Option ℕ
  pub fields : List Field

pub record Upsert : Type 0 where
  pub insert : Insert
  pub conflict_columns : List (Option ℕ)
  pub update_fields : List Field

-- The columns with their placeholders, the columns of ON CONFLICT, and the assignments of DO UPDATE,
-- none of them for DO NOTHING; `values` is what the statement is sent with.
pub record Statement : Type 0 where
  pub table : ℕ
  pub returning : ℕ
  pub columns : List (ℕ × ℕ)
  pub conflicts : List ℕ
  pub assignments : List (ℕ × ℕ)
  pub values : List Dynamic

abbrev pub is_nil {ℓ} : {A : Type ℓ} → List A → Bool
is_nil [] = true
is_nil (x ∷ xs) = false

-- A loop over fields: the columns with their placeholders, and the values so far.
abbrev pub Bound : Type 0
Bound = List (ℕ × ℕ) × List Dynamic

unfoldable pub conflict_names : List (Option ℕ) → Option (List ℕ)
conflict_names [] = some []
conflict_names (none ∷ columns) = none
conflict_names (some c ∷ columns) = elim (conflict_names columns) [
  | none ↦ none
  | some cs ↦ some (c ∷ cs)
]

module _ (json_valid : ℕ → Bool) where
  -- In the loop over an insert's fields the index is the number of values so far.
  unfoldable pub bind_fields : List Field → List Dynamic → StatementFault ⊎ Bound
  bind_fields [] values = inr ([], values)
  bind_fields (f ∷ fields) values =
      let rest = bind_fields fields (values ++ atomic_db_value f.value ∷ []) in
      elim f.column [
        | none ↦ inl no_column
        | some c ↦ elim (validate json_valid f.value) [
          | some e ↦ inl (invalid_value e)
          | none ↦ elim rest [
            | inl e ↦ inl e
            | inr (columns, all) ↦ inr ((c, suc (length values)) ∷ columns, all)
          ]
        ]
      ]

  abbrev pub insert_with : ℕ → ℕ → StatementFault ⊎ Bound → StatementFault ⊎ Statement
  insert_with table key (inl e) = inl e
  insert_with table key (inr (columns, values)) = inr (record {
    table = table;
    returning = key;
    columns = columns;
    conflicts = [];
    assignments = [];
    values = values;
  })

  unfoldable pub insert_statement : Insert → StatementFault ⊎ Statement
  insert_statement i = elim i.table [
    | none ↦ inl no_table_or_key
    | some table ↦ elim i.primary_key [
      | none ↦ inl no_table_or_key
      | some key ↦
          if is_nil i.fields then inl no_fields else insert_with table key (bind_fields i.fields [])
    ]
  ]

  -- DO UPDATE continues the numbers of the values.
  abbrev pub upsert_with : Upsert → Statement → StatementFault ⊎ Statement
  upsert_with u s = elim (conflict_names u.conflict_columns) [
    | none ↦ inl no_conflict_column
    | some conflicts ↦ elim (bind_fields u.update_fields s.values) [
      | inl e ↦ inl e
      | inr (assignments, values) ↦
          inr (record s { conflicts = conflicts; assignments = assignments; values = values })
    ]
  ]

  unfoldable pub upsert_statement : Upsert → StatementFault ⊎ Statement
  upsert_statement u = elim u.insert.table [
    | none ↦ inl no_table_or_key
    | some table ↦ elim u.insert.primary_key [
      | none ↦ inl no_table_or_key
      | some key ↦
          if is_nil u.insert.fields
          then inl no_fields
          else if is_nil u.conflict_columns
          then inl no_conflict_columns
          else elim (insert_with table key (bind_fields u.insert.fields [])) [
            | inl e ↦ inl e
            | inr s ↦ upsert_with u s
          ]
    ]
  ]
