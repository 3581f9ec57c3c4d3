-- ===== src/Db/AtomicStatements/Tests.antt =====
-- A counter that is made or raised.
use request_generator.Common.{
  ℕ, ◌+◌, ◌≡◌, ◌↔◌, refl, Bool, true, inl, inr, none, some, [], ◌∷◌, map, length,
}
use request_generator.Actions.Atomic.{
  empty, atomic_string, atomic_int, variants, validate, interface, atomic_db_value, an_int,
  a_string,
}
use request_generator.Actions.Atomic.Values.{Variant, value_of, is_sound}
use request_generator.Db.AtomicStatements.{
  Upsert, Statement, conflict_names, bind_fields, insert_statement, upsert_statement, no_column,
}
use request_generator.Db.AtomicStatements.Assignments.{
  text, bool, set, increment, clear, set_json, not_clearable, unsupported, clear_assignment,
  value_assignment, update_assignment, assigns,
}
use request_generator.Db.AtomicStatements.Properties.{
  bound_values, given_values, upsert_statement-bound_values,
}
use request_generator.Db.AtomicStatements.Typing.{update_assignment-assigns}

program : Unit {0}
unfolding variants validate interface atomic_db_value conflict_names bind_fields insert_statement
    upsert_statement clear_assignment value_assignment update_assignment assigns
program = tt

abbrev any_json : ℕ → Bool
any_json j = true

abbrev counter : Upsert
counter = record {
  insert = record {
    table = some 1;
    primary_key = some 2;
    fields =
        record { column = some 7; value = atomic_string 9 }
        ∷ record { column = some 8; value = atomic_int 4 }
        ∷ [];
  };
  conflict_columns = some 7 ∷ [];
  update_fields = record { column = some 8; value = atomic_int 5 } ∷ [];
}

abbrev statement : Statement
statement = record {
  table = 1;
  returning = 2;
  columns = (7, 1) ∷ (8, 2) ∷ [];
  conflicts = 7 ∷ [];
  assignments = (8, 3) ∷ [];
  values = a_string 9 ∷ an_int 4 ∷ an_int 5 ∷ [];
}

made : upsert_statement any_json counter ≡ inr statement
unfolding program
made = refl

refusals :
    (insert_statement any_json (record {
      table = some 1;
      primary_key = some 2;
      fields = record { column = none; value = empty } ∷ [];
    })
      ≡ inl no_column)
    × (update_assignment any_json (some bool) clear empty ≡ inl not_clearable)
    × (update_assignment any_json (some text) increment (atomic_string 3) ≡ inl unsupported)
unfolding program
refusals = (refl, refl, refl)

upsert_statement-bound_values_example :
    (bound_values statement.values statement.columns ≡ given_values counter.insert.fields)
    × (bound_values statement.values statement.assignments ≡ given_values counter.update_fields)
    × (length statement.values ≡ length counter.insert.fields + length counter.update_fields)
    × (map some statement.conflicts ≡ counter.conflict_columns)
upsert_statement-bound_values_example =
    upsert_statement-bound_values any_json counter statement made

update_assignment-assigns_example :
    (update_assignment any_json (some text) set (record empty { json = some 3 }) ≡ inr (set_json 3))
    ↔ ((w : Variant) × (record empty { json = some 3 } ≡ value_of w)
        × (is_sound any_json w ≡ true)
        × (assigns text set w ≡ some (set_json 3)))
update_assignment-assigns_example =
    update_assignment-assigns any_json text set (record empty { json = some 3 }) (set_json 3) refl
