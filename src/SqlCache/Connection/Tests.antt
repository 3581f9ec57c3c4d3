-- ===== src/SqlCache/Connection/Tests.antt =====
-- Connections of db/sqlcache/pool.go on concrete statements. The stand-in for strings.ToUpper maps
-- the letters of ASCII.
use request_generator.Common.{
  ℕ, ◌≡◌, refl, true, false, none, some, List, [], ◌∷◌, map, if◌then◌else◌, ◌↔◌, All,
}
use request_generator.SqlCache.Scanner.{
  codes, skip_line, skip_comment, quoted, skip_digits, identifier, plain_round, quote_round,
  code_round, round, scan_from, same_text, is_one_of, has_prefix, upper_token_flags, ascii_upper,
  all_ascii, token_flags, readable, read_only, touches, session_changed,
}
use request_generator.SqlCache.Connection.{
  fresh, transaction, pinned_connection, prepared_statement, shared_statement, pin, track, query,
  exec, begin_tx, end_tx, discards, gives_back, release, is_valid, close, begins_tx, apply, run,
  Call, queries, executes,
}
use request_generator.SqlCache.Connection.Properties.{
  run-discarded, query-eligible, Untouched, in_transaction,
}

program : Unit {0}
unfolding skip_line skip_comment quoted skip_digits identifier plain_round quote_round code_round
    round scan_from same_text is_one_of has_prefix upper_token_flags all_ascii token_flags readable
    read_only touches session_changed pin track query exec begin_tx end_tx release is_valid close
    apply run
program = tt

abbrev upper : List ℕ → List ℕ
upper = map ascii_upper

-- A read takes no physical connection, a write does, and a pool without one is an error.
routes :
    (query upper false false (codes "SELECT 1") fresh ≡ (some (true, shared_statement), fresh))
    × ((query upper true false (codes "UPDATE t SET a = 1") fresh).0
        ≡ some (false, pinned_connection))
    × (query upper false false (codes "UPDATE t SET a = 1") fresh ≡ (none, fresh))
    × ((is_valid (close fresh)).0 ≡ false)
unfolding program
routes = (refl, refl, refl, refl)

run-discarded_example :
    (release (
      run upper
        (executes true (codes "SELECT 1") ∷ [])
        (apply upper (queries true false (codes "SET x = 1")) (run upper [] fresh)))).1
    ≡ discards ∷ gives_back ∷ []
unfolding program
run-discarded_example =
    run-discarded upper [] (executes true (codes "SELECT 1") ∷ [])
      (queries true false (codes "SET x = 1")) (refl, ((false, pinned_connection), refl), refl)

abbrev earlier : List Call
earlier = queries true false (codes "SELECT 1") ∷ executes false (codes "SET x = 1") ∷ []

query-eligible_example :
    ((query upper true false (codes "SELECT 2") (run upper earlier fresh)).0
      ≡ some (true, shared_statement))
    ↔ ((read_only upper (codes "SELECT 2") ≡ true)
        × All (Untouched upper) earlier
        × (shared_statement ≡ (if false then prepared_statement else shared_statement)))
query-eligible_example = query-eligible upper earlier true false (codes "SELECT 2") shared_statement

in_transaction_example :
    ((query upper false false (codes "SELECT 1") (run upper (begins_tx true true ∷ []) fresh)).0
      ≡ some (false, transaction))
    × ((exec upper false (codes "SELECT 1") (run upper (begins_tx true true ∷ []) fresh)).0
        ≡ some transaction)
unfolding program
in_transaction_example =
    in_transaction upper (begins_tx true true ∷ []) false false (codes "SELECT 1") refl
