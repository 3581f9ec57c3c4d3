-- ===== src/Db/ListJoin.antt =====
-- db/list_join.go: decodeListJoin, the rows of a joined aggregate.
-- The decoded rows are given; a text, any other value and a column are numbers, and `none` is the
-- error of a row that is too short. json.Marshal of a row's columns by name is a parameter that
-- does not fail, as what it encodes was decoded from JSON.
pub mod Properties
pub mod Tests
use request_generator.Common.{
  ℕ, Bool, true, false, ◌||◌, Option, none, some, List, [], ◌∷◌, ◌==◌, ltb, if◌then◌else◌, length,
}
use request_generator.Common.Assoc.{insert}

pub data Value : Type 0 where
  null : Value
  empty_text : Value
  other : ℕ → Value

abbrev pub is_value : Value → Bool
is_value null = false
is_value empty_text = false
is_value (other n) = true

unfoldable pub row_has_value : List Value → Bool
row_has_value [] = false
row_has_value (v ∷ row) = is_value v || row_has_value row

unfoldable pub has_value : List (List Value) → Bool
has_value [] = false
has_value (row ∷ rows) = row_has_value row || has_value rows

-- The columns' names with the values of a row that is long enough; a later column of a name
-- replaces an earlier one.
abbrev pub Object : Type 0
Object = List (ℕ × Value)

unfoldable pub fill : List ℕ → List Value → Object → Object
fill [] row m = m
fill (c ∷ columns) [] m = m
fill (c ∷ columns) (v ∷ row) m = fill columns row (insert c v m)

abbrev pub object : List ℕ → List Value → Object
object columns row = fill columns row []

unfoldable pub is_seen : ℕ → List ℕ → Bool
is_seen key [] = false
is_seen key (k ∷ seen) = k == key || is_seen key seen

module _ (marshal : Object → ℕ) where
  -- The second loop, with the encodings seen so far.
  unfoldable pub distinct : List ℕ → List ℕ → List (List Value) → Option (List Object)
  distinct columns seen [] = some []
  distinct columns seen (row ∷ rows) =
      let value = object columns row in
      let again = distinct columns seen rows in
      let further = distinct columns (marshal value ∷ seen) rows in
      if ltb (length row) (length columns)
      then none
      else if is_seen (marshal value) seen
      then again
      else elim further [ none ↦ none | some result ↦ some (value ∷ result) ]

  unfoldable pub decode_list_join : List ℕ → List (List Value) → Option (List Object)
  decode_list_join columns rows = if has_value rows then distinct columns [] rows else some []
