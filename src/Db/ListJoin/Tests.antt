-- ===== src/Db/ListJoin/Tests.antt =====
-- Joined aggregates at concrete rows. The stand-in for json.Marshal reads the value of column 5.
use request_generator.Common.{
  ℕ, ◌+◌, ◌≡◌, refl, Option, none, some, List, [], ◌∷◌, if◌then◌else◌, map,
}
use request_generator.Common.Assoc.{lookup, delete, insert}
use request_generator.Db.ListJoin.{
  Value, null, empty_text, other, Object, object, row_has_value, has_value, fill, is_seen, distinct,
  decode_list_join,
}
use request_generator.Db.ListJoin.Properties.{firsts, all_long, decode_list_join-firsts}

program : Unit {0}
unfolding lookup delete insert row_has_value has_value fill is_seen distinct decode_list_join
program = tt

abbrev number : Option Value → ℕ
number none = 0
number (some null) = 1
number (some empty_text) = 2
number (some (other n)) = n + 3

abbrev marshal : Object → ℕ
marshal o = number (lookup 5 o)

abbrev rows : List (List Value)
rows = (other 1 ∷ []) ∷ (other 2 ∷ []) ∷ (other 1 ∷ []) ∷ []

decoded :
    (decode_list_join marshal (5 ∷ []) rows ≡ some (((5, other 1) ∷ []) ∷ ((5, other 2) ∷ []) ∷ []))
    × (decode_list_join marshal (5 ∷ 6 ∷ []) rows ≡ none)
    × (decode_list_join marshal (5 ∷ []) ((null ∷ []) ∷ (empty_text ∷ []) ∷ []) ≡ some [])
unfolding program
decoded = (refl, refl, refl)

decode_list_join-firsts_example : decode_list_join marshal (5 ∷ []) rows ≡ (
    if has_value rows
    then (if all_long (5 ∷ []) rows
        then some (firsts marshal (map (object (5 ∷ [])) rows))
        else none)
    else some [])
decode_list_join-firsts_example = decode_list_join-firsts marshal (5 ∷ []) rows
