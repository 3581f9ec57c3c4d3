-- ===== src/Db/ListJoin/Properties.antt =====
-- db/list_join.go: what the deduplication of a joined aggregate keeps.
use request_generator.Common.{
  ℕ, ◌≡◌, refl, Bool, true, ◌&&◌, leb, none, some, List, [], ◌∷◌, ◌==◌, if◌then◌else◌, length, map,
  arith,
}
use request_generator.Db.ListJoin.{
  Value, Object, object, has_value, is_seen, distinct, decode_list_join,
}

abbrev pub all_long : List ℕ → List (List Value) → Bool
all_long columns [] = true
all_long columns (row ∷ rows) = leb (length columns) (length row) && all_long columns rows

module _ (marshal : Object → ℕ) where
  abbrev pub without : ℕ → List Object → List Object
  without key [] = []
  without key (o ∷ os) = if marshal o == key then without key os else o ∷ without key os

  -- The first of the rows of each encoding, in order.
  abbrev pub firsts : List Object → List Object
  firsts [] = []
  firsts (o ∷ os) = o ∷ without (marshal o) (firsts os)

  abbrev unseen : List ℕ → List Object → List Object
  unseen seen [] = []
  unseen seen (o ∷ os) = if is_seen (marshal o) seen then unseen seen os else o ∷ unseen seen os

  unseen-cons :
      (key : ℕ) (seen : List ℕ) (os : List Object)
      → unseen (key ∷ seen) os ≡ unseen seen (without key os)
  unfolding is_seen
  unseen-cons key seen [] = refl
  unseen-cons key seen (o ∷ os) = ground (arith, unseen-cons key seen os)

  unseen-without :
      (key : ℕ) (seen : List ℕ) (os : List Object)
      → is_seen key seen ≡ true
      → unseen seen (without key os) ≡ unseen seen os
  unfolding is_seen
  unseen-without key seen [] h = refl
  unseen-without key seen (o ∷ os) h = ground (arith, unseen-without key seen os h)

  unseen-nothing : (os : List Object) → unseen [] os ≡ os
  unfolding is_seen
  unseen-nothing [] = refl
  unseen-nothing (o ∷ os) = ground (arith, unseen-nothing os)

  distinct-firsts :
      (columns seen : List ℕ) (rows : List (List Value))
      → distinct marshal columns seen rows ≡ (
          if all_long columns rows
          then some (unseen seen (firsts (map (object columns) rows)))
          else none)
  unfolding distinct
  distinct-firsts columns seen [] = refl
  distinct-firsts columns seen (row ∷ rows) =
      let value = object columns row in
      let others = firsts (map (object columns) rows) in
      ground (
        arith,
        distinct-firsts columns seen rows,
        distinct-firsts columns (marshal value ∷ seen) rows,
        unseen-cons (marshal value) seen others,
        unseen-without (marshal value) seen others,
      )

  -- A joined aggregate with no value but nulls and empty texts has no rows. Any other fails exactly
  -- if one of its rows has fewer values than there are columns; else of the rows with the same
  -- encoding the first stays, and what stays keeps its order.
  pub decode_list_join-firsts :
      (columns : List ℕ) (rows : List (List Value))
      → decode_list_join marshal columns rows ≡ (
          if has_value rows
          then (if all_long columns rows then some (firsts (map (object columns) rows)) else none)
          else some [])
  unfolding decode_list_join
  decode_list_join-firsts columns rows =
      ground (
        arith,
        distinct-firsts columns [] rows,
        unseen-nothing (firsts (map (object columns) rows)),
      )
