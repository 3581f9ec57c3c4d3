-- ===== src/Db/PreparedReads/Ids.antt =====
-- How often an entry stands in the statement map, and what the loops over it do.
use mathlib.Core.List.{reverse}
use request_generator.Common.{
  ℕ, ◌+◌, ◌<◌, ◌≡◌, ◌⊎◌, refl, true, ◌||◌, some, List, [], ◌∷◌, ltb, ◌==◌, if◌then◌else◌, count,
  count-reverse, All, arith,
}
use request_generator.Common.Assoc.{insert, lookup, delete}
use request_generator.Db.PreparedReads.{Entry, update, idle_from, retire}

-- How often the map holds the entry.
unfoldable pub held : ℕ → List (ℕ × ℕ) → ℕ
held i [] = 0
held i ((q, j) ∷ m) = (if i == j then 1 else 0) + held i m

abbrev pub Named : (ℕ → Entry) → List (ℕ × ℕ) → Type 0
Named h = All (λ (e : ℕ × ℕ). (h e.1).query ≡ e.0)

pub held-lookup : (q i : ℕ) (m : List (ℕ × ℕ)) → lookup q m ≡ some i → 0 < held i m
unfolding lookup held
held-lookup q i [] e = cc
held-lookup q i ((p, j) ∷ m) e = ground (arith, held-lookup q i m)

pub query-lookup :
    (h : ℕ → Entry) (q i : ℕ) (m : List (ℕ × ℕ)) → Named h m → lookup q m ≡ some i → (h i).query ≡ q
unfolding lookup
query-lookup h q i [] n e = cc
query-lookup h q i ((p, j) ∷ m) n e = ground (arith, query-lookup h q i m n.1)

pub held-delete :
    (h : ℕ → Entry) (q i : ℕ) (m : List (ℕ × ℕ))
    → Named h m
    → held i (delete q m) ≡ (if (h i).query == q then 0 else held i m)
unfolding held delete
held-delete h q i [] n = ground arith
held-delete h q i ((p, j) ∷ m) n = ground (arith, held-delete h q i m n.1)

pub Named-delete : (h : ℕ → Entry) (q : ℕ) (m : List (ℕ × ℕ)) → Named h m → Named h (delete q m)
unfolding delete
Named-delete h q [] n = tt
Named-delete h q ((p, j) ∷ m) n = ground (arith, Named-delete h q m n.1)

pub Named-insert :
    (h : ℕ → Entry) (q i : ℕ) (m : List (ℕ × ℕ))
    → (h i).query ≡ q
    → Named h m
    → Named h (insert q i m)
unfolding insert
Named-insert h q i m e n = (e, Named-delete h q m n)

-- An entry outside the map may be filled anew, and any entry may change but for its text.
pub Named-update :
    (h : ℕ → Entry) (i : ℕ) (e : Entry) (m : List (ℕ × ℕ))
    → ((h i).query ≡ e.query) ⊎ (held i m ≡ 0)
    → Named h m
    → Named (update h i e) m
unfolding held
Named-update h i e [] c n = tt
Named-update h i e ((p, j) ∷ m) c n = (ground arith, Named-update h i e m (ground arith) n.1)

idle_from-lem :
    (h : ℕ → Entry) (i : ℕ) (xs : List ℕ)
    → idle_from h xs ≡ some i
    → ((h i).users ≡ 0) × (0 < count i xs)
unfolding idle_from count
idle_from-lem h i [] e = cc
idle_from-lem h i (x ∷ xs) e = ground (arith, idle_from-lem h i xs)

pub idle_from-reverse :
    (h : ℕ → Entry) (i : ℕ) (xs : List ℕ)
    → idle_from h (reverse xs) ≡ some i
    → ((h i).users ≡ 0) × (0 < count i xs)
idle_from-reverse h i xs e = ground (arith, idle_from-lem h i (reverse xs), count-reverse i xs)

abbrev mark : (ℕ → Entry) → ℕ → ℕ → Entry
mark h j = update h j (record (h j) { retired = true })

abbrev closing : (ℕ → Entry) → ℕ → List ℕ → List ℕ
closing h j cl = if (h j).users == 0 then j ∷ cl else cl

module _ (i : ℕ) where
  pub retire-users :
      (m : List (ℕ × ℕ)) (h : ℕ → Entry) (cl : List ℕ) → ((retire m h cl).0 i).users ≡ (h i).users
  unfolding retire
  retire-users [] h cl = refl
  retire-users ((q, j) ∷ m) h cl = ground (arith, retire-users m (mark h j) (closing h j cl))

  pub retire-query :
      (m : List (ℕ × ℕ)) (h : ℕ → Entry) (cl : List ℕ) → ((retire m h cl).0 i).query ≡ (h i).query
  unfolding retire
  retire-query [] h cl = refl
  retire-query ((q, j) ∷ m) h cl = ground (arith, retire-query m (mark h j) (closing h j cl))

  pub retire-retired :
      (m : List (ℕ × ℕ)) (h : ℕ → Entry) (cl : List ℕ)
      → ((retire m h cl).0 i).retired ≡ ((h i).retired || ltb 0 (held i m))
  unfolding retire held
  retire-retired [] h cl = ground arith
  retire-retired ((q, j) ∷ m) h cl = ground (arith, retire-retired m (mark h j) (closing h j cl))

  pub count-retire :
      (m : List (ℕ × ℕ)) (h : ℕ → Entry) (cl : List ℕ)
      → count i (retire m h cl).1 ≡ count i cl + (if (h i).users == 0 then held i m else 0)
  unfolding retire held count
  count-retire [] h cl = ground arith
  count-retire ((q, j) ∷ m) h cl = ground (arith, count-retire m (mark h j) (closing h j cl))
