-- ===== src/Translations/Dictionaries.antt =====
-- translations.go: copies and comparisons of dictionaries.
use request_generator.Common.{ℕ, ◌+◌, ◌≡◌, refl, true, Option, none, some, [], ◌∷◌, length, arith}
use request_generator.Common.Assoc.{
  lookup, delete, lookup-insert, lookup-delete, Unique, insert-Unique, delete-Unique, delete_absent,
}
use request_generator.Translations.{Dictionary, insert_all, all_same, same_translations}

-- What two dictionaries say of a key, the first before the second.
abbrev pub or_else : Option ℕ → Option ℕ → Option ℕ
or_else none o = o
or_else (some s) o = some s

pub lookup-insert_all :
    (key : ℕ) (words base : Dictionary)
    → lookup key (insert_all words base) ≡ or_else (lookup key words) (lookup key base)
unfolding lookup insert_all
lookup-insert_all key [] base = refl
lookup-insert_all key ((k, v) ∷ words) base =
    ground (arith, lookup-insert_all key words base, lookup-insert key k v (insert_all words base))

pub lookup_copy :
    (key : ℕ) (words : Dictionary) → lookup key (insert_all words []) ≡ lookup key words
unfolding lookup
lookup_copy key words = ground (arith, lookup-insert_all key words [])

pub insert_all-Unique : (words base : Dictionary) → Unique base → Unique (insert_all words base)
unfolding insert_all
insert_all-Unique [] base u = u
insert_all-Unique ((k, v) ∷ words) base u =
    insert-Unique k v (insert_all words base) (insert_all-Unique words base u)

length-delete-Unique :
    (k v : ℕ) (m : Dictionary) → Unique m → lookup k m ≡ some v → length (delete k m) + 1 ≡ length m
unfolding lookup delete
length-delete-Unique k v [] u e = absurd (ground (arith, e))
length-delete-Unique k v ((j, w) ∷ m) u e =
    ground (arith, e, u.0, delete_absent k m, length-delete-Unique k v m u.1)

all_same-delete :
    (k : ℕ) (a b : Dictionary)
    → lookup k a ≡ none
    → all_same a b ≡ true
    → all_same a (delete k b) ≡ true
unfolding lookup all_same
all_same-delete k [] b n e = refl
all_same-delete k ((j, v) ∷ a) b n e =
    ground (arith, n, e, all_same-delete k a b, lookup-delete j k b)

-- A dictionary that has all of another one's words and no more keys is the same.
all_same-lookup :
    (a b : Dictionary) (key : ℕ)
    → Unique a
    → Unique b
    → length a ≡ length b
    → all_same a b ≡ true
    → lookup key a ≡ lookup key b
unfolding lookup all_same
all_same-lookup [] [] key u w l e = refl
all_same-lookup [] (x ∷ b) key u w l e = absurd (omega (arith, l))
all_same-lookup ((k, v) ∷ a) b key u w l e =
    let there : lookup k b ≡ some v = ground (arith, e) in
    let fewer : length a ≡ length (delete k b) =
      omega (arith, l, length-delete-Unique k v b w there) in
    let rest =
      all_same-lookup a (delete k b) key u.1 (delete-Unique k b w) fewer
        (all_same-delete k a b u.0 (ground (arith, e))) in
    ground (arith, there, rest, lookup-delete key k b)

pub same_translations-lookup :
    (a b : Dictionary) (key : ℕ)
    → Unique a
    → Unique b
    → same_translations a b ≡ true
    → lookup key a ≡ lookup key b
unfolding same_translations
same_translations-lookup a b key u w e =
    all_same-lookup a b key u w (ground (arith, e)) (ground (arith, e))
