-- ===== src/SqlCache/Results/Queue.antt =====
-- db/sqlcache/expiry.go: the queue of deadlines, ordered and with one item for each entry.
use request_generator.Common.{
  ℕ, ◌≤◌, ◌≡◌, refl, none, some, List, [], ◌∷◌, ◌==◌, if◌then◌else◌, All, arith,
}
use request_generator.Common.Assoc.{lookup, delete, Unique}
use mathlib.Core.Option
use request_generator.SqlCache.Results.{Entry, deadline, push, init, reprice}

-- Deadlines do not fall along the queue.
abbrev pub Sorted : List (ℕ × ℕ) → Type 0
Sorted [] = Unit {0}
Sorted ((k, d) ∷ q) = All (λ (x : ℕ × ℕ). d ≤ x.1) q × Sorted q

pub lookup-push :
    (j k d : ℕ) (q : List (ℕ × ℕ))
    → lookup k q ≡ none
    → lookup j (push k d q) ≡ (if k == j then some d else lookup j q)
unfolding lookup push
lookup-push j k d [] h = refl
lookup-push j k d ((i, e) ∷ q) h = ground (arith, lookup-push j k d q)

pub push-Unique : (k d : ℕ) (q : List (ℕ × ℕ)) → lookup k q ≡ none → Unique q → Unique (push k d q)
unfolding lookup push
push-Unique k d [] h u = (refl, tt)
push-Unique k d ((i, e) ∷ q) h u = ground (arith, push-Unique k d q, lookup-push i k d q)

All-push :
    (a k d : ℕ) (q : List (ℕ × ℕ))
    → a ≤ d
    → All (λ (x : ℕ × ℕ). a ≤ x.1) q
    → All (λ (x : ℕ × ℕ). a ≤ x.1) (push k d q)
unfolding push
All-push a k d [] h s = (h, tt)
All-push a k d ((i, e) ∷ q) h s = ground (arith, All-push a k d q)

All-le :
    (a b : ℕ) (q : List (ℕ × ℕ))
    → a ≤ b
    → All (λ (x : ℕ × ℕ). b ≤ x.1) q
    → All (λ (x : ℕ × ℕ). a ≤ x.1) q
All-le a b [] h s = tt
All-le a b (x ∷ q) h s = (omega arith, All-le a b q h s.1)

pub push-Sorted : (k d : ℕ) (q : List (ℕ × ℕ)) → Sorted q → Sorted (push k d q)
unfolding push
push-Sorted k d [] s = (tt, tt)
push-Sorted k d ((i, e) ∷ q) s = ground (arith, push-Sorted k d q, All-push e k d q, All-le d e q)

All-delete :
    (a k : ℕ) (q : List (ℕ × ℕ))
    → All (λ (x : ℕ × ℕ). a ≤ x.1) q
    → All (λ (x : ℕ × ℕ). a ≤ x.1) (delete k q)
unfolding delete
All-delete a k [] s = tt
All-delete a k ((i, e) ∷ q) s = ground (arith, All-delete a k q)

pub delete-Sorted : (k : ℕ) (q : List (ℕ × ℕ)) → Sorted q → Sorted (delete k q)
unfolding delete
delete-Sorted k [] s = tt
delete-Sorted k ((i, e) ∷ q) s = ground (arith, delete-Sorted k q, All-delete e k q)

pub lookup-init : (j : ℕ) (q : List (ℕ × ℕ)) → Unique q → lookup j (init q) ≡ lookup j q
unfolding lookup init
lookup-init j [] u = refl
lookup-init j ((k, d) ∷ q) u =
    ground (arith, lookup-init j q, lookup-init k q, lookup-push j k d (init q))

pub init-Unique : (q : List (ℕ × ℕ)) → Unique q → Unique (init q)
unfolding init
init-Unique [] u = tt
init-Unique ((k, d) ∷ q) u =
    push-Unique k d (init q) (ground (arith, lookup-init k q)) (init-Unique q u.1)

pub init-Sorted : (q : List (ℕ × ℕ)) → Sorted (init q)
unfolding init
init-Sorted [] = tt
init-Sorted ((k, d) ∷ q) = push-Sorted k d (init q) (init-Sorted q)

-- One item for each entry, with the deadline that the entry has under the window.
abbrev pub Linked : ℕ → List (ℕ × ℕ) → List (ℕ × Entry) → Type 0
Linked ttl q m = (k : ℕ) → lookup k q ≡ Option.map (deadline ttl) (lookup k m)

pub lookup-reprice :
    (ttl k : ℕ) (m : List (ℕ × Entry)) (q : List (ℕ × ℕ))
    → lookup k (reprice ttl m q) ≡ (elim (lookup k q) [
      | none ↦ none
      | some d ↦ some (elim (lookup k m) [ none ↦ d | some e ↦ deadline ttl e ])
    ])
unfolding lookup reprice
lookup-reprice ttl k m [] = refl
lookup-reprice ttl k m ((j, d) ∷ q) = ground (arith, lookup-reprice ttl k m q)

pub reprice-Unique :
    (ttl : ℕ) (m : List (ℕ × Entry)) (q : List (ℕ × ℕ)) → Unique q → Unique (reprice ttl m q)
unfolding reprice
reprice-Unique ttl m [] u = tt
reprice-Unique ttl m ((j, d) ∷ q) u =
    (ground (arith, lookup-reprice ttl j m q), reprice-Unique ttl m q u.1)
