-- ===== src/SqlCache/Scanner/Progress.antt =====
-- db/sqlcache/sql.go: every round of the scan consumes a byte, so as much fuel as bytes is enough.
use mathlib.Core.Path.{subst}
use request_generator.Common.{
  ℕ, zero, suc, ◌≤◌, ◌≡◌, refl, inl, inr, Bool, true, false, ◌&&◌, ◌||◌, Option, none, some, List,
  [], ◌∷◌, ◌==◌, length, Bool-cases, arith,
}
use request_generator.SqlCache.Scanner.{
  Place, Round, refuse, next, Scan, skip_line, skip_comment, quoted, skip_digits, identifier, round,
  plain_round, quote_round, code_round, scan_from, emit, after_comment, after_quoted, tail, put,
}

skip_line-le : (p : ℕ) (s : List ℕ) → length (skip_line p s).rest ≤ length s
unfolding skip_line
skip_line-le p [] = omega arith
skip_line-le p (x ∷ r) = ground (arith, skip_line-le x r)

skip_comment-le :
    (d p : ℕ) (s : List ℕ) (l : Place) → skip_comment d p s ≡ some l → length l.rest ≤ length s
unfolding skip_comment
skip_comment-le zero p s l e = ground arith
skip_comment-le (suc d) p [] l e = cc
skip_comment-le (suc d) p (x ∷ []) l e = cc
skip_comment-le (suc d) p (x ∷ y ∷ r) l e = ground (
  arith,
  skip_comment-le (suc (suc d)) y r l,
  skip_comment-le d y r l,
  skip_comment-le (suc d) x (y ∷ r) l,
)

abbrev left : Option (List ℕ × List ℕ) → ℕ
left none = 0
left (some (v, t)) = suc (length t)

left-put : (w : List ℕ) (o : Option (List ℕ × List ℕ)) → left (put w o) ≡ left o
left-put w none = refl
left-put w (some (v, t)) = refl

left-split :
    (n : ℕ) (b : Bool) (x y : Option (List ℕ × List ℕ))
    → left x ≤ n
    → left y ≤ n
    → left (elim b [ true ↦ x | false ↦ y ]) ≤ n
left-split n true x y h k = h
left-split n false x y h k = k

left-quoted : (q : ℕ) (escaped : Bool) (s : List ℕ) → left (quoted q escaped s) ≤ length s
unfolding quoted
left-quoted q escaped [] = omega arith
left-quoted q escaped (x ∷ []) = ground arith
left-quoted q escaped (x ∷ y ∷ r) =
    left-split _ (x == 92 && escaped) _ _
      (moved (x ∷ y ∷ []) r (omega (arith, left-quoted q escaped r)))
      (left-split _ (x == q) _ _
        (left-split _ (y == q) _ _ (moved (q ∷ []) r (omega (arith, left-quoted q escaped r)))
          (omega arith))
        (moved (x ∷ []) (y ∷ r) (left-quoted q escaped (y ∷ r))))
  where
    moved :
        (w s : List ℕ)
        → left (quoted q escaped s) ≤ length (y ∷ r)
        → left (put w (quoted q escaped s)) ≤ length (x ∷ y ∷ r)
    moved w s h = omega (arith, left-put w (quoted q escaped s))

skip_digits-le : (p : ℕ) (s : List ℕ) → length (skip_digits p s).rest ≤ length s
unfolding skip_digits
skip_digits-le p [] = omega arith
skip_digits-le p (x ∷ r) = ground (arith, skip_digits-le x r)

identifier-le : (p : ℕ) (s : List ℕ) → length (identifier p s).1.rest ≤ length s
unfolding identifier
identifier-le p [] = omega arith
identifier-le p (x ∷ r) = ground (arith, identifier-le x r)

abbrev pub reached : Round → ℕ
reached refuse = 0
reached (next ended t l) = length l.rest

after_comment-le :
    (ended : Bool) (n : ℕ) (o : Option Place)
    → ((l : Place) → o ≡ some l → length l.rest ≤ n)
    → reached (after_comment ended o) ≤ n
after_comment-le ended n none h = omega arith
after_comment-le ended n (some l) h = h l refl

after_quoted-le :
    (q n : ℕ) (o : Option (List ℕ × List ℕ)) → left o ≤ n → reached (after_quoted q o) ≤ n
after_quoted-le q n none h = omega arith
after_quoted-le q n (some (v, t)) h = omega arith

tail-le : (r : List ℕ) → length (tail r) ≤ length r
tail-le [] = omega arith
tail-le (x ∷ r) = omega arith

-- A line comment is left behind its first byte.
comment_line-le : (p : ℕ) (r : List ℕ) → length (skip_line p (b'-' ∷ r)).rest ≤ length r
unfolding skip_line
comment_line-le p r = skip_line-le b'-' r

plain_round-le : (c : ℕ) (r : List ℕ) → reached (plain_round c r) ≤ length r
unfolding plain_round
plain_round-le c [] = ground (arith, identifier-le c [])
plain_round-le c (d ∷ s) = ground (arith, identifier-le c (d ∷ s), skip_digits-le d s)

quote_round-le : (p c : ℕ) (r : List ℕ) → reached (quote_round p c r) ≤ length r
unfolding quote_round
quote_round-le p c r = elim (Bool-cases (p == b'&')) [
  | inl e ↦ rw (e, reached) (omega arith)
  | inr e ↦
      rw (e, reached)
        (after_quoted-le c (length r) _ (left-quoted c (c == 39 && (p == b'E' || p == b'e')) r))
]

code_round-le : (p c : ℕ) (r : List ℕ) → reached (code_round p c r) ≤ length r
unfolding code_round
code_round-le p c r = ground (arith, quote_round-le p c r, plain_round-le c r)

pub round-le : (ended : Bool) (p c : ℕ) (r : List ℕ) → reached (round ended p c r) ≤ length r
unfolding round
round-le ended p c r = ground (
  arith,
  dash,
  after_comment-le ended (length r) (skip_comment 1 b'*' (tail r)) inside,
  code_round-le p c r,
)
  where
    dash : c ≡ b'-' → length (skip_line p (c ∷ r)).rest ≤ length r
    dash e = rw e (comment_line-le p r)

    inside : (l : Place) → skip_comment 1 b'*' (tail r) ≡ some l → length l.rest ≤ length r
    inside l e = omega (arith, skip_comment-le 1 b'*' (tail r) l e, tail-le r)

-- With as much fuel as bytes the scan ends, and more fuel changes nothing.
pub scan_from-total :
    (f g : ℕ) (ended : Bool) (p : ℕ) (s : List ℕ)
    → length s ≤ f
    → length s ≤ g
    → (r : Scan) × (scan_from f ended p s ≡ some r) × (scan_from g ended p s ≡ some r)
unfolding scan_from
scan_from-total f g ended p [] h k = (record { valid = true; tokens = [] }, refl, refl)
scan_from-total zero g ended p (c ∷ r) h k = absurd (omega arith)
scan_from-total (suc f) zero ended p (c ∷ r) h k = absurd (omega arith)
scan_from-total (suc f) (suc g) ended p (c ∷ r) h k =
    go (λ b q s i j. scan_from-total f g b q s i j) (round ended p c r) refl
  where
    further :
        (t : Option (List ℕ)) (a b : Option Scan)
        → (x : Scan) × (a ≡ some x) × (b ≡ some x)
        → (x : Scan) × ((elim a [ none ↦ none | some s ↦ some (emit t s) ]) ≡ some x)
          × ((elim b [ none ↦ none | some s ↦ some (emit t s) ]) ≡ some x)
    further t a b (x, e, d) = (emit t x, rw e refl, rw d refl)

    go :
        ((b : Bool) (q : ℕ) (s : List ℕ)
          → length s ≤ f
          → length s ≤ g
          → (x : Scan) × (scan_from f b q s ≡ some x) × (scan_from g b q s ≡ some x))
        → (w : Round) → round ended p c r ≡ w
        → (x : Scan) × (scan_from (suc f) ended p (c ∷ r) ≡ some x)
          × (scan_from (suc g) ended p (c ∷ r) ≡ some x)
    go more refuse e =
        (record { valid = false; tokens = [] }, rw (e, scan_from) refl, rw (e, scan_from) refl)
    go more (next ended' t l) e =
        let shorter : length l.rest ≤ length r =
          subst (λ w. reached w ≤ length r) e (round-le ended p c r) in
        rw (e, scan_from)
          (further t _ _ (more ended' l.previous l.rest (omega arith) (omega arith)))
