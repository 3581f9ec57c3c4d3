-- ===== src/SqlCache/Scanner/Ended.antt =====
-- db/sqlcache/sql.go: what may stand behind the semicolon that ends a statement.
use mathlib.Core.Path.{subst}
use mathlib.Core.List.{append-nil}
use request_generator.Common.{
  ℕ, zero, suc, ◌≡◌, ◌↔◌, refl, ap, sym, ◌∙◌, ◌⊎◌, inl, inr, Bool, true, false, ◌&&◌, Option, none,
  some, List, [], ◌∷◌, ◌++◌, ◌==◌, length, some_inj, Bool-cases, Option-cases, arith,
}
use request_generator.SqlCache.Scanner.{
  Place, refuse, next, Scan, is_space, starts_with, tail, skip_line, skip_comment, round,
  code_round, scan_from, scan, emit, after_comment,
}
use request_generator.SqlCache.Scanner.Progress.{scan_from-total}
use request_generator.SqlCache.Scanner.Rounds.{Rounds, found_before, scan_from-Rounds}

-- Nothing but white space, line comments and nested block comments that are closed.
pub data Trailing : List ℕ → Type 0 where
  nothing : Trailing []
  space : (c : ℕ) (r : List ℕ) → is_space c ≡ true → Trailing r → Trailing (c ∷ r)
  line : (r : List ℕ) → Trailing (skip_line b'-' r).rest → Trailing (b'-' ∷ b'-' ∷ r)
  block :
      (r : List ℕ) (l : Place)
      → skip_comment 1 b'*' r ≡ some l
      → Trailing l.rest
      → Trailing (b'/' ∷ b'*' ∷ r)

-- Such a part begins with what one round skips.
Trailing-round :
    (p c : ℕ) (r : List ℕ)
    → Trailing (c ∷ r)
    → (l : Place) × (round true p c r ≡ next true none l) × Trailing l.rest
unfolding round skip_line
Trailing-round p c r (space _ _ e t) = (record { previous = c; rest = r }, ground (arith, e), t)
Trailing-round p _ _ (line r t) = (skip_line b'-' r, refl, t)
Trailing-round p _ _ (block r l e t) = (l, ap (after_comment true) e, t)

-- The next byte, where one is tested for.
starts_with-cons : (c : ℕ) (r : List ℕ) → starts_with c r ≡ true → r ≡ c ∷ tail r
starts_with-cons c [] e = cc e
starts_with-cons c (x ∷ r) e = ground (arith, e)

round-Trailing :
    (p c : ℕ) (r : List ℕ)
    → (round true p c r ≡ refuse)
      ⊎ ((l : Place) × (round true p c r ≡ next true none l) × (Trailing l.rest → Trailing (c ∷ r)))
unfolding round skip_line
round-Trailing p c r = elim (Bool-cases (is_space c)) [
  | inl e ↦ inr (record { previous = c; rest = r }, ground (arith, e), λ t. space c r e t)
  | inr visible ↦ elim (Bool-cases (c == b'-' && starts_with b'-' r)) [
    | inl e ↦
        let dash : c ≡ b'-' = ground (arith, e) in
        let more : r ≡ b'-' ∷ tail r = starts_with-cons b'-' r (ground (arith, e)) in
        rw (dash, more) (inr (skip_line b'-' (tail r), refl, λ t. line (tail r) t))
    | inr no_line ↦ elim (Bool-cases (c == b'/' && starts_with b'*' r)) [
      | inr no_block ↦ inl (ground (arith, visible, no_line, no_block))
      | inl e ↦
          let slash : c ≡ b'/' = ground (arith, e) in
          let more : r ≡ b'*' ∷ tail r = starts_with-cons b'*' r (ground (arith, e)) in
          rw (slash, more)
            (elim (Option-cases (skip_comment 1 b'*' (tail r))) [
              | inl unclosed ↦ inl (ap (after_comment true) unclosed)
              | inr (l, closed) ↦
                  inr (l, ap (after_comment true) closed, λ t. block (tail r) l closed t)
            ])
    ]
  ]
]

one_round :
    (f p c : ℕ) (ended after : Bool) (r : List ℕ) (l : Place)
    → round ended p c r ≡ next after none l
    → scan_from (suc f) ended p (c ∷ r) ≡ scan_from f after l.previous l.rest
unfolding scan_from
one_round f p c ended after r l e = rw (e, scan_from) (same (scan_from f after l.previous l.rest))
  where
    same : (o : Option Scan) → (elim o [ none ↦ none | some x ↦ some (emit none x) ]) ≡ o
    same none = refl
    same (some x) = refl

place_of : (l m : Place) → next true none l ≡ next true none m → l ≡ m
place_of l m e = cc e

scan_from-Trailing :
    (f p : ℕ) (s : List ℕ) (x : Scan)
    → scan_from f true p s ≡ some x
    → (x.tokens ≡ []) × ((x.valid ≡ true) ↔ Trailing s)
unfolding scan_from
scan_from-Trailing f p [] x e =
    let same = sym (some_inj e) in
    (ap (λ (y : Scan). y.tokens) same, (λ h. nothing, λ t. ap (λ (y : Scan). y.valid) same))
scan_from-Trailing zero p (c ∷ r) x e = cc
scan_from-Trailing (suc f) p (c ∷ r) x e = elim (round-Trailing p c r) [
  | inl stops ↦
      let same = sym (some_inj (rw (stops, scan_from) at e)) in
      (
        ap (λ (y : Scan). y.tokens) same,
        (
          λ h. absurd (cc (sym h ∙ ap (λ (y : Scan). y.valid) same)),
          λ t. let (l, goes_on, rest) = Trailing-round p c r t in absurd (cc (sym stops ∙ goes_on)),
        ),
      )
  | inr (l, goes_on, back) ↦
      let (silent, (to, from)) =
        scan_from-Trailing f l.previous l.rest x
          (sym (one_round f p c true true r l goes_on) ∙ e) in
      (
        silent,
        (
          λ h. back (to h),
          λ t.
              let (m, skipped, rest) = Trailing-round p c r t in
              from (
                subst (λ (k : Place). Trailing k.rest) (place_of m l (sym skipped ∙ goes_on)) rest),
        ),
      )
]

-- A valid text is one statement. Where the scan of a text comes to a semicolon, outside comments and
-- quotes and before any other one has ended the statement, it finds no further token, and the text is
-- valid exactly if only white space and closed comments follow.
pub scan-ended :
    (s r : List ℕ) (p : ℕ) (tokens : List (List ℕ)) (x : Scan)
    → Rounds false 0 s tokens false p (b';' ∷ r)
    → scan s ≡ some x
    → (x.tokens ≡ tokens) × ((x.valid ≡ true) ↔ Trailing r)
scan-ended s r p tokens x w e =
    let n = length r in
    let (y, later, again) = scan_from-total n n true b';' r (omega arith) (omega arith) in
    let closed : round false p b';' r ≡ next true none (record { previous = b';'; rest = r }) =
      unfold round code_round in refl in
    let from_there : scan_from (suc n) false p (b';' ∷ r) ≡ some y =
      one_round n p b';' false true r (record { previous = b';'; rest = r }) closed ∙ later in
    let whole =
      scan_from-Rounds (length s) (suc n) false false 0 p s (b';' ∷ r) tokens y w (omega arith)
        (omega arith) from_there in
    let same : x ≡ found_before tokens y = some_inj (sym e ∙ whole) in
    let (silent, (to, from)) = scan_from-Trailing n b';' r y later in
    (
      ap (λ (z : Scan). z.tokens) same ∙ ap (λ ts. tokens ++ ts) silent ∙ append-nil tokens,
      (
        λ h. to (sym (ap (λ (z : Scan). z.valid) same) ∙ h),
        λ t. ap (λ (z : Scan). z.valid) same ∙ from t,
      ),
    )
