-- ===== src/SqlCache/Scanner/Rounds.antt =====
-- db/sqlcache/sql.go: a part of a scan, from one place in the statement to a later one.
use mathlib.Core.Path.{subst}
use request_generator.Common.{
  ℕ, zero, suc, ◌≤◌, ◌≡◌, refl, sym, ap, ◌∙◌, Bool, Option, none, some, List, [], ◌∷◌, ◌++◌, length,
  arith,
}
use request_generator.SqlCache.Scanner.{Place, next, Scan, emit, round, scan_from}
use request_generator.SqlCache.Scanner.Progress.{reached, round-le, scan_from-total}

abbrev pub add_token : Option (List ℕ) → List (List ℕ) → List (List ℕ)
add_token none tokens = tokens
add_token (some t) tokens = t ∷ tokens

-- Rounds that go on from one place to another, with the tokens that they emit.
pub data Rounds : Bool → ℕ → List ℕ → List (List ℕ) → Bool → ℕ → List ℕ → Type 0 where
  here : (ended : Bool) (p : ℕ) (s : List ℕ) → Rounds ended p s [] ended p s
  onward :
      (ended after last : Bool) (p q c : ℕ) (r s : List ℕ) (t : Option (List ℕ)) (l : Place)
      (tokens : List (List ℕ))
      → round ended p c r ≡ next after t l
      → Rounds after l.previous l.rest tokens last q s
      → Rounds ended p (c ∷ r) (add_token t tokens) last q s

abbrev pub found_before : List (List ℕ) → Scan → Scan
found_before tokens x = record x { tokens = tokens ++ x.tokens }

emit-found_before :
    (t : Option (List ℕ)) (tokens : List (List ℕ)) (x : Scan)
    → emit t (found_before tokens x) ≡ found_before (add_token t tokens) x
emit-found_before none tokens x = refl
emit-found_before (some t) tokens x = refl

-- What the scan reports is what it reports from the later place on, behind the tokens on the way.
pub scan_from-Rounds :
    (f g : ℕ) (ended last : Bool) (p q : ℕ) (s u : List ℕ) (tokens : List (List ℕ)) (x : Scan)
    → Rounds ended p s tokens last q u
    → length s ≤ f
    → length u ≤ g
    → scan_from g last q u ≡ some x
    → scan_from f ended p s ≡ some (found_before tokens x)
unfolding scan_from
scan_from-Rounds f g _ _ _ _ _ _ _ x (here ended p s) h k e =
    let (y, in_f, in_g) = scan_from-total f g ended p s h k in in_f ∙ sym in_g ∙ e
scan_from-Rounds zero g _ _ _ _ _ _ _ x (onward ended after last p q c r s t l tokens e w) h k i =
    absurd (omega (arith, h))
scan_from-Rounds (suc f) g _ _ _ _ _ _ _ x (onward ended after last p q c r s t l tokens e w) h k
      i =
    let shorter : length l.rest ≤ length r =
      subst (λ v. reached v ≤ length r) e (round-le ended p c r) in
    let rest =
      scan_from-Rounds f g after last l.previous q l.rest s tokens x w (omega (arith, shorter, h)) k
        i in
    rw (e, scan_from) (rw rest (ap some (emit-found_before t tokens x)))
