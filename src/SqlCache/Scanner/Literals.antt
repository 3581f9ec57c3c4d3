-- ===== src/SqlCache/Scanner/Literals.antt =====
-- db/sqlcache/sql.go: the contents of string literals, in which a quote is written twice.
use request_generator.Common.{
  ℕ, ◌≡◌, ◌≢◌, refl, ap, sym, ◌∙◌, inl, inr, false, none, some, List, [], ◌∷◌, ◌++◌, ◌==◌,
  if◌then◌else◌, length, Bool-cases, and_false, ne-==, arith,
}
use request_generator.SqlCache.Scanner.{
  next, starts_with, put, quoted, round, quote_round, code_round, scan,
}
use request_generator.SqlCache.Scanner.Progress.{scan_from-total}
use request_generator.SqlCache.Scanner.Rounds.{Rounds, here, onward, found_before, scan_from-Rounds}

-- A text as the contents of a string literal.
abbrev pub escape : List ℕ → List ℕ
escape [] = []
escape (c ∷ s) = if c == 39 then 39 ∷ 39 ∷ escape s else c ∷ escape s

abbrev pub literal : List ℕ → List ℕ → List ℕ
literal a r = 39 ∷ (escape a ++ 39 ∷ r)

quoted-other :
    (c : ℕ) (s : List ℕ) → c ≢ 39 → quoted 39 false (c ∷ s) ≡ put (c ∷ []) (quoted 39 false s)
unfolding quoted
quoted-other c [] n = ground (arith, n)
quoted-other c (y ∷ r) n = rw (and_false (c == 92), quoted) (rw (ne-== c 39 n) refl)

quoted_pair : (s : List ℕ) → quoted 39 false (39 ∷ 39 ∷ s) ≡ put (39 ∷ []) (quoted 39 false s)
unfolding quoted
quoted_pair s = refl

quoted_end : (r : List ℕ) → starts_with 39 r ≡ false → quoted 39 false (39 ∷ r) ≡ some ([], r)
unfolding quoted
quoted_end [] h = refl
quoted_end (y ∷ r) h = ground arith

-- The scan reads any contents back.
quoted-escape :
    (a r : List ℕ) → starts_with 39 r ≡ false → quoted 39 false (escape a ++ 39 ∷ r) ≡ some (a, r)
quoted-escape [] r h = quoted_end r h
quoted-escape (c ∷ a) r h = elim (Bool-cases (c == 39)) [
  | inl quote ↦
      let same : 39 ≡ c = ground (arith, quote) in
      rw quote (
        quoted_pair (escape a ++ 39 ∷ r)
        ∙ ap (put (39 ∷ [])) (quoted-escape a r h)
        ∙ ap (λ x. some (x ∷ a, r)) same)
  | inr other ↦ rw other (
      quoted-other c (escape a ++ 39 ∷ r) (ground (arith, other))
      ∙ ap (put (c ∷ [])) (quoted-escape a r h))
]

round-literal :
    (p : ℕ) (a r : List ℕ)
    → starts_with 39 r ≡ false
    → p ≢ b'E'
    → p ≢ b'e'
    → p ≢ b'&'
    → round false p 39 (escape a ++ 39 ∷ r) ≡ next false none (record { previous = 39; rest = r })
unfolding round code_round quote_round
round-literal p a r h i j k =
    ground (arith, quoted-escape a r h, ne-== p b'&' k, ne-== p b'E' i, ne-== p b'e' j)

literal-Rounds :
    (p : ℕ) (a r : List ℕ)
    → starts_with 39 r ≡ false
    → p ≢ b'E'
    → p ≢ b'e'
    → p ≢ b'&'
    → Rounds false p (literal a r) [] false 39 r
literal-Rounds p a r h i j k =
    onward false false false p 39 39 (escape a ++ 39 ∷ r) r none
      (record { previous = 39; rest = r }) [] (round-literal p a r h i j k) (here false 39 r)

-- What stands inside a string literal cannot change the scan, whatever it is, quotes included, which
-- the literal doubles. Let the scans of two statements come, with the same tokens, to two literals
-- behind the same byte, which is no `E`, `e` or `&`, and let the same text follow both, which does not
-- begin with a quote. Then both statements have the same tokens and the same verdict.
pub scan-literal :
    (s u : List ℕ) (tokens : List (List ℕ)) (p : ℕ) (a b r : List ℕ)
    → Rounds false 0 s tokens false p (literal a r)
    → Rounds false 0 u tokens false p (literal b r)
    → starts_with 39 r ≡ false
    → p ≢ b'E'
    → p ≢ b'e'
    → p ≢ b'&'
    → scan s ≡ scan u
scan-literal s u tokens p a b r v w h i j k =
    let n = length r in
    let (y, later, again) = scan_from-total n n false 39 r (omega arith) (omega arith) in
    let through : (t c : List ℕ)
        → Rounds false 0 t tokens false p (literal c r)
        → scan t ≡ some (found_before tokens y) =
      λ t c x.
        scan_from-Rounds (length t) (length (literal c r)) false false 0 p t (literal c r) tokens y
          x (omega arith) (omega arith)
          (scan_from-Rounds (length (literal c r)) n false false p 39 (literal c r) r [] y
            (literal-Rounds p c r h i j k) (omega arith) (omega arith) later) in
    through s a v ∙ sym (through u b w)
