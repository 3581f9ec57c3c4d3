-- ===== src/SqlCache/Scanner/Tests.antt =====
-- Scans of concrete statements. The stand-in for strings.ToUpper maps the letters of ASCII.
use request_generator.Common.{
  ℕ, ◌≡◌, ◌↔◌, refl, arith, true, false, none, some, All, In, [], ◌∷◌, ◌++◌, List, map,
}
use request_generator.SqlCache.Scanner.{
  Scan, codes, skip_line, skip_comment, quoted, skip_digits, identifier, plain_round, quote_round,
  code_round, round, scan_from, scan, same_text, is_one_of, has_prefix, upper_token_flags,
  ascii_upper, all_ascii, token_flags, readable, read_only, touches, session_changed,
}
use request_generator.SqlCache.Scanner.Progress.{scan_from-total}
use request_generator.SqlCache.Scanner.Properties.{read_only_iff}
use request_generator.SqlCache.Scanner.Rounds.{Rounds, here, onward}
use request_generator.SqlCache.Scanner.Ended.{Trailing, scan-ended}
use request_generator.SqlCache.Scanner.Literals.{literal, scan-literal}
use request_generator.SqlCache.Scanner.Words.{heads, shown, IsHarmless}

program : Unit {0}
unfolding skip_line skip_comment quoted skip_digits identifier plain_round quote_round code_round
    round scan_from same_text is_one_of has_prefix upper_token_flags all_ascii token_flags readable
    read_only touches session_changed
program = tt

abbrev upper : List ℕ → List ℕ
upper = map ascii_upper

verdicts :
    (read_only upper (codes "select a from t where b = 'x;y' -- insert") ≡ true)
    × (read_only upper (codes "WITH x AS (SELECT 1) SELECT * FROM x /* /* a */ b */;") ≡ true)
    × (read_only upper (codes "SELECT 1; SELECT 2") ≡ false)
    × (read_only upper (codes "SELECT * FROM t FOR UPDATE") ≡ false)
    × (read_only upper (codes "SELECT nextval('s')") ≡ false)
    × (read_only upper (codes "SELECT \"nextval\"('s')") ≡ false)
    × (read_only upper (codes "UPDATE t SET a = 1") ≡ false)
unfolding program
verdicts = (refl, refl, refl, refl, refl, refl, refl)

sessions :
    (session_changed upper (codes "set search_path = x") ≡ true)
    × (session_changed upper (codes "UPDATE t SET a = 1") ≡ false)
unfolding program
sessions = (refl, refl)

-- In PostgreSQL `name'\'` is a complete literal, and the statement calls nextval. The scan takes
-- the `e` before the quote for the prefix of an escape string, reads past the literal's end, and
-- admits the statement as a read.
typed_literal :
    read_only upper (codes "SELECT name'" ++ 92 ∷ codes "', nextval('s'), 'a--b'") ≡ true
unfolding program
typed_literal = refl

scan_from-total_example :
    (r : Scan) × (scan_from 8 false 0 (codes "SELECT 1") ≡ some r)
    × (scan_from 20 false 0 (codes "SELECT 1") ≡ some r)
scan_from-total_example =
    scan_from-total 8 20 false 0 (codes "SELECT 1") (omega arith) (omega arith)

-- A text that ends in a comment behind its semicolon.
abbrev closing : List ℕ
closing = codes "t; -- done"

closing-Rounds : Rounds false 0 closing (codes "t" ∷ []) false b't' (b';' ∷ codes " -- done")
unfolding program
closing-Rounds = onward _ _ _ _ _ _ _ _ (some (codes "t")) _ [] refl (here _ _ _)

abbrev one_token : Scan
one_token = record { valid = true; tokens = codes "t" ∷ [] }

scan-ended_example :
    (one_token.tokens ≡ codes "t" ∷ []) × ((one_token.valid ≡ true) ↔ Trailing (codes " -- done"))
unfolding program
scan-ended_example =
    scan-ended closing (codes " -- done") b't' (codes "t" ∷ []) one_token closing-Rounds refl

read_only_iff_example : (read_only upper (codes "SELECT 1") ≡ true) ↔ (
    (t : List ℕ) × (ts : List (List ℕ)) × (scan (codes "SELECT 1")
      ≡ some (record { valid = true; tokens = t ∷ ts }))
    × In (shown upper t) (map codes heads)
    × All (IsHarmless upper) (t ∷ ts))
read_only_iff_example = read_only_iff upper (codes "SELECT 1")

-- The quoted contents, `it's` and `; delete`, differ in everything the scan looks for.
literal_at :
    (a : List ℕ)
    → Rounds false 0 (b'=' ∷ literal a (codes " x")) [] false b'=' (literal a (codes " x"))
unfolding program
literal_at a = onward _ _ _ _ _ _ _ _ none _ [] refl (here _ _ _)

scan-literal_example :
    scan (b'=' ∷ literal (codes "it's") (codes " x"))
    ≡ scan (b'=' ∷ literal (codes "; delete") (codes " x"))
scan-literal_example =
    scan-literal (b'=' ∷ literal (codes "it's") (codes " x"))
      (b'=' ∷ literal (codes "; delete") (codes " x")) [] b'=' (codes "it's") (codes "; delete")
      (codes " x") (literal_at (codes "it's")) (literal_at (codes "; delete")) refl (omega arith)
      (omega arith) (omega arith)
