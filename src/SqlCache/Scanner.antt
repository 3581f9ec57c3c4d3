-- ===== src/SqlCache/Scanner.antt =====
-- db/sqlcache/sql.go, and trackSession of db/sqlcache/connector.go: the scan that decides which
-- statements are reads.
-- A statement is the list of its bytes. Where the source keeps an index, the model keeps the byte
-- before the index (0 at the start, which is neither of the two bytes that are looked for) and the
-- bytes from it on. strings.ToUpper, reached by tokens outside ASCII only, is a parameter.
pub mod Progress
pub mod Rounds
pub mod Ended
pub mod Literals
pub mod Words
pub mod Properties
pub mod Tests
use Prim.Native.Char.{code}
use Prim.Native.String.{String}
use request_generator.Common.{
  ℕ, zero, suc, ◌+◌, ◌-◌, ◌≡◌, Bool, true, false, ◌&&◌, ◌||◌, not, Option, none, some, List, [],
  ◌∷◌, ◌++◌, map, leb, ltb, ◌==◌, if◌then◌else◌, length,
}

abbrev pub codes : String → List ℕ
codes String.[] = []
codes (String.◌∷◌ c s) = code c ∷ codes s

abbrev pub starts_with : ℕ → List ℕ → Bool
starts_with c [] = false
starts_with c (x ∷ r) = x == c

abbrev pub tail : List ℕ → List ℕ
tail [] = []
tail (x ∷ r) = r

abbrev pub is_space : ℕ → Bool
is_space c = c == b' ' || (c == 9 || (c == 13 || c == 10))

abbrev pub is_digit : ℕ → Bool
is_digit c = leb b'0' c && leb c b'9'

abbrev pub is_letter : ℕ → Bool
is_letter c = c == b'_' || ((leb b'a' c && leb c b'z') || (leb b'A' c && leb c b'Z'))

-- The byte before the place reached, and the bytes from there on.
pub record Place : Type 0 where
  pub previous : ℕ
  pub rest : List ℕ

-- `--` to the end of the line, which stays.
unfoldable pub skip_line : ℕ → List ℕ → Place
skip_line p [] = record { previous = p; rest = [] }
skip_line p (x ∷ r) = elim (x == 10) [
  | true ↦ record { previous = p; rest = x ∷ r }
  | false ↦ skip_line x r
]

-- Nested block comments, from inside `depth` of them; `none` if one is not closed.
unfoldable pub skip_comment : ℕ → ℕ → List ℕ → Option Place
skip_comment zero p s = some (record { previous = p; rest = s })
skip_comment (suc d) p [] = none
skip_comment (suc d) p (x ∷ []) = none
skip_comment (suc d) p (x ∷ y ∷ r) = elim (x == b'/' && y == b'*') [
  | true ↦ skip_comment (suc (suc d)) y r
  | false ↦ elim (x == b'*' && y == b'/') [
    | true ↦ skip_comment d y r
    | false ↦ skip_comment (suc d) x (y ∷ r)
  ]
]

abbrev pub put : List ℕ → Option (List ℕ × List ℕ) → Option (List ℕ × List ℕ)
put w none = none
put w (some (v, s)) = some (w ++ v, s)

-- A quoted part from behind its opening quote, with the bytes up to the closing one, in which a
-- doubled quote stands once; `none` if it is not closed.
unfoldable pub quoted : ℕ → Bool → List ℕ → Option (List ℕ × List ℕ)
quoted q escaped [] = none
quoted q escaped (x ∷ []) =
    if x == 92 && escaped then none else if x == q then some ([], []) else none
quoted q escaped (x ∷ y ∷ r) = elim (x == 92 && escaped) [
  | true ↦ put (x ∷ y ∷ []) (quoted q escaped r)
  | false ↦ elim (x == q) [
    | true ↦ elim (y == q) [ true ↦ put (q ∷ []) (quoted q escaped r) | false ↦ some ([], y ∷ r) ]
    | false ↦ put (x ∷ []) (quoted q escaped (y ∷ r))
  ]
]

unfoldable pub skip_digits : ℕ → List ℕ → Place
skip_digits p [] = record { previous = p; rest = [] }
skip_digits p (x ∷ r) = elim (is_digit x) [
  | true ↦ skip_digits x r
  | false ↦ record { previous = p; rest = x ∷ r }
]

-- An identifier's bytes behind its first, and the place behind it.
unfoldable pub identifier : ℕ → List ℕ → List ℕ × Place
identifier p [] = ([], record { previous = p; rest = [] })
identifier p (x ∷ r) = elim (is_letter x || is_digit x) [
  | true ↦ (x ∷ (identifier x r).0, (identifier x r).1)
  | false ↦ ([], record { previous = p; rest = x ∷ r })
]

-- One round of the scanning loop: it refuses the statement, or goes on, perhaps behind a token.
pub data Round : Type 0 where
  refuse : Round
  next : Bool → Option (List ℕ) → Place → Round

abbrev pub after_comment : Bool → Option Place → Round
after_comment ended none = refuse
after_comment ended (some l) = next ended none l

abbrev pub after_quoted : ℕ → Option (List ℕ × List ℕ) → Round
after_quoted q none = refuse
after_quoted q (some (v, s)) =
    next false (if q == 34 then some v else none) (record { previous = q; rest = s })

-- `$1`, an identifier, or any other byte of ASCII.
unfoldable pub plain_round : ℕ → List ℕ → Round
plain_round c r =
    if c == b'$'
    then (elim r [
      | [] ↦ refuse
      | d ∷ s ↦ if is_digit d then next false none (skip_digits d s) else refuse
    ])
    else if is_letter c
    then next false (some (c ∷ (identifier c r).0)) (identifier c r).1
    else if leb 128 c
    then refuse
    else next false none (record { previous = c; rest = r })

unfoldable pub quote_round : ℕ → ℕ → List ℕ → Round
quote_round p c r =
    if p == b'&' then refuse else after_quoted c (quoted c (c == 39 && (p == b'E' || p == b'e')) r)

-- What stands outside comments, in a statement that has not ended.
unfoldable pub code_round : ℕ → ℕ → List ℕ → Round
code_round p c r =
    if c == b';'
    then next true none (record { previous = c; rest = r })
    else if c == 39 || c == 34
    then quote_round p c r
    else plain_round c r

unfoldable pub round : Bool → ℕ → ℕ → List ℕ → Round
round ended p c r =
    if is_space c
    then next ended none (record { previous = c; rest = r })
    else if c == b'-' && starts_with b'-' r
    then next ended none (skip_line p (c ∷ r))
    else if c == b'/' && starts_with b'*' r
    then after_comment ended (skip_comment 1 b'*' (tail r))
    else if ended
    then refuse
    else code_round p c r

-- What the scan reports: whether the statement is valid, and the tokens emitted so far.
pub record Scan : Type 0 where
  pub valid : Bool
  pub tokens : List (List ℕ)

abbrev pub emit : Option (List ℕ) → Scan → Scan
emit none s = s
emit (some t) s = record s { tokens = t ∷ s.tokens }

-- The loop of scanSQLTokens; `none` is fuel that ran out.
unfoldable pub scan_from : ℕ → Bool → ℕ → List ℕ → Option Scan
scan_from fuel ended p [] = some (record { valid = true; tokens = [] })
scan_from zero ended p (c ∷ r) = none
scan_from (suc fuel) ended p (c ∷ r) = elim (round ended p c r) [
  | refuse ↦ some (record { valid = false; tokens = [] })
  | next ended' t l ↦ elim (scan_from fuel ended' l.previous l.rest) [
    | none ↦ none
    | some s ↦ some (emit t s)
  ]
]

abbrev pub scan : List ℕ → Option Scan
scan s = scan_from (length s) false 0 s

pub record Flags : Type 0 where
  pub read_head : Bool
  pub unsafe_read : Bool
  pub session_head : Bool
  pub session_token : Bool

abbrev pub no_flags : Flags
no_flags = record {
  read_head = false;
  unsafe_read = false;
  session_head = false;
  session_token = false;
}

unfoldable pub same_text : List ℕ → List ℕ → Bool
same_text [] [] = true
same_text [] (y ∷ ys) = false
same_text (x ∷ xs) [] = false
same_text (x ∷ xs) (y ∷ ys) = x == y && same_text xs ys

unfoldable pub is_one_of : List ℕ → List String → Bool
is_one_of t [] = false
is_one_of t (k ∷ ks) = same_text t (codes k) || is_one_of t ks

unfoldable pub has_prefix : List ℕ → List ℕ → Bool
has_prefix t [] = true
has_prefix [] (p ∷ ps) = false
has_prefix (x ∷ t) (p ∷ ps) = x == p && has_prefix t ps

unfoldable pub upper_token_flags : List ℕ → Flags
upper_token_flags t =
    if is_one_of t ("SELECT" ∷ "WITH" ∷ [])
    then record no_flags { read_head = true }
    else if is_one_of t ("SET" ∷ "RESET" ∷ "DISCARD" ∷ "BEGIN" ∷ "COMMIT" ∷ "ROLLBACK" ∷ "DO" ∷ [])
    then record no_flags { unsafe_read = true; session_head = true }
    else if is_one_of t ("START" ∷ [])
    then record no_flags { session_head = true }
    else if is_one_of t ("SET_CONFIG" ∷ [])
    then record no_flags { unsafe_read = true; session_token = true }
    else if is_one_of t ("TEMP" ∷ "TEMPORARY" ∷ [])
    then record no_flags { session_token = true }
    else if is_one_of t (
        "INSERT" ∷ "UPDATE" ∷ "DELETE" ∷ "MERGE" ∷ "INTO" ∷ "FOR" ∷ "LOCK" ∷ "COPY" ∷ "CALL"
        ∷ "NEXTVAL" ∷ "SETVAL" ∷ "CURRVAL" ∷ "LASTVAL" ∷ "CURRENT_SETTING" ∷ "RANDOM"
        ∷ "CLOCK_TIMESTAMP" ∷ "TXID_CURRENT" ∷ "GEN_RANDOM_UUID" ∷ "UUID_GENERATE_V4" ∷ [])
    then record no_flags { unsafe_read = true }
    else if has_prefix t (codes "PG_")
    then record no_flags { unsafe_read = true }
    else no_flags

abbrev pub ascii_upper : ℕ → ℕ
ascii_upper c = if leb b'a' c && leb c b'z' then c - 32 else c

unfoldable pub all_ascii : List ℕ → Bool
all_ascii [] = true
all_ascii (x ∷ xs) = ltb x 128 && all_ascii xs

module _ (to_upper : List ℕ → List ℕ) where
  unfoldable pub token_flags : List ℕ → Flags
  token_flags t =
      if ltb 32 (length t)
      then (if has_prefix (map ascii_upper t) (codes "PG_")
          then record no_flags { unsafe_read = true }
          else no_flags)
      else if all_ascii t
      then upper_token_flags (map ascii_upper t)
      else upper_token_flags (to_upper t)

  -- The callback of readOnly: only the first token decides whether this can be a read, and any
  -- token may spoil it.
  unfoldable pub readable : Bool → Bool → List (List ℕ) → Bool
  readable first so_far [] = so_far
  readable first so_far (t ∷ ts) =
      readable false
        ((if first then (token_flags t).read_head else so_far) && not (token_flags t).unsafe_read)
        ts

  unfoldable pub read_only : List ℕ → Bool
  read_only s = elim (scan s) [ none ↦ false | some r ↦ r.valid && readable true false r.tokens ]

  -- The callback of trackSession.
  unfoldable pub touches : Bool → List (List ℕ) → Bool
  touches first [] = false
  touches first (t ∷ ts) =
      ((token_flags t).session_token || (first && (token_flags t).session_head)) || touches false ts

  unfoldable pub session_changed : List ℕ → Bool
  session_changed s = elim (scan s) [ none ↦ true | some r ↦ touches true r.tokens || not r.valid ]
