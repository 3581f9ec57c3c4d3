-- ===== src/Db/SelectCache/Rows.antt =====
-- db/select_cache.go: captureListSQL, and the rows that it hands out.
-- A driver's rows are what its successive calls return, and a copied value is equal to the value.
pub mod Properties
use request_generator.Common.{
  ℕ, zero, suc, ◌+◌, ◌-◌, ◌*◌, ◌≤◌, ◌<◌, ◌≡◌, refl, sym, ap, ◌∙◌, Bool, true, false, Option, none,
  some, List, [], ◌∷◌, ◌++◌, ltb, leb, if◌then◌else◌, length, arith,
}

pub data Value : Type 0 where
  blob : List ℕ → Value
  text : List ℕ → Value
  scalar : ℕ → Value

abbrev pub Row : Type 0
Row = List Value

-- What is left of a driver's rows: a row, a row that Scan fails on, or the end with its Err.
pub data Cursor : Type 0 where
  row : Row → Cursor → Cursor
  unreadable : ℕ → Cursor
  ends : Option ℕ → Cursor

pub record Result : Type 0 where
  pub rows : List Row
  pub bytes : ℕ

unfoldable pub values_bytes : Row → ℕ
values_bytes [] = 0
values_bytes (blob b ∷ r) = length b + values_bytes r
values_bytes (text t ∷ r) = length t + values_bytes r
values_bytes (scalar n ∷ r) = 24 + values_bytes r

abbrev pub row_bytes : Row → ℕ
row_bytes r = (24 + length r * 16) + values_bytes r

pub data Captured : Type 0 where
  fails : ℕ → Captured
  prefixed : List Row → Cursor → Captured
  whole : Result → Captured

-- The end of the rows, with what their Close returns.
abbrev pub finish : Option ℕ → Option ℕ → Result → Captured
finish (some e) closed r = fails e
finish none (some e) r = fails e
finish none none r = whole r

abbrev pub grow : Result → Row → Result
grow so_far r = record { rows = so_far.rows ++ r ∷ []; bytes = so_far.bytes + row_bytes r }

-- The loop over the rows, with the result so far.
unfoldable pub capture_from : ℕ → Option ℕ → Result → Cursor → Captured
capture_from limit closed so_far (unreadable e) = fails e
capture_from limit closed so_far (ends e) = finish e closed so_far
capture_from limit closed so_far (row r rest) = elim (ltb limit (grow so_far r).bytes) [
  | true ↦ prefixed (grow so_far r).rows rest
  | false ↦ capture_from limit closed (grow so_far r) rest
]

abbrev pub nothing : Result
nothing = record { rows = []; bytes = 0 }

unfoldable pub capture : ℕ → Option ℕ → Cursor → Captured
capture limit closed c = capture_from limit closed nothing c

-- bufferedSelectRows: the rows, and how often Next was called.
pub record Buffered : Type 0 where
  pub rows : List Row
  pub index : ℕ

abbrev pub buffered : List Row → Buffered
buffered rows = record { rows = rows; index = 0 }

unfoldable pub nth : ℕ → List Row → Option Row
nth i [] = none
nth zero (r ∷ rows) = some r
nth (suc i) (r ∷ rows) = nth i rows

abbrev pub buffered_next : Buffered → Bool × Buffered
buffered_next b = (leb (b.index + 1) (length b.rows), record b { index = b.index + 1 })

-- The row that Scan reads; `none` is its error.
abbrev pub buffered_scan : Buffered → Option Row
buffered_scan b = if ltb b.index 1 then none else nth (b.index - 1) b.rows

-- prefixedSelectRows. The driver's row that Next has reached is the first of `tail`.
pub record Prefixed : Type 0 where
  pub prefix : Buffered
  pub tail : Cursor
  pub in_prefix : Bool
  pub started : Bool

abbrev pub advance : Bool → Cursor → Cursor
advance false c = c
advance true (row r rest) = rest
advance true (unreadable e) = unreadable e
advance true (ends e) = ends e

abbrev pub has_row : Cursor → Bool
has_row (row r rest) = true
has_row (unreadable e) = true
has_row (ends e) = false

abbrev pub current : Cursor → Option Row
current (row r rest) = some r
current (unreadable e) = none
current (ends e) = none

abbrev pub prefixed_rows : List Row → Cursor → Prefixed
prefixed_rows rows rest = record {
  prefix = buffered rows;
  tail = rest;
  in_prefix = false;
  started = false;
}

unfoldable pub prefixed_next : Prefixed → Bool × Prefixed
prefixed_next p =
    if (buffered_next p.prefix).0
    then (true, record p { prefix = (buffered_next p.prefix).1; in_prefix = true })
    else (
      has_row (advance p.started p.tail),
      record p {
        prefix = (buffered_next p.prefix).1;
        in_prefix = false;
        tail = advance p.started p.tail;
        started = true;
      },
    )

unfoldable pub prefixed_scan : Prefixed → Option Row
prefixed_scan p = if p.in_prefix then buffered_scan p.prefix else current p.tail

-- A caller that reads to the end, over at most `fuel` rows: the rows it has scanned.
unfoldable pub read_all : ℕ → Prefixed → List Row
read_all zero p = []
read_all (suc fuel) p =
    let rest = read_all fuel (prefixed_next p).1 in
    elim (prefixed_next p).0 [
      | false ↦ []
      | true ↦ elim (prefixed_scan (prefixed_next p).1) [ none ↦ [] | some r ↦ r ∷ rest ]
    ]
