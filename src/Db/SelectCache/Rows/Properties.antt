-- ===== src/Db/SelectCache/Rows/Properties.antt =====
-- db/select_cache.go: a captured result is what the driver returned, row for row.
use mathlib.Core.List.{append_assoc, append-nil}
use mathlib.Core.Path.{subst}
use request_generator.Common.{
  ℕ, zero, suc, ◌+◌, ◌≤◌, ◌≡◌, refl, sym, ap, ◌∙◌, inl, inr, false, Option, none, some, List, [],
  ◌∷◌, ◌++◌, ltb, length, length-append, Bool-cases, arith,
}
use request_generator.Db.SelectCache.Rows.{
  Row, Cursor, row, unreadable, ends, Result, row_bytes, Captured, fails, prefixed, whole, finish,
  grow, capture_from, nothing, capture, nth, Prefixed, advance, prefixed_rows, prefixed_next,
  prefixed_scan, read_all,
}

-- The rows that the driver returns before the end or a failure.
abbrev pub rows_of : Cursor → List Row
rows_of (row r rest) = r ∷ rows_of rest
rows_of (unreadable e) = []
rows_of (ends e) = []

-- The first failure of the driver, and else that of Close.
abbrev pub failure : Option ℕ → Cursor → Option ℕ
failure closed (row r rest) = failure closed rest
failure closed (unreadable e) = some e
failure closed (ends none) = closed
failure closed (ends (some e)) = some e

abbrev pub size_of : List Row → ℕ
size_of [] = 0
size_of (r ∷ rows) = row_bytes r + size_of rows

-- What each outcome of a capture that started with `before` says of the driver's rows.
abbrev pub Faithful : ℕ → Option ℕ → Result → Cursor → Captured → Type 0
Faithful limit closed before c (fails e) = failure closed c ≡ some e
Faithful limit closed before c (prefixed rows rest) =
    (rows ++ rows_of rest ≡ before.rows ++ rows_of c) × (failure closed rest ≡ failure closed c)
Faithful limit closed before c (whole r) =
    (r.rows ≡ before.rows ++ rows_of c)
    × (r.bytes ≡ before.bytes + size_of (rows_of c))
    × (r.bytes ≤ limit)
    × (failure closed c ≡ none)

finish-Faithful :
    (limit : ℕ) (closed e : Option ℕ) (b : Result)
    → b.bytes ≤ limit
    → Faithful limit closed b (ends e) (finish e closed b)
finish-Faithful limit closed (some e) b h = refl
finish-Faithful limit (some e) none b h = refl
finish-Faithful limit none none b h = (sym (append-nil b.rows), omega arith, h, refl)

capture_from-Faithful :
    (limit : ℕ) (closed : Option ℕ) (c : Cursor) (b : Result)
    → b.bytes ≤ limit
    → Faithful limit closed b c (capture_from limit closed b c)
unfolding capture_from
capture_from-Faithful limit closed (unreadable e) b h = refl
capture_from-Faithful limit closed (ends e) b h = finish-Faithful limit closed e b h
capture_from-Faithful limit closed (row r rest) b h =
    elim (Bool-cases (ltb limit (grow b r).bytes)) [
      | inl over ↦ rw (over, capture_from) (append_assoc b.rows (r ∷ []) (rows_of rest), refl)
      | inr under ↦
          rw (under, capture_from)
            (grown (capture_from limit closed (grow b r) rest)
              (capture_from-Faithful limit closed rest (grow b r) (ground (arith, under))))
    ]
  where
    grown :
        (o : Captured)
        → Faithful limit closed (grow b r) rest o
        → Faithful limit closed b (row r rest) o
    grown (fails e) w = w
    grown (prefixed rows tail) w = (w.0 ∙ append_assoc b.rows (r ∷ []) (rows_of rest), w.1)
    grown (whole x) w =
        (w.0 ∙ append_assoc b.rows (r ∷ []) (rows_of rest), omega (arith, w.1), w.2, w.3)

-- Every outcome of captureListSQL is true to the driver's rows. It fails with the first failure of
-- the driver, or else with that of Close. A result it keeps has exactly the driver's rows, its size
-- is theirs and within the limit. A result that is too large is handed out seen a prefix and a rest
-- that together are the driver's rows.
pub capture-Faithful :
    (limit : ℕ) (closed : Option ℕ) (c : Cursor)
    → Faithful limit closed nothing c (capture limit closed c)
unfolding capture
capture-Faithful limit closed c = capture_from-Faithful limit closed c nothing (omega arith)

-- Behind the prefix a reader goes through the rest.
tail_phase :
    (fuel : ℕ) (c : Cursor) (p : Prefixed)
    → length p.prefix.rows ≤ p.prefix.index
    → advance p.started p.tail ≡ c
    → length (rows_of c) ≤ fuel
    → read_all fuel p ≡ rows_of c
unfolding read_all prefixed_next prefixed_scan
tail_phase zero (row r rest) p h e l = absurd (omega arith)
tail_phase zero (unreadable x) p h e l = refl
tail_phase zero (ends x) p h e l = refl
tail_phase (suc fuel) (unreadable x) p h e l = ground arith
tail_phase (suc fuel) (ends x) p h e l = ground arith
tail_phase (suc fuel) (row r rest) p h e l =
    ground (arith, tail_phase fuel rest (prefixed_next p).1)

nth-append : (seen bs : List Row) (b : Row) → nth (length seen) (seen ++ b ∷ bs) ≡ some b
unfolding nth
nth-append [] bs b = refl
nth-append (a ∷ seen) bs b = nth-append seen bs b

-- A reader that has gone through `seen` of the prefix.
prefix_phase :
    (fuel : ℕ) (bs seen : List Row) (c : Cursor) (p : Prefixed)
    → p.prefix.rows ≡ seen ++ bs
    → p.prefix.index ≡ length seen
    → p.started ≡ false
    → p.tail ≡ c
    → length bs + length (rows_of c) ≤ fuel
    → read_all fuel p ≡ bs ++ rows_of c
unfolding read_all prefixed_next prefixed_scan
prefix_phase fuel [] seen c p e i s t h =
    tail_phase fuel c p (ground (arith, length-append seen [])) (ground arith) (omega arith)
prefix_phase zero (b ∷ bs) seen c p e i s t h = absurd (omega arith)
prefix_phase (suc fuel) (b ∷ bs) seen c p e i s t h = ground (
  arith,
  length-append seen (b ∷ bs),
  length-append seen (b ∷ []),
  append_assoc seen (b ∷ []) bs,
  nth-append seen bs b,
  prefix_phase fuel bs (seen ++ b ∷ []) c (prefixed_next p).1,
)

-- A caller that reads the rows of a result too large to keep scans exactly the driver's rows, in
-- their order, whatever part of them the prefix holds.
pub read_all-prefixed :
    (limit fuel : ℕ) (closed : Option ℕ) (c rest : Cursor) (rows : List Row)
    → capture limit closed c ≡ prefixed rows rest
    → length (rows_of c) ≤ fuel
    → read_all fuel (prefixed_rows rows rest) ≡ rows_of c
read_all-prefixed limit fuel closed c rest rows e h =
    let (whole_rows, failure_kept) =
      subst (Faithful limit closed nothing c) e (capture-Faithful limit closed c) in
    prefix_phase fuel rows [] rest (prefixed_rows rows rest) refl refl refl refl
      (omega (arith, ap length whole_rows, length-append rows (rows_of rest)))
    ∙ whole_rows
