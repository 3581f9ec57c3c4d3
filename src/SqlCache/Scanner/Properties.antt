-- ===== src/SqlCache/Scanner/Properties.antt =====
-- db/sqlcache/sql.go: what the scan guarantees about the statements that it admits to the cache.
use mathlib.Core.Path.{subst}
use request_generator.Common.{
  ℕ, ◌≡◌, ◌↔◌, refl, ap, sym, Bool, true, false, ◌&&◌, not, Option, none, some, List, [], ◌∷◌, map,
  some_inj, cons_inj, All, All-map, In, arith,
}
use request_generator.SqlCache.Scanner.{
  Scan, scan, token_flags, all_ascii, ascii_upper, readable, read_only,
}
use request_generator.SqlCache.Scanner.{codes}
use request_generator.SqlCache.Scanner.Words.{
  heads, shown, IsHarmless, read_head_iff, unsafe_read_iff, length-upper,
}

abbrev AllSafe : (List ℕ → List ℕ) → List (List ℕ) → Type 0
AllSafe to_upper = All (λ t. (token_flags to_upper t).unsafe_read ≡ false)

module _ (to_upper : List ℕ → List ℕ) where
  later :
      (b : Bool) (ts : List (List ℕ))
      → (readable to_upper false b ts ≡ true) ↔ ((b ≡ true) × AllSafe to_upper ts)
  unfolding readable
  later b [] = ground arith
  later b (t ∷ ts) = ground (arith, later (b && not (token_flags to_upper t).unsafe_read) ts)

  abbrev Reads : Option Scan → Type 0
  Reads o =
      (t : List ℕ) × (ts : List (List ℕ)) × (o ≡ some (record { valid = true; tokens = t ∷ ts }))
      × ((token_flags to_upper t).read_head ≡ true)
      × AllSafe to_upper (t ∷ ts)

  decided :
      (o : Option Scan)
      → ((elim o [ none ↦ false | some r ↦ r.valid && readable to_upper true false r.tokens ])
          ≡ true)
        ↔ Reads o
  unfolding readable
  decided none = (λ e. cc, λ (t, ts, e, h, safe). cc)
  decided (some r) = parts r.valid r.tokens
    where
      parts :
          (v : Bool) (ts : List (List ℕ))
          → ((v && readable to_upper true false ts) ≡ true)
            ↔ Reads (some (record { valid = v; tokens = ts }))
      parts false ts =
          (λ e. cc, λ (t, us, e, h, safe). cc (ap (λ (y : Scan). y.valid) (some_inj e)))
      parts true [] =
          (λ e. cc, λ (t, us, e, h, safe). cc (ap (λ (y : Scan). y.tokens) (some_inj e)))
      parts true (t ∷ ts) =
          let step =
            later ((token_flags to_upper t).read_head && not (token_flags to_upper t).unsafe_read)
              ts in
          (
            λ e. let h = step.0 e in (t, ts, refl, ground arith, (ground arith, h.1)),
            λ (u, us, e, h, safe).
                let all =
                  subst (AllSafe to_upper) (sym (ap (λ (y : Scan). y.tokens) (some_inj e))) safe in
                let head = (cons_inj (ap (λ (y : Scan). y.tokens) (some_inj e))).0 in
                let first : (token_flags to_upper t).read_head ≡ true = rw head h in
                step.1 (ground arith, all.1),
          )

  -- A statement is a read exactly if the scan accepts it whole, its first token is SELECT or WITH, and
  -- none of the tokens that the scan finds is one of the forbidden words or begins with PG_. Tokens are
  -- compared in upper case, and a statement without tokens is no read.
  pub read_only_iff :
      (s : List ℕ)
      → (read_only to_upper s ≡ true) ↔ (
          (t : List ℕ) × (ts : List (List ℕ)) × (scan s
            ≡ some (record { valid = true; tokens = t ∷ ts }))
          × In (shown to_upper t) (map codes heads)
          × All (IsHarmless to_upper) (t ∷ ts))
  unfolding read_only readable
  read_only_iff s = (
    λ e.
        let (t, ts, found, head, safe) = (decided (scan s)).0 e in
        (
          t,
          ts,
          found,
          (read_head_iff to_upper t).0 head,
          All-map (t ∷ ts) (λ x. (unsafe_read_iff to_upper x).0) safe,
        ),
    λ (t, ts, found, head, safe). (decided (scan s)).1 (
      t,
      ts,
      found,
      (read_head_iff to_upper t).1 head,
      All-map (t ∷ ts) (λ x. (unsafe_read_iff to_upper x).1) safe,
    ),
  )

all_ascii-upper : (t : List ℕ) → all_ascii t ≡ true → all_ascii (map ascii_upper t) ≡ true
unfolding all_ascii
all_ascii-upper [] e = refl
all_ascii-upper (x ∷ t) e = ground (arith, all_ascii-upper t)

upper-upper : (t : List ℕ) → map ascii_upper (map ascii_upper t) ≡ map ascii_upper t
upper-upper [] = refl
upper-upper (x ∷ t) = ground (arith, upper-upper t)

-- Letter case hides no keyword: a token of ASCII is classified as its upper-case form is.
token_flags-upper :
    (to_upper : List ℕ → List ℕ) (t : List ℕ)
    → all_ascii t ≡ true
    → token_flags to_upper (map ascii_upper t) ≡ token_flags to_upper t
unfolding token_flags
token_flags-upper to_upper t e = rw (length-upper t, upper-upper t, all_ascii-upper t e, e) refl
