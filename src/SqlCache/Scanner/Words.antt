-- ===== src/SqlCache/Scanner/Words.antt =====
-- db/sqlcache/sql.go: the words that make a statement a read or spoil it, as plain lists.
use Prim.Native.String.{String}
use request_generator.Common.{
  ℕ, suc, ◌≡◌, ◌↔◌, refl, ap, sym, ◌∙◌, inl, inr, Bool, true, false, ◌&&◌, ◌||◌, not, List, [], ◌∷◌,
  ◌++◌, map, ltb, if◌then◌else◌, length, Bool-cases, In, arith,
}
use request_generator.SqlCache.Scanner.{
  codes, same_text, is_one_of, has_prefix, upper_token_flags, ascii_upper, all_ascii, token_flags,
}

abbrev pub heads : List String
heads = "SELECT" ∷ "WITH" ∷ []

-- Statements that change data or the session, and functions whose results depend on when they run.
abbrev pub forbidden : List String
forbidden =
    "SET" ∷ "RESET" ∷ "DISCARD" ∷ "BEGIN" ∷ "COMMIT" ∷ "ROLLBACK" ∷ "DO" ∷ "SET_CONFIG" ∷ "INSERT"
    ∷ "UPDATE" ∷ "DELETE" ∷ "MERGE" ∷ "INTO" ∷ "FOR" ∷ "LOCK" ∷ "COPY" ∷ "CALL" ∷ "NEXTVAL"
    ∷ "SETVAL" ∷ "CURRVAL" ∷ "LASTVAL" ∷ "CURRENT_SETTING" ∷ "RANDOM" ∷ "CLOCK_TIMESTAMP"
    ∷ "TXID_CURRENT" ∷ "GEN_RANDOM_UUID" ∷ "UUID_GENERATE_V4" ∷ []

abbrev pub Begins : List ℕ → List ℕ → Type 0
Begins w t = (rest : List ℕ) × (t ≡ w ++ rest)

same_text-eq : (a b : List ℕ) → same_text a b ≡ true → b ≡ a
unfolding same_text
same_text-eq [] [] e = refl
same_text-eq [] (y ∷ b) e = cc e
same_text-eq (x ∷ a) [] e = cc e
same_text-eq (x ∷ a) (y ∷ b) e = ground (arith, e, same_text-eq a b)

same_text_self : (a : List ℕ) → same_text a a ≡ true
unfolding same_text
same_text_self [] = refl
same_text_self (x ∷ a) = ground (arith, same_text_self a)

is_one_of_iff : (t : List ℕ) (ks : List String) → (is_one_of t ks ≡ true) ↔ In t (map codes ks)
unfolding is_one_of
is_one_of_iff t [] = (λ e. absurd (cc e), λ i. absurd i)
is_one_of_iff t (k ∷ ks) =
    let (to, from) = is_one_of_iff t ks in
    (
      λ e. elim (Bool-cases (same_text t (codes k))) [
        | inl same ↦ inl (same_text-eq t (codes k) same)
        | inr different ↦ inr (to (ground (arith, e, different)))
      ],
      λ i. elim i [
        | inl same ↦
            let own : same_text t (codes k) ≡ true = ap (same_text t) same ∙ same_text_self t in
            ground (arith, own)
        | inr later ↦ ground (arith, from later)
      ],
    )

is_one_of-append :
    (t : List ℕ) (js ks : List String) → is_one_of t (js ++ ks) ≡ (is_one_of t js || is_one_of t ks)
unfolding is_one_of
is_one_of-append t [] ks = refl
is_one_of-append t (j ∷ js) ks = ground (arith, is_one_of-append t js ks)

abbrev every : (List ℕ → Bool) → List String → Bool
every test [] = true
every test (k ∷ ks) = test (codes k) && every test ks

-- A test that each word passes is passed by a text that is one of them.
is_one_of-every :
    (test : List ℕ → Bool) (t : List ℕ) (ks : List String)
    → every test ks ≡ true
    → is_one_of t ks ≡ true
    → test t ≡ true
unfolding is_one_of
is_one_of-every test t [] h e = absurd (cc e)
is_one_of-every test t (k ∷ ks) h e = elim (Bool-cases (same_text t (codes k))) [
  | inl same ↦ ap test (sym (same_text-eq t (codes k) same)) ∙ ground (arith, h)
  | inr different ↦ is_one_of-every test t ks (ground (arith, h)) (ground (arith, e, different))
]

has_prefix_iff : (t w : List ℕ) → (has_prefix t w ≡ true) ↔ Begins w t
unfolding has_prefix
has_prefix_iff t [] = (λ e. (t, refl), λ b. refl)
has_prefix_iff [] (p ∷ w) = (λ e. absurd (cc e), λ (r, e). absurd (cc e))
has_prefix_iff (x ∷ t) (p ∷ w) =
    let (to, from) = has_prefix_iff t w in
    (
      λ e. let (r, same) = to (ground (arith, e)) in (r, ground (arith, e, same)),
      λ (r, e).
          let rest : has_prefix t w ≡ true = from (r, cc e) in
          let first : x ≡ p = cc e in ground (arith, rest, first),
    )

abbrev spoils : List ℕ → Bool
spoils t = is_one_of t forbidden || has_prefix t (codes "PG_")

abbrev session_words : List String
session_words = "SET" ∷ "RESET" ∷ "DISCARD" ∷ "BEGIN" ∷ "COMMIT" ∷ "ROLLBACK" ∷ "DO" ∷ []

abbrev setting : List String
setting = "SET_CONFIG" ∷ []

abbrev writes : List String
writes =
    "INSERT" ∷ "UPDATE" ∷ "DELETE" ∷ "MERGE" ∷ "INTO" ∷ "FOR" ∷ "LOCK" ∷ "COPY" ∷ "CALL" ∷ "NEXTVAL"
    ∷ "SETVAL" ∷ "CURRVAL" ∷ "LASTVAL" ∷ "CURRENT_SETTING" ∷ "RANDOM" ∷ "CLOCK_TIMESTAMP"
    ∷ "TXID_CURRENT" ∷ "GEN_RANDOM_UUID" ∷ "UUID_GENERATE_V4" ∷ []

-- The words of the other cases spoil nothing.
clean :
    (t : List ℕ) (ks : List String)
    → every (λ u. not (spoils u)) ks ≡ true
    → is_one_of t ks ≡ true
    → spoils t ≡ false
clean t ks h e = ground (arith, is_one_of-every (λ u. not (spoils u)) t ks h e)

all_clean :
    (every (λ u. not (spoils u)) heads ≡ true)
    × (every (λ u. not (spoils u)) ("START" ∷ []) ≡ true)
    × (every (λ u. not (spoils u)) ("TEMP" ∷ "TEMPORARY" ∷ []) ≡ true)
unfolding is_one_of same_text has_prefix
all_clean = (refl, refl, refl)

-- The chain of cases decides like the two lists.
upper_token_flags_lem :
    (t : List ℕ)
    → ((upper_token_flags t).read_head ≡ is_one_of t heads)
      × ((upper_token_flags t).unsafe_read ≡ spoils t)
unfolding upper_token_flags
upper_token_flags_lem t =
    let parts : is_one_of t forbidden
        ≡ (is_one_of t session_words || (is_one_of t setting || is_one_of t writes)) =
      is_one_of-append t session_words (setting ++ writes)
      ∙ ap (λ b. is_one_of t session_words || b) (is_one_of-append t setting writes) in
    (
      ground arith,
      ground (
        arith,
        parts,
        clean t heads all_clean.0,
        clean t ("START" ∷ []) all_clean.1,
        clean t ("TEMP" ∷ "TEMPORARY" ∷ []) all_clean.2,
      ),
    )

pub length-upper : (t : List ℕ) → length (map ascii_upper t) ≡ length t
length-upper [] = refl
length-upper (x ∷ t) = ap suc (length-upper t)

-- No word is longer than 32 bytes, so a longer token is none of them.
long-is_one_of :
    (t : List ℕ) (ks : List String)
    → every (λ u. not (ltb 32 (length u))) ks ≡ true
    → ltb 32 (length t) ≡ true
    → is_one_of t ks ≡ false
long-is_one_of t ks h long = elim (Bool-cases (is_one_of t ks)) [
  | inr other ↦ other
  | inl word ↦
      let short = is_one_of-every (λ u. not (ltb 32 (length u))) t ks h word in
      absurd (ground (arith, short, long))
]

module _ (to_upper : List ℕ → List ℕ) where
  -- A token in the form in which it is compared.
  abbrev pub shown : List ℕ → List ℕ
  shown t =
      if ltb 32 (length t)
      then map ascii_upper t
      else if all_ascii t
      then map ascii_upper t
      else to_upper t

  abbrev pub IsHarmless : List ℕ → Type 0
  IsHarmless t = (¬ (In (shown t) (map codes forbidden))) × (¬ (Begins (codes "PG_") (shown t)))

  token_flags_lem :
      (t : List ℕ)
      → ((token_flags to_upper t).read_head ≡ is_one_of (shown t) heads)
        × ((token_flags to_upper t).unsafe_read ≡ spoils (shown t))
  unfolding token_flags
  token_flags_lem t = elim (Bool-cases (ltb 32 (length t))) [
    | inl long ↦
        let long_too : ltb 32 (length (map ascii_upper t)) ≡ true =
          ap (ltb 32) (length-upper t) ∙ long in
        (
          ground (arith, long, long-is_one_of (map ascii_upper t) heads refl long_too),
          ground (arith, long, long-is_one_of (map ascii_upper t) forbidden refl long_too),
        )
    | inr short ↦ elim (Bool-cases (all_ascii t)) [
      | inl plain ↦
          let (head, unsafe) = upper_token_flags_lem (map ascii_upper t) in
          (ground (arith, short, plain, head), ground (arith, short, plain, unsafe))
      | inr foreign ↦
          let (head, unsafe) = upper_token_flags_lem (to_upper t) in
          (ground (arith, short, foreign, head), ground (arith, short, foreign, unsafe))
    ]
  ]

  pub read_head_iff :
      (t : List ℕ) → ((token_flags to_upper t).read_head ≡ true) ↔ In (shown t) (map codes heads)
  read_head_iff t =
      let (to, from) = is_one_of_iff (shown t) heads in
      let same = (token_flags_lem t).0 in (λ e. to (sym same ∙ e), λ i. same ∙ from i)

  pub unsafe_read_iff : (t : List ℕ) → ((token_flags to_upper t).unsafe_read ≡ false) ↔ IsHarmless t
  unsafe_read_iff t =
      let (to, from) = is_one_of_iff (shown t) forbidden in
      let (begins, prefix) = has_prefix_iff (shown t) (codes "PG_") in
      let same = (token_flags_lem t).1 in
      (
        λ e.
            let clean : spoils (shown t) ≡ false = sym same ∙ e in
            (λ i. ground (arith, clean, from i), λ b. ground (arith, clean, prefix b)),
        λ (m, n). elim (Bool-cases (spoils (shown t))) [
          | inr clean ↦ same ∙ clean
          | inl spoilt ↦ elim (Bool-cases (is_one_of (shown t) forbidden)) [
            | inl word ↦ absurd (m (to word))
            | inr other ↦ absurd (n (begins (ground (arith, spoilt, other))))
          ]
        ],
      )
