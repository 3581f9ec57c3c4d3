-- ===== src/SqlCache/ArgumentKey/Decoding.antt =====
-- db/sqlcache/argument_key.go: no two argument lists have one encoding, so two statements share a
-- key only where SHA-256 collides.
use native.Mathlib.Nat.{pow-suc}
use native.Mathlib.Decide.{ℕ_discrete}
use mathlib.Core.List.{append_assoc}
use request_generator.Common.{cons_inj, Option-cases}
use request_generator.Common.{
  ℕ, zero, suc, ◌/◌, ◌^◌, ◌<◌, ◌≡◌, ◌≢◌, ◌⊎◌, inl, inr, refl, ap, sym, ◌∙◌, true, false, Option,
  some, List, [], ◌∷◌, ◌++◌, length, arith,
}
use request_generator.SqlCache.ArgumentKey.{
  Value, Argument, nil_value, bool_value, int_value, float_value, text_value, nil_bytes,
  bytes_value, other_value, is_standard, all_standard, little_endian, word, encode_value,
  encode_arguments, encode, combine, legacy_key, key,
}

little_endian_inj :
    (w a b : ℕ) (x y : List ℕ)
    → a < 256 ^ w
    → b < 256 ^ w
    → little_endian w a ++ x ≡ little_endian w b ++ y
    → (a ≡ b) × (x ≡ y)
unfolding little_endian
little_endian_inj zero a b x y p q e = (omega arith, e)
little_endian_inj (suc w) a b x y p q e =
    let (digit, rest) = cons_inj e in
    let (high, tails) =
      little_endian_inj w (a / 256) (b / 256) x y (omega (arith, pow-suc 256 w))
        (omega (arith, pow-suc 256 w)) rest in
    (omega arith, tails)

append_inj : (a b x y : List ℕ) → length a ≡ length b → a ++ x ≡ b ++ y → (a ≡ b) × (x ≡ y)
append_inj [] [] x y l e = (refl, e)
append_inj [] (j ∷ b) x y l e = absurd (omega arith)
append_inj (i ∷ a) [] x y l e = absurd (omega arith)
append_inj (i ∷ a) (j ∷ b) x y l e =
    let (h, t) = cons_inj e in let (p, q) = append_inj a b x y (omega arith) t in (cc, q)

-- What a 64-bit word holds.
abbrev pub IsWord : ℕ → Type 0
IsWord n = n < 256 ^ 8

abbrev pub ValueFits : Value → Type 0
ValueFits (int_value n) = IsWord n
ValueFits (float_value n) = IsWord n
ValueFits (text_value s) = IsWord (length s)
ValueFits (bytes_value s) = IsWord (length s)
ValueFits v = Unit {0}

framed_inj :
    (a b x y : List ℕ)
    → IsWord (length a)
    → IsWord (length b)
    → word (length a) ++ (a ++ x) ≡ word (length b) ++ (b ++ y)
    → (a ≡ b) × (x ≡ y)
framed_inj a b x y p q e =
    let (same, rest) = little_endian_inj 8 (length a) (length b) (a ++ x) (b ++ y) p q e in
    append_inj a b x y same rest

text_inj :
    (a b x y : List ℕ)
    → IsWord (length a)
    → IsWord (length b)
    → (word (length a) ++ a) ++ x ≡ (word (length b) ++ b) ++ y
    → (a ≡ b) × (x ≡ y)
text_inj a b x y p q e =
    framed_inj a b x y p q
      (sym (append_assoc (word (length a)) a x) ∙ e ∙ append_assoc (word (length b)) b y)

abbrev tag : List ℕ → ℕ
tag [] = 0
tag (x ∷ xs) = x

abbrev rest : List ℕ → List ℕ
rest [] = []
rest (x ∷ xs) = xs

encode_value_inj :
    (v w : Value) (x y : List ℕ)
    → is_standard v ≡ true
    → is_standard w ≡ true
    → ValueFits v
    → ValueFits w
    → encode_value v ++ x ≡ encode_value w ++ y
    → (v ≡ w) × (x ≡ y)
unfolding encode_value is_standard
encode_value_inj nil_value nil_value x y s t p q e = (refl, ap rest e)
encode_value_inj (bool_value true) (bool_value true) x y s t p q e = (refl, ap rest e)
encode_value_inj (bool_value false) (bool_value false) x y s t p q e = (refl, ap rest e)
encode_value_inj (int_value m) (int_value n) x y s t p q e =
    let (h, r) = little_endian_inj 8 m n x y p q (ap rest e) in (ap int_value h, r)
encode_value_inj (float_value m) (float_value n) x y s t p q e =
    let (h, r) = little_endian_inj 8 m n x y p q (ap rest e) in (ap float_value h, r)
encode_value_inj (text_value a) (text_value b) x y s t p q e =
    let (h, r) = text_inj a b x y p q (ap rest e) in (ap text_value h, r)
encode_value_inj nil_bytes nil_bytes x y s t p q e = (refl, ap rest e)
encode_value_inj (bytes_value a) (bytes_value b) x y s t p q e =
    let (h, r) = text_inj a b x y p q (ap rest e) in (ap bytes_value h, r)
encode_value_inj (other_value m) w x y s t p q e = cc
encode_value_inj v (other_value n) x y s t p q e = cc
encode_value_inj _ _ x y s t p q e = absurd (let h = ap tag e in ground arith)

abbrev pub Fits : List Argument → Type 0
Fits [] = Unit {0}
Fits (a ∷ args) = IsWord (length a.name) × IsWord a.ordinal × ValueFits a.value × Fits args

encode_arguments_inj :
    (args others : List Argument)
    → length args ≡ length others
    → all_standard args ≡ true
    → all_standard others ≡ true
    → Fits args
    → Fits others
    → encode_arguments args ≡ encode_arguments others
    → args ≡ others
unfolding encode_arguments all_standard
encode_arguments_inj [] [] l s t p q e = refl
encode_arguments_inj [] (b ∷ others) l s t p q e = absurd (omega arith)
encode_arguments_inj (a ∷ args) [] l s t p q e = absurd (omega arith)
encode_arguments_inj (a ∷ args) (b ∷ others) l s t p q e =
    let (names, e1) = framed_inj a.name b.name _ _ p.0 q.0 e in
    let (ordinals, e2) = little_endian_inj 8 a.ordinal b.ordinal _ _ p.1 q.1 e1 in
    let (values, e3) =
      encode_value_inj a.value b.value _ _ (ground arith) (ground arith) p.2 q.2 e2 in
    let tails =
      encode_arguments_inj args others (omega arith) (ground arith) (ground arith) p.3 q.3 e3 in
    ground arith

-- The encoding of argument lists of standard types, with lengths and numbers of 64 bits, is
-- injective: names, ordinals, types and values all stay part of the key.
pub encode-injective :
    (args others : List Argument)
    → all_standard args ≡ true
    → all_standard others ≡ true
    → IsWord (length args)
    → IsWord (length others)
    → Fits args
    → Fits others
    → encode args ≡ encode others
    → args ≡ others
unfolding encode
encode-injective args others s t m n p q e =
    let (l, r) =
      little_endian_inj 8 (length args) (length others) _ _ m n
        (ap rest (ap rest (ap rest (ap rest (ap rest e))))) in
    encode_arguments_inj args others l s t p q r

-- Two inputs with one hash.
abbrev pub Collides : (List ℕ → List ℕ) → List ℕ → List ℕ → Type 0
Collides hash x y = (x ≢ y) × (hash x ≡ hash y)

-- A collision among the three pairs of inputs that two keys are made of: the statements, the
-- encoded arguments, and the joined hashes.
abbrev pub Clash : (List ℕ → List ℕ) → List ℕ → List ℕ → List ℕ → List ℕ → Type 0
Clash hash p q x y =
    Collides hash p q ⊎ (Collides hash x y ⊎ Collides hash (hash p ++ hash x) (hash q ++ hash y))

list_dec : Discrete (List ℕ)
list_dec = hlevel ℕ_discrete

same_or_Collides :
    (hash : List ℕ → List ℕ) (x y : List ℕ) → hash x ≡ hash y → (x ≡ y) ⊎ Collides hash x y
same_or_Collides hash x y e = elim (list_dec x y) [ yes p ↦ inl p | no p ↦ inr (p, e) ]

module _ (sha256 : List ℕ → List ℕ) (marshal : List Argument → Option (List ℕ)) where
  module _ (width : (x : List ℕ) → length (sha256 x) ≡ 32) where
    combine_inj :
        (p q x y : List ℕ)
        → combine sha256 marshal (sha256 p) x ≡ combine sha256 marshal (sha256 q) y
        → ((p ≡ q) × (x ≡ y)) ⊎ Clash sha256 p q x y
    unfolding combine
    combine_inj p q x y e = elim (same_or_Collides sha256 _ _ e) [
      | inr c ↦ inr (inr (inr c))
      | inl same ↦
          let (h, t) =
            append_inj (sha256 p) (sha256 q) (sha256 x) (sha256 y) (width p ∙ sym (width q)) same in
          elim (same_or_Collides sha256 p q h) [
            | inr c ↦ inr (inl c)
            | inl r ↦ elim (same_or_Collides sha256 x y t) [
              | inr c ↦ inr (inr (inl c))
              | inl u ↦ inl (r, u)
            ]
          ]
    ]

    -- Two statements whose arguments all have standard types, with lengths and numbers of 64 bits, share
    -- a key only if text and arguments are the same, or SHA-256 has a collision among the inputs of
    -- these very keys.
    pub key-injective :
        (p q : List ℕ) (args others : List Argument) (k : List ℕ)
        → all_standard args ≡ true
        → all_standard others ≡ true
        → IsWord (length args)
        → IsWord (length others)
        → Fits args
        → Fits others
        → key sha256 marshal p args ≡ some k
        → key sha256 marshal q others ≡ some k
        → ((p ≡ q) × (args ≡ others)) ⊎ Clash sha256 p q (encode args) (encode others)
    unfolding key
    key-injective p q args others k s t m n f g e h =
        elim (combine_inj p q (encode args) (encode others) (ground arith)) [
          | inr c ↦ inr c
          | inl r ↦ inl (r.0, encode-injective args others s t m n f g r.1)
        ]

    -- Arguments of standard types never share a key with arguments on the JSON path, whose encoder
    -- begins an array with a bracket, unless SHA-256 has a collision among the inputs of these keys.
    key-legacy_disjoint :
        (p q : List ℕ) (args others : List Argument) (k : List ℕ)
        → ((as_json : List Argument) (j : List ℕ)
            → marshal as_json ≡ some j
            → (r : List ℕ) × (j ≡ b'[' ∷ r))
        → all_standard args ≡ true
        → all_standard others ≡ false
        → key sha256 marshal p args ≡ some k
        → key sha256 marshal q others ≡ some k
        → (j : List ℕ) × (marshal others ≡ some j) × Clash sha256 p q (encode args) j
    unfolding key legacy_key encode
    key-legacy_disjoint p q args others k array s t e h = elim (Option-cases (marshal others)) [
      | inl failed ↦ absurd (ground arith)
      | inr (j, encoded) ↦
          let (r, bracket) = array others j encoded in
          elim (combine_inj p q (encode args) j (ground arith)) [
            | inr c ↦ (j, encoded, c)
            | inl same ↦ absurd (let head = ap tag (same.1 ∙ bracket) in omega arith)
          ]
    ]
