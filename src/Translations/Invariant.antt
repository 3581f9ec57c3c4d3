-- ===== src/Translations/Invariant.antt =====
-- translations.go: the responses that are kept are made of the words that the languages have.
use mathlib.Core.Path.{subst}
use request_generator.Common.{
  ℕ, ◌≡◌, ◌≢◌, refl, sym, ap, ◌∙◌, inl, inr, false, none, some, some_inj, List, [], ◌∷◌, ◌==◌,
  if◌then◌else◌, Option-cases, Bool-cases, arith,
}
use request_generator.Common.Assoc.{lookup, insert, lookup-insert, lookup-delete, Unique}
use request_generator.Translations.{
  Dictionary, Translations, Members, flatten, insert_all, words_of, invalidate, publish_file,
  publish_overrides, merged, Shared, idle, locked_response, publishes_file, publishes_overrides,
  invalidates, responds, Reach, start, next,
}
use request_generator.Translations.Dictionaries.{or_else, lookup-insert_all, insert_all-Unique}

lookup-invalidate :
    (l lang : ℕ) (t : Translations)
    → lookup l (invalidate lang t).responses ≡ (if lang == l then none else lookup l t.responses)
lookup-invalidate l lang t = ground (arith, lookup-delete l lang t.responses)

pub files-invalidate : (lang : ℕ) (t : Translations) → (invalidate lang t).files ≡ t.files
files-invalidate lang t = ground arith

pub overrides-invalidate :
    (lang : ℕ) (t : Translations) → (invalidate lang t).overrides ≡ t.overrides
overrides-invalidate lang t = ground arith

pub lookup-merged :
    (key : ℕ) (words changed : Dictionary)
    → lookup key (merged words changed) ≡ or_else (lookup key changed) (lookup key words)
unfolding lookup
lookup-merged key words [] = refl
lookup-merged key words ((k, v) ∷ changed) = ground (
  arith,
  lookup-insert_all key ((k, v) ∷ changed) (insert_all words []),
  lookup-insert_all key words [],
)

pub words_of-insert :
    (l lang : ℕ) (words : Dictionary) (m : List (ℕ × Dictionary))
    → words_of l (insert lang words m) ≡ (if lang == l then words else words_of l m)
words_of-insert l lang words m = ground (arith, lookup-insert l lang words m)

module _ (marshal : Dictionary → ℕ) where
  -- The response is the document of a dictionary with the words that the language has now.
  unfoldable pub Coherent : ℕ → Translations → ℕ → Type 0
  Coherent lang t d =
      (made : Dictionary) × (d ≡ marshal made)
      × ((words : Dictionary) × (lookup lang t.files ≡ some words)
          × ((key : ℕ)
              → lookup key made
                ≡ or_else (lookup key (words_of lang t.overrides)) (lookup key words)))

  -- All languages are coherent but the one that the holder of the lock is publishing.
  pub record Inv (s : Shared) : Type 0 where
    pub unique : (lang : ℕ) → Unique (words_of lang s.translations.overrides)
    pub coherent :
        (lang d : ℕ)
        → s.writer ≢ some lang
        → lookup lang s.translations.responses ≡ some d
        → Coherent lang s.translations d

  -- Where the words of the other languages stay, they stay coherent.
  others-Inv :
      (lang : ℕ) (t u : Translations)
      → Inv (idle t)
      → u.responses ≡ t.responses
      → ((l : ℕ) → Unique (words_of l u.overrides))
      → ((l : ℕ)
          → (lang == l) ≡ false
          → (lookup l u.files ≡ lookup l t.files)
            × (words_of l u.overrides ≡ words_of l t.overrides))
      → Inv (record { translations = u; writer = some lang })
  unfolding Coherent
  others-Inv lang t u v same unique others = record {
    unique = unique;
    coherent = λ l d n h. elim (Bool-cases (lang == l)) [
      | inl own ↦ absurd (n (ap some (ground (arith, own))))
      | inr other ↦
          let (made, document, (words, there, says)) =
            v.coherent l d (λ e. cc e) (ap (lookup l) (sym same) ∙ h) in
          let (f, o) = others l other in
          (made, document, (words, f ∙ there, λ key. ground (arith, says key, o)))
    ];
  }

  publish_file-Inv :
      (join : ℕ → ℕ → ℕ) (lang : ℕ) (raw : Members) (t : Translations)
      → Inv (idle t)
      → Inv (record { translations = publish_file join lang raw t; writer = some lang })
  publish_file-Inv join lang raw t v =
      others-Inv lang t (publish_file join lang raw t) v refl v.unique (λ l other.
        (ground (arith, other, lookup-insert l lang (flatten join raw 0 []) t.files), refl))

  replaced-Unique :
      (lang : ℕ) (words : Dictionary) (t : Translations)
      → Inv (idle t)
      → (l : ℕ) → Unique (words_of l (insert lang (insert_all words []) t.overrides))
  replaced-Unique lang words t v l = elim (Bool-cases (lang == l)) [
    | inl own ↦
        let e : insert_all words [] ≡ words_of l (insert lang (insert_all words []) t.overrides) =
          ground (arith, own, words_of-insert l lang (insert_all words []) t.overrides) in
        subst Unique e (insert_all-Unique words [] tt)
    | inr other ↦
        let e : words_of l t.overrides
            ≡ words_of l (insert lang (insert_all words []) t.overrides) =
          ground (arith, other, words_of-insert l lang (insert_all words []) t.overrides) in
        subst Unique e (v.unique l)
  ]

  publish_overrides-Inv :
      (lang : ℕ) (words : Dictionary) (t : Translations)
      → Inv (idle t)
      → Inv (record { translations = publish_overrides lang words t; writer = some lang })
  publish_overrides-Inv lang words t v =
      others-Inv lang t (publish_overrides lang words t) v refl (replaced-Unique lang words t v)
        (λ l other.
          (refl, ground (arith, other, words_of-insert l lang (insert_all words []) t.overrides)))

  -- The language loses its response, and the others keep theirs.
  invalidate-Inv :
      (lang : ℕ) (t : Translations)
      → Inv (record { translations = t; writer = some lang })
      → Inv (idle (invalidate lang t))
  unfolding Coherent
  invalidate-Inv lang t v = record {
    unique = λ l. rw (overrides-invalidate lang t) (v.unique l);
    coherent = λ l d n h. elim (Bool-cases (lang == l)) [
      | inl own ↦ absurd (ground (arith, h, own, lookup-invalidate l lang t))
      | inr other ↦
          let kept : lookup l t.responses ≡ some d =
            ground (arith, h, other, lookup-invalidate l lang t) in
          let (made, document, (words, there, says)) =
            v.coherent l d (λ e. ground (arith, some_inj e, other)) kept in
          (
            made,
            document,
            (
              words,
              rw (files-invalidate lang t) there,
              λ key. ground (arith, says key, overrides-invalidate lang t),
            ),
          )
    ];
  }

  locked_response-Inv :
      (lang : ℕ) (t : Translations) → Inv (idle t) → Inv (idle (locked_response marshal lang t).1)
  unfolding locked_response Coherent
  locked_response-Inv lang t v = elim (Option-cases (lookup lang t.responses)) [
    | inr (r, kept) ↦ rw (kept, locked_response) v
    | inl no_response ↦ elim (Option-cases (lookup lang t.files)) [
      | inl no_file ↦ rw (no_response, no_file, locked_response) v
      | inr (words, file) ↦
          rw (no_response, file, locked_response)
            (record {
              unique = v.unique;
              coherent = λ l d n h.
                  let changed = words_of lang t.overrides in
                  let stored = lookup-insert l lang (marshal (merged words changed)) t.responses in
                  elim (Bool-cases (lang == l)) [
                    | inr other ↦ v.coherent l d n (ground (arith, h, other, stored))
                    | inl own ↦ (
                      merged words changed,
                      ground (arith, h, own, stored),
                      (
                        words,
                        ground (arith, own, file),
                        λ key. ground (arith, own, lookup-merged key words changed),
                      ),
                    )
                  ];
            })
    ]
  ]

  pub Reach-Inv : (s : Shared) → Reach marshal s → Inv s
  unfolding lookup
  Reach-Inv s start = record { unique = λ l. tt; coherent = λ l d n h. absurd (ground (arith, h)) }
  Reach-Inv s (next r (publishes_file t join lang raw)) =
      publish_file-Inv join lang raw t (Reach-Inv (idle t) r)
  Reach-Inv s (next r (publishes_overrides t lang words changed)) =
      publish_overrides-Inv lang words t (Reach-Inv (idle t) r)
  Reach-Inv s (next r (invalidates t lang)) = invalidate-Inv lang t (Reach-Inv _ r)
  Reach-Inv s (next r (responds t lang)) = locked_response-Inv lang t (Reach-Inv (idle t) r)
