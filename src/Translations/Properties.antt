-- ===== src/Translations/Properties.antt =====
-- translations.go: the responses that are kept say what Translate says.
use request_generator.Common.{
  ℕ, ◌≡◌, ◌↔◌, ap, ◌∙◌, ◌⊎◌, inl, inr, none, some, [], ◌==◌, if◌then◌else◌, Option-cases,
  Bool-cases, arith, ◌≢◌, Option,
}
use request_generator.Common.Assoc.{lookup, Unique}
use request_generator.Translations.{
  Dictionary, Translations, Members, merged, insert_all, words_of, same_translations, invalidate,
  publish_overrides, load_file, set_overrides, Shared, idle, fast_response, locked_response,
  translate, publishes_file, publishes_overrides, invalidates, Reach, next,
}
use request_generator.Translations.Dictionaries.{lookup_copy, same_translations-lookup}
use request_generator.Translations.Invariant.{
  Inv, Coherent, Reach-Inv, lookup-merged, words_of-insert, files-invalidate, overrides-invalidate,
}

-- What a language's file says of a key, the key itself where it says nothing.
abbrev pub file_text : ℕ → ℕ → Translations → ℕ
file_text lang key t = elim (lookup lang t.files) [
  | none ↦ key
  | some words ↦ elim (lookup key words) [ none ↦ key | some s ↦ s ]
]

translate-invalidate :
    (l lang key : ℕ) (t : Translations) → translate l key (invalidate lang t) ≡ translate l key t
unfolding translate
translate-invalidate l lang key t =
    ground (arith, overrides-invalidate lang t, files-invalidate lang t)

module _ (marshal : Dictionary → ℕ) where
  abbrev pub Answers : ℕ → Translations → ℕ → Type 0
  Answers lang t d = (fast_response lang t ≡ some d) ⊎ ((locked_response marshal lang t).0 ≡ some d)

  response-Coherent :
      (s : Shared) (lang d : ℕ)
      → Inv marshal s
      → s.writer ≢ some lang
      → Answers lang s.translations d
      → Coherent marshal lang s.translations d
  unfolding locked_response Coherent
  response-Coherent s lang d v n (inl h) = v.coherent lang d n h
  response-Coherent s lang d v n (inr h) =
      let t = s.translations in
      elim (Option-cases (lookup lang t.responses)) [
        | inr (r, kept) ↦ v.coherent lang d n (ground (arith, h, kept))
        | inl no_response ↦ elim (Option-cases (lookup lang t.files)) [
          | inl no_file ↦ absurd (ground (arith, h, no_response, no_file))
          | inr (words, file) ↦ (
            merged words (words_of lang t.overrides),
            ground (arith, h, no_response, file),
            (words, file, λ key. lookup-merged key words (words_of lang t.overrides)),
          )
        ]
      ]

  response-none :
      (s : Shared) (lang : ℕ)
      → Inv marshal s
      → s.writer ≢ some lang
      → ((locked_response marshal lang s.translations).0 ≡ none)
        ↔ (lookup lang s.translations.files ≡ none)
  unfolding locked_response Coherent
  response-none s lang v n = elim (Option-cases (lookup lang s.translations.responses)) [
    | inr (r, kept) ↦
        let (made, document, (words, file, says)) = v.coherent lang r n kept in
        (λ h. absurd (ground (arith, h, kept)), λ h. absurd (ground (arith, h, file)))
    | inl no_response ↦ (λ h. ground (arith, h, no_response), λ h. ground (arith, h, no_response))
  ]

  -- After any loads, changes and requests in any order, and whenever no call stands between its
  -- publication of the language's words and the invalidation of the language's response: a response
  -- that a client gets, kept or made anew, is the document of a dictionary that says what Translate
  -- says. Each key of it has the text that Translate gives the key, and for every other key Translate
  -- gives the key itself. A language has a response exactly where its file was loaded.
  pub response-translate :
      (s : Shared) (lang : ℕ)
      → Reach marshal s
      → s.writer ≢ some lang
      → (((locked_response marshal lang s.translations).0 ≡ none)
          ↔ (lookup lang s.translations.files ≡ none))
        × ((d : ℕ)
            → Answers lang s.translations d
            → (made : Dictionary) × (d ≡ marshal made)
              × ((key : ℕ)
                  → translate lang key s.translations
                    ≡ (elim (lookup key made) [ none ↦ key | some w ↦ w ])))
  unfolding translate Coherent
  response-translate s lang r n =
      let v = Reach-Inv marshal s r in
      (
        response-none s lang v n,
        λ d h.
            let (made, document, (words, file, says)) = response-Coherent s lang d v n h in
            (made, document, λ key. ground (arith, file, says key)),
      )

  -- A call of LoadTranslationsFile or SetTranslationOverrides is such a run as a whole.
  load_file-Reach :
      (join : ℕ → ℕ → ℕ) (lang : ℕ) (raw : Option Members) (t : Translations)
      → Reach marshal (idle t)
      → Reach marshal (idle (load_file join lang raw t).0)
  unfolding load_file
  load_file-Reach join lang none t r = r
  load_file-Reach join lang (some raw) t r =
      next (next r (publishes_file t join lang raw)) (invalidates _ lang)

  set_overrides-Reach :
      (lang : ℕ) (words : Dictionary) (t : Translations)
      → Reach marshal (idle t)
      → Reach marshal (idle (set_overrides lang words t))
  unfolding set_overrides
  set_overrides-Reach lang words t r =
      elim (Bool-cases (same_translations (words_of lang t.overrides) words)) [
        | inl same ↦ rw (same, set_overrides) r
        | inr changed ↦
            rw (changed, set_overrides)
              (next (next r (publishes_overrides t lang words changed)) (invalidates _ lang))
      ]

-- New overrides of a language are what Translate answers from then on, and keys that they leave out
-- read the file again, also where the call finds nothing changed. No other language is affected.
pub set_overrides-translate :
    (marshal : Dictionary → ℕ) (t : Translations) (lang l key : ℕ) (words : Dictionary)
    → Reach marshal (idle t)
    → Unique words
    → translate l key (set_overrides lang words t) ≡ (
        if lang == l
        then (elim (lookup key words) [ none ↦ file_text l key t | some s ↦ s ])
        else translate l key t)
unfolding set_overrides translate
set_overrides-translate marshal t lang l key words r u =
    let v = Reach-Inv marshal (idle t) r in
    let made = publish_overrides lang words t in
    elim (Bool-cases (same_translations (words_of lang t.overrides) words)) [
      | inl same ↦ ground (
        arith,
        same,
        same_translations-lookup (words_of lang t.overrides) words key (v.unique lang) u same,
      )
      | inr changed ↦
          let replaced : set_overrides lang words t ≡ invalidate lang made =
            ground (arith, changed) in
          ap (translate l key) replaced
          ∙ translate-invalidate l lang key made
          ∙ ground (
            arith,
            words_of-insert l lang (insert_all words []) t.overrides,
            lookup_copy key words,
          )
    ]
