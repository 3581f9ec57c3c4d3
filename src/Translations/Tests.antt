-- ===== src/Translations/Tests.antt =====
-- A file with a nested text, a request, and a change.
use request_generator.Common.{ℕ, ◌+◌, ◌*◌, ◌≡◌, ◌↔◌, refl, none, some, some_inj, arith, [], ◌∷◌}
use request_generator.Common.Assoc.{lookup, delete, insert}
use request_generator.Translations.{
  Dictionary, Translations, new, text, object, not_text, Members, no_members, member, flatten,
  insert_all, all_same, same_translations, load_file, set_overrides, fast_response, locked_response,
  translate, translate_with_fallback, Shared, idle, publish_file, publishes_file,
  publishes_overrides, invalidates, responds, Reach, start, next,
}
use request_generator.Translations.Properties.{Answers, response-translate, set_overrides-translate}

program : Unit {0}
unfolding lookup delete insert flatten insert_all all_same same_translations load_file set_overrides
    locked_response translate translate_with_fallback
program = tt

abbrev join : ℕ → ℕ → ℕ
join prefix key = prefix * 100 + key

abbrev raw : Members
raw =
    member 10 (text 5)
      (member 11 (object (member 12 (text 6) (member 13 not_text no_members))) no_members)

abbrev loaded : Translations
loaded = (load_file join 1 (some raw) new).0

-- A stand-in for json.Marshal on these dictionaries.
abbrev marshal : Dictionary → ℕ
marshal [] = 0
marshal ((key, value) ∷ words) = value + 10 * marshal words

abbrev asked : Translations
asked = (locked_response marshal 1 loaded).1

abbrev changed : Translations
changed = set_overrides 1 ((10, 7) ∷ []) asked

-- The language 2 is being loaded while the others are read.
abbrev loading : Shared
loading = record { translations = publish_file join 2 raw changed; writer = some 2 }

changed-Reach : Reach marshal (idle changed)
unfolding program
changed-Reach =
    next
      (next
        (next (next (next start (publishes_file new join 1 raw)) (invalidates _ 1))
          (responds loaded 1))
        (publishes_overrides asked 1 ((10, 7) ∷ []) refl))
      (invalidates _ 1)

loading-Reach : Reach marshal loading
loading-Reach = next changed-Reach (publishes_file changed join 2 raw)

answers :
    (translate 1 1112 asked ≡ 6)
    × (fast_response 1 changed ≡ none)
    × ((locked_response marshal 1 changed).0 ≡ some (7 + 10 * 6))
    × (translate_with_fallback 1 99 3 changed ≡ 3)
    × (translate_with_fallback 1 10 3 changed ≡ 7)
unfolding program
answers = (refl, refl, refl, refl, refl)

response-translate_example :
    (((locked_response marshal 1 loading.translations).0 ≡ none)
      ↔ (lookup 1 loading.translations.files ≡ none))
    × ((d : ℕ)
        → Answers marshal 1 loading.translations d
        → (made : Dictionary) × (d ≡ marshal made)
          × ((key : ℕ)
              → translate 1 key loading.translations
                ≡ (elim (lookup key made) [ none ↦ key | some w ↦ w ])))
response-translate_example =
    response-translate marshal loading 1 loading-Reach (λ e. ground (arith, some_inj e))

-- The new overrides leave out the key 10.
set_overrides-translate_example : translate 1 10 (set_overrides 1 ((1112, 8) ∷ []) changed) ≡ 5
unfolding program
set_overrides-translate_example =
    set_overrides-translate marshal changed 1 1 10 ((1112, 8) ∷ []) changed-Reach (refl, tt)
