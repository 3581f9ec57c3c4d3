-- ===== src/Translations.antt =====
-- translations.go: the words of the languages, what an administrator changes of them, and the
-- responses that are kept of them.
-- A text, a key and a language are numbers, 0 the empty text, and `join` is the prefix, a dot and the
-- key. json.Marshal is a parameter, which makes the document of a dictionary, a number. The maps that
-- readers load while writers publish new ones are values. `load_file` and `set_overrides` are what a
-- call does as a whole; as readers take no lock, the step relation has their two publications, of the
-- words and of the invalidated responses, apart.
pub mod Dictionaries
pub mod Invariant
pub mod Properties
pub mod Tests
use request_generator.Common.{
  ℕ, Bool, true, false, not, ◌&&◌, Option, none, some, List, [], ◌∷◌, ◌==◌, if◌then◌else◌, length,
  ◌≡◌,
}
use request_generator.Common.Assoc.{lookup, delete, insert}

abbrev pub Dictionary : Type 0
Dictionary = List (ℕ × ℕ)

pub record Translations : Type 0 where
  pub files : List (ℕ × Dictionary)
  pub overrides : List (ℕ × Dictionary)
  pub responses : List (ℕ × ℕ)

abbrev pub new : Translations
new = record { files = []; overrides = []; responses = [] }

-- What a translations file holds.
mutual
  pub data Json : Type 0 where
    text : ℕ → Json
    object : Members → Json
    not_text : Json

  pub data Members : Type 0 where
    no_members : Members
    member : ℕ → Json → Members → Members

unfoldable mutual
  pub flatten : (ℕ → ℕ → ℕ) → Members → ℕ → Dictionary → Dictionary
  flatten join no_members prefix result = result
  flatten join (member key value members) prefix result =
      flatten join members prefix
        (flatten_value join value (if prefix == 0 then key else join prefix key) result)

  pub flatten_value : (ℕ → ℕ → ℕ) → Json → ℕ → Dictionary → Dictionary
  flatten_value join (text t) key result = insert key t result
  flatten_value join (object members) key result = flatten join members key result
  flatten_value join not_text key result = result

-- A map copied into another.
unfoldable pub insert_all : Dictionary → Dictionary → Dictionary
insert_all [] base = base
insert_all ((key, value) ∷ words) base = insert key value (insert_all words base)

-- What a map has for a language that it may not name.
abbrev pub words_of : ℕ → List (ℕ × Dictionary) → Dictionary
words_of lang m = elim (lookup lang m) [ none ↦ [] | some words ↦ words ]

unfoldable pub all_same : Dictionary → Dictionary → Bool
all_same [] b = true
all_same ((key, value) ∷ a) b =
    let rest = all_same a b in
    elim (lookup key b) [ none ↦ false | some found ↦ found == value && rest ]

unfoldable pub same_translations : Dictionary → Dictionary → Bool
same_translations a b = length a == length b && all_same a b

abbrev pub invalidate : ℕ → Translations → Translations
invalidate lang t = elim (lookup lang t.responses) [
  | none ↦ t
  | some r ↦ record t { responses = delete lang t.responses }
]

-- The words of a file that was read, and the words that an administrator sets.
abbrev pub publish_file : (ℕ → ℕ → ℕ) → ℕ → Members → Translations → Translations
publish_file join lang raw t = record t { files = insert lang (flatten join raw 0 []) t.files }

abbrev pub publish_overrides : ℕ → Dictionary → Translations → Translations
publish_overrides lang words t = record t {
  overrides = insert lang (insert_all words []) t.overrides;
}

-- `none` is a file that cannot be read or decoded.
unfoldable pub load_file : (ℕ → ℕ → ℕ) → ℕ → Option Members → Translations → Translations × Bool
load_file join lang none t = (t, false)
load_file join lang (some raw) t = (invalidate lang (publish_file join lang raw t), true)

unfoldable pub set_overrides : ℕ → Dictionary → Translations → Translations
set_overrides lang words t =
    if same_translations (words_of lang t.overrides) words
    then t
    else invalidate lang (publish_overrides lang words t)

-- The read of a kept response without the lock.
abbrev pub fast_response : ℕ → Translations → Option ℕ
fast_response lang t = lookup lang t.responses

abbrev pub is_nil : Dictionary → Bool
is_nil [] = true
is_nil (x ∷ xs) = false

abbrev pub merged : Dictionary → Dictionary → Dictionary
merged words overrides =
    if is_nil overrides then words else insert_all overrides (insert_all words [])

unfoldable pub translate : ℕ → ℕ → Translations → ℕ
translate lang key t = elim (lookup key (words_of lang t.overrides)) [
  | some s ↦ s
  | none ↦ elim (lookup lang t.files) [
    | none ↦ key
    | some words ↦ elim (lookup key words) [ none ↦ key | some s ↦ s ]
  ]
]

unfoldable pub translate_with_fallback : ℕ → ℕ → ℕ → Translations → ℕ
translate_with_fallback lang key fallback t =
    if key == 0
    then fallback
    else if translate lang key t == key
    then fallback
    else translate lang key t

-- The state with the lock: `writer` is the language whose words were published by a call that holds
-- it and has not invalidated the language's response yet.
pub record Shared : Type 0 where
  pub translations : Translations
  pub writer : Option ℕ

abbrev pub idle : Translations → Shared
idle t = record { translations = t; writer = none }

module _ (marshal : Dictionary → ℕ) where
  -- The critical section that follows where there was none: another request may have been faster.
  unfoldable pub locked_response : ℕ → Translations → Option ℕ × Translations
  locked_response lang t = elim (lookup lang t.responses) [
    | some r ↦ (some r, t)
    | none ↦ elim (lookup lang t.files) [
      | none ↦ (none, t)
      | some words ↦
          let document = marshal (merged words (words_of lang t.overrides)) in
          (some document, record t { responses = insert lang document t.responses })
    ]
  ]

  -- What changes the state; between two of these, any reads without the lock happen.
  pub data Step : Shared → Shared → Type 0 where
    publishes_file :
        (t : Translations) (join : ℕ → ℕ → ℕ) (lang : ℕ) (raw : Members)
        → Step (idle t) (record { translations = publish_file join lang raw t; writer = some lang })
    publishes_overrides :
        (t : Translations) (lang : ℕ) (words : Dictionary)
        → same_translations (words_of lang t.overrides) words ≡ false
        → Step
            (idle t)
            (record { translations = publish_overrides lang words t; writer = some lang })
    invalidates :
        (t : Translations) (lang : ℕ)
        → Step (record { translations = t; writer = some lang }) (idle (invalidate lang t))
    responds : (t : Translations) (lang : ℕ) → Step (idle t) (idle (locked_response lang t).1)

  pub data Reach : Shared → Type 0 where
    start : Reach (idle new)
    next : {s t : Shared} → Reach s → Step s t → Reach t
