-- ===== src/Realtime/AtomicEvents/Publishes.antt =====
-- atomic_realtime.go: the check of what an atomic operation returned, and the events made of it.
-- json.Valid, the conversion of an int64 to a float64, and the text of a time are parameters.
use request_generator.Common.{
  ℕ, Bool, not, ◌⊎◌, inl, inr, Option, none, some, List, [], ◌∷◌, ◌++◌, ◌==◌, if◌then◌else◌,
}
use request_generator.Common.Assoc.{lookup, insert}
use request_generator.Actions.Atomic.{
  Value, field, Record, RecordFault, validate_record, Dynamic, a_string, some_strings, some_ints,
  interface,
}
use request_generator.Realtime.Topics.{Topic, user_topic, role_topic, is_member}
use request_generator.Realtime.Values.{TypedValue, string_type, number_type, bool_type, Correlation}
use request_generator.Realtime.AtomicEvents.{
  string_kind, int_kind, float_kind, bool_kind, time_kind, strings_kind, ints_kind, json_kind,
  Source, input_scope, result_scope, other_scope, PublishConfig, is_none, is_nil,
}

unfoldable pub value_kind : Value → ℕ
value_kind v =
    if not (is_none v.string)
    then string_kind
    else if not (is_none v.int)
    then int_kind
    else if not (is_none v.float)
    then float_kind
    else if not (is_none v.bool)
    then bool_kind
    else if not (is_none v.time)
    then time_kind
    else if not (is_none v.strings)
    then strings_kind
    else if not (is_none v.ints)
    then ints_kind
    else json_kind

-- The loops over the record's fields that fill a map; a later field replaces an earlier one.
unfoldable pub actual_kinds : List (ℕ × Value) → List (ℕ × ℕ) → List (ℕ × ℕ)
actual_kinds [] m = m
actual_kinds ((n, v) ∷ fields) m = actual_kinds fields (insert n (value_kind v) m)

unfoldable pub result_values : List (ℕ × Value) → List (ℕ × Value) → List (ℕ × Value)
result_values [] m = m
result_values ((n, v) ∷ fields) m = result_values fields (insert n v m)

pub data ResultFault : Type 0 where
  invalid_record : RecordFault → ResultFault
  missing_field : ℕ → ResultFault
  other_kind : ℕ → ResultFault

unfoldable pub check_kinds : List (ℕ × ℕ) → List (ℕ × ℕ) → Option ResultFault
check_kinds m [] = none
check_kinds m ((name, declared) ∷ fields) =
    let rest = check_kinds m fields in
    elim (lookup name m) [
      | none ↦ some (missing_field name)
      | some kind ↦ if kind == declared then rest else some (other_kind name)
    ]

-- The source of an event's value in the input or in the result; `none` is an error.
unfoldable pub resolve_source : List (ℕ × Value) → List (ℕ × Value) → Source → Option Value
resolve_source input result s = elim s.scope [
  | input_scope ↦ field s.field input
  | result_scope ↦ lookup s.field result
  | other_scope n ↦ none
]

unfoldable pub user_ids : Value → List ℕ
user_ids v = elim v.int [ some n ↦ n ∷ [] | none ↦ elim v.ints [ none ↦ [] | some ns ↦ ns ] ]

abbrev pub add_topic : Topic → List Topic → List Topic
add_topic t topics = if is_member t topics then topics else topics ++ t ∷ []

unfoldable pub role_topics : List ℕ → List Topic → List Topic
role_topics [] topics = topics
role_topics (r ∷ roles) topics = role_topics roles (add_topic (role_topic r) topics)

unfoldable pub user_topics : List ℕ → List Topic → List Topic
user_topics [] topics = topics
user_topics (n ∷ ids) topics = user_topics ids (add_topic (user_topic n) topics)

-- `none` is the error of a recipient's value that is missing.
unfoldable pub recipient_topics :
    List (ℕ × Value) → List (ℕ × Value) → List Source → List Topic → Option (List Topic)
recipient_topics input result [] topics = some topics
recipient_topics input result (s ∷ recipients) topics = elim (resolve_source input result s) [
  | none ↦ none
  | some v ↦ recipient_topics input result recipients (user_topics (user_ids v) topics)
]

pub record Publish : Type 0 where
  pub topics : List Topic
  pub correlation : Correlation
  pub payload : List (ℕ × Dynamic)

pub data PublishFault : Type 0 where
  no_correlation missing_recipient no_recipients missing_correlation not_scalar missing_payload :
      PublishFault

module _ (json_valid : ℕ → Bool) where
  unfoldable pub check_result : List (ℕ × ℕ) → Record → Option ResultFault
  check_result result_fields r = elim (validate_record json_valid r) [
    | some e ↦ some (invalid_record e)
    | none ↦
        if is_nil result_fields then none else check_kinds (actual_kinds r.fields []) result_fields
  ]

module _ (to_float : ℕ → ℕ) where
  -- `none` is the error of a value that is not scalar.
  unfoldable pub typed_value : Value → Option TypedValue
  typed_value v = elim v.string [
    | some s ↦ some (record { type = string_type; string = s; number = 0; bool = none })
    | none ↦ elim v.int [
      | some n ↦ some (record { type = number_type; string = 0; number = to_float n; bool = none })
      | none ↦ elim v.float [
        | some f ↦ some (record { type = number_type; string = 0; number = f; bool = none })
        | none ↦ elim v.bool [
          | some b ↦ some (record { type = bool_type; string = 0; number = 0; bool = some b })
          | none ↦ none
        ]
      ]
    ]
  ]

module _ (format_time : ℕ → ℕ) where
  unfoldable pub payload_value : Value → Dynamic
  payload_value v = elim v.time [
    | some t ↦ a_string (format_time t)
    | none ↦ elim v.strings [
      | some xs ↦ some_strings xs
      | none ↦ elim v.ints [ some xs ↦ some_ints xs | none ↦ interface v ]
    ]
  ]

  unfoldable pub payload_of :
      List (ℕ × Value)
      → List (ℕ × Value)
      → List (ℕ × Source)
      → List (ℕ × Dynamic)
      → Option (List (ℕ × Dynamic))
  payload_of input result [] m = some m
  payload_of input result ((key, s) ∷ payload) m = elim (resolve_source input result s) [
    | none ↦ none
    | some v ↦ payload_of input result payload (insert key (payload_value v) m)
  ]

module _ (to_float format_time : ℕ → ℕ) where
  -- What one declaration publishes: nothing where it may skip an event that nobody gets.
  unfoldable pub publish_of :
      List (ℕ × Value) → List (ℕ × Value) → PublishConfig → PublishFault ⊎ Option Publish
  publish_of input result p = elim p.correlation [
    | none ↦ inl no_correlation
    | some c ↦ elim (recipient_topics input result p.recipients (role_topics p.roles [])) [
      | none ↦ inl missing_recipient
      | some [] ↦ if p.skip_empty then inr none else inl no_recipients
      | some (t ∷ topics) ↦ elim (resolve_source input result c.source) [
        | none ↦ inl missing_correlation
        | some v ↦ elim (typed_value to_float v) [
          | none ↦ inl not_scalar
          | some value ↦ elim (payload_of format_time input result p.payload []) [
            | none ↦ inl missing_payload
            | some payload ↦ inr (
                some (record {
                  topics = t ∷ topics;
                  correlation = record { field = c.field; value = value };
                  payload = payload;
                }))
          ]
        ]
      ]
    ]
  ]

  unfoldable pub publishes_of :
      List (ℕ × Value) → List (ℕ × Value) → List PublishConfig → PublishFault ⊎ List Publish
  publishes_of input result [] = inr []
  publishes_of input result (p ∷ publishes) =
      let rest = publishes_of input result publishes in
      elim (publish_of input result p) [
        | inl e ↦ inl e
        | inr none ↦ rest
        | inr (some out) ↦ elim rest [ inl e ↦ inl e | inr outs ↦ inr (out ∷ outs) ]
      ]

  unfoldable pub atomic_publishes :
      List PublishConfig → List (ℕ × Value) → Record → PublishFault ⊎ List Publish
  atomic_publishes publishes input r = publishes_of input (result_values r.fields []) publishes
