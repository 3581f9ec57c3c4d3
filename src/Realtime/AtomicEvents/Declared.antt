-- ===== src/Realtime/AtomicEvents/Declared.antt =====
-- atomic_realtime.go: what a declaration that is accepted says of recipients, payload and correlation.
use request_generator.Common.{
  ℕ, ◌≡◌, refl, ap, ◌∙◌, ◌⊎◌, inl, inr, true, false, none, some, List, [], ◌∷◌, Option-cases, arith,
}
use request_generator.Common.Assoc.{lookup, insert}
use request_generator.Actions.Atomic.{Value, Dynamic}
use request_generator.Actions.AtomicInput.{Field}
use request_generator.Realtime.Topics.{Topic}
use request_generator.Realtime.Values.{
  TypedValueType, TypedValue, same_type, typed_value_valid, Correlation, correlation_valid,
}
use request_generator.Realtime.Values
use request_generator.Realtime.Publish.{get_field, runtime_type}
use request_generator.Realtime.AtomicEvents.{
  ConfigFault, Source, CorrelationConfig, is_none, is_result, kind_type, source_kind,
  check_recipients, check_correlation_config, check_payload,
}
use request_generator.Realtime.AtomicEvents.Publishes.{
  resolve_source, user_ids, user_topics, recipient_topics, payload_value, payload_of,
}
use request_generator.Realtime.AtomicEvents.Typing.{Provides}

same_type-eq : (s t : TypedValueType) → same_type s t ≡ true → s ≡ t
unfolding same_type
same_type-eq Values.string_type Values.string_type h = refl
same_type-eq Values.number_type Values.number_type h = refl
same_type-eq Values.bool_type Values.bool_type h = refl
same_type-eq Values.null_type Values.null_type h = refl
same_type-eq s t h = ground (arith, h)

pub same_type_refl : (t : TypedValueType) → same_type t t ≡ true
unfolding same_type
same_type_refl Values.string_type = refl
same_type_refl Values.number_type = refl
same_type_refl Values.bool_type = refl
same_type_refl Values.null_type = refl
same_type_refl (Values.other_type n) = ground arith

-- A source that must be a declared result field has its value whatever the input is.
result_source :
    (known : List (ℕ × ℕ)) (result : List (ℕ × Value)) (s : Source)
    → Provides known result
    → is_result s.scope ≡ true
    → is_none (lookup s.field known) ≡ false
    → (v : Value) × ((input : List (ℕ × Value)) → resolve_source input result s ≡ some v)
unfolding resolve_source
result_source known result s p scoped declared = elim (Option-cases (lookup s.field known)) [
  | inl gone ↦ absurd (ground (arith, declared, gone))
  | inr (kind, there) ↦
      let (v, l, w) = p s.field kind there in (v, λ input. ground (arith, scoped, l))
]

pub recipient_topics-check :
    (known : List (ℕ × ℕ)) (result : List (ℕ × Value)) (recipients : List Source)
    (topics : List Topic)
    → Provides known result
    → check_recipients known recipients ≡ none
    → (ts : List Topic) × ((input : List (ℕ × Value))
        → recipient_topics input result recipients topics ≡ some ts)
unfolding check_recipients recipient_topics
recipient_topics-check known result [] topics p h = (topics, λ input. refl)
recipient_topics-check known result (s ∷ recipients) topics p h =
    let (v, found) = result_source known result s p (ground (arith, h)) (ground (arith, h)) in
    let (ts, rest) =
      recipient_topics-check known result recipients (user_topics (user_ids v) topics) p
        (ground (arith, h)) in
    (ts, λ input. ground (arith, found input, rest input))

pub payload_of-check :
    (format_time : ℕ → ℕ) (known : List (ℕ × ℕ)) (result : List (ℕ × Value))
    (payload : List (ℕ × Source)) (seen : List ℕ) (m : List (ℕ × Dynamic))
    → Provides known result
    → check_payload known seen payload ≡ none
    → (out : List (ℕ × Dynamic)) × ((input : List (ℕ × Value))
        → payload_of format_time input result payload m ≡ some out)
unfolding check_payload payload_of
payload_of-check format_time known result [] seen m p h = (m, λ input. refl)
payload_of-check format_time known result ((key, s) ∷ payload) seen m p h =
    let (v, found) = result_source known result s p (ground (arith, h)) (ground (arith, h)) in
    let (out, rest) =
      payload_of-check format_time known result payload (key ∷ seen)
        (insert key (payload_value format_time v) m) p (ground (arith, h)) in
    (out, λ input. ground (arith, found input, rest input))

-- What an accepted correlation declares.
abbrev pub Declares :
    List Field → List (ℕ × ℕ) → ℕ → CorrelationConfig → ℕ → TypedValueType → Field → Type 0
Declares fields known declared c kind t f =
    (c.field ≡ declared)
    × (source_kind fields known c.source ≡ inr kind)
    × (kind_type kind ≡ some t)
    × (get_field declared fields ≡ some f)
    × (runtime_type f.type ≡ some t)

source_kind-cases :
    (o : ConfigFault ⊎ ℕ) → ((e : ConfigFault) × (o ≡ inl e)) ⊎ ((kind : ℕ) × (o ≡ inr kind))
source_kind-cases (inl e) = inl (e, refl)
source_kind-cases (inr kind) = inr (kind, refl)

pub correlation-Declares :
    (fields : List Field) (known : List (ℕ × ℕ)) (declared : ℕ) (c : CorrelationConfig)
    → check_correlation_config fields known declared (some c) ≡ none
    → (kind : ℕ) × (t : TypedValueType) × (f : Field) × Declares fields known declared c kind t f
unfolding check_correlation_config
correlation-Declares fields known declared c h =
    let same : c.field ≡ declared = ground (arith, h) in
    elim (source_kind-cases (source_kind fields known c.source)) [
      | inl (e, bad) ↦ absurd (ground (arith, h, bad))
      | inr (kind, good) ↦ elim (Option-cases (get_field c.field fields)) [
        | inl gone ↦ absurd (ground (arith, h, good, gone))
        | inr (f, there) ↦ elim (Option-cases (runtime_type f.type)) [
          | inl no_type ↦ absurd (ground (arith, h, good, there, no_type))
          | inr (t, expected) ↦ elim (Option-cases (kind_type kind)) [
            | inl no_type ↦ absurd (ground (arith, h, good, there, no_type, expected))
            | inr (u, actual) ↦
                let equal : u ≡ t =
                  same_type-eq u t (ground (arith, h, good, there, expected, actual)) in
                (
                  kind,
                  t,
                  f,
                  (same, good, actual ∙ ap some equal, ground (arith, same, there), expected),
                )
          ]
        ]
      ]
    ]
