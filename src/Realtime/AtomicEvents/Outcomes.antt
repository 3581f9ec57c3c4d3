-- ===== src/Realtime/AtomicEvents/Outcomes.antt =====
-- atomic_realtime.go: what the declarations that are accepted can make.
use request_generator.Common.{
  ℕ, ◌≡◌, ◌≢◌, refl, ap, ◌∙◌, ◌⊎◌, inl, inr, true, false, Option, none, some, List, [], ◌∷◌,
  Option-cases, Bool-cases, All, In, arith,
}
use request_generator.Actions.Atomic.{Value}
use request_generator.Actions.AtomicInput.{Field, Input, Libraries, atomic_input}
use request_generator.Realtime.Topics.{Topic}
use request_generator.Realtime.Values.{
  TypedValueType, TypedValue, typed_value_valid, correlation_valid,
}
use request_generator.Realtime.Publish.{Action, find_action, check_correlation, validate_publish}
use request_generator.Realtime.AtomicEvents.{
  CorrelationConfig, PublishConfig, is_nil, kind_type, check_correlation_config, check_publish,
  check_publishes,
}
use request_generator.Realtime.AtomicEvents.Publishes.{
  resolve_source, role_topics, Publish, PublishFault, no_recipients, missing_correlation,
  not_scalar, typed_value, publish_of, publishes_of,
}
use request_generator.Realtime.AtomicEvents.Typing.{
  typed_value-kind, Unambiguous, IsAbsent, Provides, resolve_source-kind,
}
use request_generator.Realtime.AtomicEvents.Declared.{
  same_type_refl, recipient_topics-check, payload_of-check, Declares, correlation-Declares,
}

-- The event passes the checks of its publication, and somebody gets it.
abbrev pub IsAccepted : List Field → List Action → ℕ → Publish → Type 0
IsAccepted fields actions name out =
    (validate_publish fields actions name (some out.correlation) ≡ none)
    × (is_nil out.topics ≡ false)

-- The declared correlation comes from the input, which has no value for it.
abbrev pub IsSilent : List (ℕ × Value) → PublishConfig → Type 0
IsSilent input p = (c : CorrelationConfig) × (p.correlation ≡ some c) × IsAbsent input c.source

-- A correlation of the declared type, on an action that declares its field.
declared-validate_publish :
    (fields : List Field) (actions : List Action) (name declared : ℕ) (a : Action)
    (known : List (ℕ × ℕ)) (c : CorrelationConfig) (kind : ℕ) (t : TypedValueType) (f : Field)
    (x : TypedValue)
    → find_action name actions ≡ some a
    → a.realtime ≡ some declared
    → declared ≢ 0
    → Declares fields known declared c kind t f
    → x.type ≡ t
    → typed_value_valid x.type x.bool ≡ true
    → validate_publish fields actions name (some (record { field = c.field; value = x })) ≡ none
unfolding validate_publish check_correlation correlation_valid
declared-validate_publish fields actions name declared a known c kind t f x found has nonempty d
      typed valid =
    ground (arith, found, has, nonempty, d.0, d.3, d.4, typed, valid, same_type_refl t)

topics-cases : (ts : List Topic) → (ts ≡ []) ⊎ ((t : Topic) × (more : List Topic) × (ts ≡ t ∷ more))
topics-cases [] = inl refl
topics-cases (t ∷ more) = inr (t, more, refl)

-- What one declaration can make.
abbrev Outcome :
    List Field
    → List Action
    → ℕ
    → List (ℕ × Value)
    → PublishConfig
    → PublishFault ⊎ Option Publish
    → Type 0
Outcome fields actions name input p o =
    (o ≡ inl no_recipients)
    ⊎ ((IsSilent input p × ((o ≡ inl missing_correlation) ⊎ (o ≡ inl not_scalar)))
        ⊎ ((o ≡ inr none)
            ⊎ ((out : Publish) × (o ≡ inr (some out)) × IsAccepted fields actions name out)))

module _ (lib : Libraries) (to_float format_time : ℕ → ℕ) where
  publish_of-Outcome :
      (fields : List Field) (actions : List Action) (name declared : ℕ) (a : Action)
      (known : List (ℕ × ℕ)) (request : List (ℕ × Input)) (input result : List (ℕ × Value))
      (p : PublishConfig)
      → find_action name actions ≡ some a
      → a.realtime ≡ some declared
      → declared ≢ 0
      → Unambiguous fields
      → atomic_input lib fields request ≡ some input
      → Provides known result
      → check_publish fields known declared p ≡ none
      → Outcome fields actions name input p (publish_of to_float format_time input result p)
  unfolding publish_of check_publish check_correlation_config resolve_source typed_value
  publish_of-Outcome fields actions name declared a known request input result p found has nonempty
        u made provides h =
      elim (Option-cases p.correlation) [
        | inl gone ↦ absurd (ground (arith, h, gone))
        | inr (c, there) ↦
            let (ts, topics) =
              recipient_topics-check known result p.recipients (role_topics p.roles []) provides
                (ground (arith, h)) in
            let (out, payload) =
              payload_of-check format_time known result p.payload [] [] provides
                (ground (arith, h)) in
            let (kind, t, f, d) =
              correlation-Declares fields known declared c (ground (arith, h, there)) in
            elim (topics-cases ts) [
              | inl nobody ↦ elim (Bool-cases p.skip_empty) [
                | inl skips ↦ inr (inr (inl (ground (arith, there, topics input, nobody, skips))))
                | inr must ↦ inl (ground (arith, there, topics input, nobody, must))
              ]
              | inr (first, more, reached) ↦
                  elim (resolve_source-kind lib fields request known input result c.source kind u
                    made provides d.1) [
                      | inl (scoped, inl missing) ↦ inr (
                          inl (
                            (c, there, (scoped, inl missing)),
                            inl ground (arith, there, topics input, reached, scoped, missing),
                          ))
                      | inl (scoped, inr null) ↦ inr (
                          inl (
                            (c, there, (scoped, inr null)),
                            inr ground (arith, there, topics input, reached, scoped, null),
                          ))
                      | inr (v, resolved, kinded) ↦
                          let (x, scalar, typed, valid) =
                            typed_value-kind to_float v t (ap kind_type kinded ∙ d.2) in
                          inr (
                            inr (
                              inr (
                                record {
                                  topics = first ∷ more;
                                  correlation = record { field = c.field; value = x };
                                  payload = out;
                                },
                                ground (
                                  arith,
                                  there,
                                  topics input,
                                  reached,
                                  resolved,
                                  scalar,
                                  payload input,
                                ),
                                (
                                  declared-validate_publish fields actions name declared a known c
                                      kind t f x found has nonempty d typed valid,
                                  refl,
                                ),
                              )))
                    ]
            ]
      ]

  abbrev pub Outcomes :
      List Field
      → List Action
      → ℕ
      → List (ℕ × Value)
      → List PublishConfig
      → PublishFault ⊎ List Publish
      → Type 0
  Outcomes fields actions name input publishes o =
      (o ≡ inl no_recipients)
      ⊎ (((p : PublishConfig) × In p publishes
            × IsSilent input p
            × ((o ≡ inl missing_correlation) ⊎ (o ≡ inl not_scalar)))
          ⊎ ((outs : List Publish) × (o ≡ inr outs) × All (IsAccepted fields actions name) outs))

  -- A first declaration that publishes nothing, and one that publishes.
  skipped :
      (fields : List Field) (actions : List Action) (name : ℕ) (input result : List (ℕ × Value))
      (p : PublishConfig) (publishes : List PublishConfig)
      → publish_of to_float format_time input result p ≡ inr none
      → Outcomes fields actions name input publishes
          (publishes_of to_float format_time input result publishes)
      → Outcomes fields actions name input
          (p ∷ publishes)
          (publishes_of to_float format_time input result (p ∷ publishes))
  unfolding publishes_of
  skipped fields actions name input result p publishes h (inl e) = inl (ground (arith, h, e))
  skipped fields actions name input result p publishes h (inr (inl (q, at, silent, inl e))) =
      inr (inl (q, inr at, silent, inl (ground (arith, h, e))))
  skipped fields actions name input result p publishes h (inr (inl (q, at, silent, inr e))) =
      inr (inl (q, inr at, silent, inr (ground (arith, h, e))))
  skipped fields actions name input result p publishes h (inr (inr (outs, e, ok))) =
      inr (inr (outs, ground (arith, h, e), ok))

  published :
      (fields : List Field) (actions : List Action) (name : ℕ) (input result : List (ℕ × Value))
      (p : PublishConfig) (publishes : List PublishConfig) (out : Publish)
      → publish_of to_float format_time input result p ≡ inr (some out)
      → IsAccepted fields actions name out
      → Outcomes fields actions name input publishes
          (publishes_of to_float format_time input result publishes)
      → Outcomes fields actions name input
          (p ∷ publishes)
          (publishes_of to_float format_time input result (p ∷ publishes))
  unfolding publishes_of
  published fields actions name input result p publishes out h ok (inl e) =
      inl (ground (arith, h, e))
  published fields actions name input result p publishes out h ok
        (inr (inl (q, at, silent, inl e))) =
      inr (inl (q, inr at, silent, inl (ground (arith, h, e))))
  published fields actions name input result p publishes out h ok
        (inr (inl (q, at, silent, inr e))) =
      inr (inl (q, inr at, silent, inr (ground (arith, h, e))))
  published fields actions name input result p publishes out h ok (inr (inr (outs, e, all))) =
      inr (inr (out ∷ outs, ground (arith, h, e), (ok, all)))

  pub publishes_of-Outcomes :
      (fields : List Field) (actions : List Action) (name declared : ℕ) (a : Action)
      (known : List (ℕ × ℕ)) (request : List (ℕ × Input)) (input result : List (ℕ × Value))
      (publishes : List PublishConfig)
      → find_action name actions ≡ some a
      → a.realtime ≡ some declared
      → declared ≢ 0
      → Unambiguous fields
      → atomic_input lib fields request ≡ some input
      → Provides known result
      → check_publishes fields known declared publishes ≡ none
      → Outcomes fields actions name input publishes
          (publishes_of to_float format_time input result publishes)
  unfolding publishes_of check_publishes
  publishes_of-Outcomes fields actions name declared a known request input result [] found has
        nonempty u made provides h =
      inr (inr ([], refl, tt))
  publishes_of-Outcomes fields actions name declared a known request input result (p ∷ publishes)
        found has nonempty u made provides h =
      let one =
        publish_of-Outcome fields actions name declared a known request input result p found has
          nonempty u made provides (ground (arith, h)) in
      let rest =
        publishes_of-Outcomes fields actions name declared a known request input result publishes
          found has nonempty u made provides (ground (arith, h)) in
      elim one [
        | inl e ↦ inl (ground (arith, e))
        | inr (inl (silent, inl e)) ↦ inr (inl (p, inl refl, silent, inl (ground (arith, e))))
        | inr (inl (silent, inr e)) ↦ inr (inl (p, inl refl, silent, inr (ground (arith, e))))
        | inr (inr (inl e)) ↦ skipped fields actions name input result p publishes e rest
        | inr (inr (inr (out, e, ok))) ↦
            published fields actions name input result p publishes out e ok rest
      ]
