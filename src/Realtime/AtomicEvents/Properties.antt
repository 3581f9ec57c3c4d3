-- ===== src/Realtime/AtomicEvents/Properties.antt =====
-- atomic_realtime.go: a declaration that is accepted publishes events that realtime.go accepts.
use request_generator.Common.{
  ℕ, ◌≡◌, ◌≢◌, refl, sym, ap, ◌∙◌, ◌⊎◌, inl, inr, Bool, Option, none, some, List, [], ◌∷◌,
  Option-cases, some_inj, map, All, In, arith,
}
use request_generator.Common.Assoc.{lookup}
use request_generator.Actions.Atomic.{Value, Record, Dynamic}
use request_generator.Actions.AtomicInput.{Field, Input, Libraries, atomic_input}
use request_generator.Realtime.Topics.{Topic}
use request_generator.Realtime.Publish.{Action, find_action}
use request_generator.Realtime.AtomicEvents.{
  ConfigFault, PublishConfig, declared_fields, check_publish, check_publishes, check_result_config,
  check_operation,
}
use request_generator.Realtime.AtomicEvents.Publishes.{
  actual_kinds, result_values, check_kinds, check_result, role_topics, Publish, PublishFault,
  no_recipients, missing_correlation, not_scalar, publish_of, publishes_of, atomic_publishes,
}
use request_generator.Realtime.AtomicEvents.Typing.{
  actual_kinds-result_values, check_kinds-declared_fields, Unambiguous, Provides,
}
use request_generator.Realtime.AtomicEvents.Declared.{recipient_topics-check, payload_of-check}
use request_generator.Realtime.AtomicEvents.Outcomes.{IsAccepted, IsSilent, publishes_of-Outcomes}

-- A declaration that is accepted, part by part.
config_cases :
    (fields : List Field) (realtime : Option ℕ) (result_fields : List (ℕ × ℕ))
    (publishes : List PublishConfig)
    → check_operation fields realtime (some (result_fields, publishes)) ≡ none
    → (known : List (ℕ × ℕ)) × (declared_fields result_fields [] ≡ inr known)
      × ((publishes ≡ [])
          ⊎ ((declared : ℕ) × (realtime ≡ some declared)
              × (declared ≢ 0)
              × (check_publishes fields known declared publishes ≡ none)))
unfolding check_operation check_result_config
config_cases fields realtime result_fields publishes h =
    by_fields (declared_fields result_fields []) refl publishes h
  where
    by_fields :
        (o : ConfigFault ⊎ List (ℕ × ℕ))
        → declared_fields result_fields [] ≡ o
        → (ps : List PublishConfig)
        → check_operation fields realtime (some (result_fields, ps)) ≡ none
        → (known : List (ℕ × ℕ)) × (declared_fields result_fields [] ≡ inr known)
          × ((ps ≡ [])
              ⊎ ((declared : ℕ) × (realtime ≡ some declared)
                  × (declared ≢ 0)
                  × (check_publishes fields known declared ps ≡ none)))
    by_fields (inl e) d ps k = absurd (ground (arith, d, k))
    by_fields (inr known) d [] k = (known, d, inl refl)
    by_fields (inr known) d (p ∷ ps) k = elim (Option-cases realtime) [
      | inl gone ↦ absurd (ground (arith, d, k, gone))
      | inr (declared, there) ↦ (
        known,
        d,
        inr (declared, there, ground (arith, d, k, there), ground (arith, d, k, there)),
      )
    ]

check_result-Provides :
    (json_valid : ℕ → Bool) (result_fields known : List (ℕ × ℕ)) (r : Record)
    → check_result json_valid result_fields r ≡ none
    → declared_fields result_fields [] ≡ inr known
    → Provides known (result_values r.fields [])
unfolding check_result check_kinds lookup
check_result-Provides json_valid result_fields known r h d n kind l =
    let checked : check_kinds (actual_kinds r.fields []) result_fields ≡ none =
      by_length result_fields h in
    let same = actual_kinds-result_values n r.fields [] [] refl in
    elim (check_kinds-declared_fields n kind result_fields [] known (actual_kinds r.fields [])
      checked d l) [
        | inl e ↦ absurd (ground (arith, e))
        | inr e ↦ elim (Option-cases (lookup n (result_values r.fields []))) [
          | inl gone ↦ absurd (ground (arith, same, e, gone))
          | inr (v, there) ↦ (v, there, ground (arith, same, e, there))
        ]
      ]
  where
    by_length :
        (fs : List (ℕ × ℕ))
        → check_result json_valid fs r ≡ none
        → check_kinds (actual_kinds r.fields []) fs ≡ none
    by_length [] k = refl
    by_length (f ∷ fs) k = ground (arith, k)

module _ (lib : Libraries) (json_valid : ℕ → Bool) (to_float format_time : ℕ → ℕ) where
  -- Events of an atomic operation are typed. Let an action's declaration have passed the checks at
  -- the start, let the input be made of a request by the module's fields, each of which is found under
  -- its name, and let the result have passed its check. Then either the events are made, and each has
  -- a topic and passes the checks that its publication makes of the correlation; or the result names
  -- no recipient; or a correlation that is declared to come from the input has no value there, or null.
  pub atomic_publishes-IsAccepted :
      (fields : List Field) (actions : List Action) (name : ℕ) (a : Action)
      (result_fields : List (ℕ × ℕ)) (publishes : List PublishConfig) (request : List (ℕ × Input))
      (input : List (ℕ × Value)) (r : Record)
      → find_action name actions ≡ some a
      → check_operation fields a.realtime (some (result_fields, publishes)) ≡ none
      → Unambiguous fields
      → atomic_input lib fields request ≡ some input
      → check_result json_valid result_fields r ≡ none
      → let made = atomic_publishes to_float format_time publishes input r in
        (made ≡ inl no_recipients)
        ⊎ (((p : PublishConfig) × In p publishes
              × IsSilent input p
              × ((made ≡ inl missing_correlation) ⊎ (made ≡ inl not_scalar)))
            ⊎ ((outs : List Publish) × (made ≡ inr outs)
                × All (IsAccepted fields actions name) outs))
  unfolding atomic_publishes publishes_of
  atomic_publishes-IsAccepted fields actions name a result_fields publishes request input r found h
        u made ok =
      let (known, d, cases) = config_cases fields a.realtime result_fields publishes h in
      elim cases [
        | inl nothing ↦ inr (inr ([], ground (arith, nothing), tt))
        | inr (declared, has, nonempty, checked) ↦
            publishes_of-Outcomes lib to_float format_time fields actions name declared a known
              request input (result_values r.fields []) publishes found has nonempty u made
              (check_result-Provides json_valid result_fields known r ok d) checked
      ]

-- What another user sees of an event beside its correlation.
abbrev pub public_part : Publish → List Topic × List (ℕ × Dynamic)
public_part out = (out.topics, out.payload)

abbrev pub public_option : Option Publish → Option (List Topic × List (ℕ × Dynamic))
public_option none = none
public_option (some out) = some (public_part out)

module _ (to_float format_time : ℕ → ℕ) where
  publish_of-public :
      (fields : List Field) (known : List (ℕ × ℕ)) (declared : ℕ) (result : List (ℕ × Value))
      (p : PublishConfig) (input other : List (ℕ × Value)) (out out' : Option Publish)
      → Provides known result
      → check_publish fields known declared p ≡ none
      → publish_of to_float format_time input result p ≡ inr out
      → publish_of to_float format_time other result p ≡ inr out'
      → public_option out ≡ public_option out'
  unfolding publish_of check_publish
  publish_of-public fields known declared result p input other out out' provides h e e' =
      let (ts, topics) =
        recipient_topics-check known result p.recipients (role_topics p.roles []) provides
          (ground (arith, h)) in
      let (m, payload) =
        payload_of-check format_time known result p.payload [] [] provides (ground (arith, h)) in
      ground (arith, e, e', topics input, topics other, payload input, payload other)

  -- What the first declaration made where the whole list was made.
  first_made :
      (input result : List (ℕ × Value)) (p : PublishConfig) (ps : List PublishConfig)
      (outs : List Publish)
      → publishes_of to_float format_time input result (p ∷ ps) ≡ inr outs
      → (o : Option Publish) × (more : List Publish) × (publish_of to_float format_time input result
            p
          ≡ inr o)
        × (publishes_of to_float format_time input result ps ≡ inr more)
        × (outs ≡ (elim o [ none ↦ more | some out ↦ out ∷ more ]))
  unfolding publishes_of
  first_made input result p ps outs e =
      by_made (publish_of to_float format_time input result p)
        (publishes_of to_float format_time input result ps) refl refl
    where
      by_made :
          (o : PublishFault ⊎ Option Publish) (rest : PublishFault ⊎ List Publish)
          → publish_of to_float format_time input result p ≡ o
          → publishes_of to_float format_time input result ps ≡ rest
          → (o' : Option Publish) × (more : List Publish) × (publish_of to_float format_time input
                result p
              ≡ inr o')
            × (publishes_of to_float format_time input result ps ≡ inr more)
            × (outs ≡ (elim o' [ none ↦ more | some out ↦ out ∷ more ]))
      by_made (inl f) rest k l = absurd (ground (arith, e, k))
      by_made (inr none) (inl f) k l = absurd (ground (arith, e, k, l))
      by_made (inr none) (inr more) k l = (none, more, k, l, ground (arith, e, k, l))
      by_made (inr (some out)) (inl f) k l = absurd (ground (arith, e, k, l))
      by_made (inr (some out)) (inr more) k l = (some out, more, k, l, ground (arith, e, k, l))

  join_public :
      (o o' : Option Publish) (more more' outs outs' : List Publish)
      → public_option o ≡ public_option o'
      → map public_part more ≡ map public_part more'
      → outs ≡ (elim o [ none ↦ more | some out ↦ out ∷ more ])
      → outs' ≡ (elim o' [ none ↦ more' | some out ↦ out ∷ more' ])
      → map public_part outs ≡ map public_part outs'
  join_public none none more more' outs outs' h k e e' =
      ap (map public_part) e ∙ k ∙ ap (map public_part) (sym e')
  join_public none (some y) more more' outs outs' h k e e' = absurd (ground (arith, h))
  join_public (some x) none more more' outs outs' h k e e' = absurd (ground (arith, h))
  join_public (some x) (some y) more more' outs outs' h k e e' =
      ap (map public_part) e
      ∙ ap (λ z. z ∷ map public_part more) (some_inj h)
      ∙ ap (λ z. public_part y ∷ z) k
      ∙ ap (map public_part) (sym e')

  publishes_of-public :
      (fields : List Field) (known : List (ℕ × ℕ)) (declared : ℕ) (result : List (ℕ × Value))
      (ps : List PublishConfig) (input other : List (ℕ × Value)) (outs outs' : List Publish)
      → Provides known result
      → check_publishes fields known declared ps ≡ none
      → publishes_of to_float format_time input result ps ≡ inr outs
      → publishes_of to_float format_time other result ps ≡ inr outs'
      → map public_part outs ≡ map public_part outs'
  unfolding publishes_of check_publishes
  publishes_of-public fields known declared result [] input other outs outs' provides h e e' =
      ground (arith, e, e')
  publishes_of-public fields known declared result (p ∷ ps) input other outs outs' provides h e e' =
      let (o, more, one, rest, joined) = first_made input result p ps outs e in
      let (o', more', one', rest', joined') = first_made other result p ps outs' e' in
      join_public o o' more more' outs outs'
        (publish_of-public fields known declared result p input other o o' provides
          (ground (arith, h)) one one')
        (publishes_of-public fields known declared result ps input other more more' provides
          (ground (arith, h)) rest rest')
        joined joined'

  -- The input of a request chooses neither who gets an event nor what its payload is. Under an
  -- accepted declaration and a result that has passed its check, the events made with two inputs
  -- have the same topics and the same payloads: they differ in their correlations at most.
  pub atomic_publishes-public :
      (json_valid : ℕ → Bool) (fields : List Field) (realtime : Option ℕ)
      (result_fields : List (ℕ × ℕ)) (publishes : List PublishConfig)
      (input other : List (ℕ × Value)) (r : Record) (outs outs' : List Publish)
      → check_operation fields realtime (some (result_fields, publishes)) ≡ none
      → check_result json_valid result_fields r ≡ none
      → atomic_publishes to_float format_time publishes input r ≡ inr outs
      → atomic_publishes to_float format_time publishes other r ≡ inr outs'
      → map public_part outs ≡ map public_part outs'
  unfolding atomic_publishes publishes_of
  atomic_publishes-public json_valid fields realtime result_fields publishes input other r outs
        outs' h ok e e' =
      let (known, d, cases) = config_cases fields realtime result_fields publishes h in
      elim cases [
        | inl nothing ↦ ground (arith, nothing, e, e')
        | inr (declared, has, nonempty, checked) ↦
            publishes_of-public fields known declared (result_values r.fields []) publishes input
              other outs outs' (check_result-Provides json_valid result_fields known r ok d) checked
              e e'
      ]
