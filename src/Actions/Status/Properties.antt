-- ===== src/Actions/Status/Properties.antt =====
-- actions/status_error.go: which statuses a client can see.
use request_generator.Common.{
  ℕ, ◌≡◌, ◌≤◌, ◌<◌, refl, ◌&&◌, Option, none, some, List, [], ◌∷◌, ◌++◌, ltb, leb, if◌then◌else◌,
  All, arith,
}
use request_generator.Actions.Status.{
  new_status_error, new_rejection_with_status, coded, error_status,
}

abbrev pub ClientError : ℕ → Type 0
ClientError s = (400 ≤ s) × (s < 500)

coded-append :
    (wraps chain : List (Option ℕ))
    → All (λ o. o ≡ none) wraps
    → coded (wraps ++ chain) ≡ coded chain
unfolding coded
coded-append [] chain h = refl
coded-append (none ∷ wraps) chain h = coded-append wraps chain h.1
coded-append (some s ∷ wraps) chain h = cc (h.0)

module _ (status_text : ℕ → ℕ) where
  -- However often a refusal or a committed rejection is wrapped by errors that name no status, the
  -- answer's status is the one that it was made with, where that is a client error, and else 400.
  pub error_status-wrapped :
      (wraps chain : List (Option ℕ)) (status message fallback : ℕ)
      → All (λ o. o ≡ none) wraps
      → let expected = if leb 400 status && ltb status 500 then status else 400 in
        (error_status
            (wraps ++ some (new_status_error status_text status message).status ∷ chain)
            fallback
          ≡ expected)
        × (error_status
              (wraps ++ some (new_rejection_with_status status_text status message).status ∷ chain)
              fallback
            ≡ expected)
  unfolding error_status coded new_status_error new_rejection_with_status
  error_status-wrapped wraps chain status message fallback h = ground (
    arith,
    coded-append wraps (some (new_status_error status_text status message).status ∷ chain) h,
    coded-append wraps (some (new_rejection_with_status status_text status message).status ∷ chain)
        h,
  )

-- With a client error to fall back to, every error is answered with a client error.
error_status-ClientError :
    (chain : List (Option ℕ)) (fallback : ℕ)
    → ClientError fallback
    → ClientError (error_status chain fallback)
unfolding error_status
error_status-ClientError chain fallback h = ground arith
