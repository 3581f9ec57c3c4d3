-- ===== src/Actions/Status.antt =====
-- actions/status_error.go, and AtomicCommittedRejection of actions/atomic_add.go: refusals that
-- name the HTTP status they answer with.
-- An error is its chain: for each error in it the status that it names, if it names one. A message
-- is a number, 0 the empty one; http.StatusText is a parameter.
pub mod Properties
pub mod Tests
use request_generator.Common.{
  ℕ, Bool, true, false, ◌&&◌, ◌||◌, Option, none, some, List, [], ◌∷◌, ltb, leb, ◌==◌,
  if◌then◌else◌,
}

pub record StatusError : Type 0 where
  pub status : ℕ
  pub message : ℕ

abbrev pub bad_request : ℕ
bad_request = 400

abbrev pub internal_server_error : ℕ
internal_server_error = 500

module _ (status_text : ℕ → ℕ) where
  unfoldable pub new_status_error : ℕ → ℕ → StatusError
  new_status_error status message =
      let s =
        if ltb status bad_request || leb internal_server_error status
        then bad_request
        else status in
      record { status = s; message = if message == 0 then status_text s else message }

  -- NewAtomicCommittedRejectionWithStatus, which has the same body.
  unfoldable pub new_rejection_with_status : ℕ → ℕ → StatusError
  new_rejection_with_status status message =
      let s =
        if ltb status bad_request || leb internal_server_error status
        then bad_request
        else status in
      record { status = s; message = if message == 0 then status_text s else message }

  abbrev pub new_rejection : ℕ → StatusError
  new_rejection message = new_rejection_with_status bad_request message

-- errors.As for what names a status: the first in the chain.
unfoldable pub coded : List (Option ℕ) → Option ℕ
coded [] = none
coded (none ∷ chain) = coded chain
coded (some status ∷ chain) = some status

unfoldable pub error_status : List (Option ℕ) → ℕ → ℕ
error_status chain fallback = elim (coded chain) [
  | none ↦ fallback
  | some status ↦
      if leb bad_request status && ltb status internal_server_error then status else fallback
]
