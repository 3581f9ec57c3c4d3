-- ===== src/Actions/Status/Tests.antt =====
-- Statuses of concrete errors. The stand-in for http.StatusText names each status by its number.
use request_generator.Common.{◌≡◌, refl, none, some, [], ◌∷◌}
use request_generator.Actions.Status.{new_status_error, new_rejection_with_status, error_status}
use request_generator.Actions.Status.Properties.{error_status-wrapped}

error_status-wrapped_example :
    (error_status (none ∷ some (new_status_error (λ s. s) 404 0).status ∷ []) 400 ≡ 404)
    × (error_status (none ∷ some (new_rejection_with_status (λ s. s) 404 0).status ∷ []) 400 ≡ 404)
error_status-wrapped_example = error_status-wrapped (λ s. s) (none ∷ []) [] 404 0 400 (refl, tt)
